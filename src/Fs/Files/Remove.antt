-- ===== src/Fs/Files/Remove.antt =====
-- `sfs_remove` of fs.c for a file with one frame.
use class_projects.Base.{
  ℕ, zero, suc, ◌+◌, ◌-◌, ◌*◌, ◌/◌, ◌%◌, ◌≤◌, ◌<◌, ◌≡◌, ◌≢◌, ◌⊎◌, ◌∙◌, refl, true, false, arith,
  leb, ◌==◌, if◌then◌else◌, Bool-cases, inl, inr,
}
use class_projects.Base.Bytes.{Bytes}
use class_projects.Base.Run.{Returns, returns, bind}
use class_projects.Fs.Word.{u32_end, get_u32, put_u32, put_u32-cong}
use class_projects.Fs.{
  Sfs, FdStruct, sfs_block_size, sfs_max_opened_files, sfs_read_block, sfs_write_block, dir_inode,
}
use class_projects.Fs.Freemap.{used, IsMounted, Marks}
use class_projects.Fs.Image.{free_nonzero}
use class_projects.Fs.Files.{first_frame, drop_inode, free_frames, sfs_remove, sfs_close}
use class_projects.Fs.Content.Blocks.{raw, IsWhole, read_raw, get_u32-same}
use class_projects.Fs.Content.Span.{write_block-byte, write_block-size}

-- The descriptor has a file of its directory, at place `i`, with a frame in block `b` and no other.
pub record IsRemovable (fs : Sfs) (fd i b : ℕ) : Type 0 where
  pub open_there : fd < sfs_max_opened_files
  pub mounted : IsMounted fs
  pub small : fs.fh.size ≤ u32_end
  pub large : 2 * sfs_block_size ≤ fs.fh.size
  pub dir_whole : IsWhole fs.fh (fs.fdtable fd).dir_bid
  pub dir_behind : 2 ≤ (fs.fdtable fd).dir_bid
  pub place : i < 97
  pub entry : dir_inode (raw fs.fh (fs.fdtable fd).dir_bid) i ≡ (fs.fdtable fd).inode_bid
  pub before :
      (j : ℕ) → j < i → dir_inode (raw fs.fh (fs.fdtable fd).dir_bid) j ≢ (fs.fdtable fd).inode_bid
  pub inode_whole : IsWhole fs.fh (fs.fdtable fd).inode_bid
  pub inode_apart : (fs.fdtable fd).inode_bid ≢ (fs.fdtable fd).dir_bid
  pub inode_some : (fs.fdtable fd).inode_bid ≢ 0
  pub inode_in_map : (fs.fdtable fd).inode_bid ≤ 4096
  pub frame : first_frame (raw fs.fh (fs.fdtable fd).inode_bid) ≡ b
  pub frame_whole : IsWhole fs.fh b
  pub frame_apart : b ≢ (fs.fdtable fd).dir_bid
  pub frame_some : b ≢ 0
  pub frame_in_map : b ≤ 4096
  pub only_frame : get_u32 (raw fs.fh b) 0 ≡ 0

-- What is left.
pub record Removed (fd i b : ℕ) (fs fs' : Sfs) : Type 0 where
  pub closed : (fs'.fdtable fd).valid ≡ 0
  pub dir :
      (o : ℕ)
      → o < sfs_block_size
      → raw fs'.fh (fs.fdtable fd).dir_bid o
        ≡ put_u32 (124 + 4 * i) 0 (raw fs.fh (fs.fdtable fd).dir_bid) o
  pub marks :
      (j : ℕ)
      → used fs'.freemap j ≡ (
          if j == (fs.fdtable fd).inode_bid - 1
          then false
          else if j == b - 1
          then false
          else used fs.freemap j)
  pub size : fs'.fh.size ≡ fs.fh.size
  pub outside :
      (x : ℕ)
      → x < fs.fh.size
      → (x < sfs_block_size) ⊎ (2 * sfs_block_size ≤ x)
      → x / sfs_block_size ≢ (fs.fdtable fd).dir_bid
      → fs'.fh.byte x ≡ fs.fh.byte x

-- The first place with the inode is cleared.
drop_inode-first :
    (n j i q d : ℕ) (dir : Bytes) (fs : Sfs)
    → j ≤ i
    → i < j + n
    → dir_inode dir i ≡ q
    → ((j' : ℕ) → j' < i → dir_inode dir j' ≢ q)
    → drop_inode n j q d dir fs ≡ sfs_write_block (put_u32 (124 + 4 * i) 0 dir) 0 d fs
unfolding drop_inode
drop_inode-first zero j i q d dir fs le lt at before = absurd (omega arith)
drop_inode-first (suc n) j i q d dir fs le lt at before = elim (Bool-cases (j == i)) [
  | inl t ↦
      let z : j ≡ i = ground arith in
      let here : (dir_inode dir i == q) ≡ true = ground arith in rw (z, here) refl
  | inr t ↦
      let ne = before j (ground arith) in
      let other : (dir_inode dir j == q) ≡ false = ground arith in
      rw other (drop_inode-first n (j + 1) i q d dir fs (ground arith) (omega arith) at before)
]

module _ (fs : Sfs) (fd i b : ℕ) (removable : IsRemovable fs fd i b) (dir inode frame : Bytes) where
  abbrev e : FdStruct
  e = fs.fdtable fd

  abbrev dir' : Bytes
  dir' = sfs_read_block dir e.dir_bid fs

  -- The state after the directory was written.
  abbrev dropped : Sfs
  dropped = sfs_write_block (put_u32 (124 + 4 * i) 0 dir') 0 e.dir_bid fs

  dir_read : (o : ℕ) → o < sfs_block_size → dir' o ≡ raw fs.fh e.dir_bid o
  dir_read o h = read_raw fs dir e.dir_bid o removable.small removable.dir_whole h

  drop_inode-dropped : drop_inode 97 0 e.inode_bid e.dir_bid dir' fs ≡ dropped
  drop_inode-dropped =
      let at : (j : ℕ) → j < 97 → dir_inode dir' j ≡ dir_inode (raw fs.fh e.dir_bid) j =
        λ j h. get_u32-same _ _ (124 + 4 * j) sfs_block_size (omega arith) dir_read in
      drop_inode-first 97 0 i e.inode_bid e.dir_bid dir' fs (omega arith)
        (omega (arith, removable.place)) (at i removable.place ∙ removable.entry)
        (λ j h. let ne = removable.before j h in rw (at j (omega (arith, removable.place))) ne)

  dropped_size : dropped.fh.size ≡ fs.fh.size
  dropped_size =
      write_block-size fs (put_u32 (124 + 4 * i) 0 dir') e.dir_bid removable.small
        removable.dir_whole

  dropped_byte :
      (x : ℕ)
      → x < fs.fh.size
      → dropped.fh.byte x ≡ (
          if x / sfs_block_size == e.dir_bid
          then put_u32 (124 + 4 * i) 0 dir' (x % sfs_block_size)
          else fs.fh.byte x)
  dropped_byte x lt =
      write_block-byte fs (put_u32 (124 + 4 * i) 0 dir') e.dir_bid x removable.small
        removable.dir_whole lt

  raw_kept :
      (c o : ℕ)
      → IsWhole fs.fh c
      → c ≢ e.dir_bid
      → o < sfs_block_size
      → raw dropped.fh c o ≡ raw fs.fh c o
  raw_kept c o whole ne h =
      let z : (c * sfs_block_size + o) / sfs_block_size ≡ c = omega arith in
      let y : (c == e.dir_bid) ≡ false = ground arith in
      dropped_byte (c * sfs_block_size + o) (omega arith) ∙ rw (z, y) refl

  free_frames-one :
      (k : ℕ)
      → 1 < k
      → Returns (λ _ fs'. Marks (b - 1) false dropped fs') (free_frames k b frame dropped)
  unfolding free_frames
  free_frames-one zero lt = absurd (omega arith)
  free_frames-one (suc zero) lt = absurd (omega arith)
  free_frames-one (suc (suc k)) lt =
      let some_frame : (b == 0) ≡ false = let ne = removable.frame_some in ground arith in
      let next : get_u32 (sfs_read_block frame b dropped) 0 ≡ 0 =
        get_u32-same _ _ 0 sfs_block_size (omega arith) (λ o h.
          read_raw dropped frame b o (omega (arith, dropped_size, removable.small))
            (omega (arith, dropped_size, removable.frame_whole)) h
          ∙ raw_kept b o removable.frame_whole removable.frame_apart h)
        ∙ removable.only_frame in
      rw some_frame (
        bind
          (free_nonzero b dropped removable.frame_some removable.frame_in_map (record {
            bytes = removable.mounted.bytes;
            words = removable.mounted.words;
            blocks = removable.mounted.blocks;
          }))
          (λ _ fs1 marks. rw next (returns marks)))

  -- Removing a file with one frame closes the descriptor, takes the file out of its directory, and frees
  -- the blocks of the inode and of the frame. All other marks stay, so that the blocks of the content
  -- stay in use for no file, and nothing else in the image changes but the freemap.
  pub sfs_remove-Removed :
      (k : ℕ)
      → 1 < k
      → Returns (λ _ fs'. Removed fd i b fs fs') (sfs_remove k dir inode frame fd fs)
  unfolding sfs_remove sfs_close
  sfs_remove-Removed k lt =
      let inside : leb sfs_max_opened_files fd ≡ false =
        let t = removable.open_there in ground arith in
      let size = dropped_size in
      let at_frame : first_frame (sfs_read_block inode e.inode_bid dropped) ≡ b =
        get_u32-same _ _ 4 sfs_block_size (omega arith) (λ o h.
          read_raw dropped inode e.inode_bid o (omega (arith, size, removable.small))
            (omega (arith, size, removable.inode_whole)) h
          ∙ raw_kept e.inode_bid o removable.inode_whole removable.inode_apart h)
        ∙ removable.frame in
      rw (inside, drop_inode-dropped, at_frame)
        (bind (free_frames-one k lt) (λ _ fs2 first.
          bind
            (free_nonzero e.inode_bid fs2 removable.inode_some removable.inode_in_map first.mounted)
            (λ _ fs3 second.
              let own : (fd == fd) ≡ true = ground arith in
              let kept : (x : ℕ)
                  → x < fs.fh.size
                  → (x < sfs_block_size) ⊎ (2 * sfs_block_size ≤ x)
                  → fs3.fh.byte x ≡ dropped.fh.byte x =
                λ x h out.
                  second.outside x (omega (arith, first.size, size)) out
                  ∙ first.outside x (omega (arith, size)) out in
              returns (record {
                closed = rw own refl;
                dir = λ o h.
                    let d = e.dir_bid in
                    let z : (d * sfs_block_size + o) / sfs_block_size ≡ d = omega arith in
                    let z' : (d * sfs_block_size + o) % sfs_block_size ≡ o = omega arith in
                    let y : (d == d) ≡ true = ground arith in
                    kept (d * sfs_block_size + o) (omega (arith, removable.dir_whole))
                      (inr (omega (arith, removable.dir_behind)))
                    ∙ dropped_byte (d * sfs_block_size + o) (omega (arith, removable.dir_whole))
                    ∙ rw (z, z', y) (put_u32-cong (124 + 4 * i) 0 dir' _ o (dir_read o h));
                marks = λ j. second.own j ∙ rw (first.own j) refl;
                size = omega (arith, second.size, first.size, size, removable.large);
                outside = λ x h out ne.
                    let y : (x / sfs_block_size == e.dir_bid) ≡ false = ground arith in
                    kept x h out ∙ dropped_byte x h ∙ rw y refl;
              }))))
