-- ===== src/Dfs/LocalFs/Reads.antt =====
-- The file system that the datanode of exta2.c works on, and what it reads there after a write.
use class_projects.Base.{
  ℕ, ◌+◌, ◌-◌, ◌*◌, ◌/◌, ◌≤◌, ◌<◌, ◌≡◌, ◌≢◌, ◌⊎◌, ◌∙◌, refl, ap, true, some, arith, ◌==◌,
  Bool-cases, inl, inr, [], ◌∷◌,
}
use class_projects.Base.Names.{Name, length}
use class_projects.Base.Bytes.{Bytes, File, SameBytes}
use class_projects.Base.Run.{done, Returns, returns, bind, and_then}
use class_projects.Fs.Word.{u32_end, get_u32, put_u32, get_u32-put_u32, get_u32-put_u32_other}
use class_projects.Fs.{
  Sfs, FdStruct, sfs_block_size, sfs_max_opened_files, sfs_at, same_string, dir_inode,
}
use class_projects.Fs.Dirs.{block, IsChain, HasDirs, first_named}
use class_projects.Fs.Freemap.{used}
use class_projects.Fs.Image.{IsFormatted}
use class_projects.Fs.Files.{inode_size, first_frame, free_fd, sfs_open, sfs_close}
use class_projects.Fs.Content.{sfs_read}
use class_projects.Fs.Files.Open.{HasFile, sfs_open-existing}
use class_projects.Fs.Strings.{same_string-same}
use class_projects.Fs.Files.Room.{HasRoom}
use class_projects.Fs.Content.Blocks.{raw, IsWhole, get_u32-same}
use class_projects.Fs.Content.Flat.{blocks_of, IsFile, file_byte, sfs_read-file_byte}
use class_projects.Fs.Content.Fills.{IsFree}
use class_projects.Dfs.Types.{dfs_block_size}
use class_projects.Dfs.LocalFs.{slash, with_fd}

-- The local file system has the one directory "/" in block `d`, whose first free place is `i`, and no
-- file of that name. No file is open, and from bit `m` on 129 blocks in a row are free.
pub record IsReady (fs : Sfs) (d i m : ℕ) (name : Name) : Type 0 where
  pub formatted : IsFormatted fs
  pub dirs : HasDirs fs.fh (d ∷ [])
  pub is_slash : same_string (raw fs.fh d) 4 slash ≡ true
  pub room : HasRoom fs d name i
  pub no_open : (fs.fdtable 0).valid ≡ 0
  pub free : IsFree fs m 129
  pub full : used fs.freemap 0 ≡ true
  pub inside : m + 129 < fs.fh.size / sfs_block_size

pub block-raw : (f : File) (bid : ℕ) → f.size ≤ u32_end → IsWhole f bid → block f bid ≡ raw f bid
block-raw f bid small whole =
    let z : sfs_at bid ≡ bid * sfs_block_size = omega arith in ap (λ a o. f.byte (a + o)) z

pub free_fd-zero :
    (table : ℕ → FdStruct) → (table 0).valid ≡ 0 → free_fd sfs_max_opened_files 0 table ≡ some 0
unfolding free_fd
free_fd-zero table e = rw e refl

pub first_named-one :
    (f : File) (d : ℕ) (name : Name)
    → f.size ≤ u32_end
    → IsWhole f d
    → same_string (raw f d) 4 name ≡ true
    → first_named f name (d ∷ []) ≡ d
unfolding first_named
first_named-one f d name small whole e = rw (block-raw f d small whole, e) refl

-- The file system after the write: the file is at place `i` of the directory, in the inode of block `q`.
pub record After (d i q : ℕ) (name : Name) (inode buf : Bytes) (fs s : Sfs) : Type 0 where
  pub size : s.fh.size ≡ fs.fh.size
  pub closed : (s.fdtable 0).valid ≡ 0
  pub behind : 2 ≤ q
  pub whole : IsWhole s.fh q
  pub named : same_string inode 8 name ≡ true
  pub dir : (o : ℕ) → o < sfs_block_size → raw s.fh d o ≡ put_u32 (124 + 4 * i) q (raw fs.fh d) o
  pub on_disk : (o : ℕ) → o < sfs_block_size → raw s.fh q o ≡ inode o
  pub kept :
      (x : ℕ)
      → x < fs.fh.size
      → (x < sfs_block_size) ⊎ (2 * sfs_block_size ≤ x)
      → x / sfs_block_size ≢ d
      → used fs.freemap (x / sfs_block_size - 1) ≡ true
      → s.fh.byte x ≡ fs.fh.byte x
  pub file : IsFile s.fh inode
  pub long : dfs_block_size / sfs_block_size < blocks_of inode
  pub own : (o : ℕ) → o < dfs_block_size → file_byte s.fh inode o ≡ buf o

-- A file is the same for two inodes with the same size and the same first frame.
pub IsFile-same :
    (f : File) (a b : Bytes)
    → ((o : ℕ) → o < sfs_block_size → a o ≡ b o)
    → IsFile f b
    → IsFile f a × (first_frame a ≡ first_frame b) × (inode_size a ≡ inode_size b)
IsFile-same f a b same file =
    let e : first_frame a ≡ first_frame b = get_u32-same a b 4 sfs_block_size (omega arith) same in
    let e' : inode_size a ≡ inode_size b = get_u32-same a b 0 sfs_block_size (omega arith) same in
    (
      record {
        small = file.small;
        short = rw e' file.short;
        frames = λ k h. rw e (file.frames k (rw e' at h));
        blocks = λ i h. rw e (file.blocks i (rw e' at h));
        distinct = λ i j h h' same'. file.distinct i j (rw e' at h) (rw e' at h') (rw e at same');
        apart = λ i k h h' same'. file.apart i k (rw e' at h) (rw e' at h') (rw e at same');
      },
      e,
      e',
    )

-- What is read in that file system.
module _ (d i q m : ℕ) (name : Name) (inode buf : Bytes) (fs s : Sfs)
    (ready : IsReady fs d i m name) (short : 8 + length name < sfs_block_size)
    (after : After d i q name inode buf fs s) where
  small : s.fh.size ≤ u32_end
  small = omega (arith, after.size, ready.room.small)

  dir-IsWhole : IsWhole s.fh d
  dir-IsWhole = omega (arith, after.size, ready.room.dir_whole)

  dir_block : block s.fh d ≡ raw s.fh d
  dir_block = block-raw s.fh d small dir-IsWhole

  word_same :
      (p : ℕ)
      → p + 4 ≤ sfs_block_size
      → get_u32 (raw s.fh d) p ≡ get_u32 (put_u32 (124 + 4 * i) q (raw fs.fh d)) p
  word_same p le = get_u32-same _ _ p sfs_block_size le after.dir

  dir_at : dir_inode (raw s.fh d) i ≡ q
  dir_at =
      word_same (124 + 4 * i) (omega (arith, ready.room.place))
      ∙ get_u32-put_u32 (124 + 4 * i) q (raw fs.fh d) (omega (arith, after.whole, small))

  dir_other : (j : ℕ) → j < 97 → j ≢ i → dir_inode (raw s.fh d) j ≡ dir_inode (raw fs.fh d) j
  dir_other j lt ne =
      word_same (124 + 4 * j) (omega arith)
      ∙ get_u32-put_u32_other (124 + 4 * i) (124 + 4 * j) q (raw fs.fh d) (ground arith)

  after-HasDirs : HasDirs s.fh (d ∷ [])
  unfolding IsChain
  after-HasDirs =
      let (inside, (first, ne, there, last)) = ready.dirs in
      let old = block-raw fs.fh d ready.room.small ready.room.dir_whole in
      (
        omega (arith, after.size, inside),
        (
          get_u32-same (block s.fh 0) (block fs.fh 0) 12 sfs_block_size (omega arith) (λ o h.
                after.kept (0 + o) (omega (arith, inside)) (inl (omega arith))
                  (λ e. omega (arith, e, ready.room.dir_behind))
                  (let z : (0 + o) / sfs_block_size - 1 ≡ 0 = omega arith in rw z ready.full))
              ∙ first,
          ne,
          omega (arith, after.size, there),
          rw dir_block (
              word_same 0 (omega arith)
              ∙ get_u32-put_u32_other (124 + 4 * i) 0 q (raw fs.fh d) (inl (omega arith))
              ∙ rw old at last),
        ),
      )

  -- The other inodes of the directory.
  inode_same :
      (j o : ℕ)
      → j < 97
      → dir_inode (raw fs.fh d) j ≢ 0
      → o < sfs_block_size
      → raw s.fh (dir_inode (raw fs.fh d) j) o ≡ raw fs.fh (dir_inode (raw fs.fh d) j) o
  inode_same j o lt ne h =
      let x = dir_inode (raw fs.fh d) j in
      let (whole, behind, apart, in_use) = ready.room.inodes j lt ne in
      let z : (x * sfs_block_size + o) / sfs_block_size ≡ x = omega arith in
      after.kept (x * sfs_block_size + o) (omega arith) (inr (omega arith)) (rw z apart)
        (rw z in_use)

  after-HasFile : HasFile s d name i
  after-HasFile = record {
    place = ready.room.place;
    there = rw (dir_block, dir_at) (λ e. omega (arith, e, after.behind));
    named =
        rw (dir_block, dir_at, block-raw s.fh q small after.whole)
          (same_string-same (raw s.fh q) inode 8 sfs_block_size name short
              (λ o _ h. after.on_disk o h)
            ∙ after.named);
    before = λ j lt ne.
        let e = dir_other j (omega (arith, ready.room.place)) (omega arith) in
        let some_inode = ready.room.before j lt in
        let x = dir_inode (raw fs.fh d) j in
        let w = (ready.room.inodes j (omega (arith, ready.room.place)) some_inode).0 in
        rw (dir_block, e, block-raw s.fh x small (omega (arith, w, after.size)))
          (same_string-same (raw s.fh x) (raw fs.fh x) 8 sfs_block_size name short
              (λ o _ h. inode_same j o (omega (arith, ready.room.place)) some_inode h)
            ∙ ready.room.others j (omega (arith, ready.room.place)) some_inode);
    inside = λ j lt ne. elim (Bool-cases (j == i)) [
      | inl t ↦
          let z : j ≡ i = ground arith in
          rw (z, dir_block, dir_at) (omega (arith, after.whole, small))
      | inr t ↦
          let e = dir_other j lt (ground arith) in
          let some_inode : dir_inode (raw fs.fh d) j ≢ 0 = rw (dir_block, e) at ne in
          let w = (ready.room.inodes j lt some_inode).0 in
          rw (dir_block, e) (omega (arith, w, after.size, small))
    ];
  }

  after-slash : same_string (raw s.fh d) 4 slash ≡ true
  unfolding put_u32
  after-slash =
      same_string-same (raw s.fh d) (raw fs.fh d) 4 124 slash (omega arith)
        (λ o _ h. after.dir o (omega arith) ∙ ground arith)
      ∙ ready.is_slash

  pub after-read :
      (k : ℕ) (dir' ino frame tmp got : Bytes) (bids : ℕ → ℕ)
      → 1 < k
      → Returns
          (λ buf' s'. SameBytes dfs_block_size buf' buf)
          (and_then (sfs_open k dir' ino slash name s) (λ r s1.
            with_fd r
              (λ fd s'.
                and_then
                  (sfs_read frame tmp bids fd got dfs_block_size s')
                  (λ r' s2. and_then (sfs_close fd s2) (λ _ s3. done r'.1 s3)))
              s1))
  unfolding sfs_close
  after-read k dir' ino frame tmp got bids lt =
      bind
        (sfs_open-existing k 0 d i (d ∷ []) dir' ino slash name s (omega arith) short after-HasDirs
          lt (first_named-one s.fh d slash small dir-IsWhole after-slash)
          (λ e. omega (arith, e, ready.room.dir_behind)) (omega (arith, dir-IsWhole, small))
          after-HasFile (free_fd-zero s.fdtable after.closed))
        (λ r s1 (opened, image, _, start, _, _, inode1, _, _, _).
          let at = block-raw s.fh q small after.whole in
          let same : (o : ℕ) → o < sfs_block_size → (s1.fdtable 0).inode o ≡ inode o =
            λ o h. (rw (dir_block, dir_at, at) at (inode1 o h)) ∙ after.on_disk o h in
          let (file, e, e') = IsFile-same s.fh (s1.fdtable 0).inode inode same after.file in
          let long = after.long in
          let z : 0 + dfs_block_size ≡ dfs_block_size = refl in
          rw opened (
            bind
              (sfs_read-file_byte 0 dfs_block_size frame tmp got bids s1 (omega arith)
                (rw image file) (omega arith) (omega (arith, start))
                (rw start (omega (arith, long, e'))))
              (λ r' s2 (_, bytes, _, _). returns (λ o h.
                let y : 0 + o ≡ o = omega arith in
                (rw (image, start, file_byte, e, y) at (bytes o h)) ∙ after.own o h))))
