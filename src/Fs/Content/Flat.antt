-- ===== src/Fs/Content/Flat.antt =====
-- Files of fs.c as flat sequences of bytes: what `sfs_read` gets and `sfs_write` leaves.
use class_projects.Base.{
  ℕ, zero, suc, ◌+◌, ◌-◌, ◌*◌, ◌/◌, ◌%◌, ◌≤◌, ◌<◌, ◌≡◌, ◌≢◌, ◌∙◌, refl, sym, false, arith, ltb, leb,
  ◌==◌, Bool-cases, inl, inr,
}
use class_projects.Base.Bytes.{Bytes, File, copy}
use class_projects.Base.Run.{Returns, returns, bind, mono}
use class_projects.Fs.Word.{u32_end}
use class_projects.Fs.{Sfs, sfs_block_size, sfs_max_opened_files, sfs_read_block}
use class_projects.Fs.Files.{inode_size, first_frame, set_cur}
use class_projects.Fs.Content.{
  sfs_frame_count, to_copy, sfs_get_file_content, sfs_read_loop, sfs_read,
}
use class_projects.Fs.Content.Blocks.{
  IsWhole, frame_bid, content_bid, read_raw, sfs_get_file_content-lists,
}
use class_projects.Fs.Content.Span.{place, IsSpan, IsSpan-rest}
use class_projects.Fs.Content.Rounds.{to_copy_bounds}

-- What the loop of `sfs_read` puts in the buffer.
abbrev pub Gets : (ℕ → ℕ) → Bytes → ℕ → ℕ → ℕ → Sfs → ℕ × Bytes → Sfs → Type 0
Gets bids buf completed cur remaining fs r fs' =
    (fs' ≡ fs)
    × (r.0 ≡ cur + remaining)
    × ((i : ℕ) → i < remaining → r.1 (completed + i) ≡ fs.fh.byte (place bids (cur + i)))
    × ((i : ℕ) → i < completed → r.1 i ≡ buf i)
    × ((i : ℕ) → completed + remaining ≤ i → r.1 i ≡ buf i)

pub sfs_read_loop-Gets :
    (k : ℕ) (bids : ℕ → ℕ) (room : ℕ) (buf : Bytes) (completed remaining offset cur : ℕ)
    (tmp : Bytes) (fs : Sfs)
    → remaining < k
    → fs.fh.size ≤ u32_end
    → IsSpan fs.fh bids room cur remaining
    → (0 < remaining → offset ≡ cur % sfs_block_size)
    → Returns
        (Gets bids buf completed cur remaining fs)
        (sfs_read_loop k bids room buf completed remaining offset cur tmp fs)
unfolding sfs_read_loop
sfs_read_loop-Gets zero bids room buf completed remaining offset cur tmp fs lt small s at =
    absurd (omega arith)
sfs_read_loop-Gets (suc k) bids room buf completed remaining offset cur tmp fs lt small s at =
    elim (Bool-cases (remaining == 0)) [
      | inl q ↦ rw q (
          returns
            (refl, ground arith, (λ i h. absurd (ground arith)), (λ i h. refl), (λ i h. refl)))
      | inr q ↦
          let pos : 0 < remaining = ground arith in
          let n = to_copy remaining offset in
          let bid = bids (cur / sfs_block_size) in
          let tmp' = sfs_read_block tmp bid fs in
          let (some_n, le, one, whole) =
            to_copy_bounds bids room cur remaining offset fs small s pos (at pos) in
          let in_place : leb room (cur / sfs_block_size) ≡ false =
            ground (arith, s.roomy cur (omega arith) (omega arith)) in
          rw (q, in_place)
            (mono
              (sfs_read_loop-Gets k bids room (copy n buf completed tmp' offset) (completed + n)
                (remaining - n) 0 (cur + n) tmp' fs (omega arith) small
                (IsSpan-rest fs.fh fs.fh bids room cur remaining n le refl s)
                (λ h. elim whole [ inl t ↦ absurd (omega arith) | inr t ↦ sym t ]))
              (λ r fs' (same, moved, got, before, after). (
                same,
                (omega arith),
                (λ i h. elim (Bool-cases (ltb i n)) [
                  | inr t ↦
                      let z : completed + n + (i - n) ≡ completed + i = ground arith in
                      let z' : cur + n + (i - n) ≡ cur + i = ground arith in
                      rw (z, z') at (got (i - n) (ground arith))
                  | inl t ↦
                      let e : (cur + i) / sfs_block_size ≡ cur / sfs_block_size = ground arith in
                      let e' : (cur + i) % sfs_block_size ≡ i + offset = ground (arith, at pos) in
                      let z : completed + i - completed + offset ≡ i + offset = omega arith in
                      before (completed + i) (ground arith)
                      ∙ (let w =
                            read_raw fs tmp bid (i + offset) small
                              (s.whole cur (omega arith) (omega arith)) (ground (arith, at pos)) in
                          rw (e, e') (ground arith))
                ]),
                (λ i h. before i (omega arith) ∙ ground arith),
                (λ i h. after i (omega arith) ∙ ground arith),
              )))
    ]

-- How many blocks a file with this inode has.
abbrev pub blocks_of : Bytes → ℕ
blocks_of inode = inode_size inode / sfs_block_size

-- The blocks of the file with this inode: all in the image, of their own, and apart from the frames
-- that list them.
pub record IsFile (f : File) (inode : Bytes) : Type 0 where
  pub small : f.size ≤ u32_end
  pub short : inode_size inode < u32_end
  pub frames :
      (k : ℕ)
      → k * sfs_frame_count < blocks_of inode
      → IsWhole f (frame_bid f (first_frame inode) k)
  pub blocks : (i : ℕ) → i < blocks_of inode → IsWhole f (content_bid f (first_frame inode) i)
  pub distinct :
      (i j : ℕ)
      → i < blocks_of inode
      → j < blocks_of inode
      → content_bid f (first_frame inode) i ≡ content_bid f (first_frame inode) j
      → i ≡ j
  pub apart :
      (i k : ℕ)
      → i < blocks_of inode
      → k * sfs_frame_count < blocks_of inode
      → content_bid f (first_frame inode) i ≢ frame_bid f (first_frame inode) k

-- Byte `a` of the file with this inode.
abbrev pub file_byte : File → Bytes → ℕ → ℕ
file_byte f inode a = f.byte (place (content_bid f (first_frame inode)) a)

-- The array that `sfs_get_file_content` fills for a transfer within the file.
abbrev pub Lists : (ℕ → ℕ) → File → Bytes → ℕ → Type 0
Lists bids f inode last = (x : ℕ) → x ≤ last → bids x ≡ content_bid f (first_frame inode) x

pub IsFile-IsSpan :
    (f : File) (inode : Bytes) (bids : ℕ → ℕ) (cur len : ℕ)
    → IsFile f inode
    → (cur + len) / sfs_block_size < blocks_of inode
    → Lists bids f inode ((cur + len) / sfs_block_size)
    → IsSpan f bids (blocks_of inode) cur len
IsFile-IsSpan f inode bids cur len file within lists = record {
  roomy = λ a h h'. omega arith;
  whole = λ a h h'.
      rw (lists (a / sfs_block_size) (omega arith))
        (file.blocks (a / sfs_block_size) (omega arith));
  distinct = λ a b h h' g g' e.
      file.distinct (a / sfs_block_size) (b / sfs_block_size) (omega arith) (omega arith) (
        sym (lists (a / sfs_block_size) (omega arith))
        ∙ e
        ∙ lists (b / sfs_block_size) (omega arith));
}

module _ (fs : Sfs) (fd len : ℕ) (frame : Bytes) (junk : ℕ → ℕ)
    (file : IsFile fs.fh (fs.fdtable fd).inode) (first : (fs.fdtable fd).cur < sfs_block_size)
    (within : ((fs.fdtable fd).cur + len) / sfs_block_size < blocks_of (fs.fdtable fd).inode) where
  pub content-Lists :
      Returns
        (λ bids fs'.
          (fs' ≡ fs)
          × Lists bids fs.fh (fs.fdtable fd).inode (((fs.fdtable fd).cur + len) / sfs_block_size))
        (sfs_get_file_content frame
          (blocks_of (fs.fdtable fd).inode)
          junk
          fd
          (fs.fdtable fd).cur
          len
          fs)
  content-Lists =
      let cur = (fs.fdtable fd).cur in
      let short = file.short in
      mono
        (sfs_get_file_content-lists fs frame (blocks_of (fs.fdtable fd).inode) fd cur len junk
          file.small (omega arith) (omega arith) (λ k h. file.frames k (omega arith)))
        (λ bids fs' (same, listed). (
          same,
          (λ x h.
              let z : cur / sfs_block_size + x ≡ x = omega arith in
              rw z at (listed x (omega arith))),
        ))

-- A read that starts in the first block of a file and ends in front of its last one gets the bytes of
-- the file from the cursor on, as many as were asked for, moves the cursor behind them, and changes
-- nothing else.
pub sfs_read-file_byte :
    (fd len : ℕ) (frame tmp buf : Bytes) (junk : ℕ → ℕ) (fs : Sfs)
    → fd < sfs_max_opened_files
    → IsFile fs.fh (fs.fdtable fd).inode
    → 0 < len
    → (fs.fdtable fd).cur < sfs_block_size
    → ((fs.fdtable fd).cur + len) / sfs_block_size < blocks_of (fs.fdtable fd).inode
    → Returns
        (λ r fs'.
          (r.0 ≡ len)
          × ((i : ℕ)
              → i < len
              → r.1 i ≡ file_byte fs.fh (fs.fdtable fd).inode ((fs.fdtable fd).cur + i))
          × ((i : ℕ) → len ≤ i → r.1 i ≡ buf i)
          × (fs' ≡ set_cur fd ((fs.fdtable fd).cur + len) fs))
        (sfs_read frame tmp junk fd buf len fs)
unfolding sfs_read
sfs_read-file_byte fd len frame tmp buf junk fs table file some_bytes first within =
    let inode = (fs.fdtable fd).inode in
    let cur = (fs.fdtable fd).cur in
    let short = file.short in
    let inside : leb sfs_max_opened_files fd ≡ false = ground arith in
    let before : ltb (inode_size (fs.fdtable fd).inode) (fs.fdtable fd).cur ≡ false =
      ground arith in
    let uncut : ltb (inode_size (fs.fdtable fd).inode)
          (((fs.fdtable fd).cur + len + (u32_end - 1)) % u32_end)
        ≡ false =
      ground arith in
    rw (inside, before, uncut)
      (bind (content-Lists fs fd len frame junk file first within) (λ bids fs1 (same, lists).
        rw same (
          bind
            (sfs_read_loop-Gets (len + 1) bids (blocks_of inode) buf 0 len (cur % sfs_block_size)
              cur tmp fs (omega arith) file.small
              (IsFile-IsSpan fs.fh inode bids cur len file within lists) (λ h. refl))
            (λ r fs2 (same', moved, got, _, after). returns (
              refl,
              (λ i h.
                  let z : 0 + i ≡ i = omega arith in
                  rw (z, lists ((cur + i) / sfs_block_size) (omega arith)) at (got i h)),
              (λ i h. after i (omega arith)),
              rw (same', moved) refl,
            )))))
