-- ===== src/Fs/Content/Limits.antt =====
-- Where the list of content blocks of fs.c ends.
use class_projects.Base.{
  ℕ, zero, suc, ◌+◌, ◌-◌, ◌/◌, ◌%◌, ◌≤◌, ◌<◌, ◌≡◌, refl, false, arith, ltb, leb, Bool-cases, inl,
  inr,
}
use class_projects.Base.Bytes.{Bytes}
use class_projects.Base.Run.{fault}
use class_projects.Fs.Word.{u32_end}
use class_projects.Fs.{Sfs, sfs_block_size, sfs_max_opened_files}
use class_projects.Fs.Files.{inode_size}
use class_projects.Fs.Content.{content_loop, sfs_get_file_content, sfs_write, sfs_read}

-- More blocks than the array has places.
content_loop-fault :
    (n room i j number : ℕ) (frame : Bytes) (bids : ℕ → ℕ) (fs : Sfs)
    → room < j + n
    → j ≤ room
    → content_loop n room 0 i j number frame bids fs ≡ fault
unfolding content_loop
content_loop-fault zero room i j number frame bids fs lt le = absurd (omega arith)
content_loop-fault (suc n) room i j number frame bids fs lt le =
    let started : ltb i 0 ≡ false = ground arith in
    elim (Bool-cases (leb room j)) [
      | inl q ↦ rw (started, q) refl
      | inr q ↦
          rw (started, q)
            (content_loop-fault n room (i + 1) (j + 1) _ _ _ fs (omega arith) (ground arith))
    ]

-- A file whose size is a number of whole blocks is written or read from within its first block up to
-- exactly its end: the list of blocks gets one entry more than `malloc` gave it places, so that both
-- write out of bounds.
pub sfs_write_read-exact_end :
    (k fd len : ℕ) (frame tmp buf : Bytes) (junk : ℕ → ℕ) (fs : Sfs)
    → fd < sfs_max_opened_files
    → 0 < len
    → (fs.fdtable fd).cur < sfs_block_size
    → (fs.fdtable fd).cur + len ≡ inode_size (fs.fdtable fd).inode
    → inode_size (fs.fdtable fd).inode % sfs_block_size ≡ 0
    → inode_size (fs.fdtable fd).inode < u32_end
    → (sfs_write k frame tmp junk fd buf len fs ≡ fault)
      × (sfs_read frame tmp junk fd buf len fs ≡ fault)
unfolding sfs_write sfs_read sfs_get_file_content
sfs_write_read-exact_end k fd len frame tmp buf junk fs lt some_bytes first exact whole small =
    let size = inode_size (fs.fdtable fd).inode in
    let inside : leb sfs_max_opened_files fd ≡ false = ground arith in
    let at_start : (fs.fdtable fd).cur / sfs_block_size ≡ 0 = omega arith in
    let fits : ltb (inode_size (fs.fdtable fd).inode) (((fs.fdtable fd).cur + len) % u32_end)
        ≡ false =
      ground arith in
    let before : ltb (inode_size (fs.fdtable fd).inode) (fs.fdtable fd).cur ≡ false =
      ground arith in
    let whole_read : ltb (inode_size (fs.fdtable fd).inode)
          (((fs.fdtable fd).cur + len + (u32_end - 1)) % u32_end)
        ≡ false =
      ground arith in
    let over : inode_size (fs.fdtable fd).inode / sfs_block_size
        < 0 + (((fs.fdtable fd).cur + len) % u32_end / sfs_block_size + 1) =
      omega arith in
    (
      rw (inside, fits, at_start, content_loop-fault _ _ _ _ _ _ _ fs over (omega arith)) refl,
      rw
          (
            inside,
            before,
            whole_read,
            at_start,
            content_loop-fault _ _ _ _ _ _ _ fs over (omega arith),
          )
          refl,
    )
