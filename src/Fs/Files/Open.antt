-- ===== src/Fs/Files/Open.antt =====
-- The descriptors of fs.c: what `sfs_open`, `sfs_seek` and `sfs_eof` do to them.
use class_projects.Base.{
  ℕ, zero, suc, ◌+◌, ◌*◌, ◌%◌, ◌≤◌, ◌<◌, ◌≡◌, ◌≢◌, refl, true, false, Option, none, some, arith,
  ltb, leb, ◌==◌, Bool-cases, inl, inr, List,
}
use class_projects.Base.Int.{pos, negsuc}
use class_projects.Base.Names.{Name, length}
use class_projects.Base.Bytes.{Bytes, SameBytes}
use class_projects.Base.Run.{done, Returns, returns, and_then}
use class_projects.Fs.Word.{u32_end}
use class_projects.Fs.{
  Sfs, sfs_block_size, sfs_max_opened_files, sfs_read_block, read_sb, same_string, dir_inode,
}
use class_projects.Fs.Dirs.{
  block, IsInside, HasDirs, first_named, get_u32-read, same_string-read, sfs_find_dir-first,
}
use class_projects.Fs.Files.{
  inode_size, set_fd, free_fd, find_inode, open_inode, opened, sfs_open, sfs_seek, sfs_eof,
  sfs_seek_set, sfs_seek_cur, sfs_seek_end,
}

-- A seek to the end of an open file does not reach it: as far as the cursor is in the file, it stays
-- where it was, and `sfs_eof` says 0 afterwards.
pub sfs_eof-sfs_seek_end :
    (fd : ℕ) (fs : Sfs)
    → fd < sfs_max_opened_files
    → (fs.fdtable fd).cur ≤ inode_size (fs.fdtable fd).inode
    → (fs.fdtable fd).cur < u32_end
    → Returns
        (λ r fs'. (r ≡ 0) × ((fs'.fdtable fd).cur ≡ (fs.fdtable fd).cur))
        (and_then (sfs_seek fd (pos 0) sfs_seek_end fs) (λ _ fs1. sfs_eof fd fs1))
unfolding sfs_seek sfs_eof
sfs_eof-sfs_seek_end fd fs lt le small =
    let inside : leb sfs_max_opened_files fd ≡ false = ground arith in
    let self : (fd == fd) ≡ true = ground arith in
    let same : ((fs.fdtable fd).cur + 0 % u32_end) % u32_end ≡ (fs.fdtable fd).cur = omega arith in
    let before : ltb (inode_size (fs.fdtable fd).inode) (fs.fdtable fd).cur ≡ false =
      ground arith in
    rw (inside, self, same, before) (returns (refl, rw self refl))

-- A seek to `p + n + 1` from the start and then a seek by `-(n + 1)` from the cursor go to `p`: the
-- wrap of the unsigned cursor does not show.
sfs_seek_cur-sfs_seek_set :
    (fd p n : ℕ) (fs : Sfs)
    → fd < sfs_max_opened_files
    → p + n < 2147483648
    → Returns
        (λ r fs'. (r ≡ 0) × ((fs'.fdtable fd).cur ≡ p))
        (and_then
          (sfs_seek fd (pos (p + n + 1)) sfs_seek_set fs)
          (λ _ fs1. sfs_seek fd (negsuc n) sfs_seek_cur fs1))
unfolding sfs_seek
sfs_seek_cur-sfs_seek_set fd p n fs lt small =
    let inside : leb sfs_max_opened_files fd ≡ false = ground arith in
    let self : (fd == fd) ≡ true = ground arith in
    rw (inside, self) (returns (refl, (rw self (omega arith))))

-- Place `i` is the first of directory `d` that holds a file of that name.
pub record HasFile (fs : Sfs) (d : ℕ) (name : Name) (i : ℕ) : Type 0 where
  pub place : i < 97
  pub there : dir_inode (block fs.fh d) i ≢ 0
  pub named : same_string (block fs.fh (dir_inode (block fs.fh d) i)) 8 name ≡ true
  pub before :
      (j : ℕ)
      → j < i
      → dir_inode (block fs.fh d) j ≢ 0
      → same_string (block fs.fh (dir_inode (block fs.fh d) j)) 8 name ≡ false
  pub inside :
      (j : ℕ)
      → j < 97
      → dir_inode (block fs.fh d) j ≢ 0
      → IsInside fs.fh (dir_inode (block fs.fh d) j)

module _ (fs : Sfs) (d : ℕ) (name : Name) (i : ℕ) (dir : Bytes) (file : HasFile fs d name i)
    (short : 8 + length name < sfs_block_size)
    (same : (j : ℕ) → j < 97 → dir_inode dir j ≡ dir_inode (block fs.fh d) j) where
  abbrev FindsInode : Option ℕ × Bytes → Type 0
  FindsInode (r, inode) =
      (r ≡ some i) × SameBytes sfs_block_size inode (block fs.fh (dir_inode (block fs.fh d) i))

  find_inode-first :
      (n j : ℕ) (inode : Bytes)
      → j ≤ i
      → i < j + n
      → j + n ≤ 97
      → FindsInode (find_inode n j dir inode name fs)
  unfolding find_inode
  find_inode-first zero j inode le lt in_dir = absurd (omega arith)
  find_inode-first (suc n) j inode le lt in_dir =
      rw (same j (omega arith)) (elim (Bool-cases (j == i)) [
        | inl q ↦
            let z : j ≡ i = ground arith in
            let some_inode : (dir_inode (block fs.fh d) i == 0) ≡ false =
              let t = file.there in ground arith in
            let at = file.inside i file.place file.there in
            rw
              (
                z,
                some_inode,
                same_string-read fs.fh inode (dir_inode (block fs.fh d) i) 8 name at short,
                file.named,
              )
              (refl, λ o h. ground arith)
        | inr q ↦ elim (Bool-cases (dir_inode (block fs.fh d) j == 0)) [
          | inl none_here ↦
              rw none_here
                (find_inode-first n (j + 1) inode (ground arith) (omega arith) (omega arith))
          | inr some_here ↦
              let used : dir_inode (block fs.fh d) j ≢ 0 = ground arith in
              let at = file.inside j (omega arith) used in
              let other = file.before j (ground arith) used in
              rw
                (
                  some_here,
                  same_string-read fs.fh inode (dir_inode (block fs.fh d) j) 8 name at short,
                  other,
                )
                (find_inode-first n (j + 1) (sfs_read_block inode (dir_inode (block fs.fh d) j) fs)
                  (ground arith) (omega arith) (omega arith))
        ]
      ])

open_inode-found :
    (fd d : ℕ) (dir : Bytes) (name : Name) (i : ℕ) (fs : Sfs) (r : Option ℕ × Bytes)
    → r.0 ≡ some i
    → open_inode fd d dir name r fs ≡ done (some fd) (set_fd fd (opened d (dir_inode dir i) r.1) fs)
unfolding open_inode
open_inode-found fd d dir name i fs (some j, inode) e = let z : j ≡ i = cc in rw z
open_inode-found fd d dir name i fs (none, inode) e = absurd (cc)

-- Opening a file that its directory holds takes the first free descriptor: it starts at 0, and has the
-- inode as it is on the disk, the inode's block and the directory's block. The other descriptors,
-- the disk and the freemap in memory stay as they were.
pub sfs_open-existing :
    (k fd d i : ℕ) (ids : List ℕ) (dir inode : Bytes) (dirname name : Name) (fs : Sfs)
    → 4 + length dirname < sfs_block_size
    → 8 + length name < sfs_block_size
    → HasDirs fs.fh ids
    → length ids < k
    → first_named fs.fh dirname ids ≡ d
    → d ≢ 0
    → IsInside fs.fh d
    → HasFile fs d name i
    → free_fd sfs_max_opened_files 0 fs.fdtable ≡ some fd
    → Returns
        (λ r fs'.
          (r ≡ some fd)
          × (fs'.fh ≡ fs.fh)
          × ((fs'.fdtable fd).valid ≡ 1)
          × ((fs'.fdtable fd).cur ≡ 0)
          × ((fs'.fdtable fd).dir_bid ≡ d)
          × ((fs'.fdtable fd).inode_bid ≡ dir_inode (block fs.fh d) i)
          × SameBytes sfs_block_size
              (fs'.fdtable fd).inode
              (block fs.fh (dir_inode (block fs.fh d) i))
          × ((j : ℕ) → j ≢ fd → fs'.fdtable j ≡ fs.fdtable j)
          × (fs'.freemap ≡ fs.freemap)
          × (fs'.freemap_words ≡ fs.freemap_words))
        (sfs_open k dir inode dirname name fs)
unfolding sfs_open
sfs_open-existing k fd d i ids dir inode dirname name fs short short' dirs lt e ne at file free =
    let fs1 = read_sb fs in
    let dir' = sfs_read_block dir d fs1 in
    let some_dir : (d == 0) ≡ false = ground arith in
    let self : (fd == fd) ≡ true = ground arith in
    let same : (j : ℕ) → j < 97 → dir_inode dir' j ≡ dir_inode (block fs.fh d) j =
      λ j h. get_u32-read fs.fh dir d (124 + 4 * j) at (omega arith) in
    let file' : HasFile fs1 d name i = record {
      place = file.place;
      there = file.there;
      named = file.named;
      before = file.before;
      inside = file.inside;
    } in
    let (found, read) =
      find_inode-first fs1 d name i dir' file' short' same 97 0 inode (omega arith)
        (omega (arith, file.place)) (omega arith) in
    rw (free, sfs_open, sfs_find_dir-first k dirname ids dir fs short dirs lt, e, some_dir)
      (rw (open_inode-found fd d dir' name i fs1 (find_inode 97 0 dir' inode name fs1) found) (
        returns (
          refl,
          refl,
          rw self refl,
          rw self refl,
          rw self refl,
          rw self (same i file.place),
          rw self read,
          (λ j ne'. let other : (j == fd) ≡ false = ground arith in rw other refl),
          refl,
          refl,
        )))
