-- ===== src/Fs/Dirs/New.antt =====
-- `sfs_mkdir` of fs.c: a new directory goes to the end of the list.
use class_projects.Base.{
  ℕ, ◌+◌, ◌/◌, ◌≤◌, ◌<◌, ◌≡◌, ◌∙◌, refl, true, false, arith, ◌==◌, List, [], ◌∷◌,
}
use class_projects.Base.Names.{Name, length}
use class_projects.Base.Bytes.{Bytes}
use class_projects.Base.Run.{Returns, returns, bind}
use class_projects.Fs.Word.{u32_end}
use class_projects.Fs.{Sfs, sfs_block_size, read_sb, sb_first_dir, sfs_mkdir}
use class_projects.Fs.Dirs.{block, IsChain, HasDirs, first_named, get_u32-read, sfs_find_dir-first}
use class_projects.Fs.Freemap.{used}
use class_projects.Fs.Image.{IsFormatted, read_sb-IsMounted, read_sb-IsFormatted}
use class_projects.Fs.Content.Blocks.{read_raw}
use class_projects.Fs.Content.Fills.{IsFree, sfs_alloc_block-Takes}
use class_projects.Fs.Dirs.Last.{AreUsed, append_dir, last_of, mkdir_loop-Last}
use class_projects.Fs.Dirs.Append.{Appends, appended-Appends, started-Appends}

-- Making a directory that is not there, with a name shorter than its field of 120 bytes, in an image of
-- at most 2 ^ 32 bytes with a freemap of one block whose directories are in use, and where a block is
-- free, with `k` above the number of directories: the new directory is the last of the list, behind all that were
-- there, it has the name and no files, and its block was free. Nothing else in the image changes but the
-- freemap and the first 16 bytes of the block with the link to it, which is the directory before it, or
-- the superblock when it is the first.
pub sfs_mkdir-new :
    (k m : ℕ) (ids : List ℕ) (name : Name) (dir : Bytes) (fs : Sfs)
    → 4 + length name < 124
    → HasDirs fs.fh ids
    → length ids < k
    → first_named fs.fh name ids ≡ 0
    → AreUsed fs.fh fs.freemap ids
    → IsFormatted fs
    → fs.fh.size ≤ u32_end
    → used fs.freemap 0 ≡ true
    → IsFree fs m 1
    → m + 1 < fs.fh.size / sfs_block_size
    → Returns
        (λ ok fs'. (ok ≡ true) × (b : ℕ) × Appends ids m b name (read_sb (read_sb fs)) fs')
        (sfs_mkdir k dir name fs)
unfolding sfs_mkdir IsChain
sfs_mkdir-new k m [] name dir fs short dirs lt none_there us formatted small full (in_map, free)
      inside =
    let fs1 = read_sb (read_sb fs) in
    let again = read_sb-IsFormatted fs formatted in
    let found = sfs_find_dir-first k name [] dir (read_sb fs) (omega arith) dirs lt in
    let first : sb_first_dir fs1.sb ≡ 0 =
      get_u32-read fs.fh (read_sb fs).sb 0 12 dirs.0 (omega arith) ∙ dirs.1 in
    rw (found, none_there, first)
      (bind
        (sfs_alloc_block-Takes fs1 1 m (read_sb-IsMounted (read_sb fs) again) (omega arith)
          (free m (omega arith) (omega arith)) (λ j h. let z : j ≡ 0 = omega arith in rw z full))
        (λ b fs2 takes. returns (
          refl,
          b,
          started-Appends m b name fs1 fs2 short small inside takes dir dirs
              (λ o h. rw takes.keeps.sb (
                let z : 0 + o ≡ o = omega arith in
                rw z at (read_raw (read_sb fs) (read_sb fs).sb 0 o small (omega arith) h)))
              full,
        )))
sfs_mkdir-new k m (x ∷ xs) name dir fs short dirs lt none_there us formatted small full
      (in_map, free) inside =
    let fs1 = read_sb (read_sb fs) in
    let again = read_sb-IsFormatted fs formatted in
    let found = sfs_find_dir-first k name (x ∷ xs) dir (read_sb fs) (omega arith) dirs lt in
    let first : (sb_first_dir fs1.sb == 0) ≡ false =
      let e = get_u32-read fs.fh (read_sb fs).sb 0 12 dirs.0 (omega arith) in
      let e' = dirs.1.0 in let ne = dirs.1.1 in ground arith in
    let at : sb_first_dir fs1.sb ≡ sb_first_dir (block fs.fh 0) =
      get_u32-read fs.fh (read_sb fs).sb 0 12 dirs.0 (omega arith) in
    let (dir', last, to_last) =
      mkdir_loop-Last k (sb_first_dir (block fs.fh 0)) x xs name dir fs1 small dirs.1 us
        (omega arith) in
    let run : Returns (λ _ fs'. (b : ℕ) × Appends (x ∷ xs) m b name fs1 fs')
        (append_dir (last_of x xs) dir' name fs1) =
      bind
        (sfs_alloc_block-Takes fs1 1 m (read_sb-IsMounted (read_sb fs) again) (omega arith)
          (free m (omega arith) (omega arith)) (λ j h. let z : j ≡ 0 = omega arith in rw z full))
        (λ b fs2 takes. returns (
          b,
          appended-Appends m b name fs1 fs2 short small inside takes x xs (last_of x xs) dir' refl
              last dirs us full,
        )) in
    rw (found, none_there, first)
      (rw (at, to_last) (bind run (λ _ fs' (b, appends). returns (refl, b, appends))))
