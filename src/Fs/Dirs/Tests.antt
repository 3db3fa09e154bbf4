-- ===== src/Fs/Dirs/Tests.antt =====
-- Runs of `sfs_mkdir` and `sfs_rmdir`, on an image with the directory "a" in block 2, and with one more.
use class_projects.Base.{ℕ, ◌≡◌, refl, true, [], ◌∷◌, arith, ◌==◌, if◌then◌else◌}
use class_projects.Base.Names.{Name}
use class_projects.Base.Bytes.{Bytes, File}
use class_projects.Base.Run.{Returns}
use class_projects.Fs.Word.{get_u32, put_u32, put_u32-IsBytes, bit}
use class_projects.Fs.{Sfs, same_string, read_sb, sfs_mkdir, sfs_rmdir, no_inodes}
use class_projects.Fs.Dirs.{HasDirs, IsChain, first_named}
use class_projects.Fs.Image.{IsFormatted, new_map-used}
use class_projects.Fs.Content.Fills.{IsFree}
use class_projects.Fs.Dirs.Last.{AreUsed, last_of}
use class_projects.Fs.Freemap.{used}
use class_projects.Fs.Dirs.Unlink.{Unlinked}
use class_projects.Fs.Dirs.Middle.{sfs_rmdir-Unlinked}
use class_projects.Fs.Dirs.Append.{Appends}
use class_projects.Fs.Dirs.New.{sfs_mkdir-new}

abbrev zeros : Bytes
zeros = λ _. 0

abbrev name_b : Name
name_b = b'b' ∷ []

abbrev image : File
image = record {
  size = 524800;
  byte = λ x. if x == 8 then 1 else if x == 12 then 2 else if x == 1028 then b'a' else 0;
}

abbrev dirs_fs : Sfs
dirs_fs = record {
  fh = image;
  sb = zeros;
  freemap = put_u32 0 3 (λ _. 0);
  freemap_words = 128;
  fdtable = λ _. record { inode = zeros; inode_bid = 0; dir_bid = 0; cur = 0; valid = 0 };
}

dirs_fs-IsFormatted : IsFormatted dirs_fs
unfolding get_u32
dirs_fs-IsFormatted = record {
  inside = omega arith;
  bytes = put_u32-IsBytes 0 3 (λ _. 0) (λ i. omega arith);
  words = refl;
  blocks = refl;
}

dirs_fs-HasDirs : HasDirs image (2 ∷ [])
unfolding get_u32 IsChain
dirs_fs-HasDirs = (omega arith, (refl, (λ e. omega arith), omega arith, refl))

dirs_fs-AreUsed : AreUsed image dirs_fs.freemap (2 ∷ [])
unfolding AreUsed
dirs_fs-AreUsed = ((omega arith, omega arith, new_map-used 1), tt)

dirs_fs-IsFree : IsFree dirs_fs 2 1
dirs_fs-IsFree = (omega arith, (λ j h h'. let u = new_map-used j in ground arith))

sfs_mkdir-new_example :
    Returns
      (λ ok fs'.
        (ok ≡ true) × (b : ℕ) × Appends (2 ∷ []) 2 b name_b (read_sb (read_sb dirs_fs)) fs')
      (sfs_mkdir 2 zeros name_b dirs_fs)
unfolding first_named same_string
sfs_mkdir-new_example =
    sfs_mkdir-new 2 2 (2 ∷ []) name_b zeros dirs_fs (omega arith) dirs_fs-HasDirs (omega arith) refl
      dirs_fs-AreUsed dirs_fs-IsFormatted (omega arith) (new_map-used 0) dirs_fs-IsFree
      (omega arith)

-- The directory "b" in block 3 follows "a".
abbrev two_dirs : Sfs
two_dirs = record dirs_fs {
  fh = record {
    size = 524800;
    byte = λ x.
        if x == 8
        then 1
        else if x == 12
        then 2
        else if x == 1024
        then 3
        else if x == 1028
        then b'a'
        else if x == 1540
        then b'b'
        else 0;
  };
  freemap = put_u32 0 7 (λ _. 0);
}

two_dirs-IsFormatted : IsFormatted two_dirs
unfolding get_u32
two_dirs-IsFormatted = record {
  inside = omega arith;
  bytes = put_u32-IsBytes 0 7 (λ _. 0) (λ i. omega arith);
  words = refl;
  blocks = refl;
}

two_dirs-HasDirs : HasDirs two_dirs.fh (2 ∷ (3 ∷ []))
unfolding get_u32 IsChain
two_dirs-HasDirs = (
  omega arith,
  (refl, (λ e. omega arith), omega arith, (refl, (λ e. omega arith), omega arith, refl)),
)

two_dirs-AreUsed : AreUsed two_dirs.fh two_dirs.freemap (2 ∷ (3 ∷ []))
unfolding AreUsed used get_u32 put_u32 bit
two_dirs-AreUsed = ((omega arith, omega arith, refl), ((omega arith, omega arith, refl), tt))

sfs_rmdir-Unlinked_example :
    Returns
      (λ r fs'. (r ≡ true) × HasDirs fs'.fh (2 ∷ []) × Unlinked 2 3 two_dirs fs')
      (sfs_rmdir 3 zeros name_b two_dirs)
unfolding first_named same_string no_inodes get_u32 last_of
sfs_rmdir-Unlinked_example =
    sfs_rmdir-Unlinked 3 name_b 2 [] 3 [] zeros two_dirs (omega arith) two_dirs-HasDirs
      (omega arith) refl refl two_dirs-AreUsed two_dirs-IsFormatted (omega arith) (omega arith)
