-- ===== src/Fs/Tests.antt =====
-- Runs of fs.c on an image of eight blocks. The directory "b" in block 3 is first and empty, "a" in
-- block 2 is second and holds the file "f" in block 4.
use class_projects.Base.{
  ℕ, ◌+◌, ◌≤◌, ◌<◌, ◌≡◌, ◌≢◌, ◌*◌, ◌==◌, Bool-cases, inl, inr, refl, true, false, some, [], ◌∷◌,
  arith, ltb, if◌then◌else◌,
}
use class_projects.Base.Int.{pos}
use class_projects.Base.Names.{Name}
use class_projects.Base.Bytes.{Bytes, SameBytes}
use class_projects.Base.Run.{done, fault, Returns, and_then}
use class_projects.Fs.Word.{get_u32, put_u32, put_u32-IsBytes, get_u32-put_u32}
use class_projects.Fs.{
  Sfs, FdStruct, sfs_block_size, read_sb, sfs_print_info, strncpy, char_at, same_string, no_inodes,
  dir_inode, sfs_alloc_block, sfs_free_block, sfs_find_dir, sfs_rmdir, sfs_mkfs,
}
use class_projects.Fs.Files.{sfs_remove}
use class_projects.Fs.Files.Remove.{IsRemovable, Removed, sfs_remove-Removed}
use class_projects.Fs.Freemap.{used, IsMounted, Marks}
use class_projects.Fs.Freemap.Alloc.{Allocates, sfs_alloc_block-first, sfs_free_block-frees}
use class_projects.Fs.Dirs.{block, HasDirs, IsChain, first_named, sfs_find_dir-first}
use class_projects.Fs.Image.{IsFormatted, sfs_rmdir-first, sfs_alloc_block-sfs_mkfs}
use class_projects.Fs.Files.{free_fd, sfs_open, sfs_seek, sfs_eof, sfs_seek_end}
use class_projects.Fs.Content.{sfs_write, sfs_read}
use class_projects.Fs.Content.Limits.{sfs_write_read-exact_end}
use class_projects.Fs.Files.Open.{HasFile, sfs_open-existing, sfs_eof-sfs_seek_end}

abbrev name_a : Name
name_a = b'a' ∷ []

abbrev name_b : Name
name_b = b'b' ∷ []

abbrev name_f : Name
name_f = b'f' ∷ []

abbrev zeros : Bytes
zeros = λ _. 0

abbrev superblock : Bytes
superblock = put_u32 12 3 (put_u32 8 1 (put_u32 4 1024 zeros))

-- Block 3, then block 2 with its file, then the inode.
abbrev image : Bytes
image =
    strncpy 504
      (put_u32 1148 4
        (strncpy 120 (strncpy 120 (put_u32 1536 2 superblock) 1540 name_b) 1028 name_a))
      2056 name_f

abbrev closed_file : FdStruct
closed_file = record { inode = zeros; inode_bid = 0; dir_bid = 0; cur = 0; valid = 0 }

-- Blocks 1 to 4 are in use.
abbrev small_fs : Sfs
small_fs = record {
  fh = record { size = 4096; byte = image };
  sb = superblock;
  freemap = put_u32 0 15 zeros;
  freemap_words = 128;
  fdtable = λ _. closed_file;
}

small_fs-IsFormatted : IsFormatted small_fs
unfolding get_u32 put_u32
small_fs-IsFormatted = record {
  inside = omega arith;
  bytes = λ i. ground arith;
  words = refl;
  blocks = refl;
}

small_fs-IsMounted : IsMounted small_fs
unfolding get_u32 put_u32
small_fs-IsMounted = record { bytes = small_fs-IsFormatted.bytes; words = refl; blocks = refl }

small_fs-HasDirs : HasDirs small_fs.fh (3 ∷ 2 ∷ [])
unfolding get_u32 put_u32 IsChain char_at
small_fs-HasDirs = (
  omega arith,
  (refl, (λ e. omega (arith, e)), omega arith, (refl, (λ e. omega (arith, e)), omega arith, refl)),
)

sfs_alloc_block-first_example : Returns (Allocates small_fs) (sfs_alloc_block small_fs)
sfs_alloc_block-first_example = sfs_alloc_block-first small_fs small_fs-IsMounted

sfs_free_block-frees_example :
    Returns (λ _ fs'. Marks 3 false small_fs fs') (sfs_free_block 4 small_fs)
sfs_free_block-frees_example = sfs_free_block-frees small_fs 3 small_fs-IsMounted (omega arith)

sfs_find_dir-first_example :
    sfs_find_dir 3 zeros name_a small_fs
    ≡ done (first_named small_fs.fh name_a (3 ∷ 2 ∷ [])) (read_sb small_fs)
sfs_find_dir-first_example =
    sfs_find_dir-first 3 name_a (3 ∷ 2 ∷ []) zeros small_fs (omega arith) small_fs-HasDirs
      (omega arith)

sfs_rmdir-first_example :
    Returns (λ r fs'. (r ≡ true) × HasDirs fs'.fh []) (sfs_rmdir 3 zeros name_b small_fs)
unfolding get_u32 put_u32 same_string no_inodes char_at
sfs_rmdir-first_example =
    sfs_rmdir-first 3 name_b 3 (2 ∷ []) zeros small_fs (omega arith) small_fs-HasDirs (omega arith)
      refl refl small_fs-IsFormatted (omega arith)

sfs_alloc_block-sfs_mkfs_example :
    Returns
      (λ (b, b') fs'. (b ≡ 0) × (b' ≡ 3) × ((k : ℕ) → used fs'.freemap k ≡ ltb k 3))
      (and_then (sfs_mkfs small_fs) (λ _ fs1. and_then (sfs_alloc_block fs1) (λ b fs2.
        and_then
          (sfs_print_info fs2)
          (λ _ fs3. and_then (sfs_alloc_block fs3) (λ b' fs4. done (b, b') fs4)))))
sfs_alloc_block-sfs_mkfs_example = sfs_alloc_block-sfs_mkfs small_fs

image-zero : (i : ℕ) → 1152 ≤ i → i < 1536 → image i ≡ 0
unfolding put_u32
image-zero i le lt = ground arith

small_fs-inode : (j : ℕ) → dir_inode (block small_fs.fh 2) j ≢ 0 → j < 97 → j ≡ 0
unfolding get_u32
small_fs-inode j ne lt = elim (Bool-cases (j == 0)) [
  | inl q ↦ ground arith
  | inr q ↦ absurd (
      ne (
        rw
          (
            image-zero (1024 + (124 + 4 * j)) (ground arith) (omega arith),
            image-zero (1024 + (124 + 4 * j + 1)) (ground arith) (omega arith),
            image-zero (1024 + (124 + 4 * j + 2)) (ground arith) (omega arith),
            image-zero (1024 + (124 + 4 * j + 3)) (ground arith) (omega arith),
          )
          refl))
]

small_fs-HasFile : HasFile small_fs 2 name_f 0
unfolding get_u32 put_u32 char_at same_string
small_fs-HasFile = record {
  place = omega arith;
  there = λ e. omega (arith, e);
  named = refl;
  before = λ j lt. absurd (omega arith);
  inside = λ j lt ne. let z : j ≡ 0 = small_fs-inode j ne lt in rw z (omega arith);
}

sfs_open-existing_example :
    Returns
      (λ r fs'.
        (r ≡ some 0)
        × (fs'.fh ≡ small_fs.fh)
        × ((fs'.fdtable 0).valid ≡ 1)
        × ((fs'.fdtable 0).cur ≡ 0)
        × ((fs'.fdtable 0).dir_bid ≡ 2)
        × ((fs'.fdtable 0).inode_bid ≡ dir_inode (block small_fs.fh 2) 0)
        × SameBytes sfs_block_size
            (fs'.fdtable 0).inode
            (block small_fs.fh (dir_inode (block small_fs.fh 2) 0))
        × ((j : ℕ) → j ≢ 0 → fs'.fdtable j ≡ small_fs.fdtable j)
        × (fs'.freemap ≡ small_fs.freemap)
        × (fs'.freemap_words ≡ small_fs.freemap_words))
      (sfs_open 3 zeros zeros name_a name_f small_fs)
unfolding first_named same_string get_u32 put_u32 char_at free_fd
sfs_open-existing_example =
    sfs_open-existing 3 0 2 0 (3 ∷ 2 ∷ []) zeros zeros name_a name_f small_fs (omega arith)
      (omega arith) small_fs-HasDirs (omega arith) refl (λ e. omega (arith, e)) (omega arith)
      small_fs-HasFile refl

-- Descriptor 0 has a file of 1000 bytes, and its cursor is at 300.
abbrev open_fs : Sfs
open_fs = record small_fs {
  fdtable = λ _. record {
    inode = put_u32 0 1000 zeros;
    inode_bid = 4;
    dir_bid = 2;
    cur = 300;
    valid = 1;
  };
}

sfs_eof-sfs_seek_end_example :
    Returns
      (λ r fs'. (r ≡ 0) × ((fs'.fdtable 0).cur ≡ 300))
      (and_then (sfs_seek 0 (pos 0) sfs_seek_end open_fs) (λ _ fs1. sfs_eof 0 fs1))
unfolding get_u32 put_u32
sfs_eof-sfs_seek_end_example =
    sfs_eof-sfs_seek_end 0 open_fs (omega arith) (omega arith) (omega arith)

-- Descriptor 0 has a file of one full frame, and its cursor is at the start.
abbrev full_fs : Sfs
full_fs = record small_fs {
  fdtable =
      λ _. record { inode = put_u32 0 65024 zeros; inode_bid = 4; dir_bid = 2; cur = 0; valid = 1 };
}

sfs_write_read-exact_end_example :
    (sfs_write 1 zeros zeros (λ _. 0) 0 zeros 65024 full_fs ≡ fault)
    × (sfs_read zeros zeros (λ _. 0) 0 zeros 65024 full_fs ≡ fault)
unfolding get_u32 put_u32
sfs_write_read-exact_end_example =
    sfs_write_read-exact_end 1 0 65024 zeros zeros zeros (λ _. 0) full_fs (omega arith)
      (omega arith) (omega arith) refl refl (omega arith)

-- The file in the inode of block 3 has its frame in block 4.
abbrev one_file : Sfs
one_file = record {
  fh = record { size = 67584; byte = λ x. if x == 1148 then 3 else if x == 1540 then 4 else 0 };
  sb = put_u32 8 1 zeros;
  freemap = put_u32 0 3 (λ _. 0);
  freemap_words = 128;
  fdtable = λ _. record { inode = zeros; inode_bid = 3; dir_bid = 2; cur = 0; valid = 1 };
}

one_file-IsRemovable : IsRemovable one_file 5 0 4
unfolding get_u32
one_file-IsRemovable = record {
  open_there = omega arith;
  mounted = record {
    bytes = put_u32-IsBytes 0 3 (λ _. 0) (λ i. omega arith);
    words = refl;
    blocks = get_u32-put_u32 8 1 zeros (omega arith);
  };
  small = omega arith;
  large = omega arith;
  dir_whole = omega arith;
  dir_behind = omega arith;
  place = omega arith;
  entry = refl;
  before = λ j h. absurd (omega arith);
  inode_whole = omega arith;
  inode_apart = λ e. omega (arith, e);
  inode_some = λ e. omega (arith, e);
  inode_in_map = omega arith;
  frame = refl;
  frame_whole = omega arith;
  frame_apart = λ e. omega (arith, e);
  frame_some = λ e. omega (arith, e);
  frame_in_map = omega arith;
  only_frame = refl;
}

sfs_remove-Removed_example :
    Returns (λ _ fs'. Removed 5 0 4 one_file fs') (sfs_remove 2 zeros zeros zeros 5 one_file)
sfs_remove-Removed_example =
    sfs_remove-Removed one_file 5 0 4 one_file-IsRemovable zeros zeros zeros 2 (omega arith)
