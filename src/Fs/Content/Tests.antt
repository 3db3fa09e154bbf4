-- ===== src/Fs/Content/Tests.antt =====
-- A run over the content of a file of fs.c: its frame is block 4, and its 127 blocks follow.
use class_projects.Base.{
  ℕ, ◌+◌, ◌-◌, ◌*◌, ◌/◌, ◌%◌, ◌<◌, ◌≡◌, refl, arith, ltb, leb, ◌==◌, ◌&&◌, if◌then◌else◌,
}
use class_projects.Base.Int.{pos}
use class_projects.Base.Bytes.{Bytes, File, SameBytes}
use class_projects.Base.Run.{Returns, and_then}
use class_projects.Fs.Word.{get_u32, put_u32, put_u32-IsBytes, get_u32-put_u32}
use class_projects.Fs.Image.{new_map-used}
use class_projects.Fs.{Sfs, FdStruct}
use class_projects.Fs.Files.{first_frame, sfs_seek, sfs_seek_set}
use class_projects.Fs.Content.{sfs_resize_file, sfs_write, sfs_read}
use class_projects.Fs.Content.Grown.{IsNew, Fresh}
use class_projects.Fs.Content.Fresh.{sfs_resize_file-new}
use class_projects.Fs.Content.Blocks.{frame_bid, content_bid}
use class_projects.Fs.Content.Flat.{blocks_of, IsFile}
use class_projects.Fs.Content.Span.{place}
use class_projects.Fs.Content.Past.{sfs_read_write-unfilled}
use class_projects.Fs.Content.Kept.{Leaves, SameTables, sfs_write-file_byte, sfs_read-sfs_write}

abbrev zeros : Bytes
zeros = λ _. 0

-- Word `i` of the list in block 4 is the number of block 5 + i.
abbrev image : File
image = record {
  size = 67584;
  byte = λ x.
      if leb 2052 x && ltb x 2560 && ((x % 4) == 0)
      then 5 + (x - 2052) / 4
      else if leb 2560 x
      then x % 256
      else 0;
}

abbrev inode : Bytes
inode = put_u32 4 4 (put_u32 0 65024 zeros)

abbrev entry : FdStruct
entry = record { inode = inode; inode_bid = 3; dir_bid = 2; cur = 100; valid = 1 }

abbrev content_fs : Sfs
content_fs = record {
  fh = image;
  sb = zeros;
  freemap = zeros;
  freemap_words = 128;
  fdtable = λ _. entry;
}

inode-blocks : (blocks_of inode ≡ 127) × (first_frame inode ≡ 4)
unfolding get_u32 put_u32
inode-blocks = (refl, refl)

image-bid : (i : ℕ) → i < 127 → content_bid image (first_frame inode) i ≡ 5 + i
unfolding get_u32 put_u32 frame_bid
image-bid i h =
    let z : i / 127 ≡ 0 = omega arith in
    let z' : i % 127 ≡ i = omega arith in rw (z, z') (ground arith)

image-frame : (k : ℕ) → k * 127 < 127 → frame_bid image (first_frame inode) k ≡ 4
unfolding get_u32 put_u32 frame_bid
image-frame k h = let z : k ≡ 0 = omega arith in rw z refl

image-IsFile : IsFile image inode
unfolding get_u32 put_u32
image-IsFile = record {
  small = omega arith;
  short = omega arith;
  frames = λ k h. omega (arith, image-frame k h);
  blocks = λ i h. omega (arith, image-bid i h);
  distinct = λ i j h h' e. omega (arith, image-bid i h, image-bid j h', e);
  apart = λ i k h h' e. omega (arith, image-bid i h, image-frame k h', e);
}

-- 2000 bytes, from the middle of the first block on.
within : (100 + 2000) / 512 < blocks_of inode
within = omega (arith, inode-blocks.0)

abbrev counting : Bytes
counting i = i * 7 % 256

sfs_write-file_byte_example :
    Returns
      (λ n fs'.
        (n ≡ 2000)
        × (fs'.fdtable 3 ≡ record entry { cur = 100 + 2000 })
        × Leaves inode counting 100 2000 image fs'.fh
        × SameTables content_fs fs')
      (sfs_write 5 zeros zeros zeros 3 counting 2000 content_fs)
sfs_write-file_byte_example =
    sfs_write-file_byte 5 3 2000 zeros zeros counting zeros content_fs (omega arith) image-IsFile
      (omega arith) within

sfs_read-sfs_write_example :
    Returns
      (λ r fs'. (r.0 ≡ 2000) × SameBytes 2000 r.1 counting)
      (and_then (sfs_write 5 zeros zeros zeros 3 counting 2000 content_fs) (λ _ fs1.
        and_then
          (sfs_seek 3 (pos 100) sfs_seek_set fs1)
          (λ _ fs2. sfs_read zeros zeros zeros 3 zeros 2000 fs2)))
sfs_read-sfs_write_example =
    sfs_read-sfs_write 5 3 2000 zeros zeros counting zeros zeros content_fs (omega arith)
      image-IsFile (omega arith) (omega arith) within

-- An image of 1025 blocks with a new file at descriptor 0, whose inode is in block 2.
abbrev new_fs : Sfs
new_fs = record {
  fh = record { size = 524800; byte = zeros };
  sb = put_u32 8 1 zeros;
  freemap = put_u32 0 3 (λ _. 0);
  freemap_words = 128;
  fdtable = λ _. record { inode = zeros; inode_bid = 2; dir_bid = 2; cur = 0; valid = 1 };
}

new_fs-IsNew : IsNew new_fs 0 2
unfolding get_u32
new_fs-IsNew = record {
  mounted = record {
    bytes = put_u32-IsBytes 0 3 (λ _. 0) (λ i. omega arith);
    words = refl;
    blocks = get_u32-put_u32 8 1 zeros (omega arith);
  };
  free = (omega arith, (λ j h h'. let u = new_map-used j in ground arith));
  full = new_map-used 0;
  inside = omega arith;
  small = omega arith;
  empty = refl;
  no_frame = refl;
  behind = omega arith;
  there = omega arith;
  marked = new_map-used 1;
}

sfs_resize_file-new_example :
    Returns (λ _ fs'. (b : ℕ) × Fresh 0 2 b new_fs fs') (sfs_resize_file 9 counting 0 1024 new_fs)
sfs_resize_file-new_example =
    sfs_resize_file-new 9 0 1024 2 counting new_fs (omega arith) (omega arith) new_fs-IsNew

-- The cursor is in the second block.
abbrev past_fs : Sfs
past_fs = record content_fs { fdtable = λ _. record entry { cur = 600 } }

abbrev left_over : ℕ → ℕ
left_over x = x + 40

sfs_read_write-unfilled_example :
    Returns
      (λ r fs'. (i : ℕ) → i < 100 → r.1 i ≡ image.byte (place left_over (600 + i)))
      (sfs_read zeros zeros left_over 3 counting 100 past_fs)
    × Returns
        (λ n fs'. (i : ℕ) → i < 100 → fs'.fh.byte (place left_over (600 + i)) ≡ counting i)
        (sfs_write 5 zeros zeros left_over 3 counting 100 past_fs)
unfolding get_u32 put_u32
sfs_read_write-unfilled_example =
    sfs_read_write-unfilled 5 3 100 zeros zeros counting left_over past_fs (omega arith)
      (omega arith) (omega arith) (omega arith) (omega arith) (omega arith)
      (record {
        roomy = λ a h h'. omega arith;
        whole = λ a h h'. omega arith;
        distinct = λ a b h h' g g' e. omega arith;
      })
