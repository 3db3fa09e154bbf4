-- ===== src/Fs/Image.antt =====
-- `sfs_mkfs` and `sfs_rmdir` of fs.c: the image that they leave.
use class_projects.Base.{
  ℕ, zero, suc, ◌+◌, ◌-◌, ◌*◌, ◌/◌, ◌%◌, ◌≤◌, ◌<◌, ◌≡◌, ◌≢◌, ◌∙◌, refl, true, false, arith, [], ◌∷◌,
  List, max, ltb, ◌==◌, inl, inr, Bool-cases,
}
use class_projects.Base.Names.{Name, length}
use class_projects.Base.Bytes.{Bytes, File, SameBytes, file_read, file_write}
use class_projects.Base.Run.{done, Returns, returns, and_then, bind}
use class_projects.Fs.Word.{IsBytes, get_u32, put_u32, bit, put_u32-IsBytes, get_u32-put_u32}
use class_projects.Fs.{
  Sfs, sfs_block_size, sfs_max_opened_files, sfs_magic, sfs_at, sfs_write_block, read_sb,
  sb_first_dir, sb_nblocks, sb_nfreemap_blocks, no_inodes, sfs_mkfs, sfs_rmdir, sfs_alloc_block,
  sfs_print_info, sfs_free_block, alloc_loop, same_string,
}
use class_projects.Fs.Freemap.{used, IsMounted, Marks}
use class_projects.Fs.Freemap.Alloc.{sfs_free_block-frees, sfs_alloc_block-first}
use class_projects.Fs.Dirs.{
  block, IsInside, HasDirs, IsChain, first_named, get_u32-read, sfs_find_dir-first,
}

-- The image has a superblock for a freemap of one block, which is in memory.
pub record IsFormatted (fs : Sfs) : Type 0 where
  pub inside : IsInside fs.fh 0
  pub bytes : IsBytes fs.freemap
  pub words : fs.freemap_words ≡ 128
  pub blocks : sb_nfreemap_blocks (block fs.fh 0) ≡ 1

pub read_sb-IsMounted : (fs : Sfs) → IsFormatted fs → IsMounted (read_sb fs)
read_sb-IsMounted fs m = record {
  bytes = m.bytes;
  words = m.words;
  blocks = get_u32-read fs.fh fs.sb 0 8 m.inside (omega arith) ∙ m.blocks;
}

pub read_sb-IsFormatted : (fs : Sfs) → IsFormatted fs → IsFormatted (read_sb fs)
read_sb-IsFormatted fs m = record {
  inside = m.inside;
  bytes = m.bytes;
  words = m.words;
  blocks = m.blocks;
}

-- The superblock that was written is in block 0.
get_u32-written :
    (fs : Sfs) (buf : Bytes) (p : ℕ)
    → p + 4 ≤ sfs_block_size
    → get_u32 (block (sfs_write_block buf 0 0 fs).fh 0) p ≡ get_u32 buf p
unfolding get_u32
get_u32-written fs buf p le = ground arith

pub no_inodes-read :
    (f : File) (dir : Bytes) (bid n i : ℕ)
    → IsInside f bid
    → i + n ≤ 97
    → no_inodes n i (file_read f (sfs_at bid) sfs_block_size dir) ≡ no_inodes n i (block f bid)
unfolding no_inodes
no_inodes-read f dir bid zero i inside le = refl
no_inodes-read f dir bid (suc n) i inside le = rw (
  get_u32-read f dir bid (124 + 4 * i) inside (omega arith),
  no_inodes-read f dir bid n (i + 1) inside (omega arith),
)

pub free_nonzero :
    (x : ℕ) (fs : Sfs)
    → x ≢ 0
    → x ≤ 4096
    → IsMounted fs
    → Returns (λ _ fs'. Marks (x - 1) false fs fs') (sfs_free_block x fs)
free_nonzero zero fs ne le m = absurd (ne refl)
free_nonzero (suc y) fs ne le m =
    let z : suc y - 1 ≡ y = omega arith in rw z (sfs_free_block-frees fs y m (omega arith))

-- Removing the first directory of the list, when it is empty, succeeds and leaves an image without any
-- directory: those behind it are lost.
pub sfs_rmdir-first :
    (k : ℕ) (name : Name) (x : ℕ) (xs : List ℕ) (dir : Bytes) (fs : Sfs)
    → 4 + length name < sfs_block_size
    → HasDirs fs.fh (x ∷ xs)
    → length (x ∷ xs) < k
    → same_string (block fs.fh x) 4 name ≡ true
    → no_inodes 97 0 (block fs.fh x) ≡ true
    → IsFormatted fs
    → x ≤ 4096
    → Returns (λ r fs'. (r ≡ true) × HasDirs fs'.fh []) (sfs_rmdir k dir name fs)
unfolding sfs_rmdir first_named IsChain
sfs_rmdir-first k name x xs dir fs short (inside, chain) lt named empty m le =
    let (first, ne, x_inside, rest) = chain in
    let some_block : (x == 0) ≡ false = ground arith in
    let again = read_sb-IsFormatted fs m in
    let at_first : sb_first_dir (read_sb (read_sb fs)).sb ≡ x =
      get_u32-read fs.fh (read_sb fs).sb 0 12 inside (omega arith) ∙ first in
    let same : (x == x) ≡ true = ground arith in
    rw
      (
        sfs_find_dir-first k name (x ∷ xs) dir (read_sb fs) short (inside, chain) lt,
        named,
        some_block,
        no_inodes-read fs.fh dir x 97 0 x_inside (omega arith),
        empty,
        at_first,
        same,
      )
      (bind (free_nonzero x (read_sb (read_sb fs)) ne le (read_sb-IsMounted (read_sb fs) again))
        (λ _ fs2 freed. returns (
          refl,
          (
            omega arith,
            get_u32-written fs2 (put_u32 12 0 fs2.sb) 12 (omega arith)
                ∙ get_u32-put_u32 12 0 fs2.sb (omega arith),
          ),
        )))

bit_zero : (j : ℕ) → bit j 0 ≡ false
unfolding bit
bit_zero zero = refl
bit_zero (suc j) = bit_zero j

-- The freemap of a new file system.
abbrev new_map : Bytes
new_map = put_u32 0 3 (λ _. 0)

bit_three : (j : ℕ) → bit j 3 ≡ ltb j 2
unfolding bit
bit_three zero = refl
bit_three (suc zero) = refl
bit_three (suc (suc j)) = bit_zero j ∙ ground arith

new_map-word : (i : ℕ) → i ≢ 0 → get_u32 new_map (4 * i) ≡ 0
unfolding get_u32 put_u32
new_map-word i ne = ground arith

pub new_map-used : (k : ℕ) → used new_map k ≡ ltb k 2
unfolding used
new_map-used k = elim (Bool-cases (ltb k 32)) [
  | inl q ↦
      let row : k / 32 ≡ 0 = ground arith in
      let col : k % 32 ≡ k = ground arith in
      rw (row, col, get_u32-put_u32 0 3 (λ _. 0) (omega arith)) (bit_three k)
  | inr q ↦ rw (new_map-word (k / 32) (ground arith)) (bit_zero (k % 32) ∙ ground arith)
]

abbrev new_sb : Bytes → Bytes
new_sb sb = put_u32 12 0 (put_u32 8 1 (put_u32 4 1024 (put_u32 0 sfs_magic sb)))

-- The image after the three writes.
abbrev made_image : Sfs → File
made_image fs =
    (sfs_write_block new_map 0 1
      (sfs_write_block (λ _. 0) 0 1024 (sfs_write_block (new_sb fs.sb) 0 0 fs))).fh

get_u32_same :
    (a b : Bytes) (p : ℕ)
    → SameBytes sfs_block_size a b
    → p + 4 ≤ sfs_block_size
    → get_u32 a p ≡ get_u32 b p
unfolding get_u32
get_u32_same a b p same le = rw (
  same p (omega arith),
  same (p + 1) (omega arith),
  same (p + 2) (omega arith),
  same (p + 3) (omega arith),
)

write-before :
    (f : File) (pos o : ℕ) (buf : Bytes)
    → o < pos
    → o < f.size
    → (file_write f pos sfs_block_size buf 0).byte o ≡ f.byte o
write-before f pos o buf lt lt' = ground arith

write-own :
    (f : File) (o : ℕ) (buf : Bytes)
    → o < sfs_block_size
    → (file_write f 0 sfs_block_size buf 0).byte o ≡ buf o
write-own f o buf lt = let z : o - 0 + 0 ≡ o = omega arith in ground arith

made_image-byte : (fs : Sfs) (o : ℕ) → o < sfs_block_size → (made_image fs).byte o ≡ new_sb fs.sb o
made_image-byte fs o lt =
    let f1 = (sfs_write_block (new_sb fs.sb) 0 0 fs).fh in
    let f2 = file_write f1 (sfs_at 1024) sfs_block_size (λ _. 0) 0 in
    write-before f2 512 o new_map (omega arith) (omega arith)
    ∙ write-before f1 524288 o (λ _. 0) (omega arith) (omega arith)
    ∙ write-own fs.fh o (new_sb fs.sb) lt

made_image-sb :
    (fs : Sfs) (p n : ℕ)
    → p + 4 ≤ sfs_block_size
    → get_u32 (new_sb fs.sb) p ≡ n
    → get_u32 (block (made_image fs) 0) p ≡ n
made_image-sb fs p n le e =
    get_u32_same (block (made_image fs) 0) (new_sb fs.sb) p
      (λ o lt. let z : 0 + o ≡ o = omega arith in rw z (made_image-byte fs o lt)) le
    ∙ e

-- Without a superblock no block is searched.
alloc-cleared : (fs : Sfs) → sb_nfreemap_blocks fs.sb ≡ 0 → sfs_alloc_block fs ≡ done 0 fs
unfolding sfs_alloc_block alloc_loop
alloc-cleared fs e = rw e refl

pub sfs_mkfs-formats :
    (fs : Sfs)
    → Returns
        (λ _ fs'.
          IsFormatted fs'
          × (get_u32 (block fs'.fh 0) 0 ≡ sfs_magic)
          × (sb_nblocks (block fs'.fh 0) ≡ 1024)
          × HasDirs fs'.fh []
          × (fs'.fh.size ≡ max fs.fh.size (1025 * sfs_block_size))
          × ((o : ℕ) → o < sfs_block_size → block fs'.fh 1 o ≡ fs'.freemap o)
          × ((k : ℕ) → used fs'.freemap k ≡ ltb k 2)
          × ((i : ℕ) → i < sfs_max_opened_files → (fs'.fdtable i).valid ≡ 0)
          × (sb_nfreemap_blocks fs'.sb ≡ 0))
        (sfs_mkfs fs)
unfolding sfs_mkfs get_u32 put_u32 IsChain
sfs_mkfs-formats fs = returns (
  record {
    inside = omega arith;
    bytes = put_u32-IsBytes 0 3 (λ _. 0) (λ i. omega arith);
    words = refl;
    blocks = made_image-sb fs 8 1 (omega arith) refl;
  },
  made_image-sb fs 0 sfs_magic (omega arith) refl,
  made_image-sb fs 4 1024 (omega arith) refl,
  (omega arith, made_image-sb fs 12 0 (omega arith) refl),
  omega arith,
  (λ o h. ground arith),
  new_map-used,
  (λ i h. ground arith),
  refl,
)

-- Right after `sfs_mkfs` no block can be allocated, since the superblock in memory is cleared: the
-- result is 0. Once `sfs_print_info` has read the superblock again, the same call
-- gives block 3, and blocks 1 to 3 are marked, and no others.
pub sfs_alloc_block-sfs_mkfs :
    (fs : Sfs)
    → Returns
        (λ (b, b') fs'. (b ≡ 0) × (b' ≡ 3) × ((k : ℕ) → used fs'.freemap k ≡ ltb k 3))
        (and_then (sfs_mkfs fs) (λ _ fs1. and_then (sfs_alloc_block fs1) (λ b fs2.
          and_then
            (sfs_print_info fs2)
            (λ _ fs3. and_then (sfs_alloc_block fs3) (λ b' fs4. done (b, b') fs4)))))
unfolding sfs_print_info
sfs_alloc_block-sfs_mkfs fs =
    bind (sfs_mkfs-formats fs) (λ _ fs1 (m, _, _, _, _, _, map, _, cleared).
      rw (alloc-cleared fs1 cleared) (
        bind (sfs_alloc_block-first (read_sb fs1) (read_sb-IsMounted fs1 m)) (λ b' fs4 takes.
          elim takes [
            | inl (_, _, full) ↦ absurd (let f = full 2 (omega arith) in let f' = map 2 in cc)
            | inr (k, e, _, free, before, marks) ↦
                let at : k ≡ 2 = ground (arith, map k, map 2, before 2) in
                returns (refl, omega arith, λ j. marks.own j ∙ ground (arith, map j))
          ])))
