-- ===== src/Fs.antt =====
-- Old/OS/pa3/a2/fs.c and ext.c: a file system in one file, from its blocks up to its directories. The
-- globals are one record; a struct that is read from a block is the block's bytes.
pub mod Word
pub mod Freemap
pub mod Strings
pub mod Dirs
pub mod Image
pub mod Files
pub mod Content
pub mod Storage
mod Tests
use class_projects.Base.{
  ℕ, zero, suc, ◌+◌, ◌-◌, ◌*◌, ◌/◌, ◌%◌, Bool, true, false, ◌&&◌, Option, none, some, [], ◌∷◌, ltb,
  leb, ◌==◌, if◌then◌else◌,
}
use class_projects.Base.Names.{Name}
use class_projects.Base.Bytes.{Bytes, File, copy, fill, file_read, file_write}
use class_projects.Base.Run.{Cmd, done, fault, no_fuel, and_then}
use class_projects.Fs.Word.{u32_end, get_u32, put_u32, bit, set_bit, clear_bit}

abbrev pub sfs_block_size : ℕ
sfs_block_size = 512

abbrev pub sfs_magic : ℕ
sfs_magic = 2864434397

abbrev pub sfs_max_opened_files : ℕ
sfs_max_opened_files = 32

-- `fd_struct_t`
pub record FdStruct : Type 0 where
  pub inode : Bytes
  pub inode_bid : ℕ
  pub dir_bid : ℕ
  pub cur : ℕ
  pub valid : ℕ

-- `fh` of ext.c, and `sb`, `freemap` and `fdtable` of fs.c. `freemap_words` is how many words `freemap`
-- points at: 0 before the file system is made.
pub record Sfs : Type 0 where
  pub fh : File
  pub sb : Bytes
  pub freemap : Bytes
  pub freemap_words : ℕ
  pub fdtable : ℕ → FdStruct

-- `bid * BLOCK_SIZE`, in `u32`.
abbrev pub sfs_at : ℕ → ℕ
sfs_at bid = bid * sfs_block_size % u32_end

-- `sfs_read_block`: the buffer afterwards.
abbrev pub sfs_read_block : Bytes → ℕ → Sfs → Bytes
sfs_read_block buf bid fs = file_read fs.fh (sfs_at bid) sfs_block_size buf

-- `sfs_write_block(buf + p, bid)`
abbrev pub sfs_write_block : Bytes → ℕ → ℕ → Sfs → Sfs
sfs_write_block buf p bid fs = record fs { fh = file_write fs.fh (sfs_at bid) sfs_block_size buf p }

-- The members of `sfs_superblock_t`.
abbrev pub sb_nblocks : Bytes → ℕ
sb_nblocks sb = get_u32 sb 4

abbrev pub sb_nfreemap_blocks : Bytes → ℕ
sb_nfreemap_blocks sb = get_u32 sb 8

abbrev pub sb_first_dir : Bytes → ℕ
sb_first_dir sb = get_u32 sb 12

abbrev pub read_sb : Sfs → Sfs
read_sb fs = record fs { sb = sfs_read_block fs.sb 0 fs }

-- The loop of `sfs_flush_freemap`: `n` blocks are left. `i` counts words, though it is taken for a
-- number of blocks and multiplied again: a second block would be read past the freemap.
unfoldable pub flush_loop : ℕ → ℕ → ℕ → Cmd Sfs (Unit {0})
flush_loop zero bid i fs = done tt fs
flush_loop (suc n) bid i fs =
    if ltb (fs.freemap_words * 4) (sfs_block_size * i * 4 + sfs_block_size)
    then fault
    else flush_loop n (bid + 1) (bid * sfs_block_size)
        (sfs_write_block fs.freemap (sfs_block_size * i * 4) bid fs)

unfoldable pub sfs_flush_freemap : Cmd Sfs (Unit {0})
sfs_flush_freemap fs = flush_loop (sb_nfreemap_blocks fs.sb) 1 0 fs

-- `freemap[i]`
abbrev pub freemap_word : Bytes → ℕ → ℕ
freemap_word map i = get_u32 map (4 * i)

-- The first of the `n` bits from `j` on that is 0.
unfoldable pub zero_bit : ℕ → ℕ → ℕ → Option ℕ
zero_bit zero j w = none
zero_bit (suc n) j w = let rest = zero_bit n (j + 1) w in if bit j w then rest else some j

abbrev pub entry_full : ℕ
entry_full = 4294967295

-- Bit `j` of word `i` is taken.
abbrev pub take_bit : ℕ → ℕ → Sfs → Sfs
take_bit i j fs = record fs {
  freemap = put_u32 (4 * i) (set_bit j (freemap_word fs.freemap i)) fs.freemap;
}

-- The loop of `sfs_alloc_block`: `n` words are left, from `i` on.
unfoldable pub alloc_loop : ℕ → ℕ → Cmd Sfs ℕ
alloc_loop zero i fs = done 0 fs
alloc_loop (suc n) i fs =
    let rest = alloc_loop n (i + 1) fs in
    let w = freemap_word fs.freemap i in
    if leb fs.freemap_words i
    then fault
    else if w == entry_full
    then rest
    else elim (zero_bit 32 0 w) [
      | none ↦ rest
      | some j ↦
          and_then (sfs_flush_freemap (take_bit i j fs))
            (λ _ fs'. done ((j + 1 + i * 32) % u32_end) fs')
    ]

-- `sfs_alloc_block`: 0 where there is no free block.
unfoldable pub sfs_alloc_block : Cmd Sfs ℕ
sfs_alloc_block fs = alloc_loop (sb_nfreemap_blocks fs.sb * sfs_block_size % u32_end / 4) 0 fs

-- Block 0 wraps to the largest `u32`, past every freemap.
unfoldable pub sfs_free_block : ℕ → Cmd Sfs (Unit {0})
sfs_free_block zero fs = fault
sfs_free_block (suc k) fs =
    let i = k / 8 / 4 in
    let j = k - i * 32 in
    if leb fs.freemap_words i
    then fault
    else sfs_flush_freemap (record fs {
      freemap = put_u32 (4 * i) (clear_bit j (freemap_word fs.freemap i)) fs.freemap;
    })

abbrev no_bytes : Bytes
no_bytes = λ _. 0

-- `sfs_mkfs`: the superblock, a block behind the last one, and the freemap.
unfoldable pub sfs_mkfs : Cmd Sfs (Unit {0})
sfs_mkfs fs =
    let sb = put_u32 12 0 (put_u32 8 1 (put_u32 4 1024 (put_u32 0 sfs_magic fs.sb))) in
    let fs1 = sfs_write_block sb 0 0 fs in
    let fs2 = sfs_write_block no_bytes 0 1024 fs1 in
    let map = put_u32 0 3 no_bytes in
    let fs3 = sfs_write_block map 0 1 fs2 in
    done tt (record fs3 {
      sb = fill sfs_block_size sb 0 0;
      freemap = map;
      freemap_words = 128;
      fdtable = λ i.
          if ltb i sfs_max_opened_files then record (fs.fdtable i) { valid = 0 } else fs.fdtable i;
    })

-- The members of `sfs_dirblock_t`.
abbrev pub next_dir : Bytes → ℕ
next_dir dir = get_u32 dir 0

abbrev pub dir_inode : Bytes → ℕ → ℕ
dir_inode dir i = get_u32 dir (124 + 4 * i)

-- Whether `strcmp(b + p, s)` is 0. A name is its characters up to the NUL.
unfoldable pub same_string : Bytes → ℕ → Name → Bool
same_string b p [] = b p == 0
same_string b p (c ∷ cs) = let rest = same_string b (p + 1) cs in if b p == c then rest else false

-- Character `i` of a name, and 0 behind it.
unfoldable pub char_at : Name → ℕ → ℕ
char_at [] i = 0
char_at (c ∷ cs) zero = c
char_at (c ∷ cs) (suc i) = char_at cs i

-- strncpy(b + p, s, n)
abbrev pub strncpy : ℕ → Bytes → ℕ → Name → Bytes
strncpy n b p s = copy n b p (char_at s) 0

-- The loop of `sfs_find_dir`, over the block `dir`.
unfoldable pub find_dir_loop : ℕ → Name → ℕ → Bytes → Cmd Sfs ℕ
find_dir_loop zero name dir_bid dir fs = no_fuel
find_dir_loop (suc k) name dir_bid dir fs =
    let dir' = sfs_read_block dir dir_bid fs in
    let rest = find_dir_loop k name (next_dir dir') dir' fs in
    if dir_bid == 0 then done 0 fs else if same_string dir' 4 name then done dir_bid fs else rest

-- `sfs_find_dir`, which reads the superblock again. `k` bounds the directories passed, and `dir` is the
-- block on the stack.
unfoldable pub sfs_find_dir : ℕ → Bytes → Name → Cmd Sfs ℕ
sfs_find_dir k dir name fs =
    let fs' = read_sb fs in find_dir_loop k name (sb_first_dir fs'.sb) dir fs'

-- A new directory in the block `dir`: a name, no inodes and no successor.
abbrev pub new_dir : Name → Bytes → Bytes
new_dir name dir = put_u32 0 0 (fill 388 (strncpy 120 dir 4 name) 124 0)

-- The loop of `sfs_mkdir` behind the last directory.
unfoldable pub mkdir_loop : ℕ → Name → ℕ → Bytes → Cmd Sfs (Unit {0})
mkdir_loop zero name dir_bid dir fs = no_fuel
mkdir_loop (suc k) name dir_bid dir fs =
    let dir' = sfs_read_block dir dir_bid fs in
    let rest = mkdir_loop k name (next_dir dir') dir' fs in
    if dir_bid == 0
    then done tt fs
    else if next_dir dir' == 0
    then and_then (sfs_alloc_block fs) (λ new_bid fs1.
      let linked = put_u32 0 new_bid dir' in
      let fs2 = sfs_write_block linked 0 dir_bid fs1 in
      done tt (sfs_write_block (new_dir name linked) 0 new_bid fs2))
    else rest

-- `sfs_mkdir`: true for 0 and false for -1.
unfoldable pub sfs_mkdir : ℕ → Bytes → Name → Cmd Sfs Bool
sfs_mkdir k dir name fs = and_then (sfs_find_dir k dir name (read_sb fs)) (λ found fs1.
    if found == 0
    then if sb_first_dir fs1.sb == 0
      then and_then (sfs_alloc_block fs1) (λ new_bid fs2.
        let fs3 = sfs_write_block (new_dir name dir) 0 new_bid fs2 in
        let fs4 = record fs3 { sb = put_u32 12 new_bid fs3.sb } in
        done true (sfs_write_block fs4.sb 0 0 fs4))
      else and_then (mkdir_loop k name (sb_first_dir fs1.sb) dir fs1) (λ _ fs2. done true fs2)
    else done false fs1)

-- The first of the `n` inodes of a directory from `i` on is followed by none in use.
unfoldable pub no_inodes : ℕ → ℕ → Bytes → Bool
no_inodes zero i dir = true
no_inodes (suc n) i dir =
    let rest = no_inodes n (i + 1) dir in if dir_inode dir i == 0 then rest else false

-- The loop of `sfs_rmdir` that takes `gone` out of the list.
unfoldable pub unlink_loop : ℕ → ℕ → ℕ → ℕ → Bytes → Cmd Sfs (Unit {0})
unlink_loop zero gone next dir_bid dir fs = no_fuel
unlink_loop (suc k) gone next dir_bid dir fs =
    let dir' = sfs_read_block dir dir_bid fs in
    let linked = put_u32 0 next dir' in
    let rest = unlink_loop k gone next (next_dir dir') dir' fs in
    if dir_bid == 0
    then done tt fs
    else if next_dir dir' == gone
    then and_then (sfs_free_block gone fs) (λ _ fs1.
      unlink_loop k gone next (next_dir linked) linked (sfs_write_block linked 0 dir_bid fs1))
    else rest

-- `sfs_rmdir`: true for 0 and false for -1.
unfoldable pub sfs_rmdir : ℕ → Bytes → Name → Cmd Sfs Bool
sfs_rmdir k dir name fs = and_then (sfs_find_dir k dir name (read_sb fs)) (λ dir_bid fs1.
    let dir' = sfs_read_block dir dir_bid fs1 in
    if dir_bid == 0
    then done false fs1
    else if no_inodes 97 0 dir'
    then if sb_first_dir fs1.sb == dir_bid
      then and_then (sfs_free_block dir_bid fs1) (λ _ fs2.
        let fs3 = record fs2 { sb = put_u32 12 0 fs2.sb } in
        done true (sfs_write_block fs3.sb 0 0 fs3))
      else and_then (unlink_loop k dir_bid (next_dir dir') (sb_first_dir fs1.sb) dir' fs1)
          (λ _ fs2. done true fs2)
    else done false fs1)

-- The loop of `sfs_lsdir`, over the number of directories so far.
unfoldable pub lsdir_loop : ℕ → ℕ → ℕ → Bytes → Cmd Sfs ℕ
lsdir_loop zero num_dir dir_bid dir fs = no_fuel
lsdir_loop (suc k) num_dir dir_bid dir fs =
    let dir' = sfs_read_block dir dir_bid fs in
    let rest = lsdir_loop k (num_dir + 1) (next_dir dir') dir' fs in
    if dir_bid == 0 then done num_dir fs else rest

-- `sfs_lsdir`, without what it prints.
unfoldable pub sfs_lsdir : ℕ → Bytes → Cmd Sfs ℕ
sfs_lsdir k dir fs = let fs' = read_sb fs in lsdir_loop k 0 (sb_first_dir fs'.sb) dir fs'

-- `sfs_print_info`, without what it prints: the superblock.
unfoldable pub sfs_print_info : Cmd Sfs Bytes
sfs_print_info fs = let fs' = read_sb fs in done fs'.sb fs'

-- `sfs_reloadfs` of an image that is there: its superblock and its freemap, and the file itself.
unfoldable pub sfs_reloadfs : File → Cmd Sfs (Unit {0})
sfs_reloadfs image fs = done tt (record fs {
  fh = image;
  sb = file_read image 0 sfs_block_size fs.sb;
  freemap = file_read image sfs_block_size sfs_block_size (put_u32 0 3 no_bytes);
  freemap_words = 128;
})
