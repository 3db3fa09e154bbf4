-- ===== src/Fs/Files.antt =====
-- The table of open files of fs.c: `sfs_open`, `sfs_close`, `sfs_remove`, `sfs_ls`, `sfs_seek` and
-- `sfs_eof`. A descriptor outside the table is out of bounds.
pub mod Open
pub mod Room
pub mod Create
pub mod Remove
use class_projects.Base.{
  ℕ, zero, suc, ◌+◌, ◌-◌, ◌*◌, ◌%◌, Bool, true, false, ◌||◌, Option, none, some, ltb, leb, ◌==◌,
  if◌then◌else◌,
}
use class_projects.Base.Int.{ℤ, pos, negsuc}
use class_projects.Base.Names.{Name}
use class_projects.Base.Bytes.{Bytes}
use class_projects.Base.Run.{Cmd, done, fault, no_fuel, and_then}
use class_projects.Fs.Word.{u32_end, get_u32, put_u32}
use class_projects.Fs.{
  Sfs, FdStruct, sfs_max_opened_files, sfs_read_block, sfs_write_block, sb_first_dir,
  sfs_alloc_block, sfs_free_block, sfs_find_dir, next_dir, dir_inode, same_string, strncpy,
}

-- The members of `sfs_inode_t`; the name stands at offset 8.
abbrev pub inode_size : Bytes → ℕ
inode_size inode = get_u32 inode 0

abbrev pub first_frame : Bytes → ℕ
first_frame inode = get_u32 inode 4

abbrev pub set_fd : ℕ → FdStruct → Sfs → Sfs
set_fd fd e fs = record fs { fdtable = λ i. if i == fd then e else fs.fdtable i }

-- The first of the `n` descriptors from `i` on that is not in use.
unfoldable pub free_fd : ℕ → ℕ → (ℕ → FdStruct) → Option ℕ
free_fd zero i table = none
free_fd (suc n) i table =
    let rest = free_fd n (i + 1) table in if (table i).valid == 0 then some i else rest

-- The search of `sfs_open` among the `n` inodes from `i` on: the place of the one with the name, and the
-- buffer `inode` afterwards.
unfoldable pub find_inode : ℕ → ℕ → Bytes → Bytes → Name → Sfs → Option ℕ × Bytes
find_inode zero i dir inode name fs = (none, inode)
find_inode (suc n) i dir inode name fs =
    let inode' = sfs_read_block inode (dir_inode dir i) fs in
    let skip = find_inode n (i + 1) dir inode name fs in
    let rest = find_inode n (i + 1) dir inode' name fs in
    if dir_inode dir i == 0
    then skip
    else if same_string inode' 8 name
    then (some i, inode')
    else rest

-- The first empty one of the `n` places of a directory from `i` on.
unfoldable pub free_inode : ℕ → ℕ → Bytes → Option ℕ
free_inode zero i dir = none
free_inode (suc n) i dir =
    let rest = free_inode n (i + 1) dir in if dir_inode dir i == 0 then some i else rest

abbrev pub opened : ℕ → ℕ → Bytes → FdStruct
opened dir_bid inode_bid inode = record {
  inode = inode;
  inode_bid = inode_bid;
  dir_bid = dir_bid;
  cur = 0;
  valid = 1;
}

-- A new file of the directory `dir`. When the directory is full, `sfs_open` ends without a value.
unfoldable pub create_inode : ℕ → ℕ → Bytes → Bytes → Name → Cmd Sfs (Option ℕ)
create_inode fd dir_bid dir inode name fs = elim (free_inode 97 0 dir) [
  | none ↦ fault
  | some i ↦ and_then (sfs_alloc_block fs) (λ inode_bid fs1.
      let fs2 = sfs_write_block (put_u32 (124 + 4 * i) inode_bid dir) 0 dir_bid fs1 in
      let inode' = put_u32 0 0 (put_u32 4 0 (strncpy 504 inode 8 name)) in
      let fs3 = sfs_write_block inode' 0 inode_bid fs2 in
      done (some fd) (set_fd fd (opened dir_bid inode_bid inode') fs3))
]

unfoldable pub open_inode : ℕ → ℕ → Bytes → Name → Option ℕ × Bytes → Cmd Sfs (Option ℕ)
open_inode fd dir_bid dir name (some i, inode) fs =
    done (some fd) (set_fd fd (opened dir_bid (dir_inode dir i) inode) fs)
open_inode fd dir_bid dir name (none, inode) fs = create_inode fd dir_bid dir inode name fs

-- `sfs_open`; `none` is -1. `dir` and `inode` are the blocks on the stack.
unfoldable pub sfs_open : ℕ → Bytes → Bytes → Name → Name → Cmd Sfs (Option ℕ)
sfs_open k dir inode dirname name fs = elim (free_fd sfs_max_opened_files 0 fs.fdtable) [
  | none ↦ done none fs
  | some fd ↦ and_then (sfs_find_dir k dir dirname fs) (λ dir_bid fs1.
      let dir' = sfs_read_block dir dir_bid fs1 in
      if dir_bid == 0
      then done none fs1
      else open_inode fd dir_bid dir' name (find_inode 97 0 dir' inode name fs1) fs1)
]

unfoldable pub sfs_close : ℕ → Cmd Sfs (Unit {0})
sfs_close fd fs =
    if leb sfs_max_opened_files fd
    then fault
    else done tt (set_fd fd (record (fs.fdtable fd) { valid = 0 }) fs)

-- The loop of `sfs_remove` that takes an inode out of its directory.
unfoldable pub drop_inode : ℕ → ℕ → ℕ → ℕ → Bytes → Sfs → Sfs
drop_inode zero i inode_bid dir_bid dir fs = fs
drop_inode (suc n) i inode_bid dir_bid dir fs =
    let rest = drop_inode n (i + 1) inode_bid dir_bid dir fs in
    if dir_inode dir i == inode_bid
    then sfs_write_block (put_u32 (124 + 4 * i) 0 dir) 0 dir_bid fs
    else rest

-- The loop of `sfs_remove` over the frames of the file.
unfoldable pub free_frames : ℕ → ℕ → Bytes → Cmd Sfs (Unit {0})
free_frames zero frame_bid frame fs = no_fuel
free_frames (suc k) frame_bid frame fs =
    let frame' = sfs_read_block frame frame_bid fs in
    if frame_bid == 0
    then done tt fs
    else and_then (sfs_free_block frame_bid fs)
        (λ _ fs1. free_frames k (get_u32 frame' 0) frame' fs1)

-- `sfs_remove`; `k` bounds the frames, and `dir`, `inode` and `frame` are the blocks on the stack.
unfoldable pub sfs_remove : ℕ → Bytes → Bytes → Bytes → ℕ → Cmd Sfs (Unit {0})
sfs_remove k dir inode frame fd fs =
    let e = fs.fdtable fd in
    let dir' = sfs_read_block dir e.dir_bid fs in
    let fs1 = drop_inode 97 0 e.inode_bid e.dir_bid dir' fs in
    let inode' = sfs_read_block inode e.inode_bid fs1 in
    if leb sfs_max_opened_files fd
    then fault
    else and_then (free_frames k (first_frame inode') frame fs1)
        (λ _ fs2. and_then (sfs_free_block e.inode_bid fs2) (λ _ fs3. sfs_close fd fs3))

-- The inodes in use among the `n` from `i` on.
unfoldable pub count_inodes : ℕ → ℕ → Bytes → ℕ
count_inodes zero i dir = 0
count_inodes (suc n) i dir = (if dir_inode dir i == 0 then 0 else 1) + count_inodes n (i + 1) dir

unfoldable pub ls_loop : ℕ → ℕ → ℕ → Bytes → Cmd Sfs ℕ
ls_loop zero num_files dir_bid dir fs = no_fuel
ls_loop (suc k) num_files dir_bid dir fs =
    let dir' = sfs_read_block dir dir_bid fs in
    let rest = ls_loop k (num_files + count_inodes 97 0 dir') (next_dir dir') dir' fs in
    if dir_bid == 0 then done num_files fs else rest

-- `sfs_ls`, without what it prints. It starts from the superblock in memory.
unfoldable pub sfs_ls : ℕ → Bytes → Cmd Sfs ℕ
sfs_ls k dir fs = ls_loop k 0 (sb_first_dir fs.sb) dir fs

-- An `int` that is assigned or added to a `u32`.
abbrev pub to_u32 : ℤ → ℕ
to_u32 (pos n) = n % u32_end
to_u32 (negsuc n) = u32_end - 1 - n % u32_end

abbrev pub sfs_seek_set : ℕ
sfs_seek_set = 0

abbrev pub sfs_seek_cur : ℕ
sfs_seek_cur = 1

abbrev pub sfs_seek_end : ℕ
sfs_seek_end = 2

abbrev pub set_cur : ℕ → ℕ → Sfs → Sfs
set_cur fd cur fs = set_fd fd (record (fs.fdtable fd) { cur = cur }) fs

-- `sfs_seek`
unfoldable pub sfs_seek : ℕ → ℤ → ℕ → Cmd Sfs ℕ
sfs_seek fd relative loc fs =
    if leb sfs_max_opened_files fd
    then fault
    else if loc == sfs_seek_set
    then done 0 (set_cur fd (to_u32 relative) fs)
    else if loc == sfs_seek_cur || loc == sfs_seek_end
    then done 0 (set_cur fd (((fs.fdtable fd).cur + to_u32 relative) % u32_end) fs)
    else done 1 fs

-- `sfs_eof`
unfoldable pub sfs_eof : ℕ → Cmd Sfs ℕ
sfs_eof fd fs =
    if leb sfs_max_opened_files fd
    then fault
    else if ltb (inode_size (fs.fdtable fd).inode) (fs.fdtable fd).cur
    then done 1 fs
    else done 0 fs
