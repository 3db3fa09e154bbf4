-- ===== src/Fs/Content.antt =====
-- The content of files in fs.c: `sfs_resize_file`, `sfs_get_file_content`, `sfs_write` and `sfs_read`.
pub mod Limits
pub mod Past
pub mod Blocks
pub mod Span
pub mod Rounds
pub mod Flat
pub mod Kept
pub mod Fills
pub mod Grown
pub mod Fresh
pub mod New
mod Tests
use class_projects.Base.{
  ℕ, zero, suc, ◌+◌, ◌-◌, ◌*◌, ◌/◌, ◌%◌, Bool, true, false, ltb, leb, ◌==◌, ◌&&◌, if◌then◌else◌,
}
use class_projects.Base.Bytes.{Bytes, copy}
use class_projects.Base.Int.{int_end}
use class_projects.Base.Run.{Cmd, done, fault, no_fuel, and_then}
use class_projects.Fs.Word.{u32_end, get_u32, put_u32}
use class_projects.Fs.{
  Sfs, sfs_block_size, sfs_max_opened_files, sfs_read_block, sfs_write_block, sfs_alloc_block,
}
use class_projects.Fs.Files.{inode_size, first_frame, set_fd, set_cur}

abbrev pub sfs_frame_count : ℕ
sfs_frame_count = 127

-- The members of `sfs_inode_frame_t`.
abbrev pub frame_next : Bytes → ℕ
frame_next frame = get_u32 frame 0

abbrev pub frame_content : Bytes → ℕ → ℕ
frame_content frame k = get_u32 frame (4 + 4 * k)

-- The length of the content of a full frame.
abbrev pub frame_size : ℕ
frame_size = 65024

-- `new_nframe`, in `u32` arithmetic.
abbrev pub frames_for : ℕ → ℕ
frames_for new_size = (new_size + frame_size - 1) % u32_end / frame_size

-- `new_nframe - old_nframe`, or 0 when it is below. `old_size` is an int: the size of the inode less
-- 2 ^ 32 when it is not below 2 ^ 31, and then `old_nframe` is 0 or negative.
unfoldable pub missing_frames : ℕ → ℕ → ℕ
missing_frames size new_size =
    if ltb size int_end
    then frames_for new_size - (size + frame_size - 1) / frame_size
    else frames_for new_size + (u32_end - (frame_size - 1) - size) / frame_size

-- `old_size + frame_size - 1` overflows an int.
abbrev pub frames_overflow : ℕ → Bool
frames_overflow size = ltb size int_end && leb int_end (size + frame_size - 1)

-- `new_frame_bids`, filled from place `i` on.
unfoldable pub alloc_frames : ℕ → ℕ → (ℕ → ℕ) → Cmd Sfs (ℕ → ℕ)
alloc_frames zero i bids fs = done bids fs
alloc_frames (suc n) i bids fs =
    and_then (sfs_alloc_block fs)
      (λ bid fs1. alloc_frames n (i + 1) (λ j. if j == i then bid else bids j) fs1)

-- The content blocks of a new frame, from place `k` on.
unfoldable pub fill_frame : ℕ → ℕ → Bytes → Cmd Sfs Bytes
fill_frame zero k frame fs = done frame fs
fill_frame (suc n) k frame fs =
    and_then (sfs_alloc_block fs)
      (λ bid fs1. fill_frame n (k + 1) (put_u32 (4 + 4 * k) bid frame) fs1)

-- The walk to the last frame: its block and the buffer.
unfoldable pub last_frame : ℕ → ℕ → Bytes → Cmd Sfs (ℕ × Bytes)
last_frame zero frame_bid frame fs = no_fuel
last_frame (suc k) frame_bid frame fs =
    let frame' = sfs_read_block frame frame_bid fs in
    let rest = last_frame k (frame_next frame') frame' fs in
    if frame_next frame' == 0 then done (frame_bid, frame') fs else rest

-- The `n` new frames that are left, from place `j` of `new_frame_bids` on, behind the frame in
-- `frame_bid`.
unfoldable pub link_frames : ℕ → ℕ → (ℕ → ℕ) → ℕ → Bytes → Cmd Sfs (Unit {0})
link_frames zero j bids frame_bid frame fs = done tt fs
link_frames (suc n) j bids frame_bid frame fs =
    let linked = put_u32 0 (bids j) frame in
    let fs1 = sfs_write_block linked 0 frame_bid fs in
    and_then (fill_frame sfs_frame_count 0 (put_u32 0 0 linked) fs1) (λ frame' fs2.
      link_frames n (j + 1) bids (bids j) frame' (sfs_write_block frame' 0 (bids j) fs2))

-- The inode grows by whole frames, and is written.
abbrev pub grow_inode : ℕ → ℕ → Sfs → Sfs
grow_inode fd n fs =
    let e = fs.fdtable fd in
    let inode' = put_u32 0 ((inode_size e.inode + frame_size * n) % u32_end) e.inode in
    sfs_write_block inode' 0 e.inode_bid (set_fd fd (record e { inode = inode' }) fs)

-- The first frame of a file without any.
abbrev pub set_first_frame : ℕ → ℕ → Sfs → Sfs
set_first_frame fd bid fs =
    let e = fs.fdtable fd in set_fd fd (record e { inode = put_u32 4 bid e.inode }) fs

-- `sfs_resize_file`; `k` bounds the frames, and `frame` is the block on the stack.
unfoldable pub sfs_resize_file : ℕ → Bytes → ℕ → ℕ → Cmd Sfs (Unit {0})
sfs_resize_file k frame fd new_size fs =
    let size = inode_size (fs.fdtable fd).inode in
    let n = missing_frames size new_size in
    if frames_overflow size
    then fault
    else if n == 0
    then done tt fs
    else and_then (alloc_frames n 0 (λ _. 0) fs) (λ bids fs1.
      let first = first_frame (fs1.fdtable fd).inode in
      if first == 0
      then and_then (fill_frame sfs_frame_count 0 frame (set_first_frame fd (bids 0) fs1))
          (λ filled fs2.
            let frame' = put_u32 0 0 filled in
            and_then
              (link_frames (n - 1) 1 bids (bids 0) frame' (sfs_write_block frame' 0 (bids 0) fs2))
              (λ _ fs3. done tt (grow_inode fd n fs3)))
      else and_then (last_frame k first frame fs1) (λ last fs2.
        and_then (link_frames n 0 bids last.0 last.1 fs2) (λ _ fs3. done tt (grow_inode fd n fs3))))

-- The buffer behind a step to block `i` of the file: the next frame when `i` lies in another one.
abbrev pub next_frame : ℕ → ℕ → Bytes → Sfs → Bytes
next_frame i frame_number frame fs =
    if ltb frame_number (i / sfs_frame_count)
    then sfs_read_block frame (frame_next frame) fs
    else frame

abbrev pub next_number : ℕ → ℕ → ℕ
next_number i frame_number =
    if ltb frame_number (i / sfs_frame_count) then frame_number + 1 else frame_number

-- The loop of `sfs_get_file_content`: `n` blocks of the file are left, from `i` on. `room` is the length
-- of the array `bids`.
unfoldable pub content_loop : ℕ → ℕ → ℕ → ℕ → ℕ → ℕ → Bytes → (ℕ → ℕ) → Cmd Sfs (ℕ → ℕ)
content_loop zero room start i j number frame bids fs = done bids fs
content_loop (suc n) room start i j number frame bids fs =
    let frame' = next_frame (i + 1) number frame fs in
    let number' = next_number (i + 1) number in
    let bids' : ℕ → ℕ = λ x. if x == j then frame_content frame (i % sfs_frame_count) else bids x in
    let skip = content_loop n room start (i + 1) j number' frame' bids fs in
    let rest = content_loop n room start (i + 1) (j + 1) number' frame' bids' fs in
    if ltb i start then skip else if leb room j then fault else rest

-- `sfs_get_file_content`: the array afterwards. `junk` is what `malloc` leaves in it.
unfoldable pub sfs_get_file_content : Bytes → ℕ → (ℕ → ℕ) → ℕ → ℕ → ℕ → Cmd Sfs (ℕ → ℕ)
sfs_get_file_content frame room junk fd cur len fs =
    let start = cur / sfs_block_size in
    let end = (cur + len) % u32_end / sfs_block_size in
    content_loop (end + 1) room start 0 0 0
      (sfs_read_block frame (first_frame (fs.fdtable fd).inode) fs) junk fs

-- How many bytes of the current block are wanted.
abbrev pub to_copy : ℕ → ℕ → ℕ
to_copy remaining offset =
    if leb sfs_block_size (remaining + offset) then sfs_block_size - offset else remaining

-- The loop of `sfs_write`, with the cursor as its result.
unfoldable pub sfs_write_loop : ℕ → (ℕ → ℕ) → ℕ → Bytes → ℕ → ℕ → ℕ → ℕ → Bytes → Cmd Sfs ℕ
sfs_write_loop zero bids room buf completed remaining offset cur tmp fs = no_fuel
sfs_write_loop (suc k) bids room buf completed remaining offset cur tmp fs =
    let n = to_copy remaining offset in
    let bid = bids (cur / sfs_block_size) in
    let tmp' = copy n (sfs_read_block tmp bid fs) offset buf completed in
    let full =
      sfs_write_loop k bids room buf (completed + n) (remaining - n) 0 (cur + n) tmp
        (sfs_write_block buf completed bid fs) in
    let part =
      sfs_write_loop k bids room buf (completed + n) (remaining - n) 0 (cur + n) tmp'
        (sfs_write_block tmp' 0 bid fs) in
    if remaining == 0
    then done cur fs
    else if leb room (cur / sfs_block_size)
    then fault
    else if n == sfs_block_size
    then full
    else part

-- `sfs_write(fd, buf, len)`: the number of bytes written. `frame` and `tmp` are on the stack.
unfoldable pub sfs_write : ℕ → Bytes → Bytes → (ℕ → ℕ) → ℕ → Bytes → ℕ → Cmd Sfs ℕ
sfs_write k frame tmp junk fd buf len fs =
    let cur = (fs.fdtable fd).cur in
    let resized =
      if ltb (inode_size (fs.fdtable fd).inode) ((cur + len) % u32_end)
      then sfs_resize_file k frame fd ((cur + len) % u32_end) fs
      else done tt fs in
    if leb sfs_max_opened_files fd
    then fault
    else and_then resized (λ _ fs1.
      let room = inode_size (fs1.fdtable fd).inode / sfs_block_size in
      and_then (sfs_get_file_content frame room junk fd cur len fs1) (λ bids fs2.
        and_then (sfs_write_loop (len + 1) bids room buf 0 len (cur % sfs_block_size) cur tmp fs2)
          (λ cur' fs3. done len (set_cur fd cur' fs3))))

-- The loop of `sfs_read`: the cursor and the buffer afterwards.
unfoldable pub sfs_read_loop : ℕ → (ℕ → ℕ) → ℕ → Bytes → ℕ → ℕ → ℕ → ℕ → Bytes → Cmd Sfs (ℕ × Bytes)
sfs_read_loop zero bids room buf completed remaining offset cur tmp fs = no_fuel
sfs_read_loop (suc k) bids room buf completed remaining offset cur tmp fs =
    let n = to_copy remaining offset in
    let tmp' = sfs_read_block tmp (bids (cur / sfs_block_size)) fs in
    let rest =
      sfs_read_loop k bids room (copy n buf completed tmp' offset) (completed + n) (remaining - n) 0
        (cur + n) tmp' fs in
    if remaining == 0
    then done (cur, buf) fs
    else if leb room (cur / sfs_block_size)
    then fault
    else rest

-- The length of a read: cut off where it passes the size, by a test of `cur + len - 1` in `u32`, which
-- wraps at 0.
abbrev pub read_length : ℕ → ℕ → ℕ → ℕ
read_length size cur len =
    if ltb size ((cur + len + (u32_end - 1)) % u32_end) then size - cur else len

-- `sfs_read(fd, buf, len)`: the number of bytes read, and the buffer.
unfoldable pub sfs_read : Bytes → Bytes → (ℕ → ℕ) → ℕ → Bytes → ℕ → Cmd Sfs (ℕ × Bytes)
sfs_read frame tmp junk fd buf len fs =
    let e = fs.fdtable fd in
    let size = inode_size e.inode in
    let n = read_length size e.cur len in
    let room = size / sfs_block_size in
    if leb sfs_max_opened_files fd
    then fault
    else if ltb size e.cur
    then done (0, buf) fs
    else and_then (sfs_get_file_content frame room junk fd e.cur n fs) (λ bids fs1.
      and_then (sfs_read_loop (n + 1) bids room buf 0 n (e.cur % sfs_block_size) e.cur tmp fs1)
        (λ r fs2. done (n, r.1) (set_cur fd r.0 fs2)))
