-- ===== src/Disk/Stream.antt =====
-- `mydisk_read` and `mydisk_write`: the disk as a flat sequence of bytes, with the latency report.
pub mod ReadBytes
pub mod WriteBytes
use class_projects.Base.{
  ℕ, zero, suc, ◌+◌, ◌-◌, ◌*◌, ◌/◌, ◌%◌, Bool, true, false, List, [], ◌∷◌, ltb, leb, ◌==◌,
  if◌then◌else◌,
}
use class_projects.Base.Int.{ℤ, pos, negsuc, int_end}
use class_projects.Base.Run.{Run, Cmd, done, fault, no_fuel, pure, undefined, and_then}
use class_projects.Base.Bytes.{Bytes, copy}
use class_projects.Disk.{
  Disk, Status, hit, ok, invalid, block_size, mydisk_read_block, mydisk_write_block,
}

-- The check of the parameters: true where the code goes on. A sum or a product past the largest
-- `int` is undefined.
abbrev pub check_range : ℤ → ℤ → ℕ → Cmd Disk Bool
check_range (negsuc _) nbytes max = pure false
check_range (pos start) (negsuc _) max = pure false
check_range (pos start) (pos nbytes) max =
    if leb int_end (start + nbytes)
    then undefined
    else if leb int_end (max * block_size)
    then undefined
    else pure (ltb (start + nbytes) (max * block_size))

-- How many bytes of the current block are wanted.
abbrev pub chunk : ℕ → ℕ → ℕ
chunk remaining offset =
    if leb block_size (remaining + offset) then block_size - offset else remaining

abbrev pub count_hit : Status → ℕ → ℕ
count_hit hit n = n + 1
count_hit s n = n

abbrev pub count_miss : Status → ℕ → ℕ
count_miss hit n = n
count_miss s n = n + 1

-- The local variables of `mydisk_read`.
pub record Reading : Type 0 where
  pub block_id : ℕ
  pub remaining : ℕ
  pub offset : ℕ
  pub bytes_completed : ℕ
  pub cache_hit : ℕ
  pub cache_miss : ℕ
  pub buffer : Bytes
  pub temp_buffer : Bytes

-- The end of a round, after the block was read.
abbrev pub read_advance : Reading → Status × Bytes → Reading
read_advance l (s, temp) =
    let amount = chunk l.remaining l.offset in
    record {
      block_id = l.block_id + 1;
      remaining = l.remaining - amount;
      offset = 0;
      bytes_completed = l.bytes_completed + amount;
      cache_hit = count_hit s l.cache_hit;
      cache_miss = count_miss s l.cache_miss;
      buffer = copy amount l.buffer l.bytes_completed temp l.offset;
      temp_buffer = temp;
    }

unfoldable pub read_loop : ℕ → Reading → Cmd Disk Reading
read_loop zero l d = no_fuel
read_loop (suc k) l d =
    if l.remaining == 0
    then done l d
    else and_then (mydisk_read_block l.block_id l.temp_buffer d)
        (λ r d'. read_loop k (read_advance l r) d')

-- Latencies of `mydisk.h`; the miss costs what a transfer from the device costs.
abbrev pub memory_latency : ℕ
memory_latency = 1

abbrev pub hdd_seek : ℕ
hdd_seek = 10

abbrev pub transfer_latency : ℕ → ℕ
transfer_latency disk_type = if disk_type == 0 then 2 else 1

unfoldable pub latency : ℕ → ℕ → ℕ → ℕ
latency disk_type hits misses =
    if disk_type == 0
    then if misses == 0
      then hits * memory_latency
      else hits * memory_latency + hdd_seek + misses * transfer_latency disk_type
    else hits * memory_latency + misses * transfer_latency disk_type

-- `report_latency` is given by the program that links the disk; its arguments are kept.
abbrev pub report_latency : ℕ → Disk → Disk
report_latency n d = record d { reports = n ∷ d.reports }

-- `mydisk_read(start, nbytes, buffer)`: the status, and the buffer afterwards. `junk` is what
-- `malloc` leaves in the temporary buffer. A round takes at least one byte.
pub mydisk_read : Bytes → ℤ → ℤ → Bytes → Cmd Disk (Status × Bytes)
mydisk_read junk (pos start) (pos nbytes) buffer d =
    and_then (check_range (pos start) (pos nbytes) d.max_blocks d) (λ good d1.
      if good
      then and_then
          (read_loop (suc nbytes)
            (record {
              block_id = start / block_size;
              remaining = nbytes;
              offset = start % block_size;
              bytes_completed = 0;
              cache_hit = 0;
              cache_miss = 0;
              buffer = buffer;
              temp_buffer = junk;
            })
            d1)
          (λ l d2.
            done (ok, l.buffer) (report_latency (latency d2.disk_type l.cache_hit l.cache_miss) d2))
      else done (invalid, buffer) d1)
mydisk_read junk start nbytes buffer d =
    and_then (check_range start nbytes d.max_blocks d) (λ _ d1. done (invalid, buffer) d1)

-- The local variables of `mydisk_write` that its loop changes.
pub record Writing : Type 0 where
  pub block_id : ℕ
  pub remaining : ℕ
  pub offset : ℕ
  pub bytes_completed : ℕ
  pub read_hit : ℕ
  pub read_miss : ℕ
  pub write_hit : ℕ
  pub write_miss : ℕ
  pub temp_buffer : Bytes

abbrev pub write_advance : Writing → Status → Writing
write_advance l s =
    let amount = chunk l.remaining l.offset in
    record l {
      block_id = l.block_id + 1;
      remaining = l.remaining - amount;
      offset = 0;
      bytes_completed = l.bytes_completed + amount;
      write_hit = count_hit s l.write_hit;
      write_miss = count_miss s l.write_miss;
    }

-- A partial block is read, patched in the temporary buffer and written.
abbrev pub after_read : Writing → Bytes → Status × Bytes → Writing
after_read l buffer (s, temp) = record l {
  read_hit = count_hit s l.read_hit;
  read_miss = count_miss s l.read_miss;
  temp_buffer = copy (chunk l.remaining l.offset) temp l.offset buffer l.bytes_completed;
}

unfoldable pub write_step : Bytes → Writing → Cmd Disk Writing
write_step buffer l d =
    if chunk l.remaining l.offset == block_size
    then and_then (mydisk_write_block l.block_id buffer l.bytes_completed d)
        (λ s d'. done (write_advance l s) d')
    else and_then (mydisk_read_block l.block_id l.temp_buffer d) (λ r d1.
      let l' = after_read l buffer r in
      and_then (mydisk_write_block l.block_id l'.temp_buffer 0 d1)
        (λ s d2. done (write_advance l' s) d2))

unfoldable pub write_loop : ℕ → Bytes → Writing → Cmd Disk Writing
write_loop zero buffer l d = no_fuel
write_loop (suc k) buffer l d =
    if l.remaining == 0
    then done l d
    else and_then (write_step buffer l d) (λ l' d'. write_loop k buffer l' d')

-- `mydisk_write(start, nbytes, buffer)`.
pub mydisk_write : Bytes → ℤ → ℤ → Bytes → Cmd Disk Status
mydisk_write junk (pos start) (pos nbytes) buffer d =
    and_then (check_range (pos start) (pos nbytes) d.max_blocks d) (λ good d1.
      if good
      then and_then
          (write_loop (suc nbytes) buffer
            (record {
              block_id = start / block_size;
              remaining = nbytes;
              offset = start % block_size;
              bytes_completed = 0;
              read_hit = 0;
              read_miss = 0;
              write_hit = 0;
              write_miss = 0;
              temp_buffer = junk;
            })
            d1)
          (λ l d2. done ok (
            report_latency
              (latency d2.disk_type l.read_hit l.read_miss
                + latency d2.disk_type l.write_hit l.write_miss)
              d2))
      else done invalid d1)
mydisk_write junk start nbytes buffer d =
    and_then (check_range start nbytes d.max_blocks d) (λ _ d1. done invalid d1)
