-- ===== src/Disk.antt =====
-- Old/OS/pa1/mydisk.c and caching.c: a disk kept in one file, read and written by blocks of 512
-- bytes or by bytes, behind a write-back cache with a ring of entries. The globals of both files are
-- one record; a function that writes them is a command over it.
mod Find
mod Insert
mod Tests
pub mod Init
pub mod Trace
pub mod Read
pub mod Write
pub mod Close
pub mod Bounds
pub mod Stream
pub mod Inv
use class_projects.Base.{
  ℕ, zero, suc, ◌+◌, ◌-◌, ◌*◌, Bool, true, false, Option, none, some, List, [], ◌∷◌, ltb, leb, ◌==◌,
  if◌then◌else◌,
}
use class_projects.Base.Int.{int_end}
use class_projects.Base.Run.{Cmd, done, fault, pure, and_then, ◌>>=◌, ◌>>◌}
use class_projects.Base.Bytes.{
  Bytes, File, empty_file, copy, fill, available, file_read, file_write,
}

abbrev pub block_size : ℕ
block_size = 512

-- What the block operations return: -1, 0 and 1.
pub data Status : Type 0 where
  hit ok invalid : Status

-- `struct cache_entry`; `none` is the block id -1.
pub record Entry : Type 0 where
  pub block_id : Option ℕ
  pub is_dirty : Bool
  pub content : Bytes

-- `ring_length` is the number of entries that `ring_buffer` points at, and `reports` is what was
-- passed to `report_latency`, the last first. The disk type 0 is HDD.
pub record Disk : Type 0 where
  pub file : File
  pub max_blocks : ℕ
  pub disk_type : ℕ
  pub cache_enabled : Bool
  pub cache_blocks : ℕ
  pub ring_buffer : ℕ → Entry
  pub ring_length : ℕ
  pub cache_size : ℕ
  pub next_insert_pos : ℕ
  pub reports : List ℕ

-- `counter` runs to `num_to_write`, one zero byte written in each round.
zero_fill : ℕ → ℕ → File → File
zero_fill zero counter f = f
zero_fill (suc n) counter f = zero_fill n (counter + 1) (file_write f counter 1 (λ _. 0) 0)

-- `mydisk_init`. Whether `fopen` succeeds is an argument; "wb+" truncates the file. `BLOCK_SIZE *
-- nblocks` is an int, so that offsets of blocks are below 2 ^ 31 on every disk that is made here.
pub mydisk_init : Bool → ℕ → ℕ → Cmd Disk Status
mydisk_init false nblocks type d = done invalid d
mydisk_init true nblocks type d =
    if leb int_end (block_size * nblocks)
    then fault
    else done ok (record d {
      file = zero_fill (block_size * nblocks) 0 empty_file;
      max_blocks = nblocks;
      disk_type = type;
    })

abbrev pub same_id : Option ℕ → ℕ → Bool
same_id none b = false
same_id (some a) b = a == b

find_from : ℕ → ℕ → (ℕ → Entry) → ℕ → Option ℕ
find_from zero i ring b = none
find_from (suc n) i ring b =
    if same_id (ring i).block_id b then some i else find_from n (i + 1) ring b

-- The index of the entry that holds block `b`; `none` is the source's -1.
pub find_cached_entry : ℕ → Disk → Option ℕ
find_cached_entry b d = find_from d.cache_size 0 d.ring_buffer b

abbrev pub set_entry : ℕ → Entry → Disk → Disk
set_entry i e d = record d { ring_buffer = λ j. if j == i then e else d.ring_buffer j }

-- Entry -1 of the ring is out of bounds.
pub mark_dirty : ℕ → Cmd Disk (Unit {0})
mark_dirty b d = elim (find_cached_entry b d) [
  | none ↦ fault
  | some i ↦ done tt (set_entry i (record (d.ring_buffer i) { is_dirty = true }) d)
]

-- The last lines of `mydisk_write_block`: past the cache. The disk under the file does not fill up,
-- so `fwrite` writes the whole block.
abbrev pub write_file : ℕ → Bytes → ℕ → Cmd Disk Status
write_file b buf p d =
    done ok (record d { file = file_write d.file (b * block_size) block_size buf p })

-- `mydisk_write_block(b, buf + p)`. A block id is not negative.
unfoldable pub mydisk_write_block : ℕ → Bytes → ℕ → Cmd Disk Status
mydisk_write_block b buf p d =
    if ltb d.max_blocks b
    then done invalid d
    else if d.cache_enabled
    then elim (find_cached_entry b d) [
      | none ↦ write_file b buf p d
      | some i ↦
          let e = d.ring_buffer i in
          let e' : Entry = record e { content = copy block_size e.content 0 buf p } in
          (mark_dirty b >> pure hit) (set_entry i e' d)
    ]
    else write_file b buf p d

-- `fseek` fails at block -1, and nothing is written.
pub write_entry : Entry → Cmd Disk (Unit {0})
write_entry e = elim e.block_id [
  | none ↦ pure tt
  | some b ↦ (mydisk_write_block b e.content 0 >>= λ _. pure tt)
]

-- Before an entry is reused: if it is dirty it is written with the cache disabled.
pub write_back : Entry → Cmd Disk (Unit {0})
write_back e d =
    if e.is_dirty
    then and_then (write_entry e (record d { cache_enabled = false }))
        (λ _ d'. done tt (record d' { cache_enabled = true }))
    else done tt d

abbrev pub next_pos : ℕ → ℕ → ℕ
next_pos cache_blocks i = if i + 1 == cache_blocks - 1 then 0 else i + 1

-- The insert position gets an empty entry for `b`. `old` is the entry that was there.
abbrev pub claim : ℕ → Entry → Disk → Disk
claim b old d = record d {
  ring_buffer = λ j.
      if j == d.next_insert_pos
      then record { block_id = some b; is_dirty = false; content = fill block_size old.content 0 0 }
      else d.ring_buffer j;
  next_insert_pos = next_pos d.cache_blocks d.next_insert_pos;
  cache_size = elim old.block_id [ none ↦ d.cache_size + 1 | some _ ↦ d.cache_size ];
}

-- The position of the entry whose content the source returns.
pub create_cached_block : ℕ → Cmd Disk ℕ
create_cached_block b d = elim (find_cached_entry b d) [
  | some i ↦ done i d
  | none ↦
      if leb d.ring_length d.next_insert_pos
      then fault
      else let old = d.ring_buffer d.next_insert_pos in
        and_then (write_back old d) (λ _ d'. done d.next_insert_pos (claim b old d'))
]

-- Past the cache: the status and the buffer after `fread`.
abbrev pub read_file : ℕ → Bytes → Disk → Status × Bytes
read_file b buf d = (
  if available d.file (b * block_size) block_size == block_size then ok else invalid,
  file_read d.file (b * block_size) block_size buf,
)

abbrev pub set_content : ℕ → Bytes → Disk → Disk
set_content i src d =
    let e = d.ring_buffer i in
    set_entry i (record e { content = copy block_size e.content 0 src 0 }) d

-- What follows a miss: a whole block that was read is copied to the new entry.
abbrev pub fill_entry : ℕ → Status × Bytes → Cmd Disk (Status × Bytes)
fill_entry i (ok, buf) d = done (ok, buf) (set_content i buf d)
fill_entry i (s, buf) d = done (invalid, buf) d

-- `mydisk_read_block(b, buf)`: the status, and `buf` afterwards.
unfoldable pub mydisk_read_block : ℕ → Bytes → Cmd Disk (Status × Bytes)
mydisk_read_block b buf d =
    if ltb d.max_blocks b
    then done (invalid, buf) d
    else if d.cache_enabled
    then elim (find_cached_entry b d) [
      | none ↦ and_then (create_cached_block b d) (λ i d'. fill_entry i (read_file b buf d') d')
      | some i ↦ done (hit, copy block_size buf 0 (d.ring_buffer i).content 0) d
    ]
    else done (read_file b buf d) d

-- `malloc` gives entries with any content, `junk`.
unfoldable pub init_cache : ℕ → (ℕ → Bytes) → Disk → Disk
init_cache nblocks junk d = record d {
  cache_enabled = true;
  cache_blocks = nblocks;
  ring_buffer = λ i. record { block_id = none; is_dirty = false; content = junk i };
  ring_length = nblocks;
  cache_size = 0;
  next_insert_pos = 0;
}

-- The loop of `close_cache`, over the `n` entries from `i` on.
flush_from : ℕ → ℕ → Cmd Disk (Unit {0})
flush_from zero i d = done tt d
flush_from (suc n) i d =
    let e = d.ring_buffer i in
    and_then (if e.is_dirty then write_entry e d else done tt d) (λ _ d'. flush_from n (i + 1) d')

-- `close_cache`, which frees the ring.
pub close_cache : Cmd Disk (Unit {0})
close_cache d =
    and_then (flush_from d.cache_size 0 (record d { cache_enabled = false }))
      (λ _ d'. done tt (record d' { ring_length = 0; cache_size = 0; next_insert_pos = 0 }))
