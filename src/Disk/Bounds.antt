-- ===== src/Disk/Bounds.antt =====
-- Two limits of the cache of mydisk.c and caching.c.
use class_projects.Base.{ℕ, ◌*◌, ◌≤◌, ◌<◌, ◌≡◌, refl, false, arith, ◌==◌}
use class_projects.Base.Run.{Cmd, done, fault, and_then, Returns, returns}
use class_projects.Base.Bytes.{Bytes, copy, available, file_read}
use class_projects.Disk.{
  Disk, Status, hit, invalid, block_size, find_from, find_cached_entry, write_back, claim,
  create_cached_block, mydisk_read_block, init_cache,
}

-- A cache of one entry: the first miss moves the insert position past the ring, and the next miss
-- writes out of bounds, for any two different blocks.
pub one_entry-fault :
    (junk : ℕ → Bytes) (d : Disk) (b b' : ℕ)
    → (b == b') ≡ false
    → and_then (create_cached_block b (init_cache 1 junk d)) (λ _ d1. create_cached_block b' d1)
      ≡ fault
unfolding create_cached_block init_cache find_cached_entry find_from write_back
one_entry-fault junk d b b' ne = ground arith

-- Two reads of one block, and the second buffer.
abbrev pub read_twice : ℕ → Bytes → Bytes → Cmd Disk (Status × Status × Bytes)
read_twice b buf buf' d =
    and_then (mydisk_read_block b buf d)
      (λ r d1. and_then (mydisk_read_block b buf' d1) (λ r' d2. done (r.0, r'.0, r'.1) d2))

module _ (junk : ℕ → Bytes) (n : ℕ) (d : Disk) (wide : 2 ≤ n) where
  abbrev fresh : Disk
  fresh = init_cache n junk d

  abbrev after : Disk
  after = claim d.max_blocks (fresh.ring_buffer 0) fresh

  first_read :
      (buf : Bytes)
      → d.file.size ≡ d.max_blocks * block_size
      → mydisk_read_block d.max_blocks buf fresh
        ≡ done (invalid, file_read d.file (d.max_blocks * block_size) block_size buf) after
  unfolding mydisk_read_block create_cached_block init_cache find_cached_entry find_from write_back
  first_read buf size =
      let short : available d.file (d.max_blocks * block_size) block_size ≡ 0 = omega arith in
      ground arith

  second_read :
      (buf : Bytes)
      → mydisk_read_block d.max_blocks buf after
        ≡ done (hit, copy block_size buf 0 (after.ring_buffer 0).content 0) after
  unfolding mydisk_read_block init_cache find_cached_entry find_from
  second_read buf = ground arith

-- Block `max_blocks` passes the check of `mydisk_read_block`, though it lies past the file: with a new
-- cache of two or more entries the read fails with 1, but leaves an entry of zeros behind, and the
-- next read of that block succeeds as a hit and gives 512 zeros.
pub past_end-cached :
    (junk : ℕ → Bytes) (n : ℕ) (d : Disk) (buf buf' : Bytes)
    → 2 ≤ n
    → d.file.size ≡ d.max_blocks * block_size
    → Returns
        (λ (s, s', b) _. (s ≡ invalid) × (s' ≡ hit) × ((o : ℕ) → o < block_size → b o ≡ 0))
        (read_twice d.max_blocks buf buf' (init_cache n junk d))
unfolding init_cache
past_end-cached junk n d buf buf' wide size =
    rw (first_read junk n d wide buf size, second_read junk n d wide buf')
      (returns (refl, refl, λ o h. ground arith))
