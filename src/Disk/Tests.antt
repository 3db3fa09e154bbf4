-- ===== src/Disk/Tests.antt =====
-- Runs of mydisk.c and caching.c on a disk of four blocks with a cache of three entries.
use class_projects.Base.{
  ℕ, List, ◌∷◌, ◌%◌, ◌<◌, ◌≡◌, refl, true, false, none, some, [], arith, if◌then◌else◌, inl, ◌==◌,
}
use class_projects.Base.Run.{fault, and_then, Returns}
use class_projects.Base.Int.{pos}
use class_projects.Base.Bytes.{Bytes}
use class_projects.Disk.{
  Entry, Disk, hit, ok, invalid, block_size, create_cached_block, mydisk_read_block,
  mydisk_write_block, mydisk_init, init_cache, close_cache,
}
use class_projects.Disk.Trace.{
  Call, read, write, restart, run_calls, flat_calls, Allowed, Shows, run_calls-flat_calls,
}
use class_projects.Disk.Init.{mydisk_init-zeros}
use class_projects.Disk.Inv.{IsCached, IsValid, in_file, view}
use class_projects.Disk.Read.{ReadsBlock, mydisk_read_block-view}
use class_projects.Disk.Write.{WritesBlock, mydisk_write_block-view}
use class_projects.Disk.Close.{close_cache-flushes}
use class_projects.Disk.Bounds.{one_entry-fault, read_twice, past_end-cached}
use class_projects.Disk.Stream.{mydisk_read, mydisk_write}
use class_projects.Disk.Stream.ReadBytes.{byte_at, ReadsBytes, mydisk_read-bytes}
use class_projects.Disk.Stream.WriteBytes.{WritesBytes, mydisk_write-bytes}

abbrev zeros : Bytes
zeros = λ _. 0

abbrev sevens : Bytes
sevens = λ _. 7

abbrev empty_entry : Entry
empty_entry = record { block_id = none; is_dirty = false; content = zeros }

-- Block 2, written but not flushed.
abbrev dirty_entry : Entry
dirty_entry = record { block_id = some 2; is_dirty = true; content = sevens }

abbrev plain_disk : Disk
plain_disk = record {
  file = record { size = 2048; byte = λ a. a % 256 };
  max_blocks = 4;
  disk_type = 0;
  cache_enabled = false;
  cache_blocks = 0;
  ring_buffer = λ _. empty_entry;
  ring_length = 0;
  cache_size = 0;
  next_insert_pos = 0;
  reports = [];
}

abbrev cached_disk : Disk
cached_disk = record plain_disk {
  cache_enabled = true;
  cache_blocks = 3;
  ring_buffer = λ i. if i == 0 then dirty_entry else empty_entry;
  ring_length = 3;
  cache_size = 1;
  next_insert_pos = 1;
}

cached_disk-IsCached : IsCached cached_disk
cached_disk-IsCached = record {
  wide = omega arith;
  alloc = refl;
  pos_in = omega arith;
  size_in = omega arith;
  filling = inl refl;
  used = λ i h. (2, ground arith, omega arith);
  unused = λ i le lt. (ground arith, ground arith);
  distinct = λ i j b h h'. omega (arith, h.0, h'.0);
  clean = λ i b o h e lt ho. absurd (ground (arith, h.0, e));
}

cached_disk-IsValid : IsValid cached_disk
cached_disk-IsValid = record { whole = omega arith; cached = λ _. cached_disk-IsCached }

mydisk_write_block-view_example :
    Returns (WritesBlock 2 zeros 0 cached_disk) (mydisk_write_block 2 zeros 0 cached_disk)
mydisk_write_block-view_example =
    mydisk_write_block-view cached_disk 2 zeros 0 cached_disk-IsValid (omega arith)

mydisk_read_block-view_example :
    Returns (ReadsBlock 3 cached_disk) (mydisk_read_block 3 zeros cached_disk)
mydisk_read_block-view_example =
    mydisk_read_block-view cached_disk 3 zeros cached_disk-IsValid (omega arith)

close_cache-flushes_example :
    Returns
      (λ _ d'.
        ((b o : ℕ) → b < 4 → o < block_size → in_file d' b o ≡ view cached_disk b o)
        × ((b o : ℕ) → b < 4 → o < block_size → view d' b o ≡ view cached_disk b o)
        × (d'.cache_enabled ≡ false)
        × (d'.cache_size ≡ 0)
        × (d'.max_blocks ≡ 4)
        × IsValid d')
      (close_cache cached_disk)
close_cache-flushes_example =
    close_cache-flushes cached_disk cached_disk-IsCached refl cached_disk-IsValid

-- From the middle of block 1 to the middle of block 3, across the cached block.
mydisk_read-bytes_example :
    Returns
      (ReadsBytes 700 1000 zeros cached_disk)
      (mydisk_read sevens (pos 700) (pos 1000) zeros cached_disk)
mydisk_read-bytes_example =
    mydisk_read-bytes sevens 700 1000 zeros cached_disk cached_disk-IsValid (omega arith)
      (omega arith)

mydisk_write-bytes_example :
    Returns
      (WritesBytes 700 1000 zeros cached_disk)
      (mydisk_write sevens (pos 700) (pos 1000) zeros cached_disk)
mydisk_write-bytes_example =
    mydisk_write-bytes sevens 700 1000 zeros cached_disk cached_disk-IsValid (omega arith)
      (omega arith)

-- The last byte of the disk cannot be read.
one_entry-fault_example :
    and_then
      (create_cached_block 0 (init_cache 1 (λ _. zeros) plain_disk))
      (λ _ d1. create_cached_block 1 d1)
    ≡ fault
one_entry-fault_example = one_entry-fault (λ _. zeros) plain_disk 0 1 refl

past_end-cached_example :
    Returns
      (λ (s, s', b) _. (s ≡ invalid) × (s' ≡ hit) × ((o : ℕ) → o < block_size → b o ≡ 0))
      (read_twice 4 sevens sevens (init_cache 3 (λ _. zeros) plain_disk))
past_end-cached_example = past_end-cached (λ _. zeros) 3 plain_disk sevens sevens (omega arith) refl

mydisk_init-zeros_example :
    Returns
      (λ s d'.
        (s ≡ ok)
        × IsValid d'
        × (d'.max_blocks ≡ 2)
        × (d'.file.size ≡ 1024)
        × ((b o : ℕ) → b < 2 → o < block_size → view d' b o ≡ 0))
      (mydisk_init true 2 0 plain_disk)
mydisk_init-zeros_example = mydisk_init-zeros 2 0 plain_disk refl (omega arith)

-- A write across the cached block, the cache opened again with two entries, and a read of all of it.
abbrev calls : List Call
calls = write zeros 700 1000 sevens ∷ restart 2 (λ _. zeros) ∷ read zeros 600 1200 zeros ∷ []

run_calls-flat_calls_example :
    Returns
      (λ bufs d'.
        (bufs ≡ (flat_calls calls (byte_at cached_disk)).0)
        × Shows 2048 (flat_calls calls (byte_at cached_disk)).1 d')
      (run_calls calls cached_disk)
unfolding Allowed
run_calls-flat_calls_example =
    run_calls-flat_calls calls 2048 (byte_at cached_disk) cached_disk (omega arith)
      (omega arith, (omega arith, (omega arith, tt)))
      (record { valid = cached_disk-IsValid; cached = refl; size_is = refl; bytes = λ a h. refl })
