-- ===== src/Fs/Storage/Tests.antt =====
-- Runs over the storage of pa2/exta1.c, with a cache of three blocks and without one.
use class_projects.Base.{ℕ, ◌+◌, ◌%◌, ◌≡◌, refl, false, none, [], arith}
use class_projects.Base.Bytes.{Bytes, File}
use class_projects.Base.Run.{Returns}
use class_projects.Disk.{Disk, init_cache}
use class_projects.Disk.Close.{init_cache-IsValid}
use class_projects.Fs.{Sfs}
use class_projects.Fs.Storage.Plain.{IsPlain, mkfs_blocks, mkfs_blocks-IsWithin, on_disk-IsPlain}
use class_projects.Fs.Storage.Swap.{
  Program, finish, read_then, write_then, on_file, on_disk, IsWithin, Agrees, on_disk-on_file,
}

abbrev zeros : Bytes
zeros = λ _. 0

abbrev eight_blocks : File
eight_blocks = record { size = 4096; byte = λ a. a % 251 }

abbrev storage_fs : Sfs
storage_fs = record {
  fh = eight_blocks;
  sb = zeros;
  freemap = zeros;
  freemap_words = 128;
  fdtable = λ _. record { inode = zeros; inode_bid = 0; dir_bid = 0; cur = 0; valid = 0 };
}

abbrev uncached : Disk
uncached = record {
  file = eight_blocks;
  max_blocks = 8;
  disk_type = 0;
  cache_enabled = false;
  cache_blocks = 0;
  ring_buffer = λ _. record { block_id = none; is_dirty = false; content = zeros };
  ring_length = 0;
  cache_size = 0;
  next_insert_pos = 0;
  reports = [];
}

-- Block 1 is copied to block 2 from its fourth byte on, and its ninth byte there is the result.
abbrev copying : Program ℕ
copying =
    read_then 1 (λ buf. write_then 2 (λ i. buf (i + 3)) 1 (read_then 2 (λ own. finish (own 8))))

copying-IsWithin : IsWithin 8 copying
unfolding IsWithin
copying-IsWithin = (omega arith, (λ buf. (omega arith, (omega arith, (λ own. tt)))))

uncached-Agrees : Agrees 8 storage_fs (init_cache 3 (λ _. zeros) uncached)
unfolding init_cache
uncached-Agrees =
    let (valid, shows) = init_cache-IsValid 3 (λ _. zeros) uncached (omega arith) (omega arith) in
    record { valid = valid; blocks = refl; whole = omega arith; same = λ b o h h'. shows b o }

on_disk-on_file_example :
    Returns
      (λ a d'. (a ≡ (on_file copying storage_fs).0) × Agrees 8 (on_file copying storage_fs).1 d')
      (on_disk copying (init_cache 3 (λ _. zeros) uncached))
on_disk-on_file_example =
    on_disk-on_file copying 8 storage_fs (init_cache 3 (λ _. zeros) uncached) (omega arith)
      copying-IsWithin uncached-Agrees

-- A new file system on the disk that `sfs_init_storage` leaves: the two storages before.
abbrev zeros_1024 : File
zeros_1024 = record { size = 524288; byte = λ _. 0 }

abbrev new_fs : Sfs
new_fs = record storage_fs { fh = zeros_1024 }

abbrev new_disk : Disk
new_disk = record uncached { file = zeros_1024; max_blocks = 1024 }

on_disk-IsPlain_example :
    Returns
      (λ a d'.
        (a ≡ (on_file (mkfs_blocks zeros) new_fs).0)
        × IsPlain 1024 (on_file (mkfs_blocks zeros) new_fs).1 d')
      (on_disk (mkfs_blocks zeros) new_disk)
on_disk-IsPlain_example =
    on_disk-IsPlain (mkfs_blocks zeros) 1024 new_fs new_disk (omega arith)
      (mkfs_blocks-IsWithin zeros) (record { plain = refl; blocks = refl; same = refl })
