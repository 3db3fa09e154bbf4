-- ===== src/Fs/Storage.antt =====
-- Old/OS/pa2/exta1.c: the blocks of the file system on the cached disk of pa1, in place of the plain
-- file of ext.c.
pub mod Swap
pub mod Plain
pub mod Tests
use class_projects.Base.{ℕ, true, Bool}
use class_projects.Base.Bytes.{Bytes}
use class_projects.Base.Run.{Cmd, done, and_then}
use class_projects.Disk.{Disk, mydisk_init, mydisk_read_block, mydisk_write_block}

-- `sfs_read_block` of exta1.c: the buffer afterwards. The status is ignored.
unfoldable pub disk_read_block : Bytes → ℕ → Cmd Disk Bytes
disk_read_block buf bid d = and_then (mydisk_read_block bid buf d) (λ (_, buf') d'. done buf' d')

-- `sfs_write_block(buf + p, bid)` of exta1.c.
unfoldable pub disk_write_block : Bytes → ℕ → ℕ → Cmd Disk (Unit {0})
disk_write_block buf p bid d = and_then (mydisk_write_block bid buf p d) (λ _ d'. done tt d')

-- `sfs_init_storage` of exta1.c, where the file can be opened or not: an HDD of 1024 blocks.
unfoldable pub disk_init_storage : Bool → Cmd Disk (Unit {0})
disk_init_storage opens d = and_then (mydisk_init opens 1024 0 d) (λ _ d'. done tt d')
