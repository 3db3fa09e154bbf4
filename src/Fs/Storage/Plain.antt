-- ===== src/Fs/Storage/Plain.antt =====
-- Old/OS/pa2/exta1.c without a cache, which it does not switch on itself. The file system writes a block
-- behind the last one when it is made, and mydisk.c lets it pass.
use class_projects.Base.{ℕ, ◌+◌, ◌*◌, ◌<◌, ◌≡◌, refl, false, ltb, arith}
use class_projects.Base.Int.{int_end}
use class_projects.Base.Bytes.{Bytes}
use class_projects.Base.Run.{done, Returns, returns, mono}
use class_projects.Disk.{Disk, block_size, mydisk_read_block, mydisk_write_block}
use class_projects.Fs.Word.{put_u32}
use class_projects.Fs.{Sfs, sfs_magic, no_bytes, sfs_mkfs, sfs_at, sfs_read_block, sfs_write_block}
use class_projects.Fs.Storage.{disk_read_block, disk_write_block}
use class_projects.Fs.Storage.Swap.{
  Program, finish, read_then, write_then, on_file, on_disk, IsWithin, cut,
}

-- A disk without a cache over the file of `fs`.
pub record IsPlain (max_blocks : ℕ) (fs : Sfs) (d : Disk) : Type 0 where
  pub plain : d.cache_enabled ≡ false
  pub blocks : d.max_blocks ≡ max_blocks
  pub same : d.file ≡ fs.fh

module _ (max_blocks bid : ℕ) (fs : Sfs) (d : Disk) (small : max_blocks * block_size < int_end)
    (lt : bid < max_blocks + 1) (p : IsPlain max_blocks fs d) where
  inside : ltb d.max_blocks bid ≡ false
  inside = let blocks = p.blocks in ground arith

  no_wrap : sfs_at bid ≡ bid * block_size
  no_wrap = omega arith

  read_same : disk_read_block (λ _. 0) bid d ≡ done (sfs_read_block (λ _. 0) bid fs) d
  unfolding disk_read_block mydisk_read_block
  read_same = rw (inside, p.plain, p.same, no_wrap) refl

  write_same :
      (buf : Bytes) (at : ℕ)
      → disk_write_block buf at bid d
        ≡ done tt (record d { file = (sfs_write_block buf at bid fs).fh })
  unfolding disk_write_block mydisk_write_block
  write_same buf at = rw (inside, p.plain, p.same, no_wrap) refl

-- The disk has no cache, its blocks have less than 2 ^ 31 bytes, and it is on the same file as the plain
-- storage. Then any program that reads and writes blocks up to `max_blocks`, this one included, as
-- `sfs_mkfs` does, computes the same result with exta1.c as with ext.c, without a fault, and leaves the
-- two with the same file, its length included.
pub on_disk-IsPlain :
    {A : Type 0} (program : Program A) (max_blocks : ℕ) (fs : Sfs) (d : Disk)
    → max_blocks * block_size < int_end
    → IsWithin (max_blocks + 1) program
    → IsPlain max_blocks fs d
    → Returns
        (λ a d'. (a ≡ (on_file program fs).0) × IsPlain max_blocks (on_file program fs).1 d')
        (on_disk program d)
unfolding on_disk on_file IsWithin
on_disk-IsPlain (finish a) max_blocks fs d small within p = returns (refl, p)
on_disk-IsPlain (read_then bid next) max_blocks fs d small (lt, within) p =
    let buf = cut (sfs_read_block (λ _. 0) bid fs) in
    rw (read_same max_blocks bid fs d small lt p)
      (on_disk-IsPlain (next buf) max_blocks fs d small (within buf) p)
on_disk-IsPlain (write_then bid buf at next) max_blocks fs d small (lt, within) p =
    rw (write_same max_blocks bid fs d small lt p buf at) (
      on_disk-IsPlain next max_blocks (sfs_write_block buf at bid fs)
        (record d { file = (sfs_write_block buf at bid fs).fh }) small within
        (record { plain = p.plain; blocks = p.blocks; same = refl }))

-- The blocks that `sfs_mkfs` writes, where the superblock in memory was `sb`.
abbrev pub mkfs_blocks : Bytes → Program (Unit {0})
mkfs_blocks sb =
    write_then 0 (put_u32 12 0 (put_u32 8 1 (put_u32 4 1024 (put_u32 0 sfs_magic sb)))) 0
      (write_then 1024 no_bytes 0 (write_then 1 (put_u32 0 3 no_bytes) 0 (finish tt)))

pub mkfs_blocks-IsWithin : (sb : Bytes) → IsWithin 1025 (mkfs_blocks sb)
unfolding IsWithin
mkfs_blocks-IsWithin sb = (omega arith, (omega arith, (omega arith, tt)))

-- `sfs_mkfs` makes the same image with exta1.c on a disk of 1024 blocks without a cache as with ext.c.
sfs_mkfs-on_disk :
    (fs : Sfs) (d : Disk)
    → IsPlain 1024 fs d
    → Returns
        (λ _ d'. Returns (λ _ fs'. d'.file ≡ fs'.fh) (sfs_mkfs fs))
        (on_disk (mkfs_blocks fs.sb) d)
unfolding on_file sfs_mkfs
sfs_mkfs-on_disk fs d p =
    mono
      (on_disk-IsPlain (mkfs_blocks fs.sb) 1024 fs d (omega arith) (mkfs_blocks-IsWithin fs.sb) p)
      (λ _ d' (_, made). returns made.same)
