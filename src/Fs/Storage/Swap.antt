-- ===== src/Fs/Storage/Swap.antt =====
-- What uses blocks cannot tell the two storages apart.
use mathlib.Core.Path.{fun_ext}
use class_projects.Base.{
  ℕ, ◌+◌, ◌-◌, ◌*◌, ◌≤◌, ◌<◌, ◌≡◌, ◌∙◌, refl, sym, arith, Bool-cases, inl, inr, ltb, ◌==◌,
  if◌then◌else◌,
}
use class_projects.Base.Bytes.{Bytes}
use class_projects.Base.Int.{int_end}
use class_projects.Base.Run.{Cmd, done, and_then, Returns, returns, bind}
use class_projects.Disk.{Disk, block_size}
use class_projects.Disk.Inv.{IsValid, view}
use class_projects.Disk.Read.{mydisk_read_block-view}
use class_projects.Disk.Write.{mydisk_write_block-view}
use class_projects.Fs.{Sfs, sfs_at, sfs_read_block, sfs_write_block}
use class_projects.Fs.Storage.{disk_read_block, disk_write_block}

-- A program over blocks: it ends, or reads a block and goes on as its bytes say, or writes a block.
pub data Program (A : Type 0) : Type 0 where
  finish : A → Program A
  read_then : (bid : ℕ) → (Bytes → Program A) → Program A
  write_then : (bid : ℕ) (buf : Bytes) (p : ℕ) → Program A → Program A

-- The 512 bytes of a block.
abbrev pub cut : Bytes → Bytes
cut b o = if ltb o block_size then b o else 0

module _ {A : Type 0} where
  -- Over the plain file.
  unfoldable pub on_file : Program A → Sfs → A × Sfs
  on_file (finish a) fs = (a, fs)
  on_file (read_then bid next) fs = on_file (next (cut (sfs_read_block (λ _. 0) bid fs))) fs
  on_file (write_then bid buf p next) fs = on_file next (sfs_write_block buf p bid fs)

  -- Over the disk with its cache.
  unfoldable pub on_disk : Program A → Cmd Disk A
  on_disk (finish a) d = done a d
  on_disk (read_then bid next) d =
      and_then (disk_read_block (λ _. 0) bid d) (λ buf d1. on_disk (next (cut buf)) d1)
  on_disk (write_then bid buf p next) d =
      and_then (disk_write_block buf p bid d) (λ _ d1. on_disk next d1)

  -- All blocks lie below `max_blocks`, whatever is read.
  unfoldable pub IsWithin : ℕ → Program A → Type 0
  IsWithin max_blocks (finish a) = Unit
  IsWithin max_blocks (read_then bid next) =
      (bid < max_blocks) × ((buf : Bytes) → IsWithin max_blocks (next buf))
  IsWithin max_blocks (write_then bid buf p next) = (bid < max_blocks) × IsWithin max_blocks next

-- The file has every block whole, and the disk shows the bytes of the file.
pub record Agrees (max_blocks : ℕ) (fs : Sfs) (d : Disk) : Type 0 where
  pub valid : IsValid d
  pub blocks : d.max_blocks ≡ max_blocks
  pub whole : max_blocks * block_size ≤ fs.fh.size
  pub same :
      (b o : ℕ) → b < max_blocks → o < block_size → view d b o ≡ fs.fh.byte (b * block_size + o)

module _ (max_blocks bid : ℕ) (fs : Sfs) (d : Disk) (small : max_blocks * block_size ≤ int_end)
    (lt : bid < max_blocks) (agrees : Agrees max_blocks fs d) where
  no_wrap : sfs_at bid ≡ bid * block_size
  no_wrap = omega arith

  file_block :
      (o : ℕ)
      → o < block_size
      → sfs_read_block (λ _. 0) bid fs o ≡ fs.fh.byte (bid * block_size + o)
  file_block o h =
      let a = agrees.whole in
      let z : o - 0 + bid * block_size ≡ bid * block_size + o = omega arith in
      rw no_wrap (ground arith)

  disk_read_block-Agrees :
      Returns
        (λ buf d'. (cut buf ≡ cut (sfs_read_block (λ _. 0) bid fs)) × Agrees max_blocks fs d')
        (disk_read_block (λ _. 0) bid d)
  unfolding disk_read_block
  disk_read_block-Agrees =
      bind (mydisk_read_block-view d bid (λ _. 0) agrees.valid (omega (arith, agrees.blocks)))
        (λ (_, buf) d' (_, read, views, valid, setup). returns (
          (fun_ext λ o. elim (Bool-cases (ltb o block_size)) [
            | inl q ↦ rw q (
                read o (ground arith)
                ∙ agrees.same bid o lt (ground arith)
                ∙ sym (file_block o (ground arith)))
            | inr q ↦ rw q refl
          ]),
          record {
            valid = valid;
            blocks = setup.max_blocks ∙ agrees.blocks;
            whole = agrees.whole;
            same = λ b o h h'. views b o (omega (arith, agrees.blocks)) h' ∙ agrees.same b o h h';
          },
        ))

  file_written :
      (buf : Bytes) (p b o : ℕ)
      → b < max_blocks
      → o < block_size
      → (sfs_write_block buf p bid fs).fh.byte (b * block_size + o)
        ≡ (if b == bid then buf (o + p) else fs.fh.byte (b * block_size + o))
  file_written buf p b o h h' =
      let a = agrees.whole in
      rw no_wrap (elim (Bool-cases (b == bid)) [
        | inl q ↦
            let e : b ≡ bid = ground arith in
            let z : b * block_size + o - bid * block_size + p ≡ o + p = omega arith in ground arith
        | inr q ↦ ground arith
      ])

  disk_write_block-Agrees :
      (buf : Bytes) (p : ℕ)
      → Returns
          (λ _ d'. Agrees max_blocks (sfs_write_block buf p bid fs) d')
          (disk_write_block buf p bid d)
  unfolding disk_write_block
  disk_write_block-Agrees buf p =
      bind (mydisk_write_block-view d bid buf p agrees.valid (omega (arith, agrees.blocks)))
        (λ _ d' (_, own, others, valid, setup). returns (record {
          valid = valid;
          blocks = setup.max_blocks ∙ agrees.blocks;
          whole = omega (arith, agrees.whole);
          same = λ b o h h'. (elim (Bool-cases (b == bid)) [
            | inl q ↦
                let z : b ≡ bid = ground arith in
                let w : (sfs_write_block buf p bid fs).fh.byte (b * block_size + o) ≡ buf (o + p) =
                  file_written buf p b o h h' ∙ rw q refl in
                let v : view d' b o ≡ buf (o + p) = rw z (own o h') in v ∙ sym w
            | inr q ↦
                let w : (sfs_write_block buf p bid fs).fh.byte (b * block_size + o)
                    ≡ fs.fh.byte (b * block_size + o) =
                  file_written buf p b o h h' ∙ rw q refl in
                others b o (omega (arith, agrees.blocks)) (ground arith) h'
                ∙ agrees.same b o h h'
                ∙ sym w
          ]);
        }))

-- A disk of at most 2 ^ 31 bytes is valid, cached or not, and shows the bytes of a plain file that has all
-- its blocks. Then any program that reads and writes blocks below `max_blocks` computes the same result
-- with exta1.c on the disk as with ext.c on the file, without a fault, and leaves the two with the same
-- bytes: neither the cache nor the block that is evicted shows.
pub on_disk-on_file :
    {A : Type 0} (program : Program A) (max_blocks : ℕ) (fs : Sfs) (d : Disk)
    → max_blocks * block_size ≤ int_end
    → IsWithin max_blocks program
    → Agrees max_blocks fs d
    → Returns
        (λ a d'. (a ≡ (on_file program fs).0) × Agrees max_blocks (on_file program fs).1 d')
        (on_disk program d)
unfolding on_disk on_file IsWithin
on_disk-on_file (finish a) max_blocks fs d small within agrees = returns (refl, agrees)
on_disk-on_file (read_then bid next) max_blocks fs d small (lt, within) agrees =
    bind (disk_read_block-Agrees max_blocks bid fs d small lt agrees) (λ buf d1 (same, agrees1).
      rw same (
        on_disk-on_file (next (cut (sfs_read_block (λ _. 0) bid fs))) max_blocks fs d1 small
          (within (cut (sfs_read_block (λ _. 0) bid fs))) agrees1))
on_disk-on_file (write_then bid buf p next) max_blocks fs d small (lt, within) agrees =
    bind (disk_write_block-Agrees max_blocks bid fs d small lt agrees buf p) (λ _ d1 agrees1.
      on_disk-on_file next max_blocks (sfs_write_block buf p bid fs) d1 small within agrees1)
