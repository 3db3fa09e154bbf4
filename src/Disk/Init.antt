-- ===== src/Disk/Init.antt =====
-- `mydisk_init`: a new disk.
use class_projects.Base.{ℕ, zero, suc, ◌+◌, ◌*◌, ◌<◌, ◌≡◌, refl, ◌∙◌, true, false, arith, leb}
use class_projects.Base.Int.{int_end}
use class_projects.Base.Run.{Returns, returns}
use class_projects.Base.Bytes.{File, empty_file, file_write}
use class_projects.Disk.{Disk, ok, block_size, zero_fill, mydisk_init}
use class_projects.Disk.Inv.{IsValid, view, view-plain}

zero_fill-zeros :
    (n counter : ℕ) (f : File)
    → f.size ≡ counter
    → ((a : ℕ) → a < counter → f.byte a ≡ 0)
    → ((zero_fill n counter f).size ≡ counter + n)
      × ((a : ℕ) → a < counter + n → (zero_fill n counter f).byte a ≡ 0)
unfolding zero_fill
zero_fill-zeros zero counter f size zeros = (omega arith, λ a h. zeros a (omega arith))
zero_fill-zeros (suc n) counter f size zeros =
    let (size', zeros') =
      zero_fill-zeros n (counter + 1) (file_write f counter 1 (λ _. 0) 0) (ground arith)
        (λ a h. ground (arith, zeros a)) in
    (omega arith, λ a h. zeros' a (omega arith))

-- A disk without a cache whose file opens is valid after `mydisk_init` of blocks with less than 2 ^ 31
-- bytes: it has the blocks asked for, in a file of exactly their size, and shows zeros in all of them.
pub mydisk_init-zeros :
    (nblocks type : ℕ) (d : Disk)
    → d.cache_enabled ≡ false
    → nblocks * block_size < int_end
    → Returns
        (λ s d'.
          (s ≡ ok)
          × IsValid d'
          × (d'.max_blocks ≡ nblocks)
          × (d'.file.size ≡ nblocks * block_size)
          × ((b o : ℕ) → b < nblocks → o < block_size → view d' b o ≡ 0))
        (mydisk_init true nblocks type d)
unfolding mydisk_init
mydisk_init-zeros nblocks type d off small =
    let fits : leb int_end (block_size * nblocks) ≡ false = ground arith in
    let (size, zeros) = zero_fill-zeros (block_size * nblocks) 0 empty_file refl (λ a h. refl) in
    rw fits (
      returns (
        refl,
        record { whole = omega arith; cached = λ on. cc },
        refl,
        omega arith,
        λ b o lt ho. view-plain _ b o off ∙ zeros (b * block_size + o) (omega arith),
      ))
