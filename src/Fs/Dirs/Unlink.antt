-- ===== src/Fs/Dirs/Unlink.antt =====
-- The list of directories of fs.c without one of them, and the loop of `sfs_rmdir` that takes it out.
use class_projects.Base.{
  ℕ, zero, suc, ◌-◌, ◌*◌, ◌/◌, ◌≤◌, ◌<◌, ◌≡◌, ◌≢◌, ◌⊎◌, ◌∙◌, refl, sym, false, arith, ◌==◌,
  if◌then◌else◌, List, [], ◌∷◌,
}
use class_projects.Base.Names.{length}
use class_projects.Base.Bytes.{Bytes, File}
use class_projects.Base.Run.{done}
use class_projects.Fs.Word.{put_u32}
use class_projects.Fs.{Sfs, sfs_block_size, sfs_read_block, next_dir, unlink_loop}
use class_projects.Fs.Dirs.{block, IsChain, get_u32-read}
use class_projects.Fs.Dirs.Last.{AreUsed}
use class_projects.Fs.Freemap.{used}
use class_projects.Fs.Content.Blocks.{raw, IsWhole}

-- `x` is none of the blocks.
abbrev pub IsAbsent : ℕ → List ℕ → Type 0
IsAbsent x [] = Unit
IsAbsent x (y ∷ ys) = (y ≢ x) × IsAbsent x ys

-- The list from a block on is as long as the block says.
IsChain-length :
    (f : File) (b : ℕ) (xs ys : List ℕ) → IsChain f b xs → IsChain f b ys → length xs ≡ length ys
unfolding IsChain
IsChain-length f b [] [] c c' = refl
IsChain-length f b [] (y ∷ ys) c (e, ne, _, _) = absurd (ne (sym e ∙ c))
IsChain-length f b (x ∷ xs) [] (e, ne, _, _) c' = absurd (ne (sym e ∙ c'))
IsChain-length f b (x ∷ xs) (y ∷ ys) (e, ne, inside, c) (e', ne', inside', c') =
    let z : y ≡ x = sym e' ∙ e in
    let rest = IsChain-length f (next_dir (block f x)) xs ys c (rw z at c') in omega arith

-- So no block comes twice.
pub IsChain-IsAbsent :
    (f : File) (b x : ℕ) (rest ids : List ℕ)
    → IsChain f x (x ∷ rest)
    → IsChain f b ids
    → length ids ≤ length rest
    → IsAbsent x ids
unfolding IsChain
IsChain-IsAbsent f b x rest [] whole c le = tt
IsChain-IsAbsent f b x rest (y ∷ ys) whole (e, ne, inside, c) le = (
  λ z. omega (arith, IsChain-length f x (y ∷ ys) (x ∷ rest) (sym z ∙ refl, ne, inside, c) whole),
  IsChain-IsAbsent f (next_dir (block f y)) x rest ys whole c (omega arith),
)

-- The list in another image where it has the same links.
pub IsChain-same :
    (f f' : File) (map : Bytes) (p b : ℕ) (ids : List ℕ)
    → f'.size ≡ f.size
    → ((x : ℕ) → IsWhole f x → 2 ≤ x → x ≢ p → next_dir (block f' x) ≡ next_dir (block f x))
    → AreUsed f map ids
    → IsAbsent p ids
    → IsChain f b ids
    → IsChain f' b ids
unfolding IsChain AreUsed
IsChain-same f f' map p b [] size same us absent c = c
IsChain-same f f' map p b (x ∷ xs) size same ((whole, behind, _), us) (ne_p, absent)
      (e, ne, inside, c) =
    (
      e,
      ne,
      omega (arith, size),
      rw (same x whole behind ne_p)
          (IsChain-same f f' map p (next_dir (block f x)) xs size same us absent c),
    )

-- Block `gone` is free and no longer follows block `p`.
pub record Unlinked (p gone : ℕ) (fs fs' : Sfs) : Type 0 where
  pub size : fs'.fh.size ≡ fs.fh.size
  pub link :
      (o : ℕ)
      → o < sfs_block_size
      → raw fs'.fh p o ≡ put_u32 0 (next_dir (block fs.fh gone)) (raw fs.fh p) o
  pub marks : (j : ℕ) → used fs'.freemap j ≡ (if j == gone - 1 then false else used fs.freemap j)
  pub outside :
      (x : ℕ)
      → x < fs.fh.size
      → (x < sfs_block_size) ⊎ (2 * sfs_block_size ≤ x)
      → x / sfs_block_size ≢ p
      → fs'.fh.byte x ≡ fs.fh.byte x

-- Behind the gap the loop changes nothing.
pub unlink_loop-past :
    (k b gone next : ℕ) (ids : List ℕ) (dir : Bytes) (fs : Sfs)
    → gone ≢ 0
    → IsAbsent gone ids
    → IsChain fs.fh b ids
    → length ids < k
    → unlink_loop k gone next b dir fs ≡ done tt fs
unfolding unlink_loop IsChain
unlink_loop-past zero b gone next ids dir fs ne absent c lt = absurd (omega arith)
unlink_loop-past (suc k) b gone next [] dir fs ne absent c lt = rw c refl
unlink_loop-past (suc k) b gone next (x ∷ []) dir fs ne absent (e, ne', inside, c) lt =
    let some_block : (x == 0) ≡ false = ground arith in
    let other : (0 == gone) ≡ false = ground arith in
    let at = get_u32-read fs.fh dir x 0 inside (omega arith) ∙ c in
    rw (e, some_block, at, other)
      (unlink_loop-past k 0 gone next [] (sfs_read_block dir x fs) fs ne tt refl (omega arith))
unlink_loop-past (suc k) b gone next (x ∷ (y ∷ ys)) dir fs ne (_, absent) (e, ne', inside, c) lt =
    let some_block : (x == 0) ≡ false = ground arith in
    let at = get_u32-read fs.fh dir x 0 inside (omega arith) in
    let other : (next_dir (block fs.fh x) == gone) ≡ false =
      let a = absent.0 in let z = c.0 in ground arith in
    rw (e, some_block, at, other)
      (unlink_loop-past k (next_dir (block fs.fh x)) gone next (y ∷ ys) (sfs_read_block dir x fs) fs
        ne absent c (omega arith))
