-- ===== src/Dfs/Datanode/Texts.antt =====
-- The paths of blocks as C sees them: no NUL, and as different as their ends.
use class_projects.Base.{
  ℕ, zero, suc, ◌+◌, ◌/◌, ◌%◌, ◌≡◌, refl, [], ◌∷◌, ◌++◌, arith, ltb, Bool-cases, inl, inr,
}
use class_projects.Base.Names.{Name, same_name}
use class_projects.Fs.Strings.{IsText}
use class_projects.Dfs.Datanode.{decimal_loop, decimal, infix_blk}

IsText-append : (a b : Name) → IsText a → IsText b → IsText (a ++ b)
IsText-append [] b t t' = t'
IsText-append (c ∷ cs) b (ne, t) t' = (ne, IsText-append cs b t t')

decimal_loop-IsText : (k n : ℕ) → IsText (decimal_loop k n)
unfolding decimal_loop
decimal_loop-IsText zero n = tt
decimal_loop-IsText (suc k) n = elim (Bool-cases (ltb n 10)) [
  | inl e ↦ rw e ((λ z. omega (arith, z)), tt)
  | inr e ↦ rw e (
      IsText-append (decimal_loop k (n / 10)) ((48 + n % 10) ∷ []) (decimal_loop-IsText k (n / 10))
        ((λ z. omega (arith, z)), tt))
]

pub block_path-IsText :
    (filename : Name) (id : ℕ) → IsText filename → IsText (filename ++ (infix_blk ++ decimal id))
unfolding decimal
block_path-IsText filename id t = IsText-append filename (infix_blk ++ decimal id) t (
    IsText-append infix_blk (decimal id)
      (
        (λ z. omega (arith, z)),
        (
          (λ z. omega (arith, z)),
          ((λ z. omega (arith, z)), ((λ z. omega (arith, z)), ((λ z. omega (arith, z)), tt))),
        ),
      )
      (decimal_loop-IsText (suc id) id))

-- A common start does not matter to `strcmp`.
pub same_name-append : (wd a b : Name) → same_name (wd ++ a) (wd ++ b) ≡ same_name a b
unfolding same_name
same_name-append [] a b = refl
same_name-append (c ∷ cs) a b = ground (arith, same_name-append cs a b)
