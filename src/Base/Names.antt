-- ===== src/Base/Names.antt =====
-- Texts as C compares them: the bytes before the NUL, and `strcmp`.
use Prim.Native.Nat.{ℕ, suc}
use mathlib.Core.Path.{◌≡◌, refl}
use mathlib.Core.Bool.{Bool, true, false, ◌&&◌}
use mathlib.Core.List.{List, [], ◌∷◌}
use native.Mathlib.Omega.{arith}
use package.class_projects.Base.Tests.{◌==◌}

abbrev pub Name : Type 0
Name = List ℕ

-- strcmp(a, b) == 0
unfoldable pub same_name : Name → Name → Bool
same_name [] [] = true
same_name (x ∷ a) (y ∷ b) = x == y && same_name a b
same_name _ _ = false

pub same_name_refl : (a : Name) → same_name a a ≡ true
unfolding same_name
same_name_refl [] = refl
same_name_refl (x ∷ a) = ground (arith, same_name_refl a)

pub same_name→eq : (a b : Name) → same_name a b ≡ true → a ≡ b
unfolding same_name
same_name→eq [] [] h = refl
same_name→eq [] (y ∷ b) h = cc
same_name→eq (x ∷ a) [] h = cc
same_name→eq (x ∷ a) (y ∷ b) h = ground (arith, same_name→eq a b)

-- The library's `length`, over the native numbers.
abbrev pub length {ℓ} : {A : Type ℓ} → List A → ℕ
length [] = 0
length (x ∷ xs) = suc (length xs)
