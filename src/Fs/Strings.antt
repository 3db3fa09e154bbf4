-- ===== src/Fs/Strings.antt =====
-- `strcmp` and `strncpy` on the names that fs.c keeps in blocks.
use class_projects.Base.{ℕ, suc, ◌+◌, ◌-◌, ◌≤◌, ◌<◌, ◌≡◌, ◌≢◌, refl, sym, true, arith, [], ◌∷◌}
use class_projects.Base.Names.{Name, length, same_name}
use class_projects.Base.Bytes.{Bytes}
use class_projects.Fs.{same_string, char_at, strncpy}

-- A comparison depends on as many bytes as the name and its end have.
pub same_string-same :
    (a b : Bytes) (p n : ℕ) (name : Name)
    → p + length name < n
    → ((o : ℕ) → p ≤ o → o < n → a o ≡ b o)
    → same_string a p name ≡ same_string b p name
unfolding same_string
same_string-same a b p n [] lt same = rw (same p (omega arith) (omega arith)) refl
same_string-same a b p n (c ∷ cs) lt same =
    let rest =
      same_string-same a b (p + 1) n cs (omega arith) (λ o h h'. same o (omega arith) h') in
    rw (same p (omega arith) (omega arith), rest) refl

-- A text of C has no NUL.
abbrev pub IsText : Name → Type 0
IsText [] = Unit
IsText (c ∷ cs) = (c ≢ 0) × IsText cs

-- `strcmp` with a text that is stored, with its NUL.
pub same_string-stored :
    (b : Bytes) (p : ℕ) (name text : Name)
    → IsText name
    → IsText text
    → ((o : ℕ) → o ≤ length name → b (p + o) ≡ char_at name o)
    → same_string b p text ≡ same_name name text
unfolding same_string same_name char_at
same_string-stored b p [] [] t t' at =
    let z : p + 0 ≡ p = omega arith in let e = rw z at (at 0 (omega arith)) in ground arith
same_string-stored b p [] (c ∷ cs) t t' at =
    let z : p + 0 ≡ p = omega arith in
    let e = rw z at (at 0 (omega arith)) in let ne = t'.0 in ground arith
same_string-stored b p (x ∷ xs) [] t t' at =
    let z : p + 0 ≡ p = omega arith in
    let e = rw z at (at 0 (omega arith)) in let ne = t.0 in ground arith
same_string-stored b p (x ∷ xs) (c ∷ cs) t t' at =
    let z : p + 0 ≡ p = omega arith in
    let e = rw z at (at 0 (omega arith)) in
    let rest =
      same_string-stored b (p + 1) xs cs t.1 t'.1
        (λ o h. let y : p + 1 + o ≡ p + suc o = omega arith in rw y (at (suc o) (omega arith))) in
    ground arith

-- A name that was copied is there.
pub same_string-strncpy :
    (b : Bytes) (p n q : ℕ) (name : Name)
    → q + length name < n
    → (whole : Name) → ((i : ℕ) → char_at name i ≡ char_at whole (q + i))
    → same_string (strncpy n b p whole) (p + q) name ≡ true
unfolding same_string char_at
same_string-strncpy b p n q [] lt whole same =
    let s = same 0 in
    let z : q + 0 ≡ q = omega arith in
    let z' : p + q - p + 0 ≡ q = omega arith in
    let e : char_at whole q ≡ 0 = rw z at (sym s) in ground arith
same_string-strncpy b p n q (c ∷ cs) lt whole same =
    let s = same 0 in
    let z : q + 0 ≡ q = omega arith in
    let z' : p + q - p + 0 ≡ q = omega arith in
    let z'' : p + q + 1 ≡ p + (q + 1) = omega arith in
    let e : char_at whole q ≡ c = rw z at (sym s) in
    let rest : same_string (strncpy n b p whole) (p + q + 1) cs ≡ true = rw z'' (
      same_string-strncpy b p n (q + 1) cs (omega arith) whole
        (λ i. let y : q + suc i ≡ q + 1 + i = omega arith in rw y at (same (suc i)))) in
    let here : strncpy n b p whole (p + q) ≡ c = ground arith in rw (here, rest) (ground arith)
