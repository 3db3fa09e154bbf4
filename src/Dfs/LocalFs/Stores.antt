-- ===== src/Dfs/LocalFs/Stores.antt =====
-- The files of the host that ext.c keeps the blocks of some owners in, by the paths of exta2.c.
use class_projects.Base.{
  ℕ, zero, suc, ◌+◌, ◌<◌, ◌≡◌, ◌⊎◌, ◌∙◌, refl, sym, true, false, none, some, arith, ◌==◌,
  if◌then◌else◌, Bool-cases, inl, inr, ◌++◌,
}
use class_projects.Base.Names.{Name, length, same_name, same_name_refl, same_name→eq}
use class_projects.Base.Bytes.{Bytes}
use class_projects.Fs.{sfs_block_size}
use class_projects.Fs.Strings.{IsText}
use class_projects.Dfs.Datanode.{Store, get_block_file_path}
use class_projects.Dfs.Datanode.Paths.{length_block_path}
use class_projects.Dfs.Datanode.Texts.{block_path-IsText, same_name-append}
use class_projects.Dfs.LocalFs.{local_block_path, path_overflows}
use class_projects.Dfs.LocalFs.Calls.{IsBlock, host_path, with_block}
use class_projects.Dfs.LocalFs.Change.{changed}

-- The store has the `n` files `names` with the contents `contents`, and no other.
pub record Stores (s : Store) (n : ℕ) (names : ℕ → Name) (contents : ℕ → Bytes) : Type 0 where
  pub kept : (j : ℕ) → j < n → s.files (s.working_directory ++ names j) ≡ some (contents j)
  pub none_other :
      (p : Name)
      → ((j : ℕ) → j < n → same_name (names j) p ≡ false)
      → s.files (s.working_directory ++ p) ≡ none

pub find_name :
    (n : ℕ) (names : ℕ → Name) (p : Name)
    → ((j : ℕ) × (j < n) × (p ≡ names j)) ⊎ ((j : ℕ) → j < n → same_name (names j) p ≡ false)
find_name zero names p = inr (λ j h. absurd (omega arith))
find_name (suc n) names p = elim (Bool-cases (same_name (names n) p)) [
  | inl e ↦ inl (n, omega arith, sym (same_name→eq (names n) p e))
  | inr e ↦ elim (find_name n names p) [
    | inl (j, h, e') ↦ inl (j, omega arith, e')
    | inr none_there ↦ inr (λ j h. elim (Bool-cases (j == n)) [
      | inl t ↦ let z : j ≡ n = ground arith in rw z e
      | inr t ↦ none_there j (ground arith)
    ])
  ]
]

-- The path of a block fits its buffer and an inode.
module _ (filename : Name) (id : ℕ) (block : IsBlock filename id) where
  pub block_fits : path_overflows filename id ≡ false
  unfolding local_block_path
  block_fits = let path = length_block_path filename id block.digit in ground arith

  pub block_short : 8 + length (local_block_path filename id) < sfs_block_size
  unfolding local_block_path
  block_short = omega (arith, length_block_path filename id block.digit, block.short)

  pub block-IsText : IsText (local_block_path filename id)
  unfolding local_block_path
  block-IsText = block_path-IsText filename id block.text

  pub host_path-local :
      (s : Store) → host_path s filename id ≡ s.working_directory ++ local_block_path filename id
  unfolding local_block_path get_block_file_path
  host_path-local s = refl

  with_block-files :
      (buf : Bytes) (s : Store) (p : Name)
      → (with_block filename id buf s).files (s.working_directory ++ p) ≡ (
          if same_name (local_block_path filename id) p
          then some buf
          else s.files (s.working_directory ++ p))
  with_block-files buf s p =
      rw (host_path-local s, same_name-append s.working_directory (local_block_path filename id) p)
        refl

  module _ (buf : Bytes) (s : Store) (n : ℕ) (names : ℕ → Name) (contents : ℕ → Bytes)
      (stores : Stores s n names contents)
      (distinct : (i j : ℕ) → i < n → j < n → same_name (names i) (names j) ≡ true → i ≡ j) where
    -- A file of the store is written again.
    pub Stores-changed :
        (j : ℕ)
        → j < n
        → local_block_path filename id ≡ names j
        → Stores (with_block filename id buf s) n names (changed j buf contents)
    Stores-changed j lt e = record {
      kept = λ i h. with_block-files buf s (names i) ∙ elim (Bool-cases (i == j)) [
        | inl t ↦
            let z : i ≡ j = ground arith in
            let y : (j == j) ≡ true = ground arith in rw (z, e, same_name_refl (names j), y) refl
        | inr t ↦
            let other : same_name (names j) (names i) ≡ false =
              elim (Bool-cases (same_name (names j) (names i))) [
                | inr f ↦ f
                | inl f ↦ absurd (let d = distinct j i lt h f in ground arith)
              ] in
            rw (e, other, t) (stores.kept i h)
      ];
      none_other =
          λ p h. with_block-files buf s p ∙ (let f = h j lt in rw (e, f) (stores.none_other p h));
    }

    -- A file is new in the store.
    pub Stores-added :
        ((j : ℕ) → j < n → same_name (names j) (local_block_path filename id) ≡ false)
        → Stores
            (with_block filename id buf s)
            (suc n)
            (changed n (local_block_path filename id) names)
            (changed n buf contents)
    Stores-added new = record {
      kept = λ i h. elim (Bool-cases (i == n)) [
        | inl t ↦
            let path = local_block_path filename id in
            rw t (with_block-files buf s path ∙ (let r = same_name_refl path in rw r refl))
        | inr t ↦
            let path = local_block_path filename id in
            let other : same_name path (names i) ≡ false =
              elim (Bool-cases (same_name path (names i))) [
                | inr f ↦ f
                | inl f ↦
                    let z = same_name→eq path (names i) f in
                    let r = same_name_refl (names i) in
                    absurd (let g = rw z at (new i (ground arith)) in cc)
              ] in
            rw t (with_block-files buf s (names i) ∙ rw other (stores.kept i (ground arith)))
      ];
      none_other = λ p h.
          let self : (n == n) ≡ true = ground arith in
          let f = rw self at (h n (omega arith)) in
          with_block-files buf s p
          ∙ rw f (
              stores.none_other p
                (λ j lt. let ne : (j == n) ≡ false = ground arith in rw ne at (h j (omega arith))));
    }
