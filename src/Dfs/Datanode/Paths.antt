-- ===== src/Dfs/Datanode/Paths.antt =====
-- The paths of blocks: they fit their buffer, and two blocks of one file have two paths.
use class_projects.Base.{
  ℕ, zero, suc, ◌+◌, ◌-◌, ◌*◌, ◌/◌, ◌%◌, ◌≤◌, ◌<◌, ◌≡◌, ◌≢◌, refl, sym, ap, ◌∙◌, false, none, some,
  [], ◌∷◌, ◌++◌, arith, ltb, Bool-cases, Option-cases, inl, inr,
}
use class_projects.Base.Names.{length, Name, same_name, same_name_refl, same_name→eq}
use class_projects.Base.Bytes.{Bytes, copy}
use class_projects.Base.Run.{done, fault, Returns, returns}
use class_projects.Dfs.Types.{dfs_block_size}
use class_projects.Dfs.Datanode.{
  Store, decimal_loop, decimal, infix_blk, get_block_file_path, path_space, block_path_overflows,
  ext_read_block, ext_write_block,
}

length-append : (xs ys : Name) → length (xs ++ ys) ≡ length xs + length ys
length-append [] ys = omega arith
length-append (x ∷ xs) ys = omega (arith, length-append xs ys)

-- The number that digits stand for.
value : ℕ → Name → ℕ
value acc [] = acc
value acc (c ∷ cs) = value (acc * 10 + (c - 48)) cs

value-last :
    (acc : ℕ) (cs : Name) (c : ℕ) → value acc (cs ++ (c ∷ [])) ≡ value acc cs * 10 + (c - 48)
unfolding value
value-last acc [] c = refl
value-last acc (d ∷ cs) c = value-last (acc * 10 + (d - 48)) cs c

value-decimal_loop : (k n : ℕ) → n < k → value 0 (decimal_loop k n) ≡ n
unfolding decimal_loop value
value-decimal_loop zero n h = elim h [ ]
value-decimal_loop (suc k) n h = elim (Bool-cases (ltb n 10)) [
  | inl e ↦ rw e (omega arith)
  | inr e ↦
      let rest = value-decimal_loop k (n / 10) (ground arith) in
      rw e (value-last 0 (decimal_loop k (n / 10)) (48 + n % 10) ∙ omega (arith, rest))
]

decimal-injective : (m n : ℕ) → decimal m ≡ decimal n → m ≡ n
unfolding decimal
decimal-injective m n e =
    sym (value-decimal_loop (suc m) m (omega arith))
    ∙ ap (value 0) e
    ∙ value-decimal_loop (suc n) n (omega arith)

cancel : (xs ys zs : Name) → xs ++ ys ≡ xs ++ zs → ys ≡ zs
cancel [] ys zs e = e
cancel (x ∷ xs) ys zs e = cancel xs ys zs (cc)

pub path-injective :
    (wd filename : Name) (m n : ℕ)
    → get_block_file_path wd filename m ≡ get_block_file_path wd filename n
    → m ≡ n
unfolding get_block_file_path
path-injective wd filename m n e =
    decimal-injective m n (cancel infix_blk _ _ (cancel filename _ _ (cancel wd _ _ e)))

length_loop-one : (k n : ℕ) → n < 10 → length (decimal_loop k n) ≤ 1
unfolding decimal_loop
length_loop-one zero n h = omega arith
length_loop-one (suc k) n h = ground arith

length_loop-two : (k n : ℕ) → n < 100 → length (decimal_loop k n) ≤ 2
unfolding decimal_loop
length_loop-two zero n h = omega arith
length_loop-two (suc k) n h = ground (
  arith,
  length-append (decimal_loop k (n / 10)) ((48 + n % 10) ∷ []),
  length_loop-one k (n / 10),
)

length_loop-three : (k n : ℕ) → n < 1000 → length (decimal_loop k n) ≤ 3
unfolding decimal_loop
length_loop-three zero n h = omega arith
length_loop-three (suc k) n h = ground (
  arith,
  length-append (decimal_loop k (n / 10)) ((48 + n % 10) ∷ []),
  length_loop-two k (n / 10),
)

length-path :
    (wd filename : Name) (id : ℕ)
    → length (get_block_file_path wd filename id)
      ≡ length wd + length filename + 5 + length (decimal id)
unfolding get_block_file_path
length-path wd filename id = omega (
  arith,
  length-append wd (filename ++ (infix_blk ++ decimal id)),
  length-append filename (infix_blk ++ decimal id),
  length-append infix_blk (decimal id),
)

-- The path of a block with an id below 1000, with its NUL, fits the bytes that are allocated for it.
pub path_space-fits :
    (wd filename : Name) (id : ℕ)
    → id < 1000
    → length (get_block_file_path wd filename id) + 1 ≤ path_space (length wd) (length filename) id
unfolding path_space decimal
path_space-fits wd filename id h = ground (
  arith,
  length-path wd filename id,
  length_loop-one (suc id) id,
  length_loop-three (suc id) id h,
)

-- Such a block has a path.
pub path-fits :
    (wd filename : Name) (id : ℕ) → id < 1000 → block_path_overflows wd filename id ≡ false
unfolding block_path_overflows
path-fits wd filename id h = ground (arith, path_space-fits wd filename id h)

-- The path of a block with an id of one digit is at most six bytes longer than the name of the file.
pub length_block_path :
    (filename : Name) (id : ℕ)
    → id < 10
    → length (filename ++ (infix_blk ++ decimal id)) ≤ length filename + 6
unfolding decimal
length_block_path filename id h = omega (
  arith,
  length-append filename (infix_blk ++ decimal id),
  length-append infix_blk (decimal id),
  length_loop-one (suc id) id h,
)

abbrev pub path_in : Store → Name → ℕ → Name
path_in s filename id = get_block_file_path s.working_directory filename id

-- What a write of a block leaves: its content in its file, and the files of the other blocks of the
-- same owner as they were.
abbrev pub StoresBlock : Name → ℕ → Bytes → Store → Store → Type 0
StoresBlock filename id content s s' =
    (s'.working_directory ≡ s.working_directory)
    × (s'.files (path_in s filename id) ≡ some content)
    × ((other : ℕ)
        → other ≢ id
        → s'.files (path_in s filename other) ≡ s.files (path_in s filename other))

pub ext_write_block-stores :
    (filename : Name) (id : ℕ) (content : Bytes) (s : Store)
    → id < 1000
    → Returns (λ _ s'. StoresBlock filename id content s s') (ext_write_block filename id content s)
unfolding ext_write_block
ext_write_block-stores filename id content s small =
    rw (path-fits s.working_directory filename id small) (
      returns (
        refl,
        rw (same_name_refl (path_in s filename id)),
        λ other ne.
            elim (Bool-cases (same_name (path_in s filename id) (path_in s filename other))) [
              | inl e ↦ absurd (
                  ne (
                    path-injective s.working_directory filename other id
                      (sym (same_name→eq (path_in s filename id) (path_in s filename other) e))))
              | inr e ↦ rw e
            ],
      ))

pub ext_read_block-stored :
    (filename : Name) (id : ℕ) (content buf : Bytes) (s : Store)
    → id < 1000
    → s.files (path_in s filename id) ≡ some content
    → ext_read_block filename id buf s ≡ done (copy dfs_block_size buf 0 content 0) s
unfolding ext_read_block
ext_read_block-stored filename id content buf s small e =
    rw (path-fits s.working_directory filename id small, e, ext_read_block)

pub ext_read_block-absent :
    (filename : Name) (id : ℕ) (buf : Bytes) (s : Store)
    → s.files (path_in s filename id) ≡ none
    → ext_read_block filename id buf s ≡ fault
unfolding ext_read_block
ext_read_block-absent filename id buf s e =
    elim (Bool-cases (block_path_overflows s.working_directory filename id)) [
      | inl long ↦ rw (long, ext_read_block)
      | inr fits ↦ rw (fits, e, ext_read_block)
    ]

pub ext_read_block-store :
    (filename : Name) (id : ℕ) (buf got : Bytes) (s s' : Store)
    → id < 1000
    → ext_read_block filename id buf s ≡ done got s'
    → s' ≡ s
ext_read_block-store filename id buf got s s' small e =
    elim (Option-cases (s.files (path_in s filename id))) [
      | inl absent ↦ absurd (let f = ext_read_block-absent filename id buf s absent in cc)
      | inr (content, there) ↦
          let f = ext_read_block-stored filename id content buf s small there in cc
    ]
