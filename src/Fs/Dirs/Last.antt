-- ===== src/Fs/Dirs/Last.antt =====
-- The last directory of the list of fs.c, and the list with one more behind it.
use class_projects.Base.{
  ℕ, zero, suc, ◌+◌, ◌-◌, ◌*◌, ◌≤◌, ◌<◌, ◌≡◌, ◌≢◌, ◌∙◌, refl, sym, ap, true, false, arith, ◌==◌,
  List, [], ◌∷◌, ◌++◌,
}
use class_projects.Base.Names.{Name, length}
use class_projects.Base.Bytes.{Bytes, File, fill}
use class_projects.Base.Run.{Run, done, and_then}
use class_projects.Fs.Word.{u32_end, get_u32, put_u32, get_u32-put_u32}
use class_projects.Fs.{
  Sfs, sfs_block_size, sfs_at, sfs_read_block, sfs_write_block, next_dir, new_dir, dir_inode,
  same_string, strncpy, sfs_alloc_block, mkdir_loop,
}
use class_projects.Fs.Dirs.{block, IsChain, get_u32-read}
use class_projects.Fs.Strings.{same_string-same, same_string-strncpy}
use class_projects.Fs.Freemap.{used}
use class_projects.Fs.Content.Blocks.{raw, IsWhole, read_raw}

-- A new directory has the name, no successor and no files.
pub new_dir-next : (name : Name) (dir : Bytes) → next_dir (new_dir name dir) ≡ 0
new_dir-next name dir = get_u32-put_u32 0 0 (fill 388 (strncpy 120 dir 4 name) 124 0) (omega arith)

pub new_dir-empty :
    (name : Name) (dir : Bytes) (j : ℕ) → j < 97 → dir_inode (new_dir name dir) j ≡ 0
unfolding get_u32 put_u32
new_dir-empty name dir j h = ground arith

pub new_dir-named :
    (name : Name) (dir : Bytes)
    → 4 + length name < 124
    → same_string (new_dir name dir) 4 name ≡ true
unfolding put_u32
new_dir-named name dir short =
    let z : (i : ℕ) → 0 + i ≡ i = λ i. omega arith in
    same_string-same (new_dir name dir) (strncpy 120 dir 4 name) 4 124 name short
      (λ o h h'. ground arith)
    ∙ same_string-strncpy dir 4 120 0 name (omega arith) name (λ i. rw (z i) refl)

pub put_u32_far : (p n : ℕ) (b : Bytes) (o : ℕ) → p + 4 ≤ o → put_u32 p n b o ≡ b o
unfolding put_u32
put_u32_far p n b o h = ground arith

-- The blocks of the directories are in the image and in use.
unfoldable pub AreUsed : File → Bytes → List ℕ → Type 0
AreUsed f map [] = Unit
AreUsed f map (x ∷ xs) = (IsWhole f x × (2 ≤ x) × (used map (x - 1) ≡ true)) × AreUsed f map xs

-- What `mkdir_loop` does at the last directory, in block `l` and read in the buffer `dir`.
abbrev pub append_dir : ℕ → Bytes → Name → Sfs → Run Sfs (Unit {0})
append_dir l dir name fs = and_then (sfs_alloc_block fs) (λ new_bid fs1.
    let linked = put_u32 0 new_bid dir in
    let fs2 = sfs_write_block linked 0 l fs1 in
    done tt (sfs_write_block (new_dir name linked) 0 new_bid fs2))

-- The last directory.
pub record Last (fs : Sfs) (l : ℕ) (dir : Bytes) : Type 0 where
  pub whole : IsWhole fs.fh l
  pub behind : 2 ≤ l
  pub in_use : used fs.freemap (l - 1) ≡ true
  pub no_next : next_dir (raw fs.fh l) ≡ 0
  pub same : (o : ℕ) → o < sfs_block_size → dir o ≡ raw fs.fh l o

pub block-raw_word :
    (f : File) (bid p : ℕ)
    → f.size ≤ u32_end
    → IsWhole f bid
    → get_u32 (block f bid) p ≡ get_u32 (raw f bid) p
block-raw_word f bid p small whole =
    let z : sfs_at bid ≡ bid * sfs_block_size = omega arith in
    ap (λ a. get_u32 (λ o. f.byte (a + o)) p) z

-- The last of the directories `x ∷ xs`.
unfoldable pub last_of : ℕ → List ℕ → ℕ
last_of x [] = x
last_of x (y ∷ ys) = last_of y ys

-- The block with the link to the first directory behind `ids`: the last one of them, or the superblock.
unfoldable pub link_of : List ℕ → ℕ
link_of [] = 0
link_of (x ∷ xs) = last_of x xs

-- The chain in the new image: what is linked stays, and the last directory is followed by `b`.
module _ (fs : Sfs) (f' : File) (l b : ℕ) (small : fs.fh.size ≤ u32_end)
    (size : f'.size ≡ fs.fh.size) (b_whole : IsWhole fs.fh b) (b_some : b ≢ 0)
    (b_last : next_dir (raw f' b) ≡ 0) (linked : next_dir (raw f' l) ≡ b)
    (no_next : next_dir (raw fs.fh l) ≡ 0)
    (kept : (x : ℕ)
      → IsWhole fs.fh x
      → 2 ≤ x
      → used fs.freemap (x - 1) ≡ true
      → x ≢ l
      → next_dir (raw f' x) ≡ next_dir (raw fs.fh x)) where
  new_word : (x p : ℕ) → IsWhole fs.fh x → get_u32 (block f' x) p ≡ get_u32 (raw f' x) p
  new_word x p whole = block-raw_word f' x p (omega (arith, size)) (omega (arith, size))

  pub IsChain-append :
      (at x : ℕ) (xs : List ℕ)
      → IsChain fs.fh at (x ∷ xs)
      → AreUsed fs.fh fs.freemap (x ∷ xs)
      → last_of x xs ≡ l
      → IsChain f' at (x ∷ (xs ++ (b ∷ [])))
  unfolding IsChain AreUsed last_of
  IsChain-append at x [] (e, ne, inside, _) ((whole, _, _), _) is_last = (
    e,
    ne,
    omega (arith, size),
    (
      new_word x 0 whole ∙ rw is_last linked,
      b_some,
      omega (arith, size, b_whole),
      new_word b 0 b_whole ∙ b_last,
    ),
  )
  IsChain-append at x (y ∷ ys) (e, ne, inside, rest) ((whole, behind, in_use), us) is_last =
      let old = block-raw_word fs.fh x 0 small whole in
      let apart : x ≢ l = λ q. rest.1 (sym rest.0 ∙ old ∙ rw q no_next) in
      (
        e,
        ne,
        omega (arith, size),
        rw (new_word x 0 whole ∙ kept x whole behind in_use apart ∙ sym old)
            (IsChain-append (next_dir (block fs.fh x)) y ys rest us is_last),
      )

-- The loop goes to the last directory.
pub mkdir_loop-Last :
    (k at x : ℕ) (xs : List ℕ) (name : Name) (dir : Bytes) (fs : Sfs)
    → fs.fh.size ≤ u32_end
    → IsChain fs.fh at (x ∷ xs)
    → AreUsed fs.fh fs.freemap (x ∷ xs)
    → length xs < k
    → (dir' : Bytes) × Last fs (last_of x xs) dir'
      × (mkdir_loop k name at dir fs ≡ append_dir (last_of x xs) dir' name fs)
unfolding mkdir_loop IsChain AreUsed last_of
mkdir_loop-Last zero at x xs name dir fs small chain us lt = absurd (omega arith)
mkdir_loop-Last (suc k) at x [] name dir fs small (e, ne, inside, none_behind)
      ((whole, behind, in_use), _) lt =
    let some_block : (x == 0) ≡ false = ground arith in
    let next = get_u32-read fs.fh dir x 0 inside (omega arith) ∙ none_behind in
    (
      sfs_read_block dir x fs,
      record {
        whole = whole;
        behind = behind;
        in_use = in_use;
        no_next = sym (block-raw_word fs.fh x 0 small whole) ∙ none_behind;
        same = λ o h. read_raw fs dir x o small whole h;
      },
      rw (e, some_block, next),
    )
mkdir_loop-Last (suc k) at x (y ∷ ys) name dir fs small (e, ne, inside, rest)
      ((whole, behind, in_use), us) lt =
    let some_block : (x == 0) ≡ false = ground arith in
    let next = get_u32-read fs.fh dir x 0 inside (omega arith) in
    let more : (next_dir (block fs.fh x) == 0) ≡ false =
      let ne' = rest.1 in let e' = rest.0 in ground arith in
    let (dir', last, same) =
      mkdir_loop-Last k (next_dir (block fs.fh x)) y ys name (sfs_read_block dir x fs) fs small rest
        us (omega arith) in
    (dir', last, rw (e, some_block, next, more) same)
