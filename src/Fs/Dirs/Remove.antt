-- ===== src/Fs/Dirs/Remove.antt =====
-- `sfs_rmdir` of fs.c for a directory behind the first one.
use class_projects.Base.{
  ℕ, zero, suc, ◌+◌, ◌-◌, ◌*◌, ◌/◌, ◌%◌, ◌≤◌, ◌<◌, ◌≡◌, ◌≢◌, ◌∙◌, refl, sym, true, false, arith,
  ◌==◌, if◌then◌else◌, inr, List, [], ◌∷◌, ◌++◌,
}
use class_projects.Base.Names.{length}
use class_projects.Base.Bytes.{Bytes}
use class_projects.Base.Run.{Returns, returns, bind}
use class_projects.Fs.Word.{u32_end, put_u32, get_u32-put_u32, put_u32-cong}
use class_projects.Fs.{Sfs, sfs_block_size, sfs_read_block, sfs_write_block, next_dir, unlink_loop}
use class_projects.Fs.Dirs.{block, IsChain, get_u32-read}
use class_projects.Fs.Dirs.Last.{AreUsed, last_of, block-raw_word}
use class_projects.Fs.Dirs.Unlink.{
  IsAbsent, IsChain-IsAbsent, IsChain-same, Unlinked, unlink_loop-past,
}
use class_projects.Fs.Freemap.{IsMounted, Marks}
use class_projects.Fs.Image.{free_nonzero}
use class_projects.Fs.Content.Blocks.{raw, IsWhole, read_raw, get_u32-same}
use class_projects.Fs.Content.Span.{write_block-byte, write_block-size}

-- The directory before `gone` is written with the link behind it.
module _ (p gone : ℕ) (dir : Bytes) (fs fs1 : Sfs) (small : fs.fh.size ≤ u32_end)
    (whole : IsWhole fs.fh p) (behind : 2 ≤ p) (marks : Marks (gone - 1) false fs fs1) where
  abbrev next : ℕ
  next = next_dir (block fs.fh gone)

  abbrev linked : Bytes
  linked = put_u32 0 next (sfs_read_block dir p fs)

  abbrev unlinked : Sfs
  unlinked = sfs_write_block linked 0 p fs1

  size1 : fs1.fh.size ≡ fs.fh.size
  size1 = omega (arith, marks.size)

  unlinked-Unlinked : Unlinked p gone fs unlinked
  unlinked-Unlinked =
      let byte : (x : ℕ)
          → x < fs.fh.size
          → unlinked.fh.byte x
            ≡ (if x / sfs_block_size == p then linked (x % sfs_block_size) else fs1.fh.byte x) =
        λ x h.
          write_block-byte fs1 linked p x (omega (arith, size1)) (omega (arith, size1))
            (omega (arith, size1)) in
      record {
        size = write_block-size fs1 linked p (omega (arith, size1)) (omega (arith, size1)) ∙ size1;
        link = λ o h.
            let z : (p * sfs_block_size + o) / sfs_block_size ≡ p = omega arith in
            let z' : (p * sfs_block_size + o) % sfs_block_size ≡ o = omega arith in
            let y : (p == p) ≡ true = ground arith in
            byte (p * sfs_block_size + o) (omega arith)
            ∙ rw (z, z', y)
                (put_u32-cong 0 next (sfs_read_block dir p fs) _ o
                  (read_raw fs dir p o small whole h));
        marks = marks.own;
        outside = λ x h out ne.
            let y : (x / sfs_block_size == p) ≡ false = ground arith in
            byte x h ∙ rw y (marks.outside x h out);
      }

-- The links in the new image.
module _ (p gone : ℕ) (fs fs' : Sfs) (small : fs.fh.size ≤ u32_end)
    (unlinked' : Unlinked p gone fs fs') where
  pub link_same :
      (x : ℕ)
      → IsWhole fs.fh x
      → 2 ≤ x
      → x ≢ p
      → next_dir (block fs'.fh x) ≡ next_dir (block fs.fh x)
  link_same x whole behind ne =
      block-raw_word fs'.fh x 0 (omega (arith, unlinked'.size)) (omega (arith, unlinked'.size))
      ∙ get_u32-same _ _ 0 sfs_block_size (omega arith) (λ o h.
        let z : (x * sfs_block_size + o) / sfs_block_size ≡ x = omega arith in
        unlinked'.outside (x * sfs_block_size + o) (omega arith) (inr (omega arith)) (rw z ne))
      ∙ sym (block-raw_word fs.fh x 0 small whole)

  pub link_new :
      next_dir (block fs.fh gone) < u32_end
      → IsWhole fs.fh p
      → next_dir (block fs'.fh p) ≡ next_dir (block fs.fh gone)
  link_new short whole =
      block-raw_word fs'.fh p 0 (omega (arith, unlinked'.size)) (omega (arith, unlinked'.size))
      ∙ get_u32-same _ _ 0 sfs_block_size (omega arith) unlinked'.link
      ∙ get_u32-put_u32 0 (next_dir (block fs.fh gone)) (raw fs.fh p) short

pub IsAbsent-in : (x gone : ℕ) (xs ys : List ℕ) → IsAbsent x (xs ++ (gone ∷ ys)) → gone ≢ x
IsAbsent-in x gone [] ys a = a.0
IsAbsent-in x gone (y ∷ xs) ys a = IsAbsent-in x gone xs ys a.1

pub IsAbsent-behind : (x gone : ℕ) (xs ys : List ℕ) → IsAbsent x (xs ++ (gone ∷ ys)) → IsAbsent x ys
IsAbsent-behind x gone [] ys a = a.1
IsAbsent-behind x gone (y ∷ xs) ys a = IsAbsent-behind x gone xs ys a.1

pub IsAbsent-last_of : (x y : ℕ) (xs ws : List ℕ) → IsAbsent x (y ∷ (xs ++ ws)) → last_of y xs ≢ x
unfolding last_of
IsAbsent-last_of x y [] ws a = a.0
IsAbsent-last_of x y (z ∷ xs) ws a = IsAbsent-last_of x z xs ws a.1

-- A block with a link is linked to a block of the image.
pub link_bound :
    (fs : Sfs) (b : ℕ) (ids : List ℕ)
    → fs.fh.size ≤ u32_end
    → AreUsed fs.fh fs.freemap ids
    → IsChain fs.fh b ids
    → b < u32_end
unfolding IsChain AreUsed
link_bound fs b [] small us c = omega (arith, c)
link_bound fs b (x ∷ xs) small ((whole, _, _), _) (e, _, _, _) = omega (arith, e)

-- The loop takes the directory out.
pub unlink_loop-Unlinked :
    (k b x : ℕ) (xs : List ℕ) (gone : ℕ) (ys : List ℕ) (dir : Bytes) (fs : Sfs)
    → fs.fh.size ≤ u32_end
    → IsMounted fs
    → gone ≤ 4096
    → IsChain fs.fh b (x ∷ (xs ++ (gone ∷ ys)))
    → AreUsed fs.fh fs.freemap (x ∷ (xs ++ (gone ∷ ys)))
    → length (xs ++ (gone ∷ ys)) < k
    → Returns
        (λ _ fs'. Unlinked (last_of x xs) gone fs fs')
        (unlink_loop k gone (next_dir (block fs.fh gone)) b dir fs)
unfolding unlink_loop IsChain AreUsed last_of
unlink_loop-Unlinked zero b x xs gone ys dir fs small m in_map c us lt = absurd (omega arith)
unlink_loop-Unlinked (suc k) b x [] gone ys dir fs small m in_map (e, ne, inside, rest)
      ((whole, behind, _), (_, us)) lt =
    let (g, g_ne, g_inside, c) = rest in
    let some_block : (x == 0) ≡ false = ground arith in
    let at = get_u32-read fs.fh dir x 0 inside (omega arith) ∙ g in
    let same : (gone == gone) ≡ true = ground arith in
    let absent =
      IsChain-IsAbsent fs.fh _ x (gone ∷ ys) (gone ∷ ys) (refl, ne, inside, rest) rest
        (omega arith) in
    let g_absent = IsChain-IsAbsent fs.fh _ gone ys ys (refl, g_ne, g_inside, c) c (omega arith) in
    let short = link_bound fs (next_dir (block fs.fh gone)) ys small us c in
    rw (e, some_block, at, same)
      (bind (free_nonzero gone fs g_ne in_map m) (λ _ fs1 marks.
        let done_it = unlinked-Unlinked x gone dir fs fs1 small whole behind marks in
        let fs2 = unlinked x gone dir fs fs1 small whole behind marks in
        let behind_it : next_dir (linked x gone dir fs fs1 small whole behind marks)
            ≡ next_dir (block fs.fh gone) =
          get_u32-put_u32 0 (next_dir (block fs.fh gone)) (sfs_read_block dir x fs) short in
        let c2 =
          IsChain-same fs.fh fs2.fh fs.freemap x (next_dir (block fs.fh gone)) ys done_it.size
            (link_same x gone fs fs2 small done_it) us absent.1 c in
        rw
          (
            behind_it,
            unlink_loop-past k (next_dir (block fs.fh gone)) gone (next_dir (block fs.fh gone)) ys
                (linked x gone dir fs fs1 small whole behind marks) fs2 g_ne g_absent c2
                (omega arith),
          )
          (returns done_it)))
unlink_loop-Unlinked (suc k) b x (y ∷ zs) gone ys dir fs small m in_map (e, ne, inside, rest)
      (_, us) lt =
    let (g, g_ne, g_inside, c) = rest in
    let some_block : (x == 0) ≡ false = ground arith in
    let at = get_u32-read fs.fh dir x 0 inside (omega arith) in
    let absent =
      IsChain-IsAbsent fs.fh _ y (zs ++ (gone ∷ ys)) (zs ++ (gone ∷ ys)) (refl, g_ne, g_inside, c) c
        (omega arith) in
    let apart = IsAbsent-in y gone zs ys absent in
    let other : (next_dir (block fs.fh x) == gone) ≡ false = ground arith in
    rw (e, some_block, at, other)
      (unlink_loop-Unlinked k (next_dir (block fs.fh x)) y zs gone ys (sfs_read_block dir x fs) fs
        small m in_map rest us (omega arith))
