-- ===== src/Fs/Dirs/Append.antt =====
-- The image of fs.c after a new directory was put at the end of the list.
use class_projects.Base.{
  ℕ, ◌+◌, ◌-◌, ◌*◌, ◌/◌, ◌%◌, ◌≤◌, ◌<◌, ◌≡◌, ◌≢◌, ◌⊎◌, ◌∙◌, refl, ap, true, false, arith, ◌==◌,
  if◌then◌else◌, Bool-cases, inl, inr, List, [], ◌∷◌, ◌++◌,
}
use class_projects.Base.Names.{Name, length}
use class_projects.Base.Bytes.{Bytes}
use class_projects.Fs.Word.{u32_end, put_u32, get_u32-put_u32, get_u32-put_u32_other}
use class_projects.Fs.{
  Sfs, sfs_block_size, sfs_write_block, sb_first_dir, sb_nfreemap_blocks, new_dir, dir_inode,
  same_string,
}
use class_projects.Fs.Dirs.{block, IsChain, HasDirs}
use class_projects.Fs.Strings.{same_string-same}
use class_projects.Fs.Freemap.{used}
use class_projects.Fs.Image.{IsFormatted}
use class_projects.Fs.Content.Blocks.{raw, IsWhole, get_u32-same}
use class_projects.Fs.Content.Span.{two_blocks-byte, two_blocks-size}
use class_projects.Fs.Content.Fills.{Takes}
use class_projects.Fs.Dirs.Last.{
  new_dir-next, new_dir-empty, new_dir-named, put_u32_far, AreUsed, Last, block-raw_word, last_of,
  link_of, IsChain-append,
}

-- Directory `b` is new, and the last one.
pub record Appends (ids : List ℕ) (m b : ℕ) (name : Name) (fs fs' : Sfs) : Type 0 where
  pub dirs : HasDirs fs'.fh (ids ++ (b ∷ []))
  pub named : same_string (raw fs'.fh b) 4 name ≡ true
  pub empty : (j : ℕ) → j < 97 → dir_inode (raw fs'.fh b) j ≡ 0
  pub was_free : used fs.freemap (b - 1) ≡ false
  pub taken : used fs'.freemap (b - 1) ≡ true
  pub behind : 2 ≤ b
  pub below : b ≤ m + 1
  pub marked : (j : ℕ) → used fs.freemap j ≡ true → used fs'.freemap j ≡ true
  pub later : (j : ℕ) → m < j → used fs'.freemap j ≡ used fs.freemap j
  pub fdtable : fs'.fdtable ≡ fs.fdtable
  pub formatted : sb_nfreemap_blocks (block fs.fh 0) ≡ 1 → IsFormatted fs'
  pub size : fs'.fh.size ≡ fs.fh.size
  pub outside :
      (x : ℕ)
      → x < fs.fh.size
      → (x < sfs_block_size) ⊎ (2 * sfs_block_size ≤ x)
      → x / sfs_block_size ≢ b
      → (x / sfs_block_size ≢ link_of ids) ⊎ (16 ≤ x % sfs_block_size)
      → fs'.fh.byte x ≡ fs.fh.byte x

-- A block of the image that was allocated.
module _ (m b : ℕ) (name : Name) (fs fs1 : Sfs) (short : 4 + length name < 124)
    (small : fs.fh.size ≤ u32_end) (inside : m + 1 < fs.fh.size / sfs_block_size)
    (takes : Takes 1 m b fs fs1) where
  size1 : fs1.fh.size ≡ fs.fh.size
  size1 = omega (arith, takes.keeps.size)

  b-IsWhole : IsWhole fs1.fh b
  b-IsWhole = omega (arith, size1, takes.below)

  ne_used : (x : ℕ) → used fs.freemap (x - 1) ≡ true → x ≢ b
  ne_used x in_use e = let f = takes.free in absurd (let g = rw e at in_use in cc)

  -- Behind the last of some directories.
  module _ (x : ℕ) (xs : List ℕ) (l : ℕ) (dir : Bytes) (is_last : last_of x xs ≡ l)
      (last : Last fs l dir) (dirs : HasDirs fs.fh (x ∷ xs))
      (us : AreUsed fs.fh fs.freemap (x ∷ xs)) (full : used fs.freemap 0 ≡ true) where
    abbrev appended : Sfs
    appended =
        sfs_write_block (new_dir name (put_u32 0 b dir)) 0 b
          (sfs_write_block (put_u32 0 b dir) 0 l fs1)

    appended_byte :
        (a : ℕ)
        → a < fs.fh.size
        → appended.fh.byte a ≡ (
            if a / sfs_block_size == b
            then new_dir name (put_u32 0 b dir) (a % sfs_block_size)
            else if a / sfs_block_size == l
            then put_u32 0 b dir (a % sfs_block_size)
            else fs1.fh.byte a)
    appended_byte a lt =
        two_blocks-byte fs1 (put_u32 0 b dir) (new_dir name (put_u32 0 b dir)) l b
          (omega (arith, size1)) (omega (arith, size1, last.whole)) b-IsWhole a
          (omega (arith, size1))

    appended_size : appended.fh.size ≡ fs.fh.size
    appended_size =
        two_blocks-size fs1 (put_u32 0 b dir) (new_dir name (put_u32 0 b dir)) l b
          (omega (arith, size1)) (omega (arith, size1, last.whole)) b-IsWhole
        ∙ size1

    raw_new : (o : ℕ) → o < sfs_block_size → raw appended.fh b o ≡ new_dir name (put_u32 0 b dir) o
    raw_new o h =
        let z : (b * sfs_block_size + o) / sfs_block_size ≡ b = omega arith in
        let z' : (b * sfs_block_size + o) % sfs_block_size ≡ o = omega arith in
        let y : (b == b) ≡ true = ground arith in
        appended_byte (b * sfs_block_size + o) (omega (arith, b-IsWhole, size1)) ∙ rw (z, z', y)

    raw_last : (o : ℕ) → o < sfs_block_size → raw appended.fh l o ≡ put_u32 0 b dir o
    raw_last o h =
        let z : (l * sfs_block_size + o) / sfs_block_size ≡ l = omega arith in
        let z' : (l * sfs_block_size + o) % sfs_block_size ≡ o = omega arith in
        let y : (l == b) ≡ false = let n = ne_used l last.in_use in ground arith in
        let y' : (l == l) ≡ true = ground arith in
        appended_byte (l * sfs_block_size + o) (omega (arith, last.whole)) ∙ rw (z, z', y, y')

    raw_other :
        (x' o : ℕ)
        → IsWhole fs.fh x'
        → (x' ≡ 0) ⊎ (2 ≤ x')
        → used fs.freemap (x' - 1) ≡ true
        → x' ≢ l
        → o < sfs_block_size
        → raw appended.fh x' o ≡ raw fs.fh x' o
    raw_other x' o whole out in_use ne h =
        let z : (x' * sfs_block_size + o) / sfs_block_size ≡ x' = omega arith in
        let y : (x' == b) ≡ false = let n = ne_used x' in_use in ground arith in
        let y' : (x' == l) ≡ false = ground arith in
        appended_byte (x' * sfs_block_size + o) (omega arith)
        ∙ rw (z, y, y')
            (takes.keeps.outside (x' * sfs_block_size + o) (omega arith)
              (elim out [ inl e ↦ inl (omega arith) | inr t ↦ inr (omega arith) ]))

    pub appended-Appends : Appends (x ∷ xs) m b name fs appended
    unfolding link_of
    appended-Appends =
        let (inside0, chain) = dirs in
        let behind = takes.above in
        record {
          dirs = (
            omega (arith, appended_size),
            rw
                (get_u32-same (block appended.fh 0) (block fs.fh 0) 12 sfs_block_size (omega arith)
                  (λ o h.
                    raw_other 0 o (omega arith) (inl refl) full (λ e. omega (arith, e, last.behind))
                      h))
                (IsChain-append fs appended.fh l b small appended_size
                  (omega (arith, b-IsWhole, size1)) (λ e. omega arith)
                  (get_u32-same _ _ 0 sfs_block_size (omega arith) raw_new
                    ∙ new_dir-next name (put_u32 0 b dir))
                  (get_u32-same _ _ 0 sfs_block_size (omega arith) raw_last
                    ∙ get_u32-put_u32 0 b dir (omega (arith, b-IsWhole, size1)))
                  last.no_next
                  (λ x' whole behind' in_use ne.
                    get_u32-same _ _ 0 sfs_block_size (omega arith)
                      (λ o h. raw_other x' o whole (inr behind') in_use ne h))
                  (sb_first_dir (block fs.fh 0)) x xs chain us is_last),
          );
          named =
              same_string-same (raw appended.fh b) (new_dir name (put_u32 0 b dir)) 4 sfs_block_size
                name (omega arith) (λ o _ h. raw_new o h)
              ∙ new_dir-named name (put_u32 0 b dir) short;
          empty = λ j h.
              get_u32-same _ _ (124 + 4 * j) sfs_block_size (omega arith) raw_new
              ∙ new_dir-empty name (put_u32 0 b dir) j h;
          was_free = takes.free;
          taken = takes.taken (b - 1) (omega arith);
          behind = takes.above;
          below = takes.below;
          marked = takes.keeps.marked;
          later = takes.later;
          fdtable = takes.keeps.fdtable;
          formatted = λ one. record {
            inside = omega (arith, appended_size);
            bytes = takes.keeps.mounted.bytes;
            words = takes.keeps.mounted.words;
            blocks =
                get_u32-same (block appended.fh 0) (block fs.fh 0) 8 sfs_block_size (omega arith)
                  (λ o h.
                    raw_other 0 o (omega arith) (inl refl) full (λ e. omega (arith, e, last.behind))
                      h)
                ∙ one;
          };
          size = appended_size;
          outside = λ a lt out nb far.
              let y : (a / sfs_block_size == b) ≡ false = ground arith in
              appended_byte a lt ∙ elim (Bool-cases (a / sfs_block_size == l)) [
                | inr q ↦ rw (y, q) (takes.keeps.outside a lt out)
                | inl q ↦
                    let at_link : link_of (x ∷ xs) ≡ l = is_last in
                    let same_block : a / sfs_block_size ≡ l = ground arith in
                    let z : l * sfs_block_size + a % sfs_block_size ≡ a = ground arith in
                    let far' : 16 ≤ a % sfs_block_size = elim far [
                      | inl off ↦ absurd (off (omega (arith, at_link, same_block)))
                      | inr h ↦ h
                    ] in
                    rw (y, q)
                      (put_u32_far 0 b dir (a % sfs_block_size) (omega arith)
                        ∙ last.same (a % sfs_block_size) (omega arith)
                        ∙ ap (λ x'. fs.fh.byte x') z)
              ];
        }

  -- The first directory.
  module _ (dir : Bytes) (dirs : HasDirs fs.fh [])
      (read : (o : ℕ) → o < sfs_block_size → fs1.sb o ≡ fs.fh.byte o)
      (full : used fs.freemap 0 ≡ true) where
    abbrev started : Sfs
    started =
        sfs_write_block (put_u32 12 b fs1.sb) 0 0
          (record (sfs_write_block (new_dir name dir) 0 b fs1) { sb = put_u32 12 b fs1.sb })

    started_byte :
        (a : ℕ)
        → a < fs.fh.size
        → started.fh.byte a ≡ (
            if a / sfs_block_size == 0
            then put_u32 12 b fs1.sb (a % sfs_block_size)
            else if a / sfs_block_size == b
            then new_dir name dir (a % sfs_block_size)
            else fs1.fh.byte a)
    started_byte a lt =
        two_blocks-byte fs1 (new_dir name dir) (put_u32 12 b fs1.sb) b 0 (omega (arith, size1))
          b-IsWhole (omega (arith, size1)) a (omega (arith, size1))

    started_size : started.fh.size ≡ fs.fh.size
    started_size =
        two_blocks-size fs1 (new_dir name dir) (put_u32 12 b fs1.sb) b 0 (omega (arith, size1))
          b-IsWhole (omega (arith, size1))
        ∙ size1

    raw_first : (o : ℕ) → o < sfs_block_size → raw started.fh b o ≡ new_dir name dir o
    raw_first o h =
        let z : (b * sfs_block_size + o) / sfs_block_size ≡ b = omega arith in
        let z' : (b * sfs_block_size + o) % sfs_block_size ≡ o = omega arith in
        let y : (b == b) ≡ true = ground arith in
        let y' : (b == 0) ≡ false = let a = takes.above in ground arith in
        started_byte (b * sfs_block_size + o) (omega (arith, b-IsWhole, size1)) ∙ rw (z, z', y, y')

    raw_super : (o : ℕ) → o < sfs_block_size → block started.fh 0 o ≡ put_u32 12 b fs1.sb o
    raw_super o h =
        let z : (0 + o) / sfs_block_size ≡ 0 = omega arith in
        let z' : (0 + o) % sfs_block_size ≡ o = omega arith in
        started_byte (0 + o) (omega arith) ∙ rw (z, z')

    pub started-Appends : Appends [] m b name fs started
    unfolding IsChain link_of
    started-Appends =
        let behind = takes.above in
        record {
          dirs = (
            omega (arith, started_size),
            (
              get_u32-same _ _ 12 sfs_block_size (omega arith) raw_super
                  ∙ get_u32-put_u32 12 b fs1.sb (omega (arith, b-IsWhole, size1)),
              (λ e. omega arith),
              omega (arith, started_size, b-IsWhole, size1),
              block-raw_word started.fh b 0 (omega (arith, started_size))
                    (omega (arith, started_size, b-IsWhole, size1))
                  ∙ get_u32-same _ _ 0 sfs_block_size (omega arith) raw_first
                  ∙ new_dir-next name dir,
            ),
          );
          named =
              same_string-same (raw started.fh b) (new_dir name dir) 4 sfs_block_size name
                (omega arith) (λ o _ h. raw_first o h)
              ∙ new_dir-named name dir short;
          empty = λ j h.
              get_u32-same _ _ (124 + 4 * j) sfs_block_size (omega arith) raw_first
              ∙ new_dir-empty name dir j h;
          was_free = takes.free;
          taken = takes.taken (b - 1) (omega arith);
          behind = takes.above;
          below = takes.below;
          marked = takes.keeps.marked;
          later = takes.later;
          fdtable = takes.keeps.fdtable;
          formatted = λ one. record {
            inside = omega (arith, started_size);
            bytes = takes.keeps.mounted.bytes;
            words = takes.keeps.mounted.words;
            blocks =
                get_u32-same _ _ 8 sfs_block_size (omega arith) raw_super
                ∙ get_u32-put_u32_other 12 8 b fs1.sb (inl (omega arith))
                ∙ get_u32-same fs1.sb (block fs.fh 0) 8 sfs_block_size (omega arith)
                    (λ o h. let z : 0 + o ≡ o = omega arith in rw (z, block) (read o h))
                ∙ one;
          };
          size = started_size;
          outside = λ a lt out nb far.
              let y : (a / sfs_block_size == b) ≡ false = ground arith in
              started_byte a lt ∙ elim (Bool-cases (a / sfs_block_size == 0)) [
                | inr q ↦ rw (y, q) (takes.keeps.outside a lt out)
                | inl q ↦
                    let z : a % sfs_block_size ≡ a = ground arith in
                    let far' : 16 ≤ a % sfs_block_size = elim far [
                      | inl off ↦ absurd (off (ground arith))
                      | inr h ↦ h
                    ] in
                    rw q (
                      put_u32_far 12 b fs1.sb (a % sfs_block_size) (omega arith)
                      ∙ read (a % sfs_block_size) (omega arith)
                      ∙ ap (λ x'. fs.fh.byte x') z)
              ];
        }
