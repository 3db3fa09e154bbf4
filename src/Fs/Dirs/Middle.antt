-- ===== src/Fs/Dirs/Middle.antt =====
-- The list of directories of fs.c after `sfs_rmdir` of one behind the first.
use class_projects.Base.{
  ℕ, ◌+◌, ◌≤◌, ◌<◌, ◌≡◌, ◌≢◌, ◌∙◌, refl, sym, true, false, arith, ◌==◌, inl, List, [], ◌∷◌, ◌++◌,
}
use class_projects.Base.Names.{Name, length}
use class_projects.Base.Bytes.{Bytes, File}
use class_projects.Base.Run.{Returns, returns, bind}
use class_projects.Fs.Word.{u32_end}
use class_projects.Fs.{
  Sfs, sfs_block_size, sfs_read_block, read_sb, sb_first_dir, next_dir, no_inodes, sfs_rmdir,
}
use class_projects.Fs.Dirs.{
  block, IsInside, IsChain, HasDirs, first_named, get_u32-read, sfs_find_dir-first,
}
use class_projects.Fs.Dirs.Last.{AreUsed, last_of}
use class_projects.Fs.Dirs.Unlink.{IsAbsent, IsChain-IsAbsent, IsChain-same, Unlinked}
use class_projects.Fs.Dirs.Remove.{
  link_same, link_new, link_bound, IsAbsent-in, IsAbsent-last_of, unlink_loop-Unlinked,
}
use class_projects.Fs.Image.{IsFormatted, read_sb-IsMounted, read_sb-IsFormatted, no_inodes-read}
use class_projects.Fs.Content.Blocks.{get_u32-same}

IsAbsent-same : (x p : ℕ) (ids : List ℕ) → x ≡ p → IsAbsent x ids → IsAbsent p ids
IsAbsent-same x p [] e a = tt
IsAbsent-same x p (y ∷ ys) e (ne, a) = ((λ z. ne (z ∙ sym e)), IsAbsent-same x p ys e a)

IsChain-unlink :
    (p gone : ℕ) (fs fs' : Sfs) (b x : ℕ) (xs ys : List ℕ)
    → fs.fh.size ≤ u32_end
    → Unlinked p gone fs fs'
    → IsChain fs.fh b (x ∷ (xs ++ (gone ∷ ys)))
    → AreUsed fs.fh fs.freemap (x ∷ (xs ++ (gone ∷ ys)))
    → last_of x xs ≡ p
    → IsChain fs'.fh b (x ∷ (xs ++ ys))
unfolding IsChain AreUsed last_of
IsChain-unlink p gone fs fs' b x [] ys small unlinked (e, ne, inside, rest)
      ((whole, behind, _), (_, us)) is_last =
    let at_last : x ≡ p = is_last in
    let (g, g_ne, g_inside, c) = rest in
    let absent =
      IsChain-IsAbsent fs.fh _ x (gone ∷ ys) (gone ∷ ys) (refl, ne, inside, rest) rest
        (omega arith) in
    let link =
      link_new p gone fs fs' small unlinked
        (link_bound fs (next_dir (block fs.fh gone)) ys small us c) (rw at_last at whole) in
    (
      e,
      ne,
      omega (arith, unlinked.size),
      rw (at_last, link)
          (IsChain-same fs.fh fs'.fh fs.freemap p (next_dir (block fs.fh gone)) ys unlinked.size
            (link_same p gone fs fs' small unlinked) us (IsAbsent-same x p ys at_last absent.1) c),
    )
IsChain-unlink p gone fs fs' b x (y ∷ zs) ys small unlinked (e, ne, inside, rest)
      ((whole, behind, _), us) is_last =
    let absent =
      IsChain-IsAbsent fs.fh _ x (y ∷ (zs ++ (gone ∷ ys))) (y ∷ (zs ++ (gone ∷ ys)))
        (refl, ne, inside, rest) rest (omega arith) in
    let apart : x ≢ p = λ z. IsAbsent-last_of x y zs (gone ∷ ys) absent (is_last ∙ sym z) in
    (
      e,
      ne,
      omega (arith, unlinked.size),
      rw (link_same p gone fs fs' small unlinked x whole behind apart) (
          IsChain-unlink p gone fs fs' (next_dir (block fs.fh x)) y zs ys small unlinked rest us
            is_last),
    )

IsChain-in :
    (f : File) (b x : ℕ) (xs : List ℕ) (gone : ℕ) (ys : List ℕ)
    → IsChain f b (x ∷ (xs ++ (gone ∷ ys)))
    → (gone ≢ 0) × IsInside f gone
unfolding IsChain
IsChain-in f b x [] gone ys (_, _, _, (_, ne, inside, _)) = (ne, inside)
IsChain-in f b x (y ∷ zs) gone ys (_, _, _, rest) =
    IsChain-in f (next_dir (block f x)) y zs gone ys rest

AreUsed-behind :
    (f : File) (map : Bytes) (x : ℕ) (xs ws : List ℕ)
    → AreUsed f map (x ∷ (xs ++ ws))
    → 2 ≤ last_of x xs
unfolding AreUsed last_of
AreUsed-behind f map x [] ws ((_, behind, _), _) = behind
AreUsed-behind f map x (y ∷ zs) ws (_, us) = AreUsed-behind f map y zs ws us

not_first :
    (f : File) (b x : ℕ) (xs : List ℕ) (gone : ℕ) (ys : List ℕ)
    → IsChain f b (x ∷ (xs ++ (gone ∷ ys)))
    → (b == gone) ≡ false
unfolding IsChain
not_first f b x xs gone ys (e, ne, inside, rest) =
    let absent =
      IsChain-IsAbsent f (next_dir (block f x)) x (xs ++ (gone ∷ ys)) (xs ++ (gone ∷ ys))
        (refl, ne, inside, rest) rest (omega arith) in
    let apart = IsAbsent-in x gone xs ys absent in ground arith

-- Removing an empty directory that is not the first of the list succeeds and takes just this one out of
-- the list: those before and behind it stay, in their order. Its block is free, the other marks are as
-- before, the directory before it has its link, and nothing else in the image changes but the freemap.
-- The directories are in use, the freemap has one block, and `k` is above the number of directories.
pub sfs_rmdir-Unlinked :
    (k : ℕ) (name : Name) (x : ℕ) (xs : List ℕ) (gone : ℕ) (ys : List ℕ) (dir : Bytes) (fs : Sfs)
    → 4 + length name < sfs_block_size
    → HasDirs fs.fh (x ∷ (xs ++ (gone ∷ ys)))
    → length (x ∷ (xs ++ (gone ∷ ys))) < k
    → first_named fs.fh name (x ∷ (xs ++ (gone ∷ ys))) ≡ gone
    → no_inodes 97 0 (block fs.fh gone) ≡ true
    → AreUsed fs.fh fs.freemap (x ∷ (xs ++ (gone ∷ ys)))
    → IsFormatted fs
    → fs.fh.size ≤ u32_end
    → gone ≤ 4096
    → Returns
        (λ r fs'.
          (r ≡ true) × HasDirs fs'.fh (x ∷ (xs ++ ys)) × Unlinked (last_of x xs) gone fs fs')
        (sfs_rmdir k dir name fs)
unfolding sfs_rmdir
sfs_rmdir-Unlinked k name x xs gone ys dir fs short dirs lt named empty us formatted small in_map =
    let (inside0, chain) = dirs in
    let fs1 = read_sb (read_sb fs) in
    let again = read_sb-IsFormatted fs formatted in
    let (ne, inside) = IsChain-in fs.fh _ x xs gone ys chain in
    let some_block : (gone == 0) ≡ false = ground arith in
    let at_first : sb_first_dir fs1.sb ≡ sb_first_dir (block fs.fh 0) =
      get_u32-read fs.fh (read_sb fs).sb 0 12 inside0 (omega arith) in
    let link = get_u32-read fs.fh dir gone 0 inside (omega arith) in
    let apart : (sb_first_dir (block fs.fh 0) == gone) ≡ false =
      not_first fs.fh (sb_first_dir (block fs.fh 0)) x xs gone ys chain in
    rw
      (
        sfs_find_dir-first k name (x ∷ (xs ++ (gone ∷ ys))) dir (read_sb fs) short dirs lt,
        named,
        some_block,
        no_inodes-read fs.fh dir gone 97 0 inside (omega arith),
        empty,
        at_first,
        apart,
        link,
      )
      (bind
        (unlink_loop-Unlinked k (sb_first_dir (block fs.fh 0)) x xs gone ys
          (sfs_read_block dir gone fs1) fs1 small (read_sb-IsMounted (read_sb fs) again) in_map
          chain us (omega arith))
        (λ _ fs2 u.
          let unlinked : Unlinked (last_of x xs) gone fs fs2 = record {
            size = u.size;
            link = u.link;
            marks = u.marks;
            outside = u.outside;
          } in
          let behind = AreUsed-behind fs.fh fs.freemap x xs (gone ∷ ys) us in
          let super : sb_first_dir (block fs2.fh 0) ≡ sb_first_dir (block fs.fh 0) =
            get_u32-same _ _ 12 sfs_block_size (omega arith) (λ o h.
              unlinked.outside (0 + o) (omega arith) (inl (omega arith)) (λ e. omega (arith, e))) in
          returns (
            refl,
            (
              omega (arith, unlinked.size),
              rw super (
                  IsChain-unlink (last_of x xs) gone fs fs2 (sb_first_dir (block fs.fh 0)) x xs ys
                    small unlinked chain us refl),
            ),
            unlinked,
          )))
