-- ===== src/Fs/Dirs.antt =====
-- The list of directories of fs.c: `sfs_find_dir` and `sfs_lsdir` against the list that the blocks hold.
pub mod Last
pub mod Append
pub mod New
pub mod Unlink
pub mod Remove
pub mod Middle
mod Tests
use class_projects.Base.{
  ℕ, zero, suc, ◌+◌, ◌≤◌, ◌<◌, ◌≡◌, ◌≢◌, ◌∙◌, false, arith, [], ◌∷◌, List, if◌then◌else◌, ◌==◌, inl,
  inr, Bool-cases,
}
use class_projects.Base.Names.{Name, length}
use class_projects.Base.Bytes.{Bytes, File, file_read}
use class_projects.Base.Run.{done}
use class_projects.Fs.Word.{get_u32}
use class_projects.Fs.{
  Sfs, sfs_block_size, sfs_at, sfs_read_block, read_sb, sb_first_dir, next_dir, same_string,
  find_dir_loop, sfs_find_dir, sfs_mkdir, lsdir_loop, sfs_lsdir,
}

-- Block `bid` of the image, and whether it lies in the file.
abbrev pub block : File → ℕ → Bytes
block f bid o = f.byte (sfs_at bid + o)

abbrev pub IsInside : File → ℕ → Type 0
IsInside f bid = sfs_at bid + sfs_block_size ≤ f.size

-- The directories from block `b` on are the blocks `ids`, in this order, linked by `next_dir`.
unfoldable pub IsChain : File → ℕ → List ℕ → Type 0
IsChain f b [] = b ≡ 0
IsChain f b (x ∷ xs) = (b ≡ x) × (x ≢ 0) × IsInside f x × IsChain f (next_dir (block f x)) xs

-- The directories of an image.
abbrev pub HasDirs : File → List ℕ → Type 0
HasDirs f ids = IsInside f 0 × IsChain f (sb_first_dir (block f 0)) ids

-- The first of the directories `ids` that has the name, and 0 where none has it.
unfoldable pub first_named : File → Name → List ℕ → ℕ
first_named f name [] = 0
first_named f name (x ∷ xs) = if same_string (block f x) 4 name then x else first_named f name xs

pub get_u32-read :
    (f : File) (dir : Bytes) (bid p : ℕ)
    → IsInside f bid
    → p + 4 ≤ sfs_block_size
    → get_u32 (file_read f (sfs_at bid) sfs_block_size dir) p ≡ get_u32 (block f bid) p
unfolding get_u32
get_u32-read f dir bid p inside le = let at = sfs_at bid in ground arith

pub same_string-read :
    (f : File) (dir : Bytes) (bid p : ℕ) (name : Name)
    → IsInside f bid
    → p + length name < sfs_block_size
    → same_string (file_read f (sfs_at bid) sfs_block_size dir) p name
      ≡ same_string (block f bid) p name
unfolding same_string
same_string-read f dir bid p [] inside le = ground arith
same_string-read f dir bid p (c ∷ cs) inside le =
    ground (arith, same_string-read f dir bid (p + 1) cs inside)

module _ (name : Name) (short : 4 + length name < sfs_block_size) (fs : Sfs) where
  find_dir_loop-first :
      (k b : ℕ) (ids : List ℕ) (dir : Bytes)
      → IsChain fs.fh b ids
      → length ids < k
      → find_dir_loop k name b dir fs ≡ done (first_named fs.fh name ids) fs
  unfolding find_dir_loop first_named IsChain
  find_dir_loop-first zero b ids dir chain lt = absurd (omega arith)
  find_dir_loop-first (suc k) b [] dir chain lt = ground arith
  find_dir_loop-first (suc k) b (x ∷ xs) dir (e, ne, inside, chain) lt =
      let some_block : (x == 0) ≡ false = ground arith in
      rw (e, some_block, same_string-read fs.fh dir x 4 name inside short)
        (elim (Bool-cases (same_string (block fs.fh x) 4 name)) [
          | inl here ↦ rw here
          | inr other ↦
              rw (other, get_u32-read fs.fh dir x 0 inside (omega arith))
                (find_dir_loop-first k (next_dir (block fs.fh x)) xs (sfs_read_block dir x fs) chain
                  (omega arith))
        ])

-- `sfs_find_dir` on an image that has the directories `ids`, with `k` above their number, ends with the
-- first of them that has the name, and with 0 where none has it. It changes only the superblock in
-- memory, which it reads again. The name fits a block.
pub sfs_find_dir-first :
    (k : ℕ) (name : Name) (ids : List ℕ) (dir : Bytes) (fs : Sfs)
    → 4 + length name < sfs_block_size
    → HasDirs fs.fh ids
    → length ids < k
    → sfs_find_dir k dir name fs ≡ done (first_named fs.fh name ids) (read_sb fs)
unfolding sfs_find_dir
sfs_find_dir-first k name ids dir fs short (inside, chain) lt =
    rw (get_u32-read fs.fh fs.sb 0 12 inside (omega arith)) (
      find_dir_loop-first name short (read_sb fs) k (sb_first_dir (block fs.fh 0)) ids dir chain lt)

-- `sfs_mkdir` of a directory that is there fails and changes nothing but the superblock in memory, which
-- it reads again.
pub sfs_mkdir-existing :
    (k : ℕ) (name : Name) (ids : List ℕ) (dir : Bytes) (fs : Sfs)
    → 4 + length name < sfs_block_size
    → HasDirs fs.fh ids
    → length ids < k
    → first_named fs.fh name ids ≢ 0
    → sfs_mkdir k dir name fs ≡ done false (read_sb (read_sb fs))
unfolding sfs_mkdir
sfs_mkdir-existing k name ids dir fs short dirs lt ne =
    let found : (first_named fs.fh name ids == 0) ≡ false = ground arith in
    rw (sfs_find_dir-first k name ids dir (read_sb fs) short dirs lt, found)

lsdir_loop-counts :
    (k n b : ℕ) (ids : List ℕ) (dir : Bytes) (fs : Sfs)
    → IsChain fs.fh b ids
    → length ids < k
    → lsdir_loop k n b dir fs ≡ done (n + length ids) fs
unfolding lsdir_loop IsChain
lsdir_loop-counts zero n b ids dir fs chain lt = absurd (omega arith)
lsdir_loop-counts (suc k) n b [] dir fs chain lt = ground arith
lsdir_loop-counts (suc k) n b (x ∷ xs) dir fs (e, ne, inside, chain) lt =
    let some_block : (x == 0) ≡ false = ground arith in
    let count : n + 1 + length xs ≡ n + suc (length xs) = omega arith in
    rw (e, some_block, get_u32-read fs.fh dir x 0 inside (omega arith))
      (lsdir_loop-counts k (n + 1) (next_dir (block fs.fh x)) xs (sfs_read_block dir x fs) fs chain
          (omega arith)
        ∙ rw count)

-- `sfs_lsdir` on an image that has the directories `ids`, with `k` above their number, ends with their
-- number.
sfs_lsdir-counts :
    (k : ℕ) (ids : List ℕ) (dir : Bytes) (fs : Sfs)
    → HasDirs fs.fh ids
    → length ids < k
    → sfs_lsdir k dir fs ≡ done (length ids) (read_sb fs)
unfolding sfs_lsdir
sfs_lsdir-counts k ids dir fs (inside, chain) lt =
    rw (get_u32-read fs.fh fs.sb 0 12 inside (omega arith)) (
      lsdir_loop-counts k 0 (sb_first_dir (block fs.fh 0)) ids dir (read_sb fs) chain lt
      ∙ (let z : 0 + length ids ≡ length ids = omega arith in rw z))
