-- ===== src/Fs/Files/Room.antt =====
-- A directory of fs.c that does not hold a file, and what `sfs_open` finds there.
use class_projects.Base.{
  ℕ, zero, suc, ◌+◌, ◌-◌, ◌*◌, ◌/◌, ◌≤◌, ◌<◌, ◌≡◌, ◌≢◌, ◌⊎◌, ◌∙◌, refl, true, false, none, some,
  arith, ◌==◌, Bool-cases, inl, inr,
}
use class_projects.Base.Names.{Name, length}
use class_projects.Base.Bytes.{Bytes}
use class_projects.Fs.Word.{u32_end, put_u32}
use class_projects.Fs.{Sfs, sfs_block_size, sfs_read_block, same_string, char_at, dir_inode}
use class_projects.Fs.Freemap.{used, IsMounted}
use class_projects.Fs.Files.{inode_size, first_frame, find_inode, free_inode}
use class_projects.Fs.Content.Blocks.{raw, IsWhole, read_raw, get_u32-same}
use class_projects.Fs.Strings.{same_string-same}

-- A file of the name is not in directory `d`, whose first free place is `i`.
pub record HasRoom (fs : Sfs) (d : ℕ) (name : Name) (i : ℕ) : Type 0 where
  pub small : fs.fh.size ≤ u32_end
  pub dir_whole : IsWhole fs.fh d
  pub dir_behind : 2 ≤ d
  pub dir_used : used fs.freemap (d - 1) ≡ true
  pub place : i < 97
  pub vacant : dir_inode (raw fs.fh d) i ≡ 0
  pub before : (j : ℕ) → j < i → dir_inode (raw fs.fh d) j ≢ 0
  pub others :
      (j : ℕ)
      → j < 97
      → dir_inode (raw fs.fh d) j ≢ 0
      → same_string (raw fs.fh (dir_inode (raw fs.fh d) j)) 8 name ≡ false
  pub inodes :
      (j : ℕ)
      → j < 97
      → dir_inode (raw fs.fh d) j ≢ 0
      → IsWhole fs.fh (dir_inode (raw fs.fh d) j)
        × (2 ≤ dir_inode (raw fs.fh d) j)
        × (dir_inode (raw fs.fh d) j ≢ d)
        × (used fs.freemap (dir_inode (raw fs.fh d) j - 1) ≡ true)

-- What opening a new file leaves: its inode is block `q`, at place `i` of directory `d`.
pub record Created (fd d i q m : ℕ) (name : Name) (fs fs' : Sfs) : Type 0 where
  pub inode : (fs'.fdtable fd).inode_bid ≡ q
  pub cursor : (fs'.fdtable fd).cur ≡ 0
  pub empty : inode_size (fs'.fdtable fd).inode ≡ 0
  pub no_frame : first_frame (fs'.fdtable fd).inode ≡ 0
  pub named : same_string (fs'.fdtable fd).inode 8 name ≡ true
  pub stored : (o : ℕ) → o ≤ length name → (fs'.fdtable fd).inode (8 + o) ≡ char_at name o
  pub behind : 2 ≤ q
  pub below : q ≤ m + 1
  pub was_free : used fs.freemap (q - 1) ≡ false
  pub taken : used fs'.freemap (q - 1) ≡ true
  pub marked : (j : ℕ) → used fs.freemap j ≡ true → used fs'.freemap j ≡ true
  pub later : (j : ℕ) → m < j → used fs'.freemap j ≡ used fs.freemap j
  pub mounted : IsMounted fs'
  pub size : fs'.fh.size ≡ fs.fh.size
  pub dir : (o : ℕ) → o < sfs_block_size → raw fs'.fh d o ≡ put_u32 (124 + 4 * i) q (raw fs.fh d) o
  pub on_disk : (o : ℕ) → o < sfs_block_size → raw fs'.fh q o ≡ (fs'.fdtable fd).inode o
  pub outside :
      (x : ℕ)
      → x < fs.fh.size
      → (x < sfs_block_size) ⊎ (2 * sfs_block_size ≤ x)
      → x / sfs_block_size ≢ d
      → x / sfs_block_size ≢ q
      → fs'.fh.byte x ≡ fs.fh.byte x

module _ (fs : Sfs) (d : ℕ) (name : Name) (i : ℕ) (dir : Bytes) (room : HasRoom fs d name i)
    (short : 8 + length name < sfs_block_size)
    (same : (o : ℕ) → o < sfs_block_size → dir o ≡ raw fs.fh d o) where
  place_same : (j : ℕ) → j < 97 → dir_inode dir j ≡ dir_inode (raw fs.fh d) j
  place_same j h = get_u32-same dir (raw fs.fh d) (124 + 4 * j) sfs_block_size (omega arith) same

  pub find_inode-none :
      (n j : ℕ) (inode : Bytes) → j + n ≤ 97 → (find_inode n j dir inode name fs).0 ≡ none
  unfolding find_inode
  find_inode-none zero j inode le = refl
  find_inode-none (suc n) j inode le =
      let at = place_same j (omega arith) in
      elim (Bool-cases (dir_inode (raw fs.fh d) j == 0)) [
        | inl q ↦ rw (at, q) (find_inode-none n (j + 1) inode (omega arith))
        | inr q ↦
            let ne : dir_inode (raw fs.fh d) j ≢ 0 = ground arith in
            let bid = dir_inode (raw fs.fh d) j in
            let other : same_string (sfs_read_block inode bid fs) 8 name ≡ false =
              same_string-same (sfs_read_block inode bid fs) (raw fs.fh bid) 8 sfs_block_size name
                short
                (λ o _ h. read_raw fs inode bid o room.small (room.inodes j (omega arith) ne).0 h)
              ∙ room.others j (omega arith) ne in
            rw (at, q, other)
              (find_inode-none n (j + 1) (sfs_read_block inode bid fs) (omega arith))
      ]

  pub free_inode-first : (n j : ℕ) → j ≤ i → i < j + n → j + n ≤ 97 → free_inode n j dir ≡ some i
  unfolding free_inode
  free_inode-first zero j le lt fits = absurd (omega arith)
  free_inode-first (suc n) j le lt fits =
      let at = place_same j (omega arith) in
      elim (Bool-cases (j == i)) [
        | inl q ↦
            let z : j ≡ i = ground arith in
            let e : dir_inode dir i ≡ 0 = (rw z at at) ∙ room.vacant in rw (z, e) refl
        | inr q ↦
            let ne = room.before j (ground arith) in
            let e : (dir_inode dir j == 0) ≡ false = ground arith in
            rw e (free_inode-first n (j + 1) (ground arith) (omega arith) (omega arith))
      ]
