-- ===== src/Dfs/LocalFs/Owned.antt =====
-- The blocks of the files that the datanode of exta2.c keeps: each block in use has one owner.
use class_projects.Base.{
  ℕ, ◌+◌, ◌-◌, ◌*◌, ◌/◌, ◌%◌, ◌≤◌, ◌<◌, ◌≡◌, ◌≢◌, ◌∙◌, sym, true, arith, [], ◌∷◌,
}
use class_projects.Base.Names.{Name, length}
use class_projects.Base.Bytes.{Bytes, File}
use class_projects.Fs.{sfs_block_size, char_at}
use class_projects.Fs.Word.{u32_end, get_u32}
use class_projects.Fs.Dirs.{block, IsChain, HasDirs}
use class_projects.Fs.Freemap.{used}
use class_projects.Fs.Files.{first_frame, inode_size}
use class_projects.Fs.Content.Blocks.{
  raw, IsWhole, frame_bid, content_bid, content_bid-same, get_u32-same,
}
use class_projects.Fs.Content.Flat.{blocks_of, IsFile, file_byte}
use class_projects.Dfs.Types.{dfs_block_size}
use class_projects.Dfs.LocalFs.Reads.{IsFile-same, block-raw}

-- Block `c` is in use, behind the freemap, and its owner is `t`: 0 for a directory, 1 for the inodes
-- and the frames, and a larger one for the content of each file.
pub record IsOwn (f : File) (map : Bytes) (owner : ℕ → ℕ) (t c : ℕ) : Type 0 where
  pub whole : IsWhole f c
  pub behind : 2 ≤ c
  pub in_use : used map (c - 1) ≡ true
  pub tag : owner c ≡ t

-- The inode in block `q` has the name, one frame, and the blocks of owner `t` for its content.
pub record Placed (f : File) (map : Bytes) (owner : ℕ → ℕ) (t q : ℕ) (name : Name) : Type 0 where
  pub inode : IsOwn f map owner 1 q
  pub stored : (o : ℕ) → o ≤ length name → raw f q (8 + o) ≡ char_at name o
  pub long : blocks_of (raw f q) ≡ 127
  pub frame : IsOwn f map owner 1 (first_frame (raw f q))
  pub blocks : (i : ℕ) → i < 127 → IsOwn f map owner t (content_bid f (first_frame (raw f q)) i)

-- The file of a block, with the content.
pub record FileAt (f : File) (map : Bytes) (owner : ℕ → ℕ) (t q : ℕ) (name : Name) (content : Bytes)
    : Type 0 where
  pub placed : Placed f map owner t q name
  pub file : IsFile f (raw f q)
  pub own : (o : ℕ) → o < dfs_block_size → file_byte f (raw f q) o ≡ content o

-- Only the blocks of owner `t` change, and blocks that were not in use.
pub record Spares (t : ℕ) (f : File) (map : Bytes) (owner : ℕ → ℕ) (f' : File) (map' : Bytes)
    (owner' : ℕ → ℕ) : Type 0 where
  pub size : f'.size ≡ f.size
  pub marked : (j : ℕ) → used map j ≡ true → used map' j ≡ true
  pub super : (o : ℕ) → o < sfs_block_size → f'.byte o ≡ f.byte o
  pub tags : (c : ℕ) → used map (c - 1) ≡ true → owner' c ≡ owner c
  pub kept :
      (u c o : ℕ) → IsOwn f map owner u c → u ≢ t → o < sfs_block_size → raw f' c o ≡ raw f c o

-- A file with one frame depends on the frame only.
pub IsFile-frame :
    (f f' : File) (inode : Bytes)
    → f'.size ≡ f.size
    → blocks_of inode ≡ 127
    → ((o : ℕ) → o < sfs_block_size → raw f' (first_frame inode) o ≡ raw f (first_frame inode) o)
    → IsFile f inode
    → IsFile f' inode
unfolding frame_bid
IsFile-frame f f' inode size long same file =
    let first = first_frame inode in
    let at : (i : ℕ) → i < blocks_of inode → content_bid f' first i ≡ content_bid f first i =
      λ i h. content_bid-same f f' first i (omega (arith, long)) same in
    let one : (k : ℕ) → k * 127 < blocks_of inode → k ≡ 0 = λ k h. omega (arith, long) in
    record {
      small = omega (arith, file.small, size);
      short = file.short;
      frames = λ k h. rw (one k h) (omega (arith, size, file.frames 0 (omega (arith, long))));
      blocks = λ i h. rw (at i h) (omega (arith, size, file.blocks i h));
      distinct = λ i j h h' e. file.distinct i j h h' (sym (at i h) ∙ e ∙ at j h');
      apart = λ i k h h' e.
          file.apart i 0 h (omega (arith, long)) (sym (at i h) ∙ (rw (one k h') at e));
    }

module _ (t : ℕ) (f : File) (map : Bytes) (owner : ℕ → ℕ) (f' : File) (map' : Bytes)
    (owner' : ℕ → ℕ) (spares : Spares t f map owner f' map' owner') where
  pub IsOwn-Spares : (u c : ℕ) → IsOwn f map owner u c → IsOwn f' map' owner' u c
  IsOwn-Spares u c own = record {
    whole = omega (arith, own.whole, spares.size);
    behind = own.behind;
    in_use = spares.marked (c - 1) own.in_use;
    tag = spares.tags c own.in_use ∙ own.tag;
  }

  module _ (u q : ℕ) (name : Name) (meta : 1 ≢ t) (short : 8 + length name < sfs_block_size)
      (placed : Placed f map owner u q name) where
    abbrev first : ℕ
    first = first_frame (raw f q)

    inode_same : (o : ℕ) → o < sfs_block_size → raw f' q o ≡ raw f q o
    inode_same o h = spares.kept 1 q o placed.inode meta h

    frame_same : (o : ℕ) → o < sfs_block_size → raw f' first o ≡ raw f first o
    frame_same o h = spares.kept 1 first o placed.frame meta h

    first_same : first_frame (raw f' q) ≡ first
    first_same = get_u32-same _ _ 4 sfs_block_size (omega arith) inode_same

    listed_same : (i : ℕ) → i < 127 → content_bid f' first i ≡ content_bid f first i
    listed_same i h = content_bid-same f f' first i h frame_same

    -- Where a file lies stays, whatever owner changes.
    pub Placed-Spares : Placed f' map' owner' u q name
    Placed-Spares = record {
      inode = IsOwn-Spares 1 q placed.inode;
      stored = λ o h. inode_same (8 + o) (omega arith) ∙ placed.stored o h;
      long =
          let e : inode_size (raw f' q) ≡ inode_size (raw f q) =
            get_u32-same _ _ 0 sfs_block_size (omega arith) inode_same in
          omega (arith, placed.long, e);
      frame = rw first_same (IsOwn-Spares 1 first placed.frame);
      blocks = λ i h. rw (first_same, listed_same i h) (IsOwn-Spares u _ (placed.blocks i h));
    }

    pub IsFile-Spares : IsFile f (raw f q) → IsFile f' (raw f' q)
    IsFile-Spares file =
        (IsFile-same f' (raw f' q) (raw f q) inode_same
          (IsFile-frame f f' (raw f q) spares.size placed.long frame_same file)).0

    -- A byte of the file in the new image.
    pub file_byte-Spares : (o : ℕ) → file_byte f' (raw f' q) o ≡ file_byte f' (raw f q) o
    file_byte-Spares o = rw (file_byte, first_same)

  -- A file of another owner stays as it was.
  pub FileAt-Spares :
      (u q : ℕ) (name : Name) (content : Bytes)
      → 1 ≢ t
      → u ≢ t
      → 8 + length name < sfs_block_size
      → FileAt f map owner u q name content
      → FileAt f' map' owner' u q name content
  FileAt-Spares u q name content meta other short at = record {
    placed = Placed-Spares u q name meta short at.placed;
    file = IsFile-Spares u q name meta short at.placed at.file;
    own = λ o h.
        rw
          (
            file_byte,
            first_same u q name meta short at.placed,
            listed_same u q name meta short at.placed (o / sfs_block_size) (omega arith),
          )
          (spares.kept u _ (o % sfs_block_size)
              (at.placed.blocks (o / sfs_block_size) (omega arith)) other (omega arith)
            ∙ at.own o h);
  }

-- The list of the one directory stays.
pub HasDirs-one :
    (f f' : File) (d : ℕ)
    → f.size ≤ u32_end
    → f'.size ≡ f.size
    → IsWhole f d
    → ((o : ℕ) → o < sfs_block_size → f'.byte o ≡ f.byte o)
    → get_u32 (raw f' d) 0 ≡ get_u32 (raw f d) 0
    → HasDirs f (d ∷ [])
    → HasDirs f' (d ∷ [])
unfolding IsChain
HasDirs-one f f' d small size whole super last (inside, (first, ne, there, no_next)) =
    let z : (o : ℕ) → 0 + o ≡ o = λ o. omega arith in
    (
      omega (arith, size, inside),
      (
        get_u32-same (block f' 0) (block f 0) 12 sfs_block_size (omega arith)
              (λ o h. rw (block, z o) (super o h))
            ∙ first,
        ne,
        omega (arith, size, there),
        rw (block-raw f' d (omega (arith, small, size)) (omega (arith, whole, size)))
            (last ∙ (rw (block-raw f d small whole) at no_next)),
      ),
    )
