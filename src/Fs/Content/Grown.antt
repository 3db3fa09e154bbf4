-- ===== src/Fs/Content/Grown.antt =====
-- A file of fs.c before and after it gets its first frame.
use class_projects.Base.{
  ℕ, ◌+◌, ◌-◌, ◌*◌, ◌/◌, ◌≤◌, ◌<◌, ◌≡◌, ◌≢◌, ◌⊎◌, ◌∙◌, true, false, arith, inr,
}
use class_projects.Base.Bytes.{Bytes}
use class_projects.Fs.Word.{u32_end, put_u32, get_u32-put_u32, get_u32-put_u32_other}
use class_projects.Fs.{Sfs, sfs_block_size}
use class_projects.Fs.Files.{inode_size, first_frame}
use class_projects.Fs.Freemap.{used, IsMounted}
use class_projects.Fs.Content.{sfs_frame_count, frame_size}
use class_projects.Fs.Content.Blocks.{raw, IsWhole, content_bid}
use class_projects.Fs.Content.Flat.{IsFile}
use class_projects.Fs.Content.Fills.{IsFree}

-- The inode of a file with one frame, in block `b`.
abbrev pub grown : ℕ → Bytes → Bytes
grown b inode = put_u32 0 frame_size (put_u32 4 b inode)

pub grown-first_frame : (b : ℕ) (inode : Bytes) → b < u32_end → first_frame (grown b inode) ≡ b
grown-first_frame b inode short =
    get_u32-put_u32_other 0 4 frame_size (put_u32 4 b inode) (inr (omega arith))
    ∙ get_u32-put_u32 4 b inode short

-- The name stays.
pub grown-name : (b : ℕ) (inode : Bytes) (o : ℕ) → 8 ≤ o → grown b inode o ≡ inode o
unfolding put_u32
grown-name b inode o h = ground arith

pub grown-size : (b : ℕ) (inode : Bytes) → inode_size (grown b inode) ≡ frame_size
grown-size b inode = get_u32-put_u32 0 frame_size (put_u32 4 b inode) (omega arith)

-- A file without content is open, and from bit `m` on 128 blocks of the image in a row are free.
pub record IsNew (fs : Sfs) (fd m : ℕ) : Type 0 where
  pub mounted : IsMounted fs
  pub free : IsFree fs m 128
  pub full : used fs.freemap 0 ≡ true
  pub inside : m + 128 < fs.fh.size / sfs_block_size
  pub small : fs.fh.size ≤ u32_end
  pub empty : inode_size (fs.fdtable fd).inode ≡ 0
  pub no_frame : first_frame (fs.fdtable fd).inode ≡ 0
  pub behind : 2 ≤ (fs.fdtable fd).inode_bid
  pub there : IsWhole fs.fh (fs.fdtable fd).inode_bid
  pub marked : used fs.freemap ((fs.fdtable fd).inode_bid - 1) ≡ true

-- What the first growth of the file at `fd` leaves, with the frame in block `b`.
pub record Fresh (fd m b : ℕ) (fs fs' : Sfs) : Type 0 where
  pub entry : fs'.fdtable fd ≡ record (fs.fdtable fd) { inode = grown b (fs.fdtable fd).inode }
  pub file : IsFile fs'.fh (grown b (fs.fdtable fd).inode)
  pub on_disk :
      (o : ℕ)
      → o < sfs_block_size
      → raw fs'.fh (fs.fdtable fd).inode_bid o ≡ grown b (fs.fdtable fd).inode o
  pub short : b < u32_end
  pub frame_behind : 2 ≤ b
  pub blocks_behind : (i : ℕ) → i < sfs_frame_count → 2 ≤ content_bid fs'.fh b i
  pub frame_free : used fs.freemap (b - 1) ≡ false
  pub blocks_free :
      (i : ℕ) → i < sfs_frame_count → used fs.freemap (content_bid fs'.fh b i - 1) ≡ false
  pub frame_taken : used fs'.freemap (b - 1) ≡ true
  pub blocks_taken :
      (i : ℕ) → i < sfs_frame_count → used fs'.freemap (content_bid fs'.fh b i - 1) ≡ true
  pub marked : (j : ℕ) → used fs.freemap j ≡ true → used fs'.freemap j ≡ true
  pub later : (j : ℕ) → m + 128 ≤ j → used fs'.freemap j ≡ used fs.freemap j
  pub size : fs'.fh.size ≡ fs.fh.size
  pub sb : fs'.sb ≡ fs.sb
  pub mounted : IsMounted fs'
  pub outside :
      (x : ℕ)
      → x < fs.fh.size
      → (x < sfs_block_size) ⊎ (2 * sfs_block_size ≤ x)
      → x / sfs_block_size ≢ b
      → x / sfs_block_size ≢ (fs.fdtable fd).inode_bid
      → fs'.fh.byte x ≡ fs.fh.byte x
