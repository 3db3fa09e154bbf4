-- ===== src/Dfs/LocalFs/Holds.antt =====
-- The file system of a datanode of exta2.c that keeps some blocks: the directory "/" has one file for
-- each, and there is room for more.
use class_projects.Base.{
  ℕ, suc, ◌+◌, ◌*◌, ◌/◌, ◌≤◌, ◌<◌, ◌≡◌, ◌≢◌, ◌∙◌, true, false, some, arith, ltb, Bool-cases, inl,
  inr, [], ◌∷◌,
}
use class_projects.Base.Names.{Name, length, same_name, same_name_refl}
use class_projects.Base.Bytes.{Bytes, File, SameBytes}
use class_projects.Base.Run.{Returns, mono}
use class_projects.Fs.Word.{u32_end, IsBytes}
use class_projects.Fs.{Sfs, sfs_block_size, sb_nfreemap_blocks, same_string, dir_inode}
use class_projects.Fs.Strings.{IsText, same_string-stored}
use class_projects.Fs.Dirs.{block, HasDirs}
use class_projects.Fs.Freemap.{used}
use class_projects.Fs.Files.{first_frame, inode_size, sfs_open}
use class_projects.Fs.Files.Open.{HasFile, sfs_open-existing}
use class_projects.Fs.Content.Blocks.{raw}
use class_projects.Fs.Content.Flat.{IsFile}
use class_projects.Dfs.LocalFs.{slash}
use class_projects.Dfs.LocalFs.Owned.{IsOwn, FileAt}
use class_projects.Dfs.LocalFs.Reads.{
  IsReady, IsFile-same, block-raw, first_named-one, free_fd-zero,
}

-- The directory "/" is in block `d` and has the `n` files `names` with the contents `contents`, each of
-- one block. From bit `m` on there is room for `left` more.
pub record Holds (f : File) (map : Bytes) (d m n left : ℕ) (owner : ℕ → ℕ) (names : ℕ → Name)
    (contents : ℕ → Bytes) : Type 0 where
  pub small : f.size ≤ u32_end
  pub inside : m + 129 * left < f.size / sfs_block_size
  pub in_map : m + 129 * left ≤ 4096
  pub bytes : IsBytes map
  pub one : sb_nfreemap_blocks (block f 0) ≡ 1
  pub full : used map 0 ≡ true
  pub dir : IsOwn f map owner 0 d
  pub dirs : HasDirs f (d ∷ [])
  pub is_slash : same_string (raw f d) 4 slash ≡ true
  pub free : (j : ℕ) → m ≤ j → j < m + 129 * left → used map j ≡ false
  pub room : n + left ≤ 97
  pub vacant : (j : ℕ) → n ≤ j → j < 97 → dir_inode (raw f d) j ≡ 0
  pub files :
      (j : ℕ) → j < n → FileAt f map owner (j + 2) (dir_inode (raw f d) j) (names j) (contents j)
  pub texts : (j : ℕ) → j < n → IsText (names j)
  pub short : (j : ℕ) → j < n → 8 + length (names j) < sfs_block_size
  pub distinct : (i j : ℕ) → i < n → j < n → same_name (names i) (names j) ≡ true → i ≡ j

-- No file is open, and the freemap of one block is in memory.
pub record IsIdle (fs : Sfs) : Type 0 where
  pub words : fs.freemap_words ≡ 128
  pub no_open : (fs.fdtable 0).valid ≡ 0

module _ (d m n left : ℕ) (owner : ℕ → ℕ) (names : ℕ → Name) (contents : ℕ → Bytes) (fs : Sfs)
    (idle : IsIdle fs) where
  -- There is room for a file that is not there.
  pub Holds-IsReady :
      (name : Name)
      → IsText name
      → ((j : ℕ) → j < n → same_name (names j) name ≡ false)
      → Holds fs.fh fs.freemap d m n (suc left) owner names contents
      → IsReady fs d n m name
  Holds-IsReady name text new holds =
      let entry : (j : ℕ) → j < 97 → dir_inode (raw fs.fh d) j ≢ 0 → j < n = λ j lt ne.
        elim (Bool-cases (ltb j n)) [
          | inl q ↦ ground arith
          | inr q ↦ absurd (ne (holds.vacant j (ground arith) lt))
        ] in
      record {
        formatted = record {
          inside = omega (arith, holds.dir.whole);
          bytes = holds.bytes;
          words = idle.words;
          blocks = holds.one;
        };
        dirs = holds.dirs;
        is_slash = holds.is_slash;
        room = record {
          small = holds.small;
          dir_whole = holds.dir.whole;
          dir_behind = holds.dir.behind;
          dir_used = holds.dir.in_use;
          place = omega (arith, holds.room);
          vacant = holds.vacant n (omega arith) (omega (arith, holds.room));
          before = λ j lt e. omega (arith, e, (holds.files j lt).placed.inode.behind);
          others = λ j lt ne.
              let at = entry j lt ne in
              same_string-stored (raw fs.fh (dir_inode (raw fs.fh d) j)) 8 (names j) name
                (holds.texts j at) text (holds.files j at).placed.stored
              ∙ new j at;
          inodes = λ j lt ne.
              let own = (holds.files j (entry j lt ne)).placed.inode in
              (
                own.whole,
                own.behind,
                (λ e. omega (arith, rw e at own.tag, holds.dir.tag)),
                own.in_use,
              );
        };
        no_open = idle.no_open;
        free = (omega (arith, holds.in_map), (λ j h h'. holds.free j h (omega arith)));
        full = holds.full;
        inside = omega (arith, holds.inside);
      }

  -- A file that is there is found.
  module _ (holds : Holds fs.fh fs.freemap d m n left owner names contents) (j : ℕ)
      (lt : j < n) where
    abbrev q : ℕ
    q = dir_inode (raw fs.fh d) j

    dir_block : block fs.fh d ≡ raw fs.fh d
    dir_block = block-raw fs.fh d holds.small holds.dir.whole

    inode_block :
        (i : ℕ)
        → i < n
        → block fs.fh (dir_inode (raw fs.fh d) i) ≡ raw fs.fh (dir_inode (raw fs.fh d) i)
    inode_block i h = block-raw fs.fh _ holds.small (holds.files i h).placed.inode.whole

    Holds-HasFile : HasFile fs d (names j) j
    Holds-HasFile = record {
      place = omega (arith, holds.room);
      there = rw dir_block (λ e. omega (arith, e, (holds.files j lt).placed.inode.behind));
      named =
          rw (dir_block, inode_block j lt)
            (same_string-stored (raw fs.fh q) 8 (names j) (names j) (holds.texts j lt)
                (holds.texts j lt) (holds.files j lt).placed.stored
              ∙ same_name_refl (names j));
      before = λ i h ne.
          let lt' : i < n = omega arith in
          rw (dir_block, inode_block i lt')
            (same_string-stored (raw fs.fh (dir_inode (raw fs.fh d) i)) 8 (names i) (names j)
                (holds.texts i lt') (holds.texts j lt) (holds.files i lt').placed.stored
              ∙ elim (Bool-cases (same_name (names i) (names j))) [
                | inr e ↦ e
                | inl e ↦ absurd (omega (arith, holds.distinct i j lt' lt e))
              ]);
      inside = λ i h ne. elim (Bool-cases (ltb i n)) [
        | inl q ↦
            rw dir_block
              (omega (arith, holds.small, (holds.files i (ground arith)).placed.inode.whole))
        | inr q ↦ absurd ((rw dir_block at ne) (holds.vacant i (ground arith) h))
      ];
    }

    -- What `sfs_open` leaves when the file is there.
    pub record Opened (s : Sfs) : Type 0 where
      pub image : s.fh ≡ fs.fh
      pub freemap : s.freemap ≡ fs.freemap
      pub words : s.freemap_words ≡ fs.freemap_words
      pub start : (s.fdtable 0).cur ≡ 0
      pub file : IsFile s.fh (s.fdtable 0).inode
      pub frame : first_frame (s.fdtable 0).inode ≡ first_frame (raw fs.fh q)
      pub size : inode_size (s.fdtable 0).inode ≡ inode_size (raw fs.fh q)

    pub sfs_open-Opened :
        (k : ℕ) (dir inode : Bytes)
        → 1 < k
        → Returns (λ r s. (r ≡ some 0) × Opened s) (sfs_open k dir inode slash (names j) fs)
    sfs_open-Opened k dir inode k_lt =
        mono
          (sfs_open-existing k 0 d j (d ∷ []) dir inode slash (names j) fs (omega arith)
            (holds.short j lt) holds.dirs k_lt
            (first_named-one fs.fh d slash holds.small holds.dir.whole holds.is_slash)
            (λ e. omega (arith, e, holds.dir.behind)) (omega (arith, holds.small, holds.dir.whole))
            Holds-HasFile (free_fd-zero fs.fdtable idle.no_open))
          (λ r s (opened, image, _, start, _, _, inode1, _, map, words).
            let same : SameBytes sfs_block_size (s.fdtable 0).inode (raw fs.fh q) =
              rw (dir_block, inode_block j lt) at inode1 in
            let (file, e, e') =
              IsFile-same fs.fh (s.fdtable 0).inode (raw fs.fh q) same (holds.files j lt).file in
            (
              opened,
              record {
                image = image;
                freemap = map;
                words = words;
                start = start;
                file = rw image file;
                frame = e;
                size = e';
              },
            ))
