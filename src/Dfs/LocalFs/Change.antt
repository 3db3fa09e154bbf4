-- ===== src/Dfs/LocalFs/Change.antt =====
-- A datanode of exta2.c writes a block that it keeps again.
use class_projects.Base.{
  ℕ, ◌+◌, ◌*◌, ◌/◌, ◌<◌, ◌≡◌, ◌≢◌, ◌∙◌, refl, sym, true, arith, ◌==◌, if◌then◌else◌, Bool-cases,
  inl, inr,
}
use class_projects.Base.Names.{Name}
use class_projects.Base.Bytes.{Bytes, File}
use class_projects.Base.Run.{Returns, returns, bind}
use class_projects.Fs.{Sfs, sfs_block_size, dir_inode, sfs_print_info}
use class_projects.Fs.Dirs.{block}
use class_projects.Fs.Strings.{same_string-same}
use class_projects.Fs.Files.{first_frame, sfs_close}
use class_projects.Fs.Content.Blocks.{raw, content_bid, get_u32-same}
use class_projects.Fs.Content.Flat.{file_byte, blocks_of}
use class_projects.Fs.Content.Kept.{Leaves, sfs_write-file_byte}
use class_projects.Dfs.Types.{dfs_block_size}
use class_projects.Dfs.LocalFs.{Junk, slash, write_path}
use class_projects.Dfs.LocalFs.Owned.{
  FileAt, Spares, IsOwn-Spares, Placed-Spares, file_byte-Spares, IsFile-Spares, FileAt-Spares,
  HasDirs-one,
}
use class_projects.Dfs.LocalFs.Holds.{Holds, IsIdle, sfs_open-Opened}

abbrev pub changed : {A : Type 0} → ℕ → A → (ℕ → A) → ℕ → A
changed j a f i = if i == j then a else f i

module _ (f f' : File) (map : Bytes) (d m n left : ℕ) (owner : ℕ → ℕ) (names : ℕ → Name)
    (contents : ℕ → Bytes) (holds : Holds f map d m n left owner names contents) (j : ℕ)
    (there : j < n) where
  abbrev q : ℕ
  q = dir_inode (raw f d) j

  -- A transfer to the content of file `j`.
  module _ (inode buf : Bytes) (first : first_frame inode ≡ first_frame (raw f q))
      (long : blocks_of inode ≡ 127) (leaves : Leaves inode buf 0 dfs_block_size f f') where
    outside :
        (x : ℕ)
        → x < f.size
        → ((i : ℕ) → i < 127 → x / sfs_block_size ≢ content_bid f (first_frame (raw f q)) i)
        → f'.byte x ≡ f.byte x
    outside x lt out = leaves.apart x lt (λ i h e. out i (omega (arith, long)) (rw first at e))

    Leaves-Spares : Spares (j + 2) f map owner f' map owner
    Leaves-Spares = record {
      size = leaves.size;
      super = λ o h.
          outside o (omega (arith, holds.dir.whole))
            (λ i h' e. omega (arith, e, ((holds.files j there).placed.blocks i h').behind));
      marked = λ i h. h;
      tags = λ c h. refl;
      kept = λ u c o own ne h.
          let z : (c * sfs_block_size + o) / sfs_block_size ≡ c = omega arith in
          outside (c * sfs_block_size + o) (omega (arith, own.whole)) (λ i h' e.
            let same = sym z ∙ e in
            ne (sym own.tag ∙ rw same ((holds.files j there).placed.blocks i h').tag));
    }

    dir_same : (o : ℕ) → o < sfs_block_size → raw f' d o ≡ raw f d o
    dir_same o h = Leaves-Spares.kept 0 d o holds.dir (λ e. omega (arith, e)) h

    inode_at : (i : ℕ) → i < 97 → dir_inode (raw f' d) i ≡ dir_inode (raw f d) i
    inode_at i h = get_u32-same _ _ (124 + 4 * i) sfs_block_size (omega arith) dir_same

    changed_file : FileAt f' map owner (j + 2) q (names j) buf
    changed_file =
        let at = holds.files j there in
        let meta : 1 ≢ j + 2 = λ e. omega (arith, e) in
        let short = holds.short j there in
        let spares = Leaves-Spares in
        let placed =
          Placed-Spares (j + 2) f map owner f' map owner spares (j + 2) q (names j) meta short
            at.placed in
        record {
          placed = placed;
          file =
              IsFile-Spares (j + 2) f map owner f' map owner spares (j + 2) q (names j) meta short
                at.placed at.file;
          own = λ o h.
              let z : 0 + o ≡ o = omega arith in
              file_byte-Spares (j + 2) f map owner f' map owner spares (j + 2) q (names j) meta
                short at.placed o
              ∙ (rw (z, file_byte, first) at (leaves.own o h));
        }

    pub Leaves-Holds : Holds f' map d m n left owner names (changed j buf contents)
    Leaves-Holds =
        let spares = Leaves-Spares in
        let small = holds.small in
        let size = leaves.size in
        let whole = holds.dir.whole in
        record {
          small = omega arith;
          inside = rw size holds.inside;
          in_map = holds.in_map;
          bytes = holds.bytes;
          one =
              get_u32-same _ _ 8 sfs_block_size (omega arith)
                (λ o h. let z : 0 + o ≡ o = omega arith in rw (z, block) (spares.super o h))
              ∙ holds.one;
          full = holds.full;
          dir = IsOwn-Spares (j + 2) f map owner f' map owner spares 0 d holds.dir;
          dirs =
              HasDirs-one f f' d small size whole spares.super
                (get_u32-same _ _ 0 sfs_block_size (omega arith) dir_same) holds.dirs;
          is_slash =
              same_string-same (raw f' d) (raw f d) 4 sfs_block_size slash (omega arith)
                (λ o _ h. dir_same o h)
              ∙ holds.is_slash;
          free = holds.free;
          room = holds.room;
          vacant = λ i h h'. inode_at i h' ∙ holds.vacant i h h';
          files = λ i h. rw (inode_at i (omega (arith, holds.room))) (elim (Bool-cases (i == j)) [
            | inl e ↦
                let z : i ≡ j = ground arith in
                let s : (j == j) ≡ true = ground arith in rw (z, s) changed_file
            | inr e ↦ rw e (
                FileAt-Spares (j + 2) f map owner f' map owner spares (i + 2) _ (names i)
                  (contents i) (λ e'. omega (arith, e')) (λ e'. absurd (ground arith))
                  (holds.short i h) (holds.files i h))
          ]);
          texts = holds.texts;
          short = holds.short;
          distinct = holds.distinct;
        }

-- The content of the block is the buffer from then on.
pub write_path-Holds :
    (k : ℕ) (junk : Junk) (buf : Bytes) (fs : Sfs) (d m n left : ℕ) (owner : ℕ → ℕ)
    (names : ℕ → Name) (contents : ℕ → Bytes) (j : ℕ)
    → 1 < k
    → j < n
    → IsIdle fs
    → Holds fs.fh fs.freemap d m n left owner names contents
    → Returns
        (λ _ s. IsIdle s × Holds s.fh s.freemap d m n left owner names (changed j buf contents))
        (write_path k junk (names j) buf fs)
unfolding sfs_close sfs_print_info
write_path-Holds k junk buf fs d m n left owner names contents j lt there idle holds =
    let at = holds.files j there in
    bind
      (sfs_open-Opened d m n left owner names contents fs idle holds j there k junk.dir junk.inode
        lt)
      (λ r s1 (opened, o). rw opened (
        bind
          (sfs_write-file_byte k 0 dfs_block_size junk.frame junk.tmp buf junk.bids s1 (omega arith)
            o.file (omega (arith, o.start)) (omega (arith, o.start, o.size, at.placed.long)))
          (λ _ s2 (_, _, leaves, tables).
            let inode = (s1.fdtable 0).inode in
            let leaves' : Leaves inode buf 0 dfs_block_size fs.fh s2.fh =
              rw (o.start, o.image) at leaves in
            let map : s2.freemap ≡ fs.freemap = tables.freemap ∙ o.freemap in
            returns (
              record { words = tables.freemap_words ∙ o.words ∙ idle.words; no_open = refl },
              rw map (
                  Leaves-Holds fs.fh s2.fh fs.freemap d m n left owner names contents holds j there
                    inode buf o.frame (omega (arith, o.size, at.placed.long)) leaves'),
            ))))
