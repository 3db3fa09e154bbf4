-- ===== src/Fs/Content/Kept.antt =====
-- What `sfs_write` of fs.c leaves in a file, and that `sfs_read` gets it back.
use class_projects.Base.{
  ℕ, zero, suc, ◌+◌, ◌*◌, ◌/◌, ◌%◌, ◌≤◌, ◌<◌, ◌≡◌, ◌≢◌, ◌⊎◌, ◌∙◌, refl, sym, true, false, arith,
  ltb, leb, ◌==◌,
}
use class_projects.Base.Bytes.{Bytes, File, SameBytes}
use class_projects.Base.Run.{and_then, Returns, returns, bind, mono}
use class_projects.Fs.Word.{u32_end}
use class_projects.Fs.{Sfs, sfs_block_size, sfs_max_opened_files}
use class_projects.Fs.Files.{inode_size, first_frame, set_cur}
use class_projects.Fs.Content.{sfs_frame_count, sfs_write, sfs_read}
use class_projects.Fs.Content.Blocks.{raw, frame_bid, content_bid, get_u32-same}
use class_projects.Fs.Files.{sfs_seek, sfs_seek_set}
use class_projects.Fs.Content.Flat.{
  blocks_of, IsFile, file_byte, Lists, IsFile-IsSpan, content-Lists, sfs_read-file_byte,
}
use class_projects.Base.Int.{pos}
use class_projects.Fs.Content.Span.{Spans}
use class_projects.Fs.Content.Rounds.{sfs_write_loop-Spans}

-- What the transfer leaves, over the blocks of the file.
pub record Leaves (inode : Bytes) (buf : Bytes) (cur len : ℕ) (f f' : File) : Type 0 where
  pub file : IsFile f' inode
  pub own : (i : ℕ) → i < len → file_byte f' inode (cur + i) ≡ buf i
  pub others :
      (a : ℕ)
      → a / sfs_block_size < blocks_of inode
      → (a < cur) ⊎ (cur + len ≤ a)
      → file_byte f' inode a ≡ file_byte f inode a
  pub apart :
      (x : ℕ)
      → x < f.size
      → ((i : ℕ) → i < blocks_of inode → x / sfs_block_size ≢ content_bid f (first_frame inode) i)
      → f'.byte x ≡ f.byte x
  pub size : f'.size ≡ f.size

-- The superblock and the freemap in memory.
pub record SameTables (fs fs' : Sfs) : Type 0 where
  pub sb : fs'.sb ≡ fs.sb
  pub freemap : fs'.freemap ≡ fs.freemap
  pub freemap_words : fs'.freemap_words ≡ fs.freemap_words

module _ (inode : Bytes) (bids : ℕ → ℕ) (buf : Bytes) (cur len : ℕ) (fs fs' : Sfs)
    (file : IsFile fs.fh inode) (within : (cur + len) / sfs_block_size < blocks_of inode)
    (lists : Lists bids fs.fh inode ((cur + len) / sfs_block_size))
    (spans : Spans bids buf 0 cur len fs fs') where
  -- The frames stay.
  frame_same :
      (k o : ℕ)
      → k * sfs_frame_count < blocks_of inode
      → o < sfs_block_size
      → raw fs'.fh (frame_bid fs.fh (first_frame inode) k) o
        ≡ raw fs.fh (frame_bid fs.fh (first_frame inode) k) o
  frame_same k o lt h = spans.others _ (omega (arith, file.frames k lt)) (λ a h1 h2 e.
      let l = lists (a / sfs_block_size) (omega arith) in
      let d = file.apart (a / sfs_block_size) k (omega arith) lt in d (omega (arith, e, l)))

  frame_bid_same :
      (k : ℕ)
      → k * sfs_frame_count < blocks_of inode
      → frame_bid fs'.fh (first_frame inode) k ≡ frame_bid fs.fh (first_frame inode) k
  unfolding frame_bid
  frame_bid_same zero lt = refl
  frame_bid_same (suc k) lt =
      rw (frame_bid_same k (omega arith))
        (get_u32-same _ _ 0 sfs_block_size (omega arith) (λ o h. frame_same k o (omega arith) h))

  content_bid_same :
      (i : ℕ)
      → i < blocks_of inode
      → content_bid fs'.fh (first_frame inode) i ≡ content_bid fs.fh (first_frame inode) i
  content_bid_same i lt = rw (frame_bid_same (i / sfs_frame_count) (omega arith)) (
      get_u32-same _ _ (4 + 4 * (i % sfs_frame_count)) sfs_block_size (omega arith)
        (λ o h. frame_same (i / sfs_frame_count) o (omega arith) h))

  Spans-Leaves : Leaves inode buf cur len fs.fh fs'.fh
  Spans-Leaves = record {
    file = record {
      small = omega (arith, file.small, spans.size);
      short = file.short;
      frames = λ k h. rw (frame_bid_same k h) (omega (arith, file.frames k h, spans.size));
      blocks = λ i h. rw (content_bid_same i h) (omega (arith, file.blocks i h, spans.size));
      distinct = λ i j h h' e.
          file.distinct i j h h' (sym (content_bid_same i h) ∙ e ∙ content_bid_same j h');
      apart =
          λ i k h h' e. file.apart i k h h' (sym (content_bid_same i h) ∙ e ∙ frame_bid_same k h');
    };
    own = λ i h.
        let z : 0 + i ≡ i = omega arith in
        rw (file_byte, content_bid_same ((cur + i) / sfs_block_size) (omega arith))
          (rw (z, lists ((cur + i) / sfs_block_size) (omega arith)) at (spans.own i h));
    others = λ a h out.
        let b = content_bid fs.fh (first_frame inode) (a / sfs_block_size) in
        rw (file_byte, content_bid_same (a / sfs_block_size) h)
          (spans.others _ (omega (arith, file.blocks (a / sfs_block_size) h)) (λ a' h1 h2 e.
            let l = lists (a' / sfs_block_size) (omega arith) in
            let d =
              file.distinct (a / sfs_block_size) (a' / sfs_block_size) h (omega arith)
                (omega (arith, e, l)) in
            omega (arith, e, l, d, out)));
    apart = λ x lt out. spans.others x lt (λ a h1 h2 e.
        let l = lists (a / sfs_block_size) (omega arith) in
        absurd (out (a / sfs_block_size) (omega arith) (omega (arith, e, l))));
    size = spans.size;
  }

pub set_cur_same :
    (fd cur : ℕ) (fs : Sfs) → (set_cur fd cur fs).fdtable fd ≡ record (fs.fdtable fd) { cur = cur }
set_cur_same fd cur fs = let z : (fd == fd) ≡ true = ground arith in rw z refl

-- A write that starts in the first block of a file and ends in front of its last one puts the bytes of
-- the buffer in the file from the cursor on, moves the cursor behind them, and keeps all other bytes of
-- the file, its size and its blocks, everything else in the image, and the freemap and the superblock in
-- memory.
pub sfs_write-file_byte :
    (k fd len : ℕ) (frame tmp buf : Bytes) (junk : ℕ → ℕ) (fs : Sfs)
    → fd < sfs_max_opened_files
    → IsFile fs.fh (fs.fdtable fd).inode
    → (fs.fdtable fd).cur < sfs_block_size
    → ((fs.fdtable fd).cur + len) / sfs_block_size < blocks_of (fs.fdtable fd).inode
    → Returns
        (λ n fs'.
          (n ≡ len)
          × (fs'.fdtable fd ≡ record (fs.fdtable fd) { cur = (fs.fdtable fd).cur + len })
          × Leaves (fs.fdtable fd).inode buf (fs.fdtable fd).cur len fs.fh fs'.fh
          × SameTables fs fs')
        (sfs_write k frame tmp junk fd buf len fs)
unfolding sfs_write
sfs_write-file_byte k fd len frame tmp buf junk fs table file first within =
    let inode = (fs.fdtable fd).inode in
    let cur = (fs.fdtable fd).cur in
    let short = file.short in
    let inside : leb sfs_max_opened_files fd ≡ false = ground arith in
    let fits : ltb (inode_size (fs.fdtable fd).inode) (((fs.fdtable fd).cur + len) % u32_end)
        ≡ false =
      ground arith in
    rw (inside, fits)
      (bind (content-Lists fs fd len frame junk file first within) (λ bids fs1 (same, lists).
        rw same (
          bind
            (sfs_write_loop-Spans (len + 1) bids (blocks_of inode) buf 0 len (cur % sfs_block_size)
              cur tmp fs (omega arith) file.small
              (IsFile-IsSpan fs.fh inode bids cur len file within lists) (λ h. refl))
            (λ cur' fs2 (moved, spans). returns (
              refl,
              (set_cur_same fd cur' fs2 ∙ rw (spans.fdtable, moved) refl),
              Spans-Leaves inode bids buf cur len fs fs2 file within lists spans,
              record {
                sb = spans.sb;
                freemap = spans.freemap;
                freemap_words = spans.freemap_words;
              },
            )))))

-- What was written in a file is read back, once the cursor is taken to where it was: for a transfer
-- that starts in the first block of the file and ends in front of its last one.
pub sfs_read-sfs_write :
    (k fd len : ℕ) (frame tmp buf buf' : Bytes) (junk : ℕ → ℕ) (fs : Sfs)
    → fd < sfs_max_opened_files
    → IsFile fs.fh (fs.fdtable fd).inode
    → 0 < len
    → (fs.fdtable fd).cur < sfs_block_size
    → ((fs.fdtable fd).cur + len) / sfs_block_size < blocks_of (fs.fdtable fd).inode
    → Returns
        (λ r fs'. (r.0 ≡ len) × SameBytes len r.1 buf)
        (and_then (sfs_write k frame tmp junk fd buf len fs) (λ _ fs1.
          and_then
            (sfs_seek fd (pos (fs.fdtable fd).cur) sfs_seek_set fs1)
            (λ _ fs2. sfs_read frame tmp junk fd buf' len fs2)))
unfolding sfs_seek
sfs_read-sfs_write k fd len frame tmp buf buf' junk fs table file some_bytes first within =
    let cur = (fs.fdtable fd).cur in
    let inside : leb sfs_max_opened_files fd ≡ false = ground arith in
    let z : cur % u32_end ≡ cur = omega arith in
    bind (sfs_write-file_byte k fd len frame tmp buf junk fs table file first within)
      (λ _ fs1 (_, entry, leaves, _).
        let e : (set_cur fd cur fs1).fdtable fd ≡ fs.fdtable fd =
          set_cur_same fd cur fs1 ∙ rw entry refl in
        rw (inside, z)
          (mono
            (rw e at (
              sfs_read-file_byte fd len frame tmp buf' junk (set_cur fd cur fs1) table
                (rw e leaves.file) some_bytes (rw e first) (rw e within)))
            (λ r fs2 (n, got, _, _). (n, (λ i h. got i h ∙ leaves.own i h)))))
