-- ===== src/Fs/Content/Fresh.antt =====
-- `sfs_resize_file` of fs.c on a new file: one frame of 127 blocks.
use class_projects.Base.{
  ℕ, ◌+◌, ◌-◌, ◌*◌, ◌/◌, ◌%◌, ◌≤◌, ◌<◌, ◌≡◌, ◌≢◌, ◌∙◌, refl, sym, true, false, arith, ltb, ◌==◌,
  if◌then◌else◌, Bool-cases, inl, inr,
}
use class_projects.Base.Bytes.{Bytes}
use class_projects.Base.Run.{Returns, returns, bind}
use class_projects.Fs.Word.{u32_end, put_u32, get_u32-put_u32_other}
use class_projects.Fs.{Sfs, FdStruct, sfs_block_size, sfs_write_block}
use class_projects.Fs.Files.{inode_size, first_frame, set_fd}
use class_projects.Fs.Freemap.{used}
use class_projects.Fs.Content.{
  frame_content, frame_size, missing_frames, frames_overflow, alloc_frames, link_frames,
  set_first_frame, grow_inode, sfs_resize_file,
}
use class_projects.Fs.Content.Blocks.{raw, IsWhole, frame_bid, content_bid, get_u32-same}
use class_projects.Fs.Content.Span.{two_blocks-byte, two_blocks-size}
use class_projects.Fs.Content.Flat.{blocks_of, IsFile}
use class_projects.Fs.Content.Fills.{Takes, Fills, sfs_alloc_block-Takes, fill_frame-Fills}
use class_projects.Fs.Content.Grown.{grown, grown-first_frame, grown-size, IsNew, Fresh}

-- The state after the blocks were found: the frame is written, and then the inode.
module _ (fd b m : ℕ) (frame filled : Bytes) (fs fs1 fs2 : Sfs)
    (inside : m + 128 < fs.fh.size / sfs_block_size) (small : fs.fh.size ≤ u32_end)
    (empty : inode_size (fs.fdtable fd).inode ≡ 0)
    (apart : used fs.freemap ((fs.fdtable fd).inode_bid - 1) ≡ true)
    (behind : 2 ≤ (fs.fdtable fd).inode_bid) (there : IsWhole fs.fh (fs.fdtable fd).inode_bid)
    (room : m + 128 ≤ 4096) (takes : Takes 1 m b fs fs1)
    (fills : Fills b (m + 1) 127 0 frame filled (set_first_frame fd b fs1) fs2) where
  abbrev last : Sfs
  last = grow_inode fd 1 (sfs_write_block (put_u32 0 0 filled) 0 b fs2)

  -- The same, with the inode and its block written out.
  abbrev both : Sfs
  both =
      let e : FdStruct = record (fs.fdtable fd) { inode = grown b (fs.fdtable fd).inode } in
      sfs_write_block e.inode 0 e.inode_bid
        (set_fd fd e (sfs_write_block (put_u32 0 0 filled) 0 b fs2))

  entry2 : fs2.fdtable fd ≡ record (fs.fdtable fd) { inode = put_u32 4 b (fs.fdtable fd).inode }
  entry2 =
      let z : (fd == fd) ≡ true = ground arith in
      rw (fills.keeps.fdtable, z, takes.keeps.fdtable) refl

  last-both : last ≡ both
  last-both =
      let z : (inode_size (put_u32 4 b (fs.fdtable fd).inode) + frame_size * 1) % u32_end
          ≡ frame_size =
        let e = get_u32-put_u32_other 4 0 b (fs.fdtable fd).inode (inl (omega arith)) in
        omega (arith, e, empty) in
      rw (entry2, z) refl

  sizes : fs2.fh.size ≡ fs.fh.size
  sizes = omega (arith, fills.keeps.size, takes.keeps.size)

  frame-IsWhole : IsWhole fs2.fh b
  frame-IsWhole = omega (arith, sizes, takes.below)

  ne_inode : (fs.fdtable fd).inode_bid ≢ b
  ne_inode e =
      let t = takes.free in
      let z : (fs.fdtable fd).inode_bid - 1 ≡ b - 1 = omega arith in
      absurd (let a = rw z at apart in cc)

  both_size : both.fh.size ≡ fs.fh.size
  both_size =
      two_blocks-size fs2 (put_u32 0 0 filled) (grown b (fs.fdtable fd).inode) b
        (fs.fdtable fd).inode_bid (omega (arith, sizes)) frame-IsWhole (omega (arith, sizes))
      ∙ sizes

  -- The bytes of the image at the end.
  both_byte :
      (x : ℕ)
      → x < fs.fh.size
      → both.fh.byte x ≡ (
          if x / sfs_block_size == (fs.fdtable fd).inode_bid
          then grown b (fs.fdtable fd).inode (x % sfs_block_size)
          else if x / sfs_block_size == b
          then put_u32 0 0 filled (x % sfs_block_size)
          else fs2.fh.byte x)
  both_byte x lt =
      two_blocks-byte fs2 (put_u32 0 0 filled) (grown b (fs.fdtable fd).inode) b
        (fs.fdtable fd).inode_bid (omega (arith, sizes)) frame-IsWhole (omega (arith, sizes)) x
        (omega (arith, sizes))

  raw_frame : (o : ℕ) → o < sfs_block_size → raw both.fh b o ≡ put_u32 0 0 filled o
  raw_frame o h =
      let z : (b * sfs_block_size + o) / sfs_block_size ≡ b = omega arith in
      let z' : (b * sfs_block_size + o) % sfs_block_size ≡ o = omega arith in
      let y : (b == (fs.fdtable fd).inode_bid) ≡ false = let n = ne_inode in ground arith in
      let y' : (b == b) ≡ true = ground arith in
      both_byte (b * sfs_block_size + o) (omega (arith, frame-IsWhole, sizes))
      ∙ rw (z, z', y, y') refl

  listed : (i : ℕ) → i < 127 → content_bid both.fh b i ≡ frame_content filled (0 + i)
  unfolding frame_bid
  listed i h =
      let z : i / 127 ≡ 0 = omega arith in
      let z' : i % 127 ≡ i = omega arith in
      let z'' : 0 + i ≡ i = omega arith in
      rw (z, z', z'')
        (get_u32-same _ _ (4 + 4 * i) sfs_block_size (omega arith) raw_frame
          ∙ get_u32-put_u32_other 0 (4 + 4 * i) 0 filled (inr (omega arith)))

  both-IsFile : IsFile both.fh (grown b (fs.fdtable fd).inode)
  unfolding frame_bid
  both-IsFile =
      let inode = (fs.fdtable fd).inode in
      let short : b < u32_end = omega (arith, takes.below) in
      let e : first_frame (grown b inode) ≡ b = grown-first_frame b inode short in
      let e' : blocks_of (grown b inode) ≡ 127 = omega (arith, grown-size b inode) in
      let zero_i : (i : ℕ) → 0 + i ≡ i = λ i. omega arith in
      record {
        small = omega (arith, both_size);
        short = omega (arith, grown-size b inode);
        frames = λ k h.
            let z : k ≡ 0 = omega (arith, e') in
            rw (z, e) (omega (arith, both_size, frame-IsWhole, sizes));
        blocks = λ i h.
            let h' : i < 127 = omega (arith, e') in
            rw (e, listed i h') (omega (arith, both_size, fills.below i h'));
        distinct = λ i j h h' same.
            let lt : i < 127 = omega (arith, e') in
            let lt' : j < 127 = omega (arith, e') in
            let same' : frame_content filled (0 + i) ≡ frame_content filled (0 + j) =
              sym (listed i lt) ∙ (rw e at same) ∙ listed j lt' in
            elim (Bool-cases (i == j)) [
              | inl q ↦ ground arith
              | inr q ↦ elim (Bool-cases (ltb i j)) [
                | inl t ↦ absurd (let r = fills.rising i j (ground arith) lt' in omega arith)
                | inr t ↦ absurd (let r = fills.rising j i (ground arith) lt in omega arith)
              ]
            ];
        apart = λ i k h h' same.
            let lt : i < 127 = omega (arith, e') in
            let z : k ≡ 0 = omega (arith, e') in
            let same' : frame_content filled (0 + i) ≡ b =
              sym (listed i lt) ∙ (rw (e, z) at same) in
            absurd (omega (arith, fills.above i lt));
      }

  both-Fresh : Fresh fd m b fs both
  both-Fresh =
      let q = (fs.fdtable fd).inode_bid in
      let own : (fd == fd) ≡ true = ground arith in
      record {
        entry = rw own refl;
        file = both-IsFile;
        on_disk = λ o h.
            let z : (q * sfs_block_size + o) / sfs_block_size ≡ q = omega arith in
            let z' : (q * sfs_block_size + o) % sfs_block_size ≡ o = omega arith in
            let y : (q == q) ≡ true = ground arith in
            both_byte (q * sfs_block_size + o) (omega arith) ∙ rw (z, z', y) refl;
        short = omega (arith, takes.below);
        frame_behind = takes.above;
        blocks_behind = λ i h. rw (listed i h) (omega (arith, fills.above i h, takes.above));
        frame_free = takes.free;
        blocks_free = λ i h.
            let f = fills.free i h in
            let a = fills.above i h in
            rw (listed i h)
              (elim (Bool-cases (used fs.freemap (frame_content filled (0 + i) - 1))) [
                | inr t ↦ t
                | inl t ↦ absurd (let k = takes.keeps.marked _ t in cc)
              ]);
        frame_taken = fills.keeps.marked (b - 1) (takes.taken (b - 1) (omega (arith, takes.above)));
        blocks_taken = λ i h. rw (listed i h) (fills.taken i h);
        marked = λ j h. fills.keeps.marked j (takes.keeps.marked j h);
        later = λ j h. fills.later j (omega arith) ∙ takes.later j (omega arith);
        size = both_size;
        sb = fills.keeps.sb ∙ takes.keeps.sb;
        mounted = record {
          bytes = fills.keeps.mounted.bytes;
          words = fills.keeps.mounted.words;
          blocks = fills.keeps.mounted.blocks;
        };
        outside = λ x lt out nb nq.
            let y : (x / sfs_block_size == q) ≡ false = ground arith in
            let y' : (x / sfs_block_size == b) ≡ false = ground arith in
            both_byte x lt
            ∙ rw (y, y')
                (fills.keeps.outside x (omega (arith, takes.keeps.size)) out
                  ∙ takes.keeps.outside x lt out);
      }

-- A file without content, whose inode is in a block in use, that grows to at most 65024 bytes, where 128
-- blocks of the image in a row are free and the freemap has one block, gets a first frame
-- and 127 blocks of content: each was free and is its own, they are in use from then on, the inode in
-- memory and on disk has the frame and the size, and nothing else in the image changes but the freemap,
-- where no mark behind the 128 blocks changes.
pub sfs_resize_file-new :
    (k fd new_size m : ℕ) (frame : Bytes) (fs : Sfs)
    → 0 < new_size
    → new_size ≤ frame_size
    → IsNew fs fd m
    → Returns (λ _ fs'. (b : ℕ) × Fresh fd m b fs fs') (sfs_resize_file k frame fd new_size fs)
unfolding sfs_resize_file missing_frames alloc_frames link_frames
sfs_resize_file-new k fd new_size m frame fs pos le new =
    let empty = new.empty in
    let inside = new.inside in
    let mounted = new.mounted in
    let (room, free) = new.free in
    let one : missing_frames (inode_size (fs.fdtable fd).inode) new_size ≡ 1 = ground arith in
    let no_overflow : frames_overflow (inode_size (fs.fdtable fd).inode) ≡ false = ground arith in
    let found : Returns (λ bids fs1. Takes 1 m (bids 0) fs fs1) (alloc_frames 1 0 (λ _. 0) fs) =
      bind
        (sfs_alloc_block-Takes fs 1 m mounted (omega arith) (free m (omega arith) (omega arith))
          (λ j h. let z : j ≡ 0 = omega arith in rw z new.full))
        (λ b fs1 takes. returns takes) in
    rw (no_overflow, one)
      (bind found (λ bids fs1 takes.
        let none_there : first_frame (fs1.fdtable fd).inode ≡ 0 =
          rw takes.keeps.fdtable new.no_frame in
        rw none_there (
          bind
            (fill_frame-Fills 127 0 (bids 0) (m + 1) frame (set_first_frame fd (bids 0) fs1)
              (record {
                bytes = takes.keeps.mounted.bytes;
                words = takes.keeps.mounted.words;
                blocks = takes.keeps.mounted.blocks;
              })
              (omega (arith, takes.keeps.size))
              (
                (omega arith),
                (λ j h h'. takes.later j (omega arith) ∙ free j (omega arith) (omega arith)),
              )
              takes.taken)
            (λ filled fs2 fills. returns (
              bids 0,
              rw
                  (last-both fd (bids 0) m frame filled fs fs1 fs2 inside new.small empty new.marked
                    new.behind new.there room takes fills)
                  (both-Fresh fd (bids 0) m frame filled fs fs1 fs2 inside new.small empty
                    new.marked new.behind new.there room takes fills),
            )))))
