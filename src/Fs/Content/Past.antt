-- ===== src/Fs/Content/Past.antt =====
-- Transfers of fs.c that start past the first block of a file.
use class_projects.Base.{
  ℕ, zero, suc, ◌+◌, ◌-◌, ◌*◌, ◌/◌, ◌%◌, ◌≤◌, ◌<◌, ◌≡◌, ◌∙◌, refl, sym, false, arith, ltb, leb,
  ◌==◌, if◌then◌else◌, Bool-cases, inl, inr,
}
use class_projects.Base.Bytes.{Bytes}
use class_projects.Base.Run.{Returns, returns, bind, mono}
use class_projects.Fs.Word.{u32_end}
use class_projects.Fs.{Sfs, sfs_block_size, sfs_max_opened_files, sfs_read_block}
use class_projects.Fs.Files.{inode_size, first_frame}
use class_projects.Fs.Content.{
  content_loop, sfs_get_file_content, sfs_read, sfs_write, frame_content, sfs_frame_count,
  next_frame, next_number,
}
use class_projects.Fs.Content.Span.{place, IsSpan}
use class_projects.Fs.Content.Rounds.{sfs_write_loop-Spans}
use class_projects.Fs.Content.Flat.{blocks_of, sfs_read_loop-Gets}

-- The array of blocks is filled from place 0 on, whatever the first block is.
content_loop-kept :
    (n room start i j number : ℕ) (frame : Bytes) (bids : ℕ → ℕ) (fs : Sfs)
    → j ≡ i - start
    → i + n ≤ start + room
    → Returns
        (λ bids' fs'. (fs' ≡ fs) × ((x : ℕ) → i + n ≤ start + x → bids' x ≡ bids x))
        (content_loop n room start i j number frame bids fs)
unfolding content_loop
content_loop-kept zero room start i j number frame bids fs at fits = returns (refl, (λ x h. refl))
content_loop-kept (suc n) room start i j number frame bids fs at fits =
    elim (Bool-cases (ltb i start)) [
      | inl q ↦ rw q (
          mono
            (content_loop-kept n room start (i + 1) j (next_number (i + 1) number)
              (next_frame (i + 1) number frame fs) bids fs (ground arith) (omega arith))
            (λ bids' fs' (same, kept). (same, (λ x h. kept x (omega arith)))))
      | inr q ↦
          let in_place : leb room j ≡ false = ground arith in
          rw (q, in_place)
            (mono
              (content_loop-kept n room start (i + 1) (j + 1) (next_number (i + 1) number)
                (next_frame (i + 1) number frame fs)
                (λ x. if x == j then frame_content frame (i % sfs_frame_count) else bids x) fs
                (ground arith) (omega arith))
              (λ bids' fs' (same, kept). (
                same,
                (λ x h.
                    let other : (x == j) ≡ false = ground arith in
                    kept x (omega arith) ∙ rw other refl),
              )))
    ]

module _ (fs : Sfs) (fd len : ℕ) (frame : Bytes) (junk : ℕ → ℕ) (small : fs.fh.size ≤ u32_end)
    (short : inode_size (fs.fdtable fd).inode < u32_end)
    (within : (fs.fdtable fd).cur + len ≤ inode_size (fs.fdtable fd).inode)
    (past : ((fs.fdtable fd).cur + len) / sfs_block_size
      < 2 * ((fs.fdtable fd).cur / sfs_block_size))
    (span : IsSpan fs.fh junk (blocks_of (fs.fdtable fd).inode) (fs.fdtable fd).cur len) where
  abbrev cur : ℕ
  cur = (fs.fdtable fd).cur

  abbrev room : ℕ
  room = blocks_of (fs.fdtable fd).inode

  -- No entry that the transfer uses is filled.
  content-unfilled :
      (fits : (cur + len) / sfs_block_size < cur / sfs_block_size + room)
      → Returns
          (λ bids fs'.
            (fs' ≡ fs)
            × ((a : ℕ) → cur ≤ a → bids (a / sfs_block_size) ≡ junk (a / sfs_block_size)))
          (sfs_get_file_content frame room junk fd cur len fs)
  unfolding sfs_get_file_content
  content-unfilled fits =
      let z : (cur + len) % u32_end ≡ cur + len = omega arith in
      rw z (
        mono
          (content_loop-kept ((cur + len) / sfs_block_size + 1) room (cur / sfs_block_size) 0 0 0
            (sfs_read_block frame (first_frame (fs.fdtable fd).inode) fs) junk fs (omega arith)
            (omega arith))
          (λ bids fs' (same, kept). (same, (λ a h. kept (a / sfs_block_size) (omega arith)))))

  same-IsSpan :
      (bids : ℕ → ℕ)
      → ((a : ℕ) → cur ≤ a → bids (a / sfs_block_size) ≡ junk (a / sfs_block_size))
      → IsSpan fs.fh bids room cur len
  same-IsSpan bids same = record {
    roomy = span.roomy;
    whole = λ a h h'. rw (same a h) (span.whole a h h');
    distinct = λ a b h h' g g' e. span.distinct a b h h' g g' (sym (same a h) ∙ e ∙ same b g);
  }

-- A transfer within a file whose last block is less than twice as far as its first one, which is not the
-- first of the file, does not go to the blocks of the file but to those whose numbers `malloc` left in
-- the array: `sfs_read` gets their bytes, and `sfs_write` puts the buffer there. This supposes that
-- these are numbers of different blocks of the image, so that the transfer ends.
pub sfs_read_write-unfilled :
    (k fd len : ℕ) (frame tmp buf : Bytes) (junk : ℕ → ℕ) (fs : Sfs)
    → fd < sfs_max_opened_files
    → 0 < len
    → fs.fh.size ≤ u32_end
    → inode_size (fs.fdtable fd).inode < u32_end
    → (fs.fdtable fd).cur + len ≤ inode_size (fs.fdtable fd).inode
    → ((fs.fdtable fd).cur + len) / sfs_block_size < 2 * ((fs.fdtable fd).cur / sfs_block_size)
    → IsSpan fs.fh junk (blocks_of (fs.fdtable fd).inode) (fs.fdtable fd).cur len
    → Returns
        (λ r fs'. (i : ℕ) → i < len → r.1 i ≡ fs.fh.byte (place junk ((fs.fdtable fd).cur + i)))
        (sfs_read frame tmp junk fd buf len fs)
      × Returns
          (λ n fs'. (i : ℕ) → i < len → fs'.fh.byte (place junk ((fs.fdtable fd).cur + i)) ≡ buf i)
          (sfs_write k frame tmp junk fd buf len fs)
unfolding sfs_read sfs_write
sfs_read_write-unfilled k fd len frame tmp buf junk fs table some_bytes small short within past
      span =
    let cur = (fs.fdtable fd).cur in
    let inside : leb sfs_max_opened_files fd ≡ false = ground arith in
    let before : ltb (inode_size (fs.fdtable fd).inode) (fs.fdtable fd).cur ≡ false =
      ground arith in
    let uncut : ltb (inode_size (fs.fdtable fd).inode)
          (((fs.fdtable fd).cur + len + (u32_end - 1)) % u32_end)
        ≡ false =
      ground arith in
    let fits : ltb (inode_size (fs.fdtable fd).inode) (((fs.fdtable fd).cur + len) % u32_end)
        ≡ false =
      ground arith in
    let roomy : (cur + len) / sfs_block_size
        < cur / sfs_block_size + blocks_of (fs.fdtable fd).inode =
      omega (arith, span.roomy cur (omega arith) (omega arith)) in
    let found = content-unfilled fs fd len frame junk small short within past span roomy in
    let as_span = same-IsSpan fs fd len frame junk small short within past span in
    let z : (i : ℕ) → 0 + i ≡ i = λ i. omega arith in
    (
      rw (inside, before, uncut)
          (bind found (λ bids fs1 (same, unfilled). rw same (
            bind
              (sfs_read_loop-Gets (len + 1) bids (blocks_of (fs.fdtable fd).inode) buf 0 len
                (cur % sfs_block_size) cur tmp fs (omega arith) small (as_span bids unfilled)
                (λ h. refl))
              (λ r fs2 (_, _, got, _, _).
                returns (λ i h. rw (z i, unfilled (cur + i) (omega arith)) at (got i h)))))),
      rw (inside, fits)
          (bind found (λ bids fs1 (same, unfilled). rw same (
            bind
              (sfs_write_loop-Spans (len + 1) bids (blocks_of (fs.fdtable fd).inode) buf 0 len
                (cur % sfs_block_size) cur tmp fs (omega arith) small (as_span bids unfilled)
                (λ h. refl))
              (λ cur' fs2 (_, spans).
                returns (λ i h. rw (z i, unfilled (cur + i) (omega arith)) at (spans.own i h)))))),
    )
