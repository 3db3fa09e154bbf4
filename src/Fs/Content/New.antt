-- ===== src/Fs/Content/New.antt =====
-- The first `sfs_write` of fs.c to a file.
use class_projects.Base.{
  ℕ, ◌+◌, ◌-◌, ◌*◌, ◌/◌, ◌%◌, ◌≤◌, ◌<◌, ◌≡◌, ◌≢◌, ◌⊎◌, ◌∙◌, refl, sym, true, false, arith, ltb, leb,
}
use class_projects.Base.Bytes.{Bytes}
use class_projects.Base.Run.{Returns, bind, mono}
use class_projects.Fs.Word.{u32_end}
use class_projects.Fs.{Sfs, sfs_block_size, sfs_max_opened_files}
use class_projects.Fs.Files.{inode_size, first_frame}
use class_projects.Fs.Content.{sfs_frame_count, sfs_write}
use class_projects.Fs.Content.Blocks.{raw, IsWhole, frame_bid, content_bid, content_bid-same}
use class_projects.Fs.Content.Flat.{blocks_of, IsFile, file_byte}
use class_projects.Fs.Freemap.{used, IsMounted}
use class_projects.Fs.Content.Grown.{grown, grown-first_frame, grown-size, Fresh, IsNew}
use class_projects.Fs.Content.Fresh.{sfs_resize_file-new}
use class_projects.Fs.Content.Kept.{Leaves, SameTables, sfs_write-file_byte}

-- The file at `fd` has its frame in block `b`, and begins with the bytes of the buffer.
pub record Wrote (fd m b : ℕ) (buf : Bytes) (len : ℕ) (fs fs' : Sfs) : Type 0 where
  pub short : b < u32_end
  pub entry :
      fs'.fdtable fd ≡ record (fs.fdtable fd) { inode = grown b (fs.fdtable fd).inode; cur = len }
  pub file : IsFile fs'.fh (grown b (fs.fdtable fd).inode)
  pub own : (i : ℕ) → i < len → file_byte fs'.fh (grown b (fs.fdtable fd).inode) i ≡ buf i
  pub on_disk :
      (o : ℕ)
      → o < sfs_block_size
      → raw fs'.fh (fs.fdtable fd).inode_bid o ≡ grown b (fs.fdtable fd).inode o
  pub outside :
      (x : ℕ)
      → x < fs.fh.size
      → (x < sfs_block_size) ⊎ (2 * sfs_block_size ≤ x)
      → x / sfs_block_size ≢ (fs.fdtable fd).inode_bid
      → used fs.freemap (x / sfs_block_size - 1) ≡ true
      → fs'.fh.byte x ≡ fs.fh.byte x
  pub size : fs'.fh.size ≡ fs.fh.size
  pub frame_behind : 2 ≤ b
  pub frame_free : used fs.freemap (b - 1) ≡ false
  pub frame_taken : used fs'.freemap (b - 1) ≡ true
  pub blocks_behind : (i : ℕ) → i < sfs_frame_count → 2 ≤ content_bid fs'.fh b i
  pub blocks_free :
      (i : ℕ) → i < sfs_frame_count → used fs.freemap (content_bid fs'.fh b i - 1) ≡ false
  pub blocks_taken :
      (i : ℕ) → i < sfs_frame_count → used fs'.freemap (content_bid fs'.fh b i - 1) ≡ true
  pub marked : (j : ℕ) → used fs.freemap j ≡ true → used fs'.freemap j ≡ true
  pub later : (j : ℕ) → m + 128 ≤ j → used fs'.freemap j ≡ used fs.freemap j
  pub mounted : IsMounted fs'

-- What lies in a block that was in use is not in a block that was taken.
Fresh-Wrote :
    (fd m b len : ℕ) (buf : Bytes) (fs fs1 fs' : Sfs)
    → IsMounted fs
    → 2 ≤ (fs.fdtable fd).inode_bid
    → IsWhole fs.fh (fs.fdtable fd).inode_bid
    → used fs.freemap ((fs.fdtable fd).inode_bid - 1) ≡ true
    → Fresh fd m b fs fs1
    → (fs'.fdtable fd ≡ record (fs1.fdtable fd) { cur = len })
    → Leaves (grown b (fs.fdtable fd).inode) buf 0 len fs1.fh fs'.fh
    → SameTables fs1 fs'
    → Wrote fd m b buf len fs fs'
unfolding frame_bid
Fresh-Wrote fd m b len buf fs fs1 fs' mounted behind there marked fresh entry leaves tables =
    let inode = (fs.fdtable fd).inode in
    let e : first_frame (grown b inode) ≡ b = grown-first_frame b inode fresh.short in
    let n : blocks_of (grown b inode) ≡ 127 = omega (arith, grown-size b inode) in
    let apart : (x : ℕ)
        → used fs.freemap (x / sfs_block_size - 1) ≡ true
        → (i : ℕ) → i < blocks_of (grown b inode)
        → x / sfs_block_size ≢ content_bid fs1.fh (first_frame (grown b inode)) i =
      λ x in_use i h same.
        let f = fresh.blocks_free i (omega (arith, n)) in
        let s : x / sfs_block_size ≡ content_bid fs1.fh b i = rw e at same in
        absurd (let g = rw s at in_use in cc) in
    let listed : (i : ℕ) → i < 127 → content_bid fs'.fh b i ≡ content_bid fs1.fh b i = λ i h.
      content_bid-same fs1.fh fs'.fh b i h (λ o lt.
        leaves.apart (b * sfs_block_size + o)
          (omega (arith, rw e at (fresh.file.frames 0 (omega (arith, n)))))
          (λ j h' same.
            let at_frame : (b * sfs_block_size + o) / sfs_block_size ≡ b = omega arith in
            fresh.file.apart j 0 h' (omega (arith, n)) (sym same ∙ at_frame ∙ sym e))) in
    record {
      short = fresh.short;
      entry = entry ∙ rw fresh.entry refl;
      file = leaves.file;
      own = λ i h. let z : 0 + i ≡ i = omega arith in rw z at (leaves.own i h);
      on_disk = λ o h.
          let q = (fs.fdtable fd).inode_bid in
          let z : (q * sfs_block_size + o) / sfs_block_size ≡ q = omega arith in
          leaves.apart (q * sfs_block_size + o) (omega (arith, fresh.size))
            (apart (q * sfs_block_size + o) (rw z marked))
          ∙ fresh.on_disk o h;
      outside = λ x lt out nq in_use.
          leaves.apart x (omega (arith, fresh.size)) (apart x in_use)
          ∙ fresh.outside x lt out
              (λ same. let f = fresh.frame_free in absurd (let g = rw same at in_use in cc)) nq;
      size = leaves.size ∙ fresh.size;
      frame_behind = fresh.frame_behind;
      frame_free = fresh.frame_free;
      frame_taken = rw tables.freemap fresh.frame_taken;
      blocks_behind = λ i h. rw (listed i h) (fresh.blocks_behind i h);
      blocks_free = λ i h. rw (listed i h) (fresh.blocks_free i h);
      blocks_taken = λ i h. rw (tables.freemap, listed i h) (fresh.blocks_taken i h);
      marked = λ j h. rw tables.freemap (fresh.marked j h);
      later = λ j h. rw tables.freemap (fresh.later j h);
      mounted = record {
        bytes = rw tables.freemap fresh.mounted.bytes;
        words = tables.freemap_words ∙ fresh.mounted.words;
        blocks = rw tables.sb fresh.mounted.blocks;
      };
    }

-- The first write to a file, at its start and of less than 64512 bytes, where 128 blocks in a row are
-- free: the file gets a frame and the bytes of the buffer, in memory and on disk, and no block that was
-- in use changes but that of the inode and the freemap. All blocks in use stay so, the new ones were
-- free, and no mark behind the 128 blocks changes.
pub sfs_write-new :
    (k fd len m : ℕ) (frame tmp buf : Bytes) (junk : ℕ → ℕ) (fs : Sfs)
    → fd < sfs_max_opened_files
    → 0 < len
    → len < 64512
    → (fs.fdtable fd).cur ≡ 0
    → IsNew fs fd m
    → Returns
        (λ n fs'. (n ≡ len) × (b : ℕ) × Wrote fd m b buf len fs fs')
        (sfs_write k frame tmp junk fd buf len fs)
unfolding sfs_write
sfs_write-new k fd len m frame tmp buf junk fs table some_bytes lt start new =
    let inside : leb sfs_max_opened_files fd ≡ false = ground arith in
    let z : (0 + len) % u32_end ≡ len = omega arith in
    let z0 : 0 + len ≡ len = omega arith in
    let empty = new.empty in
    let grows : ltb (inode_size (fs.fdtable fd).inode) len ≡ true = ground arith in
    rw (start, inside, z, grows)
      (bind (sfs_resize_file-new k fd len m frame fs some_bytes (omega arith) new)
        (λ _ fs1 (b, fresh).
          let inode = (fs.fdtable fd).inode in
          let e : fs1.fdtable fd ≡ record (fs.fdtable fd) { inode = grown b inode } = fresh.entry in
          let c : (fs1.fdtable fd).cur ≡ 0 = rw e start in
          let fits : ltb (inode_size (fs1.fdtable fd).inode) len ≡ false =
            rw e (ground (arith, grown-size b inode)) in
          let w =
            sfs_write-file_byte k fd len frame tmp buf junk fs1 table (rw e fresh.file)
              (omega (arith, c)) (rw e (omega (arith, start, grown-size b inode))) in
          mono (rw (c, inside, z, fits) at w) (λ n fs' (n_is, entry, leaves, tables). (
            n_is,
            b,
            Fresh-Wrote fd m b len buf fs fs1 fs' new.mounted new.behind new.there new.marked fresh
                (entry ∙ rw z0 refl) (rw e at leaves) tables,
          ))))
