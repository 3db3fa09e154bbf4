-- ===== src/Dfs/LocalFs/RoundTrip.antt =====
-- A block that the datanode of exta2.c writes for the first time is read back.
use class_projects.Base.{
  ℕ, ◌+◌, ◌-◌, ◌*◌, ◌/◌, ◌<◌, ◌≡◌, ◌≢◌, ◌∙◌, refl, true, false, arith, inr, [], ◌∷◌,
}
use class_projects.Base.Names.{Name, length}
use class_projects.Base.Bytes.{Bytes, SameBytes}
use class_projects.Base.Run.{Returns, returns, bind, mono, and_then}
use class_projects.Fs.{Sfs, sfs_block_size, read_sb, sfs_print_info}
use class_projects.Fs.Dirs.{sfs_mkdir-existing}
use class_projects.Fs.Freemap.{used}
use class_projects.Fs.Image.{read_sb-IsMounted, read_sb-IsFormatted}
use class_projects.Fs.Files.{sfs_close}
use class_projects.Fs.Strings.{same_string-same}
use class_projects.Fs.Files.Room.{Created}
use class_projects.Fs.Files.Create.{sfs_open-new}
use class_projects.Fs.Content.Grown.{grown, grown-name, grown-size, IsNew}
use class_projects.Fs.Content.New.{Wrote, sfs_write-new}
use class_projects.Dfs.Types.{dfs_block_size}
use class_projects.Dfs.Datanode.Paths.{length_block_path}
use class_projects.Dfs.LocalFs.{
  Junk, slash, local_block_path, path_overflows, local_read_block, local_write_block, write_path,
}
use class_projects.Dfs.LocalFs.Reads.{IsReady, After, free_fd-zero, first_named-one, after-read}

-- The file is made, and then written.
module _ (d i m q b : ℕ) (name : Name) (buf : Bytes) (fs s1 s2 s3 : Sfs)
    (short : 8 + length name < sfs_block_size) (ready : IsReady fs d i m name) where
  IsNew-Created : Created 0 d i q m name fs s1 → IsNew s1 0 (m + 1)
  IsNew-Created c =
      let (room, free) = ready.free in
      let at = c.inode in
      record {
        mounted = c.mounted;
        free =
            (omega arith, (λ j h h'. c.later j (omega arith) ∙ free j (omega arith) (omega arith)));
        full = c.marked 0 ready.full;
        inside = omega (arith, c.size, ready.inside);
        small = omega (arith, c.size, ready.room.small);
        empty = c.empty;
        no_frame = c.no_frame;
        behind = omega (arith, at, c.behind);
        there = omega (arith, at, c.below, c.size, ready.inside);
        marked = rw at c.taken;
      }

  Created-After :
      Created 0 d i q m name fs s1
      → Wrote 0 (m + 1) b buf dfs_block_size s1 s2
      → s3.fh ≡ s2.fh
      → (s3.fdtable 0).valid ≡ 0
      → After d i q name (grown b (s1.fdtable 0).inode) buf fs s3
  Created-After c w image closed =
      let at = c.inode in
      let inode = (s1.fdtable 0).inode in
      let behind = ready.room.dir_behind in
      let d_whole = ready.room.dir_whole in
      let d_used : used s1.freemap (d - 1) ≡ true = c.marked (d - 1) ready.room.dir_used in
      let ne : d ≢ q = λ e.
        absurd (let u = ready.room.dir_used in let f = c.was_free in let g = rw e at u in cc) in
      record {
        size = rw image (w.size ∙ c.size);
        closed = closed;
        behind = c.behind;
        whole = rw image (omega (arith, w.size, c.size, c.below, ready.inside));
        named =
            same_string-same (grown b inode) inode 8 sfs_block_size name short
              (λ o h _. grown-name b inode o h)
            ∙ c.named;
        dir = λ o h.
            let z : (d * sfs_block_size + o) / sfs_block_size ≡ d = omega arith in
            rw image (
              w.outside (d * sfs_block_size + o) (omega (arith, c.size)) (inr (omega arith))
                (rw (z, at) ne) (rw z d_used)
              ∙ c.dir o h);
        on_disk = λ o h. rw (image) (rw at at (w.on_disk o h));
        kept = λ x lt out nd in_use.
            let nq : x / sfs_block_size ≢ q =
              λ e. absurd (let f = c.was_free in let g = rw e at in_use in cc) in
            rw image (
              w.outside x (omega (arith, c.size)) out (rw at nq) (c.marked _ in_use)
              ∙ c.outside x lt out nd nq);
        file = rw image w.file;
        long = omega (arith, grown-size b inode);
        own = λ o h. rw image (w.own o h);
      }

-- The superblock in memory is read again.
read_sb-IsReady :
    (fs : Sfs) (d i m : ℕ) (name : Name) → IsReady fs d i m name → IsReady (read_sb fs) d i m name
read_sb-IsReady fs d i m name ready = record {
  formatted = read_sb-IsFormatted fs ready.formatted;
  dirs = ready.dirs;
  is_slash = ready.is_slash;
  room = record {
    small = ready.room.small;
    dir_whole = ready.room.dir_whole;
    dir_behind = ready.room.dir_behind;
    dir_used = ready.room.dir_used;
    place = ready.room.place;
    vacant = ready.room.vacant;
    before = ready.room.before;
    others = ready.room.others;
    inodes = ready.room.inodes;
  };
  no_open = ready.no_open;
  free = ready.free;
  full = ready.full;
  inside = ready.inside;
}

-- The file is made in block `q` and gets its frame in block `b`.
pub record Added (d i m q b : ℕ) (name : Name) (buf : Bytes) (fs s1 s : Sfs) : Type 0 where
  pub created : Created 0 d i q m name (read_sb fs) s1
  pub written :
      (s2 : Sfs) × Wrote 0 (m + 1) b buf dfs_block_size s1 s2
      × (s.fh ≡ s2.fh)
      × (s.freemap ≡ s2.freemap)
      × (s.freemap_words ≡ s2.freemap_words)
  pub closed : (s.fdtable 0).valid ≡ 0

-- A file that was not there is made and written.
pub write_path-Added :
    (k : ℕ) (junk : Junk) (name : Name) (buf : Bytes) (fs : Sfs) (d i m : ℕ)
    → 1 < k
    → 8 + length name < sfs_block_size
    → IsReady fs d i m name
    → Returns
        (λ _ s. (q : ℕ) × (b : ℕ) × (s1 : Sfs) × Added d i m q b name buf fs s1 s)
        (write_path k junk name buf fs)
unfolding sfs_print_info sfs_close
write_path-Added k junk name buf fs d i m lt short ready =
    let ready1 = read_sb-IsReady fs d i m name ready in
    let is_first =
      first_named-one fs.fh d slash ready.room.small ready.room.dir_whole ready.is_slash in
    let (room, free) = ready.free in
    bind
      (sfs_open-new k 0 d i m (d ∷ []) junk.dir junk.inode slash name fs (omega arith) short
        ready.dirs lt is_first ready.room (free_fd-zero fs.fdtable ready.no_open)
        (read_sb-IsMounted fs ready.formatted) ((omega arith), (λ j h h'. free j h (omega arith)))
        ready.full (omega (arith, ready.inside)))
      (λ r s1 (opened, q, c). rw opened (
        bind
          (sfs_write-new k 0 dfs_block_size (m + 1) junk.frame junk.tmp buf junk.bids s1
            (omega arith) (omega arith) (omega arith) c.cursor
            (IsNew-Created d i m q 0 name buf (read_sb fs) s1 s1 s1 short ready1 c))
          (λ _ s2 (_, b, w). returns (
            q,
            b,
            s1,
            record { created = c; written = (s2, w, refl, refl, refl); closed = refl },
          ))))

-- What `local_write_block` leaves.
local_write_block-After :
    (k : ℕ) (junk : Junk) (filename : Name) (id : ℕ) (buf : Bytes) (fs : Sfs) (d i m : ℕ)
    → 1 < k
    → path_overflows filename id ≡ false
    → 8 + length (local_block_path filename id) < sfs_block_size
    → IsReady fs d i m (local_block_path filename id)
    → Returns
        (λ _ s.
          (q : ℕ) × (inode : Bytes) × (fs' : Sfs) × IsReady fs' d i m (local_block_path filename id)
          × After d i q (local_block_path filename id) inode buf fs' s)
        (local_write_block k junk filename id buf fs)
unfolding local_write_block
local_write_block-After k junk filename id buf fs d i m lt fits short ready =
    let name = local_block_path filename id in
    let fs1 = read_sb (read_sb fs) in
    let ready1 = read_sb-IsReady (read_sb fs) d i m name (read_sb-IsReady fs d i m name ready) in
    let ready2 = read_sb-IsReady fs1 d i m name ready1 in
    let is_first =
      first_named-one fs.fh d slash ready.room.small ready.room.dir_whole ready.is_slash in
    let there =
      sfs_mkdir-existing k slash (d ∷ []) junk.new_dir fs (omega arith) ready.dirs lt
        (λ e. omega (arith, e, is_first, ready.room.dir_behind)) in
    rw (fits, there)
      (mono (write_path-Added k junk name buf fs1 d i m lt short ready1) (λ _ s (q, b, s1, added).
        let (s2, w, image, _, _) = added.written in
        (
          q,
          grown b (s1.fdtable 0).inode,
          read_sb fs1,
          ready2,
          Created-After d i m q b name buf (read_sb fs1) s1 s2 s short ready2 added.created w image
              added.closed,
        )))

-- A datanode on the file system of a2 that writes a block with an id of one digit, whose file is not
-- there, reads the same bytes back. The file system has the one directory "/", with a free place, no
-- open file and 129 free blocks in a row, and the name of the owner fits an inode. Writing and reading
-- go through the path, the directory, the inode and the frame on the disk.
local_read_block-local_write_block :
    (k : ℕ) (junk junk' : Junk) (filename : Name) (id : ℕ) (buf got : Bytes) (fs : Sfs) (d i m : ℕ)
    → 1 < k
    → id < 10
    → length filename < 498
    → IsReady fs d i m (local_block_path filename id)
    → Returns
        (λ buf' s. SameBytes dfs_block_size buf' buf)
        (and_then
          (local_write_block k junk filename id buf fs)
          (λ _ s. local_read_block k junk' filename id got s))
unfolding local_read_block local_block_path
local_read_block-local_write_block k junk junk' filename id buf got fs d i m lt one len ready =
    let name = local_block_path filename id in
    let path = length_block_path filename id one in
    let fits : path_overflows filename id ≡ false = ground arith in
    let short : 8 + length name < sfs_block_size = omega arith in
    bind (local_write_block-After k junk filename id buf fs d i m lt fits short ready)
      (λ _ s (q, inode, fs', ready', after). rw fits (
        after-read d i q m name inode buf fs' s ready' short after k junk'.dir junk'.inode
          junk'.frame junk'.tmp got junk'.bids lt))
