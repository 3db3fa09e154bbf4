-- ===== src/Fs/Files/Create.antt =====
-- `sfs_open` of fs.c for a file that its directory does not hold.
use class_projects.Base.{
  ℕ, ◌+◌, ◌-◌, ◌*◌, ◌/◌, ◌%◌, ◌≤◌, ◌<◌, ◌≡◌, ◌∙◌, refl, true, false, Option, none, some, arith,
  ◌==◌, if◌then◌else◌, Bool-cases, inl, inr, List,
}
use class_projects.Base.Names.{Name, length}
use class_projects.Base.Bytes.{Bytes}
use class_projects.Base.Run.{Returns, returns, bind}
use class_projects.Fs.Word.{put_u32, get_u32-put_u32, get_u32-put_u32_other}
use class_projects.Fs.{
  Sfs, sfs_block_size, sfs_max_opened_files, sfs_read_block, sfs_write_block, read_sb, same_string,
  strncpy, char_at,
}
use class_projects.Fs.Dirs.{HasDirs, first_named, sfs_find_dir-first}
use class_projects.Fs.Freemap.{used, IsMounted}
use class_projects.Fs.Files.{
  set_fd, free_fd, find_inode, opened, create_inode, open_inode, sfs_open,
}
use class_projects.Fs.Content.Blocks.{raw, IsWhole, read_raw}
use class_projects.Fs.Content.Span.{two_blocks-byte, two_blocks-size}
use class_projects.Fs.Content.Fills.{IsFree, Takes, sfs_alloc_block-Takes}
use class_projects.Fs.Strings.{same_string-same, same_string-strncpy}
use class_projects.Fs.Files.Room.{HasRoom, Created, find_inode-none, free_inode-first}

module _ (fs : Sfs) (d : ℕ) (name : Name) (i : ℕ) (dir : Bytes) (room : HasRoom fs d name i)
    (short : 8 + length name < sfs_block_size)
    (same : (o : ℕ) → o < sfs_block_size → dir o ≡ raw fs.fh d o) where
  module _ (fd m : ℕ) (mounted : IsMounted fs) (free : used fs.freemap m ≡ false)
      (full : used fs.freemap 0 ≡ true) (inside : m + 1 < fs.fh.size / sfs_block_size)
      (in_map : m < 4096) (inode : Bytes) where
    abbrev new_inode : Bytes
    new_inode = put_u32 0 0 (put_u32 4 0 (strncpy 504 inode 8 name))

    abbrev created : ℕ → Sfs → Sfs
    created q fs1 =
        set_fd fd (opened d q new_inode)
          (sfs_write_block new_inode 0 q (sfs_write_block (put_u32 (124 + 4 * i) q dir) 0 d fs1))

    new_inode-named : same_string new_inode 8 name ≡ true
    unfolding put_u32
    new_inode-named =
        let z : (i : ℕ) → 0 + i ≡ i = λ i. omega arith in
        let z' : 8 + 0 ≡ 8 = refl in
        same_string-same new_inode (strncpy 504 inode 8 name) 8 sfs_block_size name short
          (λ o h h'. ground arith)
        ∙ same_string-strncpy inode 8 504 0 name (omega arith) name (λ i. rw (z i) refl)

    new_inode-stored : (o : ℕ) → o ≤ length name → new_inode (8 + o) ≡ char_at name o
    unfolding put_u32
    new_inode-stored o h = let z : 8 + o - 8 + 0 ≡ o = omega arith in ground arith

    -- The bytes of the image at the end.
    created_byte :
        (q x : ℕ) (fs1 : Sfs)
        → fs1.fh.size ≡ fs.fh.size
        → IsWhole fs.fh q
        → x < fs.fh.size
        → (created q fs1).fh.byte x ≡ (
            if x / sfs_block_size == q
            then new_inode (x % sfs_block_size)
            else if x / sfs_block_size == d
            then put_u32 (124 + 4 * i) q dir (x % sfs_block_size)
            else fs1.fh.byte x)
    created_byte q x fs1 size whole lt =
        let small = room.small in
        let dir_whole = room.dir_whole in
        two_blocks-byte fs1 (put_u32 (124 + 4 * i) q dir) new_inode d q (omega arith) (omega arith)
          (omega arith) x (omega arith)

    created-Created :
        (q : ℕ) (fs1 : Sfs) → Takes 1 m q fs fs1 → Created fd d i q m name fs (created q fs1)
    unfolding put_u32
    created-Created q fs1 takes =
        let small = room.small in
        let dir_whole = room.dir_whole in
        let below = takes.below in
        let above = takes.above in
        let own : (fd == fd) ≡ true = ground arith in
        let size : fs1.fh.size ≡ fs.fh.size = omega (arith, takes.keeps.size) in
        let whole : IsWhole fs.fh q = omega arith in
        let ne : (d == q) ≡ false = elim (Bool-cases (d == q)) [
          | inr t ↦ t
          | inl t ↦
              let e : d ≡ q = ground arith in
              let f = takes.free in absurd (let g = rw e at room.dir_used in cc)
        ] in
        record {
          inode = rw own refl;
          cursor = rw own refl;
          empty =
              rw own (get_u32-put_u32 0 0 (put_u32 4 0 (strncpy 504 inode 8 name)) (omega arith));
          no_frame = rw own (
              get_u32-put_u32_other 0 4 0 (put_u32 4 0 (strncpy 504 inode 8 name))
                (inr (omega arith))
              ∙ get_u32-put_u32 4 0 (strncpy 504 inode 8 name) (omega arith));
          named = rw own new_inode-named;
          stored = λ o h. rw own (new_inode-stored o h);
          behind = above;
          below = below;
          was_free = takes.free;
          taken = takes.taken (q - 1) (omega arith);
          marked = takes.keeps.marked;
          later = takes.later;
          mounted = record {
            bytes = takes.keeps.mounted.bytes;
            words = takes.keeps.mounted.words;
            blocks = takes.keeps.mounted.blocks;
          };
          size =
              two_blocks-size fs1 (put_u32 (124 + 4 * i) q dir) new_inode d q (omega arith)
                (omega arith) (omega arith)
              ∙ size;
          dir = λ o h.
              let z : (d * sfs_block_size + o) / sfs_block_size ≡ d = omega arith in
              let z' : (d * sfs_block_size + o) % sfs_block_size ≡ o = omega arith in
              let y : (d == d) ≡ true = ground arith in
              let s = same o h in
              created_byte q (d * sfs_block_size + o) fs1 size whole (omega arith)
              ∙ rw (z, z', ne, y) (ground arith);
          on_disk = λ o h.
              let z : (q * sfs_block_size + o) / sfs_block_size ≡ q = omega arith in
              let z' : (q * sfs_block_size + o) % sfs_block_size ≡ o = omega arith in
              let y : (q == q) ≡ true = ground arith in
              created_byte q (q * sfs_block_size + o) fs1 size whole (omega arith)
              ∙ rw (z, z', y, own) refl;
          outside = λ x lt out nd nq.
              let y : (x / sfs_block_size == q) ≡ false = ground arith in
              let y' : (x / sfs_block_size == d) ≡ false = ground arith in
              created_byte q x fs1 size whole lt ∙ rw (y, y') (takes.keeps.outside x lt out);
        }

    create_inode-Created :
        Returns
          (λ r fs'. (r ≡ some fd) × (q : ℕ) × Created fd d i q m name fs fs')
          (create_inode fd d dir inode name fs)
    unfolding create_inode
    create_inode-Created =
        let first =
          free_inode-first fs d name i dir room short same 97 0 (omega arith)
            (omega (arith, room.place)) (omega arith) in
        rw (create_inode, first)
          (bind
            (sfs_alloc_block-Takes fs 1 m mounted in_map free
              (λ j h. let z : j ≡ 0 = omega arith in rw z full))
            (λ q fs1 takes. returns (refl, q, created-Created q fs1 takes)))

open_inode-new :
    (fd d : ℕ) (dir inode : Bytes) (name : Name) (fs : Sfs) (r : Option ℕ × Bytes)
    → r.0 ≡ none
    → open_inode fd d dir name r fs ≡ create_inode fd d dir r.1 name fs
unfolding open_inode
open_inode-new fd d dir inode name fs (some j, inode') e = absurd (cc)
open_inode-new fd d dir inode name fs (none, inode') e = refl

-- Opening a file that its directory does not hold, with a free descriptor, a free place in the directory
-- and a free block in the image, makes an empty file: its inode is written in a block that was free, its
-- name too, the first free place of the directory has the number of the block, and the descriptor is at
-- 0. Nothing else in the image changes but the freemap. The directory and the inodes of its other files
-- are in use, and the freemap has one block.
pub sfs_open-new :
    (k fd d i m : ℕ) (ids : List ℕ) (dir inode : Bytes) (dirname name : Name) (fs : Sfs)
    → 4 + length dirname < sfs_block_size
    → 8 + length name < sfs_block_size
    → HasDirs fs.fh ids
    → length ids < k
    → first_named fs.fh dirname ids ≡ d
    → HasRoom fs d name i
    → free_fd sfs_max_opened_files 0 fs.fdtable ≡ some fd
    → IsMounted (read_sb fs)
    → IsFree fs m 1
    → used fs.freemap 0 ≡ true
    → m + 1 < fs.fh.size / sfs_block_size
    → Returns
        (λ r fs'. (r ≡ some fd) × (q : ℕ) × Created fd d i q m name (read_sb fs) fs')
        (sfs_open k dir inode dirname name fs)
unfolding sfs_open
sfs_open-new k fd d i m ids dir inode dirname name fs short short' dirs lt e room free_entry mounted
      (in_map, free) full inside =
    let fs1 = read_sb fs in
    let dir' = sfs_read_block dir d fs1 in
    let behind = room.dir_behind in
    let some_dir : (d == 0) ≡ false = ground arith in
    let room1 : HasRoom fs1 d name i = record {
      small = room.small;
      dir_whole = room.dir_whole;
      dir_behind = room.dir_behind;
      dir_used = room.dir_used;
      place = room.place;
      vacant = room.vacant;
      before = room.before;
      others = room.others;
      inodes = room.inodes;
    } in
    let same : (o : ℕ) → o < sfs_block_size → dir' o ≡ raw fs.fh d o =
      λ o h. read_raw fs1 dir d o room.small room.dir_whole h in
    let e' = find_inode-none fs1 d name i dir' room1 short' same 97 0 inode (omega arith) in
    rw (free_entry, sfs_open, sfs_find_dir-first k dirname ids dir fs short dirs lt, e, some_dir)
      (rw (open_inode-new fd d dir' inode name fs1 (find_inode 97 0 dir' inode name fs1) e') (
        create_inode-Created fs1 d name i dir' room1 short' same fd m mounted
          (free m (omega arith) (omega arith)) full inside (omega arith)
          (find_inode 97 0 dir' inode name fs1).1))
