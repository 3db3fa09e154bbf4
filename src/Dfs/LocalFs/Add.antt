-- ===== src/Dfs/LocalFs/Add.antt =====
-- A datanode of exta2.c writes a block that it does not keep yet.
use class_projects.Base.{
  ℕ, suc, ◌+◌, ◌-◌, ◌*◌, ◌/◌, ◌<◌, ◌≡◌, ◌≢◌, ◌∙◌, refl, sym, true, false, arith, ◌==◌,
  if◌then◌else◌, Bool-cases, inl, inr,
}
use class_projects.Base.Names.{Name, length, same_name, same_name_refl, same_name→eq}
use class_projects.Base.Bytes.{Bytes}
use class_projects.Base.Run.{Returns, mono}
use class_projects.Fs.Word.{put_u32, get_u32-put_u32, get_u32-put_u32_other, put_u32-before}
use class_projects.Fs.{Sfs, sfs_block_size, dir_inode, read_sb}
use class_projects.Fs.Dirs.{block}
use class_projects.Fs.Strings.{IsText, same_string-same}
use class_projects.Fs.Freemap.{used}
use class_projects.Fs.Files.{first_frame, inode_size}
use class_projects.Fs.Files.Room.{Created}
use class_projects.Fs.Content.Blocks.{raw, frame_bid, content_bid, get_u32-same}
use class_projects.Fs.Content.Flat.{file_byte}
use class_projects.Fs.Content.Grown.{grown, grown-name, grown-size, grown-first_frame}
use class_projects.Fs.Content.New.{Wrote}
use class_projects.Dfs.Types.{dfs_block_size}
use class_projects.Dfs.LocalFs.{Junk, slash, write_path}
use class_projects.Dfs.LocalFs.Reads.{IsFile-same}
use class_projects.Dfs.LocalFs.Owned.{FileAt, Spares, IsOwn-Spares, FileAt-Spares, HasDirs-one}
use class_projects.Dfs.LocalFs.Holds.{Holds, IsIdle, Holds-IsReady}
use class_projects.Dfs.LocalFs.Change.{changed}
use class_projects.Dfs.LocalFs.RoundTrip.{write_path-Added}

module _ (d m n left q b : ℕ) (owner : ℕ → ℕ) (names : ℕ → Name) (contents : ℕ → Bytes)
    (name : Name) (buf : Bytes) (fs s1 s2 : Sfs) (text : IsText name)
    (short : 8 + length name < sfs_block_size)
    (new : (j : ℕ) → j < n → same_name (names j) name ≡ false)
    (holds : Holds fs.fh fs.freemap d m n (suc left) owner names contents)
    (c : Created 0 d n q m name (read_sb fs) s1)
    (w : Wrote 0 (m + 1) b buf dfs_block_size s1 s2) where
  -- The new blocks get their owner.
  abbrev owner' : ℕ → ℕ
  owner' x =
      if used fs.freemap (x - 1) then owner x else if x == q then 1 else if x == b then 1 else n + 2

  was_free : (x : ℕ) → used s1.freemap (x - 1) ≡ false → used fs.freemap (x - 1) ≡ false
  was_free x f = elim (Bool-cases (used fs.freemap (x - 1))) [
    | inr e ↦ e
    | inl e ↦ absurd (let g = c.marked (x - 1) e in cc)
  ]

  size : s2.fh.size ≡ fs.fh.size
  size = w.size ∙ c.size

  Add-Spares : Spares 0 fs.fh fs.freemap owner s2.fh s2.freemap owner'
  Add-Spares =
      let at = c.inode in
      let whole = holds.dir.whole in
      let behind = c.behind in
      record {
        size = size;
        super = λ o h.
            let z : o / sfs_block_size ≡ 0 = omega arith in
            let u : used (read_sb fs).freemap 0 ≡ true = holds.full in
            let z' : o / sfs_block_size - 1 ≡ 0 = omega arith in
            w.outside o (omega (arith, c.size)) (inl h) (λ e. omega (arith, e, at))
              (rw z' (c.marked 0 u))
            ∙ c.outside o (omega arith) (inl h) (λ e. omega (arith, e, holds.dir.behind))
                (λ e. omega (arith, e));
        marked = λ j h. w.marked j (c.marked j h);
        tags = λ x h. rw h refl;
        kept = λ u x o own ne h.
            let z : (x * sfs_block_size + o) / sfs_block_size ≡ x = omega arith in
            let whole' = own.whole in
            let nq : x ≢ q = λ e. absurd (let f = c.was_free in let g = rw e at own.in_use in cc) in
            w.outside (x * sfs_block_size + o) (omega (arith, c.size))
              (inr (omega (arith, own.behind))) (rw (z, at) nq) (rw z (c.marked _ own.in_use))
            ∙ c.outside (x * sfs_block_size + o) (omega arith) (inr (omega (arith, own.behind)))
                (rw z (λ e. ne (sym own.tag ∙ rw e holds.dir.tag))) (rw z nq);
      }

  new_file : FileAt s2.fh s2.freemap owner' (n + 2) q name buf
  unfolding frame_bid
  new_file =
      let at = c.inode in
      let inode = (s1.fdtable 0).inode in
      let on_disk : (o : ℕ) → o < sfs_block_size → raw s2.fh q o ≡ grown b inode o =
        λ o h. rw at at (w.on_disk o h) in
      let first : first_frame (raw s2.fh q) ≡ b =
        get_u32-same _ _ 4 sfs_block_size (omega arith) on_disk
        ∙ grown-first_frame b inode w.short in
      let first' = grown-first_frame b inode w.short in
      let sized = grown-size b inode in
      let self : (q == q) ≡ true = ground arith in
      let self' : (b == b) ≡ true = ground arith in
      record {
        placed = record {
          inode = record {
            whole = omega (arith, size, c.below, holds.inside);
            behind = c.behind;
            in_use = w.marked (q - 1) c.taken;
            tag = let f = c.was_free in rw (f, self) refl;
          };
          stored = λ o h.
              on_disk (8 + o) (omega arith)
              ∙ grown-name b inode (8 + o) (omega arith)
              ∙ c.stored o h;
          long =
              let e : inode_size (raw s2.fh q) ≡ inode_size (grown b inode) =
                get_u32-same _ _ 0 sfs_block_size (omega arith) on_disk in
              omega (arith, e, sized);
          frame = rw first (record {
            whole = rw first' at (w.file.frames 0 (omega (arith, sized)));
            behind = w.frame_behind;
            in_use = w.frame_taken;
            tag = let f = was_free b w.frame_free in rw (f, self') (ground arith);
          });
          blocks = λ i h. rw first (record {
            whole = rw first' at (w.file.blocks i (omega (arith, sized)));
            behind = w.blocks_behind i h;
            in_use = w.blocks_taken i h;
            tag =
                let x = content_bid s2.fh b i in
                let f = was_free x (w.blocks_free i h) in
                let nq : (x == q) ≡ false = elim (Bool-cases (x == q)) [
                  | inr e ↦ e
                  | inl e ↦
                      let e' : x ≡ q = ground arith in
                      let g = c.taken in let g' = rw e' at (w.blocks_free i h) in absurd (cc)
                ] in
                let nb : (x == b) ≡ false =
                  let a =
                    rw first' at (w.file.apart i 0 (omega (arith, sized)) (omega (arith, sized))) in
                  ground arith in
                rw (f, nq, nb) refl;
          });
        };
        file = (IsFile-same s2.fh (raw s2.fh q) (grown b inode) on_disk w.file).0;
        own = λ o h. rw (file_byte, first) (rw (file_byte, first') at (w.own o h));
      }

  dir_new : (o : ℕ) → o < sfs_block_size → raw s2.fh d o ≡ put_u32 (124 + 4 * n) q (raw fs.fh d) o
  dir_new o h =
      let z : (d * sfs_block_size + o) / sfs_block_size ≡ d = omega arith in
      let at = c.inode in
      let whole = holds.dir.whole in
      let nq : d ≢ q = λ e. absurd (let f = c.was_free in let g = rw e at holds.dir.in_use in cc) in
      w.outside (d * sfs_block_size + o) (omega (arith, c.size))
        (inr (omega (arith, holds.dir.behind))) (rw (z, at) nq) (rw z (c.marked _ holds.dir.in_use))
      ∙ c.dir o h

  entry_new : dir_inode (raw s2.fh d) n ≡ q
  entry_new =
      get_u32-same _ _ (124 + 4 * n) sfs_block_size (omega (arith, holds.room)) dir_new
      ∙ get_u32-put_u32 (124 + 4 * n) q (raw fs.fh d)
          (omega (arith, c.below, holds.inside, holds.small))

  entry_old : (j : ℕ) → j < 97 → j ≢ n → dir_inode (raw s2.fh d) j ≡ dir_inode (raw fs.fh d) j
  entry_old j lt ne =
      get_u32-same _ _ (124 + 4 * j) sfs_block_size (omega arith) dir_new
      ∙ get_u32-put_u32_other (124 + 4 * n) (124 + 4 * j) q (raw fs.fh d) (ground arith)

  names_distinct :
      (i j : ℕ)
      → i < suc n
      → j < suc n
      → same_name (changed n name names i) (changed n name names j) ≡ true
      → i ≡ j
  names_distinct i j h h' e = elim (Bool-cases (i == n)) [
    | inl x ↦ elim (Bool-cases (j == n)) [
      | inl y ↦ ground arith
      | inr y ↦
          let same = same_name→eq name (names j) (rw (x, y) at e) in
          let f = new j (ground arith) in
          absurd (let g = same_name_refl (names j) in let f' = rw same at f in cc)
    ]
    | inr x ↦ elim (Bool-cases (j == n)) [
      | inl y ↦ absurd (let f = new i (ground arith) in let g = rw (x, y) at e in cc)
      | inr y ↦ holds.distinct i j (ground arith) (ground arith) (rw (x, y) at e)
    ]
  ]

  pub Add-Holds :
      Holds s2.fh s2.freemap d
        (m + 129)
        (suc n)
        left
        owner'
        (changed n name names)
        (changed n buf contents)
  Add-Holds =
      let spares = Add-Spares in
      let small = holds.small in
      let inside = holds.inside in
      let whole = holds.dir.whole in
      record {
        small = omega (arith, size);
        inside = rw size (omega arith);
        in_map = omega (arith, holds.in_map);
        bytes = w.mounted.bytes;
        one =
            get_u32-same _ _ 8 sfs_block_size (omega arith)
              (λ o h. let z : 0 + o ≡ o = omega arith in rw (z, block) (spares.super o h))
            ∙ holds.one;
        full = spares.marked 0 holds.full;
        dir = IsOwn-Spares 0 fs.fh fs.freemap owner s2.fh s2.freemap owner' spares 0 d holds.dir;
        dirs =
            HasDirs-one fs.fh s2.fh d small size whole spares.super
              (get_u32-same _ _ 0 sfs_block_size (omega arith) dir_new
                ∙ get_u32-put_u32_other (124 + 4 * n) 0 q (raw fs.fh d) (inl (omega arith)))
              holds.dirs;
        is_slash =
            same_string-same (raw s2.fh d) (raw fs.fh d) 4 124 slash (omega arith) (λ o _ h.
              dir_new o (omega arith)
              ∙ put_u32-before (124 + 4 * n) q (raw fs.fh d) o (omega arith))
            ∙ holds.is_slash;
        free = λ j h h'.
            w.later j (omega arith)
            ∙ c.later j (omega arith)
            ∙ holds.free j (omega arith) (omega arith);
        room = omega (arith, holds.room);
        vacant = λ j h h'. entry_old j h' (λ e. omega arith) ∙ holds.vacant j (omega arith) h';
        files = λ j h. elim (Bool-cases (j == n)) [
          | inl e ↦
              let z : j ≡ n = ground arith in
              let s : (n == n) ≡ true = ground arith in rw (z, entry_new, s) new_file
          | inr e ↦
              let ne : j ≢ n = ground arith in
              let lt : j < n = omega arith in
              rw (e, entry_old j (omega (arith, holds.room)) ne)
                (FileAt-Spares 0 fs.fh fs.freemap owner s2.fh s2.freemap owner' spares (j + 2) _
                  (names j) (contents j) (λ x. omega (arith, x)) (λ x. omega (arith, x))
                  (holds.short j lt) (holds.files j lt))
        ];
        texts = λ j h. elim (Bool-cases (j == n)) [
          | inl e ↦ rw e text
          | inr e ↦ rw e (holds.texts j (ground arith))
        ];
        short = λ j h. elim (Bool-cases (j == n)) [
          | inl e ↦ rw e short
          | inr e ↦ rw e (holds.short j (ground arith))
        ];
        distinct = names_distinct;
      }

-- The block is kept from then on, with the buffer as its content.
pub write_path-Adds :
    (k : ℕ) (junk : Junk) (name : Name) (buf : Bytes) (fs : Sfs) (d m n left : ℕ) (owner : ℕ → ℕ)
    (names : ℕ → Name) (contents : ℕ → Bytes)
    → 1 < k
    → IsText name
    → 8 + length name < sfs_block_size
    → ((j : ℕ) → j < n → same_name (names j) name ≡ false)
    → IsIdle fs
    → Holds fs.fh fs.freemap d m n (suc left) owner names contents
    → Returns
        (λ _ s.
          IsIdle s
          × (owner1 : ℕ → ℕ) × Holds s.fh s.freemap d
              (m + 129)
              (suc n)
              left
              owner1
              (changed n name names)
              (changed n buf contents))
        (write_path k junk name buf fs)
write_path-Adds k junk name buf fs d m n left owner names contents lt text short new idle holds =
    mono
      (write_path-Added k junk name buf fs d n m lt short
        (Holds-IsReady d m n left owner names contents fs idle name text new holds))
      (λ _ s (q, b, s1, added).
        let (s2, w, image, map, words) = added.written in
        (
          record { words = words ∙ w.mounted.words; no_open = added.closed },
          owner' d m n left q b owner names contents name buf fs s1 s2 text short new holds
              added.created w,
          rw (image, map)
              (Add-Holds d m n left q b owner names contents name buf fs s1 s2 text short new holds
                added.created w),
        ))
