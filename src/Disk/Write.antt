-- ===== src/Disk/Write.antt =====
-- `mydisk_write_block`: what a reader sees after it.
use class_projects.Base.{
  ℕ, ◌+◌, ◌*◌, ◌-◌, ◌≤◌, ◌<◌, ◌≡◌, ◌≢◌, refl, sym, ◌∙◌, true, false, none, some, arith,
  Option-cases, Bool-cases, inl, inr, ◌==◌,
}
use class_projects.Base.Run.{done, Returns, returns}
use class_projects.Base.Bytes.{Bytes, copy, file_write}
use class_projects.Disk.{
  Disk, Status, hit, ok, block_size, find_cached_entry, mark_dirty, set_entry, mydisk_write_block,
}
use class_projects.Disk.Find.{
  find_cached_entry-some, find_cached_entry-none, find_cached_entry-same,
}
use class_projects.Disk.Inv.{
  IsCached, IsValid, Holds, in_file, view, view-hit, view-miss, view-plain,
}
use class_projects.Disk.Read.{expected, SameSetup}

abbrev pub written : ℕ → Bytes → ℕ → Disk → Disk
written b buf p d = record d { file = file_write d.file (b * block_size) block_size buf p }

-- The two writes to a cached entry: its content, then the mark.
abbrev stored : ℕ → Bytes → ℕ → Disk → Disk
stored i buf p d =
    let e = d.ring_buffer i in
    set_entry i (record e { content = copy block_size e.content 0 buf p }) d

abbrev pub updated : ℕ → Bytes → ℕ → Disk → Disk
updated i buf p d =
    let d' = stored i buf p d in set_entry i (record (d'.ring_buffer i) { is_dirty = true }) d'

-- Block `b` now shows the bytes at `buf + p`, and every other block what it showed.
abbrev pub WritesBlock : ℕ → Bytes → ℕ → Disk → Status → Disk → Type 0
WritesBlock b buf p d s d' =
    (s ≡ expected b d)
    × ((o : ℕ) → o < block_size → view d' b o ≡ buf (o + p))
    × ((k o : ℕ) → k < d.max_blocks → k ≢ b → o < block_size → view d' k o ≡ view d k o)
    × IsValid d'
    × SameSetup d d'

module _ (d : Disk) (b : ℕ) (buf : Bytes) (p : ℕ) where
  written-own : (o : ℕ) → o < block_size → in_file (written b buf p d) b o ≡ buf (o + p)
  written-own o h =
      let z : b * block_size + o - b * block_size + p ≡ o + p = omega arith in ground arith

  written-other :
      (k o : ℕ)
      → d.max_blocks * block_size ≤ d.file.size
      → k < d.max_blocks
      → k ≢ b
      → o < block_size
      → in_file (written b buf p d) k o ≡ in_file d k o
  written-other k o whole lt ne h = ground arith

  -- The write behind a hit.
  hit-eq :
      (i : ℕ)
      → b < d.max_blocks
      → d.cache_enabled ≡ true
      → find_cached_entry b d ≡ some i
      → mydisk_write_block b buf p d ≡ done hit (updated i buf p d)
  unfolding mydisk_write_block mark_dirty
  hit-eq i lt on e =
      let again : find_cached_entry b (stored i buf p d) ≡ some i =
        find_cached_entry-same d (stored i buf p d) b refl (λ j. ground arith) ∙ e in
      ground arith

  miss-eq :
      b < d.max_blocks
      → d.cache_enabled ≡ true
      → find_cached_entry b d ≡ none
      → mydisk_write_block b buf p d ≡ done ok (written b buf p d)
  unfolding mydisk_write_block
  miss-eq lt on e = ground arith

  plain-eq :
      b < d.max_blocks
      → d.cache_enabled ≡ false
      → mydisk_write_block b buf p d ≡ done ok (written b buf p d)
  unfolding mydisk_write_block
  plain-eq lt off = ground arith

  -- A write to the file, at a block that the cache does not hold.
  module _ (v : IsValid d) (lt : b < d.max_blocks) where
    written-IsCached : IsCached d → ((i : ℕ) → ¬ Holds d i b) → IsCached (written b buf p d)
    written-IsCached c out = record {
      wide = c.wide;
      alloc = c.alloc;
      pos_in = c.pos_in;
      size_in = c.size_in;
      filling = c.filling;
      used = c.used;
      unused = c.unused;
      distinct = c.distinct;
      clean = λ i k o h q l ho.
          let ne : k ≢ b = λ e. out i (h.0, rw (← e) h.1) in
          c.clean i k o h q l ho ∙ sym (written-other k o v.whole l ne ho);
    }

    updated-id :
        (i j : ℕ) → ((updated i buf p d).ring_buffer j).block_id ≡ (d.ring_buffer j).block_id
    updated-id i j = ground arith

    updated-IsCached : (i : ℕ) → IsCached d → Holds d i b → IsCached (updated i buf p d)
    updated-IsCached i c at = record {
      wide = c.wide;
      alloc = c.alloc;
      pos_in = c.pos_in;
      size_in = c.size_in;
      filling = c.filling;
      used = λ j h. let (k, m, le) = c.used j h in (k, rw (updated-id i j) m, le);
      unused = λ j h q. let ne : j ≢ i = omega (arith, at.0) in ground (arith, c.unused j h q);
      distinct = λ j j' k h h'.
          c.distinct j j' k (h.0, rw (updated-id i j) at h.1) (h'.0, rw (updated-id i j') at h'.1);
      clean = λ j k o h q l ho. elim (Bool-cases (j == i)) [
        | inl e ↦ ground arith
        | inr e ↦ ground (arith, c.clean j k o (h.0, rw (updated-id i j) at h.1))
      ];
    }

    written-view :
        (k o : ℕ)
        → k < d.max_blocks
        → k ≢ b
        → o < block_size
        → view (written b buf p d) k o ≡ view d k o
    unfolding view
    written-view k o l ne ho = ground (
      arith,
      find_cached_entry-same d (written b buf p d) k refl (λ j. refl),
      written-other k o v.whole l ne ho,
    )

    updated-view : (i k o : ℕ) → k ≢ b → Holds d i b → view (updated i buf p d) k o ≡ view d k o
    unfolding view
    updated-view i k o ne at = elim (Option-cases (find_cached_entry k d)) [
      | inl e ↦ ground (arith, find_cached_entry-same d (updated i buf p d) k refl (updated-id i))
      | inr (j, e) ↦
          let h : Holds d j k = find_cached_entry-some d k e in
          let apart : j ≢ i = λ q. ne (ground arith) in
          ground (arith, find_cached_entry-same d (updated i buf p d) k refl (updated-id i))
    ]

    written-whole : d.max_blocks * block_size ≤ (written b buf p d).file.size
    written-whole = omega (arith, v.whole)

    -- A block below `max_blocks` is written without fault: its view becomes the bytes written, every
    -- other block keeps its view, the status says whether it was cached, and the disk stays valid.
    pub mydisk_write_block-view : Returns (WritesBlock b buf p d) (mydisk_write_block b buf p d)
    mydisk_write_block-view = elim (Bool-cases d.cache_enabled) [
      | inr off ↦ rw (plain-eq lt off) (
          returns (
            ground arith,
            (λ o h. view-plain (written b buf p d) b o off ∙ written-own o h),
            written-view,
            record { whole = written-whole; cached = λ q. cc },
            ground arith,
          ))
      | inl on ↦ (elim (Option-cases (find_cached_entry b d)) [
        | inl e ↦
            let out : (i : ℕ) → ¬ Holds d i b = λ i h. find_cached_entry-none d b i e h.0 h.1 in
            rw (miss-eq lt on e) (
              returns (
                ground arith,
                (λ o h.
                    view-miss (written b buf p d) b o (λ i l m. out i (l, m)) ∙ written-own o h),
                written-view,
                record { whole = written-whole; cached = λ q. written-IsCached (v.cached on) out },
                ground arith,
              ))
        | inr (i, e) ↦
            let at : Holds d i b = find_cached_entry-some d b e in
            let c' = updated-IsCached i (v.cached on) at in
            rw (hit-eq i lt on e) (
              returns (
                ground arith,
                (λ o h.
                    view-hit (updated i buf p d) b o i c' on (at.0, rw (updated-id i i) at.1)
                    ∙ (let z : o - 0 + p ≡ o + p = omega arith in ground arith)),
                (λ k o _ ne _. updated-view i k o ne at),
                record { whole = v.whole; cached = λ q. c' },
                ground arith,
              ))
      ])
    ]
