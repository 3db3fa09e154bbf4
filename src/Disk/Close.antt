-- ===== src/Disk/Close.antt =====
-- `init_cache` and `close_cache`: the cache starts empty, and at the end the file holds what the disk
-- showed.
use mathlib.Core.Path.{subst}
use class_projects.Base.{
  ℕ, zero, suc, ◌+◌, ◌*◌, ◌-◌, ◌≤◌, ◌<◌, ◌≡◌, ◌≢◌, ◌⊎◌, refl, sym, ap, ◌∙◌, true, false, some,
  arith, Option-cases, Bool-cases, inl, inr, ◌==◌,
}
use class_projects.Base.Run.{done, Returns, returns, bind}
use class_projects.Base.Bytes.{Bytes, file_write}
use class_projects.Disk.{
  Entry, Disk, block_size, find_cached_entry, mydisk_write_block, write_entry, flush_from,
  close_cache, init_cache,
}
use class_projects.Disk.Find.{find_cached_entry-some, find_cached_entry-none}
use class_projects.Disk.Inv.{
  IsCached, IsValid, Holds, in_file, view, view-hit, view-miss, view-plain,
}

-- A new cache of at least two entries is empty and consistent, and the disk shows its file.
pub init_cache-IsValid :
    (n : ℕ) (junk : ℕ → Bytes) (d : Disk)
    → 2 ≤ n
    → d.max_blocks * block_size ≤ d.file.size
    → IsValid (init_cache n junk d) × ((b o : ℕ) → view (init_cache n junk d) b o ≡ in_file d b o)
unfolding init_cache
init_cache-IsValid n junk d wide whole = (
  record {
    whole = whole;
    cached = λ _. record {
      wide = wide;
      alloc = refl;
      pos_in = wide;
      size_in = omega arith;
      filling = inl refl;
      used = λ i h. elim h [ ];
      unused = λ i h q. (refl, refl);
      distinct = λ i j b h h'. absurd (omega (arith, h.0));
      clean = λ i b o h. absurd (omega (arith, h.0));
    };
  },
  λ b o. view-miss (init_cache n junk d) b o (λ i h. absurd (omega arith)),
)

-- The entries before `i` of the ring of `d0` have been written, with the cache disabled.
record Flushed (d0 : Disk) (i : ℕ) (d : Disk) : Type 0 where
  ring : d.ring_buffer ≡ d0.ring_buffer
  max_blocks : d.max_blocks ≡ d0.max_blocks
  disabled : d.cache_enabled ≡ false
  whole : d0.max_blocks * block_size ≤ d.file.size
  shown :
      (k o : ℕ)
      → k < d0.max_blocks
      → o < block_size
      → ((j : ℕ) × (i ≤ j) × Holds d0 j k × ((d0.ring_buffer j).is_dirty ≡ true))
        ⊎ (in_file d k o ≡ view d0 k o)

module _ (d0 : Disk) (c : IsCached d0) (on : d0.cache_enabled ≡ true) where
  -- A dirty entry is written to its block.
  flush_one :
      (i b : ℕ) (d : Disk)
      → Flushed d0 i d
      → Holds d0 i b
      → b ≤ d0.max_blocks
      → Returns (λ _ d'. Flushed d0 (i + 1) d') (write_entry (d.ring_buffer i) d)
  unfolding write_entry mydisk_write_block
  flush_one i b d f h le =
      let same : (d.ring_buffer i).block_id ≡ some b =
        ap (λ (r : ℕ → Entry). (r i).block_id) f.ring ∙ h.1 in
      let body = (d.ring_buffer i).content in
      let d' : Disk = record d { file = file_write d.file (b * block_size) block_size body 0 } in
      let eq : write_entry (d.ring_buffer i) d ≡ done tt d' =
        ground (arith, f.max_blocks, f.disabled) in
      rw eq (
        returns (record {
          ring = f.ring;
          max_blocks = f.max_blocks;
          disabled = f.disabled;
          whole = omega (arith, f.whole);
          shown = λ k o lt ho. elim (Bool-cases (k == b)) [
            | inl e ↦
                let q : k ≡ b = ground arith in
                let z : b * block_size + o - b * block_size + 0 ≡ o = omega arith in
                let own : in_file d' b o ≡ body o = ground arith in
                inr (
                  rw q (
                    own
                    ∙ ap (λ (r : ℕ → Entry). (r i).content o) f.ring
                    ∙ sym (view-hit d0 b o i c on h)))
            | inr e ↦
                let ne : k ≢ b = ground arith in
                (elim (f.shown k o lt ho) [
                  | inl (j, le', at, dirty) ↦
                      let apart : j ≢ i = λ q. ne (ground arith) in inl (j, omega arith, at, dirty)
                  | inr e' ↦ inr ((let w = f.whole in ground arith) ∙ e')
                ])
          ];
        }))

  -- An entry that is clean is passed over: its block is in the file.
  pass_one :
      (i : ℕ) (d : Disk)
      → Flushed d0 i d
      → (d0.ring_buffer i).is_dirty ≡ false
      → Flushed d0 (i + 1) d
  pass_one i d f clean = record {
    ring = f.ring;
    max_blocks = f.max_blocks;
    disabled = f.disabled;
    whole = f.whole;
    shown = λ k o lt ho. elim (f.shown k o lt ho) [
      | inl (j, le, at, dirty) ↦
          let apart : j ≢ i = λ q. cc in
          let le' : i + 1 ≤ j = omega arith in inl (j, le', at, dirty)
      | inr e ↦ inr e
    ];
  }

  flush_from-Flushed :
      (n i : ℕ) (d : Disk)
      → i + n ≡ d0.cache_size
      → Flushed d0 i d
      → Returns (λ _ d'. Flushed d0 d0.cache_size d') (flush_from n i d)
  unfolding flush_from write_entry
  flush_from-Flushed zero i d e f =
      let q : i ≡ d0.cache_size = omega arith in returns (subst (λ (t : ℕ). Flushed d0 t d) q f)
  flush_from-Flushed (suc n) i d e f =
      let (b, m, le) = c.used i (omega arith) in
      let same : (d.ring_buffer i).is_dirty ≡ (d0.ring_buffer i).is_dirty =
        ap (λ (r : ℕ → Entry). (r i).is_dirty) f.ring in
      elim (Bool-cases (d0.ring_buffer i).is_dirty) [
        | inl dirty ↦
            rw (same, dirty)
              (bind (flush_one i b d f (omega arith, m) le)
                (λ _ d'. flush_from-Flushed n (i + 1) d' (omega arith)))
        | inr clean ↦
            rw (same, clean) (flush_from-Flushed n (i + 1) d (omega arith) (pass_one i d f clean))
      ]

  start_flush : IsValid d0 → Flushed d0 0 (record d0 { cache_enabled = false })
  start_flush v = record {
    ring = refl;
    max_blocks = refl;
    disabled = refl;
    whole = v.whole;
    shown = λ k o lt ho. elim (Option-cases (find_cached_entry k d0)) [
      | inl e ↦ inr (sym (view-miss d0 k o (λ i h. find_cached_entry-none d0 k i e h)))
      | inr (j, e) ↦
          let at : Holds d0 j k = find_cached_entry-some d0 k e in
          (elim (Bool-cases (d0.ring_buffer j).is_dirty) [
            | inl dirty ↦ inl (j, omega arith, at, dirty)
            | inr clean ↦ inr (sym (view-hit d0 k o j c on at ∙ c.clean j k o at clean lt ho))
          ])
    ];
  }

  -- Closing the enabled cache of a valid disk leaves in the file, below `max_blocks`, the bytes that the disk
  -- showed before, dirty entries included; it empties and disables the cache, and the disk is valid,
  -- keeps its size and shows the same bytes.
  pub close_cache-flushes :
      IsValid d0
      → Returns
          (λ _ d'.
            ((b o : ℕ) → b < d0.max_blocks → o < block_size → in_file d' b o ≡ view d0 b o)
            × ((b o : ℕ) → b < d0.max_blocks → o < block_size → view d' b o ≡ view d0 b o)
            × (d'.cache_enabled ≡ false)
            × (d'.cache_size ≡ 0)
            × (d'.max_blocks ≡ d0.max_blocks)
            × IsValid d')
          (close_cache d0)
  unfolding close_cache
  close_cache-flushes v =
      bind (flush_from-Flushed d0.cache_size 0 _ (omega arith) (start_flush v)) (λ _ d f.
        let d' : Disk = record d { ring_length = 0; cache_size = 0; next_insert_pos = 0 } in
        let kept : (b o : ℕ) → b < d0.max_blocks → o < block_size → in_file d b o ≡ view d0 b o =
          λ b o lt ho. elim (f.shown b o lt ho) [
            | inl (j, le, at, _) ↦ absurd (omega (arith, at.0))
            | inr e ↦ e
          ] in
        returns (
          kept,
          (λ b o lt ho. view-plain d' b o f.disabled ∙ kept b o lt ho),
          f.disabled,
          refl,
          f.max_blocks,
          record {
            whole = omega (arith, f.whole, f.max_blocks);
            cached = λ on'. let off = f.disabled in cc;
          },
        ))
