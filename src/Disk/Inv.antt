-- ===== src/Disk/Inv.antt =====
-- When the globals of mydisk.c and caching.c are consistent, and what a reader of the disk sees.
use class_projects.Base.{
  ℕ, suc, ◌+◌, ◌*◌, ◌≤◌, ◌<◌, ◌≡◌, ◌≢◌, ◌⊎◌, true, false, none, some, arith, if◌then◌else◌,
  Option-cases, inl, inr, ◌∷◌, refl,
}
use class_projects.Base.Bytes.{Bytes}
use class_projects.Disk.{Disk, block_size, find_cached_entry}
use class_projects.Disk.Find.{find_cached_entry-some, find_cached_entry-none}

abbrev pub Holds : Disk → ℕ → ℕ → Type 0
Holds d i b = (i < d.cache_size) × ((d.ring_buffer i).block_id ≡ some b)

-- The ring of an enabled cache. `next_insert_pos` returns to 0 one entry early, so a cache of
-- `cache_blocks` entries holds one block less, and needs two entries at least.
pub record IsCached (d : Disk) : Type 0 where
  pub wide : 2 ≤ d.cache_blocks
  pub alloc : d.ring_length ≡ d.cache_blocks
  pub pos_in : suc d.next_insert_pos < d.cache_blocks
  pub size_in : d.cache_size < d.cache_blocks
  pub filling : (d.next_insert_pos ≡ d.cache_size) ⊎ (suc d.cache_size ≡ d.cache_blocks)
  pub used :
      (i : ℕ)
      → i < d.cache_size
      → (b : ℕ) × ((d.ring_buffer i).block_id ≡ some b) × (b ≤ d.max_blocks)
  pub unused :
      (i : ℕ)
      → d.cache_size ≤ i
      → i < d.ring_length
      → ((d.ring_buffer i).block_id ≡ none) × ((d.ring_buffer i).is_dirty ≡ false)
  pub distinct : (i j b : ℕ) → Holds d i b → Holds d j b → i ≡ j
  pub clean :
      (i b o : ℕ)
      → Holds d i b
      → (d.ring_buffer i).is_dirty ≡ false
      → b < d.max_blocks
      → o < block_size
      → (d.ring_buffer i).content o ≡ d.file.byte (b * block_size + o)

-- The file holds every block below `max_blocks` whole, and an enabled cache is consistent.
pub record IsValid (d : Disk) : Type 0 where
  pub whole : d.max_blocks * block_size ≤ d.file.size
  pub cached : d.cache_enabled ≡ true → IsCached d

abbrev pub in_file : Disk → ℕ → Bytes
in_file d b o = d.file.byte (b * block_size + o)

-- Byte `o` of block `b`: that of the cached entry, if there is one.
unfoldable pub view : Disk → ℕ → Bytes
view d b o =
    if d.cache_enabled
    then elim (find_cached_entry b d) [
      | none ↦ in_file d b o
      | some i ↦ (d.ring_buffer i).content o
    ]
    else in_file d b o

-- The same bytes in every block below `max_blocks`.
abbrev pub SameView : Disk → Disk → Type 0
SameView d d' = (b o : ℕ) → b < d.max_blocks → o < block_size → view d' b o ≡ view d b o

module _ (d : Disk) (b o : ℕ) where
  pub view-plain : d.cache_enabled ≡ false → view d b o ≡ in_file d b o
  unfolding view
  view-plain e = ground arith

  pub view-hit :
      (i : ℕ)
      → IsCached d
      → d.cache_enabled ≡ true
      → Holds d i b
      → view d b o ≡ (d.ring_buffer i).content o
  unfolding view
  view-hit i c on h = elim (Option-cases (find_cached_entry b d)) [
    | inl e ↦ absurd (find_cached_entry-none d b i e h.0 h.1)
    | inr (j, e) ↦
        let same : j ≡ i = c.distinct j i b (find_cached_entry-some d b e) h in ground (arith)
  ]

  pub view-miss :
      ((i : ℕ) → i < d.cache_size → (d.ring_buffer i).block_id ≢ some b)
      → view d b o ≡ in_file d b o
  unfolding view
  view-miss out = elim (Option-cases (find_cached_entry b d)) [
    | inl e ↦ ground arith
    | inr (j, e) ↦ absurd (let h : Holds d j b = find_cached_entry-some d b e in out j h.0 h.1)
  ]

-- Where a block is held, the search finds its entry.
pub find-Holds : (d : Disk) (b i : ℕ) → IsCached d → Holds d i b → find_cached_entry b d ≡ some i
find-Holds d b i c h = elim (Option-cases (find_cached_entry b d)) [
  | inl e ↦ absurd (find_cached_entry-none d b i e h.0 h.1)
  | inr (j, e) ↦
      let same : j ≡ i = c.distinct j i b (find_cached_entry-some d b e) h in ground arith
]

-- Reports of latency are seen by no block operation.
module _ (n : ℕ) (d : Disk) where
  abbrev reported : Disk
  reported = record d { reports = n ∷ d.reports }

  pub view-reported : (b o : ℕ) → view reported b o ≡ view d b o
  unfolding view find_cached_entry
  view-reported b o = refl

  pub reported-IsValid : IsValid d → IsValid reported
  reported-IsValid v = record {
    whole = v.whole;
    cached = λ on.
        let c = v.cached on in
        record {
          wide = c.wide;
          alloc = c.alloc;
          pos_in = c.pos_in;
          size_in = c.size_in;
          filling = c.filling;
          used = c.used;
          unused = c.unused;
          distinct = c.distinct;
          clean = c.clean;
        };
  }
