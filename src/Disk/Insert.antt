-- ===== src/Disk/Insert.antt =====
-- `create_cached_block` on a miss: what it writes back, what it drops and what it leaves alone.
use class_projects.Base.{
  ℕ, suc, ◌+◌, ◌*◌, ◌-◌, ◌≤◌, ◌<◌, ◌≡◌, ◌≢◌, ◌⊎◌, true, false, none, some, arith, ap, sym, ◌∙◌,
  if◌then◌else◌, Option-cases, Bool-cases, inl, inr, ◌==◌,
}
use class_projects.Base.Run.{done}
use class_projects.Base.Bytes.{Bytes, File, file_write}
use class_projects.Disk.{
  Entry, Disk, block_size, find_cached_entry, mydisk_write_block, write_entry, write_back, next_pos,
}
use class_projects.Disk.Find.{find_cached_entry-some, find_cached_entry-none}
use class_projects.Disk.Inv.{IsCached, Holds, in_file, view, view-hit, view-miss}

-- The file after an entry has been written back.
abbrev pub flushed : Entry → File → File
flushed e f =
    if e.is_dirty
    then elim e.block_id [
      | none ↦ f
      | some b ↦ file_write f (b * block_size) block_size e.content 0
    ]
    else f

abbrev pub IsEntryOf : Disk → Entry → Type 0
IsEntryOf d e = (b : ℕ) → e.block_id ≡ some b → b ≤ d.max_blocks

pub write_back-flushed :
    (e : Entry) (d : Disk)
    → d.cache_enabled ≡ true
    → IsEntryOf d e
    → write_back e d ≡ done tt (record d { file = flushed e d.file })
unfolding write_back write_entry mydisk_write_block
write_back-flushed e d on ok = elim (Option-cases e.block_id) [
  | inl m ↦ ground arith
  | inr (b, m) ↦ ground (arith, ok b m)
]

-- The bytes of the file after the entry for block `b` was written back, and those before it.
module _ (e : Entry) (f : File) (b o : ℕ) where
  flushed-same :
      (n : ℕ)
      → e.block_id ≢ some b
      → b < n
      → n * block_size ≤ f.size
      → o < block_size
      → (flushed e f).byte (b * block_size + o) ≡ f.byte (b * block_size + o)
  flushed-same n ne lt whole ho = elim (Option-cases e.block_id) [
    | inl m ↦ ground arith
    | inr (k, m) ↦ let apart : k ≢ b = λ q. ne (ground arith) in ground arith
  ]

  flushed-own :
      e.block_id ≡ some b
      → e.is_dirty ≡ true
      → o < block_size
      → (flushed e f).byte (b * block_size + o) ≡ e.content o
  flushed-own m dirty ho = rw (dirty, m) (ground (arith, back b o))
    where
      back : (b o : ℕ) → b * block_size + o - b * block_size + 0 ≡ o
      back b o = omega arith

pub flushed-size : (e : Entry) (f : File) → f.size ≤ (flushed e f).size
flushed-size e f = elim (Option-cases e.block_id) [
  | inl m ↦ ground arith
  | inr (k, m) ↦ ground arith
]

-- `d'` is `d` after block `b` took the insert position, with the content `src`.
pub record Placed (d : Disk) (b : ℕ) (src : Bytes) (d' : Disk) : Type 0 where
  pub file : d'.file ≡ flushed (d.ring_buffer d.next_insert_pos) d.file
  pub max_blocks : d'.max_blocks ≡ d.max_blocks
  pub enabled : d'.cache_enabled ≡ true
  pub cache_blocks : d'.cache_blocks ≡ d.cache_blocks
  pub ring_length : d'.ring_length ≡ d.ring_length
  pub next : d'.next_insert_pos ≡ next_pos d.cache_blocks d.next_insert_pos
  pub size : d'.cache_size ≡ elim (d.ring_buffer d.next_insert_pos).block_id [
    | none ↦ d.cache_size + 1
    | some _ ↦ d.cache_size
  ]
  pub block_id : (d'.ring_buffer d.next_insert_pos).block_id ≡ some b
  pub is_clean : (d'.ring_buffer d.next_insert_pos).is_dirty ≡ false
  pub content : (o : ℕ) → o < block_size → (d'.ring_buffer d.next_insert_pos).content o ≡ src o
  pub others : (j : ℕ) → j ≢ d.next_insert_pos → d'.ring_buffer j ≡ d.ring_buffer j

module _ (d : Disk) (b : ℕ) (src : Bytes) (d' : Disk) (c : IsCached d) (on : d.cache_enabled ≡ true)
    (out : (i : ℕ) → i < d.cache_size → (d.ring_buffer i).block_id ≢ some b)
    (fits : b ≤ d.max_blocks) (p : Placed d b src d') where
  abbrev pos : ℕ
  pos = d.next_insert_pos

  abbrev old : Entry
  old = d.ring_buffer pos

  -- The insert position is the first unused entry, or the ring is full.
  old-cases :
      ((old.block_id ≡ none)
        × (old.is_dirty ≡ false)
        × (pos ≡ d.cache_size)
        × (d'.cache_size ≡ d.cache_size + 1))
      ⊎ ((k : ℕ) × (old.block_id ≡ some k)
          × (k ≤ d.max_blocks)
          × (pos < d.cache_size)
          × (suc d.cache_size ≡ d.cache_blocks)
          × (d'.cache_size ≡ d.cache_size))
  old-cases = elim c.filling [
    | inl e ↦ inl (
        let u = c.unused pos (omega arith) (omega (arith, c.alloc, c.pos_in)) in
        (u.0, u.1, e, ground (arith, u.0, p.size)))
    | inr e ↦ inr (
        let (k, m, le) = c.used pos (omega (arith, c.pos_in)) in
        (k, m, le, omega (arith, c.pos_in), e, ground (arith, m, p.size)))
  ]

  Holds-cases : (i k : ℕ) → Holds d' i k → ((i ≡ pos) × (k ≡ b)) ⊎ ((i ≢ pos) × (Holds d i k))
  Holds-cases i k h = elim (Bool-cases (i == pos)) [
    | inl e ↦ inl (ground (arith, p.block_id))
    | inr e ↦
        let ne : i ≢ pos = ground arith in
        let lt : i < d.cache_size = (elim old-cases [
          | inl s ↦ omega arith
          | inr s ↦ omega arith
        ]) in
        inr (ne, (lt, rw (← p.others i ne) h.1))
  ]

  Placed-used :
      (i : ℕ)
      → i < d'.cache_size
      → (k : ℕ) × ((d'.ring_buffer i).block_id ≡ some k) × (k ≤ d'.max_blocks)
  Placed-used i h = elim (Bool-cases (i == pos)) [
    | inl e ↦ (b, ground (arith, p.block_id), ground (arith, p.max_blocks))
    | inr e ↦
        let ne : i ≢ pos = ground arith in
        let lt : i < d.cache_size = (elim old-cases [
          | inl s ↦ omega arith
          | inr s ↦ omega arith
        ]) in
        let (k, m, le) = c.used i lt in (k, rw (p.others i ne) m, omega (arith, p.max_blocks))
  ]

  Placed-unused :
      (i : ℕ)
      → d'.cache_size ≤ i
      → i < d'.ring_length
      → ((d'.ring_buffer i).block_id ≡ none) × ((d'.ring_buffer i).is_dirty ≡ false)
  Placed-unused i h q =
      let ne : i ≢ pos = (elim old-cases [ inl s ↦ omega arith | inr s ↦ omega arith ]) in
      let le : d.cache_size ≤ i = (elim old-cases [ inl s ↦ omega arith | inr s ↦ omega arith ]) in
      rw (p.others i ne) (c.unused i le (omega (arith, p.ring_length)))

  Placed-distinct : (i j k : ℕ) → Holds d' i k → Holds d' j k → i ≡ j
  Placed-distinct i j k hi hj = elim (Holds-cases i k hi) [
    | inl (ei, ek) ↦ (elim (Holds-cases j k hj) [
      | inl (ej, _) ↦ omega arith
      | inr (_, h) ↦ absurd (out j h.0 (ground arith))
    ])
    | inr (_, h) ↦ (elim (Holds-cases j k hj) [
      | inl (ej, ek) ↦ absurd (out i h.0 (ground arith))
      | inr (_, h') ↦ c.distinct i j k h h'
    ])
  ]

  pub old-ne : old.block_id ≢ some b
  old-ne q = elim old-cases [ inl s ↦ ground arith | inr (k, m, le, lt, _, _) ↦ out pos lt q ]

  pub file-same :
      (k o : ℕ)
      → old.block_id ≢ some k
      → k < d.max_blocks
      → d.max_blocks * block_size ≤ d.file.size
      → o < block_size
      → in_file d' k o ≡ in_file d k o
  file-same k o ne lt whole ho = rw p.file (flushed-same old d.file k o d.max_blocks ne lt whole ho)

  -- What was read below `max_blocks` is what the file holds.
  module _ (whole : d.max_blocks * block_size ≤ d.file.size)
      (read : (o : ℕ) → b < d.max_blocks → o < block_size → src o ≡ in_file d b o) where
    Placed-clean :
        (i k o : ℕ)
        → Holds d' i k
        → (d'.ring_buffer i).is_dirty ≡ false
        → k < d'.max_blocks
        → o < block_size
        → (d'.ring_buffer i).content o ≡ in_file d' k o
    Placed-clean i k o h q lt ho = elim (Holds-cases i k h) [
      | inl (ei, ek) ↦ ground (
        arith,
        p.content o ho,
        p.max_blocks,
        read o (omega (arith, p.max_blocks)) ho,
        file-same b o old-ne (omega (arith, p.max_blocks)) whole ho,
      )
      | inr (ne, h') ↦
          let apart : old.block_id ≢ some k = λ e. elim old-cases [
            | inl s ↦ ground arith
            | inr s ↦ ne (c.distinct i pos k h' (s.3, e))
          ] in
          let lt' : k < d.max_blocks = omega (arith, p.max_blocks) in
          ground (arith, p.others i ne, c.clean i k o h', file-same k o apart lt' whole ho)
    ]

    pub Placed-IsCached : IsCached d'
    Placed-IsCached = record {
      wide = ground (arith, c.wide, p.cache_blocks);
      alloc = ground (arith, c.alloc, p.cache_blocks, p.ring_length);
      pos_in = ground (arith, c.pos_in, p.next, p.cache_blocks, c.wide);
      size_in = (elim old-cases [
        | inl s ↦ omega (arith, c.size_in, c.pos_in, p.cache_blocks)
        | inr s ↦ omega (arith, c.size_in, p.cache_blocks)
      ]);
      filling = (elim old-cases [
        | inl s ↦ ground (arith, p.next, p.cache_blocks, c.pos_in)
        | inr s ↦ ground (arith, p.cache_blocks)
      ]);
      used = Placed-used;
      unused = Placed-unused;
      distinct = Placed-distinct;
      clean = Placed-clean;
    }

    Placed-Holds : Holds d' pos b
    Placed-Holds = ((elim old-cases [ inl s ↦ omega arith | inr s ↦ omega arith ]), p.block_id)

    -- The dropped block is in the file afterwards.
    dropped-view :
        (k o : ℕ)
        → Holds d pos k
        → k < d.max_blocks
        → o < block_size
        → in_file d' k o ≡ old.content o
    dropped-view k o h lt ho = rw p.file (elim (Bool-cases old.is_dirty) [
      | inl dirty ↦ flushed-own old d.file k o h.1 dirty ho
      | inr still ↦ ground (arith, c.clean pos k o h still lt ho)
    ])

    -- A block other than `b` is held by `d'` only where `d` holds it, away from the position.
    gone :
        (k : ℕ)
        → k ≢ b
        → ((i : ℕ) → i ≢ pos → ¬ Holds d i k)
        → (i : ℕ) → i < d'.cache_size
        → (d'.ring_buffer i).block_id ≢ some k
    gone k ne away i h e = elim (Holds-cases i k (h, e)) [
      | inl (_, q) ↦ ne q
      | inr (q, h') ↦ away i q h'
    ]

    other-view : (k o : ℕ) → k ≢ b → k < d.max_blocks → o < block_size → view d' k o ≡ view d k o
    other-view k o ne lt ho = elim (Option-cases (find_cached_entry k d)) [
      | inl e ↦
          let absent = find_cached_entry-none d k in
          let apart : old.block_id ≢ some k =
            λ q. elim old-cases [ inl s ↦ ground arith | inr s ↦ absent pos e s.3 q ] in
          view-miss d' k o (gone k ne (λ i q h. absent i e h.0 h.1))
          ∙ file-same k o apart lt whole ho
          ∙ sym (view-miss d k o (λ i h. absent i e h))
      | inr (i, e) ↦
          let h : Holds d i k = find_cached_entry-some d k e in
          (elim (Bool-cases (i == pos)) [
            | inl q ↦
                let at : i ≡ pos = ground arith in
                let h' : Holds d pos k = ground arith in
                view-miss d' k o (gone k ne (λ j r hj. r (c.distinct j pos k hj h')))
                ∙ dropped-view k o h' lt ho
                ∙ sym (view-hit d k o pos c on h')
            | inr q ↦
                let r : i ≢ pos = ground arith in
                let same = p.others i r in
                let h' : Holds d' i k =
                  ((elim old-cases [ inl s ↦ omega arith | inr s ↦ omega arith ]), rw same h.1) in
                view-hit d' k o i Placed-IsCached p.enabled h'
                ∙ ap (λ (t : Entry). t.content o) same
                ∙ sym (view-hit d k o i c on h)
          ])
    ]

    pub Placed-view : (k o : ℕ) → k < d.max_blocks → o < block_size → view d' k o ≡ view d k o
    Placed-view k o lt ho = elim (Bool-cases (k == b)) [
      | inl q ↦
          let e : k ≡ b = ground arith in
          rw e (
            view-hit d' b o pos Placed-IsCached p.enabled Placed-Holds
            ∙ p.content o ho
            ∙ read o (omega arith) ho
            ∙ sym (view-miss d b o out))
      | inr q ↦ other-view k o (ground arith) lt ho
    ]
