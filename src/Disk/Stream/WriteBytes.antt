-- ===== src/Disk/Stream/WriteBytes.antt =====
-- `mydisk_write` changes the bytes that it is given, and no others.
use class_projects.Base.{
  ℕ, zero, suc, ◌+◌, ◌*◌, ◌-◌, ◌/◌, ◌%◌, ◌≤◌, ◌<◌, ◌≡◌, ◌≢◌, ◌⊎◌, refl, ◌∙◌, true, false, arith,
  Bool-cases, inl, inr, leb, ◌==◌,
}
use class_projects.Base.Int.{ℤ, pos, negsuc, int_end}
use class_projects.Base.Run.{done, Returns, returns, bind, mono}
use class_projects.Base.Bytes.{Bytes, copy}
use class_projects.Disk.{Disk, Status, ok, invalid, block_size}
use class_projects.Disk.Inv.{IsValid, view, view-reported, reported-IsValid}
use class_projects.Disk.Read.{SameSetup, mydisk_read_block-view}
use class_projects.Disk.Write.{mydisk_write_block-view}
use class_projects.Disk.Stream.{
  Writing, chunk, check_range, after_read, write_step, write_loop, mydisk_write,
}
use class_projects.Disk.Stream.ReadBytes.{byte_at, byte_at-block, chunk_bounds, IsOutside}

abbrev at : Writing → ℕ
at l = l.block_id * block_size + l.offset

-- Block `b` of `d'` is patched by one chunk, and the other blocks are as in `d`.
record Step (buffer : Bytes) (l : Writing) (d : Disk) (l' : Writing) (d' : Disk) : Type 0 where
  advanced :
      (l'.block_id ≡ l.block_id + 1)
      × (l'.offset ≡ 0)
      × (l'.remaining ≡ l.remaining - chunk l.remaining l.offset)
      × (l'.bytes_completed ≡ l.bytes_completed + chunk l.remaining l.offset)
  own :
      (o : ℕ)
      → o < block_size
      → view d' l.block_id o
        ≡ copy (chunk l.remaining l.offset) (view d l.block_id) l.offset buffer l.bytes_completed o
  others : (k o : ℕ) → k < d.max_blocks → k ≢ l.block_id → o < block_size → view d' k o ≡ view d k o
  valid : IsValid d'
  setup : SameSetup d d'

module _ (buffer : Bytes) (l : Writing) (d : Disk) (v : IsValid d) (small : l.offset < block_size)
    (lt : l.block_id < d.max_blocks) where
  abbrev n : ℕ
  n = chunk l.remaining l.offset

  write_step-whole : (n == block_size) ≡ true → Returns (Step buffer l d) (write_step buffer l d)
  unfolding write_step
  write_step-whole e = rw e (
      bind (mydisk_write_block-view d l.block_id buffer l.bytes_completed v lt) (λ s d' w.
        returns (record {
          advanced = (refl, refl, refl, refl);
          own = λ o h.
              let whole : chunk l.remaining l.offset ≡ block_size = ground arith in
              let b = chunk_bounds l.remaining l.offset small in
              let z : o - l.offset + l.bytes_completed ≡ o + l.bytes_completed = omega (arith, b) in
              w.1 o h ∙ ground (arith, b);
          others = w.2;
          valid = w.3;
          setup = w.4;
        })))

  write_step-part : (n == block_size) ≡ false → Returns (Step buffer l d) (write_step buffer l d)
  unfolding write_step
  write_step-part e = rw e (
      bind (mydisk_read_block-view d l.block_id l.temp_buffer v lt) (λ r d1 q.
        bind
          (mydisk_write_block-view d1 l.block_id (after_read l buffer r).temp_buffer 0 q.3
            (omega (arith, q.4.max_blocks)))
          (λ s d2 w. returns (record {
            advanced = (refl, refl, refl, refl);
            own = λ o h. let z : o + 0 ≡ o = omega arith in w.1 o h ∙ ground (arith, q.1 o h);
            others =
                λ k o lt' ne ho. w.2 k o (omega (arith, q.4.max_blocks)) ne ho ∙ q.2 k o lt' ho;
            valid = w.3;
            setup = ground arith;
          }))))

  write_step-Step : Returns (Step buffer l d) (write_step buffer l d)
  write_step-Step = elim (Bool-cases (n == block_size)) [
    | inl e ↦ write_step-whole e
    | inr e ↦ write_step-part e
  ]

-- One round, as a change of the flat disk.
Step-bytes :
    (buffer : Bytes) (l : Writing) (d : Disk) (l' : Writing) (d' : Disk)
    → Step buffer l d l' d'
    → l.offset < block_size
    → (a : ℕ) → a < d.max_blocks * block_size
    → byte_at d' a ≡ copy (chunk l.remaining l.offset) (byte_at d) (at l) buffer l.bytes_completed a
Step-bytes buffer l d l' d' s small a h = elim (Bool-cases (a / block_size == l.block_id)) [
  | inl e ↦
      let b = chunk_bounds l.remaining l.offset small in
      let q : a / block_size ≡ l.block_id = ground arith in
      let o = a % block_size in
      let z : a ≡ l.block_id * block_size + o = omega arith in
      let own = s.own o (omega arith) in
      rw z (
        byte_at-block d' l.block_id o (omega arith)
        ∙ own
        ∙ moved l.block_id l.offset o (chunk l.remaining l.offset) b.1 (omega arith))
  | inr e ↦
      let b = chunk_bounds l.remaining l.offset small in
      let ne : a / block_size ≢ l.block_id = ground arith in
      s.others (a / block_size) (a % block_size) (omega arith) ne (omega arith)
      ∙ (let out : (a < at l) ⊎ (at l + chunk l.remaining l.offset ≤ a) = omega (arith, b) in
          ground arith)
]
  where
    moved :
        (b off o n : ℕ)
        → n + off ≤ block_size
        → o < block_size
        → copy n (view d b) off buffer l.bytes_completed o
          ≡ copy n (byte_at d) (b * block_size + off) buffer l.bytes_completed (b * block_size + o)
    moved b off o n le ho =
        let z : b * block_size + o - (b * block_size + off) ≡ o - off = omega arith in
        ground (arith, byte_at-block d b o ho)

-- Two copies in a row are one, where the second starts behind the first or is empty.
copy-copy :
    (f : Bytes) (g : Bytes) (buf : Bytes) (n s c r s' a : ℕ)
    → g a ≡ copy n f s buf c a
    → n ≤ r
    → (n ≡ r) ⊎ (s' ≡ s + n)
    → copy (r - n) g s' buf (c + n) a ≡ copy r f s buf c a
copy-copy f g buf n s c r s' a first le (inl e) =
    let none_left : r - n ≡ 0 = omega arith in rw (none_left, ← e) (ground arith)
copy-copy f g buf n s c r s' a first le (inr e) = elim (Bool-cases (leb s' a)) [
  | inl h ↦
      let z : a - s' + (c + n) ≡ a - s + c = ground arith in
      let z' : s' + (r - n) ≡ s + r = omega arith in rw z' (ground arith)
  | inr h ↦ ground arith
]

-- The loop, started at `l` on the disk `d`.
record Wrote (buffer : Bytes) (l : Writing) (d : Disk) (l' : Writing) (d' : Disk) : Type 0 where
  bytes :
      (a : ℕ)
      → a < d.max_blocks * block_size
      → byte_at d' a ≡ copy l.remaining (byte_at d) (at l) buffer l.bytes_completed a
  valid : IsValid d'
  setup : SameSetup d d'

Wrote-Step :
    (buffer : Bytes) (l : Writing) (d : Disk) (l1 : Writing) (d1 : Disk)
    → Step buffer l d l1 d1
    → l.offset < block_size
    → (l' : Writing) (d' : Disk) → Wrote buffer l1 d1 l' d'
    → Wrote buffer l d l' d'
Wrote-Step buffer l d l1 d1 s small l' d' rest = record {
  bytes = λ a h.
      let b = chunk_bounds l.remaining l.offset small in
      let first = Step-bytes buffer l d l1 d1 s small a h in
      let later = rest.bytes a (omega (arith, s.setup.max_blocks)) in later ∙ joined a first b;
  valid = rest.valid;
  setup = ground (arith, s.setup, rest.setup);
}
  where
    n : ℕ
    n = chunk l.remaining l.offset

    joined :
        (a : ℕ)
        → byte_at d1 a ≡ copy n (byte_at d) (at l) buffer l.bytes_completed a
        → (n ≤ l.remaining)
          × (n + l.offset ≤ block_size)
          × ((l.remaining ≡ 0) ⊎ (0 < n))
          × ((n ≡ l.remaining) ⊎ (n + l.offset ≡ block_size))
        → copy l1.remaining (byte_at d1) (at l1) buffer l1.bytes_completed a
          ≡ copy l.remaining (byte_at d) (at l) buffer l.bytes_completed a
    joined a first b =
        let (block, offset, remaining, completed) = s.advanced in
        rw (remaining, completed)
          (copy-copy (byte_at d) (byte_at d1) buffer n (at l) l.bytes_completed l.remaining (at l1)
            a first b.0 (elim b.3 [ inl e ↦ inl e | inr e ↦ inr (omega arith) ]))

write_loop-Wrote :
    (k : ℕ) (buffer : Bytes) (l : Writing) (d : Disk)
    → IsValid d
    → l.offset < block_size
    → at l + l.remaining ≤ d.max_blocks * block_size
    → l.remaining < k
    → Returns (Wrote buffer l d) (write_loop k buffer l d)
unfolding write_loop
write_loop-Wrote zero buffer l d v small inside fuel = absurd (omega arith)
write_loop-Wrote (suc k) buffer l d v small inside fuel = elim (Bool-cases (l.remaining == 0)) [
  | inl e ↦ rw e (returns (record { bytes = λ a h. ground arith; valid = v; setup = ground arith }))
  | inr e ↦
      let some_left : l.remaining ≢ 0 = ground arith in
      let b = chunk_bounds l.remaining l.offset small in
      rw e (
        bind (write_step-Step buffer l d v small (omega arith)) (λ l1 d1 s.
          let (block, offset, remaining, completed) = s.advanced in
          mono
            (write_loop-Wrote k buffer l1 d1 s.valid (omega arith)
              (omega (arith, b, s.setup.max_blocks)) (omega (arith, b)))
            (Wrote-Step buffer l d l1 d1 s small)))
]

-- The outcome of a write of the first `n` bytes of `buffer` at `start`.
abbrev pub WritesBytes : ℕ → ℕ → Bytes → Disk → Status → Disk → Type 0
WritesBytes start n buffer d s d' =
    (s ≡ ok)
    × ((i : ℕ) → i < n → byte_at d' (start + i) ≡ buffer i)
    × ((a : ℕ)
        → a < d.max_blocks * block_size
        → (a < start) ⊎ (start + n ≤ a)
        → byte_at d' a ≡ byte_at d a)
    × IsValid d'
    × (d'.max_blocks ≡ d.max_blocks)
    × (d'.cache_enabled ≡ d.cache_enabled)

module _ (junk : Bytes) (start n : ℕ) (buffer : Bytes) (d : Disk) where
  -- A write that ends before the last byte of a valid disk of less than 2 ^ 31 bytes, `start + n`
  -- being below its size, ends and faults nowhere: afterwards the disk shows the bytes of the buffer from `start` on and what it showed before everywhere else, whatever is cached, and it
  -- stays valid and keeps its size and whether it has a cache.
  pub mydisk_write-bytes :
      IsValid d
      → d.max_blocks * block_size < int_end
      → start + n < d.max_blocks * block_size
      → Returns (WritesBytes start n buffer d) (mydisk_write junk (pos start) (pos n) buffer d)
  unfolding mydisk_write
  mydisk_write-bytes v small inside =
      let range : check_range (pos start) (pos n) d.max_blocks d ≡ done true d = ground arith in
      let flat : start / block_size * block_size + start % block_size ≡ start = omega arith in
      rw range (
        bind (write_loop-Wrote (suc n) buffer _ d v (omega arith) (omega arith) (omega arith))
          (λ l d' w. returns (
            refl,
            (λ i h. view-reported _ d' _ _ ∙ w.bytes (start + i) (omega arith) ∙ inner i h),
            (λ a h out. view-reported _ d' _ _ ∙ w.bytes a h ∙ outer a out),
            reported-IsValid _ d' w.valid,
            w.setup.max_blocks,
            w.setup.enabled,
          )))
    where
      at_start : ℕ
      at_start = start / block_size * block_size + start % block_size

      inner : (i : ℕ) → i < n → copy n (byte_at d) at_start buffer 0 (start + i) ≡ buffer i
      inner i h =
          let z : start + i - at_start + 0 ≡ i = omega arith in
          let flat : at_start ≡ start = omega arith in ground arith

      outer :
          (a : ℕ)
          → (a < start) ⊎ (start + n ≤ a)
          → copy n (byte_at d) at_start buffer 0 a ≡ byte_at d a
      outer a out = let flat : at_start ≡ start = omega arith in ground arith

-- A write that the parameter check refuses returns 1 and changes nothing.
mydisk_write-refuses :
    (junk : Bytes) (start n : ℤ) (buffer : Bytes) (d : Disk)
    → IsOutside start n d
    → mydisk_write junk start n buffer d ≡ done invalid d
unfolding mydisk_write
mydisk_write-refuses junk (pos start) (pos n) buffer d h = ground arith
mydisk_write-refuses junk (pos start) (negsuc n) buffer d h = refl
mydisk_write-refuses junk (negsuc start) n buffer d h = refl
