-- ===== src/Disk/Stream/ReadBytes.antt =====
-- `mydisk_read` returns the bytes of the flat disk.
use native.Mathlib.Nat.{zero-add}
use class_projects.Base.{
  ℕ, zero, suc, ◌+◌, ◌*◌, ◌-◌, ◌/◌, ◌%◌, ◌≤◌, ◌<◌, ◌≡◌, ◌≢◌, ◌⊎◌, refl, sym, ap, ◌∙◌, true, arith,
  Bool-cases, inl, inr, ltb, ◌==◌,
}
use class_projects.Base.Int.{ℤ, pos, negsuc, int_end}
use class_projects.Base.Run.{done, Returns, returns, bind, mono}
use class_projects.Base.Bytes.{Bytes, copy}
use class_projects.Disk.{Disk, Status, ok, invalid, block_size}
use class_projects.Disk.Inv.{IsValid, view, SameView, view-reported, reported-IsValid}
use class_projects.Disk.Read.{ReadsBlock, SameSetup, mydisk_read_block-view}
use class_projects.Disk.Stream.{Reading, chunk, check_range, read_advance, read_loop, mydisk_read}

-- Byte `a` of the disk.
abbrev pub byte_at : Disk → ℕ → ℕ
byte_at d a = view d (a / block_size) (a % block_size)

pub byte_at-block :
    (d : Disk) (b o : ℕ) → o < block_size → byte_at d (b * block_size + o) ≡ view d b o
byte_at-block d b o h =
    let q : (b * block_size + o) / block_size ≡ b = omega arith in
    let r : (b * block_size + o) % block_size ≡ o = omega arith in rw (q, r)

pub byte_at-same :
    (d d' : Disk) (a : ℕ)
    → SameView d d'
    → a < d.max_blocks * block_size
    → byte_at d' a ≡ byte_at d a
byte_at-same d d' a same h = same (a / block_size) (a % block_size) (omega arith) (omega arith)

-- The flat address that the next byte of the loop comes from.
abbrev at : Reading → ℕ
at l = l.block_id * block_size + l.offset

-- What the loop has done when it stops, started at `l` on the disk `d`.
record Read (l : Reading) (d : Disk) (l' : Reading) (d' : Disk) : Type 0 where
  got : (i : ℕ) → i < l.remaining → l'.buffer (l.bytes_completed + i) ≡ byte_at d (at l + i)
  kept :
      (i : ℕ)
      → (i < l.bytes_completed) ⊎ (l.bytes_completed + l.remaining ≤ i)
      → l'.buffer i ≡ l.buffer i
  views : SameView d d'
  valid : IsValid d'
  setup : SameSetup d d'

pub chunk_bounds :
    (r o : ℕ)
    → o < block_size
    → (chunk r o ≤ r)
      × (chunk r o + o ≤ block_size)
      × ((r ≡ 0) ⊎ (0 < chunk r o))
      × ((chunk r o ≡ r) ⊎ (chunk r o + o ≡ block_size))
chunk_bounds r o h = ground arith

module _ (l : Reading) (d : Disk) (r : Status × Bytes) (d1 : Disk)
    (step : ReadsBlock l.block_id d r d1) (small : l.offset < block_size)
    (some_left : l.remaining ≢ 0) (inside : at l + l.remaining ≤ d.max_blocks * block_size) where
  -- The bytes of the first chunk.
  first_chunk :
      (i : ℕ)
      → i < chunk l.remaining l.offset
      → (read_advance l r).buffer (l.bytes_completed + i) ≡ byte_at d (at l + i)
  first_chunk i h =
      let o = l.offset + i in
      let small' : o < block_size = omega (arith, chunk_bounds l.remaining l.offset small) in
      let z : l.bytes_completed + i - l.bytes_completed + l.offset ≡ o = omega arith in
      let z' : at l + i ≡ l.block_id * block_size + o = omega arith in
      let got : r.1 o ≡ view d l.block_id o = step.1 o small' in
      rw (z', byte_at-block d l.block_id o small') (ground arith)

  Read-step : (l' : Reading) (d' : Disk) → Read (read_advance l r) d1 l' d' → Read l d l' d'
  Read-step l' d' rest = record {
    got = λ i h. elim (Bool-cases (ltb i (chunk l.remaining l.offset))) [
      | inl e ↦
          rest.kept (l.bytes_completed + i) (inl (ground arith)) ∙ first_chunk i (ground arith)
      | inr e ↦ later i h (ground arith)
    ];
    kept = λ i out. rest.kept i (aside i out) ∙ untouched i out;
    views = λ b o lt ho. rest.views b o (omega (arith, step.4.max_blocks)) ho ∙ step.2 b o lt ho;
    valid = rest.valid;
    setup = ground arith;
  }
    where
      n : ℕ
      n = chunk l.remaining l.offset

      aside :
          (i : ℕ)
          → (i < l.bytes_completed) ⊎ (l.bytes_completed + l.remaining ≤ i)
          → (i < l.bytes_completed + n) ⊎ (l.bytes_completed + n + (l.remaining - n) ≤ i)
      aside i (inl h) = inl (omega arith)
      aside i (inr h) = inr (omega (arith, chunk_bounds l.remaining l.offset small))

      untouched :
          (i : ℕ)
          → (i < l.bytes_completed) ⊎ (l.bytes_completed + l.remaining ≤ i)
          → copy n l.buffer l.bytes_completed r.1 l.offset i ≡ l.buffer i
      untouched i (inl h) = ground arith
      untouched i (inr h) = ground (arith, chunk_bounds l.remaining l.offset small)

      later :
          (i : ℕ)
          → i < l.remaining
          → n ≤ i
          → l'.buffer (l.bytes_completed + i) ≡ byte_at d (at l + i)
      later i h le =
          let b = chunk_bounds l.remaining l.offset small in
          let full : n + l.offset ≡ block_size = omega (arith, b) in
          let z : l.bytes_completed + n + (i - n) ≡ l.bytes_completed + i = omega arith in
          let z' : (l.block_id + 1) * block_size + 0 + (i - n) ≡ at l + i = omega arith in
          let there = rest.got (i - n) (omega (arith, b)) in
          rw (← z, ← z') (there ∙ byte_at-same d d1 _ step.2 (omega (arith, b)))

read_loop-Read :
    (k : ℕ) (l : Reading) (d : Disk)
    → IsValid d
    → l.offset < block_size
    → at l + l.remaining ≤ d.max_blocks * block_size
    → l.remaining < k
    → Returns (Read l d) (read_loop k l d)
unfolding read_loop
read_loop-Read zero l d v small inside fuel = absurd (omega arith)
read_loop-Read (suc k) l d v small inside fuel = elim (Bool-cases (l.remaining == 0)) [
  | inl e ↦ rw e (
      returns (record {
        got = λ i h. absurd (ground arith);
        kept = λ i h. refl;
        views = λ b o _ _. refl;
        valid = v;
        setup = ground arith;
      }))
  | inr e ↦
      let some_left : l.remaining ≢ 0 = ground arith in
      let b = chunk_bounds l.remaining l.offset small in
      rw e (
        bind (mydisk_read_block-view d l.block_id l.temp_buffer v (omega arith)) (λ r d1 step.
          mono
            (read_loop-Read k (read_advance l r) d1 step.3 (omega arith)
              (omega (arith, b, step.4.max_blocks)) (omega (arith, b)))
            (Read-step l d r d1 step small some_left inside)))
]

-- The outcome of a read of `n` bytes from `start`.
abbrev pub ReadsBytes : ℕ → ℕ → Bytes → Disk → Status × Bytes → Disk → Type 0
ReadsBytes start n buffer d (s, buf) d' =
    (s ≡ ok)
    × ((i : ℕ) → i < n → buf i ≡ byte_at d (start + i))
    × ((i : ℕ) → n ≤ i → buf i ≡ buffer i)
    × SameView d d'
    × IsValid d'
    × (d'.max_blocks ≡ d.max_blocks)
    × (d'.cache_enabled ≡ d.cache_enabled)

module _ (junk : Bytes) (start n : ℕ) (buffer : Bytes) (d : Disk) where
  -- A read that ends before the last byte of a valid disk of less than 2 ^ 31 bytes, `start + n` being
  -- below its size, ends and faults nowhere: the buffer gets the bytes of the disk from
  -- `start` on and keeps what lies behind them, whatever is cached and whatever the temporary buffer
  -- held before; the disk shows the same bytes afterwards, stays valid, and keeps its size and whether
  -- it has a cache.
  pub mydisk_read-bytes :
      IsValid d
      → d.max_blocks * block_size < int_end
      → start + n < d.max_blocks * block_size
      → Returns (ReadsBytes start n buffer d) (mydisk_read junk (pos start) (pos n) buffer d)
  unfolding mydisk_read
  mydisk_read-bytes v small inside =
      let range : check_range (pos start) (pos n) d.max_blocks d ≡ done true d = ground arith in
      let flat : start / block_size * block_size + start % block_size ≡ start = omega arith in
      rw range (
        bind (read_loop-Read (suc n) _ d v (omega arith) (omega arith) (omega arith)) (λ l d' done.
          returns (
            refl,
            (λ i h.
                ap l.buffer (sym (zero-add i))
                ∙ done.got i h
                ∙ ap (λ (a : ℕ). byte_at d (a + i)) flat),
            (λ i h. done.kept i (inr (omega arith))),
            (λ b o lt ho. view-reported _ d' b o ∙ done.views b o lt ho),
            reported-IsValid _ d' done.valid,
            done.setup.max_blocks,
            done.setup.enabled,
          )))

-- The ranges that the parameter check refuses.
abbrev pub IsOutside : ℤ → ℤ → Disk → Type 0
IsOutside (pos start) (pos n) d =
    (start + n < int_end)
    × (d.max_blocks * block_size < int_end)
    × (d.max_blocks * block_size ≤ start + n)
IsOutside (pos start) (negsuc n) d = Unit {0}
IsOutside (negsuc start) n d = Unit {0}

-- A negative start, a negative count, and a range that does not end below the last byte are refused
-- with 1: neither the buffer nor the disk changes.
mydisk_read-refuses :
    (junk : Bytes) (start n : ℤ) (buffer : Bytes) (d : Disk)
    → IsOutside start n d
    → mydisk_read junk start n buffer d ≡ done (invalid, buffer) d
unfolding mydisk_read
mydisk_read-refuses junk (pos start) (pos n) buffer d h = ground arith
mydisk_read-refuses junk (pos start) (negsuc n) buffer d h = refl
mydisk_read-refuses junk (negsuc start) n buffer d h = refl
