-- ===== src/Disk/Find.antt =====
-- The search of `find_cached_entry`.
use class_projects.Base.{
  ℕ, zero, suc, ◌+◌, ◌≤◌, ◌<◌, ◌≡◌, ◌≢◌, refl, true, Option, none, some, arith, ◌==◌, Bool-cases,
  inl, inr,
}
use class_projects.Disk.{Entry, Disk, same_id, find_from, find_cached_entry}

same_id→eq : (a : Option ℕ) (b : ℕ) → same_id a b ≡ true → a ≡ some b
same_id→eq none b h = ground arith
same_id→eq (some a) b h = ground arith

same_id_refl : (a : Option ℕ) (b : ℕ) → a ≡ some b → same_id a b ≡ true
same_id_refl none b h = ground arith
same_id_refl (some a) b h = ground arith

find_from-some :
    (n i : ℕ) (ring : ℕ → Entry) (b : ℕ) {j : ℕ}
    → find_from n i ring b ≡ some j
    → (i ≤ j) × (j < i + n) × ((ring j).block_id ≡ some b)
unfolding find_from
find_from-some zero i ring b h = ground arith
find_from-some (suc n) i ring b {j} h = elim (Bool-cases (same_id (ring i).block_id b)) [
  | inl e ↦ ground (arith, same_id→eq (ring i).block_id b e)
  | inr e ↦ ground (arith, find_from-some n (i + 1) ring b {j = j})
]

find_from-none :
    (n i : ℕ) (ring : ℕ → Entry) (b j : ℕ)
    → find_from n i ring b ≡ none
    → i ≤ j
    → j < i + n
    → (ring j).block_id ≢ some b
unfolding find_from
find_from-none zero i ring b j h p q e = absurd (omega arith)
find_from-none (suc n) i ring b j h p q e = elim (Bool-cases (i == j)) [
  | inl same ↦ ground (arith, same_id_refl (ring i).block_id b)
  | inr other ↦ ground (arith, find_from-none n (i + 1) ring b j)
]

module _ (d : Disk) (b : ℕ) where
  pub find_cached_entry-some :
      {j : ℕ}
      → find_cached_entry b d ≡ some j
      → (j < d.cache_size) × ((d.ring_buffer j).block_id ≡ some b)
  unfolding find_cached_entry
  find_cached_entry-some {j} h =
      ground (arith, find_from-some d.cache_size 0 d.ring_buffer b {j = j} h)

  pub find_cached_entry-none :
      (j : ℕ)
      → find_cached_entry b d ≡ none
      → j < d.cache_size
      → (d.ring_buffer j).block_id ≢ some b
  unfolding find_cached_entry
  find_cached_entry-none j h p =
      find_from-none d.cache_size 0 d.ring_buffer b j h (omega arith) (omega arith)

find_from-same :
    (n i : ℕ) (ring ring' : ℕ → Entry) (b : ℕ)
    → ((j : ℕ) → (ring' j).block_id ≡ (ring j).block_id)
    → find_from n i ring' b ≡ find_from n i ring b
unfolding find_from
find_from-same zero i ring ring' b same = refl
find_from-same (suc n) i ring ring' b same = rw (same i, find_from-same n (i + 1) ring ring' b same)

-- The search reads the block ids alone.
pub find_cached_entry-same :
    (d d' : Disk) (b : ℕ)
    → d'.cache_size ≡ d.cache_size
    → ((j : ℕ) → (d'.ring_buffer j).block_id ≡ (d.ring_buffer j).block_id)
    → find_cached_entry b d' ≡ find_cached_entry b d
unfolding find_cached_entry
find_cached_entry-same d d' b e same =
    rw (e, find_from-same d.cache_size 0 d.ring_buffer d'.ring_buffer b same)
