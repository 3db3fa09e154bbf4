-- ===== src/Fs/Freemap/Alloc.antt =====
-- `sfs_alloc_block` and `sfs_free_block` of fs.c.
use class_projects.Base.{
  ℕ, zero, suc, ◌+◌, ◌-◌, ◌*◌, ◌/◌, ◌%◌, ◌≤◌, ◌<◌, ◌≡◌, ◌⊎◌, ◌∙◌, refl, sym, true, false, arith,
  some, none, leb, ◌==◌, inl, inr, Bool-cases, Option-cases,
}
use class_projects.Base.Run.{done, Returns, returns, and_then, bind, mono}
use class_projects.Fs.Word.{
  u32_end, bit, set_bit, clear_bit, get_u32_bound, bit-set_bit, bit-set_bit_other, bit-clear_bit,
  bit-clear_bit_other, set_bit_bound, clear_bit_le, bit_ones,
}
use class_projects.Fs.{
  Sfs, sfs_flush_freemap, freemap_word, zero_bit, entry_full, take_bit, alloc_loop, sfs_alloc_block,
  sfs_free_block,
}
use class_projects.Fs.Freemap.{used, IsMounted, Marks, flush-Marks}

zero_bit-some :
    (n j w i : ℕ)
    → zero_bit n j w ≡ some i
    → (j ≤ i) × (i < j + n) × (bit i w ≡ false) × ((i' : ℕ) → j ≤ i' → i' < i → bit i' w ≡ true)
unfolding zero_bit
zero_bit-some zero j w i e = absurd (cc)
zero_bit-some (suc n) j w i e = elim (Bool-cases (bit j w)) [
  | inl b ↦
      let (le, lt, free, before) = zero_bit-some n (j + 1) w i (rw b at e) in
      (
        omega arith,
        omega arith,
        free,
        λ i' le' lt'. elim (Bool-cases (i' == j)) [
          | inl q ↦ let z : i' ≡ j = ground arith in rw z b
          | inr q ↦ before i' (ground arith) lt'
        ],
      )
  | inr b ↦
      let z : j ≡ i = ground (arith) in
      (omega arith, omega arith, rw z at b, λ i' le' lt'. absurd (omega arith))
]

zero_bit-none : (n j w : ℕ) → zero_bit n j w ≡ none → (i : ℕ) → j ≤ i → i < j + n → bit i w ≡ true
unfolding zero_bit
zero_bit-none zero j w e i le lt = absurd (omega arith)
zero_bit-none (suc n) j w e i le lt = elim (Bool-cases (bit j w)) [
  | inl b ↦ elim (Bool-cases (i == j)) [
    | inl q ↦ let z : i ≡ j = ground arith in rw z b
    | inr q ↦ zero_bit-none n (j + 1) w (rw b at e) i (ground arith) (omega arith)
  ]
  | inr b ↦ absurd (ground arith)
]

word_bound : (fs : Sfs) → IsMounted fs → (i : ℕ) → freemap_word fs.freemap i < u32_end
word_bound fs m i = get_u32_bound fs.freemap (4 * i) m.bytes

-- The first free block behind those of the first `i` words is taken, or there is none.
abbrev Takes : ℕ → ℕ → Sfs → ℕ → Sfs → Type 0
Takes i n fs b fs' =
    ((b ≡ 0) × (fs' ≡ fs) × ((k : ℕ) → i * 32 ≤ k → k < (i + n) * 32 → used fs.freemap k ≡ true))
    ⊎ ((k : ℕ) × (b ≡ k + 1)
        × (i * 32 ≤ k)
        × (k < (i + n) * 32)
        × (used fs.freemap k ≡ false)
        × ((k' : ℕ) → i * 32 ≤ k' → k' < k → used fs.freemap k' ≡ true)
        × Marks k true fs fs')

module _ (fs : Sfs) (m : IsMounted fs) where
  -- Word `i` has no free block.
  Takes-next :
      (i n : ℕ)
      → ((j : ℕ) → j < 32 → bit j (freemap_word fs.freemap i) ≡ true)
      → {b : ℕ} {fs' : Sfs} → Takes (i + 1) n fs b fs'
      → Takes i (suc n) fs b fs'
  unfolding used
  Takes-next i n full (inl (e, same, rest)) = inl (
    e,
    same,
    λ k le lt. elim (Bool-cases (k / 32 == i)) [
      | inl q ↦ let z : k / 32 ≡ i = ground arith in rw z (full (k % 32) (omega arith))
      | inr q ↦ rest k (ground arith) (omega arith)
    ],
  )
  Takes-next i n full (inr (k, e, le, lt, free, before, marks)) = inr (
    k,
    e,
    omega arith,
    omega arith,
    free,
    (λ k' le' lt'. elim (Bool-cases (k' / 32 == i)) [
      | inl q ↦ let z : k' / 32 ≡ i = ground arith in rw z (full (k' % 32) (omega arith))
      | inr q ↦ before k' (ground arith) lt'
    ]),
    marks,
  )

  -- Bit `j` of word `i` is the first free one.
  Takes-here :
      (i n j : ℕ)
      → i < 128
      → j < 32
      → bit j (freemap_word fs.freemap i) ≡ false
      → ((j' : ℕ) → j' < j → bit j' (freemap_word fs.freemap i) ≡ true)
      → Returns (Takes i (suc n) fs) (
          and_then
            (sfs_flush_freemap (take_bit i j fs))
            (λ _ fs'. done ((j + 1 + i * 32) % u32_end) fs'))
  unfolding used
  Takes-here i n j lt lt' free before =
      let row : (i * 32 + j) / 32 ≡ i = omega arith in
      let col : (i * 32 + j) % 32 ≡ j = omega arith in
      let run : Returns (λ _ fs'. Marks (i * 32 + j) true fs fs')
          (sfs_flush_freemap (take_bit i j fs)) =
        rw row at (
          flush-Marks fs m (i * 32 + j) (set_bit j (freemap_word fs.freemap i)) true (omega arith)
            (set_bit_bound 32 j (freemap_word fs.freemap i) u32_end refl (word_bound fs m i) lt')
            (rw col (bit-set_bit j (freemap_word fs.freemap i)))
            (rw (row, col) (λ i' ne. bit-set_bit_other i' j (freemap_word fs.freemap i) ne))) in
      bind run (λ _ fs' marks. returns (
        inr (
          i * 32 + j,
          omega arith,
          omega arith,
          omega arith,
          rw (row, col) free,
          (λ k' le l.
              let row' : k' / 32 ≡ i = omega arith in rw row' (before (k' % 32) (omega arith))),
          marks,
        )))

alloc_loop-Takes :
    (n i : ℕ) (fs : Sfs) → IsMounted fs → i + n ≤ 128 → Returns (Takes i n fs) (alloc_loop n i fs)
unfolding alloc_loop
alloc_loop-Takes zero i fs m le = returns (inl (refl, refl, λ k l h. absurd (omega arith)))
alloc_loop-Takes (suc n) i fs m le =
    let inside : leb fs.freemap_words i ≡ false = let w = m.words in ground arith in
    let rest = alloc_loop-Takes n (i + 1) fs m (omega arith) in
    rw inside (elim (Bool-cases (freemap_word fs.freemap i == entry_full)) [
      | inl q ↦ rw q (
          mono rest (λ b fs'.
            Takes-next fs m i n
              (λ j lt. bit_ones 32 j (freemap_word fs.freemap i) (ground arith) lt)))
      | inr q ↦ rw q (elim (Option-cases (zero_bit 32 0 (freemap_word fs.freemap i))) [
        | inl e ↦ rw e (
            mono rest (λ b fs'. Takes-next fs m i n (λ j lt.
              zero_bit-none 32 0 (freemap_word fs.freemap i) e j (omega arith) (omega arith))))
        | inr (j, e) ↦
            let (_, lt, free, before) = zero_bit-some 32 0 (freemap_word fs.freemap i) j e in
            rw e (
              Takes-here fs m i n j (omega arith) (omega arith) free
                (λ j' l. before j' (omega arith) l))
      ])
    ])

-- What `sfs_alloc_block` does: 0 when all 4096 blocks of the freemap are in use, else the first block
-- that is not.
abbrev pub Allocates : Sfs → ℕ → Sfs → Type 0
Allocates fs b fs' =
    ((b ≡ 0) × (fs' ≡ fs) × ((k : ℕ) → k < 4096 → used fs.freemap k ≡ true))
    ⊎ ((k : ℕ) × (b ≡ k + 1)
        × (k < 4096)
        × (used fs.freemap k ≡ false)
        × ((k' : ℕ) → k' < k → used fs.freemap k' ≡ true)
        × Marks k true fs fs')

-- With the freemap of one block, `sfs_alloc_block` ends: either all its blocks are in use, the result
-- is 0 and nothing changes, or the result is the first free block, which becomes used, in memory and
-- on disk, while no other block changes its mark and nothing outside the freemap changes.
pub sfs_alloc_block-first : (fs : Sfs) → IsMounted fs → Returns (Allocates fs) (sfs_alloc_block fs)
unfolding sfs_alloc_block
sfs_alloc_block-first fs m =
    let b = m.blocks in
    rw b (
      mono (alloc_loop-Takes 128 0 fs m (omega arith)) (λ b' fs' takes. elim takes [
        | inl (e, same, full) ↦ inl (e, same, λ k lt. full k (omega arith) (omega arith))
        | inr (k, e, le, lt, free, before, marks) ↦
            inr (k, e, omega arith, free, (λ k' l. before k' (omega arith) l), marks)
      ]))

-- `sfs_free_block` of one of the blocks of the freemap clears its mark, in memory and on disk, and
-- changes nothing else.
pub sfs_free_block-frees :
    (fs : Sfs) (k : ℕ)
    → IsMounted fs
    → k < 4096
    → Returns (λ _ fs'. Marks k false fs fs') (sfs_free_block (suc k) fs)
unfolding sfs_free_block
sfs_free_block-frees fs k m lt =
    let row : k / 8 / 4 ≡ k / 32 = omega arith in
    let col : k - k / 32 * 32 ≡ k % 32 = omega arith in
    let words = m.words in
    let inside : leb fs.freemap_words (k / 32) ≡ false = ground arith in
    let bound : clear_bit (k % 32) (freemap_word fs.freemap (k / 32)) < u32_end =
      omega (
        arith,
        clear_bit_le (k % 32) (freemap_word fs.freemap (k / 32)),
        word_bound fs m (k / 32),
      ) in
    rw (row, inside, col)
      (flush-Marks fs m k (clear_bit (k % 32) (freemap_word fs.freemap (k / 32))) false lt bound
        (bit-clear_bit (k % 32) (freemap_word fs.freemap (k / 32)))
        (λ i ne. bit-clear_bit_other i (k % 32) (freemap_word fs.freemap (k / 32)) ne))

-- While some block is free, a block that is allocated and freed again leaves every mark as it was.
sfs_free_block-sfs_alloc_block :
    (fs : Sfs) (free : ℕ)
    → IsMounted fs
    → free < 4096
    → used fs.freemap free ≡ false
    → Returns
        (λ _ fs'. (j : ℕ) → used fs'.freemap j ≡ used fs.freemap j)
        (and_then (sfs_alloc_block fs) sfs_free_block)
sfs_free_block-sfs_alloc_block fs free m lt e = bind (sfs_alloc_block-first fs m) (λ b fs1 takes.
    elim takes [
      | inl (_, _, full) ↦ absurd (let t = full free lt in cc)
      | inr (k, e', lt', was, _, taken) ↦
          let z : b ≡ suc k = omega arith in
          rw z (
            mono (sfs_free_block-frees fs1 k taken.mounted lt') (λ _ fs2 freed j.
              freed.own j ∙ (elim (Bool-cases (j == k)) [
                | inl q ↦ let z' : j ≡ k = ground arith in rw q (rw z' (sym was))
                | inr q ↦ rw q (taken.own j ∙ ground arith)
              ])))
    ])
