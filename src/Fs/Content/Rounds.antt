-- ===== src/Fs/Content/Rounds.antt =====
-- The rounds of `sfs_write` and `sfs_read` in fs.c, and that those of `sfs_write` write the whole span.
use class_projects.Base.{
  ℕ, zero, suc, ◌+◌, ◌-◌, ◌*◌, ◌/◌, ◌%◌, ◌≤◌, ◌<◌, ◌≡◌, ◌⊎◌, ◌∙◌, refl, sym, ap, false, arith, ltb,
  leb, ◌==◌, ◌&&◌, if◌then◌else◌, Bool-cases, inl, inr,
}
use class_projects.Base.Bytes.{Bytes, copy}
use class_projects.Base.Run.{Returns, returns, mono}
use class_projects.Fs.Word.{u32_end}
use class_projects.Fs.{Sfs, sfs_block_size, sfs_at, sfs_read_block, sfs_write_block}
use class_projects.Fs.Content.{to_copy, sfs_write_loop}
use class_projects.Fs.Content.Blocks.{raw, IsWhole, read_raw}
use class_projects.Fs.Content.Span.{write_raw, IsSpan, IsSpan-rest, Spans, Spans-step}

module _ (bids : ℕ → ℕ) (room cur remaining offset : ℕ) (fs : Sfs) (small : fs.fh.size ≤ u32_end)
    (s : IsSpan fs.fh bids room cur remaining) (some_bytes : 0 < remaining)
    (at : offset ≡ cur % sfs_block_size) where
  pub to_copy_bounds :
      (0 < to_copy remaining offset)
      × (to_copy remaining offset ≤ remaining)
      × (cur % sfs_block_size + to_copy remaining offset ≤ sfs_block_size)
      × ((to_copy remaining offset ≡ remaining)
          ⊎ ((cur + to_copy remaining offset) % sfs_block_size ≡ 0))
  to_copy_bounds = elim (Bool-cases (leb sfs_block_size (remaining + offset))) [
    | inl q ↦ rw q (ground arith, ground arith, ground arith, inr (ground arith))
    | inr q ↦ rw q (some_bytes, omega arith, ground arith, inl refl)
  ]

  -- A round that writes `p` over the block at `cur`.
  round-Spans :
      (buf tmp : Bytes) (completed p n : ℕ)
      → n ≤ remaining
      → cur % sfs_block_size + n ≤ sfs_block_size
      → ((o : ℕ)
          → o < sfs_block_size
          → tmp (o + p) ≡ (
              if leb (cur % sfs_block_size) o && ltb o (cur % sfs_block_size + n)
              then buf (completed + (o - cur % sfs_block_size))
              else raw fs.fh (bids (cur / sfs_block_size)) o))
      → 0 < n
      → Spans bids buf completed cur n fs (sfs_write_block tmp p (bids (cur / sfs_block_size)) fs)
  round-Spans buf tmp completed p n le one bytes pos =
      let bid = bids (cur / sfs_block_size) in
      let w : IsWhole fs.fh bid = s.whole cur (omega arith) (omega arith) in
      let z : sfs_at bid ≡ bid * sfs_block_size = omega arith in
      record {
        size = rw z (omega arith);
        own = λ i h.
            let e : (cur + i) / sfs_block_size ≡ cur / sfs_block_size = omega arith in
            let o = (cur + i) % sfs_block_size in
            let e' : o ≡ cur % sfs_block_size + i = omega arith in
            let b = bytes o (omega arith) in
            rw e (
              write_raw fs tmp p bid (bid * sfs_block_size + o) small w (omega arith)
              ∙ ground arith);
        others = λ x lt out.
            write_raw fs tmp p bid x small w lt
            ∙ elim (Bool-cases
                (leb (bid * sfs_block_size) x && ltb x (bid * sfs_block_size + sfs_block_size))) [
                  | inr q ↦ rw q refl
                  | inl q ↦
                      let o = x - bid * sfs_block_size in
                      let b = bytes o (ground arith) in
                      let z' : bid * sfs_block_size + o ≡ x = ground arith in
                      elim (Bool-cases
                        (leb (cur % sfs_block_size) o && ltb o (cur % sfs_block_size + n))) [
                          | inr t ↦ rw q (b ∙ rw t (ap (λ a. fs.fh.byte a) z'))
                          | inl t ↦
                              let a = cur + (o - cur % sfs_block_size) in
                              let e : a / sfs_block_size ≡ cur / sfs_block_size = ground arith in
                              let e' : a % sfs_block_size ≡ o = ground arith in
                              absurd (out a (omega arith) (ground arith) (rw (e, e') (sym z')))
                        ]
                ];
        sb = refl;
        freemap = refl;
        freemap_words = refl;
        fdtable = refl;
      }

pub sfs_write_loop-Spans :
    (k : ℕ) (bids : ℕ → ℕ) (room : ℕ) (buf : Bytes) (completed remaining offset cur : ℕ)
    (tmp : Bytes) (fs : Sfs)
    → remaining < k
    → fs.fh.size ≤ u32_end
    → IsSpan fs.fh bids room cur remaining
    → (0 < remaining → offset ≡ cur % sfs_block_size)
    → Returns
        (λ cur' fs'. (cur' ≡ cur + remaining) × Spans bids buf completed cur remaining fs fs')
        (sfs_write_loop k bids room buf completed remaining offset cur tmp fs)
unfolding sfs_write_loop
sfs_write_loop-Spans zero bids room buf completed remaining offset cur tmp fs lt small s at =
    absurd (omega arith)
sfs_write_loop-Spans (suc k) bids room buf completed remaining offset cur tmp fs lt small s at =
    elim (Bool-cases (remaining == 0)) [
      | inl q ↦ rw q (
          returns (
            (ground arith),
            record {
              size = refl;
              own = λ i h. absurd (ground arith);
              others = λ x h out. refl;
              sb = refl;
              freemap = refl;
              freemap_words = refl;
              fdtable = refl;
            },
          ))
      | inr q ↦
          let pos : 0 < remaining = ground arith in
          let n = to_copy remaining offset in
          let bid = bids (cur / sfs_block_size) in
          let (some_n, le, one, whole) =
            to_copy_bounds bids room cur remaining offset fs small s pos (at pos) in
          let in_place : leb room (cur / sfs_block_size) ≡ false =
            ground (arith, s.roomy cur (omega arith) (omega arith)) in
          let go : (tmp' : Bytes) (fs1 : Sfs)
              → Spans bids buf completed cur n fs fs1
              → Returns
                  (λ cur' fs'.
                    (cur' ≡ cur + remaining) × Spans bids buf completed cur remaining fs fs')
                  (sfs_write_loop k bids room buf (completed + n) (remaining - n) 0 (cur + n) tmp'
                    fs1) =
            λ tmp' fs1 first.
              mono
                (sfs_write_loop-Spans k bids room buf (completed + n) (remaining - n) 0 (cur + n)
                  tmp' fs1 (omega arith) (omega (arith, first.size))
                  (IsSpan-rest fs.fh fs1.fh bids room cur remaining n le first.size s)
                  (λ h. elim whole [ inl t ↦ absurd (omega arith) | inr t ↦ sym t ]))
                (λ cur' fs' (moved, rest). (
                  (omega arith),
                  Spans-step bids buf room completed cur remaining n fs fs1 fs' le one s first rest,
                )) in
          elim (Bool-cases (n == sfs_block_size)) [
            | inl t ↦
                rw (q, in_place, t)
                  (go tmp (sfs_write_block buf completed bid fs) (
                    round-Spans bids room cur remaining offset fs small s pos (at pos) buf buf
                      completed completed n le one (λ o h. ground arith) some_n))
            | inr t ↦
                rw (q, in_place, t)
                  (go (copy n (sfs_read_block tmp bid fs) offset buf completed)
                    (sfs_write_block (copy n (sfs_read_block tmp bid fs) offset buf completed) 0 bid
                      fs)
                    (round-Spans bids room cur remaining offset fs small s pos (at pos) buf
                      (copy n (sfs_read_block tmp bid fs) offset buf completed) completed 0 n le one
                      (λ o h. ground (
                        arith,
                        read_raw fs tmp bid o small (s.whole cur (omega arith) (omega arith)) h,
                      ))
                      some_n))
          ]
    ]
