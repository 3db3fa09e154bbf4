-- ===== src/Dfs/Sockets/Pipe.antt =====
-- A connection as `send` and `recv` document it, and what passes over it.
use class_projects.Base.{
  ℕ, zero, suc, ◌+◌, ◌-◌, ◌≤◌, ◌<◌, ◌≡◌, ◌∙◌, refl, true, arith, Bool-cases, inl, inr, ltb,
}
use class_projects.Base.Int.{ℤ, pos}
use class_projects.Base.Bytes.{Bytes, File, copy, SameBytes}
use class_projects.Base.Run.{no_fuel, and_then, Returns, returns, bind, mono}
use class_projects.Dfs.Sockets.{send_loop, send_data, receive_loop, receive_data}

-- `content` is all that was sent, and `taken` how much of it was received. A `send` of some bytes passes
-- at least one of them on, and a `recv` gets at least one byte where some are left: both may do less
-- than they were asked to.
pub record Pipe : Type 1 where
  pub State : Type 0
  pub content : State → File
  pub taken : State → ℕ
  pub send : Bytes → ℕ → ℕ → State → ℤ × State
  pub recv : ℕ → State → (ℤ × Bytes) × State
  pub send_some :
      (src : Bytes) (p n : ℕ) (s : State)
      → 0 < n
      → (k : ℕ) × (s' : State) × (send src p n s ≡ (pos k, s'))
        × (0 < k)
        × (k ≤ n)
        × (taken s' ≡ taken s)
        × ((content s').size ≡ (content s).size + k)
        × ((i : ℕ) → i < (content s).size → (content s').byte i ≡ (content s).byte i)
        × ((i : ℕ) → i < k → (content s').byte ((content s).size + i) ≡ src (p + i))
  pub recv_some :
      (n : ℕ) (s : State)
      → 0 < n
      → taken s < (content s).size
      → (k : ℕ) × (got : Bytes) × (s' : State) × (recv n s ≡ ((pos k, got), s'))
        × (0 < k)
        × (k ≤ n)
        × (taken s + k ≤ (content s).size)
        × (taken s' ≡ taken s + k)
        × (content s' ≡ content s)
        × ((i : ℕ) → i < k → got i ≡ (content s).byte (taken s + i))

module _ (pipe : Pipe) where
  open pipe use {State, content, taken, send, recv, send_some, recv_some}

  -- `size` bytes of `src` were added to what was sent.
  pub record Sent (src : Bytes) (p size : ℕ) (s s' : State) : Type 0 where
    pub taken_same : taken s' ≡ taken s
    pub longer : (content s').size ≡ (content s).size + size
    pub before : (i : ℕ) → i < (content s).size → (content s').byte i ≡ (content s).byte i
    pub added : (i : ℕ) → i < size → (content s').byte ((content s).size + i) ≡ src (p + i)

  send_loop-Sent :
      (k : ℕ) (src : Bytes) (size p : ℕ) (s : State)
      → p ≤ size
      → size - p < k
      → Returns (λ _ s'. Sent src p (size - p) s s') (send_loop send k src size p s)
  unfolding send_loop
  send_loop-Sent zero src size p s le lt = absurd (omega arith)
  send_loop-Sent (suc k) src size p s le lt = elim (Bool-cases (ltb p size)) [
    | inr q ↦ rw q (
        returns (record {
          taken_same = refl;
          longer = ground arith;
          before = λ i h. refl;
          added = λ i h. absurd (ground arith);
        }))
    | inl q ↦
        let (n, s1, e, some_sent, few, same, longer, before, added) =
          send_some src p (size - p) s (ground arith) in
        rw (q, e)
          (mono (send_loop-Sent k src size (p + n) s1 (ground arith) (ground arith)) (λ _ s2 r.
            record {
              taken_same = r.taken_same ∙ same;
              longer = omega (arith, r.longer, few);
              before = λ i h. r.before i (omega arith) ∙ before i h;
              added = λ i h. elim (Bool-cases (ltb i n)) [
                | inl t ↦ r.before ((content s).size + i) (ground arith) ∙ added i (ground arith)
                | inr t ↦
                    let z : (content s1).size + (i - n) ≡ (content s).size + i = ground arith in
                    let z' : p + n + (i - n) ≡ p + i = ground arith in
                    rw (z, z') at (r.added (i - n) (ground arith))
              ];
            }))
  ]

  -- `receive_data` when enough was sent.
  receive_loop-gets :
      (k : ℕ) (buf : Bytes) (size p : ℕ) (s : State)
      → p ≤ size
      → size - p < k
      → taken s + (size - p) ≤ (content s).size
      → Returns
          (λ buf' s'.
            ((i : ℕ) → i < p → buf' i ≡ buf i)
            × ((i : ℕ) → p ≤ i → i < size → buf' i ≡ (content s).byte (taken s + (i - p)))
            × (taken s' ≡ taken s + (size - p))
            × (content s' ≡ content s))
          (receive_loop recv k buf size p s)
  unfolding receive_loop
  receive_loop-gets zero buf size p s le lt enough = absurd (omega arith)
  receive_loop-gets (suc k) buf size p s le lt enough = elim (Bool-cases (ltb p size)) [
    | inr q ↦ rw q (returns ((λ i h. refl), (λ i h h'. absurd (ground arith)), ground arith, refl))
    | inl q ↦
        let (n, got, s1, e, some_got, few, there, moved, same, bytes) =
          recv_some (size - p) s (ground arith) (ground arith) in
        let e0 : (content s1).size ≡ (content s).size = rw same refl in
        rw (q, e)
          (mono
            (receive_loop-gets k (copy n buf p got 0) size (p + n) s1 (ground arith) (ground arith)
              (ground arith))
            (λ buf' s2 (old, new, at, kept). (
              (λ i h. old i (omega arith) ∙ ground arith),
              (λ i h h'. elim (Bool-cases (ltb i (p + n))) [
                | inl t ↦
                    let z : i - p + 0 ≡ i - p = omega arith in
                    old i (ground arith) ∙ (let b = bytes (i - p) (ground arith) in ground arith)
                | inr t ↦
                    let z : taken s1 + (i - (p + n)) ≡ taken s + (i - p) = ground arith in
                    rw (z, same) at (new i (ground arith) h')
              ]),
              (ground arith),
              kept ∙ same,
            )))
  ]

  -- Over any connection that passes some bytes with each call, however few, `send_data` ends and adds
  -- exactly the buffer to what was sent, and `receive_data` of as many bytes at the other end, when
  -- nothing else is under way, ends with the same bytes.
  pub receive_data-send_data :
      (k size : ℕ) (src buf : Bytes) (s : State)
      → size < k
      → taken s ≡ (content s).size
      → Returns
          (λ buf' s'. SameBytes size buf' src × (taken s' ≡ (content s').size))
          (and_then
            (send_data send k true src size s)
            (λ _ s1. receive_data recv k true buf size s1))
  unfolding send_data receive_data
  receive_data-send_data k size src buf s lt idle =
      bind (send_loop-Sent k src size 0 s (omega arith) (omega arith)) (λ _ s1 r.
        mono
          (receive_loop-gets k buf size 0 s1 (omega arith) (omega arith)
            (omega (arith, r.longer, r.taken_same)))
          (λ buf' s2 (_, new, at, kept). (
            (λ i h.
                let z : taken s1 + (i - 0) ≡ (content s).size + i = omega (arith, r.taken_same) in
                new i (omega arith) h
                ∙ (let z' : 0 + i ≡ i = omega arith in rw z (rw z' at (r.added i (omega arith))))),
            (let z : (content s2).size ≡ (content s1).size = rw kept refl in
                omega (arith, r.longer, r.taken_same)),
          )))

-- When the other end has closed the connection, `recv` returns 0 from then on, and `receive_data` of
-- some bytes calls it forever: no number of calls is enough.
pub receive_data_closed :
    {S : Type 0} (recv : ℕ → S → (ℤ × Bytes) × S) (k size : ℕ) (buf : Bytes) (s : S)
    → ((n : ℕ) → (got : Bytes) × (recv n s ≡ ((pos 0, got), s)))
    → 0 < size
    → receive_data recv k true buf size s ≡ no_fuel
unfolding receive_data receive_loop
receive_data_closed recv k size buf s closed some_bytes = spins k buf
  where
    spins : (k : ℕ) (buf : Bytes) → receive_loop recv k buf size 0 s ≡ no_fuel
    spins zero buf = refl
    spins (suc k) buf =
        let (got, e) = closed (size - 0) in
        let more : ltb 0 size ≡ true = ground arith in rw (more, e) (spins k (copy 0 buf 0 got 0))
