-- ===== src/Fs/Content/Fills.antt =====
-- The blocks that a new frame of fs.c lists: `fill_frame`, the loop of `sfs_resize_file` over
-- `sfs_alloc_block`.
use class_projects.Base.{
  ℕ, zero, suc, ◌+◌, ◌-◌, ◌*◌, ◌≤◌, ◌<◌, ◌≡◌, ◌⊎◌, ◌∙◌, refl, sym, true, false, arith, max, leb,
  ◌==◌, Bool-cases, inl, inr,
}
use class_projects.Base.Bytes.{Bytes}
use class_projects.Base.Run.{Returns, returns, bind, mono}
use class_projects.Fs.Word.{u32_end, get_u32, put_u32, get_u32-put_u32, get_u32-put_u32_other}
use class_projects.Fs.{Sfs, sfs_block_size, sfs_alloc_block}
use class_projects.Fs.Freemap.{used, IsMounted, Marks}
use class_projects.Fs.Freemap.Alloc.{sfs_alloc_block-first}
use class_projects.Fs.Content.{frame_content, fill_frame}

-- `n` blocks from bit `m` on are free.
abbrev pub IsFree : Sfs → ℕ → ℕ → Type 0
IsFree fs m n = (m + n ≤ 4096) × ((j : ℕ) → m ≤ j → j < m + n → used fs.freemap j ≡ false)

-- What allocations leave alone.
pub record Keeps (fs fs' : Sfs) : Type 0 where
  pub marked : (j : ℕ) → used fs.freemap j ≡ true → used fs'.freemap j ≡ true
  pub outside :
      (a : ℕ)
      → a < fs.fh.size
      → (a < sfs_block_size) ⊎ (2 * sfs_block_size ≤ a)
      → fs'.fh.byte a ≡ fs.fh.byte a
  pub size : fs'.fh.size ≡ max fs.fh.size (2 * sfs_block_size)
  pub sb : fs'.sb ≡ fs.sb
  pub fdtable : fs'.fdtable ≡ fs.fdtable
  pub mounted : IsMounted fs'

Marks-Keeps : (k : ℕ) (fs fs' : Sfs) → Marks k true fs fs' → Keeps fs fs'
Marks-Keeps k fs fs' marks = record {
  marked = λ j h. ground (arith, marks.own j);
  outside = marks.outside;
  size = marks.size;
  sb = marks.sb;
  fdtable = marks.fdtable;
  mounted = marks.mounted;
}

pub Keeps-Keeps : (fs fs1 fs' : Sfs) → Keeps fs fs1 → Keeps fs1 fs' → Keeps fs fs'
Keeps-Keeps fs fs1 fs' a b = record {
  marked = λ j h. b.marked j (a.marked j h);
  outside = λ x h out. b.outside x (omega (arith, a.size)) out ∙ a.outside x h out;
  size = omega (arith, a.size, b.size);
  sb = b.sb ∙ a.sb;
  fdtable = b.fdtable ∙ a.fdtable;
  mounted = b.mounted;
}

-- While `low` bits are in use and bit `m` is free, the next block lies between.
pub record Takes (low m b : ℕ) (fs fs' : Sfs) : Type 0 where
  pub above : low < b
  pub below : b ≤ m + 1
  pub free : used fs.freemap (b - 1) ≡ false
  pub taken : (j : ℕ) → j < b → used fs'.freemap j ≡ true
  pub later : (j : ℕ) → m < j → used fs'.freemap j ≡ used fs.freemap j
  pub marks : Marks (b - 1) true fs fs'
  pub keeps : Keeps fs fs'

pub sfs_alloc_block-Takes :
    (fs : Sfs) (low m : ℕ)
    → IsMounted fs
    → m < 4096
    → used fs.freemap m ≡ false
    → ((j : ℕ) → j < low → used fs.freemap j ≡ true)
    → Returns (λ b fs'. Takes low m b fs fs') (sfs_alloc_block fs)
sfs_alloc_block-Takes fs low m mounted lt free full =
    mono (sfs_alloc_block-first fs mounted) (λ b fs' takes. elim takes [
      | inl (_, _, all) ↦ absurd (let t = all m lt in cc)
      | inr (k, e, lt', was, before, marks) ↦
          let z : b - 1 ≡ k = omega arith in
          let le : k ≤ m = elim (Bool-cases (leb k m)) [
            | inl q ↦ ground arith
            | inr q ↦ absurd (let t = before m (ground arith) in cc)
          ] in
          let ge : low ≤ k = elim (Bool-cases (leb low k)) [
            | inl q ↦ ground arith
            | inr q ↦ absurd (let t = full k (ground arith) in cc)
          ] in
          record {
            above = omega arith;
            below = omega arith;
            free = rw z was;
            taken = λ j h. marks.own j ∙ elim (Bool-cases (j == k)) [
              | inl q ↦ rw q refl
              | inr q ↦ rw q (before j (ground arith))
            ];
            later = λ j h. marks.own j ∙ ground arith;
            marks = rw z marks;
            keeps = Marks-Keeps k fs fs' marks;
          }
    ])

-- The `n` places of the frame from `k` on list blocks that were free, each behind the one before it.
pub record Fills (low m n k : ℕ) (frame frame' : Bytes) (fs fs' : Sfs) : Type 0 where
  pub kept : (p : ℕ) → p + 4 ≤ 4 + 4 * k → get_u32 frame' p ≡ get_u32 frame p
  pub above : (i : ℕ) → i < n → low < frame_content frame' (k + i)
  pub below : (i : ℕ) → i < n → frame_content frame' (k + i) ≤ m + i + 1
  pub free : (i : ℕ) → i < n → used fs.freemap (frame_content frame' (k + i) - 1) ≡ false
  pub rising :
      (i j : ℕ) → i < j → j < n → frame_content frame' (k + i) < frame_content frame' (k + j)
  pub taken : (i : ℕ) → i < n → used fs'.freemap (frame_content frame' (k + i) - 1) ≡ true
  pub later : (j : ℕ) → m + n ≤ j → used fs'.freemap j ≡ used fs.freemap j
  pub keeps : Keeps fs fs'

-- One more block in front of the others.
Fills-suc :
    (low m n k b : ℕ) (frame frame' : Bytes) (fs fs1 fs' : Sfs)
    → b < u32_end
    → Takes low m b fs fs1
    → Fills b (m + 1) n (k + 1) (put_u32 (4 + 4 * k) b frame) frame' fs1 fs'
    → Fills low m (suc n) k frame frame' fs fs'
Fills-suc low m n k b frame frame' fs fs1 fs' short first rest =
    let e : frame_content frame' k ≡ b =
      rest.kept (4 + 4 * k) (omega arith) ∙ get_u32-put_u32 (4 + 4 * k) b frame short in
    let at0 : k + 0 ≡ k = omega arith in
    let next : (i : ℕ) → 0 < i → k + 1 + (i - 1) ≡ k + i = λ i h. omega arith in
    record {
      kept = λ p h.
          rest.kept p (omega arith)
          ∙ get_u32-put_u32_other (4 + 4 * k) p b frame (inl (omega arith));
      above = λ i h. elim (Bool-cases (i == 0)) [
        | inl q ↦ let z : i ≡ 0 = ground arith in rw (z, at0, e) first.above
        | inr q ↦
            let a = rest.above (i - 1) (ground arith) in
            let l = first.above in rw (sym (next i (ground arith))) (ground arith)
      ];
      below = λ i h. elim (Bool-cases (i == 0)) [
        | inl q ↦ let z : i ≡ 0 = ground arith in rw (z, at0, e) (omega (arith, first.below))
        | inr q ↦
            let a = rest.below (i - 1) (ground arith) in
            rw (sym (next i (ground arith))) (ground arith)
      ];
      free = λ i h. elim (Bool-cases (i == 0)) [
        | inl q ↦ let z : i ≡ 0 = ground arith in rw (z, at0, e) first.free
        | inr q ↦
            let a = rest.above (i - 1) (ground arith) in
            let f = rest.free (i - 1) (ground arith) in
            let l = first.above in
            let o = first.marks.own (frame_content frame' (k + 1 + (i - 1)) - 1) in
            rw (sym (next i (ground arith))) (ground arith)
      ];
      rising = λ i j h h'. elim (Bool-cases (i == 0)) [
        | inl q ↦
            let z : i ≡ 0 = ground arith in
            rw (z, at0, e, sym (next j (omega arith))) (rest.above (j - 1) (omega arith))
        | inr q ↦
            rw (sym (next i (ground arith)), sym (next j (omega arith)))
              (rest.rising (i - 1) (j - 1) (ground arith) (omega arith))
      ];
      taken = λ i h. elim (Bool-cases (i == 0)) [
        | inl q ↦
            let z : i ≡ 0 = ground arith in
            rw (z, at0, e)
              (rest.keeps.marked (b - 1) (first.taken (b - 1) (omega (arith, first.above))))
        | inr q ↦ rw (sym (next i (ground arith))) (rest.taken (i - 1) (ground arith))
      ];
      later = λ j h. rest.later j (omega arith) ∙ first.later j (omega arith);
      keeps = Keeps-Keeps fs fs1 fs' first.keeps rest.keeps;
    }

pub fill_frame-Fills :
    (n k low m : ℕ) (frame : Bytes) (fs : Sfs)
    → IsMounted fs
    → 2 * sfs_block_size ≤ fs.fh.size
    → IsFree fs m n
    → ((j : ℕ) → j < low → used fs.freemap j ≡ true)
    → Returns (λ frame' fs'. Fills low m n k frame frame' fs fs') (fill_frame n k frame fs)
unfolding fill_frame
fill_frame-Fills zero k low m frame fs mounted whole free full = returns (record {
  kept = λ p h. refl;
  above = λ i h. absurd (omega arith);
  below = λ i h. absurd (omega arith);
  free = λ i h. absurd (omega arith);
  rising = λ i j h h'. absurd (omega arith);
  taken = λ i h. absurd (omega arith);
  later = λ j h. refl;
  keeps = record {
    marked = λ j h. h;
    outside = λ a h out. refl;
    size = omega arith;
    sb = refl;
    fdtable = refl;
    mounted = mounted;
  };
})
fill_frame-Fills (suc n) k low m frame fs mounted whole (room, free) full =
    bind
      (sfs_alloc_block-Takes fs low m mounted (omega arith) (free m (omega arith) (omega arith))
        full)
      (λ b fs1 takes.
        mono
          (fill_frame-Fills n (k + 1) b (m + 1) (put_u32 (4 + 4 * k) b frame) fs1
            takes.keeps.mounted (omega (arith, takes.keeps.size))
            (
              (omega arith),
              (λ j h h'. takes.later j (omega arith) ∙ free j (omega arith) (omega arith)),
            )
            takes.taken)
          (λ frame' fs' fills.
            Fills-suc low m n k b frame frame' fs fs1 fs' (omega (arith, takes.below)) takes fills))
