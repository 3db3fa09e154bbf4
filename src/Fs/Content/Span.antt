-- ===== src/Fs/Content/Span.antt =====
-- The blocks of a file of fs.c that a transfer touches, and the image after a write of them.
use class_projects.Base.{
  ℕ, ◌+◌, ◌-◌, ◌*◌, ◌/◌, ◌%◌, ◌≤◌, ◌<◌, ◌≡◌, ◌≢◌, ◌∙◌, arith, ltb, leb, ◌==◌, ◌&&◌, if◌then◌else◌,
  Bool-cases, inl, inr,
}
use class_projects.Base.Bytes.{Bytes, File}
use class_projects.Fs.Word.{u32_end}
use class_projects.Fs.{Sfs, sfs_block_size, sfs_at, sfs_write_block}
use class_projects.Fs.Content.Blocks.{IsWhole}

-- Where byte `a` of a file lies whose blocks are `bids`.
abbrev pub place : (ℕ → ℕ) → ℕ → ℕ
place bids a = bids (a / sfs_block_size) * sfs_block_size + a % sfs_block_size

-- A block that is written takes the place of the bytes that were there.
pub write_raw :
    (fs : Sfs) (buf : Bytes) (p bid x : ℕ)
    → fs.fh.size ≤ u32_end
    → IsWhole fs.fh bid
    → x < fs.fh.size
    → (sfs_write_block buf p bid fs).fh.byte x ≡ (
        if leb (bid * sfs_block_size) x && ltb x (bid * sfs_block_size + sfs_block_size)
        then buf (x - bid * sfs_block_size + p)
        else fs.fh.byte x)
write_raw fs buf p bid x small whole lt =
    let z : sfs_at bid ≡ bid * sfs_block_size = omega arith in rw z (ground arith)

-- The same, for a buffer that is written from its start on.
pub write_block-byte :
    (fs : Sfs) (buf : Bytes) (bid x : ℕ)
    → fs.fh.size ≤ u32_end
    → IsWhole fs.fh bid
    → x < fs.fh.size
    → (sfs_write_block buf 0 bid fs).fh.byte x
      ≡ (if x / sfs_block_size == bid then buf (x % sfs_block_size) else fs.fh.byte x)
write_block-byte fs buf bid x small whole lt =
    write_raw fs buf 0 bid x small whole lt ∙ elim (Bool-cases (x / sfs_block_size == bid)) [
      | inl q ↦
          let z : x - bid * sfs_block_size + 0 ≡ x % sfs_block_size = ground arith in ground arith
      | inr q ↦ ground arith
    ]

pub write_block-size :
    (fs : Sfs) (buf : Bytes) (bid : ℕ)
    → fs.fh.size ≤ u32_end
    → IsWhole fs.fh bid
    → (sfs_write_block buf 0 bid fs).fh.size ≡ fs.fh.size
write_block-size fs buf bid small whole =
    let z : sfs_at bid ≡ bid * sfs_block_size = omega arith in rw z (omega arith)

-- Two blocks that are written, one after the other.
module _ (fs : Sfs) (buf buf' : Bytes) (bid bid' : ℕ) (small : fs.fh.size ≤ u32_end)
    (whole : IsWhole fs.fh bid) (whole' : IsWhole fs.fh bid') where
  abbrev pub two_blocks : Sfs
  two_blocks = sfs_write_block buf' 0 bid' (sfs_write_block buf 0 bid fs)

  pub two_blocks-size : two_blocks.fh.size ≡ fs.fh.size
  two_blocks-size =
      let size = write_block-size fs buf bid small whole in
      write_block-size (sfs_write_block buf 0 bid fs) buf' bid' (omega arith) (omega arith) ∙ size

  pub two_blocks-byte :
      (x : ℕ)
      → x < fs.fh.size
      → two_blocks.fh.byte x ≡ (
          if x / sfs_block_size == bid'
          then buf' (x % sfs_block_size)
          else if x / sfs_block_size == bid
          then buf (x % sfs_block_size)
          else fs.fh.byte x)
  two_blocks-byte x lt =
      let size = write_block-size fs buf bid small whole in
      write_block-byte (sfs_write_block buf 0 bid fs) buf' bid' x (omega arith) (omega arith)
        (omega arith)
      ∙ rw (write_block-byte fs buf bid x small whole lt)

-- The blocks that a transfer of `remaining` bytes at `cur` touches are whole and differ, and have
-- places in the array.
pub record IsSpan (f : File) (bids : ℕ → ℕ) (room cur remaining : ℕ) : Type 0 where
  pub roomy : (a : ℕ) → cur ≤ a → a < cur + remaining → a / sfs_block_size < room
  pub whole : (a : ℕ) → cur ≤ a → a < cur + remaining → IsWhole f (bids (a / sfs_block_size))
  pub distinct :
      (a b : ℕ)
      → cur ≤ a
      → a < cur + remaining
      → cur ≤ b
      → b < cur + remaining
      → bids (a / sfs_block_size) ≡ bids (b / sfs_block_size)
      → a / sfs_block_size ≡ b / sfs_block_size

-- What is left after the first `n` bytes.
pub IsSpan-rest :
    (f f' : File) (bids : ℕ → ℕ) (room cur remaining n : ℕ)
    → n ≤ remaining
    → f'.size ≡ f.size
    → IsSpan f bids room cur remaining
    → IsSpan f' bids room (cur + n) (remaining - n)
IsSpan-rest f f' bids room cur remaining n le same s = record {
  roomy = λ a h h'. s.roomy a (omega arith) (omega arith);
  whole = λ a h h'. omega (arith, s.whole a (omega arith) (omega arith));
  distinct =
      λ a b h h' k k' e. s.distinct a b (omega arith) (omega arith) (omega arith) (omega arith) e;
}

-- The image after a transfer: nothing but the bytes of the span.
pub record Spans (bids : ℕ → ℕ) (buf : Bytes) (completed cur remaining : ℕ) (fs fs' : Sfs)
    : Type 0 where
  pub size : fs'.fh.size ≡ fs.fh.size
  pub own : (i : ℕ) → i < remaining → fs'.fh.byte (place bids (cur + i)) ≡ buf (completed + i)
  pub others :
      (x : ℕ)
      → x < fs.fh.size
      → ((a : ℕ) → cur ≤ a → a < cur + remaining → x ≢ place bids a)
      → fs'.fh.byte x ≡ fs.fh.byte x
  pub sb : fs'.sb ≡ fs.sb
  pub freemap : fs'.freemap ≡ fs.freemap
  pub freemap_words : fs'.freemap_words ≡ fs.freemap_words
  pub fdtable : fs'.fdtable ≡ fs.fdtable

-- One round: the state `fs1` after it has the first `n` bytes in place.
pub Spans-step :
    (bids : ℕ → ℕ) (buf : Bytes) (room completed cur remaining n : ℕ) (fs fs1 fs' : Sfs)
    → n ≤ remaining
    → cur % sfs_block_size + n ≤ sfs_block_size
    → IsSpan fs.fh bids room cur remaining
    → Spans bids buf completed cur n fs fs1
    → Spans bids buf (completed + n) (cur + n) (remaining - n) fs1 fs'
    → Spans bids buf completed cur remaining fs fs'
Spans-step bids buf room completed cur remaining n fs fs1 fs' le one s first rest = record {
  size = rest.size ∙ first.size;
  own = λ i h. elim (Bool-cases (ltb i n)) [
    | inr q ↦
        let z : cur + n + (i - n) ≡ cur + i = ground arith in
        let z' : completed + n + (i - n) ≡ completed + i = ground arith in
        rw (z, z') at (rest.own (i - n) (ground arith))
    | inl q ↦
        let w = s.whole (cur + i) (omega arith) (omega arith) in
        rest.others (place bids (cur + i)) (omega (arith, first.size)) (λ a h1 h2 e.
          let d = s.distinct (cur + i) a (omega arith) (omega arith) (omega arith) (omega arith) in
          ground arith)
        ∙ first.own i (ground arith)
  ];
  others = λ x lt out.
      rest.others x (omega (arith, first.size)) (λ a h h'. out a (omega arith) (omega arith))
      ∙ first.others x lt (λ a h h'. out a h (omega arith));
  sb = rest.sb ∙ first.sb;
  freemap = rest.freemap ∙ first.freemap;
  freemap_words = rest.freemap_words ∙ first.freemap_words;
  fdtable = rest.fdtable ∙ first.fdtable;
}
