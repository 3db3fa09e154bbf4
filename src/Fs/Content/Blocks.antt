-- ===== src/Fs/Content/Blocks.antt =====
-- The blocks of a file of fs.c, and that `sfs_get_file_content` lists them.
use class_projects.Base.{
  ℕ, zero, suc, ◌+◌, ◌-◌, ◌*◌, ◌/◌, ◌%◌, ◌≤◌, ◌<◌, ◌≡◌, ◌∙◌, refl, sym, false, arith, ltb, leb,
  ◌==◌, if◌then◌else◌, Bool-cases, inl, inr,
}
use class_projects.Base.Bytes.{Bytes, File}
use class_projects.Base.Run.{Returns, returns, mono}
use class_projects.Fs.Word.{u32_end, get_u32}
use class_projects.Fs.{Sfs, sfs_block_size, sfs_at, sfs_read_block}
use class_projects.Fs.Files.{first_frame}
use class_projects.Fs.Content.{
  sfs_frame_count, frame_next, frame_content, next_frame, next_number, content_loop,
  sfs_get_file_content,
}

-- The bytes of a block that lies in the image.
abbrev pub raw : File → ℕ → Bytes
raw f bid o = f.byte (bid * sfs_block_size + o)

abbrev pub IsWhole : File → ℕ → Type 0
IsWhole f bid = bid * sfs_block_size + sfs_block_size ≤ f.size

-- The block of frame `k` of a file with the first frame `first`.
unfoldable pub frame_bid : File → ℕ → ℕ → ℕ
frame_bid f first zero = first
frame_bid f first (suc k) = frame_next (raw f (frame_bid f first k))

-- The block of the content of the file that is number `i`.
abbrev pub content_bid : File → ℕ → ℕ → ℕ
content_bid f first i =
    frame_content (raw f (frame_bid f first (i / sfs_frame_count))) (i % sfs_frame_count)

pub read_raw :
    (fs : Sfs) (buf : Bytes) (bid o : ℕ)
    → fs.fh.size ≤ u32_end
    → IsWhole fs.fh bid
    → o < sfs_block_size
    → sfs_read_block buf bid fs o ≡ raw fs.fh bid o
read_raw fs buf bid o small whole lt =
    let z : sfs_at bid ≡ bid * sfs_block_size = omega arith in
    let z' : o - 0 + bid * sfs_block_size ≡ bid * sfs_block_size + o = omega arith in
    rw z (ground arith)

-- A word depends on its four bytes.
pub get_u32-same :
    (a b : Bytes) (p n : ℕ) → p + 4 ≤ n → ((o : ℕ) → o < n → a o ≡ b o) → get_u32 a p ≡ get_u32 b p
unfolding get_u32
get_u32-same a b p n le same = omega (
  arith,
  same p (omega arith),
  same (p + 1) (omega arith),
  same (p + 2) (omega arith),
  same (p + 3) (omega arith),
)

-- The blocks that a first frame lists depend on that frame only.
pub content_bid-same :
    (f f' : File) (first i : ℕ)
    → i < 127
    → ((o : ℕ) → o < sfs_block_size → raw f' first o ≡ raw f first o)
    → content_bid f' first i ≡ content_bid f first i
unfolding frame_bid
content_bid-same f f' first i lt same =
    let z : i / 127 ≡ 0 = omega arith in
    rw z (get_u32-same _ _ (4 + 4 * (i % 127)) sfs_block_size (omega arith) same)

-- The buffer holds frame `number`.
abbrev pub Loaded : File → ℕ → ℕ → Bytes → Type 0
Loaded f first number frame =
    (o : ℕ) → o < sfs_block_size → frame o ≡ raw f (frame_bid f first number) o

module _ (fs : Sfs) (first start : ℕ) (small : fs.fh.size ≤ u32_end) where
  next_frame-Loaded :
      (i number : ℕ) (frame : Bytes)
      → IsWhole fs.fh (frame_bid fs.fh first (next_number i number))
      → Loaded fs.fh first number frame
      → Loaded fs.fh first (next_number i number) (next_frame i number frame fs)
  unfolding frame_bid
  next_frame-Loaded i number frame whole loaded o h =
      elim (Bool-cases (ltb number (i / sfs_frame_count))) [
        | inr q ↦ rw q (loaded o h)
        | inl q ↦
            let z : number + 1 ≡ suc number = omega arith in
            let e : frame_next frame ≡ frame_bid fs.fh first (suc number) =
              get_u32-same _ _ 0 sfs_block_size (omega arith) loaded in
            rw (q, z, e)
              (read_raw fs frame (frame_bid fs.fh first (suc number)) o small (rw (q, z) at whole)
                h)
      ]

  -- The loop lists the blocks from `start` on, and nothing else changes.
  content_loop-bids :
      (n room i j number : ℕ) (frame : Bytes) (bids : ℕ → ℕ)
      → ((k : ℕ) → k * sfs_frame_count < i + n → IsWhole fs.fh (frame_bid fs.fh first k))
      → (0 < n → Loaded fs.fh first number frame)
      → number ≡ i / sfs_frame_count
      → j ≡ i - start
      → i + n ≤ start + room
      → Returns
          (λ bids' fs'.
            (fs' ≡ fs)
            × ((x : ℕ) → x < j → bids' x ≡ bids x)
            × ((x : ℕ) → j ≤ x → start + x < i + n → bids' x ≡ content_bid fs.fh first (start + x)))
          (content_loop n room start i j number frame bids fs)
  unfolding content_loop
  content_loop-bids zero room i j number frame bids whole loaded at place fits =
      returns (refl, (λ x h. refl), (λ x h h'. absurd (omega arith)))
  content_loop-bids (suc n) room i j number frame bids whole loaded at place fits =
      let at' : next_number (i + 1) number ≡ (i + 1) / sfs_frame_count = ground arith in
      let loaded' : 0 < n
          → Loaded fs.fh first (next_number (i + 1) number) (next_frame (i + 1) number frame fs) =
        λ h.
          next_frame-Loaded (i + 1) number frame (whole _ (omega arith)) (loaded (omega arith)) in
      elim (Bool-cases (ltb i start)) [
        | inl q ↦ rw q (
            mono
              (content_loop-bids n room (i + 1) j (next_number (i + 1) number)
                (next_frame (i + 1) number frame fs) bids (λ k h. whole k (omega arith)) loaded' at'
                (ground arith) (omega arith))
              (λ bids' fs' (same, kept, listed).
                (same, kept, (λ x h h'. listed x h (omega arith)))))
        | inr q ↦
            let in_place : leb room j ≡ false = ground arith in
            rw (q, in_place)
              (mono
                (content_loop-bids n room (i + 1) (j + 1) (next_number (i + 1) number)
                  (next_frame (i + 1) number frame fs)
                  (λ x. if x == j then frame_content frame (i % sfs_frame_count) else bids x)
                  (λ k h. whole k (omega arith)) loaded' at' (ground arith) (omega arith))
                (λ bids' fs' (same, kept, listed). (
                  same,
                  (λ x h. kept x (omega arith) ∙ ground arith),
                  (λ x h h'. elim (Bool-cases (x == j)) [
                    | inr t ↦ listed x (ground arith) (omega arith)
                    | inl t ↦
                        let z : start + x ≡ i = ground arith in
                        let w : frame_content frame (i % sfs_frame_count)
                            ≡ content_bid fs.fh first i =
                          rw (sym at) (
                            get_u32-same _ _ (4 + 4 * (i % sfs_frame_count)) sfs_block_size
                              (omega arith) (loaded (omega arith))) in
                        kept x (ground arith) ∙ rw (t, z) w
                  ]),
                )))
      ]

-- `sfs_get_file_content` fills the array with the blocks of the file, from that of the cursor up to and
-- with that of the end of the transfer, when it has places for them and the frames are in the image.
pub sfs_get_file_content-lists :
    (fs : Sfs) (frame : Bytes) (room fd cur len : ℕ) (junk : ℕ → ℕ)
    → fs.fh.size ≤ u32_end
    → cur + len < u32_end
    → (cur + len) / sfs_block_size < cur / sfs_block_size + room
    → ((k : ℕ)
        → k * sfs_frame_count ≤ (cur + len) / sfs_block_size
        → IsWhole fs.fh (frame_bid fs.fh (first_frame (fs.fdtable fd).inode) k))
    → Returns
        (λ bids fs'.
          (fs' ≡ fs)
          × ((x : ℕ)
              → cur / sfs_block_size + x ≤ (cur + len) / sfs_block_size
              → bids x
                ≡ content_bid fs.fh (first_frame (fs.fdtable fd).inode) (cur / sfs_block_size + x)))
        (sfs_get_file_content frame room junk fd cur len fs)
unfolding sfs_get_file_content frame_bid
sfs_get_file_content-lists fs frame room fd cur len junk small short fits whole =
    let first = first_frame (fs.fdtable fd).inode in
    let z : (cur + len) % u32_end ≡ cur + len = omega arith in
    rw z (
      mono
        (content_loop-bids fs first (cur / sfs_block_size) small ((cur + len) / sfs_block_size + 1)
          room 0 0 0 (sfs_read_block frame first fs) junk (λ k h. whole k (omega arith))
          (λ h o lt. read_raw fs frame first o small (whole 0 (omega arith)) lt) (omega arith)
          (omega arith) (omega arith))
        (λ bids fs' (same, _, listed). (same, (λ x h. listed x (omega arith) (omega arith)))))
