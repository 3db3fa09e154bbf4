-- ===== src/Fs/Word.antt =====
-- The 32-bit words that pa3/a2/fs.c keeps in blocks, lowest byte first, and the tests of their bits.
use class_projects.Base.{
  ℕ, zero, suc, ◌+◌, ◌*◌, ◌/◌, ◌%◌, ◌^◌, ◌≤◌, ◌<◌, ◌≡◌, ◌≢◌, ◌⊎◌, refl, Bool, true, false, arith,
  if◌then◌else◌, ◌==◌,
}
use class_projects.Base.Bytes.{Bytes}

-- `u32` arithmetic wraps here.
abbrev pub u32_end : ℕ
u32_end = 4294967296

-- The word at offset `p`.
unfoldable pub get_u32 : Bytes → ℕ → ℕ
get_u32 b p = b p + 256 * b (p + 1) + 65536 * b (p + 2) + 16777216 * b (p + 3)

unfoldable pub put_u32 : ℕ → ℕ → Bytes → Bytes
put_u32 p n b i =
    if i == p
    then n % 256
    else if i == p + 1
    then n / 256 % 256
    else if i == p + 2
    then n / 65536 % 256
    else if i == p + 3
    then n / 16777216 % 256
    else b i

abbrev pub IsBytes : Bytes → Type 0
IsBytes b = (i : ℕ) → b i < 256

pub get_u32-put_u32 : (p n : ℕ) (b : Bytes) → n < u32_end → get_u32 (put_u32 p n b) p ≡ n
unfolding get_u32 put_u32
get_u32-put_u32 p n b h = ground arith

pub get_u32-put_u32_other :
    (p q n : ℕ) (b : Bytes) → (q + 4 ≤ p) ⊎ (p + 4 ≤ q) → get_u32 (put_u32 p n b) q ≡ get_u32 b q
unfolding get_u32 put_u32
get_u32-put_u32_other p q n b apart = ground arith

pub put_u32-cong : (p n : ℕ) (a b : Bytes) (i : ℕ) → a i ≡ b i → put_u32 p n a i ≡ put_u32 p n b i
unfolding put_u32
put_u32-cong p n a b i e = ground arith

pub put_u32-before : (p n : ℕ) (b : Bytes) (i : ℕ) → i < p → put_u32 p n b i ≡ b i
unfolding put_u32
put_u32-before p n b i lt = ground arith

pub put_u32-IsBytes : (p n : ℕ) (b : Bytes) → IsBytes b → IsBytes (put_u32 p n b)
unfolding put_u32
put_u32-IsBytes p n b h i = ground (arith, h i)

pub get_u32_bound : (b : Bytes) (p : ℕ) → IsBytes b → get_u32 b p < u32_end
unfolding get_u32
get_u32_bound b p h = omega (arith, h p, h (p + 1), h (p + 2), h (p + 3))

-- `(w & (1 << j)) != 0`
unfoldable pub bit : ℕ → ℕ → Bool
bit zero w = w % 2 == 1
bit (suc j) w = bit j (w / 2)

-- `w | (1 << j)`
unfoldable pub set_bit : ℕ → ℕ → ℕ
set_bit zero w = w / 2 * 2 + 1
set_bit (suc j) w = set_bit j (w / 2) * 2 + w % 2

-- `w & ~(1 << j)`
unfoldable pub clear_bit : ℕ → ℕ → ℕ
clear_bit zero w = w / 2 * 2
clear_bit (suc j) w = clear_bit j (w / 2) * 2 + w % 2

half : (a w : ℕ) → (a * 2 + w % 2) / 2 ≡ a
half a w = omega arith

pub bit-set_bit : (j w : ℕ) → bit j (set_bit j w) ≡ true
unfolding bit set_bit
bit-set_bit zero w = ground arith
bit-set_bit (suc j) w = rw (half (set_bit j (w / 2)) w) (bit-set_bit j (w / 2))

pub bit-set_bit_other : (i j w : ℕ) → i ≢ j → bit i (set_bit j w) ≡ bit i w
unfolding bit set_bit
bit-set_bit_other zero zero w ne = absurd (ne refl)
bit-set_bit_other zero (suc j) w ne =
    let z : (set_bit j (w / 2) * 2 + w % 2) % 2 ≡ w % 2 = omega arith in rw z
bit-set_bit_other (suc i) zero w ne = let z : (w / 2 * 2 + 1) / 2 ≡ w / 2 = omega arith in rw z
bit-set_bit_other (suc i) (suc j) w ne =
    rw (half (set_bit j (w / 2)) w) (bit-set_bit_other i j (w / 2) (λ e. ne (omega arith)))

pub bit-clear_bit : (j w : ℕ) → bit j (clear_bit j w) ≡ false
unfolding bit clear_bit
bit-clear_bit zero w = ground arith
bit-clear_bit (suc j) w = rw (half (clear_bit j (w / 2)) w) (bit-clear_bit j (w / 2))

pub bit-clear_bit_other : (i j w : ℕ) → i ≢ j → bit i (clear_bit j w) ≡ bit i w
unfolding bit clear_bit
bit-clear_bit_other zero zero w ne = absurd (ne refl)
bit-clear_bit_other zero (suc j) w ne =
    let z : (clear_bit j (w / 2) * 2 + w % 2) % 2 ≡ w % 2 = omega arith in rw z
bit-clear_bit_other (suc i) zero w ne = let z : w / 2 * 2 / 2 ≡ w / 2 = omega arith in rw z
bit-clear_bit_other (suc i) (suc j) w ne =
    rw (half (clear_bit j (w / 2)) w) (bit-clear_bit_other i j (w / 2) (λ e. ne (omega arith)))

-- A bit that is there does not make a word longer; `n` counts the bits of the word.
pub set_bit_bound : (n j w m : ℕ) → m ≡ 2 ^ n → w < m → j < n → set_bit j w < m
unfolding set_bit
set_bit_bound zero j w m e h lt = absurd (omega arith)
set_bit_bound (suc n) zero w m e h lt = omega arith
set_bit_bound (suc n) (suc j) w m e h lt =
    let r = set_bit_bound n j (w / 2) (2 ^ n) refl (omega arith) (omega arith) in omega (arith, r)

pub clear_bit_le : (j w : ℕ) → clear_bit j w ≤ w
unfolding clear_bit
clear_bit_le zero w = omega arith
clear_bit_le (suc j) w = omega (arith, clear_bit_le j (w / 2))

-- The word of ones has every bit.
pub bit_ones : (n j m : ℕ) → m + 1 ≡ 2 ^ n → j < n → bit j m ≡ true
unfolding bit
bit_ones zero j m e lt = absurd (omega arith)
bit_ones (suc n) zero m e lt = let z : m % 2 ≡ 1 = omega arith in ground arith
bit_ones (suc n) (suc j) m e lt = bit_ones n j (m / 2) (omega arith) (omega arith)
