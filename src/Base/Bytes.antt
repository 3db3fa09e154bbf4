-- ===== src/Base/Bytes.antt =====
-- Memory as C sees it: a buffer or a struct is its bytes, indexed from its first one. Files, and
-- the library calls `memcpy`, `memset`, `fread` and `fwrite` on them.
use Prim.Native.Nat.{ℕ, ◌+◌, ◌-◌, ◌<◌, min, max}
use mathlib.Core.Path.{◌≡◌}
use mathlib.Core.Bool.{◌&&◌}
use package.class_projects.Base.Tests.{ltb, leb, if◌then◌else◌}

abbrev pub Bytes : Type 0
Bytes = ℕ → ℕ

-- memcpy(dst + o, src + p, n)
abbrev pub copy : ℕ → Bytes → ℕ → Bytes → ℕ → Bytes
copy n dst o src p i = if leb o i && ltb i (o + n) then src (i - o + p) else dst i

-- memset(dst + o, v, n)
abbrev pub fill : ℕ → Bytes → ℕ → ℕ → Bytes
fill n dst o v i = if leb o i && ltb i (o + n) then v else dst i

-- A regular file: its length, and its bytes (0 past the end).
pub record File : Type 0 where
  pub size : ℕ
  pub byte : Bytes

abbrev pub empty_file : File
empty_file = record { size = 0; byte = λ _. 0 }

-- How many of the `n` bytes at `pos` are in the file.
abbrev pub available : File → ℕ → ℕ → ℕ
available f pos n = min n (f.size - pos)

-- fseek(f, pos, SEEK_SET), then fread(buf, 1, n, f): the buffer afterwards.
abbrev pub file_read : File → ℕ → ℕ → Bytes → Bytes
file_read f pos n buf = copy (available f pos n) buf 0 f.byte pos

-- fseek(f, pos, SEEK_SET), then fwrite(buf + p, 1, n, f). A gap past the old end reads as zeros.
abbrev pub file_write : File → ℕ → ℕ → Bytes → ℕ → File
file_write f pos n buf p = record {
  size = max f.size (pos + n);
  byte = copy n (λ i. if ltb i f.size then f.byte i else 0) pos buf p;
}

-- The first `n` bytes of two buffers are the same.
abbrev pub SameBytes : ℕ → Bytes → Bytes → Type 0
SameBytes n a b = (i : ℕ) → i < n → a i ≡ b i
