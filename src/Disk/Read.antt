-- ===== src/Disk/Read.antt =====
-- `mydisk_read_block`: what it returns, and that the cache does not show.
use class_projects.Base.{
  ℕ, ◌+◌, ◌*◌, ◌-◌, ◌≤◌, ◌<◌, ◌≡◌, ◌≢◌, refl, sym, ◌∙◌, Bool, true, false, ◌&&◌, Option, none, some,
  arith, if◌then◌else◌, Option-cases, Bool-cases, inl, inr,
}
use class_projects.Base.Run.{done, Returns, returns}
use class_projects.Base.Bytes.{Bytes, File, copy, SameBytes, available}
use class_projects.Disk.{
  Disk, Status, hit, ok, block_size, find_cached_entry, create_cached_block, set_content, claim,
  read_file, mydisk_read_block,
}
use class_projects.Disk.Find.{find_cached_entry-some, find_cached_entry-none}
use native.Mathlib.Nat.{le_of_lt}
use class_projects.Disk.Inv.{
  IsCached, IsValid, in_file, view, view-hit, view-miss, view-plain, SameView,
}
use class_projects.Disk.Insert.{
  flushed, flushed-size, old-ne, file-same, IsEntryOf, write_back-flushed, Placed, Placed-IsCached,
  Placed-view,
}

abbrev pub is_some : Option ℕ → Bool
is_some none = false
is_some (some _) = true

-- -1 for a block in the cache, else 0.
abbrev pub expected : ℕ → Disk → Status
expected b d = if d.cache_enabled && is_some (find_cached_entry b d) then hit else ok

-- What no block operation changes.
pub record SameSetup (d d' : Disk) : Type 0 where
  pub max_blocks : d'.max_blocks ≡ d.max_blocks
  pub disk_type : d'.disk_type ≡ d.disk_type
  pub enabled : d'.cache_enabled ≡ d.cache_enabled
  pub cache_blocks : d'.cache_blocks ≡ d.cache_blocks
  pub reports : d'.reports ≡ d.reports

abbrev pub ReadsBlock : ℕ → Disk → Status × Bytes → Disk → Type 0
ReadsBlock b d (s, buf) d' =
    (s ≡ expected b d)
    × SameBytes block_size buf (view d b)
    × SameView d d'
    × IsValid d'
    × SameSetup d d'

-- The buffer after a whole block of the file was read into it.
abbrev from_file : Bytes → File → ℕ → Bytes
from_file buf f b = copy block_size buf 0 f.byte (b * block_size)

read_file-ok :
    (b : ℕ) (buf : Bytes) (d : Disk)
    → b < d.max_blocks
    → d.max_blocks * block_size ≤ d.file.size
    → read_file b buf d ≡ (ok, from_file buf d.file b)
read_file-ok b buf d lt whole =
    let n : available d.file (b * block_size) block_size ≡ block_size = omega arith in rw n

from_file-byte :
    (buf : Bytes) (f : File) (b o : ℕ)
    → o < block_size
    → from_file buf f b o ≡ f.byte (b * block_size + o)
from_file-byte buf f b o h =
    let e : o - 0 + b * block_size ≡ b * block_size + o = omega arith in ground arith

-- The state after a miss.
abbrev with_file : Disk → Disk
with_file d = record d { file = flushed (d.ring_buffer d.next_insert_pos) d.file }

abbrev claimed : ℕ → Disk → Disk
claimed b d = claim b (d.ring_buffer d.next_insert_pos) (with_file d)

abbrev filled : ℕ → Bytes → Disk → Disk
filled b buf d = set_content d.next_insert_pos buf (claimed b d)

module _ (d : Disk) (b : ℕ) (c : IsCached d) (on : d.cache_enabled ≡ true)
    (e : find_cached_entry b d ≡ none) where
  old_fits : IsEntryOf d (d.ring_buffer d.next_insert_pos)
  old_fits k m = elim c.filling [
    | inl q ↦
        let free : (d.ring_buffer d.next_insert_pos).block_id ≡ none =
          (c.unused d.next_insert_pos (omega arith) (omega (arith, c.pos_in, c.alloc))).0 in
        ground arith
    | inr q ↦ let (j, n, le) = c.used d.next_insert_pos (omega (arith, c.pos_in)) in ground arith
  ]

  pub create-claimed : create_cached_block b d ≡ done d.next_insert_pos (claimed b d)
  unfolding create_cached_block
  create-claimed =
      let room : d.next_insert_pos < d.ring_length = omega (arith, c.pos_in, c.alloc) in
      ground (arith, write_back-flushed (d.ring_buffer d.next_insert_pos) d on old_fits)

  filled-Placed : (buf : Bytes) → Placed d b buf (filled b buf d)
  filled-Placed buf = record {
    file = refl;
    max_blocks = refl;
    enabled = on;
    cache_blocks = refl;
    ring_length = refl;
    next = refl;
    size = refl;
    block_id = ground arith;
    is_clean = ground arith;
    content = λ o h. let z : o - 0 + 0 ≡ o = omega arith in ground arith;
    others = λ j ne. ground arith;
  }

module _ (d : Disk) (b : ℕ) (buf : Bytes) (v : IsValid d) (lt : b < d.max_blocks) where
  read_block-plain :
      d.cache_enabled ≡ false → mydisk_read_block b buf d ≡ done (ok, from_file buf d.file b) d
  unfolding mydisk_read_block
  read_block-plain off = ground (arith, read_file-ok b buf d lt v.whole)

  read_block-hit :
      (i : ℕ)
      → d.cache_enabled ≡ true
      → find_cached_entry b d ≡ some i
      → mydisk_read_block b buf d ≡ done (hit, copy block_size buf 0 (d.ring_buffer i).content 0) d
  unfolding mydisk_read_block
  read_block-hit i on e = ground arith

  module _ (on : d.cache_enabled ≡ true) (e : find_cached_entry b d ≡ none) where
    abbrev read_bytes : Bytes
    read_bytes = from_file buf (with_file d).file b

    read_block-miss : mydisk_read_block b buf d ≡ done (ok, read_bytes) (filled b read_bytes d)
    unfolding mydisk_read_block
    read_block-miss =
        let old = d.ring_buffer d.next_insert_pos in
        let whole : d.max_blocks * block_size ≤ (flushed old d.file).size =
          omega (arith, v.whole, flushed-size old d.file) in
        ground
          (arith, create-claimed d b (v.cached on) on e, read_file-ok b buf (claimed b d) lt whole)

    miss-same : (o : ℕ) → o < block_size → read_bytes o ≡ in_file d b o
    miss-same o ho =
        from_file-byte buf (with_file d).file b o ho
        ∙ file-same d b read_bytes (filled b read_bytes d) (v.cached on) on out (le_of_lt lt) placed
            b o
            (old-ne d b read_bytes (filled b read_bytes d) (v.cached on) on out (le_of_lt lt)
              placed)
            lt v.whole ho
      where
        out : (i : ℕ) → i < d.cache_size → (d.ring_buffer i).block_id ≢ some b
        out i h = find_cached_entry-none d b i e h

        placed : Placed d b read_bytes (filled b read_bytes d)
        placed = filled-Placed d b (v.cached on) on e read_bytes

    miss-ReadsBlock : ReadsBlock b d (ok, read_bytes) (filled b read_bytes d)
    miss-ReadsBlock = (
      ground arith,
      λ o h. miss-same o h ∙ sym (view-miss d b o out),
      λ k o. Placed-view d b read_bytes d' c on out (le_of_lt lt) placed v.whole same k o,
      record {
        whole = omega (arith, v.whole, flushed-size (d.ring_buffer d.next_insert_pos) d.file);
        cached = λ _. Placed-IsCached d b read_bytes d' c on out (le_of_lt lt) placed v.whole same;
      },
      ground arith,
    )
      where
        d' : Disk
        d' = filled b read_bytes d

        c : IsCached d
        c = v.cached on

        out : (i : ℕ) → i < d.cache_size → (d.ring_buffer i).block_id ≢ some b
        out i h = find_cached_entry-none d b i e h

        placed : Placed d b read_bytes d'
        placed = filled-Placed d b c on e read_bytes

        same : (o : ℕ) → b < d.max_blocks → o < block_size → read_bytes o ≡ in_file d b o
        same o _ h = miss-same o h

  -- A block below `max_blocks` is read without fault: the buffer gets the bytes of its view, the
  -- status says whether it was cached, every block keeps its view, and the disk stays valid.
  pub mydisk_read_block-view : Returns (ReadsBlock b d) (mydisk_read_block b buf d)
  mydisk_read_block-view = elim (Bool-cases d.cache_enabled) [
    | inr off ↦ rw (read_block-plain off) (
        returns (
          ground arith,
          (λ o h. from_file-byte buf d.file b o h ∙ sym (view-plain d b o off)),
          (λ k o _ _. refl),
          v,
          ground arith,
        ))
    | inl on ↦ (elim (Option-cases (find_cached_entry b d)) [
      | inl e ↦ rw (read_block-miss on e) (returns (miss-ReadsBlock on e))
      | inr (i, e) ↦ rw (read_block-hit i on e) (
          returns (
            ground arith,
            (λ o h.
                let z : o - 0 + 0 ≡ o = omega arith in
                let shown = view-hit d b o i (v.cached on) on (find_cached_entry-some d b e) in
                ground arith),
            (λ k o _ _. refl),
            v,
            ground arith,
          ))
    ])
  ]
