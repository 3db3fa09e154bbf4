-- ===== src/Fs/Freemap.antt =====
-- The freemap of fs.c: which blocks are in use, and how one mark is written and flushed.
pub mod Alloc
use class_projects.Base.{
  ℕ, zero, suc, ◌+◌, ◌-◌, ◌*◌, ◌/◌, ◌%◌, ◌^◌, ◌≤◌, ◌<◌, ◌≡◌, ◌≢◌, ◌⊎◌, ◌∙◌, refl, sym, Bool, true,
  false, arith, Option, some, none, if◌then◌else◌, ltb, leb, ◌==◌, inl, inr, Bool-cases,
  Option-cases, max,
}
use class_projects.Base.Bytes.{Bytes, SameBytes}
use class_projects.Base.Run.{done, Returns, returns, and_then, bind, mono}
use class_projects.Fs.Word.{
  IsBytes, u32_end, get_u32, put_u32, bit, set_bit, clear_bit, get_u32-put_u32,
  get_u32-put_u32_other, put_u32-IsBytes, get_u32_bound, bit-set_bit, bit-set_bit_other,
  bit-clear_bit, bit-clear_bit_other, set_bit_bound, clear_bit_le, bit_ones,
}
use class_projects.Fs.{
  Sfs, sfs_block_size, sfs_write_block, sb_nfreemap_blocks, flush_loop, sfs_flush_freemap,
  freemap_word, zero_bit, entry_full, take_bit, alloc_loop, sfs_alloc_block, sfs_free_block,
}

-- Whether bit `k` of a freemap is set: whether block `k + 1` is in use.
unfoldable pub used : Bytes → ℕ → Bool
used map k = bit (k % 32) (freemap_word map (k / 32))

-- One bit of the map is written.
module _ (map : Bytes) (k w : ℕ) (bytes : IsBytes map) (bound : w < u32_end) where
  abbrev written : Bytes
  written = put_u32 (4 * (k / 32)) w map

  used-written :
      (v : Bool)
      → bit (k % 32) w ≡ v
      → ((i : ℕ) → i ≢ k % 32 → bit i w ≡ bit i (freemap_word map (k / 32)))
      → (j : ℕ) → used written j ≡ (if j == k then v else used map j)
  unfolding used
  used-written v own others j = elim (Bool-cases (j / 32 == k / 32)) [
    | inl q ↦
        let z : j / 32 ≡ k / 32 = ground arith in
        rw (z, get_u32-put_u32 (4 * (k / 32)) w map bound)
          (elim (Bool-cases (j == k)) [
            | inl r ↦
                let z' : j ≡ k = ground arith in
                let s : (k == k) ≡ true = ground arith in rw (z', s) own
            | inr r ↦ rw r (others (j % 32) (ground arith))
          ])
    | inr q ↦
        let ne : (j == k) ≡ false = ground arith in
        rw (ne, get_u32-put_u32_other (4 * (k / 32)) (4 * (j / 32)) w map (ground arith))
  ]

-- The freemap that fs.c can work with: one block of it, in memory and on disk.
pub record IsMounted (fs : Sfs) : Type 0 where
  pub bytes : IsBytes fs.freemap
  pub words : fs.freemap_words ≡ 128
  pub blocks : sb_nfreemap_blocks fs.sb ≡ 1

-- Bit `k` became `v`, in memory and in the block of the freemap, and nothing else changed.
pub record Marks (k : ℕ) (v : Bool) (fs fs' : Sfs) : Type 0 where
  pub own : (j : ℕ) → used fs'.freemap j ≡ (if j == k then v else used fs.freemap j)
  pub flushed : SameBytes sfs_block_size (λ o. fs'.fh.byte (sfs_block_size + o)) fs'.freemap
  pub outside :
      (a : ℕ)
      → a < fs.fh.size
      → (a < sfs_block_size) ⊎ (2 * sfs_block_size ≤ a)
      → fs'.fh.byte a ≡ fs.fh.byte a
  pub size : fs'.fh.size ≡ max fs.fh.size (2 * sfs_block_size)
  pub sb : fs'.sb ≡ fs.sb
  pub fdtable : fs'.fdtable ≡ fs.fdtable
  pub mounted : IsMounted fs'

flush-one :
    (fs : Sfs) → IsMounted fs → sfs_flush_freemap fs ≡ done tt (sfs_write_block fs.freemap 0 1 fs)
unfolding sfs_flush_freemap flush_loop
flush-one fs m = let b = m.blocks in let w = m.words in rw b (ground arith)

module _ (fs : Sfs) (m : IsMounted fs) (k w : ℕ) (v : Bool) (inside : k < 4096) where
  abbrev map : Bytes
  map = put_u32 (4 * (k / 32)) w fs.freemap

  abbrev marked : Sfs
  marked = record fs { freemap = map }

  -- The freemap is written with a new word, and flushed.
  pub flush-Marks :
      w < u32_end
      → bit (k % 32) w ≡ v
      → ((i : ℕ) → i ≢ k % 32 → bit i w ≡ bit i (freemap_word fs.freemap (k / 32)))
      → Returns (λ _ fs'. Marks k v fs fs') (sfs_flush_freemap marked)
  flush-Marks bound own others =
      let new_bytes = put_u32-IsBytes (4 * (k / 32)) w fs.freemap m.bytes in
      let mounted : IsMounted marked = record {
        bytes = new_bytes;
        words = m.words;
        blocks = m.blocks;
      } in
      rw (flush-one marked mounted) (
        returns (record {
          own = used-written fs.freemap k w m.bytes bound v own others;
          flushed = λ o h. ground arith;
          outside = λ a h out. ground arith;
          size = refl;
          sb = refl;
          fdtable = refl;
          mounted = record { bytes = new_bytes; words = m.words; blocks = m.blocks };
        }))
