-- ===== src/Disk/Trace.antt =====
-- A program that uses the disk of mydisk.c by its bytes, and the array of bytes that it can take the
-- disk for.
use mathlib.Core.Path.{fun_ext}
use class_projects.Base.{
  ℕ, ◌+◌, ◌-◌, ◌*◌, ◌/◌, ◌%◌, ◌≤◌, ◌<◌, ◌≡◌, ◌∙◌, refl, true, List, [], ◌∷◌, arith, Bool-cases, inl,
  inr, ltb, leb, ◌&&◌,
}
use class_projects.Base.Int.{pos, int_end}
use class_projects.Base.Run.{Cmd, done, and_then, Returns, returns, bind}
use class_projects.Base.Bytes.{Bytes, copy}
use class_projects.Disk.{Disk, block_size, init_cache, close_cache}
use class_projects.Disk.Inv.{IsValid}
use class_projects.Disk.Close.{init_cache-IsValid, close_cache-flushes}
use class_projects.Disk.Stream.{mydisk_read, mydisk_write}
use class_projects.Disk.Stream.ReadBytes.{byte_at, byte_at-same, mydisk_read-bytes}
use class_projects.Disk.Stream.WriteBytes.{mydisk_write-bytes}

-- A call of the program: a read of `n` bytes at `start` into a buffer, a write of the first `n` bytes
-- of a buffer, or the cache closed and opened again with another number of entries. `junk` is what
-- `malloc` gives.
pub data Call : Type 0 where
  read : (junk : Bytes) (start n : ℕ) (buffer : Bytes) → Call
  write : (junk : Bytes) (start n : ℕ) (buffer : Bytes) → Call
  restart : (nblocks : ℕ) (junk : ℕ → Bytes) → Call

-- The calls in order. The result is the buffers of the reads.
pub run_calls : List Call → Cmd Disk (List Bytes)
run_calls [] d = done [] d
run_calls (read junk start n buffer ∷ cs) d =
    and_then (mydisk_read junk (pos start) (pos n) buffer d)
      (λ (_, buf) d1. and_then (run_calls cs d1) (λ bufs d2. done (buf ∷ bufs) d2))
run_calls (write junk start n buffer ∷ cs) d =
    and_then (mydisk_write junk (pos start) (pos n) buffer d) (λ _ d1. run_calls cs d1)
run_calls (restart nblocks junk ∷ cs) d =
    and_then (close_cache d) (λ _ d1. run_calls cs (init_cache nblocks junk d1))

-- The same calls on an array of bytes.
pub flat_calls : List Call → Bytes → List Bytes × Bytes
flat_calls [] m = ([], m)
flat_calls (read junk start n buffer ∷ cs) m =
    let (bufs, m') = flat_calls cs m in (copy n buffer 0 m start ∷ bufs, m')
flat_calls (write junk start n buffer ∷ cs) m = flat_calls cs (copy n m start buffer 0)
flat_calls (restart nblocks junk ∷ cs) m = flat_calls cs m

-- The calls that a disk of `size` bytes allows.
unfoldable pub Allowed : ℕ → List Call → Type 0
Allowed size [] = Unit
Allowed size (read junk start n buffer ∷ cs) = (start + n < size) × Allowed size cs
Allowed size (write junk start n buffer ∷ cs) = (start + n < size) × Allowed size cs
Allowed size (restart nblocks junk ∷ cs) = (2 ≤ nblocks) × Allowed size cs

-- A valid disk with its cache on shows the array `m`.
pub record Shows (size : ℕ) (m : Bytes) (d : Disk) : Type 0 where
  pub valid : IsValid d
  pub cached : d.cache_enabled ≡ true
  pub size_is : d.max_blocks * block_size ≡ size
  pub bytes : (a : ℕ) → a < size → byte_at d a ≡ m a

-- Any program of allowed calls on a disk of less than 2 ^ 31 bytes with its cache on ends without a
-- fault, reads the very buffers that it would read from an array of bytes, and leaves the disk
-- showing that array, whatever the size of the cache and whenever it is restarted.
pub run_calls-flat_calls :
    (cs : List Call) (size : ℕ) (m : Bytes) (d : Disk)
    → size < int_end
    → Allowed size cs
    → Shows size m d
    → Returns
        (λ bufs d'. (bufs ≡ (flat_calls cs m).0) × Shows size (flat_calls cs m).1 d')
        (run_calls cs d)
unfolding run_calls flat_calls Allowed
run_calls-flat_calls [] size m d small ok s = returns (refl, s)
run_calls-flat_calls (read junk start n buffer ∷ cs) size m d small (fits, ok) s =
    bind
      (mydisk_read-bytes junk start n buffer d s.valid (omega (arith, s.size_is))
        (omega (arith, s.size_is)))
      (λ (_, buf) d1 (_, got, kept, same, valid, blocks, cached).
        let s1 : Shows size m d1 = record {
          valid = valid;
          cached = cached ∙ s.cached;
          size_is = omega (arith, s.size_is);
          bytes = λ a h. byte_at-same d d1 a same (omega (arith, s.size_is)) ∙ s.bytes a h;
        } in
        let e : buf ≡ copy n buffer 0 m start = fun_ext λ i. elim (Bool-cases (ltb i n)) [
          | inl q ↦
              let z : i - 0 + start ≡ start + i = omega arith in
              let t = got i (ground arith) in
              let t' = s.bytes (start + i) (ground arith) in ground arith
          | inr q ↦ let t = kept i (ground arith) in ground arith
        ] in
        bind (run_calls-flat_calls cs size m d1 small ok s1)
          (λ bufs d2 (same', s2). returns (rw (e, same') refl, s2)))
run_calls-flat_calls (write junk start n buffer ∷ cs) size m d small (fits, ok) s =
    bind
      (mydisk_write-bytes junk start n buffer d s.valid (omega (arith, s.size_is))
        (omega (arith, s.size_is)))
      (λ _ d1 (_, own, others, valid, blocks, cached).
        run_calls-flat_calls cs size (copy n m start buffer 0) d1 small ok (record {
          valid = valid;
          cached = cached ∙ s.cached;
          size_is = omega (arith, s.size_is);
          bytes = λ a h. elim (Bool-cases (leb start a && ltb a (start + n))) [
            | inl q ↦
                let z : start + (a - start) ≡ a = ground arith in
                let t = own (a - start) (ground arith) in
                let z' : a - start + 0 ≡ a - start = omega arith in rw (q, z') (rw z at t)
            | inr q ↦ rw q (others a (omega (arith, s.size_is)) (ground arith) ∙ s.bytes a h)
          ];
        }))
run_calls-flat_calls (restart nblocks junk ∷ cs) size m d small (wide, ok) s =
    bind (close_cache-flushes d (s.valid.cached s.cached) s.cached s.valid)
      (λ _ d1 (flushed, shown, off, _, blocks, valid).
        let (fresh, same) = init_cache-IsValid nblocks junk d1 wide valid.whole in
        run_calls-flat_calls cs size m (init_cache nblocks junk d1) small ok (record {
          valid = fresh;
          cached = unfold init_cache in refl;
          size_is = unfold init_cache in omega (arith, s.size_is);
          bytes = λ a h.
              same (a / block_size) (a % block_size)
              ∙ flushed (a / block_size) (a % block_size) (omega (arith, s.size_is)) (omega arith)
              ∙ s.bytes a h;
        }))
