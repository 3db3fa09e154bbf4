-- ===== src/Dfs/LocalFs/Refine.antt =====
-- The file system of a2 in exta2.c does for blocks what the files of the host do in ext.c.
use class_projects.Base.{
  ℕ, suc, ◌+◌, ◌-◌, ◌≤◌, ◌<◌, ◌≡◌, ◌∙◌, refl, sym, false, Option, none, some, arith, ◌==◌,
  if◌then◌else◌, Bool-cases, inl, inr, List, [], ◌∷◌,
}
use mathlib.Core.Path.{fun_ext}
use class_projects.Base.Names.{Name}
use class_projects.Base.Bytes.{Bytes}
use class_projects.Base.Run.{Run, done, fault, no_fuel, and_then, Returns, returns, bind, mono}
use class_projects.Fs.{Sfs}
use class_projects.Dfs.Types.{BlockRequest}
use class_projects.Dfs.Datanode.{
  Store, host_files, ext_read_block, ext_write_block, read_block, create_block, requests_dispatcher,
  main_loop,
}
use class_projects.Dfs.Datanode.Paths.{
  path-fits, ext_read_block-absent, ext_read_block-stored, ext_read_block-store,
}
use class_projects.Dfs.LocalFs.{
  Junk, local_block_path, local_read_block, local_write_block, local_files, local_init_fs,
}
use class_projects.Dfs.LocalFs.Calls.{
  IsBlock, AreBlocks, host_path, with_block, after_request, cost, new_blocks,
}
use class_projects.Dfs.LocalFs.Holds.{IsIdle}
use class_projects.Dfs.LocalFs.Begin.{Represents, local_init_fs-IsBlank, sfs_mkdir-Holds}
use class_projects.Dfs.LocalFs.Fetch.{local_read_block-Holds}
use class_projects.Dfs.LocalFs.Change.{changed, write_path-Holds}
use class_projects.Dfs.LocalFs.Add.{write_path-Adds}
use class_projects.Dfs.LocalFs.Stores.{
  Stores, find_name, block_fits, block_short, block-IsText, host_path-local, Stores-changed,
  Stores-added,
}

-- Both keep the same blocks, and the file system has room for `left` more.
pub record Refines (left : ℕ) (fs : Sfs) (s : Store) : Type 0 where
  pub n : ℕ
  pub names : ℕ → Name
  pub contents : ℕ → Bytes
  pub idle : IsIdle fs
  pub represents : Represents fs n left names contents
  pub stores : Stores s n names contents

module _ (k : ℕ) (junk : Junk) (filename : Name) (id : ℕ) (buf : Bytes) (fs : Sfs) (s : Store)
    (left : ℕ) (lt : 1 < k) (block : IsBlock filename id) (refines : Refines left fs s) where
  abbrev path : Name
  path = local_block_path filename id

  abbrev n : ℕ
  n = refines.n

  -- A write keeps both the same.
  local_write_block-Refines :
      (rest : ℕ)
      → cost filename id s + rest ≤ left
      → Returns
          (λ _ fs'. (left' : ℕ) × (rest ≤ left') × Refines left' fs' (with_block filename id buf s))
          (local_write_block k junk filename id buf fs)
  unfolding local_write_block
  local_write_block-Refines rest le =
      let names = refines.names in
      let contents = refines.contents in
      rw (block_fits filename id block) (
        bind
          (sfs_mkdir-Holds k junk.new_dir fs n left names contents lt refines.idle
            refines.represents)
          (λ _ fs0 (idle, d, m, owner, holds). elim (find_name n names path) [
            | inl (j, h, e) ↦ rw e (
                mono
                  (write_path-Holds k junk buf fs0 d m n left owner names contents j lt h idle
                    holds)
                  (λ _ fs' (idle', holds'). (
                    left,
                    omega arith,
                    record {
                      n = n;
                      names = names;
                      contents = changed j buf contents;
                      idle = idle';
                      represents = inr (d, m, owner, holds');
                      stores =
                          Stores-changed filename id block buf s n names contents refines.stores
                            holds.distinct j h e;
                    },
                  )))
            | inr new ↦
                let absent = refines.stores.none_other path new in
                let at = host_path-local filename id block s in
                let absent' : s.files (host_path s filename id) ≡ none = rw at absent in
                let one : cost filename id s ≡ 1 = rw (cost, absent') refl in
                let le' : 1 + rest ≤ left = omega arith in
                let z : left ≡ suc (left - 1) = omega arith in
                mono
                  (write_path-Adds k junk path buf fs0 d m n (left - 1) owner names contents lt
                    (block-IsText filename id block) (block_short filename id block) new idle
                    (rw z at holds))
                  (λ _ fs' (idle', owner', holds'). (
                    left - 1,
                    omega arith,
                    record {
                      n = suc n;
                      names = changed n path names;
                      contents = changed n buf contents;
                      idle = idle';
                      represents = inr (d, m + 129, owner', holds');
                      stores =
                          Stores-added filename id block buf s n names contents refines.stores
                            holds.distinct new;
                    },
                  ))
          ]))

  -- A read of a block that is there gets the same.
  local_read_block-Refines :
      (got : Bytes) (s' : Store)
      → ext_read_block filename id buf s ≡ done got s'
      → Returns
          (λ got' fs'. (got' ≡ got) × Refines left fs' s')
          (local_read_block k junk filename id buf fs)
  local_read_block-Refines got s' e =
      let at = host_path-local filename id block s in
      elim (find_name n refines.names path) [
        | inr new ↦
            let absent = refines.stores.none_other path new in
            absurd (let f = sym (ext_read_block-absent filename id buf s (rw at absent)) ∙ e in cc)
        | inl (j, h, same) ↦
            let there : s.files (host_path s filename id) ≡ some (refines.contents j) =
              rw (at, same) (refines.stores.kept j h) in
            let f =
              sym (
                ext_read_block-stored filename id (refines.contents j) buf s
                  (omega (arith, block.digit)) there)
              ∙ e in
            elim (refines.represents) [
              | inl blank ↦ absurd (omega (arith, blank.no_block))
              | inr (d, m, owner, holds) ↦
                  mono
                    (local_read_block-Holds k junk filename id buf fs d m n left owner refines.names
                      refines.contents j lt (block_fits filename id block) same h refines.idle
                      holds)
                    (λ got' fs' (bytes, rests). (
                      fun_ext bytes ∙ (cc),
                      record {
                        n = n;
                        names = refines.names;
                        contents = refines.contents;
                        idle = record {
                          words = rests.words ∙ refines.idle.words;
                          no_open = rests.closed;
                        };
                        represents = inr (d, m, owner, rw (rests.image, rests.freemap) holds);
                        stores = let z : s ≡ s' = cc in rw (sym z) refines.stores;
                      },
                    ))
            ]
      ]

-- What a run with two parts needs to end.
and_then-done :
    {A B : Type 0} (r : Run Store A) (k : A → Store → Run Store B) (b : B) (s' : Store)
    → and_then r k ≡ done b s'
    → (a : A) × (s1 : Store) × (r ≡ done a s1) × (k a s1 ≡ done b s')
and_then-done (done a s1) k b s' e = (a, s1, refl, e)
and_then-done fault k b s' e = absurd (cc)
and_then-done no_fuel k b s' e = absurd (cc)

-- One request: the same answer, and both keep the same blocks.
requests_dispatcher-Refines :
    (k : ℕ) (junk : Junk) (stack : Bytes) (request : BlockRequest) (fs : Sfs) (s s' : Store)
    (left rest : ℕ) (answer : Option BlockRequest)
    → 1 < k
    → IsBlock request.owner_name request.block_id
    → Refines left fs s
    → (if request.op_type == 1 then cost request.owner_name request.block_id s else 0) + rest ≤ left
    → requests_dispatcher host_files stack request s ≡ done answer s'
    → Returns
        (λ answer' fs'.
          (answer' ≡ answer)
          × (s' ≡ after_request request s)
          × (left' : ℕ) × (rest ≤ left')
          × Refines left' fs' s')
        (requests_dispatcher (local_files k junk) stack request fs)
unfolding requests_dispatcher read_block create_block ext_write_block
requests_dispatcher-Refines k junk stack request fs s s' left rest answer lt block refines le e =
    elim (Bool-cases (request.op_type == 0)) [
      | inl read ↦
          let other : (request.op_type == 1) ≡ false = ground arith in
          let (got, s1, first, last) =
            and_then-done (ext_read_block request.owner_name request.block_id stack s) _ answer s'
              (rw read at e) in
          let same =
            ext_read_block-store request.owner_name request.block_id stack got s s1
              (omega (arith, block.digit)) first in
          rw (read, other)
            (bind
              (local_read_block-Refines k junk request.owner_name request.block_id stack fs s left
                lt block refines got s1 first)
              (λ got' fs1 (same', refines').
                let z : s1 ≡ s' = cc in
                returns (
                  rw same' (cc),
                  sym z ∙ same,
                  left,
                  (let le' : 0 + rest ≤ left = rw other at le in omega arith),
                  rw (sym z) refines',
                )))
      | inr not_read ↦ elim (Bool-cases (request.op_type == 1)) [
        | inl write ↦
            let fits =
              path-fits s.working_directory request.owner_name request.block_id
                (omega (arith, block.digit)) in
            let f = rw (not_read, write, fits) at e in
            let z : with_block request.owner_name request.block_id request.content s ≡ s' = cc in
            rw (not_read, write)
              (bind
                (local_write_block-Refines k junk request.owner_name request.block_id
                  request.content fs s left lt block refines rest (rw write at le))
                (λ _ fs1 (left', le', refines').
                  returns ((cc), sym z, left', le', rw (sym z) refines')))
        | inr not_write ↦
            let f = rw (not_read, not_write) at e in
            let z : s ≡ s' = cc in
            rw (not_read, not_write)
              (returns (
                (cc),
                sym z,
                left,
                (let le' : 0 + rest ≤ left = rw not_write at le in omega arith),
                rw (sym z) refines,
              ))
      ]
    ]

-- Requests that the files of the host answer are answered in the same way by the file system of a2,
-- which keeps the same blocks afterwards, as far as it has room for those that are new.
main_loop-Refines :
    (k : ℕ) (junk : ℕ → Junk) (i : ℕ) (requests : List (Bytes × BlockRequest)) (fs : Sfs)
    (s s' : Store) (left : ℕ) (answers : List (Option BlockRequest))
    → 1 < k
    → AreBlocks requests
    → new_blocks requests s ≤ left
    → Refines left fs s
    → main_loop (λ _. host_files) i requests s ≡ done answers s'
    → Returns
        (λ answers' fs'. (answers' ≡ answers) × (left' : ℕ) × Refines left' fs' s')
        (main_loop (λ j. local_files k (junk j)) i requests fs)
unfolding main_loop
main_loop-Refines k junk i [] fs s s' left answers lt us le refines e =
    returns ((cc), left, (let z : s ≡ s' = cc in rw (sym z) refines))
main_loop-Refines k junk i ((stack, request) ∷ requests) fs s s' left answers lt (block, us) le
      refines e =
    let (answer, s1, first, second) =
      and_then-done (requests_dispatcher host_files stack request s) _ answers s' e in
    let (rest, s2, third, last) =
      and_then-done (main_loop (λ _. host_files) (i + 1) requests s1) _ answers s' second in
    let z : s2 ≡ s' = cc in
    bind
      (requests_dispatcher-Refines k (junk i) stack request fs s s1 left
        (new_blocks requests (after_request request s)) answer lt block refines le first)
      (λ answer' fs1 (same, stored, left', le', refines').
        bind
          (main_loop-Refines k junk (i + 1) requests fs1 s1 s2 left' rest lt us (rw stored le')
            refines' third)
          (λ rest' fs2 (same', left2, refines2). returns ((cc), left2, rw (sym z) refines2)))

-- The host before any block was written.
abbrev pub no_blocks : Name → Store
no_blocks wd = record { working_directory = wd; files = λ p. none }

-- A datanode with exta2.c that starts on a new file system of a2 answers any requests to write and to
-- read blocks, in any order, as a datanode with ext.c does that starts on a host without files. The
-- reads are of blocks that were written, no more than seven blocks are different, the owners' names have
-- no NUL and fit an inode, and the ids have one digit. Blocks may be written again. Writing and reading
-- go through the paths, the directory, the inodes, the frames and the freemap on the disk.
pub main_loop-local_files :
    (k : ℕ) (junk : ℕ → Junk) (requests : List (Bytes × BlockRequest)) (fs : Sfs) (wd : Name)
    (answers : List (Option BlockRequest)) (s' : Store)
    → 1 < k
    → AreBlocks requests
    → new_blocks requests (no_blocks wd) ≤ 7
    → main_loop (λ _. host_files) 0 requests (no_blocks wd) ≡ done answers s'
    → Returns
        (λ answers' _. answers' ≡ answers)
        (and_then
          (local_init_fs fs)
          (λ _ fs'. main_loop (λ j. local_files k (junk j)) 0 requests fs'))
main_loop-local_files k junk requests fs wd answers s' lt us le e =
    bind (local_init_fs-IsBlank fs) (λ _ fs' (idle, blank).
      mono
        (main_loop-Refines k junk 0 requests fs' (no_blocks wd) s' 7 answers lt us le
          (record {
            n = 0;
            names = λ _. [];
            contents = λ _ _. 0;
            idle = idle;
            represents = inl blank;
            stores = record { kept = λ j h. absurd (omega arith); none_other = λ p h. refl };
          })
          e)
        (λ answers' fs'' (same, _, _). same))
