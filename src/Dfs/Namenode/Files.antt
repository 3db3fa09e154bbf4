-- ===== src/Dfs/Namenode/Files.antt =====
-- The table of files: which blocks a request assigns, and to which datanodes.
use class_projects.Base.{
  ℕ, zero, suc, ◌+◌, ◌-◌, leb, ◌%◌, ◌≤◌, ◌<◌, ◌≡◌, ◌≢◌, ◌⊎◌, refl, ◌∙◌, Bool, true, false, Option,
  none, some, arith, Bool-cases, inl, inr, ◌==◌,
}
use class_projects.Base.Names.{Name}
use class_projects.Dfs.Types.{max_file_blk_count, Datanode, BlockInfo, FileImage}
use class_projects.Dfs.Namenode.{Namenode, find_image, node_for, block_on, put_block, assign_loop}
use class_projects.Dfs.Namenode.Nodes.{IsDense}

abbrev Images : Type 0
Images = ℕ → Option FileImage

module _ (test : Option FileImage → Bool) where
  pub find_image-some :
      (n i : ℕ) (images : Images) {j : ℕ}
      → find_image test n i images ≡ some j
      → (i ≤ j)
        × (j < i + n)
        × (test (images j) ≡ true)
        × ((k : ℕ) → i ≤ k → k < j → test (images k) ≡ false)
  unfolding find_image
  find_image-some zero i images h = absurd (cc)
  find_image-some (suc n) i images {j} h = elim (Bool-cases (test (images i))) [
    | inl e ↦
        let z : j ≡ i = ground arith in
        (omega arith, omega arith, rw z e, λ k le lt. absurd (omega arith))
    | inr e ↦
        let (le, lt, yes', before) = find_image-some n (i + 1) images {j = j} (ground arith) in
        (
          omega arith,
          omega arith,
          yes',
          λ k le' lt'. elim (Bool-cases (k == i)) [
            | inl q ↦ ground arith
            | inr q ↦ before k (ground arith) lt'
          ],
        )
  ]

  pub find_image-first :
      (n i j : ℕ) (images : Images)
      → i ≤ j
      → j < i + n
      → test (images j) ≡ true
      → ((k : ℕ) → i ≤ k → k < j → test (images k) ≡ false)
      → find_image test n i images ≡ some j
  unfolding find_image
  find_image-first zero i j images le lt h before = absurd (omega arith)
  find_image-first (suc n) i j images le lt h before = elim (Bool-cases (i == j)) [
    | inl q ↦ ground arith
    | inr q ↦
        let no_match = before i (omega arith) (ground arith) in
        rw no_match (
          find_image-first n (i + 1) j images (ground arith) (omega arith) h
            (λ k le' lt'. before k (omega arith) lt'))
  ]

  pub find_image-none :
      (n i : ℕ) (images : Images)
      → ((k : ℕ) → i ≤ k → k < i + n → test (images k) ≡ false)
      → find_image test n i images ≡ none
  unfolding find_image
  find_image-none zero i images h = refl
  find_image-none (suc n) i images h =
      rw (h i (omega arith) (omega arith))
        (find_image-none n (i + 1) images (λ k le lt. h k (omega arith) (omega arith)))

-- Block `b` belongs to `name`, has the given id and lies on the datanode of place `i`, round robin.
abbrev pub IsAssigned : Namenode → Name → ℕ → ℕ → BlockInfo → Type 0
IsAssigned nm name i id b =
    (n : Datanode) × (nm.dnlist (i % nm.dncnt) ≡ some n) × (b ≡ block_on name n id)

-- `f'` is `f` with `n` blocks assigned from place `i` and id `id` on.
pub record Assigns (nm : Namenode) (name : Name) (n i id : ℕ) (f f' : FileImage) : Type 0 where
  pub assigned : (k : ℕ) → k < n → IsAssigned nm name (i + k) (id + k) (f'.block_list (i + k))
  pub kept : (j : ℕ) → (j < i) ⊎ (i + n ≤ j) → f'.block_list j ≡ f.block_list j
  pub filename : f'.filename ≡ f.filename
  pub file_size : f'.file_size ≡ f.file_size
  pub blocknum : f'.blocknum ≡ f.blocknum

assign_loop-suc :
    (nm : Namenode) (name : Name) (n i id : ℕ) (f : FileImage) (node : Datanode)
    {r : Option FileImage}
    → node_for nm i ≡ some node
    → i < max_file_blk_count
    → assign_loop nm name n (i + 1) (id + 1) (put_block i (block_on name node id) f) ≡ r
    → assign_loop nm name (suc n) i id f ≡ r
unfolding assign_loop
assign_loop-suc nm name n i id f node e fits run = ground arith

module _ (nm : Namenode) (name : Name) (dense : IsDense nm) (some_node : 0 < nm.dncnt) where
  node_for-some :
      (k : ℕ) → (n : Datanode) × (node_for nm k ≡ some n) × (nm.dnlist (k % nm.dncnt) ≡ some n)
  node_for-some k = let (n, e) = dense (k % nm.dncnt) (omega arith) in (n, ground arith, e)

  first_or_later :
      {n : ℕ} (i id : ℕ) (f : FileImage) (node : Datanode)
      → nm.dnlist (i % nm.dncnt) ≡ some node
      → (f' : FileImage)
      → Assigns nm name n (i + 1) (id + 1) (put_block i (block_on name node id) f) f'
      → (k : ℕ) → k < suc n
      → IsAssigned nm name (i + k) (id + k) (f'.block_list (i + k))
  first_or_later i id f node at f' a zero h =
      let z : i + 0 ≡ i = omega arith in
      let z' : id + 0 ≡ id = omega arith in
      rw (z, z') (node, at, a.kept i (inl (omega arith)) ∙ ground arith)
  first_or_later i id f node at f' a (suc k) h =
      let z : i + suc k ≡ i + 1 + k = omega arith in
      let z' : id + suc k ≡ id + 1 + k = omega arith in rw (z, z') (a.assigned k (omega arith))

  pub assign_loop-Assigns :
      (n i id : ℕ) (f : FileImage)
      → i + n ≤ max_file_blk_count
      → (f' : FileImage) × (assign_loop nm name n i id f ≡ some f') × Assigns nm name n i id f f'
  unfolding assign_loop
  assign_loop-Assigns zero i id f fits = (
    f,
    refl,
    record {
      assigned = λ k h. absurd (omega arith);
      kept = λ j h. refl;
      filename = refl;
      file_size = refl;
      blocknum = refl;
    },
  )
  assign_loop-Assigns (suc n) i id f fits =
      let (node, e, at) = node_for-some i in
      let f1 = put_block i (block_on name node id) f in
      let (f', run, a) = assign_loop-Assigns n (i + 1) (id + 1) f1 (omega arith) in
      (
        f',
        assign_loop-suc nm name n i id f node e (omega arith) run,
        record {
          assigned = λ k h. first_or_later i id f node at f' a k h;
          kept = λ j h.
              (elim h [
                | inl lt ↦ a.kept j (inl (omega arith))
                | inr le ↦ a.kept j (inr (omega arith))
              ])
              ∙ (let ne : j ≢ i = omega arith in ground arith);
          filename = a.filename;
          file_size = a.file_size;
          blocknum = a.blocknum;
        },
      )

  -- The blocks from `i` up to `count`, if there are any.
  pub assign_missing :
      (count i : ℕ) (f : FileImage)
      → count ≤ max_file_blk_count
      → (f' : FileImage) × (assign_loop nm name (count - i) i i f ≡ some f')
        × Assigns nm name (count - i) i i f f'
  unfolding assign_loop
  assign_missing count i f fits = elim (Bool-cases (leb i count)) [
    | inl le ↦ assign_loop-Assigns (count - i) i i f (ground arith)
    | inr gt ↦
        let none_missing : count - i ≡ 0 = ground arith in
        rw none_missing (
          f,
          refl,
          record {
            assigned = λ k h. absurd (omega arith);
            kept = λ j h. refl;
            filename = refl;
            file_size = refl;
            blocknum = refl;
          },
        )
  ]
