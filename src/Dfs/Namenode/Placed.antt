-- ===== src/Dfs/Namenode/Placed.antt =====
-- The table of files between two requests, and that the assignment of blocks keeps it.
use class_projects.Base.{
  ℕ, false, zero, suc, ◌+◌, ◌-◌, ◌%◌, ◌≤◌, ◌<◌, ◌≡◌, ◌≢◌, ◌⊎◌, refl, ◌∙◌, Option, some, arith,
  Bool-cases, Option-cases, inl, inr, leb, ◌==◌,
}
use class_projects.Base.Names.{Name}
use class_projects.Dfs.Types.{max_file_count, max_file_blk_count, Datanode, BlockInfo, FileImage}
use class_projects.Dfs.Namenode.{Namenode, count_nodes, put_block, block_on, node_for, assign_loop}
use class_projects.Dfs.Namenode.Nodes.{NodesIsValid}

-- A block of `name` lies on a datanode that has registered.
abbrev pub IsPlaced : (ℕ → Option Datanode) → Name → BlockInfo → Type 0
IsPlaced nodes name b =
    (b.owner_name ≡ name)
    × (0 < b.dn_id)
    × (b.dn_id < 10)
    × (n : Datanode) × (nodes (b.dn_id - 1) ≡ some n)

-- The image of one file.
abbrev pub ImageIsValid : (ℕ → Option Datanode) → FileImage → Type 0
ImageIsValid nodes f =
    (f.blocknum ≤ max_file_blk_count)
    × ((k : ℕ) → k < f.blocknum → IsPlaced nodes f.filename (f.block_list k))

-- Each file has one place in the table, at most 100 blocks, and all its blocks on datanodes that have
-- registered.
pub record FilesIsValid (nm : Namenode) : Type 0 where
  pub placed : (i : ℕ) (f : FileImage) → nm.file_images i ≡ some f → i < max_file_count
  pub unique :
      (i j : ℕ) (f g : FileImage)
      → nm.file_images i ≡ some f
      → nm.file_images j ≡ some g
      → f.filename ≡ g.filename
      → i ≡ j
  pub images : (i : ℕ) (f : FileImage) → nm.file_images i ≡ some f → ImageIsValid nm.dnlist f

-- Both tables, and out of safe mode some datanode is there.
pub record IsConsistent (nm : Namenode) : Type 0 where
  pub nodes : NodesIsValid nm
  pub files : FilesIsValid nm
  pub awake : nm.safe_mode ≡ false → 0 < nm.dncnt

-- What `assign_loop` leaves, when it does not fault.
pub record Assigned (nm : Namenode) (name : Name) (n i : ℕ) (f f' : FileImage) : Type 0 where
  pub top : (n ≡ 0) ⊎ (i + n ≤ max_file_blk_count)
  pub blocks : (k : ℕ) → i ≤ k → k < i + n → IsPlaced nm.dnlist name (f'.block_list k)
  pub kept : (k : ℕ) → k < i → f'.block_list k ≡ f.block_list k
  pub same : (n ≡ 0) → f' ≡ f
  pub filename : f'.filename ≡ f.filename
  pub blocknum : f'.blocknum ≡ f.blocknum

count_nodes-le : (n i : ℕ) (nodes : ℕ → Option Datanode) → count_nodes n i nodes ≤ n
unfolding count_nodes
count_nodes-le zero i nodes = omega arith
count_nodes-le (suc n) i nodes = ground (arith, count_nodes-le n (i + 1) nodes)

node_for-some :
    (nm : Namenode) (k : ℕ) (n : Datanode)
    → node_for nm k ≡ some n
    → (0 < nm.dncnt) × (nm.dnlist (k % nm.dncnt) ≡ some n)
node_for-some nm k n e = elim (Bool-cases (nm.dncnt == 0)) [
  | inl q ↦ absurd (ground arith)
  | inr q ↦ (ground arith, ground arith)
]

-- A round of the loop that does not fault.
assign_loop-next :
    (nm : Namenode) (name : Name) (n i id : ℕ) (f f' : FileImage)
    → assign_loop nm name (suc n) i id f ≡ some f'
    → (node : Datanode) × (node_for nm i ≡ some node)
      × (i < max_file_blk_count)
      × (assign_loop nm name n (i + 1) (id + 1) (put_block i (block_on name node id) f) ≡ some f')
unfolding assign_loop
assign_loop-next nm name n i id f f' e = elim (Option-cases (node_for nm i)) [
  | inl no_node ↦ absurd (ground arith)
  | inr (node, at) ↦ (elim (Bool-cases (leb max_file_blk_count i)) [
    | inl q ↦ absurd (ground arith)
    | inr q ↦ (node, at, ground arith, ground arith)
  ])
]

module _ (nm : Namenode) (name : Name) (v : NodesIsValid nm) where
  node_for-IsPlaced :
      (k id : ℕ) (n : Datanode)
      → node_for nm k ≡ some n
      → IsPlaced nm.dnlist name (block_on name n id)
  node_for-IsPlaced k id n e =
      let (some_node, at) = node_for-some nm k n e in
      let place = v.own_place (k % nm.dncnt) n at in
      let last : k % nm.dncnt ≢ 9 = λ q. let t = v.last_empty in let t' = rw q at at in cc in
      let z : n.dn_id - 1 ≡ k % nm.dncnt = omega arith in
      let few : nm.dncnt ≤ 10 = omega (arith, v.counted, count_nodes-le 10 0 nm.dnlist) in
      (refl, omega arith, omega arith, n, rw z at)

  pub assign_loop-Assigned :
      (n i id : ℕ) (f f' : FileImage)
      → assign_loop nm name n i id f ≡ some f'
      → Assigned nm name n i f f'
  unfolding assign_loop
  assign_loop-Assigned zero i id f f' e =
      let z : f' ≡ f = cc in
      record {
        top = inl refl;
        blocks = λ k le lt. absurd (omega arith);
        kept = λ k lt. rw z refl;
        same = λ _. z;
        filename = rw z refl;
        blocknum = rw z refl;
      }
  assign_loop-Assigned (suc n) i id f f' e =
      let (node, at, fits, rest) = assign_loop-next nm name n i id f f' e in
      let a =
        assign_loop-Assigned n (i + 1) (id + 1) (put_block i (block_on name node id) f) f' rest in
      record {
        top = inr (omega (arith, a.top));
        blocks = λ k le lt. elim (Bool-cases (k == i)) [
          | inl q ↦
              let z : k ≡ i = ground arith in
              let here : f'.block_list i ≡ block_on name node id =
                a.kept i (omega arith) ∙ ground arith in
              rw (z, here) (node_for-IsPlaced i id node at)
          | inr q ↦ a.blocks k (ground arith) (omega arith)
        ];
        kept = λ k lt. a.kept k (omega arith) ∙ ground arith;
        same = λ q. absurd (omega arith);
        filename = a.filename;
        blocknum = a.blocknum;
      }
