-- ===== src/Dfs/Namenode/Nodes.antt =====
-- The table of datanodes.
use class_projects.Base.{
  ℕ, zero, suc, ◌+◌, ◌-◌, ◌≤◌, ◌<◌, ◌≡◌, ◌≢◌, refl, false, Option, none, some, arith, Bool-cases,
  Option-cases, inl, inr, ltb, ◌==◌, ◌∙◌,
}
use class_projects.Base.Names.{Name}
use class_projects.Base.Run.{fault, Returns, returns}
use class_projects.Dfs.Types.{max_datanode_num, DatanodeStatus, Datanode}
use class_projects.Dfs.Namenode.{
  Namenode, start, count_nodes, put_at, register_datanode, copy_nodes, get_system_information,
}

-- The counter counts the entries of the table, the last place stays empty, and datanode `i + 1` is at
-- place `i`.
pub record NodesIsValid (nm : Namenode) : Type 0 where
  pub counted : nm.dncnt ≡ count_nodes max_datanode_num 0 nm.dnlist
  pub last_empty : nm.dnlist 9 ≡ none
  pub own_place : (i : ℕ) (n : Datanode) → nm.dnlist i ≡ some n → n.dn_id ≡ i + 1

-- The table of a namenode that has just started is valid.
pub start-NodesIsValid : NodesIsValid start
unfolding start count_nodes
start-NodesIsValid = record { counted = refl; last_empty = refl; own_place = λ i n h. cc }

-- A registration either leaves the table alone (an id past 9) or fills one place: the node is found
-- there with its address and port, the other places are as before, and the namenode leaves safe
-- mode. The table stays valid; so datanode 10, which the table has room for, is never recorded.
pub register_datanode-records :
    (status : DatanodeStatus) (ip : Name) (nm : Namenode)
    → NodesIsValid nm
    → 0 < status.datanode_id
    → Returns
        (λ _ nm'.
          NodesIsValid nm'
          × (status.datanode_id < 10
              → (nm'.dnlist (status.datanode_id - 1)
                  ≡ some (record {
                    dn_id = status.datanode_id;
                    ip = ip;
                    port = status.datanode_listen_port;
                  }))
                × (nm'.safe_mode ≡ false))
          × (10 ≤ status.datanode_id → nm' ≡ nm)
          × ((j : ℕ) → suc j ≢ status.datanode_id → nm'.dnlist j ≡ nm.dnlist j))
        (register_datanode status ip nm)
unfolding register_datanode
register_datanode-records status ip nm v pos = elim (Bool-cases (ltb status.datanode_id 10)) [
  | inl e ↦
      let ne : (status.datanode_id == 0) ≡ false = ground arith in
      rw (e, ne)
        (returns (
          record {
            counted = refl;
            last_empty = ground (arith, v.last_empty);
            own_place = λ i n h. ground (arith, v.own_place i n);
          },
          (λ _. ground arith),
          (λ h. absurd (ground arith)),
          (λ j ne'. ground arith),
        ))
  | inr e ↦ rw e (returns (v, (λ h. absurd (ground arith)), (λ _. refl), (λ j ne'. refl)))
]

-- The datanodes that have registered fill the table from its start.
abbrev pub IsDense : Namenode → Type 0
IsDense nm = (i : ℕ) → i < nm.dncnt → (n : Datanode) × (nm.dnlist i ≡ some n)

copy_nodes-suc :
    (n i : ℕ) (nodes out : ℕ → Option Datanode) (d : Datanode) (r : Option (ℕ → Option Datanode))
    → nodes i ≡ some d
    → copy_nodes n (i + 1) nodes (put_at i d out) ≡ r
    → copy_nodes (suc n) i nodes out ≡ r
unfolding copy_nodes
copy_nodes-suc n i nodes out d r e run = rw (e, copy_nodes) run

copy_nodes-all :
    (n i : ℕ) (nodes out : ℕ → Option Datanode)
    → ((j : ℕ) → i ≤ j → j < i + n → (d : Datanode) × (nodes j ≡ some d))
    → (out' : ℕ → Option Datanode) × (copy_nodes n i nodes out ≡ some out')
      × ((j : ℕ) → i ≤ j → j < i + n → out' j ≡ nodes j)
      × ((j : ℕ) → j < i → out' j ≡ out j)
unfolding copy_nodes
copy_nodes-all zero i nodes out there =
    (out, refl, (λ j le lt. absurd (omega arith)), (λ j lt. refl))
copy_nodes-all (suc n) i nodes out there =
    let (d, e) = there i (omega arith) (omega arith) in
    let (out', run, same, old) =
      copy_nodes-all n (i + 1) nodes (put_at i d out)
        (λ j le lt. there j (omega arith) (omega arith)) in
    (
      out',
      copy_nodes-suc n i nodes out d (some out') e run,
      (λ j le lt. elim (Bool-cases (j == i)) [
        | inl q ↦ let z : j ≡ i = ground arith in rw z (old i (omega arith) ∙ ground arith)
        | inr q ↦ same j (ground arith) (omega arith)
      ]),
      (λ j lt. old j (omega arith) ∙ ground arith),
    )

copy_nodes-gap :
    (n i g : ℕ) (nodes out : ℕ → Option Datanode)
    → i ≤ g
    → g < i + n
    → nodes g ≡ none
    → copy_nodes n i nodes out ≡ none
unfolding copy_nodes
copy_nodes-gap zero i g nodes out le lt e = absurd (omega arith)
copy_nodes-gap (suc n) i g nodes out le lt e = elim (Bool-cases (i == g)) [
  | inl q ↦ ground arith
  | inr q ↦ (elim (Option-cases (nodes i)) [
    | inl e' ↦ rw (e', copy_nodes)
    | inr (d, e') ↦
        copy_nodes-suc n i nodes out d none e'
          (copy_nodes-gap n (i + 1) g nodes (put_at i d out) (ground arith) (omega arith) e)
  ])
]

-- A table that is filled from its start is sent whole, with the number of its datanodes, and nothing
-- changes.
pub get_system_information-lists :
    (nm : Namenode)
    → IsDense nm
    → Returns
        (λ s nm'.
          (nm' ≡ nm)
          × (s.datanode_num ≡ nm.dncnt)
          × ((i : ℕ) → i < nm.dncnt → s.datanodes i ≡ nm.dnlist i))
        (get_system_information nm)
unfolding get_system_information
get_system_information-lists nm dense =
    let (out, run, same, old) =
      copy_nodes-all nm.dncnt 0 nm.dnlist (λ _. none) (λ j le lt. dense j (omega arith)) in
    rw (get_system_information, run)
      (returns (refl, refl, λ i lt. same i (omega arith) (omega arith)))

-- With a place below `dncnt` empty, as when datanode 2 registers before datanode 1, the query of the
-- datanodes dereferences a null pointer.
pub get_system_information-faults :
    (nm : Namenode) (g : ℕ) → g < nm.dncnt → nm.dnlist g ≡ none → get_system_information nm ≡ fault
unfolding get_system_information
get_system_information-faults nm g lt e = rw (
  get_system_information,
  copy_nodes-gap nm.dncnt 0 g nm.dnlist (λ _. none) (omega arith) (omega arith) e,
)
