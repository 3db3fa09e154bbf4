-- ===== src/Dfs/Namenode/Reach.antt =====
-- Every state that the namenode can reach: heartbeats and requests as steps, in any order. `mainLoop`
-- of the namenode serves no request in safe mode.
use class_projects.Base.{
  ℕ, zero, suc, Option, ◌+◌, ◌≤◌, ◌-◌, ◌<◌, ◌≡◌, refl, false, arith, Bool-cases, inl, inr, ltb,
  ◌==◌,
}
use class_projects.Base.Names.{Name}
use class_projects.Base.Run.{done}
use class_projects.Dfs.Types.{DatanodeStatus, Datanode, BlockInfo, ClientRequest}
use class_projects.Dfs.Namenode.{
  Namenode, Reply, start, record_node, register_datanode, requests_dispatcher, count_nodes, put_at,
}
use class_projects.Dfs.Namenode.Nodes.{start-NodesIsValid}
use class_projects.Dfs.Namenode.Placed.{IsPlaced, IsConsistent}
use class_projects.Dfs.Namenode.Keeps.{Keeps, requests_dispatcher-Keeps}

-- A datanode that has registered stays in the table.
IsPlaced-record :
    (report : DatanodeStatus) (ip : Name) (nm : Namenode) (name : Name) (b : BlockInfo)
    → IsPlaced nm.dnlist name b
    → IsPlaced (record_node report ip nm).dnlist name b
IsPlaced-record report ip nm name b (own, pos, lt, n, at) =
    elim (Bool-cases (b.dn_id - 1 == report.datanode_id - 1)) [
      | inl q ↦
          let node : Datanode = record {
            dn_id = report.datanode_id;
            ip = ip;
            port = report.datanode_listen_port;
          } in
          (own, pos, lt, node, rw q refl)
      | inr q ↦ (own, pos, lt, n, rw q at)
    ]

-- A table with an entry counts it.
count_nodes-put_at :
    (n i j : ℕ) (node : Datanode) (nodes : ℕ → Option Datanode)
    → i ≤ j
    → j < i + n
    → 0 < count_nodes n i (put_at j node nodes)
unfolding count_nodes
count_nodes-put_at zero i j node nodes le lt = absurd (omega arith)
count_nodes-put_at (suc n) i j node nodes le lt = elim (Bool-cases (i == j)) [
  | inl q ↦ rw q (ground arith)
  | inr q ↦
      let rest = count_nodes-put_at n (i + 1) j node nodes (ground arith) (omega arith) in
      ground arith
]

-- The state after a status was recorded: the files keep their blocks.
register_datanode-Keeps :
    (report : DatanodeStatus) (ip : Name) (nm : Namenode)
    → 0 < report.datanode_id
    → IsConsistent nm
    → Keeps (register_datanode report ip nm)
unfolding Keeps register_datanode
register_datanode-Keeps report ip nm pos c = elim (Bool-cases (ltb report.datanode_id 10)) [
  | inr q ↦ rw q c
  | inl q ↦
      let ne : (report.datanode_id == 0) ≡ false = ground arith in
      rw (q, ne)
        (record {
          nodes = record {
            counted = refl;
            last_empty = ground (arith, c.nodes.last_empty);
            own_place = λ i n h. ground (arith, c.nodes.own_place i n);
          };
          awake = λ _.
              count_nodes-put_at 10 0 (report.datanode_id - 1) _ nm.dnlist (omega arith)
                (ground arith);
          files = record {
            placed = c.files.placed;
            unique = c.files.unique;
            images = λ i f e.
                let (few, blocks) = c.files.images i f e in
                (few, λ k h. IsPlaced-record report ip nm f.filename (f.block_list k) (blocks k h));
          };
        })
]

-- What the threads of the namenode do between two states: a heartbeat of a datanode with an id from 1
-- on is recorded, or, when `mainLoop` found it out of safe mode, a request is answered. A fault ends the program, and is no step.
pub data Step (nm nm' : Namenode) : Type 0 where
  heartbeat :
      (report : DatanodeStatus) (ip : Name)
      → 0 < report.datanode_id
      → register_datanode report ip nm ≡ done tt nm'
      → Step nm nm'
  request :
      (r : ClientRequest) (reply : Reply)
      → nm.safe_mode ≡ false
      → requests_dispatcher r nm ≡ done reply nm'
      → Step nm nm'

pub data Reach : Namenode → Type 0 where
  begin : Reach start
  next : {nm nm' : Namenode} → Reach nm → Step nm nm' → Reach nm'

start-IsConsistent : IsConsistent start
unfolding start
start-IsConsistent = record {
  nodes = start-NodesIsValid;
  awake = λ e. absurd (cc);
  files = record {
    placed = λ i f e. cc;
    unique = λ i j f g e e' q. cc;
    images = λ i f e. absurd (cc);
  };
}

Step-IsConsistent : {nm nm' : Namenode} → Step nm nm' → IsConsistent nm → IsConsistent nm'
unfolding Keeps
Step-IsConsistent {nm} (heartbeat report ip pos e) c =
    rw e at (register_datanode-Keeps report ip nm pos c)
Step-IsConsistent {nm} (request r reply _ e) c = rw e at (requests_dispatcher-Keeps r nm c)

-- In every state that heartbeats and requests can lead to, in any order and number, the tables are
-- consistent: the counter counts the datanodes, each at the place of its id, and is not 0 out of safe
-- mode, when requests are served; each file has one place and at most 100 blocks; and every block of a
-- file is its own and lies on a datanode that has registered, never on datanode 10.
pub Reach-IsConsistent : {nm : Namenode} → Reach nm → IsConsistent nm
Reach-IsConsistent begin = start-IsConsistent
Reach-IsConsistent (next r s) = Step-IsConsistent s (Reach-IsConsistent r)
