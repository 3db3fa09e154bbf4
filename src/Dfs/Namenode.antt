-- ===== src/Dfs/Namenode.antt =====
-- namenode/dfs_namenode.c: the tables of datanodes and files, and the handlers of a request. A handler
-- answers with what it sends to the client; `none` is no answer. Sizes and ids are not negative.
pub mod Files
pub mod Nodes
pub mod Search
pub mod Requests
pub mod Placed
pub mod Keeps
pub mod Reach
use class_projects.Base.{
  ℕ, zero, suc, ◌+◌, ◌-◌, ◌/◌, ◌%◌, Bool, true, false, Option, none, some, [], ltb, leb, ◌==◌,
  if◌then◌else◌,
}
use class_projects.Base.Names.{Name, same_name}
use class_projects.Base.Run.{Run, Cmd, done, fault, and_then}
use class_projects.Dfs.Types.{
  max_file_count, max_datanode_num, max_file_blk_count, dfs_block_size, DatanodeStatus, Datanode,
  BlockInfo, FileImage, ClientRequest, SystemStatus,
}

-- `dnlist`, `file_images`, `dncnt` and `safeMode`; `none` is NULL.
pub record Namenode : Type 0 where
  pub dnlist : ℕ → Option Datanode
  pub file_images : ℕ → Option FileImage
  pub dncnt : ℕ
  pub safe_mode : Bool

-- `start` clears both tables.
unfoldable pub start : Namenode
start = record { dnlist = λ _. none; file_images = λ _. none; dncnt = 0; safe_mode = true }

abbrev pub is_there {ℓ} : {A : Type ℓ} → Option A → Bool
is_there none = false
is_there (some _) = true

-- The non-null entries among the `n` from `i` on.
unfoldable pub count_nodes : ℕ → ℕ → (ℕ → Option Datanode) → ℕ
count_nodes zero i nodes = 0
count_nodes (suc n) i nodes = (if is_there (nodes i) then 1 else 0) + count_nodes n (i + 1) nodes

abbrev pub put_at {ℓ} : {A : Type ℓ} → ℕ → A → (ℕ → Option A) → ℕ → Option A
put_at i a f j = if j == i then some a else f j

-- What a status with a valid id writes: the entry, the counter and the mode.
abbrev pub record_node : DatanodeStatus → Name → Namenode → Namenode
record_node status ip nm =
    let node : Datanode = record {
      dn_id = status.datanode_id;
      ip = ip;
      port = status.datanode_listen_port;
    } in
    let nodes = put_at (status.datanode_id - 1) node nm.dnlist in
    record nm { dnlist = nodes; dncnt = count_nodes max_datanode_num 0 nodes; safe_mode = false }

-- One round of `register_datanode`: the status that a datanode at address `ip` sent. Datanode 0 would
-- go to `dnlist[-1]`.
unfoldable pub register_datanode : DatanodeStatus → Name → Cmd Namenode (Unit {0})
register_datanode status ip nm =
    if ltb status.datanode_id max_datanode_num
    then if status.datanode_id == 0 then fault else done tt (record_node status ip nm)
    else done tt nm

abbrev pub is_named : Name → Option FileImage → Bool
is_named name none = false
is_named name (some f) = same_name f.filename name

-- The first entry among the `n` from `i` on that passes the test.
unfoldable pub find_image : (Option FileImage → Bool) → ℕ → ℕ → (ℕ → Option FileImage) → Option ℕ
find_image test zero i images = none
find_image test (suc n) i images =
    if test (images i) then some i else find_image test n (i + 1) images

abbrev pub is_empty : Option FileImage → Bool
is_empty none = true
is_empty (some _) = false

abbrev pub blocks_for : ℕ → ℕ
blocks_for size = (size + (dfs_block_size - 1)) / dfs_block_size

-- `dnlist[k % dncnt]`; `none` where it is NULL or `dncnt` is 0.
abbrev pub node_for : Namenode → ℕ → Option Datanode
node_for nm k = if nm.dncnt == 0 then none else nm.dnlist (k % nm.dncnt)

abbrev pub block_on : Name → Datanode → ℕ → BlockInfo
block_on name node id = record {
  owner_name = name;
  dn_id = node.dn_id;
  block_id = id;
  loc_ip = node.ip;
  loc_port = node.port;
}

abbrev pub put_block : ℕ → BlockInfo → FileImage → FileImage
put_block i b f = record f { block_list = λ j. if j == i then b else f.block_list j }

-- The loop that assigns blocks: `n` rounds are left, the next place is `i` and the next id is `id`.
-- `none` is a fault: no datanode, a null one, or a place past the list.
unfoldable pub assign_loop : Namenode → Name → ℕ → ℕ → ℕ → FileImage → Option FileImage
assign_loop nm name zero i id f = some f
assign_loop nm name (suc n) i id f = elim (node_for nm i) [
  | none ↦ none
  | some node ↦
      if leb max_file_blk_count i
      then none
      else assign_loop nm name n (i + 1) (id + 1) (put_block i (block_on name node id) f)
]

-- The file image is updated in its place in the table, and sent.
abbrev pub store_image : ℕ → Option FileImage → Cmd Namenode (Option FileImage)
store_image i none nm = fault
store_image i (some f) nm = done (some f) (record nm { file_images = put_at i f nm.file_images })

-- A new entry, zeroed but for its name and size.
abbrev pub new_image : ClientRequest → FileImage
new_image request = record {
  filename = request.file_name;
  block_list = λ _. block_on [] (record { dn_id = 0; ip = []; port = 0 }) 0;
  file_size = request.file_size;
  blocknum = 0;
}

-- The part of `get_file_receivers` behind the search: every block of the file is assigned, from place
-- 0 on, with ids from the old number of blocks on.
unfoldable pub assign_receivers :
    ℕ → ClientRequest → Option FileImage → Cmd Namenode (Option FileImage)
assign_receivers i request none nm = fault
assign_receivers i request (some f) nm =
    let count = blocks_for request.file_size in
    store_image i
      (assign_loop nm request.file_name count 0 f.blocknum (record f { blocknum = count })) nm

unfoldable pub get_file_receivers : ClientRequest → Cmd Namenode (Option FileImage)
get_file_receivers request nm =
    elim (find_image (is_named request.file_name) max_file_count 0 nm.file_images) [
      | some i ↦ assign_receivers i request (nm.file_images i) nm
      | none ↦ elim (find_image is_empty max_file_count 0 nm.file_images) [
        | none ↦ done none nm
        | some i ↦ assign_receivers i request (some (new_image request)) nm
      ]
    ]

unfoldable pub get_file_location : ClientRequest → Cmd Namenode (Option FileImage)
get_file_location request nm =
    elim (find_image (is_named request.file_name) max_file_count 0 nm.file_images) [
      | some i ↦ done (nm.file_images i) nm
      | none ↦ done none nm
    ]

-- The loop of `get_system_information`: a null entry below `dncnt` is read.
unfoldable pub copy_nodes :
    ℕ → ℕ → (ℕ → Option Datanode) → (ℕ → Option Datanode) → Option (ℕ → Option Datanode)
copy_nodes zero i nodes out = some out
copy_nodes (suc n) i nodes out = elim (nodes i) [
  | none ↦ none
  | some node ↦ copy_nodes n (i + 1) nodes (put_at i node out)
]

unfoldable pub get_system_information : Cmd Namenode SystemStatus
get_system_information nm = elim (copy_nodes nm.dncnt 0 nm.dnlist (λ _. none)) [
  | none ↦ fault
  | some nodes ↦ done (record { datanode_num = nm.dncnt; datanodes = nodes }) nm
]

-- The part of `get_file_update_point` behind the search: a file that grows gets the blocks that it
-- lacks, and keeps those that it has.
unfoldable pub extend_image : ℕ → ClientRequest → Option FileImage → Cmd Namenode (Option FileImage)
extend_image i request none nm = fault
extend_image i request (some f) nm =
    let count = blocks_for request.file_size in
    if ltb f.file_size request.file_size
    then store_image i
        (assign_loop nm request.file_name (count - f.blocknum) f.blocknum f.blocknum
          (record f { blocknum = count; file_size = request.file_size }))
        nm
    else done (some f) nm

unfoldable pub get_file_update_point : ClientRequest → Cmd Namenode (Option FileImage)
get_file_update_point request nm =
    elim (find_image (is_named request.file_name) max_file_count 0 nm.file_images) [
      | some i ↦ extend_image i request (nm.file_images i) nm
      | none ↦ done none nm
    ]

-- What a request is answered with.
pub data Reply : Type 0 where
  no_reply : Reply
  file : FileImage → Reply
  status : SystemStatus → Reply

abbrev pub file_reply : Option FileImage → Cmd Namenode Reply
file_reply none = done no_reply
file_reply (some f) = done (file f)

-- 0 reads, 1 writes, 2 queries the datanodes, 3 modifies; any other type is ignored.
unfoldable pub requests_dispatcher : ClientRequest → Cmd Namenode Reply
requests_dispatcher request nm =
    if request.req_type == 0
    then and_then (get_file_location request nm) file_reply
    else if request.req_type == 1
    then and_then (get_file_receivers request nm) file_reply
    else if request.req_type == 2
    then and_then (get_system_information nm) (λ s. done (status s))
    else if request.req_type == 3
    then and_then (get_file_update_point request nm) file_reply
    else done no_reply nm
