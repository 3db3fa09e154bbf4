-- ===== src/Dfs/Client.antt =====
-- client/dfs_client.c: push, pull and modify, over the namenode and the datanodes that a connection
-- reaches. A request and its answer are one step: the servers answer one connection at a time.
pub mod Push
pub mod RoundTrip
use class_projects.Base.{
  ℕ, zero, suc, ◌+◌, ◌-◌, ◌*◌, ◌/◌, Bool, true, false, ◌&&◌, Option, none, some, [], ltb, leb, ◌==◌,
  if◌then◌else◌,
}
use class_projects.Base.Int.{ℤ, pos, negsuc}
use class_projects.Base.Names.{Name, same_name}
use class_projects.Base.Bytes.{Bytes, File, empty_file, copy, file_read, file_write}
use class_projects.Base.Run.{Run, Cmd, done, fault, no_fuel, and_then}
use class_projects.Dfs.Types.{
  dfs_block_size, max_file_blk_count, BlockInfo, FileImage, ClientRequest, SystemStatus,
  BlockRequest,
}
use class_projects.Dfs.Namenode
use class_projects.Dfs.Namenode.{Namenode, Reply, no_reply, file, status}
use class_projects.Dfs.Datanode
use class_projects.Dfs.Datanode.{Store}

-- The namenode, and the datanodes by address and port.
pub record Network : Type 0 where
  pub namenode : Namenode
  pub stores : Name → ℕ → Option Store

abbrev pub with_namenode : Network → Run Namenode Reply → Run Network Reply
with_namenode net (done r nm) = done r (record net { namenode = nm })
with_namenode net fault = fault
with_namenode net no_fuel = no_fuel

abbrev pub ask_namenode : ClientRequest → Cmd Network Reply
ask_namenode request net = with_namenode net (Namenode.requests_dispatcher request net.namenode)

abbrev pub put_store : Name → ℕ → Store → Network → Network
put_store ip port s net = record net {
  stores = λ ip' port'. if same_name ip ip' && port == port' then some s else net.stores ip' port';
}

abbrev pub with_store :
    Name → ℕ → Network → Run Store (Option BlockRequest) → Run Network (Option BlockRequest)
with_store ip port net (done r s) = done r (put_store ip port s net)
with_store ip port net fault = fault
with_store ip port net no_fuel = no_fuel

-- A connection that fails stops the client by `assert`. `junk` is the datanode's stack buffer.
unfoldable pub ask_datanode : Bytes → Name → ℕ → BlockRequest → Cmd Network (Option BlockRequest)
ask_datanode junk ip port request net = elim (net.stores ip port) [
  | none ↦ fault
  | some s ↦
      with_store ip port net (Datanode.requests_dispatcher Datanode.host_files junk request s)
]

-- A client that gets no answer receives forever.
abbrev pub expect_file : Reply → (FileImage → Cmd Network File) → Cmd Network File
expect_file (file f) next net = next f net
expect_file no_reply next net = no_fuel
expect_file (status s) next net = no_fuel

-- The request that carries block `b` of a local file; the rest of a short block is `junk`.
abbrev pub create_request : Bytes → File → BlockInfo → BlockRequest
create_request junk local b = record {
  op_type = 1;
  owner_name = b.owner_name;
  block_id = b.block_id;
  content = file_read local (b.block_id * dfs_block_size) dfs_block_size junk;
}

-- The loop of `push_file`: `n` rounds are left, from place `i` on.
unfoldable pub push_loop : Bytes → File → FileImage → ℕ → ℕ → Cmd Network (Unit {0})
push_loop junk local f zero i net = done tt net
push_loop junk local f (suc n) i net =
    let b = f.block_list i in
    if leb max_file_blk_count i
    then fault
    else and_then (ask_datanode junk b.loc_ip b.loc_port (create_request junk local b) net)
        (λ _ net'. push_loop junk local f n (i + 1) net')

-- `push_file`, of a local file that is there. The result is the local file, which does not change.
unfoldable pub push_file : Bytes → Name → File → Cmd Network File
push_file junk name local net =
    and_then (ask_namenode (record { file_name = name; file_size = local.size; req_type = 1 }) net)
      (λ r.
        expect_file r (λ f net'.
          and_then (push_loop junk local f f.blocknum 0 net') (λ _ net2. done local net2)))

abbrev pub read_request : Bytes → BlockInfo → BlockRequest
read_request junk b = record {
  op_type = 0;
  owner_name = b.owner_name;
  block_id = b.block_id;
  content = junk;
}

abbrev pub write_answer : Option BlockRequest → File → (File → Cmd Network File) → Cmd Network File
write_answer none local next net = no_fuel
write_answer (some r) local next net =
    next (file_write local (r.block_id * dfs_block_size) dfs_block_size r.content 0) net

-- The loop of `pull_file`, over the local file.
unfoldable pub pull_loop : Bytes → FileImage → ℕ → ℕ → File → Cmd Network File
pull_loop junk f zero i local net = done local net
pull_loop junk f (suc n) i local net =
    let b = f.block_list i in
    if leb max_file_blk_count i
    then fault
    else and_then (ask_datanode junk b.loc_ip b.loc_port (read_request junk b) net)
        (λ r. write_answer r local (λ local'. pull_loop junk f n (i + 1) local'))

-- `pull_file`: the local file afterwards. The size in the request is not set.
unfoldable pub pull_file : Bytes → ℕ → Name → Cmd Network File
pull_file junk unset name net =
    and_then (ask_namenode (record { file_name = name; file_size = unset; req_type = 0 }) net)
      (λ r. expect_file r (λ f. pull_loop junk f f.blocknum 0 empty_file))

-- The loop of `modify_file` over a buffer of `len` bytes, `len - 1` of which are counted. Each round
-- takes a whole block from the buffer: past its end that is out of bounds.
unfoldable pub modify_loop :
    ℕ → Bytes → Name → FileImage → Bytes → ℕ → ℕ → ℕ → Cmd Network (Unit {0})
modify_loop zero junk name f buffer len id sent net = no_fuel
modify_loop (suc k) junk name f buffer len id sent net =
    let b = f.block_list id in
    let request : BlockRequest = record {
      op_type = 1;
      owner_name = name;
      block_id = id;
      content = copy dfs_block_size (λ _. 0) 0 buffer sent;
    } in
    if leb (len - 1) sent
    then done tt net
    else if ltb len (sent + dfs_block_size)
    then fault
    else if leb max_file_blk_count id
    then fault
    else and_then (ask_datanode junk b.loc_ip b.loc_port request net)
        (λ _ net'. modify_loop k junk name f buffer len (id + 1) (sent + dfs_block_size) net')

-- `modify_file` of the bytes `start` to `stop` of a local file.
unfoldable pub modify_file : Bytes → Name → ℕ → ℕ → ℕ → File → Cmd Network File
modify_file junk name file_size start stop local net =
    and_then (ask_namenode (record { file_name = name; file_size = file_size; req_type = 3 }) net)
      (λ r. expect_file r (λ f net'.
        let len = stop - start + 1 in
        let buffer = file_read local start len (λ _. 0) in
        and_then (modify_loop (suc len) junk name f buffer len (start / dfs_block_size) 0 net')
          (λ _ net2. done local net2)))

-- `get_system_info`
unfoldable pub get_system_info : Cmd Network (Option SystemStatus)
get_system_info net =
    and_then (ask_namenode (record { file_name = []; file_size = 0; req_type = 2 }) net)
      (λ r net'. elim r [ status s ↦ done (some s) net' | _ ↦ no_fuel ])

-- `send_file_request`, with the result of the call and the local file afterwards. `connects` says whether
-- the namenode can be reached.
unfoldable send_file_request : Bool → ℕ → Bytes → ℕ → Name → File → Cmd Network (ℤ × File)
send_file_request connects op_type junk unset name local net =
    if connects
    then if op_type == 0
      then and_then (pull_file junk unset name net) (λ pulled net'. done (pos 0, pulled) net')
      else if op_type == 1
      then and_then (push_file junk name local net) (λ pushed net'. done (pos 0, pushed) net')
      else done (pos 1, local) net
    else done (negsuc 0, local) net

-- `send_sysinfo_request`; `none` is NULL.
unfoldable send_sysinfo_request : Bool → Cmd Network (Option SystemStatus)
send_sysinfo_request connects net = if connects then get_system_info net else done none net
