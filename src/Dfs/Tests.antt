-- ===== src/Dfs/Tests.antt =====
-- Runs of the distributed file system with two datanodes.
use class_projects.Base.{
  ℕ, suc, leb, ◌+◌, ◌≤◌, ◌<◌, ◌≡◌, ◌≢◌, refl, false, none, some, [], ◌∷◌, arith, if◌then◌else◌,
  ◌==◌,
}
use class_projects.Base.Names.{length, Name, same_name}
use class_projects.Base.Bytes.{Bytes, File}
use class_projects.Base.Run.{fault, Returns}
use class_projects.Dfs.Types.{DatanodeStatus, Datanode, FileImage, ClientRequest}
use class_projects.Dfs.Namenode.{
  Namenode, start, put_at, count_nodes, copy_nodes, requests_dispatcher, block_on,
  register_datanode, get_file_receivers, get_file_update_point, get_system_information,
}
use class_projects.Dfs.Namenode.Nodes.{
  NodesIsValid, IsDense, start-NodesIsValid, register_datanode-records,
  get_system_information-faults,
}
use class_projects.Dfs.Namenode.Placed.{IsConsistent}
use class_projects.Dfs.Namenode.Reach.{Reach, begin, next, heartbeat, request, Reach-IsConsistent}
use class_projects.Dfs.Namenode.Files.{IsAssigned}
use class_projects.Dfs.Namenode.Requests.{
  Covers, IsWritten, Receives, get_file_receivers-new, get_file_receivers-again,
  get_file_update_point-grows,
}
use class_projects.Dfs.Datanode.{Store, get_block_file_path, path_space}
use class_projects.Dfs.Datanode.Paths.{path_space-fits}
use class_projects.Dfs.Client.{Network}

abbrev notes : Name
notes = b'n' ∷ b'o' ∷ b't' ∷ b'e' ∷ b's' ∷ []

abbrev other : Name
other = b'x' ∷ []

abbrev host : Name
host = b'h' ∷ []

abbrev zeros : Bytes
zeros = λ _. 0

abbrev node_at : ℕ → Datanode
node_at i = record { dn_id = i + 1; ip = host; port = 50060 + i }

-- Two datanodes, and no file.
abbrev two_nodes : Namenode
two_nodes = record {
  dnlist = λ i. if i == 0 then some (node_at 0) else if i == 1 then some (node_at 1) else none;
  file_images = λ _. none;
  dncnt = 2;
  safe_mode = false;
}

two_nodes-IsDense : IsDense two_nodes
two_nodes-IsDense i h = (node_at i, ground arith)

-- A file of two blocks in the first place.
abbrev two_blocks : FileImage
two_blocks = record {
  filename = notes;
  block_list = λ k. block_on notes (node_at k) k;
  file_size = 1500;
  blocknum = 2;
}

abbrev with_notes : Namenode
with_notes = record two_nodes { file_images = λ i. if i == 0 then some two_blocks else none }

abbrev write_notes : ℕ → ClientRequest
write_notes size = record { file_name = notes; file_size = size; req_type = 1 }

get_file_receivers-new_example :
    Returns
      (λ r nm'.
        (f : FileImage) × (r ≡ some f)
        × (nm' ≡ record two_nodes { file_images = put_at 0 f two_nodes.file_images })
        × IsWritten two_nodes (write_notes 3000) f nm')
      (get_file_receivers (write_notes 3000) two_nodes)
get_file_receivers-new_example =
    get_file_receivers-new (write_notes 3000) two_nodes two_nodes-IsDense (omega arith)
      (omega arith) 0 (λ k h. refl) (omega arith, refl, λ k h. absurd (omega arith))

get_file_receivers-again_example :
    Returns
      (Receives with_notes (write_notes 3000) 0 two_blocks)
      (get_file_receivers (write_notes 3000) with_notes)
unfolding same_name
get_file_receivers-again_example =
    get_file_receivers-again (write_notes 3000) with_notes two_nodes-IsDense (omega arith)
      (omega arith) 0 two_blocks (omega arith, refl, λ k h. absurd (omega arith)) refl

get_file_update_point-grows_example :
    Returns
      (λ r nm'.
        (f' : FileImage) × (r ≡ some f')
        × ((j : ℕ) → j ≢ 0 → nm'.file_images j ≡ with_notes.file_images j)
        × (nm'.file_images 0 ≡ some f')
        × (3000 ≤ 1500 → f' ≡ two_blocks)
        × (1500 < 3000
            → Covers f'.blocknum 3000
              × (f'.file_size ≡ 3000)
              × ((k : ℕ) → k < 2 → f'.block_list k ≡ two_blocks.block_list k)
              × ((k : ℕ)
                  → 2 ≤ k
                  → k < f'.blocknum
                  → IsAssigned with_notes notes k k (f'.block_list k))))
      (get_file_update_point (write_notes 3000) with_notes)
unfolding same_name
get_file_update_point-grows_example =
    get_file_update_point-grows (write_notes 3000) with_notes two_nodes-IsDense (omega arith)
      (omega arith) 0 two_blocks (omega arith, refl, λ k h. absurd (omega arith)) refl

register_datanode-records_example :
    Returns
      (λ _ nm'.
        NodesIsValid nm'
        × (3 < 10
            → (nm'.dnlist 2 ≡ some (record { dn_id = 3; ip = host; port = 50062 }))
              × (nm'.safe_mode ≡ false))
        × (10 ≤ 3 → nm' ≡ start)
        × ((j : ℕ) → suc j ≢ 3 → nm'.dnlist j ≡ start.dnlist j))
      (register_datanode (record { datanode_id = 3; datanode_listen_port = 50062 }) host start)
register_datanode-records_example =
    register_datanode-records (record { datanode_id = 3; datanode_listen_port = 50062 }) host start
      start-NodesIsValid (omega arith)

-- Only datanode 2 has registered.
abbrev second_only : Namenode
second_only = record two_nodes {
  dnlist = λ i. if i == 1 then some (node_at 1) else none;
  dncnt = 1;
}

get_system_information-faults_example : get_system_information second_only ≡ fault
get_system_information-faults_example =
    get_system_information-faults second_only 0 (omega arith) refl

abbrev empty_store : Store
empty_store = record { working_directory = host; files = λ _. none }

path_space-fits_example :
    length (get_block_file_path host notes 99) + 1 ≤ path_space (length host) (length notes) 99
path_space-fits_example = path_space-fits host notes 99 (omega arith)

abbrev two_stores : Network
two_stores = record {
  namenode = two_nodes;
  stores = λ ip port. if leb port 50061 then some empty_store else none;
}

abbrev local_file : File
local_file = record { size = 3000; byte = λ a. a }

abbrev first_report : DatanodeStatus
first_report = record { datanode_id = 1; datanode_listen_port = 50060 }

-- The namenode after a heartbeat of datanode 1.
abbrev one_node : Namenode
one_node = record start {
  dnlist = λ j. if j == 0 then some (node_at 0) else none;
  dncnt = 1;
  safe_mode = false;
}

abbrev query : ClientRequest
query = record { file_name = []; file_size = 0; req_type = 2 }

one_node-Reach : Reach one_node
unfolding register_datanode start requests_dispatcher get_system_information copy_nodes count_nodes
one_node-Reach =
    next (next begin (heartbeat first_report host (omega arith) refl)) (request query _ refl refl)

Reach-IsConsistent_example : IsConsistent one_node
Reach-IsConsistent_example = Reach-IsConsistent one_node-Reach
