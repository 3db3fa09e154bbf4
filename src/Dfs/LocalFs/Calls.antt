-- ===== src/Dfs/LocalFs/Calls.antt =====
-- Requests that the datanodes of ext.c and exta2.c can serve.
use class_projects.Base.{ℕ, ◌+◌, ◌<◌, none, some, ◌==◌, if◌then◌else◌, List, [], ◌∷◌}
use class_projects.Base.Names.{Name, length, same_name}
use class_projects.Base.Bytes.{Bytes}
use class_projects.Fs.Strings.{IsText}
use class_projects.Dfs.Types.{BlockRequest}
use class_projects.Dfs.Datanode.{Store, get_block_file_path}

-- The owner's name is a text that fits an inode, and the id has one digit.
pub record IsBlock (filename : Name) (id : ℕ) : Type 0 where
  pub text : IsText filename
  pub short : length filename < 498
  pub digit : id < 10

abbrev pub AreBlocks : List (Bytes × BlockRequest) → Type 0
AreBlocks [] = Unit
AreBlocks ((junk, request) ∷ requests) =
    IsBlock request.owner_name request.block_id × AreBlocks requests

abbrev pub host_path : Store → Name → ℕ → Name
host_path s filename id = get_block_file_path s.working_directory filename id

abbrev pub with_block : Name → ℕ → Bytes → Store → Store
with_block filename id buf s = record s {
  files = λ p. if same_name (host_path s filename id) p then some buf else s.files p;
}

-- The files of the host after a request.
abbrev pub after_request : BlockRequest → Store → Store
after_request request s =
    if request.op_type == 1
    then with_block request.owner_name request.block_id request.content s
    else s

-- How many blocks a write adds.
abbrev pub cost : Name → ℕ → Store → ℕ
cost filename id s = elim (s.files (host_path s filename id)) [ none ↦ 1 | some old ↦ 0 ]

-- How many blocks the requests write that are not there.
abbrev pub new_blocks : List (Bytes × BlockRequest) → Store → ℕ
new_blocks [] s = 0
new_blocks ((junk, request) ∷ requests) s =
    (if request.op_type == 1 then cost request.owner_name request.block_id s else 0)
    + new_blocks requests (after_request request s)
