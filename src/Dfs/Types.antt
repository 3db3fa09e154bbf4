-- ===== src/Dfs/Types.antt =====
-- include/common/dfs_common.h: what the three programs share. A name, an address and a block's content
-- are the values that the programs copy; names are compared up to their NUL by `strcmp`, so a name is
-- its text.
use class_projects.Base.Names.{Name}
use class_projects.Base.{ℕ, Option}
use class_projects.Base.Bytes.{Bytes}

abbrev pub max_file_count : ℕ
max_file_count = 1000

abbrev pub max_datanode_num : ℕ
max_datanode_num = 10

abbrev pub max_file_blk_count : ℕ
max_file_blk_count = 100

abbrev pub dfs_block_size : ℕ
dfs_block_size = 1024

-- `dfs_cm_datanode_status_t`
pub record DatanodeStatus : Type 0 where
  pub datanode_id : ℕ
  pub datanode_listen_port : ℕ

-- `dfs_datanode_t`; nothing reads `live_marks`.
pub record Datanode : Type 0 where
  pub dn_id : ℕ
  pub ip : Name
  pub port : ℕ

-- `dfs_cm_block_t` without its content, which the namenode keeps zero.
pub record BlockInfo : Type 0 where
  pub owner_name : Name
  pub dn_id : ℕ
  pub block_id : ℕ
  pub loc_ip : Name
  pub loc_port : ℕ

-- `dfs_cm_file_t`; `block_list` has 100 places, indexed from 0.
pub record FileImage : Type 0 where
  pub filename : Name
  pub block_list : ℕ → BlockInfo
  pub file_size : ℕ
  pub blocknum : ℕ

-- `dfs_cm_client_req_t`
pub record ClientRequest : Type 0 where
  pub file_name : Name
  pub file_size : ℕ
  pub req_type : ℕ

-- `dfs_system_status`
pub record SystemStatus : Type 0 where
  pub datanode_num : ℕ
  pub datanodes : ℕ → Option Datanode

-- `dfs_cli_dn_req_t`: the operation, 0 to read and 1 to create, and a block with its content.
pub record BlockRequest : Type 0 where
  pub op_type : ℕ
  pub owner_name : Name
  pub block_id : ℕ
  pub content : Bytes
