-- ===== src/Dfs/Client/RoundTrip.antt =====
-- A file that was pushed is pulled back.
use class_projects.Base.{ℕ, ◌*◌, ◌≤◌, ◌<◌, ◌≡◌, some}
use class_projects.Base.Names.{Name}
use class_projects.Base.Bytes.{Bytes, File}
use class_projects.Base.Run.{Run, done}
use class_projects.Dfs.Types.{
  dfs_block_size, max_file_blk_count, Datanode, FileImage, ClientRequest,
}
use class_projects.Dfs.Namenode.{Namenode, get_file_location}
use class_projects.Dfs.Namenode.Requests.{Covers}
use class_projects.Dfs.Datanode.{Store}
use class_projects.Dfs.Client.{Network}
use class_projects.Dfs.Client.Push.{IsServed, HoldsFile}

-- `g` has the first `n` blocks of the local file.
record IsPulled (local : File) (n : ℕ) (g : File) : Type 0 where
  size : g.size ≡ n * dfs_block_size
  bytes : (a : ℕ) → a < n * dfs_block_size → a < local.size → g.byte a ≡ local.byte a

-- Every registered datanode listens at its address.
abbrev pub IsUp : Network → Type 0
IsUp net =
    (i : ℕ) (n : Datanode)
    → net.namenode.dnlist i ≡ some n
    → (s : Store) × (net.stores n.ip n.port ≡ some s)

module _ (junk : Bytes) (unset : ℕ) (name : Name) (local : File) (net : Network) where
  abbrev read_back : ClientRequest
  read_back = record { file_name = name; file_size = unset; req_type = 0 }

  -- After a push: the namenode lists the file, and the datanodes hold it.
  abbrev Pushed : File → Network → Type 0
  Pushed _ net2 =
      (f : FileImage) × (get_file_location read_back net2.namenode ≡ done (some f) net2.namenode)
      × (f.blocknum ≤ max_file_blk_count)
      × Covers f.blocknum local.size
      × IsServed net2 name f f.blocknum
      × HoldsFile net2 local f f.blocknum
