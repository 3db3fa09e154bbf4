-- ===== src/Dfs/Datanode.antt =====
-- datanode/dfs_datanode.c and datanode/ext.c: a datanode keeps each block in a file of its local file
-- system, named after the owner and the id.
pub mod Paths
pub mod Texts
use class_projects.Base.{
  ℕ, zero, suc, ◌+◌, ◌*◌, ◌/◌, ◌%◌, Bool, true, false, Option, none, some, List, [], ◌∷◌, ◌++◌, ltb,
  ◌==◌, if◌then◌else◌,
}
use class_projects.Base.Names.{Name, length, same_name}
use class_projects.Base.Bytes.{Bytes, copy}
use class_projects.Base.Run.{Cmd, done, fault, and_then}
use class_projects.Dfs.Types.{dfs_block_size, BlockRequest}

-- The working directory, and the files of the local file system by path.
pub record Store : Type 0 where
  pub working_directory : Name
  pub files : Name → Option Bytes

-- "%d" of a number; `k` bounds the digits.
unfoldable pub decimal_loop : ℕ → ℕ → Name
decimal_loop zero n = []
decimal_loop (suc k) n =
    if ltb n 10 then (48 + n) ∷ [] else decimal_loop k (n / 10) ++ ((48 + n % 10) ∷ [])

unfoldable pub decimal : ℕ → Name
decimal n = decimal_loop (suc n) n

-- "_blk_"
abbrev pub infix_blk : Name
infix_blk = b'_' ∷ b'b' ∷ b'l' ∷ b'k' ∷ b'_' ∷ []

-- sprintf(path, "%s%s_blk_%d", working_directory, filename, block_id)
unfoldable pub get_block_file_path : Name → Name → ℕ → Name
get_block_file_path wd filename id = wd ++ (filename ++ (infix_blk ++ decimal id))

-- The bytes that `ext_read_block` and `ext_write_block` allocate for the path.
unfoldable pub path_space : ℕ → ℕ → ℕ → ℕ
path_space wd filename id = wd + filename + (if id / 10 == 0 then 1 else 2) + 7

-- Whether the path of a block, with its NUL, runs past the bytes allocated for it.
unfoldable pub block_path_overflows : Name → Name → ℕ → Bool
block_path_overflows wd filename id =
    ltb (path_space (length wd) (length filename) id)
      (length (get_block_file_path wd filename id) + 1)

-- A block that was never written has no file: `fread` is given a null pointer.
unfoldable pub ext_read_block : Name → ℕ → Bytes → Cmd Store Bytes
ext_read_block filename id buf s =
    if block_path_overflows s.working_directory filename id
    then fault
    else elim (s.files (get_block_file_path s.working_directory filename id)) [
      | none ↦ fault
      | some content ↦ done (copy dfs_block_size buf 0 content 0) s
    ]

unfoldable pub ext_write_block : Name → ℕ → Bytes → Cmd Store (Unit {0})
ext_write_block filename id buf s =
    let path = get_block_file_path s.working_directory filename id in
    if block_path_overflows s.working_directory filename id
    then fault
    else done tt (record s { files = λ p. if same_name path p then some buf else s.files p })

-- ext.h: how a datanode keeps its blocks. ext.c fills it here, and exta2.c in LocalFs.
pub record BlockStore (S : Type 0) : Type 0 where
  pub ext_read : Name → ℕ → Bytes → Cmd S Bytes
  pub ext_write : Name → ℕ → Bytes → Cmd S (Unit {0})

abbrev pub host_files : BlockStore Store
host_files = record { ext_read = ext_read_block; ext_write = ext_write_block }

module _ {S : Type 0} where
  -- The answer to a request: a block for operation 0, none else. `junk` is the buffer on the stack.
  unfoldable pub read_block : BlockStore S → Bytes → BlockRequest → Cmd S (Option BlockRequest)
  read_block files junk request s =
      and_then (files.ext_read request.owner_name request.block_id junk s) (λ buffer s'.
        done (some (record request { content = copy dfs_block_size request.content 0 buffer 0 }))
          s')

  unfoldable pub create_block : BlockStore S → BlockRequest → Cmd S (Option BlockRequest)
  create_block files request s =
      and_then (files.ext_write request.owner_name request.block_id request.content s)
        (λ _ s'. done none s')

  unfoldable pub requests_dispatcher :
      BlockStore S → Bytes → BlockRequest → Cmd S (Option BlockRequest)
  unfolding read_block create_block
  requests_dispatcher files junk request s =
      if request.op_type == 0
      then read_block files junk request s
      else if request.op_type == 1
      then create_block files request s
      else done none s

  -- Rounds of `mainLoop`: the requests of the clients in the order in which they are accepted, each with
  -- the buffer on the stack, and the answers. `files i` is the store with the buffers of round `i`.
  unfoldable pub main_loop :
      (ℕ → BlockStore S) → ℕ → List (Bytes × BlockRequest) → Cmd S (List (Option BlockRequest))
  main_loop files i [] s = done [] s
  main_loop files i ((junk, request) ∷ rest) s =
      and_then (requests_dispatcher (files i) junk request s) (λ answer s1.
        and_then (main_loop files (i + 1) rest s1) (λ answers s2. done (answer ∷ answers) s2))
