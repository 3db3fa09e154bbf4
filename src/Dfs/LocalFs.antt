-- ===== src/Dfs/LocalFs.antt =====
-- datanode/exta2.c: a datanode that keeps each block in a file of the file system of a2/fs.c, in place
-- of ext.c.
pub mod Reads
pub mod Owned
pub mod Holds
pub mod Fetch
pub mod Change
pub mod Add
pub mod Begin
pub mod Calls
pub mod Stores
pub mod Refine
pub mod RoundTrip
mod Tests
use class_projects.Base.{
  ℕ, ◌+◌, Bool, true, false, Option, none, some, [], ◌∷◌, ◌++◌, ltb, if◌then◌else◌,
}
use class_projects.Base.Names.{Name, length}
use class_projects.Base.Bytes.{Bytes, empty_file}
use class_projects.Base.Run.{Cmd, done, fault, and_then}
use class_projects.Dfs.Types.{dfs_block_size}
use class_projects.Dfs.Datanode.{infix_blk, decimal, BlockStore}
use class_projects.Fs.{Sfs, sfs_mkfs, sfs_mkdir, sfs_print_info}
use class_projects.Fs.Files.{sfs_open, sfs_close}
use class_projects.Fs.Content.{sfs_write, sfs_read}

-- sprintf(path, "%s_blk_%d", filename, block_id)
pub local_block_path : Name → ℕ → Name
local_block_path filename id = filename ++ (infix_blk ++ decimal id)

-- The directory that the datanode uses: "/".
abbrev pub slash : Name
slash = b'/' ∷ []

-- What `malloc` and the stacks of the functions of fs.c leave in their buffers.
pub record Junk : Type 0 where
  pub new_dir : Bytes
  pub dir : Bytes
  pub inode : Bytes
  pub frame : Bytes
  pub tmp : Bytes
  pub bids : ℕ → ℕ

-- The path is written in `strlen(filename) + 7` bytes: a longer one runs past them.
abbrev pub path_overflows : Name → ℕ → Bool
path_overflows filename id = ltb (length filename + 7) (length (local_block_path filename id) + 1)

-- A descriptor of -1 is an entry in front of the table.
abbrev pub with_fd : {A : Type 0} → Option ℕ → (ℕ → Cmd Sfs A) → Cmd Sfs A
with_fd none next fs = fault
with_fd (some fd) next fs = next fd fs

-- `ext_read_block`: the buffer afterwards. `k` bounds the directories.
unfoldable pub local_read_block : ℕ → Junk → Name → ℕ → Bytes → Cmd Sfs Bytes
local_read_block k junk filename id buf fs =
    if path_overflows filename id
    then fault
    else and_then (sfs_open k junk.dir junk.inode slash (local_block_path filename id) fs) (λ r fs1.
      with_fd r
        (λ fd fs'.
          and_then (sfs_read junk.frame junk.tmp junk.bids fd buf dfs_block_size fs')
            (λ got fs2. and_then (sfs_close fd fs2) (λ _ fs3. done got.1 fs3)))
        fs1)

-- What `ext_write_block` does to its file once the directory is there, without what it prints.
abbrev pub write_path : ℕ → Junk → Name → Bytes → Cmd Sfs (Unit {0})
write_path k junk path buf fs = and_then (sfs_open k junk.dir junk.inode slash path fs) (λ r fs1.
    with_fd r
      (λ fd fs'.
        and_then (sfs_write k junk.frame junk.tmp junk.bids fd buf dfs_block_size fs')
          (λ _ fs2. and_then (sfs_print_info fs2) (λ _ fs3. sfs_close fd fs3)))
      fs1)

-- `ext_write_block`. `k` bounds the directories and the frames.
unfoldable pub local_write_block : ℕ → Junk → Name → ℕ → Bytes → Cmd Sfs (Unit {0})
local_write_block k junk filename id buf fs =
    if path_overflows filename id
    then fault
    else and_then (sfs_mkdir k junk.new_dir slash fs)
        (λ _ fs0. write_path k junk (local_block_path filename id) buf fs0)

-- ext.h, as exta2.c fills it.
abbrev pub local_files : ℕ → Junk → BlockStore Sfs
local_files k junk = record {
  ext_read = local_read_block k junk;
  ext_write = local_write_block k junk;
}

-- `ext_init_local_fs`: `fopen` with "w+b" leaves an empty file.
unfoldable pub local_init_fs : Cmd Sfs (Unit {0})
local_init_fs fs = sfs_mkfs (record fs { fh = empty_file })
