-- ===== src/Dfs/LocalFs/Tests.antt =====
-- A run of the datanode of exta2.c on a file system with the directory "/" in block 2 and no file.
use class_projects.Base.{
  List, ◌<◌, ℕ, ◌+◌, ◌*◌, ◌≡◌, refl, Option, none, some, [], ◌∷◌, arith, ◌==◌, if◌then◌else◌,
}
use class_projects.Base.Names.{Name, same_name}
use class_projects.Base.Bytes.{Bytes, File, copy}
use class_projects.Base.Run.{Returns, and_then}
use class_projects.Fs.Word.{get_u32, put_u32, put_u32-IsBytes}
use class_projects.Fs.{Sfs, FdStruct, dir_inode, same_string, read_sb}
use class_projects.Fs.Files.{free_fd, sfs_open}
use class_projects.Fs.Content.Fills.{IsFree}
use class_projects.Fs.Dirs.{IsChain, first_named}
use class_projects.Fs.Image.{read_sb-IsMounted, new_map-used}
use class_projects.Fs.Files.Room.{Created}
use class_projects.Fs.Files.Create.{sfs_open-new}
use class_projects.Fs.Content.Blocks.{raw}
use class_projects.Dfs.Types.{dfs_block_size}
use class_projects.Dfs.Types.{BlockRequest}
use class_projects.Dfs.Datanode.{
  block_path_overflows, path_space, get_block_file_path, decimal, decimal_loop, ext_read_block,
  ext_write_block, read_block, create_block, requests_dispatcher, main_loop,
}
use class_projects.Dfs.LocalFs.Calls.{IsBlock, with_block}
use class_projects.Dfs.LocalFs.Refine.{no_blocks, main_loop-local_files}
use class_projects.Dfs.LocalFs.{Junk, local_init_fs, local_files, slash}
use class_projects.Dfs.LocalFs.Reads.{IsReady}

abbrev zeros : Bytes
zeros = λ _. 0

abbrev sevens : Bytes
sevens = λ _. 7

abbrev image : File
image = record {
  size = 524800;
  byte = λ x. if x == 8 then 1 else if x == 12 then 2 else if x == 1028 then 47 else 0;
}

abbrev closed_file : FdStruct
closed_file = record { inode = zeros; inode_bid = 0; dir_bid = 0; cur = 0; valid = 0 }

abbrev local_fs : Sfs
local_fs = record {
  fh = image;
  sb = zeros;
  freemap = put_u32 0 3 (λ _. 0);
  freemap_words = 128;
  fdtable = λ _. closed_file;
}

abbrev notes : Name
notes = b'n' ∷ b'o' ∷ b't' ∷ b'e' ∷ b's' ∷ []

abbrev counting : Bytes
counting i = i * 3 + 1

abbrev junk : Junk
junk = record {
  new_dir = sevens;
  dir = sevens;
  inode = sevens;
  frame = sevens;
  tmp = sevens;
  bids = sevens;
}

local_fs-IsFree : IsFree local_fs 2 1
local_fs-IsFree = (omega arith, (λ j h h'. let u = new_map-used j in ground arith))

no_file : (j : ℕ) → dir_inode (raw image 2) j ≡ 0
unfolding get_u32
no_file j = ground arith

local_fs-IsReady : (name : Name) → IsReady local_fs 2 0 2 name
unfolding get_u32 IsChain same_string
local_fs-IsReady name = record {
  formatted = record {
    inside = omega arith;
    bytes = put_u32-IsBytes 0 3 (λ _. 0) (λ i. omega arith);
    words = refl;
    blocks = refl;
  };
  dirs = (omega arith, (refl, (λ e. omega arith), omega arith, refl));
  is_slash = refl;
  room = record {
    small = omega arith;
    dir_whole = omega arith;
    dir_behind = omega arith;
    dir_used = new_map-used 1;
    place = omega arith;
    vacant = no_file 0;
    before = λ j h. absurd (omega arith);
    others = λ j h ne. absurd (ne (no_file j));
    inodes = λ j h ne. absurd (ne (no_file j));
  };
  no_open = refl;
  free = (omega arith, (λ j h h'. let u = new_map-used j in ground arith));
  full = new_map-used 0;
  inside = omega arith;
}

sfs_open-new_example :
    Returns
      (λ r fs'. (r ≡ some 0) × (q : ℕ) × Created 0 2 0 q 2 notes (read_sb local_fs) fs')
      (sfs_open 2 sevens sevens slash notes local_fs)
unfolding get_u32 IsChain same_string first_named free_fd
sfs_open-new_example =
    sfs_open-new 2 0 2 0 2 (2 ∷ []) sevens sevens slash notes local_fs (omega arith) (omega arith)
      (local_fs-IsReady notes).dirs (omega arith) refl (local_fs-IsReady notes).room refl
      (read_sb-IsMounted local_fs (local_fs-IsReady notes).formatted) local_fs-IsFree
      (new_map-used 0) (omega arith)

abbrev to_notes : ℕ → ℕ → Bytes → BlockRequest
to_notes op id content = record {
  op_type = op;
  owner_name = notes;
  block_id = id;
  content = content;
}

-- A block is written, another one, the first one again, and both are read.
abbrev some_requests : List (Bytes × BlockRequest)
some_requests =
    (zeros, to_notes 1 4 counting)
    ∷ (zeros, to_notes 1 5 sevens)
    ∷ (zeros, to_notes 1 4 zeros)
    ∷ (sevens, to_notes 0 4 counting)
    ∷ (zeros, to_notes 0 5 counting)
    ∷ []

-- A block in the buffer on the stack, and then in the answer.
abbrev some_answer : ℕ → Bytes → Bytes → Option BlockRequest
some_answer id stack content =
    some (to_notes 0 id (copy dfs_block_size counting 0 (copy dfs_block_size stack 0 content 0) 0))

abbrev some_answers : List (Option BlockRequest)
some_answers = none ∷ none ∷ none ∷ some_answer 4 sevens zeros ∷ some_answer 5 zeros sevens ∷ []

notes-IsBlock : (id : ℕ) → id < 10 → IsBlock notes id
notes-IsBlock id lt = record {
  text = (
    (λ e. omega (arith, e)),
    (
      (λ e. omega (arith, e)),
      ((λ e. omega (arith, e)), ((λ e. omega (arith, e)), ((λ e. omega (arith, e)), tt))),
    ),
  );
  short = omega arith;
  digit = lt;
}

main_loop-local_files_example :
    Returns
      (λ answers' _. answers' ≡ some_answers)
      (and_then
        (local_init_fs local_fs)
        (λ _ fs'. main_loop (λ j. local_files 2 junk) 0 some_requests fs'))
unfolding main_loop requests_dispatcher read_block create_block ext_write_block ext_read_block
    block_path_overflows path_space get_block_file_path decimal decimal_loop same_name
main_loop-local_files_example =
    main_loop-local_files 2 (λ _. junk) some_requests local_fs [] some_answers
      (with_block notes 4 zeros
        (with_block notes 5 sevens (with_block notes 4 counting (no_blocks []))))
      (omega arith)
      (
        notes-IsBlock 4 (omega arith),
        (
          notes-IsBlock 5 (omega arith),
          (
            notes-IsBlock 4 (omega arith),
            (notes-IsBlock 4 (omega arith), (notes-IsBlock 5 (omega arith), tt)),
          ),
        ),
      )
      (omega arith) refl
