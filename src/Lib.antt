-- ===== src/Lib.antt =====
-- The C programs of Old/OS: a disk with a write-back cache (pa1), the file system of pa2 and pa3/a2 and
-- a distributed file system (pa3).
--
-- Parts, and the files that model them:
--
-- - Old/OS/pa1/mydisk.c, caching.c, mydisk.h: Disk. The globals of the two C files are the record
--   `Disk`; `mydisk_init`, `mydisk_read_block`, `mydisk_write_block`, `init_cache`, `close_cache`,
--   `create_cached_block`, `mark_dirty` and `find_cached_entry` keep their names. Disk/Stream has
--   `mydisk_read` and `mydisk_write` and the report of latency. Disk/Inv says when the globals are
--   consistent and what byte a reader sees in a block (`view`), cached or not; Find, Insert, Read,
--   Write, Close, Init and Bounds are about the block operations, Stream/ReadBytes and
--   Stream/WriteBytes about those on bytes, Trace about any sequence of reads, writes and restarts of
--   the cache.
-- - Old/OS/pa3/a2/fs.c, fs.h and ext.c (pa2/fs.c is the same text but for sfs_reloadfs): Fs. The globals
--   are the record `Sfs`; a struct that is read from a block is the block's bytes, with its members at
--   their offsets, and Word has the words and their bits. Freemap and Freemap/Alloc are about the blocks
--   in use, Dirs about the list of directories (Dirs/Last, Append and New: a new one; Unlink,
--   Remove and Middle: one that is removed), Image about
--   `sfs_mkfs` and `sfs_rmdir`, Files and Files/Open about descriptors, Files/Room and Create about a new
--   file, Files/Remove about one that is removed, Strings about names. Content has what reads and writes files: Content/Blocks, Span, Rounds,
--   Flat and Kept are about files as sequences of bytes, Fills, Grown, Fresh and New about the growth of
--   a new file, Limits about the end of a file, Past about transfers that start past its first block. The walks along linked blocks have a number `k` of blocks
--   as fuel; more than the list has is enough.
-- - Old/OS/pa2/exta1.c: Fs/Storage, the blocks of that file system on the disk of pa1. Storage/Swap
--   and Storage/Plain are about programs that use them in place of ext.c, with a cache and without one;
--   Plain has the writes of `sfs_mkfs` as such a program.
-- - Old/OS/pa3/include/common/dfs_common.h: Dfs/Types, the structs that the programs exchange.
-- - Old/OS/pa3/namenode/dfs_namenode.c: Dfs/Namenode. The tables `dnlist` and `file_images` are the
--   record `Namenode`; each handler is a function of the same name from a request to the answer that
--   it sends. Nodes is about the table of datanodes, Files and Search about the table of
--   files, Requests about the handlers; Placed, Keeps and Reach are about both tables, over any sequence of heartbeats and
--   requests.
-- - Old/OS/pa3/datanode/dfs_datanode.c and ext.c: Dfs/Datanode, over a local file system that maps a
--   path to content. The two functions of ext.h that it calls are the record `BlockStore`. Paths and
--   Texts are about the path of a block.
-- - Old/OS/pa3/datanode/exta2.c: Dfs/LocalFs, which fills ext.h with the file system of a2. LocalFs/Reads
--   and RoundTrip are about a block that is written for the first time; Owned and Holds say when that
--   file system keeps some blocks, Begin is about a new one, and Fetch, Change and Add about reading,
--   writing again and writing for the first time. Calls, Stores and Refine compare it with ext.c.
-- - Old/OS/pa3/client/dfs_client.c: Dfs/Client, over a network of one namenode and of datanodes by
--   address and port. Push is about what `push_file` leaves, RoundTrip about pulling it back.
-- - The start and the heartbeats of dfs_datanode.c, and how dfs_namenode.c receives them: Dfs/Heartbeat.
--   `atoi` is a parameter.
-- - Old/OS/pa3/common/dfs_common.c: Dfs/Sockets, `send_data` and `receive_data` over any `send` and
--   `recv`. Sockets/Pipe says what is asked of these two calls.
--
-- A command over a state (Base/Run) ends with a result, faults, or runs out of fuel. A fault is what C
-- leaves undefined or an `assert` stops: a null pointer, an index out of bounds, a division by zero, a
-- signed overflow where the code can meet one. The offset of a block is a product without a test, since
-- `mydisk_init` faults for blocks of 2 ^ 31 bytes or more. `Returns P r` says that `r` ended, neither faulted nor short of fuel, with `P`.
--
-- Numbers are natural numbers where the code's ints are not negative; the addresses of `mydisk_read` and
-- `mydisk_write` are integers, with an `int` of 32 bits, since the code tests their sign. Ids of
-- blocks and datanodes, sizes and ports are not negative. A buffer is a function from offsets to
-- bytes (Base/Bytes), so that `buf + p` is the buffer and an offset; `memcpy`, `memset`, `fread` and
-- `fwrite` on a file of bytes are functions of that module. What `malloc` or the stack leaves in a
-- buffer is an argument.
--
-- The loops of `send_data` and `receive_data` have the number of calls as fuel: more calls than bytes
-- are enough where each call passes a byte. The loops of `mydisk_read` and `mydisk_write` have fuel
-- `nbytes + 1`: each round takes a byte; so have those of `sfs_read` and `sfs_write`. The loop of
-- `modify_file` has the length of its buffer. Other loops recurse on their bound.
--
-- Not modelled: the making of sockets and threads, and the interleaving of connections (a request and
-- its answer are one step of the network), the heartbeats' timing, a local disk that fills up, output
-- to the terminal, the test programs, and the Java and Python programs of the repository.
pub mod Base
pub mod Dfs
pub mod Disk
pub mod Fs
