-- ===== src/Dfs.antt =====
-- Old/OS/pa3: a distributed file system. A namenode assigns the blocks of files to datanodes, which
-- keep them; a client pushes and pulls files.
pub mod Types
pub mod Sockets
pub mod Heartbeat
pub mod LocalFs
pub mod Namenode
pub mod Datanode
pub mod Client
mod Tests
