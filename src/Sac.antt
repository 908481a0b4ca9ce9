-- ===== src/Sac.antt =====
-- sac_server/src: the file system server. Path names and the table of nodes (sac_operate.c),
-- directories (sac_write.c), the calls of FUSE that read (sac_read.c), and the requests
-- of a client (sac_server.c). Texts are lists of bytes
-- without their final zero, and an access outside an object is a fault. Log lines are left out.
pub mod Paths
pub mod Nodes
pub mod Read
pub mod Connection
pub mod Server
mod Examples
