-- ===== src/Server.antt =====
-- The server's side of the replication: what it keeps for one client, and the frames it shares.
pub mod NetworkIds
pub mod Frames
pub mod Entities
pub mod DirtyQueue
pub mod Destroys
pub mod PacketAcks
pub mod ClientAcks
pub mod Replicator
pub mod InputBuffer
