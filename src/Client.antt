-- ===== src/Client.antt =====
-- The parts of the client (src/client).
pub mod PayloadRing
pub mod FrameRings
pub mod AckQueue
pub mod InputBuffer
