-- ===== src/Framing.antt =====
-- The framers: how a TCP stream buffer is split into the frames of each device family.
pub mod Splitter
pub mod Chunks
pub mod Pieces
pub mod Gt06
pub mod Teltonika
pub mod Gps103
pub mod Streams
pub mod Sealed
