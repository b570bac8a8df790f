-- ===== src/Parsers.antt =====
-- The parsers of the device families.
pub mod Teltonika
pub mod Calendar
pub mod Gps103
pub mod Replies
pub mod V5
