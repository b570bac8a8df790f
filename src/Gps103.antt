-- ===== src/Gps103.antt =====
-- What the gateway asks of GPS103 devices.
pub mod Commands
pub mod Poller
pub mod Polling
