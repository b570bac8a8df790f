-- ===== src/Handlers.antt =====
-- The handlers of the device families: what one frame of an authenticated or new connection does.
pub mod Common
pub mod Teltonika
pub mod Gps103
pub mod Gt06
