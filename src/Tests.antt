-- ===== src/Tests.antt =====
-- Each theorem that has conditions, applied to a small gateway.
mod Fixtures
mod Streams
mod Devices
mod Packets
mod Connections
mod Orders
mod Texts
mod Requests
mod Rows
mod Replies
