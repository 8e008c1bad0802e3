-- ===== src/Tests.antt =====
-- Examples: each theorem at concrete data.
pub mod Environment
pub mod Toy
pub mod Storage
pub mod Offsets
pub mod Topics
pub mod Requests
pub mod Servers
pub mod Codec
pub mod Arriving
pub mod Clients
pub mod Commands
pub mod Streams
pub mod Threads
pub mod Schedule
pub mod Listeners
