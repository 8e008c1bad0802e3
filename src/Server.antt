-- ===== src/Server.antt =====
-- src/server.rs: the start of the server, the handling of a message and the connections.
pub mod Start
pub mod Resume
pub mod Dispatch
pub mod Connection
pub mod Listeners
pub mod Loop
pub mod Messages
pub mod Restarts
pub mod Runs
pub mod Torn
pub mod Ends
