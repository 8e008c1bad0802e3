-- ===== src/Client.antt =====
-- src/client.rs: what a producer and a consumer send to the server, and what they make of the
-- answers.
pub mod Stream
pub mod Requests
pub mod Consume
pub mod Split
pub mod Wire
pub mod Responses
pub mod Asking
pub mod Fetching
pub mod Committing
pub mod Progress
pub mod RawTopic
pub mod CatchUp
pub mod Create
pub mod Stored
