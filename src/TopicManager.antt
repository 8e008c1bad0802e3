-- ===== src/TopicManager.antt =====
-- src/topic_manager.rs: the topics, their schemas, the write-ahead log and the backend.
pub mod Operations
pub mod Recovery
pub mod RoundTrip
pub mod Replay
pub mod Cuts
pub mod Torn
pub mod Threads
pub mod Interleaving
pub mod Race
pub mod Logging
pub mod Durable
pub mod Reopened
pub mod DurableCalls
pub mod Restart
pub mod Schemas
pub mod Stores
pub mod Keeps
pub mod Defaults
pub mod Ends
pub mod Answers
