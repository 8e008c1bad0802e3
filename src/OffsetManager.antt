-- ===== src/OffsetManager.antt =====
-- src/offset_manager.rs: the offsets of the consumer groups, and the file that they are saved to.
pub mod Operations
pub mod Keys
pub mod SavedKeys
pub mod RoundTrip
