-- ===== src/Storage.antt =====
-- src/storage: stored records, the trait of the backends, and the two backends.
pub mod Record
pub mod InMemoryLog
pub mod InMemoryQueue
