-- ===== src/KafkaApi.antt =====
-- src/kafka_api/: the requests of the Kafka protocol that the server handles, and that the client
-- builds.
pub mod Messages
pub mod Topics
pub mod Offsets
pub mod Produced
pub mod Committed
pub mod Ends
pub mod Handled
