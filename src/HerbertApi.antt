-- ===== src/HerbertApi.antt =====
-- src/herbert_api/: the requests of herbert's own protocol.
use herbert.Prelude.{Option, Str}

-- src/herbert_api/request.rs
pub data Request (Schema : Type 0) : Type 0 where
  create_topic : (topic : Str) (schema : Option Schema) → Request Schema

-- src/herbert_api/create_topic.rs, which nothing uses.
pub record CreateTopic (Schema : Type 0) : Type 0 where
  pub topic : Str
  pub schema : Option Schema
