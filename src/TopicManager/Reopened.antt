-- ===== src/TopicManager/Reopened.antt =====
-- src/topic_manager.rs: the manager that `new` builds over a file.
use herbert.Prelude.{◌≡◌, refl, inr, [], Bytes, Str}
use herbert.HashMap.{HashMap}
use herbert.Outcome.{ok, fresh}
use herbert.Config.{Config}
use herbert.Wal.Operations as Wal
use herbert.Wal.Operations.{WriteAheadLog}
use herbert.TopicManager.Operations.{TopicManager, TopicMetadata, new}

module _ {Schema Batch S : Type 0} where
  -- The manager that `new` builds over a file with these bytes.
  abbrev pub reopened :
      S → HashMap Str (TopicMetadata Schema) → Config → Bytes → TopicManager Schema Batch S
  reopened backend topics config bytes = record {
    backend = backend;
    topic_metadatas = fresh topics;
    wal = record {
      file = fresh (record { file = bytes; buf = [] });
      buffer = fresh [];
      config = config;
    };
    config = config;
  }

  abbrev pub initial : S → HashMap Str (TopicMetadata Schema) → Config → TopicManager Schema Batch S
  initial backend topics config = reopened backend topics config []

  pub new-reopened :
      (Fault : Type 0) (backend : S) (topics : HashMap Str (TopicMetadata Schema)) (config : Config)
      (bytes : Bytes)
      → new {Fault = Fault} backend (fresh topics) config (inr bytes)
        ≡ ok (reopened backend topics config bytes)
  unfolding new Wal.new
  new-reopened Fault backend topics config bytes = refl
