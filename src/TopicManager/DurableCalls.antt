-- ===== src/TopicManager/DurableCalls.antt =====
-- src/topic_manager.rs: `new`, `create` and `fetch` keep the file, the buffer and the backend in
-- agreement.
use herbert.Prelude.{Option, Bool-cases, refl, ◌∙◌, inl, inr, [], bytes_eq, Str}
use herbert.Prelude.Int.{ℤ}
use herbert.HashMap.{HashMap, contains_key}
use herbert.Config.{Config}
use herbert.Arrow.{Arrow}
use herbert.BufWriter.{OsFile}
use herbert.Storage.Record.{RecordStorage, ContentsLaws}
use herbert.TopicManager.Operations.{TopicManager, TopicMetadata, create, fetch}
use herbert.TopicManager.Reopened.{initial}
use herbert.TopicManager.Replay.{nothing}
use herbert.TopicManager.Durable.{IsDurable}

module _ {Schema Batch Fault S C : Type 0} (arrow : Arrow Schema Batch Fault)
    (storage : RecordStorage Batch Fault S) (IsHealthy : S → Type 0) (contents : S → C) (start : S)
    (config : Config) where
  abbrev Manager : Type 0
  Manager = TopicManager Schema Batch S

  pub initial-IsDurable :
      (topics : HashMap Str (TopicMetadata Schema))
      → IsHealthy start
      → IsDurable arrow storage IsHealthy contents start config (initial start topics config)
  initial-IsDurable topics h = record {
    wal_live = record { file_live = refl; buffer_live = refl };
    wal_config = refl;
    metadatas_live = refl;
    healthy = h;
    applied = [];
    backend_is = refl;
    log = record { ahead = []; pending = []; in_file = nothing; in_buf = nothing; buffered = refl };
    backlog = inl refl;
  }

  pub create-IsDurable :
      (topic : Str) (schema : Option Schema) (tm : Manager)
      → IsDurable arrow storage IsHealthy contents start config tm
      → IsDurable arrow storage IsHealthy contents start config
          (create {Fault = Fault} topic schema tm).1
  unfolding create
  create-IsDurable topic schema tm d =
      elim (Bool-cases (contains_key topic tm.topic_metadatas.inner)) [
        | inl known ↦ simp (d.metadatas_live, known) d
        | inr unknown ↦
            simp (d.metadatas_live, unknown)
              (record {
                wal_live = d.wal_live;
                wal_config = d.wal_config;
                metadatas_live = refl;
                healthy = d.healthy;
                applied = d.applied;
                backend_is = d.backend_is;
                log = d.log;
                backlog = d.backlog;
              })
      ]

  pub fetch-IsDurable :
      (os : OsFile)
      → ContentsLaws storage IsHealthy contents
      → (topic : Str) (offset : ℤ) (tm : Manager)
      → IsDurable arrow storage IsHealthy contents start config tm
      → IsDurable arrow storage IsHealthy contents start config
          (fetch arrow os storage topic offset tm).1
  unfolding fetch
  fetch-IsDurable os same topic offset tm d = record {
    wal_live = d.wal_live;
    wal_config = d.wal_config;
    metadatas_live = d.metadatas_live;
    healthy = same.fetch-IsHealthy topic offset tm.backend d.healthy;
    applied = d.applied;
    backend_is = same.fetch_same topic offset tm.backend d.healthy ∙ d.backend_is;
    log = d.log;
    backlog = d.backlog;
  }
