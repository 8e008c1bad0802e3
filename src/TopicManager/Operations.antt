-- ===== src/TopicManager/Operations.antt =====
-- src/topic_manager.rs: `TopicManager::create`, `exists`, `add`, `fetch` and what they call.
use herbert.Prelude.{
  Bool, true, not, ◌&&◌, Option, none, some, List, [], ◌∷◌, ◌++◌, ◌⊎◌, ltb, if◌then◌else◌, length,
  take, bytes_eq, bytes_beq, Bytes, Str, codes, decimal,
}
use herbert.Prelude.Int.{ℤ}
use herbert.HashMap.{HashMap, lookup, insert, contains_key}
use herbert.Outcome.{
  IoError, Outcome, ok, err, panic, poison_error, invalid_arrow_ipc, schema_error,
  topic_already_exists, Method, and_then, Lock, ◌>>=◌,
}
use herbert.Config.{Config}
use herbert.Arrow.{Arrow, from_arrow, continuation}
use herbert.Storage.Record.{StoredRecord, raw, batch, RecordStorage}
use herbert.BufWriter.{OsFile}
use herbert.Wal.Operations as Wal
use herbert.Wal.Operations.{WriteAheadLog}

pub record TopicMetadata (Schema : Type 0) : Type 0 where
  pub name : Str
  pub schema : Option Schema

abbrev pub new_metadata : {Schema : Type 0} → Str → Option Schema → TopicMetadata Schema
new_metadata name schema = record { name = name; schema = schema }

pub record TopicManager (Schema Batch S : Type 0) : Type 0 where
  pub backend : S
  pub topic_metadatas : Lock (HashMap Str (TopicMetadata Schema))
  pub wal : WriteAheadLog Batch
  pub config : Config

module _ {Schema Batch Fault S : Type 0} where
  -- `WriteAheadLog::new(config).expect(..)`: a file that cannot be opened is a panic.
  abbrev expect_wal :
      Outcome Fault (WriteAheadLog Batch)
      → (WriteAheadLog Batch → TopicManager Schema Batch S)
      → Outcome Fault (TopicManager Schema Batch S)
  expect_wal (ok wal) f = ok (f wal)
  expect_wal _ f = panic

  -- `opened` is what opening `config.wal_path` gives.
  unfoldable pub new :
      S
      → Lock (HashMap Str (TopicMetadata Schema))
      → Config
      → IoError ⊎ Bytes
      → Outcome Fault (TopicManager Schema Batch S)
  new backend topics config opened =
      expect_wal (Wal.new config opened)
        (λ wal. record { backend = backend; topic_metadatas = topics; wal = wal; config = config })

  unfoldable pub with_config :
      TopicManager Schema Batch S
      → Config
      → IoError ⊎ Bytes
      → Outcome Fault (TopicManager Schema Batch S)
  with_config tm config opened =
      expect_wal (Wal.new config opened) (λ wal. record tm { wal = wal; config = config })

  unfoldable pub exists : Str → TopicManager Schema Batch S → Outcome Fault Bool
  exists topic tm =
      if tm.topic_metadatas.poisoned
      then err poison_error
      else ok (contains_key topic tm.topic_metadatas.inner)

  unfoldable pub create : Str → Option Schema → Method Fault (TopicManager Schema Batch S) Unit
  create topic schema tm =
      let metadatas = tm.topic_metadatas in
      if metadatas.poisoned
      then (err poison_error, tm)
      else if contains_key topic metadatas.inner
      then (err (topic_already_exists topic), tm)
      else (
        ok tt,
        record tm {
          topic_metadatas = record metadatas {
            inner = insert topic (new_metadata topic schema) metadatas.inner;
          };
        },
      )

module _ {Schema Batch Fault : Type 0} (arrow : Arrow Schema Batch Fault) where
  -- The batch that `reader.next()` yields first, checked against the schema of the topic.
  unfoldable pub first_batch : Schema → List (Fault ⊎ Batch) → Outcome Fault Batch
  first_batch expected [] = err (invalid_arrow_ipc (codes "no record batch found"))
  first_batch expected (item ∷ _) = do
    b ← from_arrow item
    if arrow.schema_beq (arrow.schema b) expected
        then ok b
        else err (schema_error (arrow.schema_debug (arrow.schema b)) (arrow.schema_debug expected))

  unfoldable pub parse_record_batch_from_bytes : Bytes → Schema → Outcome Fault Batch
  parse_record_batch_from_bytes bytes expected_schema =
      if ltb (length bytes) 8
      then err (
          invalid_arrow_ipc
            (codes "record len " ++ (decimal (length bytes) ++ codes " smaller than 8")))
      else if not (bytes_beq (take 6 bytes) (codes "ARROW1"))
          && not (bytes_beq (take 4 bytes) continuation)
      then err (invalid_arrow_ipc (codes "missing magic bytes"))
      else do items ← from_arrow (arrow.read_stream bytes); first_batch expected_schema items

  -- How `add` stores a record: as a batch if the topic has a schema, and as it is otherwise.
  unfoldable pub stored_record :
      Option (TopicMetadata Schema) → Bytes → Outcome Fault (StoredRecord Batch)
  stored_record none bytes = ok (raw bytes)
  stored_record (some metadata) bytes = elim metadata.schema [
    | none ↦ ok (raw bytes)
    | some schema ↦ do b ← parse_record_batch_from_bytes bytes schema; ok (batch b)
  ]

  module _ (os : OsFile) {S : Type 0} (storage : RecordStorage Batch Fault S) where
    abbrev Manager : Type 0
    Manager = TopicManager Schema Batch S

    -- `self.wal.add(topic, stored_record)`
    unfoldable pub wal_add : Str → StoredRecord Batch → Method Fault Manager Unit
    wal_add topic r tm =
        let (done, wal) = Wal.add arrow os topic r tm.wal in (done, record tm { wal = wal })

    -- `self.wal.flush(&self.backend)`
    unfoldable pub wal_flush : Method Fault Manager Unit
    wal_flush tm =
        let (done, (wal, backend)) = Wal.flush arrow os storage (tm.wal, tm.backend) in
        (done, record tm { wal = wal; backend = backend })

    -- `if let Ok(true) = self.wal.need_to_flush() { .. }`
    unfoldable pub flush_if : Outcome Fault Bool → Method Fault Manager Unit
    flush_if (ok true) tm = wal_flush tm
    flush_if _ tm = (ok tt, tm)

    unfoldable pub add : Str → Bytes → Method Fault Manager Unit
    add topic bytes tm =
        let metadatas = tm.topic_metadatas in
        if metadatas.poisoned
        then (err poison_error, tm)
        else and_then (stored_record (lookup topic metadatas.inner) bytes, tm)
            (λ r tm. and_then (wal_add topic r tm) (λ _ tm. flush_if (Wal.need_to_flush tm.wal) tm))

    unfoldable pub fetch : Str → ℤ → Method Fault Manager Bytes
    fetch topic fetch_offset tm =
        let (found, backend) = storage.fetch topic fetch_offset tm.backend in
        (found, record tm { backend = backend })
