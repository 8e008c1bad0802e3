-- ===== src/KafkaApi/Produced.antt =====
-- src/kafka_api/produce.rs and src/kafka_api/fetch.rs: what is produced is stored, and what is
-- stored is fetched.
use herbert.Prelude.{◌≡◌, refl, none, some, ◌⊎◌, inl, inr, List, [], ◌∷◌, bytes_eq, Bytes, Str}
use herbert.Prelude.Int.{ℤ}
use herbert.Arrow.{Arrow}
use herbert.BufWriter.{OsFile, TakesAll}
use herbert.Storage.Record.{raw, RecordStorage, StorageLaws}
use herbert.TopicManager.Operations.{TopicManager}
use herbert.TopicManager.Stores.{IsFlushed, HasNoSchema, HasStored, add-HasNoSchema}
use herbert.KafkaApi.Messages.{PartitionProduceData, TopicProduceData, ProduceRequest, Decode}
use herbert.KafkaApi.Topics.{
  create_topic_produce_data, create_produce_request, handle_partition, handle_topic_data,
  handle_produce_request,
}

module _ {Schema Batch Fault S : Type 0} (arrow : Arrow Schema Batch Fault) (os : OsFile)
    (storage : RecordStorage Batch Fault S) where
  abbrev pub Manager : Type 0
  Manager = TopicManager Schema Batch S

  -- A produce request that lacks what the handler reads.
  abbrev Lacks : List TopicProduceData → Type 0
  Lacks topic_data =
      (topic_data ≡ [])
      ⊎ ((name : Str) × (rest : List TopicProduceData) × (topic_data
            ≡ record { name = name; partition_data = [] } ∷ rest))
      ⊎ ((name : Str) × (ps : List PartitionProduceData) × (rest : List TopicProduceData)
          × (topic_data
              ≡ record { name = name; partition_data = record { records = none } ∷ ps } ∷ rest))

  -- A request that lacks a topic, a partition or its records changes nothing: not the log, not the
  -- backend.
  handle_topic_data-Lacks :
      (topic_data : List TopicProduceData) (tm : Manager)
      → Lacks topic_data
      → (handle_topic_data arrow os storage topic_data tm).1 ≡ tm
  unfolding handle_topic_data handle_partition
  handle_topic_data-Lacks topic_data tm (inl e) = rw (e, handle_topic_data) refl
  handle_topic_data-Lacks topic_data tm (inr (inl (name, rest, e))) = rw (e, handle_topic_data) refl
  handle_topic_data-Lacks topic_data tm (inr (inr (name, ps, rest, e))) =
      rw (e, handle_topic_data) refl

  -- A producer that asks for a topic with no schema, known or not, is answered once the backend has
  -- the record, raw, and no record waits: where at most one message may stay uncommitted and none
  -- did, the disk takes every write, the backend takes every record, no lock is poisoned, and the
  -- request decodes to what the producer built.
  pub handle_produce_request-HasStored :
      {IsHealthy : S → Type 0} (laws : StorageLaws storage IsHealthy) (takes : TakesAll os)
      (decode : Decode ProduceRequest) (buf : Bytes) (version : ℤ) (topic : Str) (bytes : Bytes)
      (tm : Manager)
      → decode buf version ≡ some (create_produce_request topic bytes)
      → IsFlushed IsHealthy tm
      → HasNoSchema topic tm
      → HasStored arrow os storage laws takes topic
          (raw bytes)
          tm.backend
          (handle_produce_request arrow os storage decode buf version tm)
  unfolding handle_produce_request create_produce_request handle_topic_data
      create_topic_produce_data handle_partition
  handle_produce_request-HasStored laws takes decode buf version topic bytes tm e h no_schema =
      rw (e, handle_produce_request)
        (add-HasNoSchema arrow os storage laws takes topic bytes tm h no_schema)
