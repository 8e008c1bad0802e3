-- ===== src/KafkaApi/Topics.antt =====
-- src/kafka_api/produce.rs and src/kafka_api/fetch.rs
use herbert.Prelude.{none, some, List, [], ◌∷◌, Bytes, Str}
use herbert.Prelude.Int.{ℤ}
use herbert.Outcome.{
  ok, err, no_topic_data, no_partition_data, no_record_data, unknown_error, Method, and_then,
}
use herbert.Arrow.{Arrow}
use herbert.BufWriter.{OsFile}
use herbert.Storage.Record.{RecordStorage}
use herbert.TopicManager.Operations.{TopicManager, add, fetch}
use herbert.KafkaApi.Messages.{
  FetchPartition, FetchTopic, FetchRequest, FetchResponse, PartitionProduceData, TopicProduceData,
  ProduceRequest, Decode,
}

unfoldable pub create_topic_produce_data : Str → Bytes → TopicProduceData
create_topic_produce_data topic bytes = record {
  name = topic;
  partition_data = record { records = some bytes } ∷ [];
}

unfoldable pub create_produce_request : Str → Bytes → ProduceRequest
create_produce_request topic bytes = record {
  topic_data = create_topic_produce_data topic bytes ∷ [];
}

unfoldable pub create_fetch_request : Str → (max_messages fetch_offset : ℤ) → FetchRequest
create_fetch_request topic max_messages fetch_offset = record {
  max_bytes = max_messages;
  topics = record { topic = topic; partitions = record { fetch_offset = fetch_offset } ∷ [] } ∷ [];
}

-- What `handle_fetch_request` answers with the records that it found.
unfoldable pub fetch_response : Bytes → FetchResponse
fetch_response bytes = record {
  responses = record { partitions = record { records = some bytes } ∷ [] } ∷ [];
}

module _ {Schema Batch Fault S : Type 0} (arrow : Arrow Schema Batch Fault) (os : OsFile)
    (storage : RecordStorage Batch Fault S) where
  abbrev pub Manager : Type 0
  Manager = TopicManager Schema Batch S

  unfoldable pub handle_partition : Str → List PartitionProduceData → Method Fault Manager Unit
  handle_partition topic [] tm = (err no_partition_data, tm)
  handle_partition topic (p ∷ _) tm = elim p.records [
    | none ↦ (err no_record_data, tm)
    | some records ↦ add arrow os storage topic records tm
  ]

  unfoldable pub handle_topic_data : List TopicProduceData → Method Fault Manager Unit
  handle_topic_data [] tm = (err no_topic_data, tm)
  handle_topic_data (t ∷ _) tm = handle_partition t.name t.partition_data tm

  -- `ProduceResponse::default()` is the unit. A request that does not decode is answered by it too.
  unfoldable pub handle_produce_request :
      Decode ProduceRequest → Bytes → ℤ → Method Fault Manager Unit
  handle_produce_request decode buf api_version tm = elim (decode buf api_version) [
    | none ↦ (ok tt, tm)
    | some request ↦ handle_topic_data request.topic_data tm
  ]

  unfoldable pub fetch_partition : Str → List FetchPartition → Method Fault Manager FetchResponse
  fetch_partition topic [] tm = (err no_partition_data, tm)
  fetch_partition topic (p ∷ _) tm =
      and_then (fetch arrow os storage topic p.fetch_offset tm)
        (λ records tm. (ok (fetch_response records), tm))

  unfoldable pub fetch_topics : List FetchTopic → Method Fault Manager FetchResponse
  fetch_topics [] tm = (err no_topic_data, tm)
  fetch_topics (t ∷ _) tm = fetch_partition t.topic t.partitions tm

  unfoldable pub handle_fetch_request :
      Decode FetchRequest → Bytes → ℤ → Method Fault Manager FetchResponse
  handle_fetch_request decode buf api_version tm = elim (decode buf api_version) [
    | none ↦ (err unknown_error, tm)
    | some request ↦ fetch_topics request.topics tm
  ]
