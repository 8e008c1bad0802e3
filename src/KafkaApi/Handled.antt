-- ===== src/KafkaApi/Handled.antt =====
-- src/kafka_api/produce.rs and src/kafka_api/fetch.rs: what a request does to the topic manager is
-- nothing, one `add` or one `fetch`.
use herbert.Prelude.{◌≡◌, refl, Option, none, some, List, [], ◌∷◌, Bytes, Str}
use herbert.Prelude.Int.{ℤ}
use herbert.Outcome.{Outcome, ok, err, panic, out_of_fuel, and_then}
use herbert.Arrow.{Arrow}
use herbert.BufWriter.{OsFile}
use herbert.Storage.Record.{RecordStorage}
use herbert.TopicManager.Operations.{TopicManager, add, fetch}
use herbert.KafkaApi.Messages.{
  PartitionProduceData, TopicProduceData, ProduceRequest, FetchPartition, FetchTopic, FetchRequest,
  FetchResponse, Decode,
}
use herbert.KafkaApi.Topics.{
  handle_partition, handle_topic_data, handle_produce_request, fetch_partition, fetch_topics,
  handle_fetch_request, fetch_response,
}

module _ (IsAdded : Str → Bytes → Type 0) where
  abbrev AddsIn : Str → List PartitionProduceData → Type 0
  AddsIn topic [] = Unit
  AddsIn topic (p ∷ _) = (bytes : Bytes) → p.records ≡ some bytes → IsAdded topic bytes

  -- The record that the request asks to add, if any, is one of these.
  abbrev pub AddsOnly : List TopicProduceData → Type 0
  AddsOnly [] = Unit
  AddsOnly (t ∷ _) = AddsIn t.name t.partition_data

pub adds_any : (ts : List TopicProduceData) → AddsOnly (λ _ _. Unit) ts
adds_any [] = tt
adds_any (t ∷ ts) = any_partition t.partition_data
  where
    any_partition : (ps : List PartitionProduceData) → AddsIn (λ _ _. Unit) t.name ps
    any_partition [] = tt
    any_partition (p ∷ ps) = λ _ _. tt

module _ {Schema Batch Fault S : Type 0} (arrow : Arrow Schema Batch Fault) (os : OsFile)
    (storage : RecordStorage Batch Fault S) where
  abbrev Topics : Type 0
  Topics = TopicManager Schema Batch S

  module _ (P : Topics → Type 0) (IsAdded : Str → Bytes → Type 0)
      (add_P : (topic : Str) (bytes : Bytes) (tm : Topics)
        → IsAdded topic bytes
        → P tm
        → P (add arrow os storage topic bytes tm).1) where
    partition_keeps :
        (topic : Str) (p : PartitionProduceData) (ps : List PartitionProduceData) (tm : Topics)
        (records : Option Bytes)
        → p.records ≡ records
        → AddsIn IsAdded topic (p ∷ ps)
        → P tm
        → P (handle_partition arrow os storage topic (p ∷ ps) tm).1
    unfolding handle_partition
    partition_keeps topic p ps tm none e adds h = rw (e, handle_partition) h
    partition_keeps topic p ps tm (some bytes) e adds h =
        rw (e, handle_partition) (add_P topic bytes tm (adds bytes e) h)

    partitions_keeps :
        (topic : Str) (ps : List PartitionProduceData) (tm : Topics)
        → AddsIn IsAdded topic ps
        → P tm
        → P (handle_partition arrow os storage topic ps tm).1
    unfolding handle_partition
    partitions_keeps topic [] tm adds h = h
    partitions_keeps topic (p ∷ ps) tm adds h = partition_keeps topic p ps tm _ refl adds h

    topics_keeps :
        (ts : List TopicProduceData) (tm : Topics)
        → AddsOnly IsAdded ts
        → P tm
        → P (handle_topic_data arrow os storage ts tm).1
    unfolding handle_topic_data
    topics_keeps [] tm adds h = h
    topics_keeps (t ∷ ts) tm adds h = partitions_keeps t.name t.partition_data tm adds h

    produced_keeps :
        (decode : Decode ProduceRequest) (buf : Bytes) (version : ℤ) (tm : Topics)
        (decoded : Option ProduceRequest)
        → decode buf version ≡ decoded
        → ((r : ProduceRequest) → decode buf version ≡ some r → AddsOnly IsAdded r.topic_data)
        → P tm
        → P (handle_produce_request arrow os storage decode buf version tm).1
    unfolding handle_produce_request
    produced_keeps decode buf version tm none e adds h = rw (e, handle_produce_request) h
    produced_keeps decode buf version tm (some r) e adds h =
        rw (e, handle_produce_request) (topics_keeps r.topic_data tm (adds r e) h)

    pub handle_produce_request_keeps :
        (decode : Decode ProduceRequest) (buf : Bytes) (version : ℤ) (tm : Topics)
        → ((r : ProduceRequest) → decode buf version ≡ some r → AddsOnly IsAdded r.topic_data)
        → P tm
        → P (handle_produce_request arrow os storage decode buf version tm).1
    handle_produce_request_keeps decode buf version tm = produced_keeps decode buf version tm _ refl

  module _ (P : Topics → Type 0)
      (fetch_P : (topic : Str) (offset : ℤ) (tm : Topics)
        → P tm
        → P (fetch arrow os storage topic offset tm).1) where
    answered_keeps :
        (r : Outcome Fault Bytes × Topics)
        → P r.1
        → P (and_then {B = FetchResponse} r (λ records tm. (ok (fetch_response records), tm))).1
    answered_keeps (ok records, tm) h = h
    answered_keeps (err e, tm) h = h
    answered_keeps (panic, tm) h = h
    answered_keeps (out_of_fuel, tm) h = h

    fetch_partition_keeps :
        (topic : Str) (ps : List FetchPartition) (tm : Topics)
        → P tm
        → P (fetch_partition arrow os storage topic ps tm).1
    unfolding fetch_partition
    fetch_partition_keeps topic [] tm h = h
    fetch_partition_keeps topic (p ∷ ps) tm h = answered_keeps _ (fetch_P topic p.fetch_offset tm h)

    fetch_topics_keeps :
        (ts : List FetchTopic) (tm : Topics) → P tm → P (fetch_topics arrow os storage ts tm).1
    unfolding fetch_topics
    fetch_topics_keeps [] tm h = h
    fetch_topics_keeps (t ∷ ts) tm h = fetch_partition_keeps t.topic t.partitions tm h

    fetched_keeps :
        (decode : Decode FetchRequest) (buf : Bytes) (version : ℤ) (tm : Topics)
        (decoded : Option FetchRequest)
        → decode buf version ≡ decoded
        → P tm
        → P (handle_fetch_request arrow os storage decode buf version tm).1
    unfolding handle_fetch_request
    fetched_keeps decode buf version tm none e h = rw (e, handle_fetch_request) h
    fetched_keeps decode buf version tm (some r) e h =
        rw (e, handle_fetch_request) (fetch_topics_keeps r.topics tm h)

    pub handle_fetch_request_keeps :
        (decode : Decode FetchRequest) (buf : Bytes) (version : ℤ) (tm : Topics)
        → P tm
        → P (handle_fetch_request arrow os storage decode buf version tm).1
    handle_fetch_request_keeps decode buf version tm = fetched_keeps decode buf version tm _ refl
