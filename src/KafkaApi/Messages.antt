-- ===== src/KafkaApi/Messages.antt =====
-- The messages of the kafka_protocol crate, by the fields that src/kafka_api/ reads and sets; an
-- empty list or `none` is the default of its field.
use herbert.Prelude.{Option, List, Bytes, Str}
use herbert.Prelude.Int.{ℤ}

pub record FetchPartition : Type 0 where
  pub fetch_offset : ℤ

pub record FetchTopic : Type 0 where
  pub topic : Str
  pub partitions : List FetchPartition

pub record FetchRequest : Type 0 where
  pub max_bytes : ℤ
  pub topics : List FetchTopic

-- `PartitionData` of a `FetchResponse`
pub record PartitionData : Type 0 where
  pub records : Option Bytes

pub record FetchableTopicResponse : Type 0 where
  pub partitions : List PartitionData

pub record FetchResponse : Type 0 where
  pub responses : List FetchableTopicResponse

pub record PartitionProduceData : Type 0 where
  pub records : Option Bytes

pub record TopicProduceData : Type 0 where
  pub name : Str
  pub partition_data : List PartitionProduceData

pub record ProduceRequest : Type 0 where
  pub topic_data : List TopicProduceData

pub record OffsetCommitRequestPartition : Type 0 where
  pub committed_offset : ℤ

pub record OffsetCommitRequestTopic : Type 0 where
  pub name : Str
  pub partitions : List OffsetCommitRequestPartition

pub record OffsetCommitRequest : Type 0 where
  pub group_id : Str
  pub topics : List OffsetCommitRequestTopic

pub record OffsetFetchRequestTopic : Type 0 where
  pub name : Str

pub record OffsetFetchRequest : Type 0 where
  pub group_id : Str
  pub topics : Option (List OffsetFetchRequestTopic)

pub record OffsetFetchResponsePartition : Type 0 where
  pub committed_offset : ℤ

pub record OffsetFetchResponseTopic : Type 0 where
  pub name : Str
  pub partitions : List OffsetFetchResponsePartition

pub record OffsetFetchResponse : Type 0 where
  pub topics : List OffsetFetchResponseTopic

-- `Decodable::decode(buf, api_version)` at a type of messages; `none` is an error.
abbrev pub Decode : Type 0 → Type 0
Decode M = Bytes → ℤ → Option M
