-- ===== src/KafkaApi/Offsets.antt =====
-- src/kafka_api/offset_commit.rs and src/kafka_api/offset_fetch.rs
use herbert.Prelude.{none, some, List, [], ◌∷◌, Bytes, Str}
use herbert.Prelude.Int.{ℤ}
use herbert.Outcome.{
  Outcome, ok, err, panic, out_of_fuel, no_topic_data, no_partition_data, empty_topic_list,
  request_decode, Method, ◌>>=◌,
}
use herbert.OffsetManager.Operations.{
  OffsetManager, Json, OffsetFile, Saved, set_offset, get_offset,
}
use herbert.KafkaApi.Messages.{
  OffsetCommitRequestPartition, OffsetCommitRequestTopic, OffsetCommitRequest,
  OffsetFetchRequestTopic, OffsetFetchRequest, OffsetFetchResponse, Decode,
}

unfoldable pub create_offset_commit_request : Str → Str → ℤ → OffsetCommitRequest
create_offset_commit_request consumer_group topic offset = record {
  group_id = consumer_group;
  topics = record { name = topic; partitions = record { committed_offset = offset } ∷ [] } ∷ [];
}

unfoldable pub create_offset_fetch_request : Str → Str → OffsetFetchRequest
create_offset_fetch_request consumer_group topic = record {
  group_id = consumer_group;
  topics = some (record { name = topic } ∷ []);
}

-- What `handle_offset_fetch_request` answers with the offset that it found.
unfoldable pub offset_fetch_response : Str → ℤ → OffsetFetchResponse
offset_fetch_response topic offset = record {
  topics = record { name = topic; partitions = record { committed_offset = offset } ∷ [] } ∷ [];
}

module _ {Fault : Type 0} where
  -- `let _ = result;` forgets an error; a panic goes on.
  unfoldable pub ignore : Outcome Fault Unit → Outcome Fault Unit
  ignore (ok _) = ok tt
  ignore (err _) = ok tt
  ignore panic = panic
  ignore out_of_fuel = out_of_fuel

  module _ (json : Json) (disk : OffsetFile) where
    unfoldable pub commit_partition :
        Str → Str → List OffsetCommitRequestPartition → Method Fault Saved Unit
    commit_partition group topic [] s = (err no_partition_data, s)
    commit_partition group topic (p ∷ _) s =
        let (done, s') = set_offset json disk group topic p.committed_offset s in (ignore done, s')

    unfoldable pub commit_topics : Str → List OffsetCommitRequestTopic → Method Fault Saved Unit
    commit_topics group [] s = (err no_topic_data, s)
    commit_topics group (t ∷ _) s = commit_partition group t.name t.partitions s

    -- `OffsetCommitResponse::default()` is the unit.
    unfoldable pub handle_offset_commit_request :
        Decode OffsetCommitRequest → Bytes → ℤ → Method Fault Saved Unit
    handle_offset_commit_request decode buf api_version s = elim (decode buf api_version) [
      | none ↦ (err request_decode, s)
      | some request ↦ commit_topics request.group_id request.topics s
    ]

  unfoldable pub fetch_first :
      Str → List OffsetFetchRequestTopic → OffsetManager → Outcome Fault OffsetFetchResponse
  fetch_first group [] om = err empty_topic_list
  fetch_first group (t ∷ _) om = do
    offset ← get_offset group t.name om
    ok (offset_fetch_response t.name offset)

  unfoldable pub handle_offset_fetch_request :
      Decode OffsetFetchRequest → Bytes → ℤ → OffsetManager → Outcome Fault OffsetFetchResponse
  handle_offset_fetch_request decode buf api_version om = elim (decode buf api_version) [
    | none ↦ err request_decode
    | some request ↦ elim request.topics [
      | none ↦ err no_topic_data
      | some topics ↦ fetch_first request.group_id topics om
    ]
  ]
