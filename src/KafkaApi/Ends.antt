-- ===== src/KafkaApi/Ends.antt =====
-- src/kafka_api/: the handlers of requests end, whatever they are given.
use herbert.Prelude.{List, [], ◌∷◌, bytes_eq, pair_eq, Bytes, Str}
use herbert.Prelude.Int.{ℤ}
use herbert.HashMap.Collect.{collect}
use herbert.Outcome.{Outcome, ok, err, serialization, panic, out_of_fuel}
use herbert.Outcome.Ends.{
  Any, Ends, Ends-then, Ends-and_then, Ends-if, Ends-test, Ends-match, Ends-option,
}
use herbert.Arrow.{Arrow}
use herbert.BufWriter.{OsFile}
use herbert.Storage.Record.{RecordStorage, AlwaysEnds}
use herbert.TopicManager.Operations.{TopicManager}
use herbert.TopicManager.Operations as Topics
use herbert.TopicManager.Answers.{add-Ends}
use herbert.OffsetManager.Operations.{
  OffsetManager, Json, OffsetFile, Saved, save, flush, joined, set_offset, get_offset,
}
use herbert.KafkaApi.Messages.{
  FetchPartition, FetchTopic, FetchRequest, PartitionProduceData, TopicProduceData, ProduceRequest,
  OffsetCommitRequestPartition, OffsetCommitRequestTopic, OffsetCommitRequest,
  OffsetFetchRequestTopic, OffsetFetchRequest, Decode,
}
use herbert.KafkaApi.Topics.{
  handle_partition, handle_topic_data, handle_produce_request, fetch_partition, fetch_topics,
  handle_fetch_request,
}
use herbert.KafkaApi.Offsets.{
  ignore, commit_partition, commit_topics, handle_offset_commit_request, fetch_first,
  handle_offset_fetch_request,
}

module _ (Fault : Type 0) (json : Json) (disk : OffsetFile) where
  ignore-Ends : (o : Outcome Fault Unit) → Ends Any o → Ends Any (ignore o)
  unfolding ignore
  ignore-Ends (ok _) h = tt
  ignore-Ends (err _) h = tt
  ignore-Ends panic h = tt
  ignore-Ends out_of_fuel h = h

  save-Ends : (text : Bytes) (s : Saved) → Ends Any (save {Fault = Fault} json disk text s).0
  unfolding save
  save-Ends text (om, file) = Ends-option Any (disk.write file text).0 _ _ tt (λ _. tt)

  flush-Ends : (s : Saved) → Ends Any (flush {Fault = Fault} json disk s).0
  unfolding flush
  flush-Ends (om, file) = Ends-if Any om.offsets.poisoned _ _ tt (
      Ends-match {Fault = Fault} {S = Saved} Any
        (json.to_string (collect joined om.offsets.inner [])) (err serialization, (om, file))
        (λ text. save json disk text (om, file)) tt (λ text. save-Ends text (om, file)))

  set_offset-Ends :
      (group topic : Str) (offset : ℤ) (s : Saved)
      → Ends Any (set_offset {Fault = Fault} json disk group topic offset s).0
  unfolding set_offset
  set_offset-Ends group topic offset (om, file) =
      Ends-if Any om.offsets.poisoned _ _ tt (flush-Ends _)

  commit_partition-Ends :
      (group topic : Str) (ps : List OffsetCommitRequestPartition) (s : Saved)
      → Ends Any (commit_partition {Fault = Fault} json disk group topic ps s).0
  unfolding commit_partition
  commit_partition-Ends group topic [] s = tt
  commit_partition-Ends group topic (p ∷ ps) s =
      ignore-Ends _ (set_offset-Ends group topic p.committed_offset s)

  commit_topics-Ends :
      (group : Str) (ts : List OffsetCommitRequestTopic) (s : Saved)
      → Ends Any (commit_topics {Fault = Fault} json disk group ts s).0
  unfolding commit_topics
  commit_topics-Ends group [] s = tt
  commit_topics-Ends group (t ∷ ts) s = commit_partition-Ends group t.name t.partitions s

  pub commit-Ends :
      (decode : Decode OffsetCommitRequest) (buf : Bytes) (version : ℤ) (s : Saved)
      → Ends Any (handle_offset_commit_request {Fault = Fault} json disk decode buf version s).0
  unfolding handle_offset_commit_request
  commit-Ends decode buf version s =
      Ends-match Any (decode buf version) _ _ tt (λ r. commit_topics-Ends r.group_id r.topics s)

  fetch_first-Ends :
      (group : Str) (ts : List OffsetFetchRequestTopic) (om : OffsetManager)
      → Ends {Fault = Fault} Any (fetch_first group ts om)
  unfolding fetch_first get_offset
  fetch_first-Ends group [] om = tt
  fetch_first-Ends group (t ∷ ts) om =
      Ends-then Any Any (get_offset group t.name om) _
        (Ends-test {Fault = Fault} Any om.offsets.poisoned _ _ tt tt) (λ _ _. tt)

  pub offset_fetch-Ends :
      (decode : Decode OffsetFetchRequest) (buf : Bytes) (version : ℤ) (om : OffsetManager)
      → Ends {Fault = Fault} Any (handle_offset_fetch_request decode buf version om)
  unfolding handle_offset_fetch_request
  offset_fetch-Ends decode buf version om =
      Ends-option Any (decode buf version) _ _ tt
        λ r. Ends-option Any r.topics _ _ tt λ ts. fetch_first-Ends r.group_id ts om

module _ {Schema Batch Fault S : Type 0} (arrow : Arrow Schema Batch Fault) (os : OsFile)
    (storage : RecordStorage Batch Fault S) (ends : AlwaysEnds storage) where
  abbrev Manager : Type 0
  Manager = TopicManager Schema Batch S

  partition-Ends :
      (topic : Str) (ps : List PartitionProduceData) (tm : Manager)
      → Ends Any (handle_partition arrow os storage topic ps tm).0
  unfolding handle_partition
  partition-Ends topic [] tm = tt
  partition-Ends topic (p ∷ ps) tm =
      Ends-match Any p.records _ _ tt
        λ records. add-Ends arrow os storage ends.add_ends topic records tm

  topic_data-Ends :
      (ts : List TopicProduceData) (tm : Manager)
      → Ends Any (handle_topic_data arrow os storage ts tm).0
  unfolding handle_topic_data
  topic_data-Ends [] tm = tt
  topic_data-Ends (t ∷ ts) tm = partition-Ends t.name t.partition_data tm

  pub produce-Ends :
      (decode : Decode ProduceRequest) (buf : Bytes) (version : ℤ) (tm : Manager)
      → Ends Any (handle_produce_request arrow os storage decode buf version tm).0
  unfolding handle_produce_request
  produce-Ends decode buf version tm =
      Ends-match Any (decode buf version) _ _ tt (λ r. topic_data-Ends r.topic_data tm)

  fetch_partition-Ends :
      (topic : Str) (ps : List FetchPartition) (tm : Manager)
      → Ends Any (fetch_partition arrow os storage topic ps tm).0
  unfolding fetch_partition Topics.fetch
  fetch_partition-Ends topic [] tm = tt
  fetch_partition-Ends topic (p ∷ ps) tm =
      Ends-and_then Any Any (Topics.fetch arrow os storage topic p.fetch_offset tm) _
        (ends.fetch_ends topic p.fetch_offset tm.backend) (λ _ _ _. tt)

  fetch_topics-Ends :
      (ts : List FetchTopic) (tm : Manager) → Ends Any (fetch_topics arrow os storage ts tm).0
  unfolding fetch_topics
  fetch_topics-Ends [] tm = tt
  fetch_topics-Ends (t ∷ ts) tm = fetch_partition-Ends t.topic t.partitions tm

  pub fetch-Ends :
      (decode : Decode FetchRequest) (buf : Bytes) (version : ℤ) (tm : Manager)
      → Ends Any (handle_fetch_request arrow os storage decode buf version tm).0
  unfolding handle_fetch_request
  fetch-Ends decode buf version tm =
      Ends-match Any (decode buf version) _ _ tt (λ r. fetch_topics-Ends r.topics tm)
