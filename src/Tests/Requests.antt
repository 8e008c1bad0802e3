-- ===== src/Tests/Requests.antt =====
-- Examples for src/kafka_api/produce.rs.
use herbert.Prelude.{ℕ, refl, none, some, inr, [], ◌∷◌, arith, bytes_eq, codes}
use herbert.Prelude.Int.{pos}
use herbert.HashMap.{lookup}
use herbert.Storage.InMemoryLog.{InMemoryLog, log_storage}
use herbert.Storage.InMemoryLog as Log
use herbert.Storage.InMemoryLog.Index.{new-IsIndexed, log-StorageLaws}
use herbert.TopicManager.Operations.{TopicManager, new_metadata}
use herbert.TopicManager.Reopened.{initial}
use herbert.KafkaApi.Messages.{Decode, ProduceRequest}
use herbert.KafkaApi.Topics.{create_produce_request, handle_produce_request}
use herbert.KafkaApi.Produced.{handle_produce_request-HasStored}
use herbert.TopicManager.Stores.{HasStored}
use herbert.Storage.Record.{raw}
use herbert.Tests.Toy.{Batch, config, arrow, os, os_takes}

abbrev tm : TopicManager ℕ Batch (InMemoryLog Batch)
tm = initial Log.new ((codes "a", new_metadata (codes "a") none) ∷ []) config

abbrev decode : Decode ProduceRequest
decode buf _ = some (create_produce_request (codes "a") buf)

handle_produce_request-HasStored_example :
    HasStored {Fault = ℕ} arrow os
      (log_storage arrow)
      (log-StorageLaws arrow)
      os_takes
      (codes "a")
      (raw (codes "x"))
      Log.new
      (handle_produce_request {Fault = ℕ} arrow os
        (log_storage arrow)
        decode
        (codes "x")
        (pos 9)
        tm)
unfolding lookup
handle_produce_request-HasStored_example =
    handle_produce_request-HasStored arrow os (log_storage arrow) (log-StorageLaws arrow) os_takes
      decode (codes "x") (pos 9) (codes "a") (codes "x") tm refl
      (record {
        wal_live = record { file_live = refl; buffer_live = refl };
        healthy = new-IsIndexed arrow;
        metadatas_live = refl;
        empty = refl;
        few = omega arith;
      })
      (inr (codes "a", refl))
