-- ===== src/UnitTests/Producing.antt =====
-- The unit tests of src/kafka_api/produce.rs.
use herbert.Prelude.{◌≡◌, refl, some, [], arith, bytes_eq, bytes_beq, u32_le, Bytes, Str, codes}
use herbert.Prelude.Int.{ℤ, pos}
use herbert.HashMap.{lookup, insert, or_insert}
use herbert.Outcome.{Outcome, ok, ◌>>=◌}
use herbert.Config.{default, with_wal_path}
use herbert.Arrow.{Arrow}
use herbert.BufWriter.{OsFile, TakesAll}
use herbert.Storage.InMemoryQueue.{InMemoryQueue, queue_storage, drain, record_bytes}
use herbert.Storage.InMemoryQueue as Queue
use herbert.Wal.Serialize.{framed}
use herbert.TopicManager.Operations.{TopicManager, fetch}
use herbert.TopicManager.Reopened.{reopened}
use herbert.KafkaApi.Messages.{ProduceRequest, Decode}
use herbert.KafkaApi.Topics.{
  create_topic_produce_data, create_produce_request, handle_partition, handle_topic_data,
  handle_produce_request,
}
use herbert.UnitTests.{assert, unwrap, is_err}
use herbert.UnitTests.Managers.{queue_manager, queue_manager_lem, add_small, queue-StorageLaws}

-- `ProduceRequest::default()`
abbrev default_request : ProduceRequest
default_request = record { topic_data = [] }

-- `encode` and `decode` are those of kafka_protocol.
module _ {Schema Batch Fault : Type 0} (arrow : Arrow Schema Batch Fault) (os : OsFile)
    (encode : ProduceRequest → ℤ → Bytes) (decode : Decode ProduceRequest) (default_file : Bytes)
    (wal_path : Str) where
  abbrev Manager : Type 0
  Manager = TopicManager Schema Batch (InMemoryQueue Batch)

  -- The message that the queue has is the record.
  unfoldable has_record : Manager → Outcome Fault Unit
  has_record tm = do
    message ← unwrap (fetch arrow os (queue_storage arrow) (codes "test") (pos 0) tm).0
    assert (bytes_beq message (codes "yeah"))

  unfoldable test_handle_topic_data : Outcome Fault Unit
  test_handle_topic_data = do
    tm ← queue_manager default_file wal_path
    let produce_request = create_produce_request (codes "test") (codes "yeah")
    has_record (handle_topic_data arrow os (queue_storage arrow) produce_request.topic_data tm).1

  unfoldable test_handle_topic_data_failure : Outcome Fault Unit
  test_handle_topic_data_failure = do
    tm ← queue_manager default_file wal_path
    let result = handle_topic_data arrow os (queue_storage arrow) default_request.topic_data tm
    assert (is_err result.0)

  unfoldable test_handle_produce_request : Outcome Fault Unit
  test_handle_produce_request = do
    tm ← queue_manager default_file wal_path
    let produce_request = create_produce_request (codes "test") (codes "yeah")
    has_record
        (handle_produce_request arrow os (queue_storage arrow) decode
          (encode produce_request (pos 9)) (pos 9) tm).1

  unfoldable test_handle_produce_request_failure : Outcome Fault Unit
  test_handle_produce_request_failure = do
    tm ← queue_manager default_file wal_path
    let result =
        handle_produce_request arrow os (queue_storage arrow) decode
          (encode default_request (pos 9)) (pos 9) tm
    assert (is_err result.0)

  test_handle_topic_data_failure_passes : test_handle_topic_data_failure ≡ ok tt
  unfolding test_handle_topic_data_failure handle_topic_data
  test_handle_topic_data_failure_passes =
      rw (queue_manager_lem {Fault = Fault} default_file wal_path) refl

  test_handle_produce_request_failure_passes :
      decode (encode default_request (pos 9)) (pos 9) ≡ some default_request
      → test_handle_produce_request_failure ≡ ok tt
  unfolding test_handle_produce_request_failure handle_produce_request handle_topic_data
  test_handle_produce_request_failure_passes decoded =
      rw (queue_manager_lem {Fault = Fault} default_file wal_path, decoded, handle_produce_request)
        refl

  module _ (takes : TakesAll os) where
    added :
        let r : Outcome Fault Unit × Manager =
          handle_topic_data arrow os
            (queue_storage arrow)
            (create_produce_request (codes "test") (codes "yeah")).topic_data
            (reopened Queue.new [] (with_wal_path default wal_path) []) in
        has_record r.1 ≡ ok tt
    unfolding handle_topic_data handle_partition create_produce_request create_topic_produce_data
        lookup framed u32_le with_wal_path default has_record fetch Queue.add Queue.fetch insert
        or_insert drain record_bytes
    added =
        rw
          (add_small arrow os takes (queue_storage arrow) (queue-StorageLaws arrow) (codes "test")
            (codes "yeah") [] Queue.new [] (with_wal_path default wal_path) (omega arith) refl
            (omega arith) refl)
          refl

    test_handle_topic_data_passes : test_handle_topic_data ≡ ok tt
    unfolding test_handle_topic_data
    test_handle_topic_data_passes =
        rw (queue_manager_lem {Fault = Fault} default_file wal_path) added

    test_handle_produce_request_passes :
        (let request = create_produce_request (codes "test") (codes "yeah") in
          decode (encode request (pos 9)) (pos 9) ≡ some request)
        → test_handle_produce_request ≡ ok tt
    unfolding test_handle_produce_request handle_produce_request
    test_handle_produce_request_passes decoded =
        rw
          (queue_manager_lem {Fault = Fault} default_file wal_path, decoded, handle_produce_request)
          added
