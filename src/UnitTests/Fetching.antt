-- ===== src/UnitTests/Fetching.antt =====
-- The unit tests of src/kafka_api/fetch.rs.
use herbert.Prelude.{
  ℕ, zero, suc, ◌+◌, ◌≤◌, ◌<◌, ◌∙◌, decimal, ◌≡◌, refl, ap, Option, none, some, inr, [], ◌∷◌, ◌++◌,
  arith, length, get_elem?, bytes_eq, bytes_beq, u32_le, Bool, false, Bytes, Str, codes,
}
use herbert.Prelude.Int.{ℤ, pos}
use herbert.HashMap.{lookup, insert, or_insert}
use herbert.Outcome.{Outcome, ok, fresh, ◌>>=◌}
use herbert.Config.{default, with_wal_path}
use herbert.Arrow.{Arrow}
use herbert.BufWriter.{OsFile, TakesAll}
use herbert.Storage.InMemoryLog.{InMemoryLog, log_storage}
use herbert.Storage.InMemoryLog as Log
use herbert.Storage.InMemoryLog.Index.{IsIndexed, new-IsIndexed, log-StorageLaws, add-IsIndexed}
use herbert.Storage.InMemoryQueue.{InMemoryQueue, queue_storage, drain, record_bytes}
use herbert.Storage.InMemoryQueue as Queue
use herbert.Storage.Record.{raw, RecordStorage}
use herbert.Wal.Serialize.{framed}
use herbert.TopicManager.Operations.{TopicManager, new, add, fetch}
use herbert.TopicManager.Reopened.{reopened, new-reopened}
use herbert.KafkaApi.Messages.{FetchRequest, FetchResponse, Decode}
use herbert.KafkaApi.Topics.{
  create_fetch_request, fetch_response, fetch_partition, fetch_topics, handle_fetch_request,
}
use herbert.UnitTests.{assert, unwrap, unwrap_some}
use herbert.UnitTests.Logs.{add_numbers}
use herbert.UnitTests.Managers.{queue_manager, queue_manager_lem, add_small, queue-StorageLaws}

-- `record == Some(Bytes::from(..))`
abbrev is_record : Bytes → Option Bytes → Bool
is_record bytes none = false
is_record bytes (some b) = bytes_beq bytes b

-- The records of the first partition of the first topic.
unfoldable first_records : {Fault : Type 0} → FetchResponse → Outcome Fault (Option Bytes)
first_records response = do
  topic ← unwrap_some (get_elem? response.responses 0)
  partition ← unwrap_some (get_elem? topic.partitions 0)
  ok partition.records

-- `encode` and `decode` are those of kafka_protocol.
module _ {Schema Batch Fault : Type 0} (arrow : Arrow Schema Batch Fault) (os : OsFile)
    (encode : FetchRequest → ℤ → Bytes) (decode : Decode FetchRequest) (default_file : Bytes)
    (wal_path : Str) where
  unfoldable test_handle_fetch_request : Outcome Fault Unit
  test_handle_fetch_request = do
    tm ← queue_manager {Schema = Schema} default_file wal_path
    let tm = (add arrow os (queue_storage arrow) (codes "foobar") (codes "test") tm).1
    let fetch_request = create_fetch_request (codes "foobar") (pos 3) (pos 0)
    response ←
        unwrap
          (handle_fetch_request arrow os (queue_storage arrow) decode (encode fetch_request (pos 9))
            (pos 9) tm).0
    records ← first_records response
    assert (is_record (codes "test") records)

  unfoldable test_handle_fetch_request_with_offset : Outcome Fault Unit
  test_handle_fetch_request_with_offset = do
    tm ← new {Schema = Schema} Log.new (fresh []) (with_wal_path default wal_path) (inr [])
    let tm =
        add_numbers (λ ele tm. (add arrow os (log_storage arrow) (codes "foobar") ele tm).1) 0 5 tm
    let fetch_request = create_fetch_request (codes "foobar") (pos 3) (pos 3)
    response ←
        unwrap
          (handle_fetch_request arrow os (log_storage arrow) decode (encode fetch_request (pos 9))
            (pos 9) tm).0
    records ← first_records response
    assert (is_record (codes "3" ++ 0 ∷ codes "4") records)

  decoded_lem :
      {S : Type 0} (storage : RecordStorage Batch Fault S) (buf : Bytes) (request : FetchRequest)
      (tm : TopicManager Schema Batch S)
      → decode buf (pos 9) ≡ some request
      → handle_fetch_request arrow os storage decode buf (pos 9) tm
        ≡ fetch_topics arrow os storage request.topics tm
  unfolding handle_fetch_request
  decoded_lem storage buf request tm e = rw (e, handle_fetch_request) refl

  module _ (takes : TakesAll os) where
    test_handle_fetch_request_passes :
        let request = create_fetch_request (codes "foobar") (pos 3) (pos 0) in
        decode (encode request (pos 9)) (pos 9) ≡ some request → test_handle_fetch_request ≡ ok tt
    unfolding test_handle_fetch_request fetch_topics fetch_partition create_fetch_request
        fetch_response first_records lookup framed u32_le with_wal_path default fetch Queue.add
        Queue.fetch insert or_insert drain record_bytes
    test_handle_fetch_request_passes decoded =
        rw
          (
            queue_manager_lem {Fault = Fault} default_file wal_path,
            add_small arrow os takes (queue_storage arrow) (queue-StorageLaws arrow)
                (codes "foobar") (codes "test") [] Queue.new [] (with_wal_path default wal_path)
                (omega arith) refl (omega arith) refl,
            decoded_lem _ _ _ _ decoded,
          )
          refl

    -- The record is in the file and in the log.
    added :
        (ele file : Bytes) (s : InMemoryLog Batch)
        → length ele ≡ 1
        → IsIndexed arrow s
        → add arrow os
            (log_storage arrow)
            (codes "foobar")
            ele
            (reopened s [] (with_wal_path default wal_path) file)
          ≡ (
            ok tt,
            reopened
                (Log.add arrow (codes "foobar") (raw ele) s).1
                []
                (with_wal_path default wal_path)
                (file ++ framed (codes "foobar") 0 ele),
          )
    unfolding framed u32_le with_wal_path default lookup
    added ele file s one indexed =
        add_small arrow os takes (log_storage arrow) (log-StorageLaws arrow) (codes "foobar") ele
          file s [] (with_wal_path default wal_path) (omega (arith, one)) refl (omega arith) indexed

    abbrev Manager : Type 0
    Manager = TopicManager Schema Batch (InMemoryLog Batch)

    abbrev add_foobar : Bytes → Manager → Manager
    add_foobar ele tm = (add arrow os (log_storage arrow) (codes "foobar") ele tm).1

    abbrev log_foobar : Bytes → InMemoryLog Batch → InMemoryLog Batch
    log_foobar ele s = (Log.add arrow (codes "foobar") (raw ele) s).1

    abbrev file_foobar : Bytes → Bytes → Bytes
    file_foobar ele file = file ++ framed (codes "foobar") 0 ele

    -- Records of one digit, from `idx` on.
    added_all :
        (idx n : ℕ) (file : Bytes) (s : InMemoryLog Batch)
        → idx + n ≤ 5
        → IsIndexed arrow s
        → add_numbers add_foobar idx n (reopened s [] (with_wal_path default wal_path) file)
          ≡ reopened
              (add_numbers log_foobar idx n s)
              []
              (with_wal_path default wal_path)
              (add_numbers file_foobar idx n file)
    added_all idx zero file s few h = refl
    added_all idx (suc n) file s few h =
        ap (add_numbers add_foobar (suc idx) n)
          (ap (λ r. r.1) (added (decimal idx) file s (digit idx (omega (arith, few))) h))
        ∙ added_all (suc idx) n _ _ (omega (arith, few))
            (add-IsIndexed arrow (codes "foobar") (raw (decimal idx)) s h)
      where
        digit : (k : ℕ) → k < 5 → length (decimal k) ≡ 1
        digit zero h = refl
        digit (suc zero) h = refl
        digit (suc (suc zero)) h = refl
        digit (suc (suc (suc zero))) h = refl
        digit (suc (suc (suc (suc zero)))) h = refl
        digit (suc (suc (suc (suc (suc k))))) h = absurd (omega (arith, h))

    test_handle_fetch_request_with_offset_passes :
        let request = create_fetch_request (codes "foobar") (pos 3) (pos 3) in
        decode (encode request (pos 9)) (pos 9) ≡ some request
        → test_handle_fetch_request_with_offset ≡ ok tt
    unfolding test_handle_fetch_request_with_offset fetch_topics fetch_partition
        create_fetch_request fetch_response first_records lookup insert or_insert fetch Log.add
        Log.push_offsets Log.fetch Log.fetch_from Log.collect Log.finish_records
    test_handle_fetch_request_with_offset_passes decoded =
        rw
          (
            new-reopened Fault (Log.new {Batch = Batch}) [] (with_wal_path default wal_path) [],
            added_all 0 5 [] Log.new (omega arith) (new-IsIndexed arrow),
            decoded_lem _ _ _ _ decoded,
          )
          refl
