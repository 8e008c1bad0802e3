-- ===== src/Tests/Storage.antt =====
-- Examples for src/storage/ and src/wal.rs.
use herbert.Prelude.{ℕ, ◌≡◌, refl, [], ◌∷◌, arith, if◌then◌else◌, bytes_eq, Bytes, Str, codes}
use herbert.Prelude.Int.{pos, negsuc}
use herbert.HashMap.{lookup, insert, or_insert, queue_at}
use herbert.Outcome.{ok, fresh}
use herbert.Storage.Record.{StoredRecord, raw, batch, add_all}
use herbert.Storage.InMemoryLog.{InMemoryLog, log_storage}
use herbert.Storage.InMemoryLog as Log
use herbert.Storage.InMemoryLog.Index.{IsIndexed, add-IsIndexed, new-IsIndexed, log-StorageLaws}
use herbert.Storage.InMemoryLog.Fetch.{answer, found, fetch-answer, fetch_negative}
use herbert.Storage.InMemoryLog.RawTopic.{join, fetch_raw}
use herbert.Storage.InMemoryLog.BatchTopic.{Delivers, fetch_batches}
use herbert.Storage.InMemoryQueue.{InMemoryQueue}
use herbert.Storage.InMemoryQueue as Queue
use herbert.Storage.InMemoryQueue.Fifo.{fetch_drains}
use herbert.Wal.Serialize.{framed, serialize}
use herbert.Wal.Operations as Wal
use herbert.Wal.Operations.{WriteAheadLog}
use herbert.Wal.Laws.{Added, add_lem, flush_lem}
use herbert.Tests.Toy.{Batch, config, stream, arrow, arrow_laws, os, os_takes}

abbrev a : Str
a = codes "a"

abbrev b : Str
b = codes "b"

abbrev put : Str → StoredRecord Batch → InMemoryLog Batch → InMemoryLog Batch
put topic r s = (Log.add {Fault = ℕ} arrow topic r s).1

-- Topic `a` has three raw records, and topic `b` two batches of schema 7 with three rows.
abbrev pub log : InMemoryLog Batch
log = put b (batch (7, 12 ∷ [])) (
    put a (raw (codes "yz"))
      (put b (batch (7, 10 ∷ 11 ∷ [])) (put a (raw []) (put a (raw (codes "x")) Log.new))))

log-IsIndexed : IsIndexed {Fault = ℕ} arrow log
log-IsIndexed = add-IsIndexed arrow b _ _ (
    add-IsIndexed arrow a _ _ (
      add-IsIndexed arrow b _ _
        (add-IsIndexed arrow a _ _ (add-IsIndexed arrow a _ _ (new-IsIndexed arrow)))))

add-IsIndexed_example :
    IsIndexed {Fault = ℕ} arrow (Log.add {Fault = ℕ} arrow a (raw (codes "w")) log).1
add-IsIndexed_example = add-IsIndexed arrow a (raw (codes "w")) log log-IsIndexed

fetch-answer_example :
    (Log.fetch {Fault = ℕ} arrow a (pos 1) log).0
    ≡ answer arrow (found arrow a (pos 1) log log-IsIndexed)
fetch-answer_example = fetch-answer arrow a (pos 1) log log-IsIndexed

-- The answer is the empty record, a separator, and the last record.
fetch_raw_example : (Log.fetch {Fault = ℕ} arrow a (pos 1) log).0 ≡ ok (0 ∷ codes "yz")
unfolding Log.add Log.push_offsets Log.push_rows lookup insert or_insert
fetch_raw_example = fetch_raw arrow a 1 (codes "x" ∷ [] ∷ codes "yz" ∷ []) log log-IsIndexed refl

fetch_batches_example :
    (response : Bytes) × ((Log.fetch {Fault = ℕ} arrow b (pos 1) log).0 ≡ ok response)
    × Delivers arrow arrow_laws response (11 ∷ 12 ∷ [])
unfolding Log.add Log.push_offsets Log.push_rows lookup insert or_insert
fetch_batches_example =
    fetch_batches arrow arrow_laws b 1 7 ((7, 10 ∷ 11 ∷ []) ∷ (7, 12 ∷ []) ∷ []) log log-IsIndexed
      refl (refl, (refl, tt)) (omega arith) (λ cs h. (stream cs, refl))

fetch_negative_example : (Log.fetch {Fault = ℕ} arrow a (negsuc 0) log).0 ≡ ok []
unfolding Log.add Log.push_offsets Log.push_rows lookup insert or_insert
fetch_negative_example = fetch_negative arrow a 0 log log-IsIndexed (omega arith) (omega arith)

abbrev queue : InMemoryQueue Batch
queue = record { topics = fresh ((a, raw (codes "new") ∷ raw (codes "old") ∷ []) ∷ []) }

fetch_drains_example :
    ((Queue.fetch {Fault = ℕ} arrow a (pos 5) queue).0 ≡ ok (join (codes "old" ∷ codes "new" ∷ [])))
    × ((t : Str)
        → queue_at t (Queue.fetch {Fault = ℕ} arrow a (pos 5) queue).1.topics.inner
          ≡ (if bytes_eq.beq a t then [] else queue_at t queue.topics.inner))
unfolding lookup Queue.record_bytes
fetch_drains_example =
    fetch_drains arrow a (pos 5) queue (record { topics_live = refl })
      (raw (codes "old") ∷ raw (codes "new") ∷ []) (codes "old" ∷ codes "new" ∷ []) refl
      (refl, (refl, tt))

abbrev wal : WriteAheadLog Batch
wal = record {
  file = fresh (record { file = codes "f"; buf = codes "b" });
  buffer = fresh ((a, raw (codes "x")) ∷ []);
  config = config;
}

add_lem_example :
    ((Wal.add {Fault = ℕ} arrow os b (batch (7, 10 ∷ [])) wal).0 ≡ ok tt)
    × Added {Fault = ℕ} arrow os wal
        (Wal.add {Fault = ℕ} arrow os b (batch (7, 10 ∷ [])) wal).1
        b
        (batch (7, 10 ∷ []))
        (framed b 1 (stream ((7, 10 ∷ []) ∷ [])))
unfolding serialize
add_lem_example =
    add_lem arrow os os_takes b (batch (7, 10 ∷ [])) wal (framed b 1 (stream ((7, 10 ∷ []) ∷ [])))
      (record { file_live = refl; buffer_live = refl }) refl

flush_lem_example : Wal.flush {Fault = ℕ} arrow os (log_storage arrow) (wal, log) ≡ (
  ok tt,
  (
    record wal {
      file = record wal.file { inner = record { file = codes "fb"; buf = [] } };
      buffer = record wal.buffer { inner = [] };
    },
    add_all (log_storage arrow) wal.buffer.inner log,
  ),
)
flush_lem_example =
    flush_lem arrow os (log_storage arrow) (log-StorageLaws arrow) os_takes wal log
      (record { file_live = refl; buffer_live = refl }) log-IsIndexed
