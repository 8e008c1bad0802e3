-- ===== src/Storage/InMemoryQueue.antt =====
-- src/storage/in_memory_queue.rs. A deque is a list whose head is the front.
pub mod Fifo
use herbert.Prelude.{
  zero, suc, false, none, some, List, [], ◌∷◌, ◌++◌, if◌then◌else◌, length, without_last, get_last?,
  bytes_eq, Bytes, Str, ℕ,
}
use herbert.Prelude.Int.{ℤ}
use herbert.HashMap.{HashMap, insert, or_insert, queue_at}
use herbert.Outcome.{
  Outcome, ok, err, panic, out_of_fuel, Method, poison_error, empty_queue, Lock, fresh,
}
use herbert.Arrow.{Arrow, from_arrow}
use herbert.Storage.Record.{StoredRecord, raw, batch, RecordStorage}

pub record InMemoryQueue (Batch : Type 0) : Type 0 where
  pub topics : Lock (HashMap Str (List (StoredRecord Batch)))

abbrev pub new : {Batch : Type 0} → InMemoryQueue Batch
new = record { topics = fresh [] }

module _ {Schema Batch Fault : Type 0} (arrow : Arrow Schema Batch Fault) where
  unfoldable pub add : Str → StoredRecord Batch → Method Fault (InMemoryQueue Batch) Unit
  add topic r s =
      if s.topics.poisoned
      then (err poison_error, s)
      else let topics = or_insert topic [] s.topics.inner in
        (
          ok tt,
          record {
            topics = record s.topics { inner = insert topic (r ∷ queue_at topic topics) topics };
          },
        )

  -- The bytes that a consumer gets for one record.
  unfoldable pub record_bytes : StoredRecord Batch → Outcome Fault Bytes
  record_bytes (raw bytes) = ok bytes
  record_bytes (batch b) = from_arrow (arrow.write_stream (arrow.schema b) (b ∷ []))

  abbrev pub separator : List (StoredRecord Batch) → Bytes
  separator [] = []
  separator (_ ∷ _) = 0 ∷ []

  -- `while !queue.is_empty()`, with the length of the queue as fuel. Beside the outcome stands the
  -- queue that is left: a record that has been popped is gone, also where its encoding fails.
  unfoldable pub drain :
      ℕ → List (StoredRecord Batch) → Bytes → Outcome Fault Bytes × List (StoredRecord Batch)
  drain _ [] records = (ok records, [])
  drain zero (x ∷ queue) records = (out_of_fuel, x ∷ queue)
  drain (suc fuel) (x ∷ queue) records =
      let rest = without_last (x ∷ queue) in
      elim (get_last? (x ∷ queue)) [
        | none ↦ (err empty_queue, x ∷ queue)
        | some r ↦ elim (record_bytes r) [
          | ok bytes ↦ drain fuel rest (records ++ (bytes ++ separator rest))
          | err e ↦ (err e, rest)
          | panic ↦ (panic, rest)
          | out_of_fuel ↦ (out_of_fuel, rest)
        ]
      ]

  unfoldable pub fetch : Str → ℤ → Method Fault (InMemoryQueue Batch) Bytes
  fetch topic _fetch_offset s =
      if s.topics.poisoned
      then (err poison_error, s)
      else let topics = or_insert topic [] s.topics.inner in
        let queue = queue_at topic topics in
        let drained = drain (length queue) queue [] in
        (drained.0, record { topics = record s.topics { inner = insert topic drained.1 topics } })

  abbrev pub queue_storage : RecordStorage Batch Fault (InMemoryQueue Batch)
  queue_storage = record { add = add; fetch = fetch }
