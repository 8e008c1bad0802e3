-- ===== src/Storage/InMemoryLog.antt =====
-- src/storage/in_memory_log.rs
pub mod Places
pub mod Fetch
pub mod Ends
pub mod Index
pub mod Contents
pub mod RawTopic
pub mod BatchTopic
use herbert.Prelude.{
  ℕ, zero, suc, ◌+◌, ◌-◌, ◌≡◌, refl, true, false, Option, none, some, ◌⊎◌, inl, inr, List, [], ◌∷◌,
  ◌++◌, arith, ltb, if◌then◌else◌, length, get_elem?, drop, bytes_eq, Bytes, Str,
}
use herbert.Prelude.Int.{ℤ, as_usize}
use herbert.HashMap.{HashMap, insert, or_insert, queue_at}
use herbert.Outcome.{
  Outcome, ok, err, panic, out_of_fuel, Method, and_then, poison_error, Lock, fresh, poison, ◌>>=◌,
}
use herbert.Arrow.{Arrow, from_arrow}
use herbert.Storage.Record.{StoredRecord, raw, batch, RecordStorage}

pub record RecordOffset : Type 0 where
  pub batch_index : ℕ
  pub row_offset : ℕ

pub record InMemoryLog (Batch : Type 0) : Type 0 where
  pub topics : Lock (HashMap Str (List (StoredRecord Batch)))
  pub offsets : Lock (HashMap Str (List RecordOffset))

abbrev pub new : {Batch : Type 0} → InMemoryLog Batch
new = record { topics = fresh []; offsets = fresh [] }

-- `for row_offset in 0..num_rows`: `n` rounds are left.
unfoldable pub push_rows : ℕ → ℕ → ℕ → List RecordOffset → List RecordOffset
push_rows batch_index row_offset zero queue = queue
push_rows batch_index row_offset (suc n) queue =
    push_rows batch_index (suc row_offset) n
      (queue ++ (record { batch_index = batch_index; row_offset = row_offset } ∷ []))

module _ {Schema Batch Fault : Type 0} (arrow : Arrow Schema Batch Fault) where
  -- The `match record` of `add`, on the topic's queue of offsets.
  unfoldable pub push_offsets : StoredRecord Batch → ℕ → List RecordOffset → List RecordOffset
  unfolding push_rows
  push_offsets (raw _) batch_index queue =
      queue ++ (record { batch_index = batch_index; row_offset = 0 } ∷ [])
  push_offsets (batch b) batch_index queue = push_rows batch_index 0 (arrow.num_rows b) queue

  unfoldable pub add : Str → StoredRecord Batch → Method Fault (InMemoryLog Batch) Unit
  add topic r s =
      if s.topics.poisoned
      then (err poison_error, s)
      else let topics = or_insert topic [] s.topics.inner in
        let s1 : InMemoryLog Batch = record s { topics = record s.topics { inner = topics } } in
        if s.offsets.poisoned
        then (err poison_error, s1)
        else let offsets = or_insert topic [] s.offsets.inner in
          let queue = queue_at topic topics in
          let offset_queue = push_offsets r (length queue) (queue_at topic offsets) in
          (
            ok tt,
            record {
              topics = record s.topics { inner = insert topic (queue ++ (r ∷ [])) topics };
              offsets = record s.offsets { inner = insert topic offset_queue offsets };
            },
          )

  -- `if iter.peek().is_some() { records.put_u8(0) }`
  abbrev pub separator : List (StoredRecord Batch) → Bytes
  separator [] = []
  separator (_ ∷ _) = 0 ∷ []

  -- The loop over the records from `batch_index` on, with its two accumulators. A slice that does
  -- not fit the batch panics.
  unfoldable pub collect :
      ℕ → List (StoredRecord Batch) → Bytes → List Batch → Outcome Fault (Bytes × List Batch)
  collect row_offset [] records batches = ok (records, batches)
  collect row_offset (raw bytes ∷ rest) records batches =
      collect row_offset rest (records ++ (bytes ++ separator rest)) batches
  collect row_offset (batch b ∷ rest) records [] =
      let n = arrow.num_rows b in
      let more = collect row_offset rest records (arrow.slice b row_offset (n - row_offset) ∷ []) in
      if ltb n row_offset then panic else more
  collect row_offset (batch b ∷ rest) records (c ∷ cs) =
      collect row_offset rest records ((c ∷ cs) ++ (b ∷ []))

  -- The batches as one stream behind the raw bytes.
  unfoldable pub finish_records : Bytes × List Batch → Outcome Fault Bytes
  finish_records (records, []) = ok records
  finish_records (records, b ∷ bs) = do
    buffer ← from_arrow (arrow.write_stream (arrow.schema b) (b ∷ bs))
    ok (records ++ buffer)

  -- `fetch` from `self.topics.write()` on; both locks are held for writing.
  unfoldable pub fetch_from : Str → RecordOffset → Method Fault (InMemoryLog Batch) Bytes
  fetch_from topic at s =
      if s.topics.poisoned
      then (err poison_error, s)
      else let topics = or_insert topic [] s.topics.inner in
        let s1 : InMemoryLog Batch = record s { topics = record s.topics { inner = topics } } in
        elim (collect at.row_offset (drop at.batch_index (queue_at topic topics)) [] []) [
          | ok found ↦ (finish_records found, s1)
          | err e ↦ (err e, s1)
          | panic ↦ (panic, record { topics = poison s1.topics; offsets = poison s1.offsets })
          | out_of_fuel ↦ (out_of_fuel, s1)
        ]

  unfoldable pub fetch : Str → ℤ → Method Fault (InMemoryLog Batch) Bytes
  fetch topic fetch_offset s =
      if s.offsets.poisoned
      then (err poison_error, s)
      else let offsets = or_insert topic [] s.offsets.inner in
        let s1 : InMemoryLog Batch = record s { offsets = record s.offsets { inner = offsets } } in
        elim (get_elem? (queue_at topic offsets) (as_usize fetch_offset)) [
          | none ↦ (ok [], s1)
          | some at ↦ fetch_from topic at s1
        ]

  abbrev pub log_storage : RecordStorage Batch Fault (InMemoryLog Batch)
  log_storage = record { add = add; fetch = fetch }
