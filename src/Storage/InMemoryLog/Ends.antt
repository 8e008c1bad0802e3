-- ===== src/Storage/InMemoryLog/Ends.antt =====
-- src/storage/in_memory_log.rs: `add` and `fetch` end.
use herbert.Prelude.{ℕ, List, [], ◌∷◌, drop, ltb, get_elem?, bytes_eq, Bytes, Str}
use herbert.Prelude.Int.{ℤ, as_usize}
use herbert.HashMap.{queue_at, or_insert}
use herbert.Outcome.{Outcome, ok, err, panic, out_of_fuel}
use herbert.Outcome.Ends.{Any, Ends, Ends-then, Ends-if, Ends-test, Ends-match}
use herbert.Arrow.{Arrow, from_arrow, from_arrow-Ends}
use herbert.Storage.Record.{StoredRecord, raw, batch, AlwaysEnds}
use herbert.Storage.InMemoryLog.{
  RecordOffset, InMemoryLog, collect, finish_records, fetch_from, fetch, add, log_storage,
}

module _ {Schema Batch Fault : Type 0} (arrow : Arrow Schema Batch Fault) where
  collect-Ends :
      (row_offset : ℕ) (rs : List (StoredRecord Batch)) (records : Bytes) (batches : List Batch)
      → Ends Any (collect arrow row_offset rs records batches)
  unfolding collect
  collect-Ends row_offset [] records batches = tt
  collect-Ends row_offset (raw bytes ∷ rest) records batches =
      collect-Ends row_offset rest _ batches
  collect-Ends row_offset (batch b ∷ rest) records [] =
      Ends-test Any (ltb (arrow.num_rows b) row_offset) _ _ tt
        (collect-Ends row_offset rest records _)
  collect-Ends row_offset (batch b ∷ rest) records (c ∷ cs) = collect-Ends row_offset rest records _

  finish-Ends : (found : Bytes × List Batch) → Ends Any (finish_records arrow found)
  unfolding finish_records
  finish-Ends (records, []) = tt
  finish-Ends (records, b ∷ bs) =
      Ends-then Any Any (from_arrow (arrow.write_stream (arrow.schema b) (b ∷ bs))) _
        (from_arrow-Ends _) (λ _ _. tt)

  found-Ends :
      (o : Outcome Fault (Bytes × List Batch)) (kept poisoned : InMemoryLog Batch)
      → Ends Any o
      → Ends Any
          (elim o as (λ _. Outcome Fault Bytes × InMemoryLog Batch) [
            | ok found ↦ (finish_records arrow found, kept)
            | err e ↦ (err e, kept)
            | panic ↦ (panic, poisoned)
            | out_of_fuel ↦ (out_of_fuel, kept)
          ]).0
  found-Ends (ok found) kept poisoned h = finish-Ends found
  found-Ends (err e) kept poisoned h = tt
  found-Ends panic kept poisoned h = tt
  found-Ends out_of_fuel kept poisoned h = h

  fetch_from-Ends :
      (topic : Str) (at : RecordOffset) (s : InMemoryLog Batch)
      → Ends Any (fetch_from arrow topic at s).0
  unfolding fetch_from
  fetch_from-Ends topic at s = Ends-if Any s.topics.poisoned _ _ tt (
      found-Ends
        (collect arrow at.row_offset
          (drop at.batch_index (queue_at topic (or_insert topic [] s.topics.inner))) [] [])
        _ _ (collect-Ends at.row_offset _ [] []))

  fetch-Ends :
      (topic : Str) (offset : ℤ) (s : InMemoryLog Batch) → Ends Any (fetch arrow topic offset s).0
  unfolding fetch
  fetch-Ends topic offset s = Ends-if Any s.offsets.poisoned _ _ tt (
      Ends-match Any
        (get_elem? (queue_at topic (or_insert topic [] s.offsets.inner)) (as_usize offset)) _ _ tt
        (λ at. fetch_from-Ends topic at _))

  -- The log takes each record or refuses it with an error.
  add-Ends :
      (topic : Str) (r : StoredRecord Batch) (s : InMemoryLog Batch)
      → Ends Any (add arrow topic r s).0
  unfolding add
  add-Ends topic r s =
      Ends-if Any s.topics.poisoned _ _ tt (Ends-if Any s.offsets.poisoned _ _ tt tt)

  pub log-AlwaysEnds : AlwaysEnds (log_storage arrow)
  log-AlwaysEnds = record { add_ends = add-Ends; fetch_ends = fetch-Ends }
