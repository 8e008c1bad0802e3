-- ===== src/TopicManager/Answers.antt =====
-- src/topic_manager.rs: `add` and `fetch` end, whatever they are given.
use herbert.Prelude.{
  Bool, true, false, not, ◌&&◌, Option, none, some, ◌⊎◌, List, [], ◌∷◌, ltb, length, take, bytes_eq,
  bytes_beq, Bytes, Str, codes,
}
use herbert.HashMap.{lookup}
use herbert.Outcome.{Outcome, ok, err, panic, out_of_fuel}
use herbert.Outcome.Ends.{Any, Ends, Ends-then, Ends-and_then, Ends-if, Ends-test}
use herbert.Arrow.{Arrow, from_arrow, from_arrow-Ends, continuation}
use herbert.BufWriter.{OsFile}
use herbert.Storage.Record.{StoredRecord, RecordStorage}
use herbert.Wal.Operations as Wal
use herbert.Wal.Ends as WalEnds
use herbert.TopicManager.Operations.{
  TopicManager, TopicMetadata, first_batch, parse_record_batch_from_bytes, stored_record, wal_add,
  wal_flush, flush_if, add,
}

module _ {Schema Batch Fault : Type 0} (arrow : Arrow Schema Batch Fault) where
  first_batch-Ends :
      (expected : Schema) (items : List (Fault ⊎ Batch))
      → Ends Any (first_batch arrow expected items)
  unfolding first_batch
  first_batch-Ends expected [] = tt
  first_batch-Ends expected (item ∷ items) =
      Ends-then Any Any (from_arrow item) _ (from_arrow-Ends item)
        λ b _. Ends-test Any (arrow.schema_beq (arrow.schema b) expected) _ _ tt tt

  parse-Ends :
      (bytes : Bytes) (schema : Schema)
      → Ends Any (parse_record_batch_from_bytes arrow bytes schema)
  unfolding parse_record_batch_from_bytes
  parse-Ends bytes schema = Ends-test Any (ltb (length bytes) 8) _ _ tt (
      Ends-test Any
        (not (bytes_beq (take 6 bytes) (codes "ARROW1"))
          && not (bytes_beq (take 4 bytes) continuation))
        _ _ tt
        (Ends-then Any Any (from_arrow (arrow.read_stream bytes)) _ (from_arrow-Ends _)
          λ items _. first_batch-Ends schema items))

  schema-Ends :
      (name : Str) (schema : Option Schema) (bytes : Bytes)
      → Ends Any (stored_record arrow (some (record { name = name; schema = schema })) bytes)
  unfolding stored_record
  schema-Ends name none bytes = tt
  schema-Ends name (some schema) bytes =
      Ends-then Any Any (parse_record_batch_from_bytes arrow bytes schema) _
        (parse-Ends bytes schema) (λ _ _. tt)

  stored_record-Ends :
      (metadata : Option (TopicMetadata Schema)) (bytes : Bytes)
      → Ends Any (stored_record arrow metadata bytes)
  unfolding stored_record
  stored_record-Ends none bytes = tt
  stored_record-Ends (some metadata) bytes = schema-Ends metadata.name metadata.schema bytes

  module _ (os : OsFile) {S : Type 0} (storage : RecordStorage Batch Fault S)
      (ends : (topic : Str) (r : StoredRecord Batch) (s : S)
        → Ends Any (storage.add topic r s).0) where
    abbrev Manager : Type 0
    Manager = TopicManager Schema Batch S

    flush_if-Ends :
        (full : Outcome Fault Bool) (tm : Manager) → Ends Any (flush_if arrow os storage full tm).0
    unfolding flush_if wal_flush
    flush_if-Ends (ok true) tm = WalEnds.flush-Ends_lem arrow os storage ends tm.wal tm.backend
    flush_if-Ends (ok false) tm = tt
    flush_if-Ends (err e) tm = tt
    flush_if-Ends panic tm = tt
    flush_if-Ends out_of_fuel tm = tt

    pub add-Ends :
        (topic : Str) (bytes : Bytes) (tm : Manager)
        → Ends Any (add arrow os storage topic bytes tm).0
    unfolding add wal_add
    add-Ends topic bytes tm = Ends-if Any tm.topic_metadatas.poisoned _ _ tt (
        Ends-and_then Any Any
          (stored_record arrow (lookup topic tm.topic_metadatas.inner) bytes, tm) _
          (stored_record-Ends _ bytes)
          λ r tm1 _.
            Ends-and_then Any Any (wal_add arrow os storage topic r tm1) _
              (WalEnds.add-Ends arrow os topic r tm1.wal)
              λ _ tm2 _. flush_if-Ends (Wal.need_to_flush tm2.wal) tm2)
