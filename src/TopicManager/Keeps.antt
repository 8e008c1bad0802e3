-- ===== src/TopicManager/Keeps.antt =====
-- src/topic_manager.rs: `add` leaves the schemas of the topics as they are.
use herbert.Prelude.{◌≡◌, refl, ◌∙◌, inl, inr, Bool-cases, Bool, true, false, bytes_eq, Bytes, Str}
use herbert.HashMap.{HashMap, lookup}
use herbert.Outcome.{Outcome, ok, err, panic, out_of_fuel, and_then, Lock}
use herbert.Arrow.{Arrow}
use herbert.BufWriter.{OsFile}
use herbert.Storage.Record.{StoredRecord, RecordStorage}
use herbert.Wal.Operations as Wal
use herbert.TopicManager.Operations.{
  TopicManager, TopicMetadata, stored_record, wal_add, wal_flush, flush_if, add,
}

module _ {Schema Batch Fault S : Type 0} (arrow : Arrow Schema Batch Fault) (os : OsFile)
    (storage : RecordStorage Batch Fault S) where
  abbrev Manager : Type 0
  Manager = TopicManager Schema Batch S

  and_then_keeps :
      {A B : Type 0} (topics : Lock (HashMap Str (TopicMetadata Schema)))
      (r : Outcome Fault A × Manager) (f : A → Manager → Outcome Fault B × Manager)
      → r.1.topic_metadatas ≡ topics
      → ((a : A) (tm : Manager) → tm.topic_metadatas ≡ topics → (f a tm).1.topic_metadatas ≡ topics)
      → (and_then r f).1.topic_metadatas ≡ topics
  and_then_keeps topics (ok a, tm) f h k = k a tm h
  and_then_keeps topics (err e, tm) f h k = h
  and_then_keeps topics (panic, tm) f h k = h
  and_then_keeps topics (out_of_fuel, tm) f h k = h

  flush_if_keeps :
      (full : Outcome Fault Bool) (tm : Manager)
      → (flush_if arrow os storage full tm).1.topic_metadatas ≡ tm.topic_metadatas
  unfolding flush_if wal_flush
  flush_if_keeps (ok true) tm = refl
  flush_if_keeps (ok false) tm = refl
  flush_if_keeps (err e) tm = refl
  flush_if_keeps panic tm = refl
  flush_if_keeps out_of_fuel tm = refl

  wal_add_keeps :
      (topic : Str) (r : StoredRecord Batch) (tm : Manager)
      → (wal_add arrow os storage topic r tm).1.topic_metadatas ≡ tm.topic_metadatas
  unfolding wal_add
  wal_add_keeps topic r tm = refl

  -- Whatever `add` is given and however it ends, the topics and their schemas stay as they are.
  pub add_keeps :
      (topic : Str) (bytes : Bytes) (tm : Manager)
      → (add arrow os storage topic bytes tm).1.topic_metadatas ≡ tm.topic_metadatas
  unfolding add
  add_keeps topic bytes tm = elim (Bool-cases tm.topic_metadatas.poisoned) [
    | inl broken ↦ simp broken
    | inr live ↦ simp live (
        and_then_keeps tm.topic_metadatas
          (stored_record arrow (lookup topic tm.topic_metadatas.inner) bytes, tm) _ refl
          λ r tm1 h1.
            and_then_keeps tm.topic_metadatas (wal_add arrow os storage topic r tm1) _
              (wal_add_keeps topic r tm1 ∙ h1)
              λ _ tm2 h2. flush_if_keeps (Wal.need_to_flush tm2.wal) tm2 ∙ h2)
  ]
