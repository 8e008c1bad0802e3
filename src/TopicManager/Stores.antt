-- ===== src/TopicManager/Stores.antt =====
-- src/topic_manager.rs: what `add` gives to the backend, where each record is flushed at once.
use herbert.Prelude.{
  ◌≤◌, ◌≡◌, ◌≢◌, refl, ap, ◌∙◌, true, false, none, some, ◌⊎◌, inl, inr, [], ◌∷◌, ◌++◌, arith, leb,
  length, bytes_eq, Bytes, Str,
}
use herbert.HashMap.{lookup}
use herbert.Outcome.{Outcome, ok, err, panic, out_of_fuel, and_then}
use herbert.Arrow.{Arrow, ArrowLaws}
use herbert.BufWriter.{OsFile, TakesAll}
use herbert.Storage.Record.{StoredRecord, raw, batch, RecordStorage, StorageLaws}
use herbert.Wal.Serialize.{framed, serialize}
use herbert.Wal.Operations.{WriteAheadLog, need_to_flush}
use herbert.Wal.Laws as WalLaws
use herbert.Wal.Laws.{IsLive}
use herbert.TopicManager.Operations.{
  TopicManager, new_metadata, stored_record, wal_add, wal_flush, flush_if, add,
}
use herbert.TopicManager.Logging.{serialize_cases}
use herbert.TopicManager.Durable.{need_to_flush_lem}
use herbert.TopicManager.Schemas.{stored-schema}

-- At most one message may stay uncommitted and none does, and no lock is poisoned.
pub record IsFlushed {Schema Batch S : Type 0} (IsHealthy : S → Type 0)
    (tm : TopicManager Schema Batch S) : Type 0 where
  pub wal_live : IsLive tm.wal
  pub healthy : IsHealthy tm.backend
  pub metadatas_live : tm.topic_metadatas.poisoned ≡ false
  pub empty : tm.wal.buffer.inner ≡ []
  pub few : tm.wal.config.num_uncommitted_messages ≤ 1

-- The topic is not known, or known without a schema.
abbrev pub HasNoSchema : {Schema Batch S : Type 0} → Str → TopicManager Schema Batch S → Type 0
HasNoSchema topic tm =
    (lookup topic tm.topic_metadatas.inner ≡ none)
    ⊎ ((name : Str) × (lookup topic tm.topic_metadatas.inner ≡ some (new_metadata name none)))

module _ {Schema Batch Fault S : Type 0} (arrow : Arrow Schema Batch Fault) (os : OsFile)
    (storage : RecordStorage Batch Fault S) {IsHealthy : S → Type 0}
    (laws : StorageLaws storage IsHealthy) (takes : TakesAll os) where
  abbrev Manager : Type 0
  Manager = TopicManager Schema Batch S

  -- What a call leaves of the manager: the backend has the record, and nothing waits for it.
  abbrev pub HasStored : Str → StoredRecord Batch → S → Outcome Fault Unit × Manager → Type 0
  HasStored topic r backend c =
      (c.0 ≡ ok tt) × (c.1.backend ≡ (storage.add topic r backend).1) × (c.1.wal.buffer.inner ≡ [])

  flush_now :
      (topic : Str) (r : StoredRecord Batch) (tm : Manager) (v : WriteAheadLog Batch)
      → IsLive v
      → IsHealthy tm.backend
      → v.buffer.inner ≡ (topic, r) ∷ []
      → v.config.num_uncommitted_messages ≤ 1
      → HasStored topic r tm.backend
          (flush_if arrow os storage (need_to_flush {Fault = Fault} v) (record tm { wal = v }))
  unfolding flush_if wal_flush
  flush_now topic r tm v live healthy one few =
      let full : leb v.config.num_uncommitted_messages (length v.buffer.inner) ≡ true =
        rw one (ground arith) in
      rw
        (
          need_to_flush_lem v live,
          full,
          WalLaws.flush_lem arrow os storage laws takes v tm.backend live healthy,
          one,
        )
        (refl, refl, refl)

  log_now :
      (topic : Str) (r : StoredRecord Batch) (entry : Bytes) (tm : Manager)
      → IsFlushed IsHealthy tm
      → serialize arrow topic r ≡ ok entry
      → HasStored topic r tm.backend (
          and_then
            (wal_add arrow os storage topic r tm)
            (λ _ tm. flush_if arrow os storage (need_to_flush tm.wal) tm))
  unfolding wal_add
  log_now topic r entry tm h e =
      let (done, added) = WalLaws.add_lem arrow os takes topic r tm.wal entry h.wal_live e in
      let one = added.buffer_is ∙ ap (λ es. es ++ (topic, r) ∷ []) h.empty in
      rw done (flush_now topic r tm _ added.live h.healthy one (rw added.same_config h.few))

  stored-HasNoSchema :
      (topic bytes : Bytes) (tm : Manager)
      → HasNoSchema topic tm
      → stored_record arrow (lookup topic tm.topic_metadatas.inner) bytes ≡ ok (raw bytes)
  unfolding stored_record
  stored-HasNoSchema topic bytes tm (inl e) = rw (e, stored_record) refl
  stored-HasNoSchema topic bytes tm (inr (name, e)) = rw (e, stored_record) refl

  -- A record of a topic with no schema is stored as it is.
  pub add-HasNoSchema :
      (topic : Str) (bytes : Bytes) (tm : Manager)
      → IsFlushed IsHealthy tm
      → HasNoSchema topic tm
      → HasStored topic (raw bytes) tm.backend (add arrow os storage topic bytes tm)
  unfolding add serialize
  add-HasNoSchema topic bytes tm h none_set =
      simp (h.metadatas_live, stored-HasNoSchema topic bytes tm none_set)
        (log_now topic (raw bytes) (framed topic 0 bytes) tm h refl)

  -- What an `add` for a topic of this schema comes to.
  abbrev pub StoresSchema : Schema → Str → Manager → Outcome Fault Unit × Manager → Type 0
  StoresSchema expected topic tm c =
      ((b : Batch) × (arrow.schema b ≡ expected) × HasStored topic (batch b) tm.backend c)
      ⊎ ((o : Outcome Fault Unit) × (o ≢ ok tt) × (c ≡ (o, tm)))

  log_batch :
      (expected : Schema) (topic : Str) (b : Batch) (tm : Manager)
      → IsFlushed IsHealthy tm
      → arrow.schema b ≡ expected
      → StoresSchema expected topic tm (
          and_then
            (wal_add arrow os storage topic (batch b) tm)
            (λ _ tm. flush_if arrow os storage (need_to_flush tm.wal) tm))
  unfolding wal_add
  log_batch expected topic b tm h same = elim (serialize_cases arrow topic (batch b)) [
    | inl (entry, e) ↦ inl (b, same, log_now topic (batch b) entry tm h e)
    | inr (x, e) ↦
        inr (
          err x,
          (λ e. cc),
          rw (WalLaws.add_err arrow os topic (batch b) tm.wal x h.wal_live e) refl,
        )
  ]

  -- An `add` for a topic with a schema gives the backend a batch of that schema, or it does not
  -- return `Ok` and changes nothing: not the log, not the backend. At most one message may stay
  -- uncommitted and none does, the disk and the backend take every write, no lock is poisoned, and
  -- arrow compares schemas as equality does.
  pub add-StoresSchema :
      {Row : Type 0} (arrow_laws : ArrowLaws arrow Row) (topic name : Str) (expected : Schema)
      (bytes : Bytes) (tm : Manager)
      → IsFlushed IsHealthy tm
      → lookup topic tm.topic_metadatas.inner ≡ some (new_metadata name (some expected))
      → StoresSchema expected topic tm (add arrow os storage topic bytes tm)
  unfolding add
  add-StoresSchema arrow_laws topic name expected bytes tm h known =
      of_stored (stored_record arrow (some (new_metadata name (some expected))) bytes) refl
    where
      of_stored :
          (o : Outcome Fault (StoredRecord Batch))
          → stored_record arrow (some (new_metadata name (some expected))) bytes ≡ o
          → StoresSchema expected topic tm (add arrow os storage topic bytes tm)
      of_stored (ok r) e =
          let (b, is_batch, same) = stored-schema arrow arrow_laws name expected bytes r e in
          simp (h.metadatas_live, known, e ∙ ap ok is_batch) (log_batch expected topic b tm h same)
      of_stored (err x) e = simp (h.metadatas_live, known, e) (inr (err x, (λ e. cc), refl))
      of_stored panic e = simp (h.metadatas_live, known, e) (inr (panic, (λ e. cc), refl))
      of_stored out_of_fuel e =
          simp (h.metadatas_live, known, e) (inr (out_of_fuel, (λ e. cc), refl))
