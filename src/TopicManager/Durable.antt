-- ===== src/TopicManager/Durable.antt =====
-- src/topic_manager.rs: the file, the buffer and the backend agree after every `add`.
use herbert.Prelude.{
  ◌<◌, ◌≡◌, refl, sym, ap, ◌∙◌, false, ◌⊎◌, inl, inr, List, [], ◌∷◌, ◌++◌, append-nil, append_assoc,
  arith, leb, length, bytes_eq, Bytes, Str, Bool-cases,
}
use herbert.HashMap.{lookup}
use herbert.Outcome.{Outcome, ok, err, panic, out_of_fuel, and_then}
use herbert.Config.{Config}
use herbert.Arrow.{Arrow}
use herbert.BufWriter.{OsFile, TakesAll}
use herbert.Storage.Record.{
  StoredRecord, RecordStorage, StorageLaws, ContentsLaws, add_all, add_all-append,
  add_all-IsHealthy, add_all_same,
}
use herbert.Wal.Operations.{WriteAheadLog, need_to_flush}
use herbert.Wal.Laws.{IsLive, Added}
use herbert.Wal.Laws as WalLaws
use herbert.TopicManager.Operations.{TopicManager, stored_record, wal_add, wal_flush, flush_if, add}
use herbert.TopicManager.RoundTrip.{IsTopic}
use herbert.TopicManager.Replay.{Logged, nothing}
use herbert.TopicManager.Logging.{
  IsSmall, IsLogged, Logged-append, serialize_cases, Logged-serialize, Added-IsLogged,
}

pub need_to_flush_lem :
    {Batch Fault : Type 0} (w : WriteAheadLog Batch)
    → IsLive w
    → need_to_flush {Fault = Fault} w
      ≡ ok (leb w.config.num_uncommitted_messages (length w.buffer.inner))
unfolding need_to_flush
need_to_flush_lem w h = rw h.buffer_live refl

module _ {Schema Batch Fault : Type 0} (arrow : Arrow Schema Batch Fault) where
  -- What a request asks of the format: a topic that it can carry, and a record that, however it
  -- is stored, is short enough.
  pub record IsCarried {S : Type 0} (tm : TopicManager Schema Batch S) (topic : Str) (bytes : Bytes)
      : Type 0 where
    pub topic_fits : IsTopic topic
    pub record_fits :
        (r : StoredRecord Batch)
        → stored_record arrow (lookup topic tm.topic_metadatas.inner) bytes ≡ ok r
        → IsSmall arrow r

  module _ {S C : Type 0} (storage : RecordStorage Batch Fault S) (IsHealthy : S → Type 0)
      (contents : S → C) (start : S) (config : Config) where
    -- The state of a manager whose backend began as `start`.
    pub record IsDurable (tm : TopicManager Schema Batch S) : Type 0 where
      pub wal_live : IsLive tm.wal
      pub wal_config : tm.wal.config ≡ config
      pub metadatas_live : tm.topic_metadatas.poisoned ≡ false
      pub healthy : IsHealthy tm.backend
      -- the records that the backend has been given, in order, which make up what it holds
      pub applied : List (Str × StoredRecord Batch)
      pub backend_is : contents tm.backend ≡ contents (add_all storage applied start)
      pub log : IsLogged arrow tm.wal applied
      pub backlog :
          (tm.wal.buffer.inner ≡ [])
          ⊎ (length tm.wal.buffer.inner < tm.wal.config.num_uncommitted_messages)

    module _ (os : OsFile) (takes : TakesAll os) (laws : StorageLaws storage IsHealthy)
        (same : ContentsLaws storage IsHealthy contents) (start_healthy : IsHealthy start) where
      -- The manager after the log has one more entry.
      after_entry :
          (topic : Str) (r : StoredRecord Batch) (entry : Bytes) (tm : TopicManager Schema Batch S)
          (v : WriteAheadLog Batch)
          → Logged arrow ((topic, r) ∷ []) entry
          → (d : IsDurable tm) → Added arrow os tm.wal v topic r entry
          → IsDurable
              (flush_if arrow os storage
                (need_to_flush {Fault = Fault} v)
                (record tm { wal = v })).1
      unfolding flush_if wal_flush
      after_entry topic r entry tm v l d a =
          let log =
            Added-IsLogged arrow tm.wal v topic r entry d.applied l a.buffer_is d.log a.placed in
          elim (Bool-cases (leb v.config.num_uncommitted_messages (length v.buffer.inner))) [
            | inl full ↦
                rw
                  (
                    need_to_flush_lem v a.live,
                    full,
                    WalLaws.flush_lem arrow os storage laws takes v tm.backend a.live d.healthy,
                  )
                  (record {
                    wal_live = record {
                      file_live = a.live.file_live;
                      buffer_live = a.live.buffer_live;
                    };
                    wal_config = a.same_config ∙ d.wal_config;
                    metadatas_live = d.metadatas_live;
                    healthy = add_all-IsHealthy storage laws v.buffer.inner tm.backend d.healthy;
                    applied = d.applied ++ v.buffer.inner;
                    backend_is =
                        add_all_same storage contents laws same v.buffer.inner tm.backend _
                          d.healthy (add_all-IsHealthy storage laws d.applied start start_healthy)
                          d.backend_is
                        ∙ ap contents (sym (add_all-append storage d.applied v.buffer.inner start));
                    log = record {
                      ahead = [];
                      pending = [];
                      in_file =
                          rw
                            (
                              append-nil,
                              log.buffered,
                              ← append_assoc d.applied log.ahead log.pending,
                            )
                            (Logged-append arrow log.in_file log.in_buf);
                      in_buf = nothing;
                      buffered = refl;
                    };
                    backlog = inl refl;
                  })
            | inr room ↦
                rw (need_to_flush_lem v a.live, room)
                  (record {
                    wal_live = a.live;
                    wal_config = a.same_config ∙ d.wal_config;
                    metadatas_live = d.metadatas_live;
                    healthy = d.healthy;
                    applied = d.applied;
                    backend_is = d.backend_is;
                    log = log;
                    backlog = inr (ground arith);
                  })
          ]

      after_wal_add :
          (topic : Str) (r : StoredRecord Batch) (tm : TopicManager Schema Batch S)
          → IsTopic topic
          → IsSmall arrow r
          → IsDurable tm
          → IsDurable
              (and_then
                (wal_add arrow os storage topic r tm)
                (λ _ tm. flush_if arrow os storage (need_to_flush tm.wal) tm)).1
      unfolding wal_add
      after_wal_add topic r tm t small d = elim (serialize_cases arrow topic r) [
        | inl (entry, e) ↦
            let (done, added) = WalLaws.add_lem arrow os takes topic r tm.wal entry d.wal_live e in
            rw done (
              after_entry topic r entry tm _ (Logged-serialize arrow topic r entry t small e) d
                added)
        | inr (x, e) ↦ rw (WalLaws.add_err arrow os topic r tm.wal x d.wal_live e) d
      ]

      add-IsDurable_of :
          (topic : Str) (bytes : Bytes) (tm : TopicManager Schema Batch S)
          (o : Outcome Fault (StoredRecord Batch))
          → stored_record arrow (lookup topic tm.topic_metadatas.inner) bytes ≡ o
          → IsCarried tm topic bytes
          → IsDurable tm
          → IsDurable (add arrow os storage topic bytes tm).1
      unfolding add
      add-IsDurable_of topic bytes tm (ok r) e c d =
          simp (d.metadatas_live, e) (after_wal_add topic r tm c.topic_fits (c.record_fits r e) d)
      add-IsDurable_of topic bytes tm (err x) e c d = simp (d.metadatas_live, e) d
      add-IsDurable_of topic bytes tm panic e c d = simp (d.metadatas_live, e) d
      add-IsDurable_of topic bytes tm out_of_fuel e c d = simp (d.metadatas_live, e) d

      -- Whatever the outcome of an `add`, the backend holds what certain records, given to it in order,
      -- leave, and the file holds an entry for each of these, in order, and behind them entries of a part of the buffer, and the entries of the rest
      -- wait in the writer; and the buffer is empty or holds fewer records than
      -- `num_uncommitted_messages`; if this was so before, the format can carry the record, the disk
      -- takes every write, and the backend takes every record.
      pub add-IsDurable :
          (topic : Str) (bytes : Bytes) (tm : TopicManager Schema Batch S)
          → IsCarried tm topic bytes
          → IsDurable tm
          → IsDurable (add arrow os storage topic bytes tm).1
      add-IsDurable topic bytes tm c d = add-IsDurable_of topic bytes tm _ refl c d
