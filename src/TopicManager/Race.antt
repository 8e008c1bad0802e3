-- ===== src/TopicManager/Race.antt =====
-- src/topic_manager.rs and src/wal.rs: a record that is stored before its entry is in the file.
use herbert.Prelude.{
  ◌<◌, ◌≤◌, ◌≡◌, refl, true, none, List, [], ◌∷◌, ◌++◌, arith, leb, length, Bytes, Str,
}
use herbert.Outcome.{ok, fresh}
use herbert.Config.{Config}
use herbert.Arrow.{Arrow}
use herbert.BufWriter
use herbert.BufWriter.{BufWriter, OsFile, TakesAll}
use herbert.Storage.Record.{StoredRecord, RecordStorage, StorageLaws, add_all}
use herbert.Wal.Serialize.{serialize}
use herbert.Wal.Operations.{WriteAheadLog, write_file, push, need_to_flush, drain_buffer}
use herbert.Wal.Laws.{add_each_lem}
use herbert.TopicManager.RoundTrip.{IsTopic}
use herbert.TopicManager.Logging.{IsSmall}
use herbert.TopicManager.Threads.{
  Threads, write, enqueue, decide, flush_file, drain, Steps, start, next,
}

module _ {Schema Batch Fault S : Type 0} (arrow : Arrow Schema Batch Fault) (os : OsFile)
    (takes : TakesAll os) (storage : RecordStorage Batch Fault S) {IsHealthy : S → Type 0}
    (laws : StorageLaws storage IsHealthy) (config : Config) where
  -- The log with these bytes in the file, these in the buffer of the writer, and these records
  -- in the buffer.
  abbrev pub log : (file buf : Bytes) → List (Str × StoredRecord Batch) → WriteAheadLog Batch
  log file buf es = record {
    file = fresh (record { file = file; buf = buf });
    buffer = fresh es;
    config = config;
  }

  -- No thread is inside `add`.
  abbrev pub at_rest : (file : Bytes) → S → Threads Batch S
  at_rest file backend = record {
    wal = log file [] [];
    backend = backend;
    holder = none;
    added = 0;
    flushing = 0;
    flushed = 0;
  }

  module _ (file : Bytes) (backend : S) (a b : Str) (ra rb : StoredRecord Batch) (ea eb : Bytes)
      (ta : IsTopic a) (tb : IsTopic b) (small_a : IsSmall arrow ra) (small_b : IsSmall arrow rb)
      (sa : serialize arrow a ra ≡ ok ea) (sb : serialize arrow b rb ≡ ok eb)
      (fits_a : length ea < 8192) (fits_b : length eb < 8192)
      (one : config.num_uncommitted_messages ≤ 1) (healthy : IsHealthy backend) where
    write_file-small :
        (f entry : Bytes) (es : List (Str × StoredRecord Batch))
        → length entry < 8192
        → write_file arrow os entry (log f [] es) ≡ (ok (length entry), log f entry es)
    unfolding write_file
    write_file-small f entry es small =
        rw (BufWriter.write_small {Fault = Fault} os entry f small) refl

    need_to_flush-one : need_to_flush {Fault = Fault} (log file ea ((a, ra) ∷ [])) ≡ ok true
    unfolding need_to_flush
    need_to_flush-one =
        let full : leb config.num_uncommitted_messages 1 ≡ true = ground (arith, one) in
        rw full refl

    drained :
        (f buf : Bytes) (es : List (Str × StoredRecord Batch))
        → drain_buffer arrow os storage (log f buf es, backend)
          ≡ (ok tt, (log f buf [], add_all storage es backend))
    unfolding drain_buffer
    drained f buf es = rw (add_each_lem arrow os storage laws es backend healthy) refl

    pushed :
        (f buf : Bytes) (es : List (Str × StoredRecord Batch)) (topic : Str)
        (r : StoredRecord Batch)
        → push arrow os topic r (log f buf es) ≡ (ok tt, log f buf (es ++ (topic, r) ∷ []))
    unfolding push
    pushed f buf es topic r = refl

    -- A record can be in the backend while its entry is not in the file: from a log at rest, where one
    -- record is enough to flush, a second thread adds its record after the first has flushed the
    -- file and before it drains the buffer. The backend then has both records, and the file the first
    -- entry only; the second is in the buffer of the writer. Both
    -- entries are shorter than that buffer, the disk takes every write and the backend every record.
    pub at_rest-Steps : Steps arrow os storage (at_rest file backend) (record {
      wal = log (file ++ ea) eb [];
      backend = add_all storage ((a, ra) ∷ (b, rb) ∷ []) backend;
      holder = none;
      added = 1;
      flushing = 0;
      flushed = 0;
    })
    at_rest-Steps =
        next
          (next
            (next
              (next
                (next
                  (next
                    (next start (
                      write a ra ea (length ea) _ ta small_a refl sa
                        (write_file-small file ea [] fits_a)))
                    (enqueue a ra _ refl (pushed file ea [] a ra)))
                  (decide 0 refl need_to_flush-one))
                (flush_file 0 _ refl refl (BufWriter.flush_lem {Fault = Fault} os takes _)))
              (write b rb eb (length eb) _ tb small_b refl sb
                (write_file-small (file ++ ea) eb ((a, ra) ∷ []) fits_b)))
            (enqueue b rb _ refl (pushed (file ++ ea) eb ((a, ra) ∷ []) b rb)))
          (drain 0 _ _ refl (drained (file ++ ea) eb ((a, ra) ∷ (b, rb) ∷ [])))
