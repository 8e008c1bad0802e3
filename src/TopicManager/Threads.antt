-- ===== src/TopicManager/Threads.antt =====
-- src/topic_manager.rs and src/wal.rs: threads inside `TopicManager::add` at once. Each step is what
-- a thread does while it has a lock.
use herbert.Prelude.{ℕ, suc, ◌≡◌, true, false, Option, none, some, Bytes, Str}
use herbert.Outcome.{ok}
use herbert.Arrow.{Arrow}
use herbert.BufWriter
use herbert.BufWriter.{BufWriter, OsFile}
use herbert.Storage.Record.{StoredRecord, RecordStorage}
use herbert.Wal.Serialize.{serialize}
use herbert.Wal.Operations.{WriteAheadLog, write_file, push, need_to_flush, drain_buffer}
use herbert.TopicManager.RoundTrip.{IsTopic}
use herbert.TopicManager.Logging.{IsSmall}

-- Threads that are as far are alike, so they are counted.
pub record Threads (Batch S : Type 0) : Type 0 where
  pub wal : WriteAheadLog Batch
  pub backend : S
  -- the record of the thread that has the lock of the file and has written its entry
  pub holder : Option (Str × StoredRecord Batch)
  -- the threads that are back from `wal.add`, those that are about to flush the file, and those that
  -- have flushed it and are about to drain the buffer
  pub added : ℕ
  pub flushing : ℕ
  pub flushed : ℕ

module _ {Schema Batch Fault S : Type 0} (arrow : Arrow Schema Batch Fault) (os : OsFile)
    (storage : RecordStorage Batch Fault S) where
  pub data Step (s : Threads Batch S) : Threads Batch S → Type 0 where
    -- a thread takes the lock of the file and writes the entry of a record that the format can carry
    write :
        (topic : Str) (r : StoredRecord Batch) (entry : Bytes) (n : ℕ) (w : WriteAheadLog Batch)
        → IsTopic topic
        → IsSmall arrow r
        → s.holder ≡ none
        → serialize arrow topic r ≡ ok entry
        → write_file arrow os entry s.wal ≡ (ok n, w)
        → Step s (record s { wal = w; holder = some (topic, r) })
    -- it adds the record to the buffer, and lets go of the lock
    enqueue :
        (topic : Str) (r : StoredRecord Batch) (w : WriteAheadLog Batch)
        → s.holder ≡ some (topic, r)
        → push arrow os topic r s.wal ≡ (ok tt, w)
        → Step s (record s { wal = w; holder = none; added = suc s.added })
    -- a thread finds that it need not flush, and returns
    leave :
        (n : ℕ)
        → s.added ≡ suc n
        → need_to_flush {Fault = Fault} s.wal ≡ ok false
        → Step s (record s { added = n })
    -- a thread finds that it has to flush
    decide :
        (n : ℕ)
        → s.added ≡ suc n
        → need_to_flush {Fault = Fault} s.wal ≡ ok true
        → Step s (record s { added = n; flushing = suc s.flushing })
    -- it takes the lock of the file, and flushes it
    flush_file :
        (n : ℕ) (file : BufWriter)
        → s.flushing ≡ suc n
        → s.holder ≡ none
        → BufWriter.flush {Fault = Fault} os s.wal.file.inner ≡ (ok tt, file)
        → Step s (record s {
          wal = record s.wal { file = record s.wal.file { inner = file } };
          flushing = n;
          flushed = suc s.flushed;
        })
    -- it drains the buffer into the backend, and returns
    drain :
        (n : ℕ) (w : WriteAheadLog Batch) (backend : S)
        → s.flushed ≡ suc n
        → drain_buffer arrow os storage (s.wal, s.backend) ≡ (ok tt, (w, backend))
        → Step s (record s { wal = w; backend = backend; flushed = n })

  pub data Steps (s : Threads Batch S) : Threads Batch S → Type 0 where
    start : Steps s s
    next : {t u : Threads Batch S} → Steps s t → Step t u → Steps s u
