-- ===== src/TopicManager/Interleaving.antt =====
-- src/topic_manager.rs and src/wal.rs: what holds of threads that add at once, in any order.
use mathlib.Core.Path.{subst}
use herbert.Prelude.{
  ◌≡◌, refl, sym, ap, ◌∙◌, Option, none, some, List, [], ◌∷◌, ◌++◌, append-nil, append_assoc, ℕ,
  suc, Bytes, Str,
}
use herbert.Arrow.{Arrow}
use herbert.BufWriter
use herbert.BufWriter.{BufWriter, OsFile, TakesAll, Placed, buffered, flushed, direct, contents}
use herbert.Storage.Record.{
  StoredRecord, RecordStorage, StorageLaws, add_all, add_all-append, add_all-IsHealthy,
}
use herbert.Wal.Operations.{write_file, push, drain_buffer}
use herbert.Wal.Laws.{IsLive, add_each_lem}
use herbert.TopicManager.Replay.{Logged}
use herbert.TopicManager.Logging.{Logged-append, Logged-serialize}
use herbert.TopicManager.Threads.{
  Threads, Step, write, enqueue, leave, decide, flush_file, drain, Steps, start, next,
}

abbrev pub held : {A : Type 0} → Option A → List A
held none = []
held (some a) = a ∷ []

pub contents-Placed :
    (w v : BufWriter) (chunk : Bytes) → Placed w chunk v → contents v ≡ contents w ++ chunk
contents-Placed w v chunk (buffered e) = rw e (sym (append_assoc w.file w.buf chunk))
contents-Placed w v chunk (flushed e) = rw e refl
contents-Placed w v chunk (direct e) = rw e (append-nil _)

module _ {Schema Batch Fault S : Type 0} (arrow : Arrow Schema Batch Fault) (os : OsFile)
    (takes : TakesAll os) (storage : RecordStorage Batch Fault S) {IsHealthy : S → Type 0}
    (laws : StorageLaws storage IsHealthy) (backend : S) where
  -- The backend has been given a list of records, from `backend` on; what has been written are the
  -- entries of these, of those in the buffer and of the one whose thread has the lock, in this order.
  pub record IsOrdered (s : Threads Batch S) : Type 0 where
    pub applied : List (Str × StoredRecord Batch)
    pub backend_is : s.backend ≡ add_all storage applied backend
    pub logged :
        Logged arrow (applied ++ (s.wal.buffer.inner ++ held s.holder)) (contents s.wal.file.inner)
    pub live : IsLive s.wal
    pub healthy : IsHealthy s.backend

  abbrev relogged :
      {es fs : List (Str × StoredRecord Batch)} {a b : Bytes}
      → es ≡ fs
      → a ≡ b
      → Logged arrow es a
      → Logged arrow fs b
  relogged {es} {fs} {a} {b} e f l = subst (Logged arrow fs) f (subst (λ es. Logged arrow es a) e l)

  write-IsOrdered :
      (s : Threads Batch S) (topic : Str) (r : StoredRecord Batch) (entry : Bytes)
      → Logged arrow ((topic, r) ∷ []) entry
      → s.holder ≡ none
      → IsOrdered s
      → IsOrdered (record s { wal = (write_file arrow os entry s.wal).1; holder = some (topic, r) })
  unfolding write_file
  write-IsOrdered s topic r entry l free h = record {
    applied = h.applied;
    backend_is = h.backend_is;
    logged =
        relogged
          (rw (free, append-nil) (append_assoc h.applied s.wal.buffer.inner ((topic, r) ∷ [])))
          (sym (
            contents-Placed s.wal.file.inner _ entry
              (BufWriter.write_lem {Fault = Fault} os takes entry s.wal.file.inner).placed))
          (Logged-append arrow h.logged l);
    live = record { file_live = h.live.file_live; buffer_live = h.live.buffer_live };
    healthy = h.healthy;
  }

  enqueue-IsOrdered :
      (s : Threads Batch S) (topic : Str) (r : StoredRecord Batch)
      → s.holder ≡ some (topic, r)
      → IsOrdered s
      → IsOrdered
          (record s { wal = (push arrow os topic r s.wal).1; holder = none; added = suc s.added })
  unfolding push
  enqueue-IsOrdered s topic r holds h = record {
    applied = h.applied;
    backend_is = h.backend_is;
    logged = rw h.live.buffer_live (relogged (rw (holds, append-nil) refl) refl h.logged);
    live = rw h.live.buffer_live (record { file_live = h.live.file_live; buffer_live = refl });
    healthy = h.healthy;
  }

  flush-IsOrdered :
      (s : Threads Batch S) (n : ℕ)
      → IsOrdered s
      → IsOrdered (record s {
        wal = record s.wal {
          file = record s.wal.file {
            inner = (BufWriter.flush {Fault = Fault} os s.wal.file.inner).1;
          };
        };
        flushing = n;
        flushed = suc s.flushed;
      })
  flush-IsOrdered s n h =
      rw (BufWriter.flush_lem {Fault = Fault} os takes s.wal.file.inner) (record {
        applied = h.applied;
        backend_is = h.backend_is;
        logged = relogged refl (sym (append-nil _)) h.logged;
        live = record { file_live = h.live.file_live; buffer_live = h.live.buffer_live };
        healthy = h.healthy;
      })

  drain-IsOrdered :
      (s : Threads Batch S) (n : ℕ)
      → IsOrdered s
      → (let drained = drain_buffer arrow os storage (s.wal, s.backend) in
          IsOrdered (record s { wal = drained.1.0; backend = drained.1.1; flushed = n }))
  unfolding drain_buffer
  drain-IsOrdered s n h =
      rw
        (
          h.live.buffer_live,
          add_each_lem arrow os storage laws s.wal.buffer.inner s.backend h.healthy,
        )
        (record {
          applied = h.applied ++ s.wal.buffer.inner;
          backend_is =
              ap (add_all storage s.wal.buffer.inner) h.backend_is
              ∙ sym (add_all-append storage h.applied s.wal.buffer.inner backend);
          logged =
              relogged (sym (append_assoc h.applied s.wal.buffer.inner (held s.holder))) refl
                h.logged;
          live = record { file_live = h.live.file_live; buffer_live = refl };
          healthy = add_all-IsHealthy storage laws s.wal.buffer.inner s.backend h.healthy;
        })

  step-IsOrdered : (s t : Threads Batch S) → Step arrow os storage s t → IsOrdered s → IsOrdered t
  step-IsOrdered s _ (write topic r entry n w t small free e wrote) h =
      subst (λ w. IsOrdered (record s { wal = w; holder = some (topic, r) })) (ap (λ r. r.1) wrote)
        (write-IsOrdered s topic r entry (Logged-serialize arrow topic r entry t small e) free h)
  step-IsOrdered s _ (enqueue topic r w holds pushed) h =
      subst (λ w. IsOrdered (record s { wal = w; holder = none; added = suc s.added }))
        (ap (λ r. r.1) pushed) (enqueue-IsOrdered s topic r holds h)
  step-IsOrdered s _ (leave n some_added stays) h = record {
    applied = h.applied;
    backend_is = h.backend_is;
    logged = h.logged;
    live = h.live;
    healthy = h.healthy;
  }
  step-IsOrdered s _ (decide n some_added flushes) h = record {
    applied = h.applied;
    backend_is = h.backend_is;
    logged = h.logged;
    live = h.live;
    healthy = h.healthy;
  }
  step-IsOrdered s _ (flush_file n file some_flushing free e) h =
      subst
        (λ file. IsOrdered (record s {
          wal = record s.wal { file = record s.wal.file { inner = file } };
          flushing = n;
          flushed = suc s.flushed;
        }))
        (ap (λ r. r.1) e) (flush-IsOrdered s n h)
  step-IsOrdered s _ (drain n w b some_flushed e) h =
      subst (λ ws. IsOrdered (record s { wal = ws.0; backend = ws.1; flushed = n }))
        (ap (λ r. r.1) e) (drain-IsOrdered s n h)

  -- However the threads that add records interleave, what has been written, in the file or in the
  -- buffer of the writer, are the entries of the records that the backend was given, in the order in
  -- which it was given them, then of those that wait in the buffer, in its order, and then of the one
  -- whose thread has the lock of the file; if that was so at first. The disk takes every write and
  -- the backend every record.
  pub steps-IsOrdered :
      {s t : Threads Batch S} → Steps arrow os storage s t → IsOrdered s → IsOrdered t
  steps-IsOrdered start h = h
  steps-IsOrdered {s} {t} (next {t = u} steps step) h =
      step-IsOrdered u t step (steps-IsOrdered steps h)
