-- ===== src/Tests/Threads.antt =====
-- Examples for threads that add at once.
use herbert.Prelude.{ℕ, refl, none, [], ◌∷◌, arith, u32_le}
use herbert.Storage.Record.{raw, add_all}
use herbert.Storage.InMemoryLog.{InMemoryLog, log_storage}
use herbert.Storage.InMemoryLog as Log
use herbert.Storage.InMemoryLog.Index.{IsIndexed, new-IsIndexed, log-StorageLaws}
use herbert.Wal.Serialize.{framed, serialize}
use herbert.TopicManager.Replay.{nothing}
use herbert.TopicManager.Threads.{Threads, Steps, start, next, write, enqueue}
use herbert.BufWriter
use herbert.Wal.Operations.{write_file, push}
use herbert.TopicManager.Interleaving.{IsOrdered, steps-IsOrdered}
use herbert.TopicManager.Race.{log, at_rest, at_rest-Steps}
use herbert.Tests.Toy.{Batch, config, arrow, os, os_takes}
use herbert.Tests.Topics.{a, b, x, a-IsTopic, b-IsTopic, storage}

abbrev begins : Threads Batch (InMemoryLog Batch)
begins = at_rest arrow os os_takes storage (log-StorageLaws arrow) config [] Log.new

abbrev ends : Threads Batch (InMemoryLog Batch)
ends = record {
  wal =
      log arrow os os_takes storage (log-StorageLaws arrow) config (framed a 0 x) (framed b 0 x) [];
  backend = add_all storage ((a, raw x) ∷ (b, raw x) ∷ []) Log.new;
  holder = none;
  added = 1;
  flushing = 0;
  flushed = 0;
}

one_record : Steps arrow os storage begins (record {
  wal =
      log arrow os os_takes storage
        (log-StorageLaws arrow)
        config
        []
        (framed a 0 x)
        ((a, raw x) ∷ []);
  backend = Log.new;
  holder = none;
  added = 1;
  flushing = 0;
  flushed = 0;
})
unfolding serialize framed u32_le write_file push
one_record =
    next
      (next start (
        write a (raw x) (framed a 0 x) 8
          (log arrow os os_takes storage (log-StorageLaws arrow) config [] (framed a 0 x) [])
          a-IsTopic (omega arith) refl refl
          (rw (BufWriter.write_small {Fault = ℕ} os (framed a 0 x) [] (omega arith)) refl)))
      (enqueue a (raw x) _ refl refl)

-- The backend has both records, and the file the first entry only.
at_rest-Steps_example : Steps arrow os storage begins ends
unfolding serialize framed u32_le
at_rest-Steps_example =
    at_rest-Steps arrow os os_takes storage (log-StorageLaws arrow) config [] Log.new a b (raw x)
      (raw x) (framed a 0 x) (framed b 0 x) a-IsTopic b-IsTopic (omega arith) (omega arith) refl
      refl (omega arith) (omega arith) (omega arith) (new-IsIndexed arrow)

begins-IsOrdered :
    IsOrdered arrow os os_takes storage {IsHealthy = IsIndexed arrow}
      (log-StorageLaws arrow)
      Log.new
      begins
begins-IsOrdered = record {
  applied = [];
  backend_is = refl;
  logged = nothing;
  live = record { file_live = refl; buffer_live = refl };
  healthy = new-IsIndexed arrow;
}

steps-IsOrdered_example :
    IsOrdered arrow os os_takes storage {IsHealthy = IsIndexed arrow}
      (log-StorageLaws arrow)
      Log.new
      (record {
        wal =
            log arrow os os_takes storage
              (log-StorageLaws arrow)
              config
              []
              (framed a 0 x)
              ((a, raw x) ∷ []);
        backend = Log.new;
        holder = none;
        added = 1;
        flushing = 0;
        flushed = 0;
      })
steps-IsOrdered_example =
    steps-IsOrdered arrow os os_takes storage (log-StorageLaws arrow) Log.new one_record
      begins-IsOrdered
