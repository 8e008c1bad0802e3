-- ===== src/UnitTests/Managers.antt =====
-- The topic managers of the unit tests, over a log that is not there yet.
use herbert.Prelude.{
  ◌<◌, ◌≤◌, ◌≡◌, refl, true, false, none, inr, [], ◌++◌, arith, leb, length, bytes_eq, Bytes, Str,
}
use herbert.HashMap.{HashMap, lookup}
use herbert.Outcome.{Outcome, ok, ◌>>=◌}
use herbert.Config.{Config, default, with_wal_path}
use herbert.Arrow.{Arrow}
use herbert.BufWriter
use herbert.BufWriter.{OsFile, TakesAll}
use herbert.Storage.Record.{raw, RecordStorage, StorageLaws}
use herbert.Storage.InMemoryQueue.{InMemoryQueue, queue_storage}
use herbert.Storage.InMemoryQueue as Queue
use herbert.TopicManager.Operations as Topics
use herbert.Wal.Serialize.{framed, serialize}
use herbert.Wal.Operations as Wal
use herbert.TopicManager.Operations.{
  TopicManager, TopicMetadata, stored_record, wal_add, wal_flush, flush_if, add, with_config,
}
use herbert.TopicManager.Defaults.{default_queue}
use herbert.TopicManager.Reopened.{reopened}

-- `TopicManager::default().with_config(..)`: the log at the default path may hold anything.
unfoldable pub queue_manager :
    {Schema Batch Fault : Type 0} (default_file : Bytes) (wal_path : Str)
    → Outcome Fault (TopicManager Schema Batch (InMemoryQueue Batch))
queue_manager default_file wal_path = do
  tm ← default_queue (inr default_file)
  with_config tm (with_wal_path default wal_path) (inr [])

module _ {Schema Batch Fault S : Type 0} (arrow : Arrow Schema Batch Fault) (os : OsFile)
    (takes : TakesAll os) (storage : RecordStorage Batch Fault S) {IsHealthy : S → Type 0}
    (laws : StorageLaws storage IsHealthy) where
  -- The log of a manager that flushes each record, after one more: the record is in the file and in
  -- the backend.
  pub add_small :
      (topic : Str) (bytes file : Bytes) (backend : S) (topics : HashMap Str (TopicMetadata Schema))
      (config : Config)
      → length (framed topic 0 bytes) < 8192
      → lookup topic topics ≡ none
      → config.num_uncommitted_messages ≤ 1
      → IsHealthy backend
      → add arrow os storage topic bytes (reopened backend topics config file) ≡ (
        ok tt,
        reopened
            (storage.add topic (raw bytes) backend).1
            topics
            config
            (file ++ framed topic 0 bytes),
      )
  unfolding add stored_record wal_add serialize Wal.add Wal.write_file Wal.push Wal.need_to_flush
      Wal.flush Wal.drain_buffer Wal.add_each flush_if wal_flush
  add_small topic bytes file backend topics config small unknown few healthy =
      let full : leb config.num_uncommitted_messages 1 ≡ true = ground (arith, few) in
      rw
        (
          unknown,
          BufWriter.write_small {Fault = Fault} os (framed topic 0 bytes) file small,
          full,
          BufWriter.flush_lem {Fault = Fault} os takes
              (record { file = file; buf = framed topic 0 bytes }),
          laws.add_ok topic (raw bytes) backend healthy,
        )
        refl

-- A queue whose lock is not poisoned takes every record.
pub queue-StorageLaws :
    {Schema Batch Fault : Type 0} (arrow : Arrow Schema Batch Fault)
    → StorageLaws (queue_storage arrow) (λ s. s.topics.poisoned ≡ false)
unfolding Queue.add
queue-StorageLaws arrow = record {
  add_ok = λ topic r s live. rw live refl;
  add-IsHealthy = λ topic r s live. rw live refl;
}

pub queue_manager_lem :
    {Schema Batch Fault : Type 0} (default_file : Bytes) (wal_path : Str)
    → queue_manager {Schema = Schema} {Batch = Batch} {Fault = Fault} default_file wal_path
      ≡ ok (reopened Queue.new [] (with_wal_path default wal_path) [])
unfolding queue_manager default_queue with_config Topics.new Wal.new
queue_manager_lem default_file wal_path = refl
