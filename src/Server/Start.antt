-- ===== src/Server/Start.antt =====
-- src/server.rs: the first part of `run`, up to the listeners.
use herbert.Prelude.{Option, [], ◌⊎◌, Bytes}
use herbert.Outcome.{
  IoError, Outcome, ok, err, panic, out_of_fuel, no_wal_file_found, no_offset_file_found, fresh,
  ◌>>=◌,
}
use herbert.Config.{Config}
use herbert.Arrow.{Arrow}
use herbert.Storage.InMemoryLog.{InMemoryLog, log_storage}
use herbert.Storage.InMemoryLog as Log
use herbert.TopicManager.Operations.{TopicManager}
use herbert.TopicManager.Operations as Topics
use herbert.TopicManager.Recovery as Recovery
use herbert.OffsetManager.Operations.{OffsetManager, Json}
use herbert.OffsetManager.Operations as Offsets

module _ {Fault : Type 0} where
  -- `match tm.recover()`: a file that is not there is no error; any other error is a panic.
  unfoldable pub wal_recovered : Outcome Fault Unit → Outcome Fault Unit
  wal_recovered (ok _) = ok tt
  wal_recovered (err no_wal_file_found) = ok tt
  wal_recovered (err _) = panic
  wal_recovered panic = panic
  wal_recovered out_of_fuel = out_of_fuel

  -- `match om.recover()`
  unfoldable pub offsets_recovered : Outcome Fault Unit → Outcome Fault Unit
  offsets_recovered (ok _) = ok tt
  offsets_recovered (err no_offset_file_found) = ok tt
  offsets_recovered (err _) = panic
  offsets_recovered panic = panic
  offsets_recovered out_of_fuel = out_of_fuel

module _ {Schema Batch Fault : Type 0} (arrow : Arrow Schema Batch Fault) (json : Json) where
  abbrev pub Managers : Type 0
  Managers = TopicManager Schema Batch (InMemoryLog Batch) × OffsetManager

  -- `opened` is what opening the log for appending gives, `wal_file` and `offset_file` what reading
  -- the two files gives.
  unfoldable pub start :
      Config → IoError ⊎ Bytes → (wal_file offset_file : Option Bytes) → Outcome Fault Managers
  start config opened wal_file offset_file = do
    tm ← Topics.new Log.new (fresh []) config opened
    let topics = Recovery.recover arrow (log_storage arrow) wal_file tm
    _ ← wal_recovered topics.0
    let offsets = Offsets.recover json offset_file (Offsets.new config)
    _ ← offsets_recovered offsets.0
    ok (topics.1, offsets.1)
