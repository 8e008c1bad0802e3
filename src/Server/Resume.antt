-- ===== src/Server/Resume.antt =====
-- src/server.rs: a server that starts over the files of an earlier one goes on where it ended.
use herbert.Prelude.{◌≡◌, refl, false, Option, some, inr, [], bytes_eq, pair_eq, Bytes, Str}
use herbert.HashMap.Collect.{AllKeys, IsMap}
use herbert.Outcome.{ok}
use herbert.Config.{Config}
use herbert.Arrow.{Arrow, ArrowLaws}
use herbert.BufWriter.{OsFile, TakesAll}
use herbert.Storage.InMemoryLog.{InMemoryLog, log_storage}
use herbert.Storage.InMemoryLog as Log
use herbert.Storage.InMemoryLog.Index.{new-IsIndexed, log-StorageLaws}
use herbert.Storage.InMemoryLog.Contents.{contents, log-ContentsLaws}
use herbert.TopicManager.Operations.{TopicManager}
use herbert.TopicManager.Reopened.{new-reopened}
use herbert.TopicManager.Restart.{Restored, IsReachable, recover-IsReachable}
use herbert.OffsetManager.Operations.{OffsetManager, Json, JsonLaws, OffsetFile, flush, get_offset}
use herbert.OffsetManager.Operations as Offsets
use herbert.OffsetManager.Keys.{HasNoColon}
use herbert.OffsetManager.RoundTrip.{TakesFile, recover-flush}
use herbert.Server.Start.{wal_recovered, offsets_recovered, start}

module _ {Schema Batch Fault Row : Type 0} (arrow : Arrow Schema Batch Fault)
    (laws : ArrowLaws arrow Row) (os : OsFile) (takes : TakesAll os) (json : Json)
    (json_laws : JsonLaws json) (disk : OffsetFile) (takes_file : TakesFile disk)
    (config : Config) where
  abbrev pub Manager : Type 0
  Manager = TopicManager Schema Batch (InMemoryLog Batch)

  abbrev pub Reachable : Manager → Type 0
  Reachable =
      IsReachable arrow os (log_storage arrow) contents laws takes (log-StorageLaws arrow)
        (log-ContentsLaws arrow) Log.new config

  -- A server that is started over the log of a reachable topic manager and over the offsets that an
  -- offset manager has flushed comes up without a panic: each topic has every record
  -- that it had, in the same order, and behind them only records that had been added and waited in the
  -- buffer; and each group with no colon has the offset that it had, if no group that has an offset
  -- contains a colon. The disk takes every write, the lock of the offsets is not poisoned, and no
  -- group and topic has two offsets.
  start-IsReachable :
      {tm : Manager} (om : OffsetManager) (file : Option Bytes)
      → Reachable tm
      → om.offsets.poisoned ≡ false
      → IsMap om.offsets.inner
      → AllKeys (λ p. HasNoColon p.0) om.offsets.inner
      → (text : Bytes) × (flush {Fault = Fault} json disk (om, file) ≡ (ok tt, (om, some text)))
        × (tm' : Manager) × (om' : OffsetManager) × (start arrow json config
              (inr tm.wal.file.inner.file)
              (some tm.wal.file.inner.file)
              (some text)
            ≡ ok (tm', om'))
        × Restored arrow os (log_storage arrow) contents tm tm'
        × ((group topic : Str)
            → HasNoColon group
            → get_offset {Fault = Fault} group topic om' ≡ get_offset group topic om)
  unfolding start wal_recovered offsets_recovered
  start-IsReachable {tm} om file r live unique plain =
      let (tm', recovered, restored, _) =
        recover-IsReachable arrow os (log_storage arrow) contents laws takes (log-StorageLaws arrow)
          (log-ContentsLaws arrow) Log.new config (new-IsIndexed arrow) r in
      let (text, flushed, om', read, same) =
        recover-flush json json_laws disk takes_file om (Offsets.new config) file live unique
          plain in
      (
        text,
        flushed,
        tm',
        om',
        rw
            (
              new-reopened Fault (Log.new {Batch = Batch}) [] config tm.wal.file.inner.file,
              recovered,
              read,
            )
            refl,
        restored,
        same,
      )
