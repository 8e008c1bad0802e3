-- ===== src/Server/Restarts.antt =====
-- src/server.rs: a server that serves connections, ends at any time and starts again.
use mathlib.Core.Path.{subst}
use herbert.Prelude.{◌≡◌, refl, sym, ◌∙◌, Option, some, none, inr, List, [], All, Bytes, Str}
use herbert.Outcome.{Outcome, ok, ok-injective}
use herbert.HerbertApi.{Request}
use herbert.Config.{Config}
use herbert.Arrow.{Arrow, ArrowLaws}
use herbert.BufWriter.{OsFile, TakesAll}
use herbert.Storage.InMemoryLog.{InMemoryLog, log_storage}
use herbert.Storage.InMemoryLog as Log
use herbert.Storage.InMemoryLog.Index.{new-IsIndexed, log-StorageLaws}
use herbert.Storage.InMemoryLog.Contents.{contents, log-ContentsLaws}
use herbert.TopicManager.Operations.{TopicManager}
use herbert.TopicManager.Reopened.{initial, new-reopened}
use herbert.TopicManager.Restart.{Restored, IsReachable, begin, recover-IsReachable}
use herbert.OffsetManager.Operations.{OffsetManager, Json, JsonLaws, OffsetFile, get_offset}
use herbert.OffsetManager.Operations as Offsets
use herbert.OffsetManager.Keys.{HasNoColon}
use herbert.OffsetManager.RoundTrip.{TakesFile}
use herbert.Server.Start.{wal_recovered, start}
use herbert.Server.Dispatch.{Protocol, Served}
use herbert.Server.Connection.{Link}
use herbert.Server.Listeners.{Event, Running, serve}
use herbert.Server.Listeners.Invariants.{IsFitEvent}
use herbert.Server.Listeners.Managers.{MessageAddsOnly}
use herbert.Server.Listeners.Reachable.{FitsFormat, serve-IsReachable}
use herbert.Server.Listeners.Offsets.{
  CommitsPlain, IsKept, new-IsKept, restarted-IsKept, serve-Kept,
}

module _ {Schema Batch Fault Row : Type 0} (arrow : Arrow Schema Batch Fault)
    (laws : ArrowLaws arrow Row) (os : OsFile) (takes : TakesAll os) (json : Json)
    (json_laws : JsonLaws json) (disk : OffsetFile) (takes_file : TakesFile disk)
    (protocol : Protocol) (link : Link) (from_slice : Bytes → Option (Request Schema))
    (config : Config) where
  abbrev pub State : Type 0
  State = Served arrow os (log_storage arrow) json disk protocol

  abbrev pub Manager : Type 0
  Manager = TopicManager Schema Batch (InMemoryLog Batch)

  abbrev Reachable : Manager → Type 0
  Reachable =
      IsReachable arrow os (log_storage arrow) contents laws takes (log-StorageLaws arrow)
        (log-ContentsLaws arrow) Log.new config

  -- What `start` gives over the files that a server with this state leaves.
  abbrev pub start_again : State → Outcome Fault (Manager × OffsetManager)
  start_again (tm, (om, file)) =
      start arrow json config (inr tm.wal.file.inner.file) (some tm.wal.file.inner.file) file

  -- A server with no connection.
  abbrev pub idle : State → Running arrow os (log_storage arrow) json disk protocol link from_slice
  idle s = record { state = s; kafka = []; herbert = [] }

  -- The states that a server comes to: it starts with no files, serves connections whose produce
  -- requests the format can carry and whose commits are for groups with no colon, and ends at any
  -- time, with what is in the two files, over which another one starts.
  pub data IsServed : State → Type 0 where
    first_start :
        {tm : Manager} {om : OffsetManager}
        → start arrow json config (inr []) (some []) none ≡ ok (tm, om)
        → IsServed (tm, (om, none))
    serving :
        {s : State} (es : List Event)
        → All (IsFitEvent (MessageAddsOnly protocol (FitsFormat arrow))) es
        → All (IsFitEvent (CommitsPlain protocol)) es
        → IsServed s
        → IsServed
            (serve arrow os
              (log_storage arrow)
              json
              disk
              protocol
              link
              from_slice
              es
              (idle s)).1.state
    restart :
        {s : State} {tm : Manager} {om : OffsetManager}
        → start_again s ≡ ok (tm, om)
        → IsServed s
        → IsServed (tm, (om, s.1.1))

  -- The manager of the offsets has the same ones, for groups with no colon.
  abbrev pub SameOffsets : OffsetManager → OffsetManager → Type 0
  SameOffsets om om' =
      (group topic : Str)
      → HasNoColon group
      → get_offset {Fault = Fault} group topic om' ≡ get_offset group topic om

  Good : State → Type 0
  Good s = Reachable s.0 × IsKept Fault json json_laws disk takes_file config s.1

  start_again_lem :
      (s : State)
      → Good s
      → (tm' : Manager) × (om' : OffsetManager) × (start_again s ≡ ok (tm', om'))
        × Restored arrow os (log_storage arrow) contents s.0 tm'
        × SameOffsets s.1.0 om'
        × Good (tm', (om', s.1.1))
  unfolding start wal_recovered Good
  start_again_lem (tm, (om, file)) (r, kept) =
      let (tm', recovered, restored, reachable) =
        recover-IsReachable arrow os (log_storage arrow) contents laws takes (log-StorageLaws arrow)
          (log-ContentsLaws arrow) Log.new config (new-IsIndexed arrow) r in
      (
        tm',
        kept.after,
        rw
            (
              new-reopened Fault (Log.new {Batch = Batch}) [] config tm.wal.file.inner.file,
              recovered,
              kept.read,
              kept.starts,
            )
            refl,
        restored,
        kept.same,
        (reachable, restarted-IsKept Fault json json_laws disk takes_file config (om, file) kept),
      )

  after_start :
      (s : State) {tm : Manager} {om : OffsetManager}
      → Good s
      → start_again s ≡ ok (tm, om)
      → Good (tm, (om, s.1.1))
  after_start s good e =
      let (tm', om', started, _, _, again) = start_again_lem s good in
      let same = ok-injective (sym started ∙ e) in subst (λ p. Good (p.0, (p.1, s.1.1))) same again

  IsServed-Good : {s : State} → IsServed s → Good s
  unfolding Good
  IsServed-Good (first_start e) =
      after_start (initial Log.new [] config, (Offsets.new config, none))
        (begin, new-IsKept Fault json json_laws disk takes_file config) e
  IsServed-Good (serving {s} es adds commits served) =
      let (reachable, kept) = IsServed-Good served in
      (
        serve-IsReachable arrow os (log_storage arrow) contents laws takes (log-StorageLaws arrow)
            (log-ContentsLaws arrow) Log.new config json disk protocol link from_slice es (idle s)
            adds tt reachable,
        serve-Kept arrow os (log_storage arrow) json json_laws disk takes_file config protocol link
            from_slice es (idle s) commits tt kept,
      )
  IsServed-Good (restart {s} e served) = after_start s (IsServed-Good served) e

  -- Whatever connections a server has served, in whatever order their tasks had their turns, and
  -- however often it has started again, it starts over the files that are there without a panic:
  -- each topic has every record that it had, in the same order, and behind them only records that had
  -- been added and waited in the buffer; each group with no colon has the offset that it had; and so
  -- it goes on. The messages add records that the format can carry and commit for groups with no
  -- colon, and the disk takes every write.
  pub start-IsServed :
      {s : State}
      → IsServed s
      → (tm : Manager) × (om : OffsetManager) × (start_again s ≡ ok (tm, om))
        × Restored arrow os (log_storage arrow) contents s.0 tm
        × SameOffsets s.1.0 om
        × IsServed (tm, (om, s.1.1))
  start-IsServed {s} served =
      let (tm, om, started, restored, same, _) = start_again_lem s (IsServed-Good served) in
      (tm, om, started, restored, same, restart started served)
