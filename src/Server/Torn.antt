-- ===== src/Server/Torn.antt =====
-- src/server.rs: a server that starts over a log whose last entry is torn.
use herbert.Prelude.{
  ℕ, ◌^◌, ◌<◌, ◌≡◌, ◌≢◌, ◌⊎◌, inl, inr, refl, Option, some, List, [], ◌∷◌, ◌++◌, length, Bytes, Str,
}
use herbert.Outcome.{HerbertError, panic, io, unexpected_eof, err, from_utf8}
use herbert.Config.{Config}
use herbert.Arrow.{Arrow, ArrowLaws}
use herbert.Storage.Record.{StoredRecord}
use herbert.Storage.InMemoryLog.{log_storage}
use herbert.Storage.InMemoryLog as Log
use herbert.Storage.InMemoryLog.Index.{new-IsIndexed, log-StorageLaws}
use herbert.Wal.Serialize.{framed}
use herbert.TopicManager.Reopened.{new-reopened, reopened}
use herbert.TopicManager.RoundTrip.{IsTopic}
use herbert.TopicManager.Replay.{Logged}
use herbert.TopicManager.Torn.{recover-torn}
use herbert.OffsetManager.Operations.{Json}
use herbert.Server.Start.{wal_recovered, start}

module _ {Fault : Type 0} where
  wal_recovered-torn :
      (e : HerbertError Fault)
      → (e ≡ io unexpected_eof) ⊎ (e ≡ from_utf8)
      → wal_recovered (err e) ≡ panic
  unfolding wal_recovered
  wal_recovered-torn e (inl is) = rw is refl
  wal_recovered-torn e (inr is) = rw is refl

module _ {Schema Batch Fault Row : Type 0} (arrow : Arrow Schema Batch Fault)
    (laws : ArrowLaws arrow Row) (json : Json) (config : Config) where
  -- A server whose log ends inside an entry, as a write that was cut short leaves it, does not
  -- come up again: its start is a panic, however many whole entries there are before. The topic of
  -- the torn entry is UTF-8 on one line, its indicator 0 or 1 and its payload shorter than 2 ^ 32.
  pub start-torn :
      {es : List (Str × StoredRecord Batch)} (topic : Str) (indicator : ℕ)
      (payload bytes torn missing : Bytes) (m : ℕ) (offset_file : Option Bytes)
      → IsTopic topic
      → indicator < 2
      → length payload < 2 ^ 32
      → Logged arrow es bytes
      → torn ≢ []
      → torn ++ m ∷ missing ≡ framed topic indicator payload
      → start arrow json config (inr (bytes ++ torn)) (some (bytes ++ torn)) offset_file ≡ panic
  unfolding start
  start-torn topic indicator payload bytes torn missing m offset_file t known small l some_part e =
      let (error, stops, is) =
        recover-torn arrow (log_storage arrow) topic indicator payload t known small laws
          (log-StorageLaws arrow) bytes torn missing m (reopened Log.new [] config (bytes ++ torn))
          l some_part e refl refl (new-IsIndexed arrow) in
      rw
        (
          new-reopened Fault (Log.new {Batch = Batch}) [] config (bytes ++ torn),
          stops,
          wal_recovered-torn error is,
        )
        refl
