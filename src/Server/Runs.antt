-- ===== src/Server/Runs.antt =====
-- src/server.rs: `run` over the files that an earlier server left.
use herbert.Prelude.{◌≡◌, refl, Option, some, none, inr, List, Bytes}
use herbert.Outcome.{IoError, ok}
use herbert.HerbertApi.{Request}
use herbert.Config.{Config, from_env}
use herbert.Arrow.{Arrow, ArrowLaws}
use herbert.BufWriter.{OsFile, TakesAll}
use herbert.Storage.InMemoryLog.{log_storage}
use herbert.Storage.InMemoryLog.Contents.{contents}
use herbert.TopicManager.Restart.{Restored}
use herbert.OffsetManager.Operations.{OffsetManager, Json, JsonLaws, OffsetFile}
use herbert.OffsetManager.RoundTrip.{TakesFile}
use herbert.Server.Dispatch.{Protocol}
use herbert.Server.Connection.{Link}
use herbert.Server.Listeners.{Event, Machine, Running, serve, address, listen, run}
use herbert.Server.Restarts.{
  Manager, State, IsServed, SameOffsets, start_again, idle, start-IsServed,
}

module _ {Schema Batch Fault Row : Type 0} (arrow : Arrow Schema Batch Fault)
    (laws : ArrowLaws arrow Row) (os : OsFile) (takes : TakesAll os) (json : Json)
    (json_laws : JsonLaws json) (disk : OffsetFile) (takes_file : TakesFile disk)
    (protocol : Protocol) (link : Link) (from_slice : Bytes → Option (Request Schema))
    (config : Config) where
  abbrev ServerState : Type 0
  ServerState =
      State arrow laws os takes json json_laws disk takes_file protocol link from_slice config

  abbrev TopicsOf : Type 0
  TopicsOf =
      Manager arrow laws os takes json json_laws disk takes_file protocol link from_slice config

  abbrev pub ServedState : ServerState → Type 0
  ServedState =
      IsServed arrow laws os takes json json_laws disk takes_file protocol link from_slice config

  abbrev pub HasSameOffsets : OffsetManager → OffsetManager → Type 0
  HasSameOffsets =
      SameOffsets arrow laws os takes json json_laws disk takes_file protocol link from_slice config

  -- What a server that starts with this state does with the connections.
  abbrev pub serve_from :
      ServerState
      → List Event
      → Option IoError × Running arrow os (log_storage arrow) json disk protocol link from_slice
  serve_from s es =
      serve arrow os (log_storage arrow) json disk protocol link from_slice es
        (idle arrow laws os takes json json_laws disk takes_file protocol link from_slice config s)

  -- The machine has the configuration and the files that a server with this state leaves, and
  -- both ports are free.
  pub record Finds (machine : Machine) (s : ServerState) : Type 0 where
    pub configured : from_env machine.var ≡ config
    pub wal_opened : machine.open_append config.wal_path ≡ inr s.0.wal.file.inner.file
    pub wal_there : machine.read_file config.wal_path ≡ some s.0.wal.file.inner.file
    pub offsets_there : machine.read_file config.offset_path ≡ s.1.1
    pub kafka_free : machine.bind (address config.kafka_port) ≡ none
    pub herbert_free : machine.bind (address config.herbert_port) ≡ none

  listen-free :
      (machine : Machine) (es : List Event)
      (r : Running arrow os (log_storage arrow) json disk protocol link from_slice)
      → machine.bind (address config.kafka_port) ≡ none
      → machine.bind (address config.herbert_port) ≡ none
      → listen arrow os json disk protocol link from_slice machine config es r
        ≡ serve arrow os (log_storage arrow) json disk protocol link from_slice es r
  unfolding listen
  listen-free machine es r kafka herbert = rw (kafka, listen, herbert) refl

  run-start :
      (machine : Machine) (s : ServerState) (es : List Event) (tm : TopicsOf) (om : OffsetManager)
      → Finds machine s
      → start_again arrow laws os takes json json_laws disk takes_file protocol link from_slice
          config s
        ≡ ok (tm, om)
      → run arrow os json disk protocol link from_slice machine es
        ≡ ok (serve_from (tm, (om, s.1.1)) es)
  unfolding run
  run-start machine s es tm om finds started =
      rw
        (
          finds.configured,
          finds.wal_opened,
          finds.wal_there,
          finds.offsets_there,
          started,
          listen-free machine es _ finds.kafka_free finds.herbert_free,
        )
        refl

  -- A server comes up again, whatever connections the earlier ones over the same files have served,
  -- in whatever order their tasks had their turns, and however often they have started again: `run`
  -- goes on to serve connections, from a state in which each topic has every record that it had, in
  -- the same order, and behind them only records that had been added and waited in the buffer, and
  -- in which each group with no colon has the offset that it had; and so it goes on. The messages
  -- add records that the format can carry and commit for groups with no colon, the disk takes every
  -- write, and both ports are free.
  pub run-IsServed :
      (machine : Machine) {s : ServerState} (es : List Event)
      → ServedState s
      → Finds machine s
      → (tm : TopicsOf) × (om : OffsetManager) × (run arrow os json disk protocol link from_slice
            machine es
          ≡ ok (serve_from (tm, (om, s.1.1)) es))
        × Restored arrow os (log_storage arrow) contents s.0 tm
        × HasSameOffsets s.1.0 om
        × ServedState (tm, (om, s.1.1))
  run-IsServed machine {s} es served finds =
      let (tm, om, started, restored, same, again) =
        start-IsServed arrow laws os takes json json_laws disk takes_file protocol link from_slice
          config served in
      (tm, om, run-start machine s es tm om finds started, restored, same, again)
