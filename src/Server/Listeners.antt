-- ===== src/Server/Listeners.antt =====
-- src/server.rs: `run`, its two listeners and the tasks that they spawn, one for each connection. The
-- tasks go on in any order. A turn of a Kafka task is a round of its loop, and a turn of a task of
-- the other listener is all that it does.
pub mod Invariants
pub mod Managers
pub mod Topics
pub mod Reachable
pub mod Offsets
use herbert.Prelude.{
  ℕ, zero, suc, Option, none, some, ◌⊎◌, List, [], ◌∷◌, ◌++◌, Bytes, Str, codes, decimal,
}
use herbert.Outcome.{IoError, Outcome, ok, ◌>>=◌}
use herbert.HerbertApi.{Request}
use herbert.Config.{Config, from_env}
use herbert.Arrow.{Arrow}
use herbert.BufWriter.{OsFile}
use herbert.Storage.Record.{RecordStorage}
use herbert.Storage.InMemoryLog.{InMemoryLog, log_storage}
use herbert.OffsetManager.Operations.{Json, OffsetFile}
use herbert.Server.Dispatch.{Protocol, Served}
use herbert.Server.Start.{start}
use herbert.Server.Connection.{Link, Socket, Round, kafka_round, handle_herbert_connection}

-- What happens next: a listener accepts a stream with all that its client will send, or fails to
-- accept; or an open task, counted from the oldest, has its turn.
pub data Event : Type 0 where
  kafka_accepts herbert_accepts : Bytes → Event
  kafka_accept_fails herbert_accept_fails : IoError → Event
  kafka_turn herbert_turn : ℕ → Event

module _ {Schema Batch Fault S : Type 0} (arrow : Arrow Schema Batch Fault) (os : OsFile)
    (storage : RecordStorage Batch Fault S) (json : Json) (disk : OffsetFile) (protocol : Protocol)
    (link : Link) (from_slice : Bytes → Option (Request Schema)) where
  abbrev pub ServerState : Type 0
  ServerState = Served arrow os storage json disk protocol

  -- The shared managers, and the streams of the open tasks of either listener.
  pub record Running : Type 0 where
    pub state : ServerState
    pub kafka : List Socket
    pub herbert : List Bytes

  -- The task that goes on keeps its stream; one that ended, even by a panic, drops it.
  unfoldable pub reopen : Round arrow os storage json disk protocol link → List Socket → List Socket
  reopen r ks = elim r.ending [ none ↦ r.socket ∷ ks | some _ ↦ ks ]

  unfoldable pub turn_kafka : ℕ → List Socket → ServerState → List Socket × ServerState
  turn_kafka n [] s = ([], s)
  turn_kafka zero (k ∷ ks) s =
      let r = kafka_round arrow os storage json disk protocol link k s in (reopen r ks, r.state)
  turn_kafka (suc n) (k ∷ ks) s = let (ks1, s1) = turn_kafka n ks s in (k ∷ ks1, s1)

  unfoldable pub turn_herbert : ℕ → List Bytes → ServerState → List Bytes × ServerState
  turn_herbert n [] s = ([], s)
  turn_herbert zero (stream ∷ streams) (tm, saved) =
      (streams, ((handle_herbert_connection {Fault = Fault} from_slice stream tm).1, saved))
  turn_herbert (suc n) (stream ∷ streams) s =
      let (streams1, s1) = turn_herbert n streams s in (stream ∷ streams1, s1)

  abbrev pub after_kafka : List Socket × ServerState → Running → Running
  after_kafka (ks, s) r = record r { kafka = ks; state = s }

  abbrev pub after_herbert : List Bytes × ServerState → Running → Running
  after_herbert (streams, s) r = record r { herbert = streams; state = s }

  -- `none`: the listeners are still running. A listener that cannot accept ends both, by `try_join!`,
  -- and with them the process.
  unfoldable pub serve : List Event → Running → Option IoError × Running
  serve [] r = (none, r)
  serve (kafka_accepts stream ∷ es) r =
      serve es (record r { kafka = r.kafka ++ record { incoming = stream; outgoing = [] } ∷ [] })
  serve (herbert_accepts stream ∷ es) r = serve es (record r { herbert = r.herbert ++ stream ∷ [] })
  serve (kafka_accept_fails e ∷ es) r = (some e, r)
  serve (herbert_accept_fails e ∷ es) r = (some e, r)
  serve (kafka_turn n ∷ es) r = serve es (after_kafka (turn_kafka n r.kafka r.state) r)
  serve (herbert_turn n ∷ es) r = serve es (after_herbert (turn_herbert n r.herbert r.state) r)

-- What the process finds: the environment's variables, what opening a file for appending gives, what
-- a file holds, and whether a port can be bound.
pub record Machine : Type 0 where
  pub var : Str → Option Str
  pub open_append : Str → IoError ⊎ Bytes
  pub read_file : Str → Option Bytes
  pub bind : Str → Option IoError

-- `format!("{}:{}", ip_address, port)`
abbrev pub address : ℕ → Str
address port = codes "127.0.0.1:" ++ decimal port

module _ {Schema Batch Fault : Type 0} (arrow : Arrow Schema Batch Fault) (os : OsFile)
    (json : Json) (disk : OffsetFile) (protocol : Protocol) (link : Link)
    (from_slice : Bytes → Option (Request Schema)) (machine : Machine) where
  abbrev pub LogServer : Type 0
  LogServer = Running arrow os (log_storage arrow) json disk protocol link from_slice

  -- From the two `bind` on.
  unfoldable pub listen : Config → List Event → LogServer → Option IoError × LogServer
  listen config es r = elim (machine.bind (address config.kafka_port)) [
    | some e ↦ (some e, r)
    | none ↦ elim (machine.bind (address config.herbert_port)) [
      | some e ↦ (some e, r)
      | none ↦ serve arrow os (log_storage arrow) json disk protocol link from_slice es r
    ]
  ]

  unfoldable pub run : List Event → Outcome Fault (Option IoError × LogServer)
  run es = do
    let config = from_env machine.var
    (tm, om) ←
        start arrow json config (machine.open_append config.wal_path)
          (machine.read_file config.wal_path) (machine.read_file config.offset_path)
    ok (
        listen config es (record {
          state = (tm, (om, machine.read_file config.offset_path));
          kafka = [];
          herbert = [];
        }))
