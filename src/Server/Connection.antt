-- ===== src/Server/Connection.antt =====
-- src/server.rs: `handle_kafka_connection` and `handle_herbert_connection`, over the bytes that a
-- client sends before it closes its side.
use herbert.Prelude.{
  ℕ, zero, suc, Option, none, some, [], ◌∷◌, ltb, if◌then◌else◌, length, take, drop, of_u32_be,
  Bytes,
}
use herbert.Outcome.{
  IoError, unexpected_eof, HerbertError, Outcome, ok, err, panic, out_of_fuel, io,
}
use herbert.HerbertApi.{Request, create_topic}
use herbert.Arrow.{Arrow}
use herbert.BufWriter.{OsFile}
use herbert.Storage.Record.{RecordStorage}
use herbert.TopicManager.Operations.{TopicManager, create}
use herbert.OffsetManager.Operations.{Json, OffsetFile}
use herbert.Server.Dispatch.{Protocol, Served, handle_message}

-- How the task of a connection ends: `Ok(())`, an `anyhow::Error` of one of three kinds, or a
-- panic. `no_fuel` is the model's own.
pub data Ending (Fault : Type 0) : Type 0 where
  closed : Ending Fault
  failed_io : IoError → Ending Fault
  failed_json : Ending Fault
  failed : HerbertError Fault → Ending Fault
  panicked no_fuel : Ending Fault

-- `write_all` and `flush`: from what has been sent and a chunk, an error, if any, and what has been
-- sent then.
pub record Link : Type 0 where
  pub write_all : Bytes → Bytes → Option IoError × Bytes

-- What the client has yet to be read of, and what has been sent to it.
pub record Socket : Type 0 where
  pub incoming : Bytes
  pub outgoing : Bytes

-- `none`: the stream ends before four bytes.
unfoldable pub read_message_len : Bytes → Option (ℕ × Bytes)
read_message_len (a ∷ b ∷ c ∷ d ∷ rest) = some (of_u32_be a b c d, rest)
read_message_len _ = none

-- An error of `create` is only logged.
unfoldable pub ended : {Fault : Type 0} → Outcome Fault Unit → Ending Fault
ended (ok _) = closed
ended (err _) = closed
ended panic = panicked
ended out_of_fuel = no_fuel

unfoldable pub handle_request :
    {Schema Batch Fault S : Type 0}
    → Request Schema
    → TopicManager Schema Batch S
    → Ending Fault × TopicManager Schema Batch S
handle_request (create_topic topic schema) tm =
    let created = create topic schema tm in (ended created.0, created.1)

-- `from_slice` is that of serde_json at `Request`; `none` is an error.
unfoldable pub handle_herbert_connection :
    {Schema Batch Fault S : Type 0} (from_slice : Bytes → Option (Request Schema))
    (incoming : Bytes)
    → TopicManager Schema Batch S
    → Ending Fault × TopicManager Schema Batch S
handle_herbert_connection from_slice incoming tm = elim (read_message_len incoming) [
  | none ↦ (failed_io unexpected_eof, tm)
  | some (len, rest) ↦
      if ltb (length rest) len
      then (failed_io unexpected_eof, tm)
      else elim (from_slice (take len rest)) [
        | none ↦ (failed_json, tm)
        | some request ↦ handle_request request tm
      ]
]

module _ {Schema Batch Fault S : Type 0} (arrow : Arrow Schema Batch Fault) (os : OsFile)
    (storage : RecordStorage Batch Fault S) (json : Json) (disk : OffsetFile) (protocol : Protocol)
    (link : Link) where
  abbrev pub State : Type 0
  State = Served arrow os storage json disk protocol

  -- A round of the loop: how the task ends, or `none` where the loop goes on.
  pub record Round : Type 0 where
    pub ending : Option (Ending Fault)
    pub socket : Socket
    pub state : State

  unfoldable pub after_write : Option IoError × Bytes → Socket → State → Round
  after_write (none, sent) k s = record {
    ending = none;
    socket = record k { outgoing = sent };
    state = s;
  }
  after_write (some e, sent) k s = record {
    ending = some (failed (io e));
    socket = record k { outgoing = sent };
    state = s;
  }

  unfoldable pub after_message : Socket → Outcome Fault Bytes × State → Round
  after_message k (ok response, s) = after_write (link.write_all k.outgoing response) k s
  after_message k (err e, s) = record { ending = some (failed e); socket = k; state = s }
  after_message k (panic, s) = record { ending = some panicked; socket = k; state = s }
  after_message k (out_of_fuel, s) = record { ending = some no_fuel; socket = k; state = s }

  -- A stream that ends inside a message breaks the loop, which is no error; one that ends between
  -- two messages is an error of `read_message_len`.
  unfoldable pub kafka_round : Socket → State → Round
  kafka_round k s = elim (read_message_len k.incoming) [
    | none ↦ record {
      ending = some (failed_io unexpected_eof);
      socket = record k { incoming = [] };
      state = s;
    }
    | some (len, rest) ↦
        if ltb (length rest) len
        then record { ending = some closed; socket = record k { incoming = [] }; state = s }
        else after_message (record k { incoming = drop len rest })
            (handle_message arrow os storage json disk protocol (take len rest) s)
  ]

  pub record Finished : Type 0 where
    pub ending : Ending Fault
    pub socket : Socket
    pub state : State

  abbrev pub after_round : (Socket → State → Finished) → Round → Finished
  after_round go_on r = elim r.ending [
    | some e ↦ record { ending = e; socket = r.socket; state = r.state }
    | none ↦ go_on r.socket r.state
  ]

  -- Each round reads four bytes at least, so one more round than bytes is enough.
  unfoldable pub kafka_loop : ℕ → Socket → State → Finished
  kafka_loop zero k s = record { ending = no_fuel; socket = k; state = s }
  kafka_loop (suc fuel) k s = after_round (kafka_loop fuel) (kafka_round k s)

  unfoldable pub handle_kafka_connection : Socket → State → Finished
  handle_kafka_connection k s = kafka_loop (suc (length k.incoming)) k s
