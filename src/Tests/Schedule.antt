-- ===== src/Tests/Schedule.antt =====
-- A schedule for the listeners of src/server.rs: its connections, and the crates that they use.
use mathlib.Core.Option.{some-injective}
use mathlib.Core.Option.{Option}
use mathlib.Core.Path.{subst}
use herbert.Prelude.{
  ℕ, zero, suc, ◌≡◌, refl, none, some, inr, List, [], ◌∷◌, ◌++◌, ◌<◌, ◌^◌, arith, take, drop,
  length, bytes_eq, pair_eq, Bytes, codes,
}
use herbert.Prelude.Int.{ℤ, pos}
use herbert.Outcome.{ok}
use herbert.HerbertApi.{Request, create_topic}
use herbert.Config.{Config, from_env}
use herbert.Storage.Record.{StoredRecord, raw}
use herbert.Storage.InMemoryLog.{InMemoryLog, log_storage}
use herbert.Storage.InMemoryLog as Log
use herbert.TopicManager.Operations.{
  TopicManager, TopicMetadata, new_metadata, stored_record, parse_record_batch_from_bytes,
}
use herbert.Utf8.{is_utf8}
use herbert.TopicManager.Reopened.{initial}
use herbert.OffsetManager.Operations.{OffsetManager}
use herbert.OffsetManager.Operations as Offsets
use herbert.OffsetManager.Keys.{HasNoColon}
use herbert.KafkaApi.Messages.{ProduceRequest, OffsetCommitRequest}
use herbert.KafkaApi.Handled.{AddsOnly}
use herbert.KafkaApi.Topics.{create_produce_request, create_topic_produce_data}
use herbert.KafkaApi.Offsets.{create_offset_commit_request}
use herbert.Wal.Operations as Wal
use herbert.TopicManager.Operations as Topics
use herbert.TopicManager.Recovery.{recover, recover_loop, read_until}
use herbert.TopicManager.RoundTrip.{IsTopic}
use herbert.TopicManager.Logging.{IsSmall}
use herbert.Server.Start.{start, wal_recovered, offsets_recovered}
use herbert.Server.Dispatch.{ApiKey, produce, offset_commit, Protocol, Served}
use herbert.Server.Connection.{Link}
use herbert.Server.Loop.{frame}
use herbert.Server.Listeners.{
  Event, kafka_accepts, herbert_accepts, kafka_turn, herbert_turn, serve,
}
use herbert.Server.Listeners.Invariants.{every_event}
use herbert.Server.Listeners.Managers.{MessageAddsOnly}
use herbert.Server.Listeners.Offsets.{CommitsPlain}
use herbert.Server.Listeners.Reachable.{FitsFormat}
use herbert.Server.Restarts.{first_start, serving}
use herbert.Server.Runs.{ServedState}
use herbert.Tests.Toy.{Batch, arrow, arrow_laws, os, os_takes, disk, json, json_laws}
use herbert.Tests.Servers as Servers

abbrev key_of : ℤ → Option ApiKey
key_of k = elim k [ pos zero ↦ some produce | pos (suc n) ↦ some offset_commit | _ ↦ none ]

abbrev second : Bytes → ℕ
second (a ∷ b ∷ rest) = b
second _ = 0

-- A produce request adds the byte behind the header to topic `t`; a commit is for group `g`.
abbrev pub protocol : Protocol
protocol = record Servers.protocol {
  api_key = key_of;
  decode_header = λ buf _. some (
    record {
      request_api_key = pos (second buf);
      request_api_version = pos 9;
      correlation_id = pos 7;
    },
    drop 4 buf,
  );
  decode_produce = λ buf _. some (create_produce_request (codes "t") (take 1 buf));
}

abbrev pub link : Link
link = record { write_all = λ sent chunk. (none, sent ++ chunk) }

abbrev pub from_slice : Bytes → Option (Request ℕ)
from_slice bytes = some (create_topic bytes (some 7))

-- A produce request, a commit and a new topic come over three connections, whose tasks take turns.
abbrev pub events : List Event
events =
    kafka_accepts (frame (0 ∷ 0 ∷ 0 ∷ 9 ∷ codes "x"))
    ∷ kafka_accepts (frame (0 ∷ 8 ∷ 0 ∷ 9 ∷ codes "t"))
    ∷ herbert_accepts (frame (codes "h"))
    ∷ kafka_turn 1
    ∷ herbert_turn 0
    ∷ kafka_turn 0
    ∷ []

abbrev pub config : Config
config = from_env (λ _. none)

started :
    start {Fault = ℕ} arrow json config (inr []) (some []) none
    ≡ ok (initial Log.new [] config, Offsets.new config)
unfolding start Topics.new Wal.new wal_recovered recover recover_loop read_until offsets_recovered
    Offsets.recover
started = refl

t-IsTopic : IsTopic (codes "t")
unfolding is_utf8
t-IsTopic = record { text = refl; one_line = (refl, tt) }

-- A record of at most one byte is stored as it is, if at all.
stored_under :
    (buf : Bytes) (m : TopicMetadata ℕ) (schema : Option ℕ) (r : StoredRecord Batch)
    → m.schema ≡ schema
    → stored_record {Fault = ℕ} arrow (some m) (take 1 buf) ≡ ok r
    → raw (take 1 buf) ≡ r
unfolding stored_record parse_record_batch_from_bytes
stored_under buf m none r s e = cc
stored_under [] m (some schema) r s e = cc
stored_under (c ∷ buf) m (some schema) r s e = cc

byte-FitsFormat : (buf : Bytes) → FitsFormat {Fault = ℕ} arrow (codes "t") (take 1 buf)
unfolding stored_record
byte-FitsFormat buf = record {
  topic_fits = t-IsTopic;
  record_fits = λ o r e. subst (IsSmall arrow) (stored o r e) (small buf);
}
  where
    small : (buf : Bytes) → length (take 1 buf) < 2 ^ 32
    small [] = omega arith
    small (c ∷ buf) = omega arith

    stored :
        (o : Option (TopicMetadata ℕ)) (r : StoredRecord Batch)
        → stored_record {Fault = ℕ} arrow o (take 1 buf) ≡ ok r
        → raw (take 1 buf) ≡ r
    stored none r e = cc
    stored (some m) r e = stored_under buf m m.schema r refl e

adds_byte : (m : Bytes) → MessageAddsOnly protocol (FitsFormat {Fault = ℕ} arrow) m
unfolding create_produce_request create_topic_produce_data
adds_byte m h buffer r has decoded =
    subst (λ (r : ProduceRequest). AddsOnly (FitsFormat {Fault = ℕ} arrow) r.topic_data)
      (some-injective _ _ decoded)
      λ bytes e.
        subst (FitsFormat arrow (codes "t")) (some-injective _ _ e) (byte-FitsFormat buffer)

commits_g : (m : Bytes) → CommitsPlain protocol m
unfolding create_offset_commit_request
commits_g m h buffer r has decoded =
    subst (λ (r : OffsetCommitRequest). HasNoColon r.group_id) (some-injective _ _ decoded)
      (refl, tt)

abbrev State : Type 0
State = Served {Schema = ℕ} {Fault = ℕ} arrow os (log_storage arrow) json disk protocol

abbrev pub first : State
first = (initial Log.new [] config, (Offsets.new config, none))

abbrev pub Serving : State → Type 0
Serving =
    ServedState {Fault = ℕ} arrow arrow_laws os os_takes json json_laws disk (λ file text. refl)
      protocol link from_slice config

-- What the first server comes to.
abbrev pub after_events : State
after_events =
    (serve arrow os (log_storage arrow) json disk protocol link from_slice events
      (record { state = first; kafka = []; herbert = [] })).1.state

pub after_events-Serving : Serving after_events
after_events-Serving =
    serving events (every_event _ adds_byte events) (every_event _ commits_g events)
      (first_start started)
