-- ===== src/Tests/Streams.antt =====
-- Examples for the log and the connections of src/server.rs, cut and whole.
use herbert.Prelude.{
  ℕ, ◌≡◌, ◌≢◌, inr, refl, none, some, [], ◌∷◌, ◌++◌, arith, u32_le, u32_be, bytes_eq, pair_eq,
  Bytes, codes,
}
use herbert.Prelude.Int.{pos}
use herbert.HashMap.{lookup, insert}
use herbert.Outcome.{ok, panic, unexpected_eof, fresh}
use herbert.Storage.Record.{raw}
use herbert.Storage.InMemoryLog.{InMemoryLog, log_storage}
use herbert.Storage.InMemoryLog as Log
use herbert.Wal.Serialize.{framed}
use herbert.TopicManager.Operations.{TopicManager}
use herbert.TopicManager.Replay.{Logged, raw_entry, replay}
use herbert.TopicManager.Replay as Replay
use herbert.TopicManager.Reopened.{initial}
use herbert.Server.Start.{start}
use herbert.Server.Torn.{start-torn}
use herbert.Server.Dispatch.{
  Served, dispatch, handle_header, handle_key, handle_message, i16_be, respond,
}
use herbert.Storage.InMemoryLog.Ends.{log-AlwaysEnds}
use herbert.Server.Ends.{handle_kafka_connection-Ends}
use herbert.Server.Connection.{failed_io, no_fuel, handle_kafka_connection}
use herbert.Server.Loop.{nothing, message, frames, handle_kafka_connection-frames}
use herbert.KafkaApi.Offsets.{
  ignore, commit_partition, commit_topics, handle_offset_commit_request,
  create_offset_commit_request, fetch_first, handle_offset_fetch_request,
  create_offset_fetch_request, offset_fetch_response,
}
use herbert.OffsetManager.Operations.{save, flush, joined, set_offset, get_offset}
use herbert.Client.Wire.{loopback}
use herbert.Tests.Toy.{Batch, config, arrow, arrow_laws, os, disk, json}
use herbert.Tests.Codec.{protocol}
use herbert.Tests.Topics.{a, b, x, a-IsTopic, b-IsTopic}

abbrev tm : TopicManager ℕ Batch (InMemoryLog Batch)
tm = initial Log.new [] config

-- An entry, and the front of one more.
abbrev whole : Bytes
whole = framed a 0 x ++ []

abbrev front : Bytes
front = 98 ∷ 10 ∷ 0 ∷ 2 ∷ []

whole-Logged : Logged {Schema = ℕ} {Fault = ℕ} arrow ((a, raw x) ∷ []) whole
whole-Logged = raw_entry a x a-IsTopic (omega arith) Replay.nothing

front_is : front ++ 0 ∷ 0 ∷ 0 ∷ codes "yz" ≡ framed b 0 (codes "yz")
unfolding framed u32_le
front_is = refl

not_empty : front ≢ []
not_empty e = ground arith

start-torn_example :
    start {Fault = ℕ} arrow json config (inr (whole ++ front)) (some (whole ++ front)) none ≡ panic
start-torn_example =
    start-torn arrow arrow_laws json config b 0 (codes "yz") whole front (0 ∷ 0 ∷ codes "yz") 0 none
      b-IsTopic (omega arith) (omega arith) whole-Logged not_empty front_is

abbrev State : Type 0
State = Served {Schema = ℕ} {Fault = ℕ} arrow os (log_storage arrow) json disk protocol

abbrev state : State
state = (tm, (record { offsets = fresh []; config = config }, none))

-- A commit of offset 5, and a question for it.
abbrev commit : Bytes
commit = 0 ∷ 8 ∷ 0 ∷ 9 ∷ 1 ∷ codes "g" ++ 0 ∷ 5 ∷ codes "t"

abbrev question : Bytes
question = 0 ∷ 9 ∷ 0 ∷ 6 ∷ 1 ∷ codes "gt"

abbrev reply : Bytes
reply = u32_be 14 ++ 0 ∷ 0 ∷ 0 ∷ 0 ∷ 0 ∷ 0 ∷ 5 ∷ 1 ∷ codes "t"

abbrev after : State
after = (tm, (set_offset {Fault = ℕ} json disk (codes "g") (codes "t") (pos 5) state.1).1)

commit_handled :
    handle_message arrow os (log_storage arrow) json disk protocol commit state ≡ (ok [], after)
unfolding handle_message handle_key handle_header dispatch i16_be handle_offset_commit_request
    commit_topics commit_partition create_offset_commit_request set_offset flush save insert lookup
    joined ignore
commit_handled = refl

question_handled :
    handle_message arrow os (log_storage arrow) json disk protocol question after
    ≡ (ok reply, after)
unfolding handle_message handle_key handle_header dispatch i16_be handle_offset_fetch_request
    fetch_first create_offset_fetch_request offset_fetch_response set_offset flush save insert
    lookup joined get_offset respond
question_handled = refl

handle_kafka_connection-frames_example :
    handle_kafka_connection arrow os
      (log_storage arrow)
      json
      disk
      protocol
      loopback
      (record { incoming = frames (commit ∷ question ∷ []); outgoing = [] })
      state
    ≡ record {
      ending = failed_io unexpected_eof;
      socket = record { incoming = []; outgoing = reply ++ [] };
      state = after;
    }
handle_kafka_connection-frames_example =
    handle_kafka_connection-frames arrow os (log_storage arrow) json disk protocol loopback
      (λ sent chunk. refl)
      (message commit [] (omega arith) commit_handled
        (message question reply (omega arith) question_handled nothing))

-- Two messages, one of two bytes and one that the stream does not have.
handle_kafka_connection-Ends_example :
    (handle_kafka_connection arrow os
      (log_storage arrow)
      json
      disk
      protocol
      loopback
      (record { incoming = 0 ∷ 0 ∷ 0 ∷ 2 ∷ codes "hello"; outgoing = [] })
      state).ending
    ≢ no_fuel
handle_kafka_connection-Ends_example =
    handle_kafka_connection-Ends arrow os (log_storage arrow) json disk protocol
      (log-AlwaysEnds arrow) loopback
      (record { incoming = 0 ∷ 0 ∷ 0 ∷ 2 ∷ codes "hello"; outgoing = [] }) state
