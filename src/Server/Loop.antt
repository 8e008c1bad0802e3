-- ===== src/Server/Loop.antt =====
-- src/server.rs: `handle_kafka_connection` handles the messages of a stream one after the other.
use herbert.Prelude.{
  ℕ, zero, suc, ◌+◌, ◌^◌, ◌<◌, ◌≡◌, refl, ap, ◌∙◌, false, none, some, List, [], ◌∷◌, ◌++◌,
  append-nil, append_assoc, arith, ltb, length, length-append, take-length_append,
  drop-length_append, u32_be, of_u32_be-u32_be, Bytes,
}
use herbert.Outcome.{ok, unexpected_eof}
use herbert.Arrow.{Arrow}
use herbert.BufWriter.{OsFile}
use herbert.Storage.Record.{RecordStorage}
use herbert.OffsetManager.Operations.{Json, OffsetFile}
use herbert.Server.Dispatch.{Protocol, Served, handle_message}
use herbert.Server.Connection.{
  failed_io, Link, read_message_len, after_write, after_message, kafka_round, after_round,
  kafka_loop, handle_kafka_connection,
}

-- A link that takes every chunk.
abbrev pub TakesChunks : Link → Type 0
TakesChunks link = (sent chunk : Bytes) → link.write_all sent chunk ≡ (none, sent ++ chunk)

-- A message behind its length.
abbrev pub frame : Bytes → Bytes
frame m = u32_be (length m) ++ m

abbrev pub frames : List Bytes → Bytes
frames [] = []
frames (m ∷ ms) = frame m ++ frames ms

pub read_message_len-frame :
    (m rest : Bytes)
    → length m < 2 ^ 32
    → read_message_len (frame m ++ rest) ≡ some (length m, m ++ rest)
unfolding read_message_len u32_be
read_message_len-frame m rest small = rw (of_u32_be-u32_be (length m) small) refl

length-frame : (m : Bytes) → length (frame m) ≡ 4 + length m
unfolding u32_be
length-frame m = omega arith

module _ {Schema Batch Fault S : Type 0} (arrow : Arrow Schema Batch Fault) (os : OsFile)
    (storage : RecordStorage Batch Fault S) (json : Json) (disk : OffsetFile)
    (protocol : Protocol) where
  abbrev ServerState : Type 0
  ServerState = Served arrow os storage json disk protocol

  -- The messages are handled in order, each with a response: all responses, and the last state.
  pub data Handled : List Bytes → ServerState → Bytes → ServerState → Type 0 where
    nothing : {s : ServerState} → Handled [] s [] s
    message :
        {ms : List Bytes} {s t u : ServerState} {rest : Bytes} (m response : Bytes)
        → length m < 2 ^ 32
        → handle_message arrow os storage json disk protocol m s ≡ (ok response, t)
        → Handled ms t rest u
        → Handled (m ∷ ms) s (response ++ rest) u

  module _ (link : Link) (takes : TakesChunks link) where
    pub kafka_round-frame :
        (m rest response sent : Bytes) (s t : ServerState)
        → length m < 2 ^ 32
        → handle_message arrow os storage json disk protocol m s ≡ (ok response, t)
        → kafka_round arrow os storage json disk protocol link
            (record { incoming = frame m ++ rest; outgoing = sent })
            s
          ≡ record {
            ending = none;
            socket = record { incoming = rest; outgoing = sent ++ response };
            state = t;
          }
    unfolding kafka_round after_message after_write
    kafka_round-frame m rest response sent s t small e =
        let enough : ltb (length (m ++ rest)) (length m) ≡ false =
          ground (arith, length-append m rest) in
        rw
          (
            kafka_round,
            read_message_len-frame m rest small,
            enough,
            take-length_append m rest,
            drop-length_append m rest,
            e,
            takes sent response,
          )
          refl

    kafka_round-nil :
        (sent : Bytes) (s : ServerState)
        → kafka_round arrow os storage json disk protocol link
            (record { incoming = []; outgoing = sent })
            s
          ≡ record {
            ending = some (failed_io unexpected_eof);
            socket = record { incoming = []; outgoing = sent };
            state = s;
          }
    unfolding kafka_round read_message_len
    kafka_round-nil sent s = refl

    kafka_loop-frames :
        (fuel : ℕ) (sent : Bytes) {ms : List Bytes} {s t : ServerState} {responses : Bytes}
        → Handled ms s responses t
        → length (frames ms) < fuel
        → kafka_loop arrow os storage json disk protocol link fuel
            (record { incoming = frames ms; outgoing = sent })
            s
          ≡ record {
            ending = failed_io unexpected_eof;
            socket = record { incoming = []; outgoing = sent ++ responses };
            state = t;
          }
    unfolding kafka_loop
    kafka_loop-frames zero sent h few = absurd (omega arith)
    kafka_loop-frames (suc fuel) sent (nothing {s}) few = rw append-nil (
        ap
          (after_round arrow os storage json disk protocol link
            (kafka_loop arrow os storage json disk protocol link fuel))
          (kafka_round-nil sent s))
    kafka_loop-frames (suc fuel) sent (message {ms} {s} {t} {rest} m response small e h) few =
        ap
          (after_round arrow os storage json disk protocol link
            (kafka_loop arrow os storage json disk protocol link fuel))
          (kafka_round-frame m (frames ms) response sent s t small e)
        ∙ kafka_loop-frames fuel (sent ++ response) h
            (omega (arith, length-append (frame m) (frames ms), length-frame m))
        ∙ rw (append_assoc sent response rest) refl

    -- The loop of a connection refines the handling of one message at a time: over a stream of whole
    -- messages, each answered without an error, it sends the responses one behind the other and
    -- leaves the state that the messages leave, and then ends by the end of the stream. Each message
    -- is shorter than 2 ^ 32, and the link takes every chunk.
    pub handle_kafka_connection-frames :
        {ms : List Bytes} {s t : ServerState} {responses : Bytes}
        → Handled ms s responses t
        → handle_kafka_connection arrow os storage json disk protocol link
            (record { incoming = frames ms; outgoing = [] })
            s
          ≡ record {
            ending = failed_io unexpected_eof;
            socket = record { incoming = []; outgoing = responses };
            state = t;
          }
    unfolding handle_kafka_connection
    handle_kafka_connection-frames {ms} h =
        kafka_loop-frames (suc (length (frames ms))) [] h (omega arith)
