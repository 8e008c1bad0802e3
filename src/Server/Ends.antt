-- ===== src/Server/Ends.antt =====
-- src/server.rs: the handling of a message, and the loop of a connection, end.
use mathlib.Core.Path.{subst}
use herbert.Prelude.{
  ℕ, zero, suc, ◌<◌, ◌≢◌, Option, none, some, inl, inr, [], ◌∷◌, arith, ltb, length, length-drop,
  drop, take, Bool-cases, of_u32_be, Bytes,
}
use herbert.Prelude.Int.{ℤ}
use herbert.Outcome.{IoError, Outcome, ok, err, panic, out_of_fuel}
use herbert.Outcome.Ends.{Any, Ends, Ends-then, Ends-match, Ends-option}
use herbert.Arrow.{Arrow}
use herbert.BufWriter.{OsFile}
use herbert.Storage.Record.{RecordStorage, AlwaysEnds}
use herbert.OffsetManager.Operations.{Json, OffsetFile}
use herbert.KafkaApi.Ends.{commit-Ends, offset_fetch-Ends, produce-Ends, fetch-Ends}
use herbert.Server.Dispatch.{
  ApiKey, produce, fetch, offset_commit, offset_fetch, other_key, RequestHeader, Protocol, Served,
  header_version, respond, dispatch, handle_header, handle_key, handle_message, i16_be,
}
use herbert.Server.Connection.{
  Ending, closed, failed_io, failed_json, failed, panicked, no_fuel, Link, Socket, read_message_len,
  Round, after_write, after_message, kafka_round, after_round, kafka_loop, handle_kafka_connection,
}

module _ (Fault : Type 0) (protocol : Protocol) where
  respond-Ends :
      (id : ℤ) (size : ℕ) (response_size : Option ℕ) (response : Bytes)
      → Ends {Fault = Fault} Any (respond protocol id size response_size response)
  unfolding respond
  respond-Ends id size response_size response =
      Ends-option Any (protocol.header_size id header_version) _ _ tt
        λ h. Ends-option Any response_size _ _ tt λ r. tt

module _ {Schema Batch Fault S : Type 0} (arrow : Arrow Schema Batch Fault) (os : OsFile)
    (storage : RecordStorage Batch Fault S) (json : Json) (disk : OffsetFile) (protocol : Protocol)
    (ends : AlwaysEnds storage) where
  abbrev pub State : Type 0
  State = Served arrow os storage json disk protocol

  dispatch-Ends :
      (key : Option ApiKey) (h : RequestHeader) (size : ℕ) (version : ℤ) (buffer : Bytes)
      (s : State)
      → Ends Any (dispatch arrow os storage json disk protocol key h size version buffer s).0
  unfolding dispatch
  dispatch-Ends none h size version buffer s = tt
  dispatch-Ends (some produce) h size version buffer (tm, s) =
      Ends-then Any Any _ _
        (produce-Ends arrow os storage ends protocol.decode_produce buffer h.request_api_version tm)
        (λ _ _. tt)
  dispatch-Ends (some fetch) h size version buffer (tm, s) =
      Ends-then Any Any _ _
        (fetch-Ends arrow os storage ends protocol.decode_fetch buffer h.request_api_version tm)
        (λ response _. respond-Ends Fault protocol h.correlation_id size _ _)
  dispatch-Ends (some offset_commit) h size version buffer (tm, s) =
      Ends-then Any Any _ _
        (commit-Ends Fault json disk protocol.decode_offset_commit buffer h.request_api_version s)
        (λ _ _. tt)
  dispatch-Ends (some offset_fetch) h size version buffer (tm, s) =
      Ends-then Any Any _ _
        (offset_fetch-Ends Fault json disk protocol.decode_offset_fetch buffer h.request_api_version
          s.0)
        (λ response _. respond-Ends Fault protocol h.correlation_id size _ _)
  dispatch-Ends (some other_key) h size version buffer s = tt

  header-Ends :
      (d : RequestHeader × Bytes) (version api_version : ℤ) (s : State)
      → Ends Any (handle_header arrow os storage json disk protocol d version api_version s).0
  unfolding handle_header
  header-Ends (h, buffer) version api_version s =
      Ends-match Any (protocol.header_size h.correlation_id version) _ _ tt
        λ size. dispatch-Ends (protocol.api_key h.request_api_key) h size api_version buffer s

  key-Ends :
      (key : ApiKey) (api_version : ℤ) (buffer : Bytes) (s : State)
      → Ends Any (handle_key arrow os storage json disk protocol key api_version buffer s).0
  unfolding handle_key
  key-Ends key api_version buffer s =
      Ends-match Any
        (protocol.decode_header buffer (protocol.request_header_version key api_version)) _ _ tt
        λ d. header-Ends d (protocol.request_header_version key api_version) api_version s

  message-Ends :
      (m : Bytes) (s : State) → Ends Any (handle_message arrow os storage json disk protocol m s).0
  unfolding handle_message
  message-Ends [] s = tt
  message-Ends (a ∷ []) s = tt
  message-Ends (a ∷ b ∷ []) s = tt
  message-Ends (a ∷ b ∷ c ∷ []) s = tt
  message-Ends (a ∷ b ∷ c ∷ d ∷ rest) s =
      Ends-match Any (protocol.api_key (i16_be a b)) _ _ tt
        λ key. key-Ends key (i16_be c d) (a ∷ b ∷ c ∷ d ∷ rest) s

  module _ (link : Link) where
    abbrev pub Rounds : Type 0
    Rounds = Round arrow os storage json disk protocol link

    -- For a reason, and not for want of fuel.
    abbrev pub HasReason : Ending Fault → Type 0
    HasReason closed = Unit
    HasReason (failed_io _) = Unit
    HasReason failed_json = Unit
    HasReason (failed _) = Unit
    HasReason panicked = Unit
    HasReason no_fuel = ⊥

    -- A round that ends the loop has a reason, and one that does not has read something.
    abbrev pub Progresses : ℕ → Rounds → Type 0
    Progresses left r = elim r.ending [
      | some e ↦ HasReason e
      | none ↦ length r.socket.incoming < left
    ]

    write-Progresses :
        (left : ℕ) (written : Option IoError × Bytes) (k : Socket) (s : State)
        → length k.incoming < left
        → Progresses left (after_write arrow os storage json disk protocol link written k s)
    unfolding after_write
    write-Progresses left (none, sent) k s h = h
    write-Progresses left (some e, sent) k s h = tt

    answer-Progresses :
        (left : ℕ) (k : Socket) (r : Outcome Fault Bytes × State)
        → Ends Any r.0
        → length k.incoming < left
        → Progresses left (after_message arrow os storage json disk protocol link k r)
    unfolding after_message
    answer-Progresses left k (ok response, s) h less =
        write-Progresses left (link.write_all k.outgoing response) k s less
    answer-Progresses left k (err e, s) h less = tt
    answer-Progresses left k (panic, s) h less = tt
    answer-Progresses left k (out_of_fuel, s) h less = h

    pub round-Progresses :
        (incoming outgoing : Bytes) (s : State)
        → Progresses (length incoming) (
            kafka_round arrow os storage json disk protocol link
              (record { incoming = incoming; outgoing = outgoing })
              s)
    unfolding kafka_round read_message_len
    round-Progresses [] outgoing s = tt
    round-Progresses (a ∷ []) outgoing s = tt
    round-Progresses (a ∷ b ∷ []) outgoing s = tt
    round-Progresses (a ∷ b ∷ c ∷ []) outgoing s = tt
    round-Progresses (a ∷ b ∷ c ∷ d ∷ rest) outgoing s =
        let len = of_u32_be a b c d in
        elim (Bool-cases (ltb (length rest) len)) [
          | inl short ↦ rw short tt
          | inr enough ↦ rw enough (
              answer-Progresses _ (record { incoming = drop len rest; outgoing = outgoing }) _
                (message-Ends (take len rest) s) (omega (arith, length-drop len rest)))
        ]

    after-HasReason :
        (fuel left : ℕ) (ending : Option (Ending Fault)) (socket : Socket) (state : State)
        → left < suc fuel
        → Progresses left (record { ending = ending; socket = socket; state = state })
        → ((k : Socket) (s : State)
            → length k.incoming < fuel
            → HasReason (kafka_loop arrow os storage json disk protocol link fuel k s).ending)
        → HasReason
            (after_round arrow os storage json disk protocol link
              (kafka_loop arrow os storage json disk protocol link fuel)
              (record { ending = ending; socket = socket; state = state })).ending
    after-HasReason fuel left none socket state few p again = again socket state (omega arith)
    after-HasReason fuel left (some e) socket state few p again = p

    loop-HasReason :
        (fuel : ℕ) (k : Socket) (s : State)
        → length k.incoming < fuel
        → HasReason (kafka_loop arrow os storage json disk protocol link fuel k s).ending
    unfolding kafka_loop
    loop-HasReason zero k s few = absurd (omega arith)
    loop-HasReason (suc fuel) k s few =
        let r = kafka_round arrow os storage json disk protocol link k s in
        after-HasReason fuel (length k.incoming) r.ending r.socket r.state few
          (round-Progresses k.incoming k.outgoing s) (loop-HasReason fuel)

    -- The loop of a connection ends on whatever bytes a client sends, and never for want of fuel:
    -- with an error, by the end of the stream, or by a panic. The operations of the backend end.
    pub handle_kafka_connection-Ends :
        (k : Socket) (s : State)
        → (handle_kafka_connection arrow os storage json disk protocol link k s).ending ≢ no_fuel
    unfolding handle_kafka_connection
    handle_kafka_connection-Ends k s is =
        subst HasReason is (loop-HasReason (suc (length k.incoming)) k s (omega arith))
