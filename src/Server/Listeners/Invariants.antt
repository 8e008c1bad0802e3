-- ===== src/Server/Listeners/Invariants.antt =====
-- src/server.rs: what holds of the shared managers after each turn of a task.
use herbert.Prelude.{
  ℕ, zero, suc, ◌≡◌, refl, Option, none, some, inl, inr, List, [], ◌∷◌, ltb, if◌then◌else◌, length,
  take, drop, Bool-cases, All, All-append, Bytes,
}
use herbert.Outcome.{IoError, Outcome, ok, err, panic, out_of_fuel}
use herbert.HerbertApi.{Request}
use herbert.Arrow.{Arrow}
use herbert.BufWriter.{OsFile}
use herbert.Storage.Record.{RecordStorage}
use herbert.OffsetManager.Operations.{Json, OffsetFile}
use herbert.Server.Dispatch.{Protocol, Served, handle_message}
use herbert.Server.Connection.{
  Ending, Link, Socket, Round, read_message_len, after_write, after_message, kafka_round,
  handle_herbert_connection,
}
use herbert.Server.Listeners.{
  Event, kafka_accepts, herbert_accepts, kafka_accept_fails, herbert_accept_fails, kafka_turn,
  herbert_turn, Running, reopen, turn_kafka, turn_herbert, serve,
}

-- The first whole message of a stream, and what comes behind it.
unfoldable pub next_message : Bytes → Option (Bytes × Bytes)
next_message stream = elim (read_message_len stream) [
  | none ↦ none
  | some (len, rest) ↦ if ltb (length rest) len then none else some (take len rest, drop len rest)
]

unfoldable pub message_at : ℕ → Bytes → Option Bytes
message_at zero stream = elim (next_message stream) [ none ↦ none | some (m, _) ↦ some m ]
message_at (suc n) stream = elim (next_message stream) [
  | none ↦ none
  | some (_, rest) ↦ message_at n rest
]

-- Each message of the stream.
abbrev pub EachMessage : (Bytes → Type 0) → Bytes → Type 0
EachMessage P stream = (n : ℕ) (m : Bytes) → message_at n stream ≡ some m → P m

EachMessage-next :
    (P : Bytes → Type 0) (stream m rest : Bytes)
    → next_message stream ≡ some (m, rest)
    → EachMessage P stream
    → P m × EachMessage P rest
unfolding message_at
EachMessage-next P stream m rest e each =
    (each 0 m (rw (e, message_at) refl), λ n found is. each (suc n) found (rw (e, message_at) is))

-- The streams that the Kafka listener accepts have messages of a kind.
abbrev pub IsFitEvent : (Bytes → Type 0) → Event → Type 0
IsFitEvent IsFit (kafka_accepts stream) = EachMessage IsFit stream
IsFitEvent IsFit _ = Unit

module _ (P : Bytes → Type 0) (any_message : (m : Bytes) → P m) where
  pub every_event : (es : List Event) → All (IsFitEvent P) es
  every_event [] = tt
  every_event (kafka_accepts stream ∷ es) = (λ n m _. any_message m, every_event es)
  every_event (herbert_accepts stream ∷ es) = (tt, every_event es)
  every_event (kafka_accept_fails e ∷ es) = (tt, every_event es)
  every_event (herbert_accept_fails e ∷ es) = (tt, every_event es)
  every_event (kafka_turn n ∷ es) = (tt, every_event es)
  every_event (herbert_turn n ∷ es) = (tt, every_event es)

  pub every_stream : (ks : List Socket) → All (λ k. EachMessage P k.incoming) ks
  every_stream [] = tt
  every_stream (k ∷ ks) = (λ n m _. any_message m, every_stream ks)

-- Nothing is a message of an empty stream.
EachMessage-nil : (P : Bytes → Type 0) → EachMessage P []
unfolding message_at next_message read_message_len
EachMessage-nil P zero m e = cc
EachMessage-nil P (suc n) m e = cc

module _ {Schema Batch Fault S : Type 0} (arrow : Arrow Schema Batch Fault) (os : OsFile)
    (storage : RecordStorage Batch Fault S) (json : Json) (disk : OffsetFile) (protocol : Protocol)
    (link : Link) where
  abbrev State : Type 0
  State = Served arrow os storage json disk protocol

  after_write_keeps :
      (k : Socket) (w : Option IoError × Bytes) (s : State)
      → let r = after_write arrow os storage json disk protocol link w k s in
        (r.state ≡ s) × (r.socket.incoming ≡ k.incoming)
  unfolding after_write
  after_write_keeps k (none, sent) s = (refl, refl)
  after_write_keeps k (some e, sent) s = (refl, refl)

  after_message_keeps :
      (k : Socket) (o : Outcome Fault Bytes) (s : State)
      → let r = after_message arrow os storage json disk protocol link k (o, s) in
        (r.state ≡ s) × (r.socket.incoming ≡ k.incoming)
  unfolding after_message
  after_message_keeps k (ok response) s = after_write_keeps k (link.write_all k.outgoing response) s
  after_message_keeps k (err e) s = (refl, refl)
  after_message_keeps k panic s = (refl, refl)
  after_message_keeps k out_of_fuel s = (refl, refl)

  -- A property that each message of a kind keeps is kept by a round, and the stream goes on with
  -- messages of that kind.
  module _ (P : State → Type 0) (IsFit : Bytes → Type 0)
      (message_keeps : (m : Bytes) (s : State)
        → IsFit m
        → P s
        → P (handle_message arrow os storage json disk protocol m s).1) where
    abbrev HoldsAfter : Round arrow os storage json disk protocol link → Type 0
    HoldsAfter r = P r.state × EachMessage IsFit r.socket.incoming

    answer_keeps :
        (k : Socket) (o : Outcome Fault Bytes) (s : State)
        → P s
        → EachMessage IsFit k.incoming
        → HoldsAfter (after_message arrow os storage json disk protocol link k (o, s))
    answer_keeps k o s p fit =
        let (same_state, same_incoming) = after_message_keeps k o s in
        rw (same_state, same_incoming) (p, fit)

    round_keeps :
        (incoming outgoing : Bytes) (s : State) (read : Option (ℕ × Bytes))
        → read_message_len incoming ≡ read
        → EachMessage IsFit incoming
        → P s
        → HoldsAfter (
            kafka_round arrow os storage json disk protocol link
              (record { incoming = incoming; outgoing = outgoing })
              s)
    unfolding kafka_round next_message
    round_keeps incoming outgoing s none e fit p = rw (e, kafka_round) (p, EachMessage-nil IsFit)
    round_keeps incoming outgoing s (some (len, rest)) e fit p =
        elim (Bool-cases (ltb (length rest) len)) [
          | inl short ↦ rw (e, kafka_round, short) (p, EachMessage-nil IsFit)
          | inr enough ↦
              let (first, later) =
                EachMessage-next IsFit incoming (take len rest) (drop len rest)
                  (rw (e, next_message, enough) refl) fit in
              rw (e, kafka_round, enough)
                (answer_keeps (record { incoming = drop len rest; outgoing = outgoing }) _ _
                  (message_keeps (take len rest) s first p) later)
        ]

    module _ (from_slice : Bytes → Option (Request Schema))
        (herbert_keeps : (stream : Bytes) (s : State)
          → P s
          → P ((handle_herbert_connection {Fault = Fault} from_slice stream s.0).1, s.1)) where
      abbrev Server : Type 0
      Server = Running arrow os storage json disk protocol link from_slice

      -- The property holds, and all that the open tasks have yet to read is of that kind.
      pub record IsServing (r : Server) : Type 0 where
        pub holds : P r.state
        pub fit : All (λ k. EachMessage IsFit k.incoming) r.kafka

      reopen_keeps :
          (ending : Option (Ending Fault)) (k : Socket) (s : State) (ks : List Socket)
          → EachMessage IsFit k.incoming
          → All (λ k. EachMessage IsFit k.incoming) ks
          → All
              (λ k. EachMessage IsFit k.incoming)
              (reopen arrow os storage json disk protocol link from_slice
                (record { ending = ending; socket = k; state = s })
                ks)
      unfolding reopen
      reopen_keeps none k s ks first later = (first, later)
      reopen_keeps (some e) k s ks first later = later

      turn_kafka_keeps :
          (n : ℕ) (ks : List Socket) (s : State)
          → All (λ k. EachMessage IsFit k.incoming) ks
          → P s
          → let (ks1, s1) = turn_kafka arrow os storage json disk protocol link from_slice n ks s in
            P s1 × All (λ k. EachMessage IsFit k.incoming) ks1
      unfolding turn_kafka
      turn_kafka_keeps n [] s fit p = (p, tt)
      turn_kafka_keeps zero (k ∷ ks) s fit p =
          let (holds, later) = round_keeps k.incoming k.outgoing s _ refl fit.0 p in
          (holds, reopen_keeps _ _ _ ks later fit.1)
      turn_kafka_keeps (suc n) (k ∷ ks) s fit p =
          let (holds, later) = turn_kafka_keeps n ks s fit.1 p in (holds, (fit.0, later))

      turn_herbert_keeps :
          (n : ℕ) (streams : List Bytes) (s : State)
          → P s
          → P (turn_herbert arrow os storage json disk protocol link from_slice n streams s).1
      unfolding turn_herbert
      turn_herbert_keeps n [] s p = p
      turn_herbert_keeps zero (stream ∷ streams) s p = herbert_keeps stream s p
      turn_herbert_keeps (suc n) (stream ∷ streams) s p = turn_herbert_keeps n streams s p

      pub serve_keeps :
          (es : List Event) (r : Server)
          → All (IsFitEvent IsFit) es
          → IsServing r
          → IsServing (serve arrow os storage json disk protocol link from_slice es r).1
      unfolding serve
      serve_keeps [] r fits h = h
      serve_keeps (kafka_accepts stream ∷ es) r fits h =
          serve_keeps es _ fits.1
            (record { holds = h.holds; fit = All-append _ r.kafka _ h.fit (fits.0, tt) })
      serve_keeps (herbert_accepts stream ∷ es) r fits h =
          serve_keeps es _ fits.1 (record { holds = h.holds; fit = h.fit })
      serve_keeps (kafka_accept_fails e ∷ es) r fits h = h
      serve_keeps (herbert_accept_fails e ∷ es) r fits h = h
      serve_keeps (kafka_turn n ∷ es) r fits h =
          let (holds, fit) = turn_kafka_keeps n r.kafka r.state h.fit h.holds in
          serve_keeps es _ fits.1 (record { holds = holds; fit = fit })
      serve_keeps (herbert_turn n ∷ es) r fits h =
          serve_keeps es _ fits.1
            (record { holds = turn_herbert_keeps n r.herbert r.state h.holds; fit = h.fit })
