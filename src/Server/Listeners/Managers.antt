-- ===== src/Server/Listeners/Managers.antt =====
-- src/server.rs: what `add`, `fetch` and `create` keep of the topic manager, all connections keep.
use herbert.Prelude.{
  ℕ, ◌≡◌, refl, Option, none, some, inl, inr, List, ltb, length, take, All, Bool-cases, Bytes, Str,
}
use herbert.Prelude.Int.{ℤ}
use herbert.HerbertApi.{Request, create_topic}
use herbert.Arrow.{Arrow}
use herbert.BufWriter.{OsFile}
use herbert.Storage.Record.{RecordStorage}
use herbert.TopicManager.Operations.{TopicManager, add, create}
use herbert.TopicManager.Operations as Topics
use herbert.OffsetManager.Operations.{Json, OffsetFile}
use herbert.KafkaApi.Messages.{ProduceRequest}
use herbert.KafkaApi.Handled.{AddsOnly, handle_produce_request_keeps, handle_fetch_request_keeps}
use herbert.Server.Dispatch.{
  ApiKey, produce, fetch, offset_commit, offset_fetch, other_key, RequestHeader, Protocol, Served,
  dispatch,
}
use herbert.Server.Connection.{Link, read_message_len, handle_request, handle_herbert_connection}
use herbert.Server.Messages.{HasHeader, handle_message_keeps}
use herbert.Server.Listeners.{Event, Running, serve}
use herbert.Server.Listeners.Invariants.{EachMessage, IsFitEvent, serve_keeps}

-- The record that a message asks to add, if it is a produce request, is one of these.
abbrev pub MessageAddsOnly : Protocol → (Str → Bytes → Type 0) → (message : Bytes) → Type 0
MessageAddsOnly protocol IsAdded message =
    (h : RequestHeader) (buffer : Bytes) (r : ProduceRequest)
    → HasHeader protocol message h buffer
    → protocol.decode_produce buffer h.request_api_version ≡ some r
    → AddsOnly IsAdded r.topic_data

module _ {Schema Batch Fault S : Type 0} (arrow : Arrow Schema Batch Fault) (os : OsFile)
    (storage : RecordStorage Batch Fault S) (json : Json) (disk : OffsetFile) (protocol : Protocol)
    (P : TopicManager Schema Batch S → Type 0) (IsAdded : Str → Bytes → Type 0)
    (add_P : (topic : Str) (bytes : Bytes) (tm : TopicManager Schema Batch S)
      → IsAdded topic bytes
      → P tm
      → P (add arrow os storage topic bytes tm).1)
    (fetch_P : (topic : Str) (offset : ℤ) (tm : TopicManager Schema Batch S)
      → P tm
      → P (Topics.fetch arrow os storage topic offset tm).1)
    (create_P : (topic : Str) (schema : Option Schema) (tm : TopicManager Schema Batch S)
      → P tm
      → P (create {Fault = Fault} topic schema tm).1) where
  abbrev State : Type 0
  State = Served arrow os storage json disk protocol

  dispatch_keeps :
      (message : Bytes)
      → MessageAddsOnly protocol IsAdded message
      → (key : Option ApiKey) (h : RequestHeader) (size : ℕ) (version : ℤ) (buffer : Bytes)
        (s : State)
      → HasHeader protocol message h buffer
      → P s.0
      → P (dispatch arrow os storage json disk protocol key h size version buffer s).1.0
  unfolding dispatch
  dispatch_keeps message adds none h size version buffer s has p = p
  dispatch_keeps message adds (some produce) h size version buffer s has p =
      handle_produce_request_keeps arrow os storage P IsAdded add_P protocol.decode_produce buffer
        h.request_api_version s.0 (λ r e. adds h buffer r has e) p
  dispatch_keeps message adds (some fetch) h size version buffer s has p =
      handle_fetch_request_keeps arrow os storage P fetch_P protocol.decode_fetch buffer
        h.request_api_version s.0 p
  dispatch_keeps message adds (some offset_commit) h size version buffer s has p = p
  dispatch_keeps message adds (some offset_fetch) h size version buffer s has p = p
  dispatch_keeps message adds (some other_key) h size version buffer s has p = p

  request_keeps :
      (request : Request Schema) (tm : TopicManager Schema Batch S)
      → P tm
      → P (handle_request {Fault = Fault} request tm).1
  unfolding handle_request
  request_keeps (create_topic topic schema) tm p = create_P topic schema tm p

  module _ (from_slice : Bytes → Option (Request Schema)) where
    decoded_keeps :
        (stream rest : Bytes) (len : ℕ) (tm : TopicManager Schema Batch S)
        (decoded : Option (Request Schema))
        → read_message_len stream ≡ some (len, rest)
        → from_slice (take len rest) ≡ decoded
        → P tm
        → P (handle_herbert_connection {Fault = Fault} from_slice stream tm).1
    unfolding handle_herbert_connection
    decoded_keeps stream rest len tm none read e p = elim (Bool-cases (ltb (length rest) len)) [
      | inl short ↦ rw (read, handle_herbert_connection, short) p
      | inr enough ↦ rw (read, handle_herbert_connection, enough, e) p
    ]
    decoded_keeps stream rest len tm (some request) read e p =
        elim (Bool-cases (ltb (length rest) len)) [
          | inl short ↦ rw (read, handle_herbert_connection, short) p
          | inr enough ↦
              rw (read, handle_herbert_connection, enough, e) (request_keeps request tm p)
        ]

    stream_keeps :
        (stream : Bytes) (tm : TopicManager Schema Batch S) (read : Option (ℕ × Bytes))
        → read_message_len stream ≡ read
        → P tm
        → P (handle_herbert_connection {Fault = Fault} from_slice stream tm).1
    unfolding handle_herbert_connection
    stream_keeps stream tm none e p = rw (e, handle_herbert_connection) p
    stream_keeps stream tm (some (len, rest)) e p = decoded_keeps stream rest len tm _ e refl p

    pub serve_topics_keep :
        (link : Link) (es : List Event)
        (r : Running arrow os storage json disk protocol link from_slice)
        → All (IsFitEvent (MessageAddsOnly protocol IsAdded)) es
        → All (λ k. EachMessage (MessageAddsOnly protocol IsAdded) k.incoming) r.kafka
        → P r.state.0
        → P (serve arrow os storage json disk protocol link from_slice es r).1.state.0
    serve_topics_keep link es r fits open_fits p =
        let kept =
          serve_keeps arrow os storage json disk protocol link (λ s. P s.0)
            (MessageAddsOnly protocol IsAdded)
            (λ m s adds.
              handle_message_keeps arrow os storage json disk protocol (λ s. P s.0) m
                (dispatch_keeps m adds) s)
            from_slice (λ stream s. stream_keeps stream s.0 _ refl) es r fits
            (record { holds = p; fit = open_fits }) in
        kept.holds
