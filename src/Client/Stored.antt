-- ===== src/Client/Stored.antt =====
-- src/client.rs with src/server.rs: `produce`, from the client to the backend.
use herbert.Prelude.{◌≡◌, refl, ap, some, [], append-nil, bytes_eq, Bytes, Str}
use herbert.Prelude.Int.{pos}
use herbert.Outcome.{Outcome, ok}
use herbert.Arrow.{Arrow}
use herbert.BufWriter.{OsFile, TakesAll}
use herbert.Storage.Record.{raw, RecordStorage, StorageLaws}
use herbert.TopicManager.Operations.{TopicManager}
use herbert.OffsetManager.Operations.{Json, OffsetFile}
use herbert.KafkaApi.Topics.{create_produce_request, handle_produce_request}
use herbert.TopicManager.Stores.{IsFlushed, HasNoSchema}
use herbert.KafkaApi.Produced.{handle_produce_request-HasStored}
use herbert.Server.Dispatch.{ApiKey, Protocol, dispatch}
use herbert.Server.Dispatch as Key
use herbert.Client.Stream.{Codec, connected}
use herbert.Client.Requests.{produce_key, produce_request, produce}
use herbert.Client.Wire.{Arrives, Wire, wire, create_buffer-Arrives, send-Arrives}

module _ {Schema Batch Fault S : Type 0} (arrow : Arrow Schema Batch Fault) (os : OsFile)
    (storage : RecordStorage Batch Fault S) (json : Json) (disk : OffsetFile) (protocol : Protocol)
    (codec : Codec) {IsHealthy : S → Type 0} (laws : StorageLaws storage IsHealthy)
    (takes : TakesAll os) where
  abbrev pub Server : Type 0
  Server = Wire arrow os storage json disk protocol

  module _ (opened : Server) (topic message : Bytes)
      (a : Arrives codec protocol codec.produce protocol.decode_produce produce_key
        (pos 9)
        Key.produce
        (create_produce_request topic message)) where
    abbrev handled : Outcome Fault Unit × TopicManager Schema Batch S
    handled =
        handle_produce_request arrow os storage protocol.decode_produce a.body (pos 9)
          opened.server.0

    dispatch-produce :
        handled.0 ≡ ok tt
        → dispatch arrow os storage json disk protocol
            (some Key.produce)
            a.carried.header
            a.carried.size
            (pos 9)
            a.body
            opened.server
          ≡ (ok [], (handled.1, opened.server.1))
    unfolding dispatch
    dispatch-produce e = rw (a.carried.header_version_is, e) refl

    produce-handled :
        (broker : Str)
        → handled.0 ≡ ok tt
        → produce {Fault = Fault} codec
            (wire arrow os storage json disk protocol opened)
            broker
            topic
            message
          ≡ (ok tt, some (record { server = (handled.1, opened.server.1); inbox = opened.inbox }))
    unfolding produce produce_request connected
    produce-handled broker e =
        rw
          (
            create_buffer-Arrives arrow os storage json disk protocol codec opened codec.produce
                protocol.decode_produce produce_key (pos 9) Key.produce
                (create_produce_request topic message) a,
            send-Arrives arrow os storage json disk protocol codec opened codec.produce
                protocol.decode_produce produce_key (pos 9) Key.produce
                (create_produce_request topic message) a [] opened.inbox opened.server
                (handled.1, opened.server.1) (dispatch-produce e),
          )
          (ap
            (λ inbox.
              (ok tt, some (record { server = (handled.1, opened.server.1); inbox = inbox })))
            (append-nil opened.inbox))

    -- What a client produces for a topic with no schema, known or not, is in the backend, raw, once
    -- the server has handled what the client wrote, as it does on this wire at each write; `produce`
    -- succeeds, and the server sends no response: where at most one message may stay uncommitted and
    -- none did, the disk and the backend take every write, no lock is poisoned, and the request
    -- arrives as it was sent.
    pub produce-HasStored :
        (broker : Str)
        → IsFlushed IsHealthy opened.server.0
        → HasNoSchema topic opened.server.0
        → (after : Server) × (produce {Fault = Fault} codec
              (wire arrow os storage json disk protocol opened)
              broker
              topic
              message
            ≡ (ok tt, some after))
          × (after.inbox ≡ opened.inbox)
          × (after.server.0.backend ≡ (storage.add topic (raw message) opened.server.0.backend).1)
          × (after.server.0.wal.buffer.inner ≡ [])
          × (after.server.1 ≡ opened.server.1)
    produce-HasStored broker h no_schema =
        let stored =
          handle_produce_request-HasStored arrow os storage laws takes protocol.decode_produce
            a.body (pos 9) topic message opened.server.0 a.decoded h no_schema in
        (
          record { server = (handled.1, opened.server.1); inbox = opened.inbox },
          produce-handled broker stored.0,
          refl,
          stored.1,
          stored.2,
          refl,
        )
