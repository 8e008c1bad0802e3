-- ===== src/Client/Wire.antt =====
-- src/client.rs and src/server.rs: a stream that hands each chunk that a client writes to a round of
-- the server's loop, and what the server sends to the client.
use herbert.Prelude.{
  ℕ, ◌+◌, ◌^◌, ◌<◌, ◌≡◌, refl, sym, ap, ◌∙◌, none, some, inl, inr, [], ◌∷◌, ◌++◌, append-nil, ltb,
  if◌then◌else◌, length, take, drop, as_u32, arith, length-append, Bytes,
}
use herbert.Prelude.Int.{ℤ}
use herbert.Outcome.{ok, unexpected_eof}
use herbert.Arrow.{Arrow}
use herbert.BufWriter.{OsFile}
use herbert.Storage.Record.{RecordStorage}
use herbert.OffsetManager.Operations.{Json, OffsetFile}
use herbert.KafkaApi.Messages.{Decode}
use herbert.Server.Dispatch.{
  ApiKey, RequestHeader, Protocol, Served, i16_be, dispatch, handle_header, handle_key,
  handle_message,
}
use herbert.Server.Connection.{Link, kafka_round}
use herbert.Server.Loop.{frame, kafka_round-frame}
use herbert.Client.Stream.{Stream, Encoder, Codec, create_request_header, create_buffer, send}

-- A link that takes every chunk.
abbrev pub loopback : Link
loopback = record { write_all = λ sent chunk. (none, sent ++ chunk) }

-- The server finds a message of this key and version, with this body.
pub record IsCarried (protocol : Protocol) (m : Bytes) (key : ApiKey) (version : ℤ) (body : Bytes)
    : Type 0 where
  pub a : ℕ
  pub b : ℕ
  pub c : ℕ
  pub d : ℕ
  pub rest : Bytes
  pub starts : m ≡ a ∷ b ∷ c ∷ d ∷ rest
  pub peeked : ApiKey
  pub key_is : protocol.api_key (i16_be a b) ≡ some peeked
  pub version_is : i16_be c d ≡ version
  pub header : RequestHeader
  pub decoded :
      protocol.decode_header
        (a ∷ b ∷ c ∷ d ∷ rest)
        (protocol.request_header_version peeked (i16_be c d))
      ≡ some (header, body)
  pub size : ℕ
  pub size_is :
      protocol.header_size header.correlation_id
        (protocol.request_header_version peeked (i16_be c d))
      ≡ some size
  pub header_key : protocol.api_key header.request_api_key ≡ some key
  pub header_version_is : header.request_api_version ≡ version

-- A request that the client encodes behind its header, and that arrives as it was sent.
pub record Arrives {M : Type 0} (codec : Codec) (protocol : Protocol) (encoder : Encoder M)
    (decode : Decode M) (number version : ℤ) (key : ApiKey) (request : M) : Type 0 where
  pub header_bytes : Bytes
  pub request_bytes : Bytes
  pub encode_header :
      codec.header.encode (create_request_header number version) version ≡ some header_bytes
  pub size_header :
      codec.header.compute_size (create_request_header number version) version
      ≡ some (length header_bytes)
  pub encode_request : encoder.encode request version ≡ some request_bytes
  pub size_request : encoder.compute_size request version ≡ some (length request_bytes)
  pub small : length (header_bytes ++ request_bytes) < 2 ^ 32
  pub body : Bytes
  pub carried : IsCarried protocol (header_bytes ++ request_bytes) key version body
  pub decoded : decode body version ≡ some request

module _ {Schema Batch Fault S : Type 0} (arrow : Arrow Schema Batch Fault) (os : OsFile)
    (storage : RecordStorage Batch Fault S) (json : Json) (disk : OffsetFile)
    (protocol : Protocol) where
  abbrev pub State : Type 0
  State = Served arrow os storage json disk protocol

  pub record Wire : Type 0 where
    pub server : State
    pub inbox : Bytes

  -- Each chunk that is written is what the next round of the server reads.
  abbrev pub wire : Wire → Stream Wire
  wire opened = record {
    connect = λ broker. inr opened;
    write = λ bytes w.
        let r =
          kafka_round arrow os storage json disk protocol loopback
            (record { incoming = bytes; outgoing = w.inbox }) w.server in
        (inr (length bytes), record { server = r.state; inbox = r.socket.outgoing });
    write_all = λ bytes w. (none, w);
    read = λ n w. (inr (take n w.inbox), record w { inbox = drop n w.inbox });
    read_exact = λ n w.
        if ltb (length w.inbox) n
        then (inl unexpected_eof, w)
        else (inr (take n w.inbox), record w { inbox = drop n w.inbox });
  }

  pub handle_message-IsCarried :
      (m : Bytes) (key : ApiKey) (version : ℤ) (body : Bytes) (s : State)
      → (c : IsCarried protocol m key version body)
      → handle_message arrow os storage json disk protocol m s
        ≡ dispatch arrow os storage json disk protocol (some key) c.header c.size version body s
  unfolding handle_message handle_key handle_header
  handle_message-IsCarried m key version body s c =
      rw
        (
          c.starts, handle_message, c.key_is, handle_key, c.decoded, handle_header, c.size_is,
          c.header_key, c.version_is,
        )
        refl

  module _ (codec : Codec) (opened : Wire) {M : Type 0} (encoder : Encoder M) (decode : Decode M)
      (number version : ℤ) (key : ApiKey) (request : M)
      (arrives : Arrives codec protocol encoder decode number version key request) where
    abbrev pub sent_message : Bytes
    sent_message = arrives.header_bytes ++ arrives.request_bytes

    pub create_buffer-Arrives :
        create_buffer {Fault = Fault} codec.header encoder
          (create_request_header number version)
          request
        ≡ ok (frame sent_message)
    unfolding create_buffer create_request_header
    create_buffer-Arrives =
        let whole : as_u32 (length arrives.header_bytes + length arrives.request_bytes)
            ≡ length sent_message =
          omega (arith, arrives.small, length-append arrives.header_bytes arrives.request_bytes) in
        rw
          (
            arrives.size_header, arrives.size_request, arrives.encode_header,
            arrives.encode_request, whole,
          )
          refl

    -- What the client sends is dispatched, and the response is what it can read.
    pub send-Arrives :
        (response inbox : Bytes) (s t : State)
        → dispatch arrow os storage json disk protocol
            (some key)
            arrives.carried.header
            arrives.carried.size
            version
            arrives.body
            s
          ≡ (ok response, t)
        → send {Fault = Fault}
            (wire opened)
            (frame sent_message)
            (record { server = s; inbox = inbox })
          ≡ (ok (length (frame sent_message)), record { server = t; inbox = inbox ++ response })
    unfolding send
    send-Arrives response inbox s t e =
        let handled =
          handle_message-IsCarried sent_message key version arrives.body s arrives.carried ∙ e in
        ap
          (λ bytes.
            let r =
              kafka_round arrow os storage json disk protocol loopback
                (record { incoming = bytes; outgoing = inbox }) s in
            (
              ok (length (frame sent_message)),
              record { server = r.state; inbox = r.socket.outgoing },
            ))
          (sym (append-nil (frame sent_message)))
        ∙ ap
            (λ r. (
              ok (length (frame sent_message)),
              record { server = r.state; inbox = r.socket.outgoing },
            ))
            (kafka_round-frame arrow os storage json disk protocol loopback (λ sent chunk. refl)
              sent_message [] response inbox s t arrives.small handled)
