-- ===== src/Client/Fetching.antt =====
-- src/client.rs with src/server.rs: `get_records`, answered by a round of the server's loop.
use mathlib.Core.Option
use mathlib.Core.Option.{some-injective}
use herbert.Prelude.{
  Option, none, ◌+◌, ◌∙◌, ℕ, ◌-◌, ◌^◌, ◌<◌, ◌≤◌, ◌≡◌, refl, ap, false, some, inr, [], ◌++◌, ltb,
  length, as_u32, u32_be, of_u32_be-u32_be, arith, length-append, take_all, Bytes, Str,
}
use herbert.Prelude.Int.{ℤ, pos}
use herbert.Outcome.{ok}
use herbert.Arrow.{Arrow}
use herbert.BufWriter.{OsFile}
use herbert.Storage.Record.{RecordStorage}
use herbert.TopicManager.Operations.{TopicManager}
use herbert.TopicManager.Operations as Topics
use herbert.OffsetManager.Operations.{Json, OffsetFile}
use herbert.KafkaApi.Messages.{Decode, FetchRequest}
use herbert.KafkaApi.Topics.{
  create_fetch_request, fetch_partition, fetch_topics, handle_fetch_request,
}
use herbert.Server.Dispatch.{
  fetch, Protocol, Served, header_version, dispatch, i16_be, handle_message,
}
use herbert.Client.Stream.{Stream, Codec, zeros, receive}
use herbert.Client.Requests.{fetch_key, be_length, read_response, get_records}
use herbert.Client.Consume.{fetch_records}
use herbert.Client.Wire.{
  handle_message-IsCarried, Arrives, Wire, wire, create_buffer-Arrives, send-Arrives,
}
use herbert.Client.Responses.{
  ResponseLaws, records_body, payload, reply_size, reply, drop_past, receive-all, respond-reply,
  decode_records-payload,
}

-- A request of version 1 carries no `max_bytes`, and decodes to some other value of it: the field is
-- set to what was sent.
abbrev pub with_max_bytes : ℤ → Decode FetchRequest → Decode FetchRequest
with_max_bytes max_bytes decode buf version =
    Option.map {A = FetchRequest} (λ r. record r { max_bytes = max_bytes }) (decode buf version)

be_length-u32_be : (n : ℕ) → n < 2 ^ 32 → be_length (u32_be n) ≡ n
unfolding be_length u32_be
be_length-u32_be n small = of_u32_be-u32_be n small

module _ {Schema Batch Fault S : Type 0} (arrow : Arrow Schema Batch Fault) (os : OsFile)
    (storage : RecordStorage Batch Fault S) (json : Json) (disk : OffsetFile) (protocol : Protocol)
    (codec : Codec) (laws : ResponseLaws codec protocol) where
  -- The handler reads the topics of a request, and not its `max_bytes`.
  handle_fetch_request-with_max_bytes :
      (decode : Decode FetchRequest) (max_bytes : ℤ) (buf : Bytes) (version : ℤ)
      (request : FetchRequest) (tm : TopicManager Schema Batch S)
      → with_max_bytes max_bytes decode buf version ≡ some request
      → handle_fetch_request arrow os storage decode buf version tm
        ≡ fetch_topics arrow os storage request.topics tm
  unfolding handle_fetch_request
  handle_fetch_request-with_max_bytes decode max_bytes buf version request tm e =
      of_decoded (decode buf version) refl e
    where
      of_decoded :
          (o : Option FetchRequest)
          → decode buf version ≡ o
          → Option.map {A = FetchRequest} (λ r. record r { max_bytes = max_bytes }) o ≡ some request
          → handle_fetch_request arrow os storage decode buf version tm
            ≡ fetch_topics arrow os storage request.topics tm
      of_decoded none d f = cc
      of_decoded (some r) d f =
          rw (d, handle_fetch_request)
            (ap (λ q. fetch_topics arrow os storage q.topics tm) (some-injective _ _ f))

  abbrev Connected : Type 0
  Connected = Wire arrow os storage json disk protocol

  module _ (topic : Str) (max_messages offset : ℤ) (s : Served arrow os storage json disk protocol)
      (records : Bytes) (tm : TopicManager Schema Batch S) (fits : length records < 2 ^ 31)
      (a : Arrives codec protocol codec.fetch
        (with_max_bytes max_messages protocol.decode_fetch)
        fetch_key
        (pos 1)
        fetch
        (create_fetch_request topic max_messages offset)) where
    dispatch-fetch :
        Topics.fetch arrow os storage topic offset s.0 ≡ (ok records, tm)
        → dispatch arrow os storage json disk protocol
            (some fetch)
            a.carried.header
            a.carried.size
            (pos 1)
            a.body
            s
          ≡ (
            ok (reply protocol a.carried.header a.carried.size (records_body protocol records)),
            (tm, s.1),
          )
    unfolding dispatch fetch_topics fetch_partition create_fetch_request
    dispatch-fetch e =
        rw
          (
            a.carried.header_version_is,
            handle_fetch_request-with_max_bytes protocol.decode_fetch max_messages a.body (pos 1)
                (create_fetch_request topic max_messages offset) s.0 a.decoded,
            e,
            laws.fetch_size records fits,
          )
          (ap (λ r. (r, (tm, s.1)))
            (respond-reply codec protocol laws a.carried.header a.carried.size
              (records_body protocol records)))

    -- The length in front of the response to a fetch request is larger than what follows by the
    -- size of the response header at the version of the request's header: the size that is
    -- computed before the request is handled is counted, and then the header once more. The
    -- request arrives, but for its `max_bytes`, the server has fewer than 2 ^ 31 bytes of records
    -- for it, the codec's sizes are those of what it writes, and the length is below 2 ^ 32.
    pub handle_message-overcounts :
        Topics.fetch arrow os storage topic offset s.0 ≡ (ok records, tm)
        → a.carried.size
            + length (payload protocol a.carried.header (records_body protocol records))
          < 2 ^ 32
        → (protocol.header_size a.carried.header.correlation_id
              (protocol.request_header_version a.carried.peeked (i16_be a.carried.c a.carried.d))
            ≡ some a.carried.size)
          × (handle_message arrow os storage json disk protocol
                (a.header_bytes ++ a.request_bytes)
                s
              ≡ (
                ok (
                    u32_be (
                      a.carried.size
                      + length (payload protocol a.carried.header (records_body protocol records)))
                    ++ payload protocol a.carried.header (records_body protocol records)),
                (tm, s.1),
              ))
    handle_message-overcounts e small =
        let header = protocol.encode_header a.carried.header.correlation_id header_version in
        let sum : as_u32
              (reply_size protocol a.carried.header a.carried.size (records_body protocol records))
            ≡ a.carried.size
              + length (payload protocol a.carried.header (records_body protocol records)) =
          omega (arith, small, length-append header (records_body protocol records)) in
        (
          a.carried.size_is,
          handle_message-IsCarried arrow os storage json disk protocol
                (a.header_bytes ++ a.request_bytes) fetch (pos 1) a.body s a.carried
              ∙ dispatch-fetch e
              ∙ ap
                  (λ n. (
                    ok (
                        u32_be n
                        ++ payload protocol a.carried.header (records_body protocol records)),
                    (tm, s.1),
                  ))
                  sum,
        )

  module _ (opened : Connected) where
    abbrev server_wire : Stream Connected
    server_wire = wire arrow os storage json disk protocol opened

    module _ (topic : Str) (max_messages offset : ℤ)
        (s : Served arrow os storage json disk protocol) (records : Bytes)
        (tm : TopicManager Schema Batch S) (fits : length records < 2 ^ 31)
        (a : Arrives codec protocol codec.fetch
          (with_max_bytes max_messages protocol.decode_fetch)
          fetch_key
          (pos 1)
          fetch
          (create_fetch_request topic max_messages offset)) where
      abbrev records_reply : Bytes
      records_reply = reply protocol a.carried.header a.carried.size (records_body protocol records)

      read_len :
          (t : Served arrow os storage json disk protocol)
          → server_wire.read_exact 4 (record { server = t; inbox = records_reply }) ≡ (
            inr (
                u32_be (
                  as_u32 (
                    reply_size protocol a.carried.header a.carried.size
                      (records_body protocol records)))),
            record {
              server = t;
              inbox = payload protocol a.carried.header (records_body protocol records);
            },
          )
      unfolding u32_be
      read_len t =
          let enough : ltb (length records_reply) 4 ≡ false = ground arith in rw enough refl

      receive-payload :
          (t : Served arrow os storage json disk protocol) (n : ℕ)
          → length (payload protocol a.carried.header (records_body protocol records)) ≤ n
          → receive {Fault = Fault} server_wire n (record {
            server = t;
            inbox = payload protocol a.carried.header (records_body protocol records);
          })
            ≡ (
              ok (
                  payload protocol a.carried.header (records_body protocol records)
                  ++ zeros (
                      n
                      - length
                          (payload protocol a.carried.header (records_body protocol records)))),
              record { server = t; inbox = [] },
            )
      receive-payload t n small =
          receive-all server_wire n
            (payload protocol a.carried.header (records_body protocol records)) _ _
            (rw
              (
                take_all (payload protocol a.carried.header (records_body protocol records)) n
                    small,
                drop_past n (payload protocol a.carried.header (records_body protocol records))
                    small,
              )
              refl)

      read_response-reply :
          (t : Served arrow os storage json disk protocol)
          → reply_size protocol a.carried.header a.carried.size (records_body protocol records)
            < 2 ^ 32
          → (let len = server_wire.read_exact 4 (record { server = t; inbox = records_reply }) in
              read_response {Fault = Fault} codec server_wire (pos 1) len.0 len.1)
            ≡ (ok records, record { server = t; inbox = [] })
      unfolding read_response be_length
      read_response-reply t small =
          let whole : as_u32 (
                reply_size protocol a.carried.header a.carried.size (records_body protocol records))
              ≡ reply_size protocol a.carried.header a.carried.size
                  (records_body protocol records) =
            omega (arith, small) in
          rw
            (
              read_len t,
              whole,
              be_length-u32_be
                  (reply_size protocol a.carried.header a.carried.size
                    (records_body protocol records))
                  small,
              receive-payload t
                  (reply_size protocol a.carried.header a.carried.size
                    (records_body protocol records))
                  (omega (
                    arith,
                    length-append
                        (protocol.encode_header a.carried.header.correlation_id header_version)
                        (records_body protocol records),
                  )),
            )
            (ap (λ r. (r, record { server = t; inbox = [] }))
              (decode_records-payload codec protocol laws a.carried.header records _ fits))

      pub get_records-wire :
          Topics.fetch arrow os storage topic offset s.0 ≡ (ok records, tm)
          → reply_size protocol a.carried.header a.carried.size (records_body protocol records)
            < 2 ^ 32
          → fetch_records arrow codec server_wire topic max_messages offset
              (record { server = s; inbox = [] })
            ≡ (ok records, record { server = (tm, s.1); inbox = [] })
      unfolding fetch_records get_records
      get_records-wire e small =
          rw
            (
              create_buffer-Arrives arrow os storage json disk protocol codec opened codec.fetch
                  (with_max_bytes max_messages protocol.decode_fetch) fetch_key (pos 1) fetch _ a,
              send-Arrives arrow os storage json disk protocol codec opened codec.fetch
                  (with_max_bytes max_messages protocol.decode_fetch) fetch_key (pos 1) fetch _ a
                  records_reply [] s (tm, s.1)
                  (dispatch-fetch topic max_messages offset s records tm fits a e),
            )
            (read_response-reply (tm, s.1) small)
