-- ===== src/Client/Asking.antt =====
-- src/client.rs with src/server.rs: `get_offset`, answered by a round of the server's loop.
use herbert.Prelude.{
  ℕ, ◌-◌, ◌≤◌, ◌≡◌, refl, ap, some, [], ◌++◌, length, drop, u32_be, take_all, Bytes, Str,
}
use herbert.Prelude.Int.{ℤ, pos}
use herbert.Outcome.{ok}
use herbert.Arrow.{Arrow}
use herbert.BufWriter.{OsFile}
use herbert.Storage.Record.{RecordStorage}
use herbert.OffsetManager.Operations.{OffsetManager, Json, OffsetFile, Saved}
use herbert.OffsetManager.Operations as Offsets
use herbert.KafkaApi.Offsets.{create_offset_fetch_request, fetch_first, handle_offset_fetch_request}
use herbert.Server.Dispatch.{offset_fetch, RequestHeader, Protocol, Served, dispatch}
use herbert.Client.Stream.{Stream, Codec, zeros, receive}
use herbert.Client.Requests.{offset_fetch_key, get_offset}
use herbert.Client.Wire.{Arrives, Wire, wire, create_buffer-Arrives, send-Arrives}
use herbert.Client.Responses.{
  IsSendable, ResponseLaws, offset_body, payload, reply, drop_past, receive-all, respond-reply,
  decode_offset-payload,
}

drop-reply :
    (protocol : Protocol) (h : RequestHeader) (size : ℕ) (body rest : Bytes)
    → drop 4 (reply protocol h size body ++ rest) ≡ payload protocol h body ++ rest
unfolding u32_be
drop-reply protocol h size body rest = refl

module _ {Schema Batch Fault S : Type 0} (arrow : Arrow Schema Batch Fault) (os : OsFile)
    (storage : RecordStorage Batch Fault S) (json : Json) (disk : OffsetFile) (protocol : Protocol)
    (codec : Codec) (laws : ResponseLaws codec protocol) where
  abbrev Connected : Type 0
  Connected = Wire arrow os storage json disk protocol

  module _ (opened : Connected) where
    abbrev server_wire : Stream Connected
    server_wire = wire arrow os storage json disk protocol opened

    module _ (group topic : Str) (offset : ℤ) (s : Served arrow os storage json disk protocol)
        (a : Arrives codec protocol codec.offset_fetch protocol.decode_offset_fetch offset_fetch_key
          (pos 6)
          offset_fetch
          (create_offset_fetch_request group topic)) where
      abbrev offset_reply : Bytes
      offset_reply =
          reply protocol a.carried.header a.carried.size (offset_body protocol topic offset)

      dispatch-offset_fetch :
          IsSendable topic offset
          → Offsets.get_offset {Fault = Fault} group topic s.1.0 ≡ ok offset
          → dispatch arrow os storage json disk protocol
              (some offset_fetch)
              a.carried.header
              a.carried.size
              (pos 6)
              a.body
              s
            ≡ (ok offset_reply, s)
      unfolding dispatch handle_offset_fetch_request fetch_first create_offset_fetch_request
      dispatch-offset_fetch sendable e =
          rw
            (
              a.carried.header_version_is,
              handle_offset_fetch_request,
              a.decoded,
              e,
              laws.offset_fetch_size topic offset sendable,
            )
            (ap (λ r. (r, s))
              (respond-reply codec protocol laws a.carried.header a.carried.size
                (offset_body protocol topic offset)))

      receive-reply :
          length offset_reply ≤ 512
          → receive {Fault = Fault} server_wire 512 (record { server = s; inbox = offset_reply })
            ≡ (
              ok (offset_reply ++ zeros (512 - length offset_reply)),
              record { server = s; inbox = [] },
            )
      receive-reply small =
          receive-all server_wire 512 offset_reply _ _
            (rw (take_all offset_reply 512 small, drop_past 512 offset_reply small) refl)

      pub get_offset-wire :
          IsSendable topic offset
          → Offsets.get_offset {Fault = Fault} group topic s.1.0 ≡ ok offset
          → length offset_reply ≤ 512
          → get_offset {Fault = Fault} codec server_wire group topic
              (record { server = s; inbox = [] })
            ≡ (ok offset, record { server = s; inbox = [] })
      unfolding get_offset
      get_offset-wire sendable e small =
          rw
            (
              create_buffer-Arrives arrow os storage json disk protocol codec opened
                  codec.offset_fetch protocol.decode_offset_fetch offset_fetch_key (pos 6)
                  offset_fetch _ a,
              send-Arrives arrow os storage json disk protocol codec opened codec.offset_fetch
                  protocol.decode_offset_fetch offset_fetch_key (pos 6) offset_fetch _ a
                  offset_reply [] s s (dispatch-offset_fetch sendable e),
              receive-reply small,
              drop-reply protocol a.carried.header a.carried.size
                  (offset_body protocol topic offset),
            )
            (ap (λ r. (r, record { server = s; inbox = [] }))
              (decode_offset-payload codec protocol laws a.carried.header topic offset
                (zeros (512 - length offset_reply)) sendable))
