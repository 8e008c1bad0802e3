-- ===== src/Client/Responses.antt =====
-- src/client.rs with src/server.rs: what the client reads back of the responses to its requests.
use herbert.Prelude.{
  ℕ, ◌+◌, ◌-◌, ◌^◌, ◌≤◌, ◌<◌, ◌≡◌, refl, true, some, inr, [], ◌++◌, append_assoc, length, drop,
  as_u32, u32_be, arith, length-drop, nil_of_length, Bytes, Str,
}
use herbert.Prelude.Int.{ℤ, pos, negsuc}
use herbert.Utf8.{is_utf8}
use herbert.Outcome.{ok}
use herbert.KafkaApi.Topics.{fetch_response}
use herbert.KafkaApi.Offsets.{offset_fetch_response}
use herbert.Server.Dispatch.{RequestHeader, Protocol, header_version, respond}
use herbert.Client.Stream.{Stream, Codec, zeros, filled, receive}
use herbert.Client.Requests.{
  offset_of_partitions, offset_of_topics, records_of_partitions, records_of_responses,
  decode_offset, decode_records,
}

abbrev IsI64 : ℤ → Type 0
IsI64 (pos n) = n < 2 ^ 63
IsI64 (negsuc n) = n < 2 ^ 63

-- A topic and an offset that a response can carry.
abbrev pub IsSendable : Str → ℤ → Type 0
IsSendable topic offset = (is_utf8 topic ≡ true) × (length topic < 2 ^ 15) × IsI64 offset

-- At the versions that the client asks for, the sizes of the server's codec are those of what it
-- writes, and the client's codec reads that back, whatever is behind it.
pub record ResponseLaws (codec : Codec) (protocol : Protocol) : Type 0 where
  pub header_size :
      (id : ℤ)
      → protocol.header_size id header_version
        ≡ some (length (protocol.encode_header id header_version))
  pub fetch_size :
      (records : Bytes)
      → length records < 2 ^ 31
      → protocol.fetch_size (fetch_response records) (pos 1)
        ≡ some (length (protocol.encode_fetch (fetch_response records) (pos 1)))
  pub offset_fetch_size :
      (topic : Str) (offset : ℤ)
      → IsSendable topic offset
      → protocol.offset_fetch_size (offset_fetch_response topic offset) (pos 6)
        ≡ some (length (protocol.encode_offset_fetch (offset_fetch_response topic offset) (pos 6)))
  pub read_header :
      (id : ℤ) (rest : Bytes)
      → codec.decode_response_header (protocol.encode_header id header_version ++ rest) (pos 1)
        ≡ some rest
  pub read_fetch :
      (records rest : Bytes)
      → length records < 2 ^ 31
      → codec.decode_fetch (protocol.encode_fetch (fetch_response records) (pos 1) ++ rest) (pos 1)
        ≡ some (fetch_response records)
  pub read_offset_fetch :
      (topic : Str) (offset : ℤ) (rest : Bytes)
      → IsSendable topic offset
      → codec.decode_offset_fetch
          (protocol.encode_offset_fetch (offset_fetch_response topic offset) (pos 6) ++ rest)
          (pos 6)
        ≡ some (offset_fetch_response topic offset)

abbrev pub offset_body : Protocol → Str → ℤ → Bytes
offset_body protocol topic offset =
    protocol.encode_offset_fetch (offset_fetch_response topic offset) (pos 6)

abbrev pub records_body : Protocol → Bytes → Bytes
records_body protocol records = protocol.encode_fetch (fetch_response records) (pos 1)

-- A response with what the server writes in front of it.
abbrev pub payload : Protocol → RequestHeader → Bytes → Bytes
payload protocol h body = protocol.encode_header h.correlation_id header_version ++ body

abbrev pub reply_size : Protocol → RequestHeader → ℕ → Bytes → ℕ
reply_size protocol h size body =
    size + length (protocol.encode_header h.correlation_id header_version) + length body

abbrev pub reply : Protocol → RequestHeader → ℕ → Bytes → Bytes
reply protocol h size body =
    u32_be (as_u32 (reply_size protocol h size body)) ++ payload protocol h body

filled-zeros : (n : ℕ) (bytes : Bytes) → filled n bytes ≡ bytes ++ zeros (n - length bytes)
unfolding filled
filled-zeros n bytes = refl

pub drop_past : (n : ℕ) (xs : Bytes) → length xs ≤ n → drop n xs ≡ []
drop_past n xs h = nil_of_length (drop n xs) (omega (arith, length-drop n xs, h))

pub receive-all :
    {Fault K : Type 0} (stream : Stream K) (n : ℕ) (bytes : Bytes) (k k' : K)
    → stream.read n k ≡ (inr bytes, k')
    → receive {Fault = Fault} stream n k ≡ (ok (bytes ++ zeros (n - length bytes)), k')
unfolding receive filled
receive-all stream n bytes k k' e = rw (e, receive) refl

module _ {Fault : Type 0} (codec : Codec) (protocol : Protocol)
    (laws : ResponseLaws codec protocol) where
  pub respond-reply :
      (h : RequestHeader) (size : ℕ) (body : Bytes)
      → respond {Fault = Fault} protocol h.correlation_id size (some (length body)) body
        ≡ ok (reply protocol h size body)
  unfolding respond
  respond-reply h size body = rw (respond, laws.header_size h.correlation_id) refl

  pub decode_offset-payload :
      (h : RequestHeader) (topic : Str) (offset : ℤ) (rest : Bytes)
      → IsSendable topic offset
      → decode_offset {Fault = Fault} codec (
          payload protocol h
            (protocol.encode_offset_fetch (offset_fetch_response topic offset) (pos 6))
          ++ rest)
        ≡ ok offset
  unfolding decode_offset offset_fetch_response offset_of_topics offset_of_partitions
  decode_offset-payload h topic offset rest fits =
      rw
        (
          append_assoc,
          laws.read_header h.correlation_id,
          laws.read_offset_fetch topic offset rest fits,
        )
        refl

  pub decode_records-payload :
      (h : RequestHeader) (records rest : Bytes)
      → length records < 2 ^ 31
      → decode_records {Fault = Fault} codec
          (pos 1)
          (payload protocol h (protocol.encode_fetch (fetch_response records) (pos 1)) ++ rest)
        ≡ ok records
  unfolding decode_records fetch_response records_of_responses records_of_partitions
  decode_records-payload h records rest fits =
      rw (append_assoc, laws.read_header h.correlation_id, laws.read_fetch records rest fits) refl
