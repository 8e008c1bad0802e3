-- ===== src/Client/Stream.antt =====
-- src/client.rs: the stream to the server, and the framing of a request.
use herbert.Prelude.{
  ℕ, zero, suc, ◌+◌, ◌-◌, Option, none, some, inl, inr, ◌⊎◌, [], ◌∷◌, ◌++◌, length, as_u32, u32_be,
  Bytes, Str,
}
use herbert.Prelude.Int.{ℤ}
use herbert.Outcome.{
  IoError, HerbertError, Outcome, ok, err, io, encode, compute_size, Method, and_then, ◌>>=◌,
}
use herbert.KafkaApi.Messages.{
  FetchRequest, FetchResponse, ProduceRequest, OffsetCommitRequest, OffsetFetchRequest,
  OffsetFetchResponse, Decode,
}

-- `TcpStream`. `write` may take a part of the chunk, `read` gives at most so many bytes, and
-- `read_exact` just as many.
pub record Stream (K : Type 0) : Type 0 where
  pub connect : Str → IoError ⊎ K
  pub write : Bytes → K → (IoError ⊎ ℕ) × K
  pub write_all : Bytes → K → Option IoError × K
  pub read : ℕ → K → (IoError ⊎ Bytes) × K
  pub read_exact : ℕ → K → (IoError ⊎ Bytes) × K

-- The fields of `RequestHeader` that are set.
pub record ClientHeader : Type 0 where
  pub request_api_key : ℤ
  pub request_api_version : ℤ

-- `Encodable` at a type: the size at a version, and the bytes that are appended; `none` is an error.
pub record Encoder (M : Type 0) : Type 0 where
  pub compute_size : M → ℤ → Option ℕ
  pub encode : M → ℤ → Option Bytes

-- What the client uses of the kafka_protocol crate.
pub record Codec : Type 0 where
  pub header : Encoder ClientHeader
  pub produce : Encoder ProduceRequest
  pub fetch : Encoder FetchRequest
  pub offset_fetch : Encoder OffsetFetchRequest
  pub offset_commit : Encoder OffsetCommitRequest
  -- `ResponseHeader::decode`: what is left of the buffer
  pub decode_response_header : Bytes → ℤ → Option Bytes
  pub decode_fetch : Decode FetchResponse
  pub decode_offset_fetch : Decode OffsetFetchResponse

unfoldable pub create_request_header : ℤ → ℤ → ClientHeader
create_request_header request_api_key request_api_version = record {
  request_api_key = request_api_key;
  request_api_version = request_api_version;
}

-- `ok_or`, and `map_err` of an error that is forgotten
abbrev pub ok_or : {Fault A : Type 0} → HerbertError Fault → Option A → Outcome Fault A
ok_or e none = err e
ok_or e (some a) = ok a

-- `?` on an `io::Result`
abbrev pub from_io : {Fault A : Type 0} → IoError ⊎ A → Outcome Fault A
from_io (inl e) = err (io e)
from_io (inr a) = ok a

unfoldable pub create_buffer :
    {Fault M : Type 0} → Encoder ClientHeader → Encoder M → ClientHeader → M → Outcome Fault Bytes
create_buffer headers encoder header request = do
  h ← ok_or compute_size (headers.compute_size header header.request_api_version)
  r ← ok_or compute_size (encoder.compute_size request header.request_api_version)
  header_bytes ← ok_or encode (headers.encode header header.request_api_version)
  request_bytes ← ok_or encode (encoder.encode request header.request_api_version)
  ok (u32_be (as_u32 (h + r)) ++ (header_bytes ++ request_bytes))

abbrev pub zeros : ℕ → Bytes
zeros zero = []
zeros (suc n) = 0 ∷ zeros n

-- A buffer of zeros after a read into it.
unfoldable pub filled : ℕ → Bytes → Bytes
filled size bytes = bytes ++ zeros (size - length bytes)

module _ {Fault K : Type 0} (stream : Stream K) where
  -- `stream.write(..)?`: the count is not looked at.
  unfoldable pub send : Bytes → Method Fault K ℕ
  send bytes k = let written = stream.write bytes k in (from_io written.0, written.1)

  -- `stream.read(&mut buffer)?` into a buffer of zeros
  unfoldable pub receive : ℕ → Method Fault K Bytes
  receive size k =
      let got = stream.read size k in
      and_then (from_io got.0, got.1) (λ bytes k. (ok (filled size bytes), k))

  -- `TcpStream::connect(broker)?` and what follows; the stream is left where there was one.
  unfoldable pub connected : {A : Type 0} → Str → Method Fault K A → Outcome Fault A × Option K
  connected broker body = elim (stream.connect broker) [
    | inl e ↦ (err (io e), none)
    | inr k ↦ let done = body k in (done.0, some done.1)
  ]
