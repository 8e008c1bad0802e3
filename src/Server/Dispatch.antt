-- ===== src/Server/Dispatch.antt =====
-- src/server.rs: one round of the loop of `handle_kafka_connection`, from the bytes of a message to
-- the bytes of the response.
use herbert.Prelude.{
  ℕ, ◌+◌, ◌*◌, ◌-◌, Option, none, some, [], ◌∷◌, ◌++◌, ltb, if◌then◌else◌, as_u32, u32_be, Bytes,
}
use herbert.Prelude.Int.{ℤ, pos, negsuc}
use herbert.Outcome.{Outcome, ok, err, panic, decode, compute_size, Method, ◌>>=◌}
use herbert.Arrow.{Arrow}
use herbert.BufWriter.{OsFile}
use herbert.Storage.Record.{RecordStorage}
use herbert.TopicManager.Operations.{TopicManager}
use herbert.OffsetManager.Operations.{Json, OffsetFile, Saved}
use herbert.KafkaApi.Messages.{
  FetchRequest, FetchResponse, ProduceRequest, OffsetCommitRequest, OffsetFetchRequest,
  OffsetFetchResponse, Decode,
}
use herbert.KafkaApi.Topics.{handle_produce_request, handle_fetch_request}
use herbert.KafkaApi.Offsets.{handle_offset_commit_request, handle_offset_fetch_request}

-- The keys of kafka_protocol that the server handles, and all others.
pub data ApiKey : Type 0 where
  produce fetch offset_commit offset_fetch other_key : ApiKey

pub record RequestHeader : Type 0 where
  pub request_api_key : ℤ
  pub request_api_version : ℤ
  pub correlation_id : ℤ

-- What the server uses of the kafka_protocol crate. `none` is an error. A `ResponseHeader` is its
-- correlation id, and the encoders give the bytes that they append to the buffer.
pub record Protocol : Type 0 where
  pub api_key : ℤ → Option ApiKey
  pub request_header_version : ApiKey → ℤ → ℤ
  pub decode_header : Bytes → ℤ → Option (RequestHeader × Bytes)
  pub decode_produce : Decode ProduceRequest
  pub decode_fetch : Decode FetchRequest
  pub decode_offset_commit : Decode OffsetCommitRequest
  pub decode_offset_fetch : Decode OffsetFetchRequest
  pub header_size : ℤ → ℤ → Option ℕ
  pub fetch_size : FetchResponse → ℤ → Option ℕ
  pub offset_fetch_size : OffsetFetchResponse → ℤ → Option ℕ
  pub encode_header : ℤ → ℤ → Bytes
  pub encode_fetch : FetchResponse → ℤ → Bytes
  pub encode_offset_fetch : OffsetFetchResponse → ℤ → Bytes

-- `get_i16` of two bytes
unfoldable pub i16_be : ℕ → ℕ → ℤ
i16_be hi lo = let n = hi * 256 + lo in if ltb n 32768 then pos n else negsuc (65535 - n)

-- `response_header_api_version`
abbrev pub header_version : ℤ
header_version = pos 1

module _ {Fault : Type 0} (protocol : Protocol) where
  -- The response buffer: `size` has the size of the header already, and gets it once more.
  unfoldable pub respond :
      (correlation_id : ℤ) (size : ℕ) (response_size : Option ℕ) (response : Bytes)
      → Outcome Fault Bytes
  respond correlation_id size response_size response =
      elim (protocol.header_size correlation_id header_version) [
        | none ↦ err compute_size
        | some h ↦ elim response_size [
          | none ↦ err compute_size
          | some r ↦ ok (
              u32_be (as_u32 (size + h + r))
              ++ (protocol.encode_header correlation_id header_version ++ response))
        ]
      ]

module _ {Schema Batch Fault S : Type 0} (arrow : Arrow Schema Batch Fault) (os : OsFile)
    (storage : RecordStorage Batch Fault S) (json : Json) (disk : OffsetFile)
    (protocol : Protocol) where
  -- The topic manager, and the offset manager with its file.
  abbrev pub Served : Type 0
  Served = TopicManager Schema Batch S × Saved

  -- The `match api_key`.
  unfoldable pub dispatch :
      Option ApiKey
      → RequestHeader
      → (size : ℕ) (api_version : ℤ) → Bytes
      → Method Fault Served Bytes
  dispatch (some produce) h size api_version buffer (tm, s) =
      let handled =
        handle_produce_request arrow os storage protocol.decode_produce buffer h.request_api_version
          tm in
      (handled.0 >>= (λ _. ok []), (handled.1, s))
  dispatch (some offset_commit) h size api_version buffer (tm, s) =
      let handled =
        handle_offset_commit_request json disk protocol.decode_offset_commit buffer
          h.request_api_version s in
      (handled.0 >>= (λ _. ok []), (tm, handled.1))
  dispatch (some fetch) h size api_version buffer (tm, s) =
      let handled =
        handle_fetch_request arrow os storage protocol.decode_fetch buffer h.request_api_version
          tm in
      (
        handled.0 >>= (λ response.
            respond protocol h.correlation_id size
              (protocol.fetch_size response h.request_api_version)
              (protocol.encode_fetch response api_version)),
        (handled.1, s),
      )
  dispatch (some offset_fetch) h size api_version buffer (tm, s) =
      let handled =
        handle_offset_fetch_request protocol.decode_offset_fetch buffer h.request_api_version s.0 in
      (
        handled >>= (λ response.
            respond protocol h.correlation_id size
              (protocol.offset_fetch_size response h.request_api_version)
              (protocol.encode_offset_fetch response api_version)),
        (tm, s),
      )
  dispatch _ h size api_version buffer s = (ok [], s)

  unfoldable pub handle_header :
      RequestHeader × Bytes → (version api_version : ℤ) → Method Fault Served Bytes
  handle_header (h, buffer) version api_version s =
      elim (protocol.header_size h.correlation_id version) [
        | none ↦ (err compute_size, s)
        | some size ↦ dispatch (protocol.api_key h.request_api_key) h size api_version buffer s
      ]

  unfoldable pub handle_key : ApiKey → (api_version : ℤ) → Bytes → Method Fault Served Bytes
  handle_key key api_version buffer s =
      let version = protocol.request_header_version key api_version in
      elim (protocol.decode_header buffer version) [
        | none ↦ (err decode, s)
        | some decoded ↦ handle_header decoded version api_version s
      ]

  -- A message of less than four bytes is a panic: the key and the version are peeked at first.
  unfoldable pub handle_message : Bytes → Method Fault Served Bytes
  handle_message (a ∷ b ∷ c ∷ d ∷ rest) s = elim (protocol.api_key (i16_be a b)) [
    | none ↦ (err decode, s)
    | some key ↦ handle_key key (i16_be c d) (a ∷ b ∷ c ∷ d ∷ rest) s
  ]
  handle_message _ s = (panic, s)
