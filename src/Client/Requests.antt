-- ===== src/Client/Requests.antt =====
-- src/client.rs: `produce`, `produce_record_batch`, `get_offset`, `set_offset`, `get_records` and
-- `create_topic`. Each takes the stream after `connect`, where it does not get one.
use herbert.Prelude.{
  ℕ, Option, none, some, inl, inr, ◌⊎◌, List, [], ◌∷◌, length, drop, as_u32, u32_be, of_u32_be,
  Bytes, Str,
}
use herbert.Prelude.Int.{ℤ, pos}
use herbert.Outcome.{
  IoError, Outcome, ok, err, io, encode, decode, no_topic_data, no_partition_data, no_record_data,
  Method, and_then, ◌>>=◌,
}
use herbert.Arrow.{Arrow, from_arrow}
use herbert.HerbertApi.{Request}
use herbert.HerbertApi as Herbert
use herbert.KafkaApi.Messages.{
  FetchableTopicResponse, PartitionData, OffsetFetchResponseTopic, OffsetFetchResponsePartition,
  ProduceRequest,
}
use herbert.KafkaApi.Topics.{create_produce_request}
use herbert.KafkaApi.Offsets.{create_offset_commit_request, create_offset_fetch_request}
use herbert.Client.Stream.{
  Stream, Codec, create_request_header, create_buffer, ok_or, send, receive, connected,
}

-- `ApiKey::Produce as i16` and its like
abbrev pub produce_key : ℤ
produce_key = pos 0

abbrev pub fetch_key : ℤ
fetch_key = pos 1

abbrev pub offset_commit_key : ℤ
offset_commit_key = pos 8

abbrev pub offset_fetch_key : ℤ
offset_fetch_key = pos 9

-- `topics.get(0)` .. `committed_offset`
unfoldable pub offset_of_partitions :
    {Fault : Type 0} → List OffsetFetchResponsePartition → Outcome Fault ℤ
offset_of_partitions [] = err no_partition_data
offset_of_partitions (p ∷ _) = ok p.committed_offset

unfoldable pub offset_of_topics : {Fault : Type 0} → List OffsetFetchResponseTopic → Outcome Fault ℤ
offset_of_topics [] = err no_topic_data
offset_of_topics (t ∷ _) = offset_of_partitions t.partitions

-- `responses.get(0)` .. `records`
unfoldable pub records_of_partitions : {Fault : Type 0} → List PartitionData → Outcome Fault Bytes
records_of_partitions [] = err no_partition_data
records_of_partitions (p ∷ _) = ok_or no_record_data p.records

unfoldable pub records_of_responses :
    {Fault : Type 0} → List FetchableTopicResponse → Outcome Fault Bytes
records_of_responses [] = err no_topic_data
records_of_responses (t ∷ _) = records_of_partitions t.partitions

-- `u32::from_be_bytes`, of four bytes
unfoldable pub be_length : Bytes → ℕ
be_length (a ∷ b ∷ c ∷ d ∷ _) = of_u32_be a b c d
be_length _ = 0

module _ {Fault : Type 0} (codec : Codec) where
  unfoldable pub decode_offset : Bytes → Outcome Fault ℤ
  decode_offset buffer = do
    rest ← ok_or decode (codec.decode_response_header buffer (pos 1))
    response ← ok_or decode (codec.decode_offset_fetch rest (pos 6))
    offset_of_topics response.topics

  unfoldable pub decode_records : ℤ → Bytes → Outcome Fault Bytes
  decode_records version buffer = do
    rest ← ok_or decode (codec.decode_response_header buffer (pos 1))
    response ← ok_or decode (codec.decode_fetch rest version)
    records_of_responses response.responses

  module _ {K : Type 0} (stream : Stream K) where
    unfoldable pub produce_request : ProduceRequest → Method Fault K Unit
    produce_request request k =
        and_then
          (
            create_buffer codec.header codec.produce (create_request_header produce_key (pos 9))
                request,
            k,
          )
          (λ buffer k. and_then (send stream buffer k) (λ _ k. (ok tt, k)))

    unfoldable pub produce : (broker topic message : Str) → Outcome Fault Unit × Option K
    produce broker topic message =
        connected stream broker (produce_request (create_produce_request topic message))

    unfoldable pub produce_record_batch :
        {Schema Batch : Type 0}
        → Arrow Schema Batch Fault
        → (broker topic : Str) → Batch
        → Outcome Fault Unit × Option K
    produce_record_batch arrow broker topic b = connected stream broker (λ k.
        and_then (from_arrow (arrow.write_stream (arrow.schema b) (b ∷ [])), k)
          (λ bytes k. produce_request (create_produce_request topic bytes) k))

    -- The response is read once, into a buffer of 512 bytes; its length is skipped.
    unfoldable pub get_offset : (consumer_group topic : Str) → Method Fault K ℤ
    get_offset consumer_group topic k =
        and_then
          (
            create_buffer codec.header codec.offset_fetch
                (create_request_header offset_fetch_key (pos 6))
                (create_offset_fetch_request consumer_group topic),
            k,
          )
          (λ buffer k.
            and_then (send stream buffer k) (λ _ k.
              and_then (receive stream 512 k) (λ bytes k. (decode_offset (drop 4 bytes), k))))

    unfoldable pub set_offset : (consumer_group topic : Str) → ℤ → Method Fault K Unit
    set_offset consumer_group topic offset k =
        and_then
          (
            create_buffer codec.header codec.offset_commit
                (create_request_header offset_commit_key (pos 9))
                (create_offset_commit_request consumer_group topic offset),
            k,
          )
          (λ buffer k. and_then (send stream buffer k) (λ _ k. (ok tt, k)))

    -- No length where the server has closed the stream: no records.
    unfoldable pub read_response : ℤ → IoError ⊎ Bytes → Method Fault K Bytes
    read_response version (inl e) k = (ok [], k)
    read_response version (inr len_buf) k =
        and_then (receive stream (be_length len_buf) k)
          (λ buffer k. (decode_records version buffer, k))

    unfoldable pub get_records : (request_buffer : Bytes) (version : ℤ) → Method Fault K Bytes
    get_records request_buffer version k =
        and_then (send stream request_buffer k)
          (λ _ k. let len = stream.read_exact 4 k in read_response version len.0 len.1)

module _ {Fault K : Type 0} (stream : Stream K) where
  -- `write_u32::<BigEndian>(len)?`
  unfoldable pub send_len : Bytes → Method Fault K Unit
  send_len encoded k =
      let sent = stream.write_all (u32_be (as_u32 (length encoded))) k in
      (elim sent.0 [ none ↦ ok tt | some e ↦ err (io e) ], sent.1)

  -- `to_vec` is that of serde_json at `Request`; `none` is an error.
  unfoldable pub create_topic :
      {Schema : Type 0}
      → (to_vec : Request Schema → Option Bytes) (broker topic : Str) → Option Schema
      → Outcome Fault Unit × Option K
  create_topic to_vec broker topic schema = connected stream broker (λ k.
      and_then (ok_or encode (to_vec (Herbert.create_topic topic schema)), k)
        (λ encoded k.
          and_then (send_len encoded k)
            (λ _ k. and_then (send stream encoded k) (λ _ k. (ok tt, k)))))
