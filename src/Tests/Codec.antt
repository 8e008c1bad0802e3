-- ===== src/Tests/Codec.antt =====
-- A codec for both sides of a connection, for the examples.
use herbert.Prelude.{
  ℕ, zero, suc, ◌==◌, if◌then◌else◌, ◌≡◌, refl, none, some, Option, [], ◌∷◌, ◌++◌, length, take,
  drop, take-length_append, Bytes, Str,
}
use herbert.Prelude.Int.{ℤ, pos, negsuc}
use herbert.KafkaApi.Messages.{
  FetchRequest, FetchResponse, ProduceRequest, OffsetCommitRequest, OffsetFetchRequest,
  OffsetFetchResponse, Decode,
}
use herbert.KafkaApi.Topics.{create_produce_request, create_fetch_request, fetch_response}
use herbert.KafkaApi.Offsets.{
  create_offset_commit_request, create_offset_fetch_request, offset_fetch_response,
}
use herbert.Server.Dispatch.{
  ApiKey, produce, fetch, offset_commit, offset_fetch, other_key, RequestHeader, Protocol, i16_be,
}
use herbert.Client.Stream.{Encoder, Codec}
use herbert.Client.Responses.{ResponseLaws}

abbrev put_int : ℤ → Bytes
put_int (pos n) = 0 ∷ n ∷ []
put_int (negsuc n) = 1 ∷ n ∷ []

abbrev get_int : ℕ → ℕ → ℤ
get_int zero n = pos n
get_int (suc _) n = negsuc n

abbrev put_str : Str → Bytes
put_str s = length s ∷ s

abbrev put_two : ℤ → Bytes
put_two (pos n) = 0 ∷ n ∷ []
put_two (negsuc n) = 255 ∷ n ∷ []

abbrev encoder : {M : Type 0} → (M → Bytes) → Encoder M
encoder f = record { compute_size = λ m _. some (length (f m)); encode = λ m _. some (f m) }

abbrev put_produce : ProduceRequest → Bytes
put_produce r = elim r.topic_data [
  | [] ↦ []
  | t ∷ _ ↦ put_str t.name ++ elim t.partition_data [
    | [] ↦ []
    | p ∷ _ ↦ elim p.records [ none ↦ [] | some records ↦ records ]
  ]
]

-- The format has no `max_bytes`, as version 1 has none.
abbrev put_fetch : FetchRequest → Bytes
put_fetch r = elim r.topics [
  | [] ↦ []
  | t ∷ _ ↦ elim t.partitions [ [] ↦ [] | p ∷ _ ↦ put_int p.fetch_offset ++ t.topic ]
]

abbrev put_offset_fetch : OffsetFetchRequest → Bytes
put_offset_fetch r =
    put_str r.group_id
    ++ elim r.topics [ none ↦ [] | some topics ↦ elim topics [ [] ↦ [] | t ∷ _ ↦ t.name ] ]

abbrev put_commit : OffsetCommitRequest → Bytes
put_commit r = put_str r.group_id ++ elim r.topics [
  | [] ↦ []
  | t ∷ _ ↦ elim t.partitions [ [] ↦ [] | p ∷ _ ↦ put_int p.committed_offset ++ t.name ]
]

abbrev put_records : FetchResponse → Bytes
put_records r = elim r.responses [
  | [] ↦ []
  | t ∷ _ ↦ elim t.partitions [
    | [] ↦ []
    | p ∷ _ ↦ elim p.records [ none ↦ [] | some records ↦ put_str records ]
  ]
]

abbrev put_offset : OffsetFetchResponse → Bytes
put_offset r = elim r.topics [
  | [] ↦ []
  | t ∷ _ ↦ elim t.partitions [ [] ↦ [] | p ∷ _ ↦ put_int p.committed_offset ++ put_str t.name ]
]

abbrev get_records : Decode FetchResponse
get_records (n ∷ rest) v = some (fetch_response (take n rest))
get_records _ v = none

abbrev get_offset : Decode OffsetFetchResponse
get_offset (sign ∷ n ∷ len ∷ rest) v = some (offset_fetch_response (take len rest) (get_int sign n))
get_offset _ v = none

abbrev pub codec : Codec
codec = record {
  header = encoder (λ h. put_two h.request_api_key ++ put_two h.request_api_version);
  produce = encoder put_produce;
  fetch = encoder put_fetch;
  offset_fetch = encoder put_offset_fetch;
  offset_commit = encoder put_commit;
  decode_response_header = λ bytes _. some (drop 5 bytes);
  decode_fetch = get_records;
  decode_offset_fetch = get_offset;
}

abbrev key_of : ℤ → Option ApiKey
key_of (pos n) = some (
    if n == 0
    then produce
    else if n == 1
    then fetch
    else if n == 8
    then offset_commit
    else if n == 9
    then offset_fetch
    else other_key)
key_of (negsuc _) = none

abbrev get_produce : Decode ProduceRequest
get_produce (n ∷ rest) v = some (create_produce_request (take n rest) (drop n rest))
get_produce _ v = none

abbrev get_fetch : Decode FetchRequest
get_fetch (a ∷ b ∷ rest) v = some (create_fetch_request rest (pos 2147483647) (get_int a b))
get_fetch _ v = none

abbrev get_offset_fetch : Decode OffsetFetchRequest
get_offset_fetch (n ∷ rest) v = some (create_offset_fetch_request (take n rest) (drop n rest))
get_offset_fetch _ v = none

abbrev commit_of : Str → Bytes → Option OffsetCommitRequest
commit_of group (sign ∷ n ∷ topic) =
    some (create_offset_commit_request group topic (get_int sign n))
commit_of group _ = none

abbrev get_commit : Decode OffsetCommitRequest
get_commit (n ∷ rest) v = commit_of (take n rest) (drop n rest)
get_commit _ v = none

abbrev header_of : Bytes → Option (RequestHeader × Bytes)
header_of (a ∷ b ∷ c ∷ d ∷ rest) = some (
  record { request_api_key = i16_be a b; request_api_version = i16_be c d; correlation_id = pos 0 },
  rest,
)
header_of _ = none

abbrev pub protocol : Protocol
protocol = record {
  api_key = key_of;
  request_header_version = λ _ _. pos 1;
  decode_header = λ bytes _. header_of bytes;
  decode_produce = get_produce;
  decode_fetch = get_fetch;
  decode_offset_commit = get_commit;
  decode_offset_fetch = get_offset_fetch;
  header_size = λ _ _. some 5;
  fetch_size = λ r _. some (length (put_records r));
  offset_fetch_size = λ r _. some (length (put_offset r));
  encode_header = λ _ _. 0 ∷ 0 ∷ 0 ∷ 0 ∷ 0 ∷ [];
  encode_fetch = λ r _. put_records r;
  encode_offset_fetch = λ r _. put_offset r;
}

read_offset :
    (topic : Str) (offset v : ℤ) (rest : Bytes)
    → get_offset (put_offset (offset_fetch_response topic offset) ++ rest) v
      ≡ some (offset_fetch_response topic offset)
unfolding offset_fetch_response
read_offset topic (pos n) v rest = rw (take-length_append topic rest) refl
read_offset topic (negsuc n) v rest = rw (take-length_append topic rest) refl

read_records :
    (records : Bytes) (v : ℤ) (rest : Bytes)
    → get_records (put_records (fetch_response records) ++ rest) v ≡ some (fetch_response records)
unfolding fetch_response
read_records records v rest = rw (take-length_append records rest) refl

pub response_laws : ResponseLaws codec protocol
response_laws = record {
  header_size = λ id. refl;
  fetch_size = λ records few. refl;
  offset_fetch_size = λ topic offset fits. refl;
  read_header = λ id rest. refl;
  read_fetch = λ records rest few. read_records records (pos 1) rest;
  read_offset_fetch = λ topic offset rest fits. read_offset topic offset (pos 6) rest;
}
