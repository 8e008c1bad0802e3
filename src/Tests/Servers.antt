-- ===== src/Tests/Servers.antt =====
-- A codec of the server alone, for the examples.
use herbert.Prelude.{Option, none, some, [], ◌∷◌, drop, bytes_eq, pair_eq, codes}
use herbert.Prelude.Int.{ℤ, pos}
use herbert.KafkaApi.Offsets.{create_offset_commit_request, create_offset_fetch_request}
use herbert.KafkaApi.Topics.{create_fetch_request, create_produce_request}
use herbert.Server.Dispatch.{ApiKey, offset_commit, Protocol}

abbrev key_of : ℤ → Option ApiKey
key_of k = elim k [ pos n ↦ some offset_commit | _ ↦ none ]

-- Each message is a commit for group `g` and a topic that is the rest of the message.
abbrev pub protocol : Protocol
protocol = record {
  api_key = key_of;
  request_header_version = λ _ _. pos 1;
  decode_header = λ buf _. some (
    record { request_api_key = pos 8; request_api_version = pos 9; correlation_id = pos 7 },
    drop 4 buf,
  );
  decode_produce = λ buf _. some (create_produce_request (codes "t") buf);
  decode_fetch = λ buf _. some (create_fetch_request buf (pos 1) (pos 0));
  decode_offset_commit = λ buf _. some (create_offset_commit_request (codes "g") buf (pos 3));
  decode_offset_fetch = λ buf _. some (create_offset_fetch_request (codes "g") buf);
  header_size = λ _ _. some 5;
  fetch_size = λ _ _. some 0;
  offset_fetch_size = λ _ _. some 0;
  encode_header = λ _ _. 0 ∷ 0 ∷ 0 ∷ 7 ∷ 0 ∷ [];
  encode_fetch = λ _ _. [];
  encode_offset_fetch = λ _ _. [];
}
