-- ===== src/Tests/Arriving.antt =====
-- Requests of a client that arrive at the server, for the examples.
use herbert.Prelude.{
  ℕ, ◌<◌, refl, [], ◌∷◌, ◌++◌, arith, length, u32_be, bytes_eq, pair_eq, Bytes, Str, codes,
}
use herbert.Prelude.Int.{pos}
use herbert.KafkaApi.Topics.{create_fetch_request, fetch_response}
use herbert.KafkaApi.Offsets.{
  create_offset_commit_request, create_offset_fetch_request, offset_fetch_response,
}
use herbert.Server.Dispatch.{fetch, offset_commit, offset_fetch, i16_be}
use herbert.Client.Stream.{create_request_header}
use herbert.Client.RawTopic.{Asks, Fetches, Commits}
use herbert.Utf8.{is_utf8}
use herbert.Tests.Toy.{Batch, arrow, os, disk, json}
use herbert.Tests.Codec.{codec, protocol, response_laws}

abbrev pub g : Str
g = codes "g"

abbrev pub t : Str
t = codes "t"

-- Each request behind a header of four bytes.
pub asks :
    (n : ℕ)
    → n < 1000
    → Asks {Schema = ℕ} {Batch = Batch} {Fault = ℕ} arrow os json disk protocol codec response_laws
        g t
        (pos n)
unfolding create_request_header create_offset_fetch_request offset_fetch_response i16_be u32_be
    is_utf8
asks n few = record {
  arrives = record {
    header_bytes = 0 ∷ 9 ∷ 0 ∷ 6 ∷ [];
    request_bytes = 1 ∷ g ++ t;
    encode_header = refl;
    size_header = refl;
    encode_request = refl;
    size_request = refl;
    small = omega arith;
    body = 1 ∷ g ++ t;
    carried = record {
      a = 0;
      b = 9;
      c = 0;
      d = 6;
      rest = 1 ∷ g ++ t;
      starts = refl;
      peeked = offset_fetch;
      key_is = refl;
      version_is = refl;
      header = record {
        request_api_key = pos 9;
        request_api_version = pos 6;
        correlation_id = pos 0;
      };
      decoded = refl;
      size = 5;
      size_is = refl;
      header_key = refl;
      header_version_is = refl;
    };
    decoded = refl;
  };
  fits = omega arith;
  sendable = (refl, omega arith, omega (arith, few));
}

unfoldable pub fetches :
    (n : ℕ) (records : Bytes)
    → length records < 1000
    → Fetches {Schema = ℕ} {Batch = Batch} {Fault = ℕ} arrow os json disk protocol codec
        response_laws t
        (pos 10)
        (pos n)
        records
unfolding create_request_header create_fetch_request fetch_response i16_be
fetches n records few = record {
  arrives = record {
    header_bytes = 0 ∷ 1 ∷ 0 ∷ 1 ∷ [];
    request_bytes = 0 ∷ n ∷ t;
    encode_header = refl;
    size_header = refl;
    encode_request = refl;
    size_request = refl;
    small = omega arith;
    body = 0 ∷ n ∷ t;
    carried = record {
      a = 0;
      b = 1;
      c = 0;
      d = 1;
      rest = 0 ∷ n ∷ t;
      starts = refl;
      peeked = fetch;
      key_is = refl;
      version_is = refl;
      header = record {
        request_api_key = pos 1;
        request_api_version = pos 1;
        correlation_id = pos 0;
      };
      decoded = refl;
      size = 5;
      size_is = refl;
      header_key = refl;
      header_version_is = refl;
    };
    decoded = refl;
  };
  small = omega (arith, few);
  carried = omega (arith, few);
}

pub commits :
    (n : ℕ)
    → Commits {Schema = ℕ} {Batch = Batch} {Fault = ℕ} arrow os json disk protocol codec
        response_laws g t
        (pos n)
unfolding create_request_header create_offset_commit_request i16_be
commits n = record {
  header_bytes = 0 ∷ 8 ∷ 0 ∷ 9 ∷ [];
  request_bytes = 1 ∷ g ++ 0 ∷ n ∷ t;
  encode_header = refl;
  size_header = refl;
  encode_request = refl;
  size_request = refl;
  small = omega arith;
  body = 1 ∷ g ++ 0 ∷ n ∷ t;
  carried = record {
    a = 0;
    b = 8;
    c = 0;
    d = 9;
    rest = 1 ∷ g ++ 0 ∷ n ∷ t;
    starts = refl;
    peeked = offset_commit;
    key_is = refl;
    version_is = refl;
    header = record {
      request_api_key = pos 8;
      request_api_version = pos 9;
      correlation_id = pos 0;
    };
    decoded = refl;
    size = 5;
    size_is = refl;
    header_key = refl;
    header_version_is = refl;
  };
  decoded = refl;
}
