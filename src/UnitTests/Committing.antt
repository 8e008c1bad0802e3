-- ===== src/UnitTests/Committing.antt =====
-- The unit tests of src/kafka_api/offset_commit.rs and src/kafka_api/offset_fetch.rs.
use herbert.Prelude.{◌≡◌, refl, some, get_elem?, bytes_eq, pair_eq, Bytes, Str, codes}
use herbert.Prelude.Int.{ℤ, pos}
use herbert.HashMap.{lookup, insert}
use herbert.Outcome.{Outcome, ok, ◌>>=◌}
use herbert.OffsetManager.Operations.{Json, OffsetFile, new}
use herbert.KafkaApi.Messages.{OffsetCommitRequest, OffsetFetchRequest, Decode}
use herbert.KafkaApi.Offsets.{
  create_offset_commit_request, create_offset_fetch_request, offset_fetch_response,
  handle_offset_commit_request, handle_offset_fetch_request,
}
use herbert.KafkaApi.Committed.{commit_lem, set_offset_lem, fetch_lem}
use herbert.UnitTests.{assert, unwrap, unwrap_some}
use herbert.UnitTests.Offsets.{is_offset, opened, set}

-- The encoders and decoders are those of kafka_protocol.
module _ (Fault : Type 0) (json : Json) (disk : OffsetFile) (offset_path : Str) where
  unfoldable test_handle_offset_commit_request :
      (OffsetCommitRequest → ℤ → Bytes) → Decode OffsetCommitRequest → Outcome Fault Unit
  test_handle_offset_commit_request encode decode = do
    let request = create_offset_commit_request (codes "test") (codes "foobar") (pos 10)
    let handled =
        handle_offset_commit_request {Fault = Fault} json disk decode (encode request (pos 9))
          (pos 9) (opened Fault json disk offset_path)
    offset ← unwrap_some (lookup (codes "test", codes "foobar") handled.1.0.offsets.inner)
    assert (is_offset 10 offset)

  unfoldable test_handle_offset_fetch_request :
      (OffsetFetchRequest → ℤ → Bytes) → Decode OffsetFetchRequest → Outcome Fault Unit
  test_handle_offset_fetch_request encode decode = do
    let (om, _) =
        set Fault json disk offset_path (codes "test") (codes "foobar") (pos 10)
          (opened Fault json disk offset_path)
    let request = create_offset_fetch_request (codes "test") (codes "foobar")
    response ← unwrap (handle_offset_fetch_request decode (encode request (pos 6)) (pos 6) om)
    topic ← unwrap_some (get_elem? response.topics 0)
    partition ← unwrap_some (get_elem? topic.partitions 0)
    assert (is_offset 10 partition.committed_offset)

  test_handle_offset_commit_request_passes :
      (encode : OffsetCommitRequest → ℤ → Bytes) (decode : Decode OffsetCommitRequest)
      → (let request = create_offset_commit_request (codes "test") (codes "foobar") (pos 10) in
          decode (encode request (pos 9)) (pos 9) ≡ some request)
      → test_handle_offset_commit_request encode decode ≡ ok tt
  unfolding test_handle_offset_commit_request new insert lookup
  test_handle_offset_commit_request_passes encode decode decoded =
      let s = opened Fault json disk offset_path in
      rw
        (
          commit_lem Fault json disk decode _ _ (codes "test") (codes "foobar") (pos 10) s decoded,
          (set_offset_lem Fault json disk (codes "test") (codes "foobar") (pos 10) s.0 s.1 refl).0,
        )
        refl

  test_handle_offset_fetch_request_passes :
      (encode : OffsetFetchRequest → ℤ → Bytes) (decode : Decode OffsetFetchRequest)
      → (let request = create_offset_fetch_request (codes "test") (codes "foobar") in
          decode (encode request (pos 6)) (pos 6) ≡ some request)
      → test_handle_offset_fetch_request encode decode ≡ ok tt
  unfolding test_handle_offset_fetch_request new insert lookup offset_fetch_response
  test_handle_offset_fetch_request_passes encode decode decoded =
      let s = opened Fault json disk offset_path in
      let set_is =
        (set_offset_lem Fault json disk (codes "test") (codes "foobar") (pos 10) s.0 s.1 refl).0 in
      rw
        (
          fetch_lem Fault decode _ _ (codes "test") (codes "foobar")
              (set Fault json disk offset_path (codes "test") (codes "foobar") (pos 10) s).0 decoded
              (rw set_is refl),
          set_is,
        )
        refl
