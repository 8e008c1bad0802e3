-- ===== src/Tests/Offsets.antt =====
-- Examples for src/offset_manager.rs and src/kafka_api/.
use herbert.Prelude.{
  ℕ, ◌≡◌, refl, none, some, [], ◌∷◌, ◌++◌, if◌then◌else◌, pair_eq, bytes_eq, Bytes, Str, codes,
}
use herbert.Prelude.Int.{pos, negsuc}
use herbert.HashMap.{lookup}
use herbert.Outcome.{ok, fresh}
use herbert.OffsetManager.Operations.{OffsetManager, get_offset, flush, recover}
use herbert.OffsetManager.Keys.{HasNoColon}
use herbert.OffsetManager.RoundTrip.{recover-flush, recover_colon}
use herbert.KafkaApi.Messages.{Decode, OffsetCommitRequest, OffsetFetchRequest}
use herbert.KafkaApi.Offsets.{
  create_offset_commit_request, create_offset_fetch_request, offset_fetch_response,
  handle_offset_commit_request, handle_offset_fetch_request,
}
use herbert.KafkaApi.Committed.{commit-fetch}
use herbert.Tests.Toy.{config, disk, json, json_laws}

abbrev g : Str
g = codes "g"

abbrev t : Str
t = codes "t:1"

abbrev om : OffsetManager
om = record { offsets = fresh (((g, t), pos 5) ∷ ((codes "h", t), negsuc 0) ∷ []); config = config }

abbrev of_group_ab : OffsetManager
of_group_ab = record { offsets = fresh (((codes "a:b", codes "t"), pos 5) ∷ []); config = config }

abbrev empty : OffsetManager
empty = record { offsets = fresh []; config = config }

recover-flush_example :
    (text : Bytes) × (flush {Fault = ℕ} json disk (om, none) ≡ (ok tt, (om, some text)))
    × (after : OffsetManager) × (recover {Fault = ℕ} json (some text) empty ≡ (ok tt, after))
    × ((group topic : Str)
        → HasNoColon group
        → get_offset {Fault = ℕ} group topic after ≡ get_offset group topic om)
unfolding lookup
recover-flush_example =
    recover-flush json json_laws disk (λ file text. refl) om empty none refl (refl, (refl, tt))
      ((refl, tt), ((refl, tt), tt))

-- The group `a:b` has an offset before, and the offset 0 afterwards.
recover_colon_example :
    (text : Bytes) × (flush {Fault = ℕ} json disk (of_group_ab, none)
      ≡ (ok tt, (of_group_ab, some text)))
    × (after : OffsetManager) × (recover {Fault = ℕ} json (some text) empty ≡ (ok tt, after))
    × ((a b topic : Str) → get_offset {Fault = ℕ} (a ++ b':' ∷ b) topic after ≡ ok (pos 0))
recover_colon_example =
    recover_colon json json_laws disk (λ file text. refl) of_group_ab empty none refl

abbrev decode_commit : Decode OffsetCommitRequest
decode_commit buf _ = some (create_offset_commit_request buf t (pos 8))

abbrev decode_fetch : Decode OffsetFetchRequest
decode_fetch buf _ = some (create_offset_fetch_request buf t)

commit-fetch_example :
    ((handle_offset_commit_request {Fault = ℕ} json disk decode_commit g (pos 9) (om, none)).0
      ≡ ok tt)
    × (handle_offset_fetch_request {Fault = ℕ} decode_fetch g
          (pos 6)
          (handle_offset_commit_request {Fault = ℕ} json disk decode_commit g
            (pos 9)
            (om, none)).1.0
        ≡ (if pair_eq.beq (g, t) (g, t)
            then ok (offset_fetch_response t (pos 8))
            else handle_offset_fetch_request decode_fetch g (pos 6) om))
commit-fetch_example =
    commit-fetch ℕ json disk decode_commit decode_fetch g g (pos 9) (pos 6) g t g t (pos 8) om none
      refl refl refl
