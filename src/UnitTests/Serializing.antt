-- ===== src/UnitTests/Serializing.antt =====
-- The unit tests of src/herbert_api/.
use herbert.Prelude.{◌≡◌, refl, Option, none, some, Bytes, codes}
use herbert.Outcome.{Outcome, ok, ◌>>=◌}
use herbert.HerbertApi.{CreateTopic, Request, create_topic}
use herbert.UnitTests.{unwrap_some}

-- `to_vec` and `from_slice` are those of serde_json; `none` is an error. What is printed is left out.
module _ (Schema Fault : Type 0) where
  unfoldable test_create_topic_serialization :
      (CreateTopic Schema → Option Bytes)
      → (Bytes → Option (CreateTopic Schema))
      → Outcome Fault Unit
  test_create_topic_serialization to_vec from_slice = do
    encoded ← unwrap_some (to_vec (record { topic = codes "test"; schema = none }))
    decoded ← unwrap_some (from_slice encoded)
    ok tt

  unfoldable test_request_serialization :
      (Request Schema → Option Bytes) → (Bytes → Option (Request Schema)) → Outcome Fault Unit
  test_request_serialization to_vec from_slice = do
    encoded ← unwrap_some (to_vec (create_topic (codes "test") none))
    decoded ← unwrap_some (from_slice encoded)
    ok tt

  test_create_topic_serialization_passes :
      (to_vec : CreateTopic Schema → Option Bytes)
      (from_slice : Bytes → Option (CreateTopic Schema)) (text : Bytes)
      → (let request : CreateTopic Schema = record { topic = codes "test"; schema = none } in
          (to_vec request ≡ some text) × (from_slice text ≡ some request))
      → test_create_topic_serialization to_vec from_slice ≡ ok tt
  unfolding test_create_topic_serialization
  test_create_topic_serialization_passes to_vec from_slice text (written, read) =
      rw (written, read) refl

  test_request_serialization_passes :
      (to_vec : Request Schema → Option Bytes) (from_slice : Bytes → Option (Request Schema))
      (text : Bytes)
      → to_vec (create_topic (codes "test") none) ≡ some text
      → from_slice text ≡ some (create_topic (codes "test") none)
      → test_request_serialization to_vec from_slice ≡ ok tt
  unfolding test_request_serialization
  test_request_serialization_passes to_vec from_slice text written read = rw (written, read) refl
