-- ===== src/UnitTests/Topics.antt =====
-- The unit tests of src/topic_manager.rs.
use herbert.Prelude.{
  ◌≡◌, refl, Bool, true, false, not, ◌&&◌, Option, none, some, inr, ◌⊎◌, List, [], ◌∷◌, bytes_eq,
  bytes_beq, Bytes, Str, codes,
}
use herbert.Prelude.Int.{pos}
use herbert.HashMap.{lookup, insert, contains_key}
use herbert.Outcome.{Outcome, ok, panic, ◌>>=◌}
use herbert.Config.{test_default, with_wal_path}
use herbert.Arrow.{Arrow, from_arrow}
use herbert.BufWriter
use herbert.BufWriter.{OsFile}
use herbert.Storage.Record.{batch}
use herbert.Storage.InMemoryLog.{InMemoryLog, log_storage}
use herbert.Storage.InMemoryQueue.{InMemoryQueue}
use herbert.Wal.Operations as Wal
use herbert.TopicManager.Operations.{
  TopicManager, TopicMetadata, new_metadata, create, exists, fetch, with_config,
}
use herbert.TopicManager.Recovery.{recover}
use herbert.TopicManager.Defaults.{default_log}
use herbert.UnitTests.{assert, unwrap, unwrap_some, is_empty, is_err}
use herbert.UnitTests.Managers.{queue_manager, queue_manager_lem}

module _ {Schema Batch Fault : Type 0} (arrow : Arrow Schema Batch Fault) (os : OsFile)
    (default_file : Bytes) (wal_path : Str) where
  abbrev Manager : Type 0
  Manager = TopicManager Schema Batch (InMemoryQueue Batch)

  unfoldable test_create_topic : Outcome Fault Unit
  test_create_topic = do
    tm ← queue_manager {Batch = Batch} default_file wal_path
    let tm : Manager = (create {Fault = Fault} (codes "foobar") none tm).1
    _ ← assert (contains_key (codes "foobar") tm.topic_metadatas.inner)
    let result = create {Fault = Fault} (codes "foobar") none tm
    assert (is_err result.0)

  unfoldable test_exists : Outcome Fault Unit
  test_exists = do
    tm ← queue_manager {Batch = Batch} default_file wal_path
    let tm : Manager = (create {Fault = Fault} (codes "foobar") none tm).1
    found ← unwrap (exists (codes "foobar") tm)
    _ ← assert found
    found ← unwrap (exists (codes "does_not_exist") tm)
    assert (not found)

  -- `TopicMetadata::eq`
  abbrev same_schema : Option Schema → Option Schema → Bool
  same_schema none none = true
  same_schema (some a) (some b) = arrow.schema_beq a b
  same_schema _ _ = false

  abbrev same_metadata : TopicMetadata Schema → TopicMetadata Schema → Bool
  same_metadata m n = bytes_beq m.name n.name && same_schema m.schema n.schema

  unfoldable test_create_topic_with_schema : Schema → Outcome Fault Unit
  test_create_topic_with_schema schema = do
    tm ← queue_manager {Batch = Batch} default_file wal_path
    let tm : Manager = (create {Fault = Fault} (codes "foobar") (some schema) tm).1
    _ ← assert (contains_key (codes "foobar") tm.topic_metadatas.inner)
    metadata ← unwrap_some (lookup (codes "foobar") tm.topic_metadatas.inner)
    assert (same_metadata metadata (new_metadata (codes "foobar") (some schema)))

  -- The batches of a stream are these: `batch_beq` is the equality of two batches.
  unfoldable pub are_batches :
      (Batch → Batch → Bool) → List Batch → List (Fault ⊎ Batch) → Outcome Fault Unit
  are_batches batch_beq [] items = assert (is_empty items)
  are_batches batch_beq (b ∷ bs) [] = panic
  are_batches batch_beq (b ∷ bs) (item ∷ items) = do
    found ← unwrap (from_arrow item)
    _ ← assert (batch_beq found b)
    are_batches batch_beq bs items

  unfoldable pub check_recovered :
      (Batch → Batch → Bool)
      → Batch
      → TopicManager Schema Batch (InMemoryLog Batch)
      → Outcome Fault Unit
  check_recovered batch_beq b tm = do
    found ← exists (codes "foobar") tm
    _ ← assert found
    found ← exists (codes "test") tm
    _ ← assert found
    let fetched = fetch arrow os (log_storage arrow) (codes "foobar") (pos 0) tm
    record_bytes ← unwrap fetched.0
    items ← from_arrow (arrow.read_stream record_bytes)
    _ ← are_batches batch_beq (b ∷ b ∷ []) items
    record_bytes ← unwrap (fetch arrow os (log_storage arrow) (codes "test") (pos 0) fetched.1).0
    items ← from_arrow (arrow.read_stream record_bytes)
    are_batches batch_beq (b ∷ []) items

  unfoldable pub test_recover : (Batch → Batch → Bool) → Batch → Outcome Fault Unit
  test_recover batch_beq b = do
    let config = with_wal_path test_default wal_path
    wal ← Wal.new config (inr [])
    let a1 = Wal.add arrow os (codes "foobar") (batch b) wal
    _ ← a1.0
    let a2 = Wal.add arrow os (codes "foobar") (batch b) a1.1
    _ ← a2.0
    let a3 = Wal.add arrow os (codes "test") (batch b) a2.1
    _ ← a3.0
    let flushed = BufWriter.flush os a3.1.file.inner
    _ ← flushed.0
    let file = flushed.1.file
    default_tm ← default_log (inr default_file)
    tm ← with_config default_tm config (inr file)
    let recovered = recover arrow (log_storage arrow) (some file) tm
    _ ← recovered.0
    check_recovered batch_beq b recovered.1

  test_create_topic_passes : test_create_topic ≡ ok tt
  unfolding test_create_topic create contains_key insert lookup
  test_create_topic_passes = rw (queue_manager_lem {Fault = Fault} default_file wal_path) refl

  test_exists_passes : test_exists ≡ ok tt
  unfolding test_exists create exists contains_key insert lookup
  test_exists_passes = rw (queue_manager_lem {Fault = Fault} default_file wal_path) refl

  test_create_topic_with_schema_passes :
      (schema : Schema)
      → arrow.schema_beq schema schema ≡ true
      → test_create_topic_with_schema schema ≡ ok tt
  unfolding test_create_topic_with_schema create contains_key insert lookup
  test_create_topic_with_schema_passes schema same =
      rw (queue_manager_lem {Fault = Fault} default_file wal_path, same) refl
