-- ===== src/UnitTests/Queues.antt =====
-- The unit tests of src/storage/in_memory_queue.rs.
use herbert.Prelude.{◌≡◌, refl, not, get_elem?, bytes_eq, codes}
use herbert.Prelude.Int.{pos}
use herbert.HashMap.{lookup, insert, or_insert}
use herbert.Outcome.{Outcome, ok, ◌>>=◌}
use herbert.Arrow.{Arrow}
use herbert.Storage.Record.{raw}
use herbert.Storage.InMemoryQueue.{InMemoryQueue, new, add, record_bytes, drain, fetch}
use herbert.UnitTests.{assert, unwrap_some, is_empty, is_raw}

module _ {Schema Batch Fault : Type 0} (arrow : Arrow Schema Batch Fault) where
  abbrev Queue : Type 0
  Queue = InMemoryQueue Batch

  unfoldable test_new : Outcome Fault Unit
  test_new = assert (is_empty (new {Batch = Batch}).topics.inner)

  unfoldable test_add : Outcome Fault Unit
  test_add =
      let s : Queue = (add arrow (codes "foobar") (raw (codes "test")) new).1 in
      do
        records ← unwrap_some (lookup (codes "foobar") s.topics.inner)
        _ ← assert (not (is_empty records))
        r ← unwrap_some (get_elem? records 0)
        assert (is_raw (codes "test") r)

  unfoldable test_remove : Outcome Fault Unit
  test_remove =
      let s : Queue = (add arrow (codes "foobar") (raw (codes "test")) new).1 in
      do
        records ← unwrap_some (lookup (codes "foobar") s.topics.inner)
        _ ← assert (not (is_empty records))
        r ← unwrap_some (get_elem? records 0)
        _ ← assert (is_raw (codes "test") r)
        let s : Queue = (fetch arrow (codes "foobar") (pos 0) s).1
        left ← unwrap_some (lookup (codes "foobar") s.topics.inner)
        assert (is_empty left)

  test_new_passes : test_new ≡ ok tt
  unfolding test_new
  test_new_passes = refl

  test_add_passes : test_add ≡ ok tt
  unfolding test_add add lookup insert or_insert
  test_add_passes = refl

  test_remove_passes : test_remove ≡ ok tt
  unfolding test_remove add fetch drain record_bytes lookup insert or_insert
  test_remove_passes = refl
