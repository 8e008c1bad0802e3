-- ===== src/UnitTests/Logs.antt =====
-- The unit tests of src/storage/in_memory_log.rs.
use herbert.Prelude.{
  ℕ, zero, suc, ◌≡◌, refl, not, ◌==◌, get_elem?, length, bytes_eq, bytes_beq, Bytes, codes, decimal,
}
use herbert.Prelude.Int.{pos}
use herbert.HashMap.{lookup, insert, or_insert}
use herbert.Outcome.{Outcome, ok, ◌>>=◌}
use herbert.Arrow.{Arrow}
use herbert.Storage.Record.{raw}
use herbert.Storage.InMemoryLog.{
  InMemoryLog, new, push_offsets, add, collect, finish_records, fetch_from, fetch,
}
use herbert.Client.Consume.{split}
use herbert.UnitTests.{assert, unwrap, unwrap_some, is_empty, is_raw}

-- `for idx in 0..5`: `n` rounds are left.
abbrev pub add_numbers : {S : Type 0} → (Bytes → S → S) → (idx n : ℕ) → S → S
add_numbers add idx zero s = s
add_numbers add idx (suc n) s = add_numbers add (suc idx) n (add (decimal idx) s)

module _ {Schema Batch Fault : Type 0} (arrow : Arrow Schema Batch Fault) where
  abbrev Log : Type 0
  Log = InMemoryLog Batch

  unfoldable test_new : Outcome Fault Unit
  test_new = assert (is_empty (new {Batch = Batch}).topics.inner)

  unfoldable test_add : Outcome Fault Unit
  test_add =
      let s : Log = (add arrow (codes "foobar") (raw (codes "test")) new).1 in
      do
        records ← unwrap_some (lookup (codes "foobar") s.topics.inner)
        _ ← assert (not (is_empty records))
        r ← unwrap_some (get_elem? records 0)
        assert (is_raw (codes "test") r)

  unfoldable test_fetch : Outcome Fault Unit
  test_fetch =
      let s : Log = (add arrow (codes "foobar") (raw (codes "test")) new).1 in
      do
        fetched ← unwrap (fetch arrow (codes "foobar") (pos 0) s).0
        assert (bytes_beq fetched (codes "test"))

  unfoldable test_fetch_multiple : Outcome Fault Unit
  test_fetch_multiple =
      let s : Log = (add arrow (codes "foobar") (raw (codes "test")) new).1 in
      let s : Log = (add arrow (codes "foobar") (raw (codes "test")) s).1 in
      do
        fetched ← unwrap (fetch arrow (codes "foobar") (pos 0) s).0
        let parts = split fetched
        _ ← assert (length parts == 2)
        first ← unwrap_some (get_elem? parts 0)
        _ ← assert (bytes_beq first (codes "test"))
        second ← unwrap_some (get_elem? parts 1)
        assert (bytes_beq second (codes "test"))

  unfoldable test_fetch_with_offset : Outcome Fault Unit
  test_fetch_with_offset =
      let s : Log = add_numbers (λ idx s. (add arrow (codes "foobar") (raw idx) s).1) 0 5 new in
      do
        fetched ← unwrap (fetch arrow (codes "foobar") (pos 2) s).0
        let parts = split fetched
        _ ← assert (length parts == 3)
        first ← unwrap_some (get_elem? parts 0)
        _ ← assert (bytes_beq first (codes "2"))
        second ← unwrap_some (get_elem? parts 1)
        _ ← assert (bytes_beq second (codes "3"))
        third ← unwrap_some (get_elem? parts 2)
        assert (bytes_beq third (codes "4"))

  test_new_passes : test_new ≡ ok tt
  unfolding test_new
  test_new_passes = refl

  test_add_passes : test_add ≡ ok tt
  unfolding test_add add push_offsets lookup insert or_insert
  test_add_passes = refl

  test_fetch_passes : test_fetch ≡ ok tt
  unfolding test_fetch add push_offsets fetch fetch_from collect finish_records lookup insert
      or_insert
  test_fetch_passes = refl

  test_fetch_multiple_passes : test_fetch_multiple ≡ ok tt
  unfolding test_fetch_multiple add push_offsets fetch fetch_from collect finish_records lookup
      insert or_insert split
  test_fetch_multiple_passes = refl

  test_fetch_with_offset_passes : test_fetch_with_offset ≡ ok tt
  unfolding test_fetch_with_offset add push_offsets fetch fetch_from collect finish_records lookup
      insert or_insert split
  test_fetch_with_offset_passes = refl
