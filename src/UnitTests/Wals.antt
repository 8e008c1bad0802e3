-- ===== src/UnitTests/Wals.antt =====
-- The unit tests of src/wal.rs.
use herbert.Prelude.{
  ◌≡◌, refl, inr, [], ◌∷◌, ◌++◌, length, as_u32, u32_le, bytes_eq, bytes_beq, beq_refl, Bytes, Str,
  codes,
}
use herbert.Outcome.{Outcome, ok, fresh, ◌>>=◌}
use herbert.Config.{default, test_default, with_wal_path}
use herbert.Arrow.{Arrow, from_arrow}
use herbert.BufWriter
use herbert.BufWriter.{OsFile, TakesAll}
use herbert.Storage.Record.{StoredRecord, raw, batch}
use herbert.Wal.Serialize.{framed, serialize}
use herbert.Wal.Operations.{WriteAheadLog, new, add}
use herbert.Wal.Laws.{add_lem}
use herbert.TopicManager.Interleaving.{contents-Placed}
use herbert.UnitTests.{assert, is_empty}

module _ {Schema Batch Fault : Type 0} (arrow : Arrow Schema Batch Fault) (os : OsFile)
    (wal_path : Str) where
  -- The log is over a file that is not there yet.
  unfoldable test_new : Outcome Fault Unit
  test_new = do
    wal ← new {Batch = Batch} (with_wal_path default wal_path) (inr [])
    assert (is_empty wal.file.inner.buf)

  -- What the file holds after `add` and a flush of the writer.
  unfoldable contents_of : StoredRecord Batch → Outcome Fault Bytes
  contents_of r = do
    wal ← new {Batch = Batch} (with_wal_path test_default wal_path) (inr [])
    let added = add arrow os (codes "foobar") r wal
    _ ← added.0
    let flushed = BufWriter.flush os added.1.file.inner
    _ ← flushed.0
    ok flushed.1.file

  unfoldable test_add_raw_bytes : Outcome Fault Unit
  test_add_raw_bytes = do
    contents ← contents_of (raw (codes "test"))
    let expected = codes "foobar" ++ b'\n' ∷ 0 ∷ (4 ∷ 0 ∷ 0 ∷ 0 ∷ []) ++ codes "test"
    assert (bytes_beq contents expected)

  unfoldable test_add_record_batch : Batch → Outcome Fault Unit
  test_add_record_batch b = do
    contents ← contents_of (batch b)
    tmp_buffer ← from_arrow (arrow.write_stream (arrow.schema b) (b ∷ []))
    let expected = codes "foobar" ++ b'\n' ∷ 1 ∷ u32_le (as_u32 (length tmp_buffer)) ++ tmp_buffer
    assert (bytes_beq contents expected)

  test_new_passes : test_new ≡ ok tt
  unfolding test_new new
  test_new_passes = refl

  module _ (takes : TakesAll os) where
    contents_of_lem :
        (r : StoredRecord Batch) (entry : Bytes)
        → serialize arrow (codes "foobar") r ≡ ok entry
        → contents_of r ≡ ok entry
    unfolding contents_of new
    contents_of_lem r entry e =
        let wal : WriteAheadLog Batch = record {
          file = fresh (record { file = []; buf = [] });
          buffer = fresh [];
          config = with_wal_path test_default wal_path;
        } in
        let (done, added) =
          add_lem arrow os takes (codes "foobar") r wal entry
            (record { file_live = refl; buffer_live = refl }) e in
        rw
          (
            done,
            BufWriter.flush_lem {Fault = Fault} os takes
                (add arrow os (codes "foobar") r wal).1.file.inner,
            contents-Placed wal.file.inner _ entry added.placed,
          )
          refl

    test_add_raw_bytes_passes : test_add_raw_bytes ≡ ok tt
    unfolding test_add_raw_bytes serialize framed u32_le
    test_add_raw_bytes_passes = rw (contents_of_lem (raw (codes "test")) _ refl) refl

    test_add_record_batch_passes :
        (b : Batch) (out : Bytes)
        → arrow.write_stream (arrow.schema b) (b ∷ []) ≡ inr out
        → test_add_record_batch b ≡ ok tt
    unfolding test_add_record_batch serialize framed
    test_add_record_batch_passes b out written =
        rw
          (
            contents_of_lem (batch b) (framed (codes "foobar") 1 out)
                (rw (written, serialize) refl),
            written,
            beq_refl ⦃e = bytes_eq⦄ (framed (codes "foobar") 1 out),
          )
          refl
