-- ===== src/Wal/Laws.antt =====
-- src/wal.rs: what `add` and `flush` do when no lock is poisoned and the disk takes every write.
use herbert.Prelude.{◌≡◌, refl, false, List, [], ◌∷◌, ◌++◌, Bytes, Str}
use herbert.Outcome.{ok, err, HerbertError}
use herbert.Arrow.{Arrow}
use herbert.Storage.Record.{StoredRecord, RecordStorage, StorageLaws, add_all}
use herbert.BufWriter
use herbert.BufWriter.{BufWriter, OsFile, TakesAll, Placed, contents}
use herbert.Wal.Serialize.{serialize}
use herbert.Wal.Operations.{WriteAheadLog, push, write_file, add, add_each, drain_buffer, flush}

pub record IsLive {Batch : Type 0} (w : WriteAheadLog Batch) : Type 0 where
  pub file_live : w.file.poisoned ≡ false
  pub buffer_live : w.buffer.poisoned ≡ false

module _ {Schema Batch Fault : Type 0} (arrow : Arrow Schema Batch Fault) (os : OsFile) where
  -- The log `v` is `w` with one more entry, `bytes`, for the record `r` of `topic`.
  pub record Added (w v : WriteAheadLog Batch) (topic : Str) (r : StoredRecord Batch)
      (bytes : Bytes) : Type 0 where
    pub live : IsLive v
    pub placed : Placed w.file.inner bytes v.file.inner
    pub buffer_is : v.buffer.inner ≡ w.buffer.inner ++ (topic, r) ∷ []
    pub same_config : v.config ≡ w.config

  module _ (takes : TakesAll os) where
    -- A record that serializes is appended to the file, behind all earlier ones, and to the
    -- buffer of records that the backend does not have yet, if no lock is poisoned and the disk
    -- takes every write.
    pub add_lem :
        (topic : Str) (r : StoredRecord Batch) (w : WriteAheadLog Batch) (bytes : Bytes)
        → IsLive w
        → serialize arrow topic r ≡ ok bytes
        → ((add arrow os topic r w).0 ≡ ok tt) × Added w (add arrow os topic r w).1 topic r bytes
    unfolding add write_file push
    add_lem topic r w bytes h e =
        let wrote = BufWriter.write_lem {Fault = Fault} os takes bytes w.file.inner in
        rw (h.file_live, e, wrote.count, h.buffer_live)
          (
            refl,
            record {
              live = record { file_live = refl; buffer_live = refl };
              placed = wrote.placed;
              buffer_is = refl;
              same_config = refl;
            },
          )

  -- A record that does not serialize leaves the log as it is.
  pub add_err :
      (topic : Str) (r : StoredRecord Batch) (w : WriteAheadLog Batch) (e : HerbertError Fault)
      → IsLive w
      → serialize arrow topic r ≡ err e
      → add arrow os topic r w ≡ (err e, w)
  unfolding add
  add_err topic r w e h failed = simp (h.file_live, failed)

  module _ {S : Type 0} (storage : RecordStorage Batch Fault S) {IsHealthy : S → Type 0}
      (laws : StorageLaws storage IsHealthy) where
    pub add_each_lem :
        (es : List (Str × StoredRecord Batch)) (s : S)
        → IsHealthy s
        → add_each arrow os storage es s ≡ (ok tt, add_all storage es s)
    unfolding add_each
    add_each_lem [] s h = refl
    add_each_lem ((topic, r) ∷ es) s h =
        rw (laws.add_ok topic r s h)
          (add_each_lem es (storage.add topic r s).1 (laws.add-IsHealthy topic r s h))

    module _ (takes : TakesAll os) where
      -- `flush` brings every entry to the file, gives the backend each buffered record in order,
      -- and leaves the buffer empty, if no lock is poisoned, the disk takes every write, and the
      -- backend takes every record.
      pub flush_lem :
          (w : WriteAheadLog Batch) (s : S)
          → IsLive w
          → IsHealthy s
          → flush arrow os storage (w, s) ≡ (
            ok tt,
            (
              record w {
                file = record w.file { inner = record { file = contents w.file.inner; buf = [] } };
                buffer = record w.buffer { inner = [] };
              },
              add_all storage w.buffer.inner s,
            ),
          )
      unfolding flush drain_buffer
      flush_lem w s h healthy = simp (
        h.file_live,
        BufWriter.flush_lem {Fault = Fault} os takes w.file.inner,
        h.buffer_live,
        add_each_lem w.buffer.inner s healthy,
      )
