-- ===== src/Wal/Operations.antt =====
-- src/wal.rs: the operations of `WriteAheadLog`.
use herbert.Prelude.{
  ℕ, Bool, inl, inr, ◌⊎◌, List, [], ◌∷◌, ◌++◌, leb, if◌then◌else◌, length, Bytes, Str,
}
use herbert.Outcome.{
  IoError, Outcome, ok, err, io, panic, poison, poison_error, Method, and_then, Lock, fresh,
}
use herbert.Config.{Config}
use herbert.Arrow.{Arrow}
use herbert.Storage.Record.{StoredRecord, RecordStorage}
use herbert.BufWriter
use herbert.BufWriter.{BufWriter, OsFile}
use herbert.Wal.Serialize.{serialize}

pub record WriteAheadLog (Batch : Type 0) : Type 0 where
  pub file : Lock BufWriter
  pub buffer : Lock (List (Str × StoredRecord Batch))
  pub config : Config

-- `OpenOptions::open` with `create` and `append` gives the file as it is, or fails.
unfoldable pub new :
    {Batch Fault : Type 0} → Config → IoError ⊎ Bytes → Outcome Fault (WriteAheadLog Batch)
new config (inl e) = err (io e)
new config (inr bytes) = ok (record {
  file = fresh (record { file = bytes; buf = [] });
  buffer = fresh [];
  config = config;
})

unfoldable pub need_to_flush : {Batch Fault : Type 0} → WriteAheadLog Batch → Outcome Fault Bool
need_to_flush w =
    if w.buffer.poisoned
    then err poison_error
    else ok (leb w.config.num_uncommitted_messages (length w.buffer.inner))

module _ {Schema Batch Fault : Type 0} (arrow : Arrow Schema Batch Fault) (os : OsFile) where
  -- `self.buffer.lock()?.push((topic.to_string(), records))`
  unfoldable pub push : Str → StoredRecord Batch → Method Fault (WriteAheadLog Batch) Unit
  push topic r w = if w.buffer.poisoned then (err poison_error, w) else (
    ok tt,
    record w { buffer = record w.buffer { inner = w.buffer.inner ++ (topic, r) ∷ [] } },
  )

  -- `write.write(&buffer)?`: the count that comes back is not looked at.
  unfoldable pub write_file : Bytes → Method Fault (WriteAheadLog Batch) ℕ
  write_file buffer w =
      let (written, file) = BufWriter.write os buffer w.file.inner in
      (written, record w { file = record w.file { inner = file } })

  unfoldable pub add : Str → StoredRecord Batch → Method Fault (WriteAheadLog Batch) Unit
  add topic r w =
      if w.file.poisoned
      then (err poison_error, w)
      else and_then (serialize arrow topic r, w)
          (λ buffer w. and_then (write_file buffer w) (λ _ w. push topic r w))

  module _ {S : Type 0} (storage : RecordStorage Batch Fault S) where
    -- The loop over `drain(..)`. A record that the backend refuses ends it; the drain then drops
    -- the records behind it.
    unfoldable pub add_each : List (Str × StoredRecord Batch) → Method Fault S Unit
    add_each [] s = (ok tt, s)
    add_each ((topic, r) ∷ rest) s = and_then (storage.add topic r s) (λ _ s. add_each rest s)

    -- The buffer after the loop: a panic inside it poisons the lock.
    abbrev pub drained : Outcome Fault Unit → Lock (List (Str × StoredRecord Batch))
    drained panic = poison (fresh [])
    drained _ = fresh []

    unfoldable pub drain_buffer : Method Fault (WriteAheadLog Batch × S) Unit
    drain_buffer (w, s) =
        if w.buffer.poisoned
        then (err poison_error, (w, s))
        else let (done, s') = add_each w.buffer.inner s in
          (done, (record w { buffer = drained done }, s'))

    -- The file first, and then the backend.
    unfoldable pub flush : Method Fault (WriteAheadLog Batch × S) Unit
    flush (w, s) =
        if w.file.poisoned
        then (err poison_error, (w, s))
        else let (flushed, file) = BufWriter.flush os w.file.inner in
          and_then (flushed, (record w { file = record w.file { inner = file } }, s))
            (λ _ ws. drain_buffer ws)
