-- ===== src/TopicManager/Recovery.antt =====
-- src/topic_manager.rs: `TopicManager::recover`.
use herbert.Prelude.{
  ℕ, zero, suc, Bool, true, false, Option, none, some, List, [], ◌∷◌, ◌⊎◌, ltb, ◌==◌, if◌then◌else◌,
  length, take, drop, without_last, of_u32_le, Bytes, Str,
}
use herbert.Outcome.{
  Outcome, ok, err, out_of_fuel, io, unexpected_eof, poison_error, indicator_error,
  no_wal_file_found, Method, and_then, ◌>>=◌,
}
use herbert.Arrow.{Arrow, from_arrow}
use herbert.Utf8.{from_utf8}
use herbert.Storage.Record.{StoredRecord, raw, batch, RecordStorage}
use herbert.TopicManager.Operations.{TopicManager, exists, create}

-- `read_until(delimiter, ..)`: the bytes up to the delimiter with it, and the bytes behind.
unfoldable pub read_until : ℕ → Bytes → Bytes × Bytes
read_until delimiter [] = ([], [])
read_until delimiter (c ∷ cs) =
    let (line, rest) = read_until delimiter cs in
    if c == delimiter then (c ∷ [], cs) else (c ∷ line, rest)

module _ {Fault : Type 0} where
  unfoldable pub read_u8 : Bytes → Outcome Fault (ℕ × Bytes)
  read_u8 [] = err (io unexpected_eof)
  read_u8 (b ∷ rest) = ok (b, rest)

  unfoldable pub read_u32 : Bytes → Outcome Fault (ℕ × Bytes)
  read_u32 (a ∷ b ∷ c ∷ d ∷ rest) = ok (of_u32_le a b c d, rest)
  read_u32 _ = err (io unexpected_eof)

  unfoldable pub read_exact : ℕ → Bytes → Outcome Fault (Bytes × Bytes)
  read_exact size bytes =
      if ltb (length bytes) size
      then err (io unexpected_eof)
      else ok (take size bytes, drop size bytes)

  -- The topic, the indicator and the size of an entry, and the bytes behind them.
  unfoldable pub read_header :
      Bytes → Bytes → Outcome Fault (record { topic : Str; indicator : ℕ; size : ℕ; rest : Bytes })
  read_header contents bytes = do
    topic ← from_utf8 (without_last contents)
    (indicator, bytes1) ← read_u8 bytes
    (size, bytes2) ← read_u32 bytes1
    ok (record { topic = topic; indicator = indicator; size = size; rest = bytes2 })

module _ {Schema Batch Fault S : Type 0} (arrow : Arrow Schema Batch Fault)
    (storage : RecordStorage Batch Fault S) where
  abbrev pub Manager : Type 0
  Manager = TopicManager Schema Batch S

  -- `self.backend.add(&topic, record)`
  unfoldable pub add_to_backend : Str → StoredRecord Batch → Method Fault Manager Unit
  add_to_backend topic r tm =
      let (done, backend) = storage.add topic r tm.backend in
      (done, record tm { backend = backend })

  -- A topic that is not known yet is created with the schema of the batch.
  unfoldable pub create_unless : Bool → Str → Schema → Method Fault Manager Unit
  create_unless true topic schema tm = (ok tt, tm)
  create_unless false topic schema tm = create topic (some schema) tm

  unfoldable pub restore_first : Str → List (Fault ⊎ Batch) → Method Fault Manager Unit
  restore_first topic [] tm = (ok tt, tm)
  restore_first topic (item ∷ _) tm =
      and_then (from_arrow item, tm)
        (λ b tm.
          and_then (exists topic tm, tm)
            (λ known tm.
              and_then (create_unless known topic (arrow.schema b) tm)
                (λ _ tm. add_to_backend topic (batch b) tm)))

  -- The `match indicator`: what is left of the file.
  unfoldable pub restore : Str → ℕ → ℕ → Bytes → Method Fault Manager Bytes
  restore topic indicator size bytes tm =
      if indicator == 0
      then and_then (read_exact size bytes, tm)
          (λ read tm. and_then (add_to_backend topic (raw read.0) tm) (λ _ tm. (ok read.1, tm)))
      else if indicator == 1
      then and_then (read_exact size bytes, tm)
          (λ read tm.
            and_then (from_arrow (arrow.read_stream read.0), tm)
              (λ items tm. and_then (restore_first topic items tm) (λ _ tm. (ok read.1, tm))))
      else (err (indicator_error indicator), tm)

  -- The `loop`. Each round reads a byte at least, so one more round than bytes is enough.
  unfoldable pub recover_loop : ℕ → Bytes → Method Fault Manager Unit
  recover_loop zero bytes tm = (out_of_fuel, tm)
  recover_loop (suc fuel) bytes tm =
      let (contents, bytes1) = read_until b'\n' bytes in
      let round =
        and_then (read_header contents bytes1, tm)
          (λ h tm.
            and_then (restore h.topic h.indicator h.size h.rest tm)
              (λ rest tm. recover_loop fuel rest tm)) in
      if length contents == 0 then (ok tt, tm) else round

  -- `file` is what `File::open(&self.config.wal_path)` and the reader behind it give.
  unfoldable pub recover : Option Bytes → Method Fault Manager Unit
  recover file tm = if tm.wal.file.poisoned then (err poison_error, tm) else elim file [
    | none ↦ (err no_wal_file_found, tm)
    | some bytes ↦ recover_loop (suc (length bytes)) bytes tm
  ]
