-- ===== src/Wal/Ends.antt =====
-- src/wal.rs: `add` and `flush` end, whatever the disk and the backend do.
use herbert.Prelude.{
  ℕ, zero, suc, ◌-◌, ◌≤◌, ◌≡◌, refl, ◌⊎◌, inl, inr, List, [], ◌∷◌, arith, ltb, leb, ◌==◌, length,
  length-drop, Bool-cases, Bytes, Str,
}
use herbert.Outcome.{IoError}
use herbert.Outcome.Ends.{Any, Ends, Ends-then, Ends-and_then, Ends-if}
use herbert.Arrow.{Arrow, from_arrow, from_arrow-Ends}
use herbert.BufWriter
use herbert.BufWriter.{BufWriter, OsFile, flush_buf, write_through, capacity}
use herbert.Storage.Record.{StoredRecord, raw, batch, RecordStorage}
use herbert.Wal.Serialize.{serialize}
use herbert.Wal.Operations.{WriteAheadLog, push, write_file, add, add_each, drain_buffer, flush}

module _ (Fault : Type 0) (os : OsFile) where
  flush_buf-Ends :
      (fuel : ℕ) (file buf : Bytes)
      → length buf ≤ fuel
      → Ends Any (flush_buf {Fault = Fault} os fuel file buf).0
  unfolding flush_buf
  flush_buf-Ends zero file [] h = tt
  flush_buf-Ends (suc fuel) file [] h = tt
  flush_buf-Ends zero file (c ∷ cs) h = absurd (omega arith)
  flush_buf-Ends (suc fuel) file (c ∷ cs) h =
      accepted (os.accept file (c ∷ cs)) refl (flush_buf-Ends fuel)
    where
      accepted :
          (r : IoError ⊎ ℕ)
          → os.accept file (c ∷ cs) ≡ r
          → ((file buf : Bytes)
              → length buf ≤ fuel
              → Ends Any (flush_buf {Fault = Fault} os fuel file buf).0)
          → Ends Any (flush_buf {Fault = Fault} os (suc fuel) file (c ∷ cs)).0
      accepted (inl e) is again = rw (flush_buf, is) tt
      accepted (inr n) is again = elim (Bool-cases (n == 0)) [
        | inl nothing ↦ rw (flush_buf, is, nothing) tt
        | inr some_taken ↦
            rw (flush_buf, is, some_taken)
              (again _ _ (ground (arith, some_taken, h, length-drop n (c ∷ cs))))
      ]

  flush-Ends : (w : BufWriter) → Ends Any (BufWriter.flush {Fault = Fault} os w).0
  unfolding BufWriter.flush
  flush-Ends w = flush_buf-Ends (length w.buf) w.file w.buf (omega arith)

  write_through-Ends :
      (chunk : Bytes) (w : BufWriter) → Ends Any (write_through {Fault = Fault} os chunk w).0
  unfolding write_through
  write_through-Ends chunk w = accepted (os.accept w.file chunk) refl
    where
      accepted :
          (r : IoError ⊎ ℕ)
          → os.accept w.file chunk ≡ r
          → Ends Any (write_through {Fault = Fault} os chunk w).0
      accepted (inl e) is =
          rw (write_through, is) (Ends-if Any (leb capacity (length chunk)) _ _ tt tt)
      accepted (inr n) is =
          rw (write_through, is) (Ends-if Any (leb capacity (length chunk)) _ _ tt tt)

  write-Ends :
      (chunk : Bytes) (w : BufWriter) → Ends Any (BufWriter.write {Fault = Fault} os chunk w).0
  unfolding BufWriter.write
  write-Ends chunk w = Ends-if Any (ltb (length chunk) (capacity - length w.buf)) _ _ tt (
      Ends-if Any (ltb (capacity - length w.buf) (length chunk)) _ _
        (Ends-and_then Any Any (BufWriter.flush os w) _ (flush-Ends w)
          (λ _ v _. write_through-Ends chunk v))
        (write_through-Ends chunk w))

module _ {Schema Batch Fault : Type 0} (arrow : Arrow Schema Batch Fault) (os : OsFile) where
  serialize-Ends : (topic : Str) (r : StoredRecord Batch) → Ends Any (serialize arrow topic r)
  unfolding serialize
  serialize-Ends topic (raw bytes) = tt
  serialize-Ends topic (batch b) =
      Ends-then Any Any (from_arrow (arrow.write_stream (arrow.schema b) (b ∷ []))) _
        (from_arrow-Ends _) (λ _ _. tt)

  pub add-Ends :
      (topic : Str) (r : StoredRecord Batch) (w : WriteAheadLog Batch)
      → Ends Any (add arrow os topic r w).0
  unfolding add write_file push
  add-Ends topic r w = Ends-if Any w.file.poisoned _ _ tt (
      Ends-and_then Any Any (serialize arrow topic r, w) _ (serialize-Ends topic r)
        λ entry v _.
          Ends-and_then Any Any (write_file arrow os entry v) _
            (write-Ends Fault os entry v.file.inner)
            λ _ u _. Ends-if Any u.buffer.poisoned _ _ tt tt)

  module _ {S : Type 0} (storage : RecordStorage Batch Fault S)
      (ends : (topic : Str) (r : StoredRecord Batch) (s : S)
        → Ends Any (storage.add topic r s).0) where
    add_each-Ends :
        (es : List (Str × StoredRecord Batch)) (s : S) → Ends Any (add_each arrow os storage es s).0
    unfolding add_each
    add_each-Ends [] s = tt
    add_each-Ends ((topic, r) ∷ es) s =
        Ends-and_then Any Any (storage.add topic r s) _ (ends topic r s)
          (λ _ t _. add_each-Ends es t)

    pub flush-Ends_lem :
        (w : WriteAheadLog Batch) (s : S) → Ends Any (flush arrow os storage (w, s)).0
    unfolding flush drain_buffer
    flush-Ends_lem w s = Ends-if Any w.file.poisoned _ _ tt (
        Ends-and_then Any Any _ _ (flush-Ends Fault os w.file.inner)
          λ _ ws _. Ends-if Any ws.0.buffer.poisoned _ _ tt (add_each-Ends ws.0.buffer.inner ws.1))
