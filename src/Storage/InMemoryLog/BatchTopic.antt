-- ===== src/Storage/InMemoryLog/BatchTopic.antt =====
-- src/storage/in_memory_log.rs: `fetch` on a topic of record batches.

use herbert.Prelude.{
  ℕ, suc, ◌-◌, ◌<◌, ◌≤◌, ◌≡◌, refl, sym, ap, ◌∙◌, some, List, [], ◌∷◌, ◌++◌, map, inl, inr, arith,
  drop, take_all, length-drop, drop-append, drop-append_ge, length, length-append, ltb, ltb→lt,
  Bool-cases, All, bytes_eq, Bytes, Str,
}
use herbert.Prelude.Int.{pos}
use herbert.HashMap.{queue_at}
use herbert.Outcome.{ok}
use herbert.Arrow.{Arrow, ArrowLaws}
use herbert.Storage.Record.{StoredRecord, batch}
use herbert.Storage.InMemoryLog.{InMemoryLog, finish_records, fetch}
use herbert.Storage.InMemoryLog.Index.{offset_of, IsIndexed}
use herbert.Storage.InMemoryLog.Places.{locate}
use herbert.Storage.InMemoryLog.Fetch.{raw_part, batch_part, answer, fetch-answer}

module _ {Schema Batch Fault Row : Type 0} (arrow : Arrow Schema Batch Fault)
    (laws : ArrowLaws arrow Row) where
  -- The rows of a topic's batches, in order.
  abbrev pub all_rows : List Batch → List Row
  all_rows [] = []
  all_rows (b ∷ bs) = laws.rows b ++ all_rows bs

  abbrev batches : List Batch → List (StoredRecord Batch)
  batches = map batch

  raw_part-batches : (bs : List Batch) → raw_part arrow (batches bs) ≡ []
  raw_part-batches [] = refl
  raw_part-batches (b ∷ bs) = raw_part-batches bs

  batch_part-batches : (bs : List Batch) → batch_part arrow (batches bs) ≡ bs
  batch_part-batches [] = refl
  batch_part-batches (b ∷ bs) = ap (◌∷◌ b) (batch_part-batches bs)

  -- The place of row `k`: a batch, a row in it, and the batches behind it.
  record Found (schema : Schema) (i k : ℕ) (bs : List Batch) : Type 0 where
    index : ℕ
    row : ℕ
    first : Batch
    later : List Batch
    located :
        locate arrow i k (batches bs)
        ≡ some (record { at = offset_of index row; first = batch first; later = batches later })
    row_lt : row < arrow.num_rows first
    rows_left : drop k (all_rows bs) ≡ drop row (laws.rows first) ++ all_rows later
    schemas : All (λ b. arrow.schema b ≡ schema) (first ∷ later)

  find :
      (schema : Schema) (i k : ℕ) (bs : List Batch)
      → All (λ b. arrow.schema b ≡ schema) bs
      → k < length (all_rows bs)
      → Found schema i k bs
  find schema i k [] same h = absurd (omega arith)
  find schema i k (b ∷ bs) same h = elim (Bool-cases (ltb k (arrow.num_rows b))) [
    | inl inside ↦ record {
      index = i;
      row = k;
      first = b;
      later = bs;
      located = rw inside refl;
      row_lt = ltb→lt _ _ inside;
      rows_left =
          drop-append k (laws.rows b) (all_rows bs)
            (omega (arith, ltb→lt k (arrow.num_rows b) inside, laws.length-rows b));
      schemas = same;
    }
    | inr beyond ↦
        let ge : length (laws.rows b) ≤ k = ground (arith, laws.length-rows b) in
        let f =
          find schema (suc i) (k - arrow.num_rows b) bs same.1
            (omega (arith, length-append (laws.rows b) (all_rows bs), laws.length-rows b)) in
        record {
          index = f.index;
          row = f.row;
          first = f.first;
          later = f.later;
          located = rw beyond f.located;
          row_lt = f.row_lt;
          rows_left =
              drop-append_ge k (laws.rows b) (all_rows bs) ge ∙ rw (laws.length-rows b) f.rows_left;
          schemas = f.schemas;
        }
  ]

  -- The slice of a batch from `row` on has the rows from `row` on.
  rows_from_row :
      (b : Batch) (row : ℕ)
      → row < arrow.num_rows b
      → laws.rows (arrow.slice b row (arrow.num_rows b - row)) ≡ drop row (laws.rows b)
  rows_from_row b row h =
      laws.rows-slice b row (arrow.num_rows b - row) (omega arith)
      ∙ take_all (drop row (laws.rows b)) (arrow.num_rows b - row)
          (omega (arith, length-drop row (laws.rows b), laws.length-rows b))

  -- A response decodes to batches that hold the given rows, and no others.
  pub record Delivers (response : Bytes) (rows : List Row) : Type 0 where
    pub received : List Batch
    pub decoded : arrow.read_stream response ≡ inr (map inr received)
    pub same_rows : all_rows received ≡ rows

  -- On a topic of batches of one schema, `fetch` at offset `k` returns a stream that decodes to
  -- batches with the rows from the `k`-th on, if there is a `k`-th row and arrow can write batches
  -- of that schema. The index of the log agrees with its records.
  pub fetch_batches :
      (topic : Str) (k : ℕ) (schema : Schema) (bs : List Batch) (s : InMemoryLog Batch)
      → IsIndexed arrow s
      → queue_at topic s.topics.inner ≡ map batch bs
      → All (λ b. arrow.schema b ≡ schema) bs
      → k < length (all_rows bs)
      → ((cs : List Batch)
          → All (λ b. arrow.schema b ≡ schema) cs
          → (out : Bytes) × (arrow.write_stream schema cs ≡ inr out))
      → (response : Bytes) × ((fetch arrow topic (pos k) s).0 ≡ ok response)
        × Delivers response (drop k (all_rows bs))
  unfolding finish_records
  fetch_batches topic k schema bs s h e same inside writes =
      let f = find schema 0 k bs same inside in
      let slice = arrow.slice f.first f.row (arrow.num_rows f.first - f.row) in
      let slice_schema : arrow.schema slice ≡ schema =
        laws.schema-slice f.first f.row _ ∙ f.schemas.0 in
      let (out, written) = writes (slice ∷ f.later) (slice_schema, f.schemas.1) in
      (
        out,
        fetch-answer arrow topic (pos k) s h
            ∙ rw
                (
                  e,
                  f.located,
                  answer,
                  raw_part-batches f.later,
                  batch_part-batches f.later,
                  slice_schema,
                  written,
                )
                refl,
        record {
          received = slice ∷ f.later;
          decoded =
              laws.read-write schema (slice ∷ f.later) out (slice_schema, f.schemas.1) written;
          same_rows = rw (rows_from_row f.first f.row f.row_lt) (sym f.rows_left);
        },
      )
