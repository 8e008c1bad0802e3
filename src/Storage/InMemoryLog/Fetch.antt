-- ===== src/Storage/InMemoryLog/Fetch.antt =====
-- src/storage/in_memory_log.rs: `fetch` finds the record and the row that an offset counts to.
use mathlib.Core.Option
use mathlib.Core.Option.{some-injective}
use herbert.Prelude.{
  ℕ, ◌-◌, ◌<◌, ◌≤◌, ◌≡◌, refl, sym, ap, ◌∙◌, false, Option, none, some, ◌⊎◌, inl, inr, List, [],
  ◌∷◌, ◌++◌, append-nil, append_assoc, arith, ltb, length, get_elem?, get_elem?-none, ◌^◌, drop,
  bytes_eq, Bytes, Str,
}
use herbert.Prelude.Int.{ℤ, negsuc, as_usize}
use herbert.HashMap.{HashMap, or_insert, queue_at, queue_at-or_insert}
use herbert.Outcome.{Outcome, ok, err, arrow_error, Lock, ◌>>=◌}
use herbert.Arrow.{Arrow, from_arrow}
use herbert.Storage.Record.{StoredRecord, raw, batch}
use herbert.Storage.InMemoryLog.{
  RecordOffset, InMemoryLog, collect, finish_records, separator, fetch, fetch_from,
}
use herbert.Storage.InMemoryLog.Index.{weight, offsets_from, IsIndexed}
use herbert.Storage.InMemoryLog.Places.{Place, locate, get_elem?-offsets_from, locate-IsPlace}

module _ {Schema Batch Fault : Type 0} (arrow : Arrow Schema Batch Fault) where
  -- A zero byte, unless the record before it is the last one.
  abbrev behind : List (StoredRecord Batch) → Bytes
  behind [] = []
  behind (_ ∷ _) = 0 ∷ []

  separator_lem : (rs : List (StoredRecord Batch)) → separator arrow rs ≡ behind rs
  separator_lem [] = refl
  separator_lem (_ ∷ _) = refl

  -- The raw records among `rs`, each with a zero byte behind it unless it is the last record.
  abbrev pub raw_part : List (StoredRecord Batch) → Bytes
  raw_part [] = []
  raw_part (raw bytes ∷ rest) = bytes ++ (behind rest ++ raw_part rest)
  raw_part (batch _ ∷ rest) = raw_part rest

  abbrev pub batch_part : List (StoredRecord Batch) → List Batch
  batch_part [] = []
  batch_part (raw _ ∷ rest) = batch_part rest
  batch_part (batch b ∷ rest) = b ∷ batch_part rest

  -- The first batch from row `row` on.
  abbrev pub cut : ℕ → List Batch → List Batch
  cut row [] = []
  cut row (b ∷ bs) = arrow.slice b row (arrow.num_rows b - row) ∷ bs

  abbrev pub Fits : ℕ → List Batch → Type 0
  Fits row [] = Unit
  Fits row (b ∷ bs) = row ≤ arrow.num_rows b

  collect_later :
      (row : ℕ) (rs : List (StoredRecord Batch)) (records : Bytes) (c : Batch) (cs : List Batch)
      → collect arrow row rs records (c ∷ cs)
        ≡ ok (records ++ raw_part rs, (c ∷ cs) ++ batch_part rs)
  unfolding collect
  collect_later row [] records c cs = simp append-nil
  collect_later row (raw b ∷ rs) records c cs =
      collect_later row rs (records ++ (b ++ separator arrow rs)) c cs
      ∙ simp (append_assoc, separator_lem rs)
  collect_later row (batch b ∷ rs) records c cs =
      collect_later row rs records c (cs ++ b ∷ []) ∙ simp append_assoc

  -- The loop of `fetch` in closed form. Under `Fits` it does not panic.
  pub collect_lem :
      (row : ℕ) (rs : List (StoredRecord Batch)) (records : Bytes)
      → Fits row (batch_part rs)
      → collect arrow row rs records [] ≡ ok (records ++ raw_part rs, cut row (batch_part rs))
  unfolding collect
  collect_lem row [] records h = simp append-nil
  collect_lem row (raw b ∷ rs) records h =
      collect_lem row rs (records ++ (b ++ separator arrow rs)) h
      ∙ simp (append_assoc, separator_lem rs)
  collect_lem row (batch b ∷ rs) records h =
      let inside : ltb (arrow.num_rows b) row ≡ false = ground arith in
      rw inside (collect_later row rs records (arrow.slice b row (arrow.num_rows b - row)) [])

  abbrev appended : Bytes → Fault ⊎ Bytes → Outcome Fault Bytes
  appended bytes (inl fault) = err (arrow_error fault)
  appended bytes (inr stream) = ok (bytes ++ stream)

  -- The bytes, and behind them the batches as one stream, if there is one.
  abbrev pub streamed : Bytes → List Batch → Outcome Fault Bytes
  streamed bytes [] = ok bytes
  streamed bytes (b ∷ bs) = appended bytes (arrow.write_stream (arrow.schema b) (b ∷ bs))

  finish_records_lem :
      (bytes : Bytes) (bs : List Batch) → finish_records arrow (bytes, bs) ≡ streamed bytes bs
  unfolding finish_records
  finish_records_lem bytes [] = refl
  finish_records_lem bytes (b ∷ bs) = of_stream (arrow.write_stream (arrow.schema b) (b ∷ bs))
    where
      of_stream :
          (written : Fault ⊎ Bytes)
          → (from_arrow written >>= λ buffer. ok (bytes ++ buffer)) ≡ appended bytes written
      of_stream (inl fault) = refl
      of_stream (inr stream) = refl

  -- What a fetch at a place answers: the raw bytes from there on, and behind them the batches from
  -- there on as one stream.
  abbrev pub answer : Option (Place Batch) → Outcome Fault Bytes
  answer none = ok []
  answer (some p) =
      streamed (raw_part (p.first ∷ p.later)) (cut p.at.row_offset (batch_part (p.first ∷ p.later)))

  IsPlace-Fits :
      (row : ℕ) (first : StoredRecord Batch) (later : List (StoredRecord Batch))
      → row < weight arrow first
      → Fits row (batch_part (first ∷ later))
  IsPlace-Fits row (batch b) later h = omega arith
  IsPlace-Fits row (raw _) later h = Fits_zero (batch_part later) (omega arith)
    where
      Fits_zero : (bs : List Batch) → row ≡ 0 → Fits row bs
      Fits_zero [] e = tt
      Fits_zero (b ∷ bs) e = omega arith

  -- The state that `fetch` leaves: the entry of the topic is there.
  abbrev touched : {A : Type 0} → Str → Lock (HashMap Str (List A)) → Lock (HashMap Str (List A))
  touched topic l = record l { inner = or_insert topic [] l.inner }

  fetch_from_lem :
      (topic : Str) (at : RecordOffset) (s : InMemoryLog Batch) (rs : List (StoredRecord Batch))
      → s.topics.poisoned ≡ false
      → drop at.batch_index (queue_at topic s.topics.inner) ≡ rs
      → Fits at.row_offset (batch_part rs)
      → fetch_from arrow topic at s ≡ (
        streamed (raw_part rs) (cut at.row_offset (batch_part rs)),
        record s { topics = touched topic s.topics },
      )
  unfolding fetch_from
  fetch_from_lem topic at s rs live e fits = simp (
    live,
    queue_at-or_insert,
    e,
    collect_lem at.row_offset rs [] fits,
    finish_records_lem (raw_part rs) (cut at.row_offset (batch_part rs)),
  )

  module _ (topic : Str) (fetch_offset : ℤ) (s : InMemoryLog Batch) (h : IsIndexed arrow s) where
    abbrev pub found : Option (Place Batch)
    found = locate arrow 0 (as_usize fetch_offset) (queue_at topic s.topics.inner)

    index_lem :
        get_elem? (queue_at topic (or_insert topic [] s.offsets.inner)) (as_usize fetch_offset)
        ≡ Option.map (λ p. p.at) found
    index_lem =
        rw (queue_at-or_insert, h.agree topic)
          (get_elem?-offsets_from arrow 0 (as_usize fetch_offset) (queue_at topic s.topics.inner))

    fetch_lem :
        (p : Option (Place Batch))
        → found ≡ p
        → (topics : Lock (HashMap Str (List (StoredRecord Batch)))) × (fetch arrow topic
              fetch_offset s
            ≡ (answer p, record { topics = topics; offsets = touched topic s.offsets }))
          × (topics.poisoned ≡ false)
          × ((t : Str) → queue_at t topics.inner ≡ queue_at t s.topics.inner)
    unfolding fetch
    fetch_lem none e = (s.topics, simp (h.offsets_live, index_lem, e), h.topics_live, λ t. refl)
    fetch_lem (some p) e =
        let q =
          locate-IsPlace arrow 0 (as_usize fetch_offset) (queue_at topic s.topics.inner) p e in
        let same : p.at.batch_index - 0 ≡ p.at.batch_index = omega arith in
        (
          touched topic s.topics,
          simp (h.offsets_live, index_lem, e)
              (fetch_from_lem topic p.at _ (p.first ∷ p.later) h.topics_live (rw same at q.splits)
                (IsPlace-Fits p.at.row_offset p.first p.later q.row_lt)),
          h.topics_live,
          λ t. queue_at-or_insert topic t s.topics.inner,
        )

    -- `fetch` answers from the place that the offset counts to: the raw records from there on with
    -- a zero byte between records, then the batches from there on as one stream; and nothing where
    -- the offset, cast to `usize`, is past the last row. The index of the log agrees with its records.
    pub fetch-answer : (fetch arrow topic fetch_offset s).0 ≡ answer found
    fetch-answer = ap (λ r. r.0) (fetch_lem found refl).1

    -- `fetch` changes no topic's records, and keeps the index in step.
    pub fetch-IsIndexed :
        IsIndexed arrow (fetch arrow topic fetch_offset s).1
        × ((t : Str)
            → queue_at t (fetch arrow topic fetch_offset s).1.topics.inner
              ≡ queue_at t s.topics.inner)
    fetch-IsIndexed =
        let (topics, e, live, same) = fetch_lem found refl in
        rw e (
          record {
            topics_live = live;
            offsets_live = h.offsets_live;
            agree = λ t.
                queue_at-or_insert topic t s.offsets.inner
                ∙ h.agree t
                ∙ ap (offsets_from arrow 0) (sym (same t));
          },
          same,
        )

    locate-none :
        (i k : ℕ) (rs : List (StoredRecord Batch))
        → length (offsets_from arrow i rs) ≤ k
        → locate arrow i k rs ≡ none
    locate-none i k rs le =
        Option_map-none (locate arrow i k rs) (
          sym (get_elem?-offsets_from arrow i k rs) ∙ get_elem?-none (offsets_from arrow i rs) k le)
      where
        Option_map-none : (o : Option (Place Batch)) → Option.map (λ p. p.at) o ≡ none → o ≡ none
        Option_map-none none e = refl
        Option_map-none (some p) e = cc

  -- A negative offset is cast to a number past every row, so the answer is empty, if the topic has
  -- at most 2 ^ 63 rows, the offset is an `i64`, and the index of the log agrees with its records.
  pub fetch_negative :
      (topic : Str) (n : ℕ) (s : InMemoryLog Batch)
      → IsIndexed arrow s
      → n < 2 ^ 63
      → length (queue_at topic s.offsets.inner) ≤ 2 ^ 63
      → (fetch arrow topic (negsuc n) s).0 ≡ ok []
  fetch_negative topic n s h small few =
      fetch-answer topic (negsuc n) s h
      ∙ ap answer (
          locate-none topic (negsuc n) s h 0 (as_usize (negsuc n)) (queue_at topic s.topics.inner)
            (omega (arith, ap length (h.agree topic))))
