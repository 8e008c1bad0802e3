-- ===== src/Storage/InMemoryLog/RawTopic.antt =====
-- src/storage/in_memory_log.rs: `fetch` on a topic of raw records.

use herbert.Prelude.{
  ℕ, zero, suc, ◌-◌, ◌≡◌, refl, ap, ◌∙◌, List, [], ◌∷◌, ◌++◌, map, append-nil, arith, drop, ltb,
  false, bytes_eq, Bytes, Str,
}
use herbert.Prelude.Int.{pos}
use herbert.HashMap.{queue_at}
use herbert.Outcome.{ok}
use herbert.Arrow.{Arrow}
use herbert.Storage.Record.{StoredRecord, raw}
use herbert.Storage.InMemoryLog.{InMemoryLog, finish_records, fetch}
use herbert.Storage.InMemoryLog.Index.{IsIndexed}
use herbert.Storage.InMemoryLog.Places.{locate}
use herbert.Storage.InMemoryLog.Fetch.{raw_part, batch_part, answer, fetch-answer}

-- The payloads with a zero byte between each two.
abbrev pub join : List Bytes → Bytes
join [] = []
join (p ∷ []) = p
join (p ∷ q ∷ ps) = p ++ 0 ∷ join (q ∷ ps)

module _ {Schema Batch Fault : Type 0} (arrow : Arrow Schema Batch Fault) where
  abbrev raws : List Bytes → List (StoredRecord Batch)
  raws = map raw

  raw_part-join : (ps : List Bytes) → raw_part arrow (raws ps) ≡ join ps
  raw_part-join [] = refl
  raw_part-join (p ∷ []) = simp append-nil
  raw_part-join (p ∷ q ∷ ps) = ap (λ r. p ++ 0 ∷ r) (raw_part-join (q ∷ ps))

  batch_part-raws : (ps : List Bytes) → batch_part arrow (raws ps) ≡ []
  batch_part-raws [] = refl
  batch_part-raws (p ∷ ps) = batch_part-raws ps

  answer-raws :
      (i k : ℕ) (ps : List Bytes)
      → answer arrow (locate arrow i k (raws ps)) ≡ ok (join (drop k ps))
  unfolding finish_records
  answer-raws i zero [] = refl
  answer-raws i (suc k) [] = refl
  answer-raws i zero (p ∷ ps) = rw (batch_part-raws ps, raw_part-join (p ∷ ps)) refl
  answer-raws i (suc k) (p ∷ ps) =
      let down : suc k - 1 ≡ k = omega arith in
      let beyond : ltb (suc k) 1 ≡ false = ground arith in
      rw (beyond, down) (answer-raws (suc i) k ps)

  -- On a topic that holds only raw records, `fetch` at offset `k` returns the payloads from the
  -- `k`-th on, with a zero byte between each two, and nothing where there is no `k`-th.
  -- The index of the log agrees with its records.
  pub fetch_raw :
      (topic : Str) (k : ℕ) (ps : List Bytes) (s : InMemoryLog Batch)
      → IsIndexed arrow s
      → queue_at topic s.topics.inner ≡ map raw ps
      → (fetch arrow topic (pos k) s).0 ≡ ok (join (drop k ps))
  fetch_raw topic k ps s h e = fetch-answer arrow topic (pos k) s h ∙ rw e (answer-raws 0 k ps)
