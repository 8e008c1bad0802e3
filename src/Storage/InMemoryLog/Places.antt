-- ===== src/Storage/InMemoryLog/Places.antt =====
-- src/storage/in_memory_log.rs: the place that an offset counts to.
use mathlib.Core.Option
use mathlib.Core.Option.{some-injective}
use mathlib.Core.Path.{subst}
use native.Mathlib.Nat.{zero-add}
use herbert.Prelude.{
  ℕ, zero, suc, ◌+◌, ◌-◌, ◌<◌, ◌≤◌, ◌≡◌, refl, Option, none, some, List, [], ◌∷◌, ◌++◌, arith, ltb,
  if◌then◌else◌, get_elem?, drop, inl, inr, bytes_eq, Bool-cases, ltb→lt,
}
use herbert.Arrow.{Arrow}
use herbert.Storage.Record.{StoredRecord}
use herbert.Storage.InMemoryLog.{RecordOffset}
use herbert.Storage.InMemoryLog.Index.{offset_of, rows_from, weight, offsets_from}

-- The `k`-th of the offsets of `n` rows.
get_elem?-rows_from :
    (i row n k : ℕ) (rest : List RecordOffset)
    → get_elem? (rows_from i row n ++ rest) k
      ≡ (if ltb k n then some (offset_of i (row + k)) else get_elem? rest (k - n))
get_elem?-rows_from i row zero k rest = ground arith
get_elem?-rows_from i row (suc n) zero rest = ground arith
get_elem?-rows_from i row (suc n) (suc k) rest =
    ground (arith, get_elem?-rows_from i (suc row) n k rest)

-- A place in a topic: the offset of a row, and the records from the one that holds it on.
pub record Place (Batch : Type 0) : Type 0 where
  pub at : RecordOffset
  pub first : StoredRecord Batch
  pub later : List (StoredRecord Batch)

module _ {Schema Batch Fault : Type 0} (arrow : Arrow Schema Batch Fault) where
  -- Walk over the records and count their rows, until the `k`-th row is reached.
  abbrev pub locate : ℕ → ℕ → List (StoredRecord Batch) → Option (Place Batch)
  locate i k [] = none
  locate i k (r ∷ rs) =
      if ltb k (weight arrow r)
      then some (record { at = offset_of i k; first = r; later = rs })
      else locate (suc i) (k - weight arrow r) rs

  pub get_elem?-offsets_from :
      (i k : ℕ) (rs : List (StoredRecord Batch))
      → get_elem? (offsets_from arrow i rs) k ≡ Option.map (λ p. p.at) (locate i k rs)
  get_elem?-offsets_from i k [] = refl
  get_elem?-offsets_from i k (r ∷ rs) =
      rw (get_elem?-rows_from i 0 (weight arrow r) k (offsets_from arrow (suc i) rs), zero-add)
        (ground (arith, get_elem?-offsets_from (suc i) (k - weight arrow r) rs))

  -- What `locate` finds is there: the rest of the records, and a row inside the first of them.
  pub record IsPlace (i : ℕ) (rs : List (StoredRecord Batch)) (p : Place Batch) : Type 0 where
    pub index_ge : i ≤ p.at.batch_index
    pub splits : drop (p.at.batch_index - i) rs ≡ p.first ∷ p.later
    pub row_lt : p.at.row_offset < weight arrow p.first

  pub locate-IsPlace :
      (i k : ℕ) (rs : List (StoredRecord Batch)) (p : Place Batch)
      → locate i k rs ≡ some p
      → IsPlace i rs p
  locate-IsPlace i k [] p e = cc
  locate-IsPlace i k (r ∷ rs) p e = elim (Bool-cases (ltb k (weight arrow r))) [
    | inl inside ↦ subst (IsPlace i (r ∷ rs)) (some-injective _ _ (rw inside at e)) (record {
      index_ge = omega arith;
      splits = let same : i - i ≡ 0 = omega arith in rw same refl;
      row_lt = ltb→lt _ _ inside;
    })
    | inr beyond ↦
        let q = locate-IsPlace (suc i) (k - weight arrow r) rs p (rw beyond at e) in
        let later : i ≤ p.at.batch_index = omega (arith, q.index_ge) in
        let next : p.at.batch_index - i ≡ suc (p.at.batch_index - suc i) =
          omega (arith, q.index_ge) in
        record { index_ge = later; splits = rw next q.splits; row_lt = q.row_lt }
  ]
