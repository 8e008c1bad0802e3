-- ===== src/Storage/InMemoryLog/Index.antt =====
-- src/storage/in_memory_log.rs: the index of offsets agrees with the stored records.

use native.Mathlib.Nat.{zero-add}
use herbert.Prelude.{
  ℕ, zero, suc, ◌+◌, ◌≡◌, refl, sym, ap, ◌∙◌, Bool, true, false, List, [], ◌∷◌, ◌++◌, append-nil,
  append_assoc, arith, if◌then◌else◌, length, bytes_eq, Str,
}
use herbert.HashMap.{lookup, queue_at, queue_at-insert, queue_at-or_insert}
use herbert.Outcome.{ok}
use herbert.Arrow.{Arrow}
use herbert.Storage.Record.{StoredRecord, raw, batch, StorageLaws}
use herbert.Storage.InMemoryLog.{
  RecordOffset, InMemoryLog, new, push_rows, push_offsets, add, log_storage,
}

abbrev pub offset_of : ℕ → ℕ → RecordOffset
offset_of i r = record { batch_index = i; row_offset = r }

-- The offsets of rows `row`, `row + 1`, … of record `i`.
abbrev pub rows_from : ℕ → ℕ → ℕ → List RecordOffset
rows_from i row zero = []
rows_from i row (suc n) = offset_of i row ∷ rows_from i (suc row) n

push_rows-rows_from :
    (i row n : ℕ) (queue : List RecordOffset) → push_rows i row n queue ≡ queue ++ rows_from i row n
unfolding push_rows
push_rows-rows_from i row zero queue = sym (append-nil queue)
push_rows-rows_from i row (suc n) queue =
    push_rows-rows_from i (suc row) n (queue ++ (offset_of i row ∷ []))
    ∙ append_assoc queue (offset_of i row ∷ []) (rows_from i (suc row) n)

module _ {Schema Batch Fault : Type 0} (arrow : Arrow Schema Batch Fault) where
  -- How many offsets a record takes: one for raw bytes, one for each row of a batch.
  abbrev pub weight : StoredRecord Batch → ℕ
  weight (raw _) = 1
  weight (batch b) = arrow.num_rows b

  -- The offsets of a topic whose first record has index `i`.
  abbrev pub offsets_from : ℕ → List (StoredRecord Batch) → List RecordOffset
  offsets_from i [] = []
  offsets_from i (r ∷ rs) = rows_from i 0 (weight r) ++ offsets_from (suc i) rs

  push_offsets-rows_from :
      (r : StoredRecord Batch) (i : ℕ) (queue : List RecordOffset)
      → push_offsets arrow r i queue ≡ queue ++ rows_from i 0 (weight r)
  unfolding push_offsets
  push_offsets-rows_from (raw _) i queue = refl
  push_offsets-rows_from (batch b) i queue = push_rows-rows_from i 0 (arrow.num_rows b) queue

  offsets_from-snoc :
      (i : ℕ) (rs : List (StoredRecord Batch)) (r : StoredRecord Batch)
      → offsets_from i (rs ++ (r ∷ []))
        ≡ offsets_from i rs ++ rows_from (i + length rs) 0 (weight r)
  offsets_from-snoc i [] r =
      append-nil (rows_from i 0 (weight r)) ∙ ap (λ k. rows_from k 0 (weight r)) (omega arith)
  offsets_from-snoc i (x ∷ rs) r =
      let moved : suc i + length rs ≡ i + suc (length rs) = omega arith in
      rw (offsets_from-snoc (suc i) rs r, moved)
        (sym (append_assoc (rows_from i 0 (weight x)) (offsets_from (suc i) rs) _))

  -- No lock is poisoned, and each topic's offsets are those of its records, in order.
  pub record IsIndexed (s : InMemoryLog Batch) : Type 0 where
    pub topics_live : s.topics.poisoned ≡ false
    pub offsets_live : s.offsets.poisoned ≡ false
    pub agree : (t : Str) → queue_at t s.offsets.inner ≡ offsets_from 0 (queue_at t s.topics.inner)

  module _ (topic : Str) (r : StoredRecord Batch) (s : InMemoryLog Batch) (h : IsIndexed s) where
    pub add_ok : (add arrow topic r s).0 ≡ ok tt
    unfolding add
    add_ok = rw (h.topics_live, h.offsets_live)

    pub topics-add :
        (t : Str)
        → queue_at t (add arrow topic r s).1.topics.inner ≡ (
            if bytes_eq.beq topic t
            then queue_at topic s.topics.inner ++ r ∷ []
            else queue_at t s.topics.inner)
    unfolding add
    topics-add t = rw (h.topics_live, h.offsets_live) (simp (queue_at-insert, queue_at-or_insert))

    offsets-add :
        (t : Str)
        → queue_at t (add arrow topic r s).1.offsets.inner ≡ (
            if bytes_eq.beq topic t
            then queue_at topic s.offsets.inner
              ++ rows_from (length (queue_at topic s.topics.inner)) 0 (weight r)
            else queue_at t s.offsets.inner)
    unfolding add
    offsets-add t =
        rw (h.topics_live, h.offsets_live)
          (simp (queue_at-insert, queue_at-or_insert, push_offsets-rows_from))

    add_agree :
        (t : Str) (b : Bool)
        → (if b
            then queue_at topic s.offsets.inner
              ++ rows_from (length (queue_at topic s.topics.inner)) 0 (weight r)
            else queue_at t s.offsets.inner)
          ≡ offsets_from 0
              (if b then queue_at topic s.topics.inner ++ r ∷ [] else queue_at t s.topics.inner)
    add_agree t true =
        rw (h.agree topic)
          (sym (rw zero-add at (offsets_from-snoc 0 (queue_at topic s.topics.inner) r)))
    add_agree t false = h.agree t

    -- `add` keeps every topic's index in step with its records: one offset for a raw record and one
    -- for each row of a batch, in order. The locks are not poisoned before, nor afterwards.
    pub add-IsIndexed : IsIndexed (add arrow topic r s).1
    unfolding add
    add-IsIndexed = record {
      topics_live = rw (h.topics_live, h.offsets_live) refl;
      offsets_live = rw (h.topics_live, h.offsets_live) refl;
      agree = λ t. offsets-add t ∙ add_agree t (bytes_eq.beq topic t) ∙ rw (topics-add t);
    }

  pub new-IsIndexed : IsIndexed new
  unfolding lookup
  new-IsIndexed = record { topics_live = refl; offsets_live = refl; agree = λ t. refl }

-- A backend that is indexed takes every record.
pub log-StorageLaws :
    {Schema Batch Fault : Type 0} (arrow : Arrow Schema Batch Fault)
    → StorageLaws (log_storage arrow) (IsIndexed arrow)
log-StorageLaws arrow = record { add_ok = add_ok arrow; add-IsHealthy = add-IsIndexed arrow }
