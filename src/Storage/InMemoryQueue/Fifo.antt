-- ===== src/Storage/InMemoryQueue/Fifo.antt =====
-- src/storage/in_memory_queue.rs: the queue hands every record out once, in the order of arrival.
use herbert.Prelude.{
  ℕ, suc, ◌≡◌, refl, ap, ◌∙◌, false, inr, List, [], ◌∷◌, ◌++◌, append-nil, append_assoc, arith,
  if◌then◌else◌, length, length-append, without_last-snoc, get_last?-snoc, bytes_eq, Bytes, Str,
}
use herbert.Prelude.Int.{ℤ}
use herbert.HashMap.{queue_at, queue_at-insert, queue_at-or_insert}
use herbert.Outcome.{ok}
use herbert.Arrow.{Arrow}
use herbert.Storage.Record.{StoredRecord, raw, batch, StorageLaws}
use herbert.Storage.InMemoryQueue.{
  InMemoryQueue, add, record_bytes, separator, drain, fetch, queue_storage,
}
use herbert.Storage.InMemoryLog.RawTopic.{join}

-- The queue that holds `rs`, the oldest first: its back is the oldest.
abbrev pub queue_of {ℓ} : {A : Type ℓ} → List A → List A
queue_of [] = []
queue_of (r ∷ rs) = queue_of rs ++ r ∷ []

pub queue_of-snoc {ℓ} :
    {A : Type ℓ} (rs : List A) (r : A) → queue_of (rs ++ r ∷ []) ≡ r ∷ queue_of rs
queue_of-snoc [] r = refl
queue_of-snoc (x ∷ rs) r = ap (λ q. q ++ x ∷ []) (queue_of-snoc rs r)

length-queue_of {ℓ} : {A : Type ℓ} (rs : List A) → length (queue_of rs) ≡ length rs
length-queue_of [] = refl
length-queue_of (r ∷ rs) = omega (arith, length-append (queue_of rs) (r ∷ []), length-queue_of rs)

module _ {Schema Batch Fault : Type 0} (arrow : Arrow Schema Batch Fault) where
  -- No lock is poisoned.
  pub record IsLive (s : InMemoryQueue Batch) : Type 0 where
    pub topics_live : s.topics.poisoned ≡ false

  module _ (topic : Str) (r : StoredRecord Batch) (s : InMemoryQueue Batch) (h : IsLive s) where
    pub add_ok : (add arrow topic r s).0 ≡ ok tt
    unfolding add
    add_ok = rw h.topics_live

    pub add-IsLive : IsLive (add arrow topic r s).1
    unfolding add
    add-IsLive = record { topics_live = rw h.topics_live refl }

    -- `add` puts the record at the front of its topic's queue, and touches no other topic.
    pub queue_at-add :
        (t : Str)
        → queue_at t (add arrow topic r s).1.topics.inner ≡ (
            if bytes_eq.beq topic t
            then r ∷ queue_at topic s.topics.inner
            else queue_at t s.topics.inner)
    unfolding add
    queue_at-add t = rw h.topics_live (simp (queue_at-insert, queue_at-or_insert))

  pub queue-StorageLaws : StorageLaws (queue_storage arrow) IsLive
  queue-StorageLaws = record { add_ok = add_ok; add-IsHealthy = add-IsLive }

  -- A raw record is its own payload, and a batch encodes to a stream of it alone.
  abbrev pub IsPayload : StoredRecord Batch → Bytes → Type 0
  IsPayload (raw bytes) p = bytes ≡ p
  IsPayload (batch b) p = arrow.write_stream (arrow.schema b) (b ∷ []) ≡ inr p

  record_bytes-IsPayload :
      (r : StoredRecord Batch) (p : Bytes) → IsPayload r p → record_bytes arrow r ≡ ok p
  unfolding record_bytes
  record_bytes-IsPayload (raw bytes) p h = ap ok h
  record_bytes-IsPayload (batch b) p h = rw h refl

  -- The records encode to these payloads.
  abbrev pub Encodes : List (StoredRecord Batch) → List Bytes → Type 0
  Encodes [] [] = Unit
  Encodes (r ∷ rs) (p ∷ ps) = IsPayload r p × Encodes rs ps
  Encodes _ _ = ⊥

  -- A step of the loop takes the oldest record, whatever stands before it.
  drain-snoc :
      (fuel : ℕ) (queue : List (StoredRecord Batch)) (r : StoredRecord Batch) (records p : Bytes)
      → record_bytes arrow r ≡ ok p
      → drain arrow (suc fuel) (queue ++ r ∷ []) records
        ≡ drain arrow fuel queue (records ++ (p ++ separator arrow queue))
  unfolding drain
  drain-snoc fuel [] r records p e = rw (e, drain) refl
  drain-snoc fuel (x ∷ queue) r records p e =
      rw (get_last?-snoc (x ∷ queue) r, e, without_last-snoc (x ∷ queue) r, drain) refl

  separator-snoc :
      (queue : List (StoredRecord Batch)) (r : StoredRecord Batch)
      → separator arrow (queue ++ r ∷ []) ≡ 0 ∷ []
  separator-snoc [] r = refl
  separator-snoc (x ∷ queue) r = refl

  drain_lem :
      (rs : List (StoredRecord Batch)) (ps : List Bytes) (records : Bytes)
      → Encodes rs ps
      → drain arrow (length rs) (queue_of rs) records ≡ (ok (records ++ join ps), [])
  unfolding drain
  drain_lem [] [] records h = rw append-nil refl
  drain_lem [] (p ∷ ps) records h = absurd h
  drain_lem (r ∷ rs) [] records h = absurd h
  drain_lem (r ∷ []) (p ∷ []) records h =
      drain-snoc 0 [] r records p (record_bytes-IsPayload r p h.0) ∙ simp append-nil
  drain_lem (r ∷ []) (p ∷ q ∷ ps) records h = absurd h.1
  drain_lem (r ∷ x ∷ rs) (p ∷ []) records h = absurd h.1
  drain_lem (r ∷ x ∷ rs) (p ∷ q ∷ ps) records h =
      drain-snoc (length (x ∷ rs)) (queue_of (x ∷ rs)) r records p (record_bytes-IsPayload r p h.0)
      ∙ rw (separator-snoc (queue_of rs) x)
          (drain_lem (x ∷ rs) (q ∷ ps) (records ++ (p ++ 0 ∷ [])) h.1 ∙ simp append_assoc)

  module _ (topic : Str) (offset : ℤ) (s : InMemoryQueue Batch) (h : IsLive s) where
    abbrev held : List (StoredRecord Batch)
    held = queue_at topic s.topics.inner

    -- `fetch` in terms of its loop.
    fetch-drain :
        ((fetch arrow topic offset s).0 ≡ (drain arrow (length held) held []).0)
        × ((t : Str)
            → queue_at t (fetch arrow topic offset s).1.topics.inner ≡ (
                if bytes_eq.beq topic t
                then (drain arrow (length held) held []).1
                else queue_at t s.topics.inner))
    unfolding fetch
    fetch-drain = (
      rw (h.topics_live, queue_at-or_insert) refl,
      λ t. rw h.topics_live (simp (queue_at-insert, queue_at-or_insert)),
    )

    -- A `fetch` answers with all records of the topic, the oldest first, with a zero byte between
    -- each two, leaves the topic empty, and touches no other topic. It ignores the offset.
    -- The lock is not poisoned, and each record encodes.
    pub fetch_drains :
        (rs : List (StoredRecord Batch)) (ps : List Bytes)
        → held ≡ queue_of rs
        → Encodes rs ps
        → ((fetch arrow topic offset s).0 ≡ ok (join ps))
          × ((t : Str)
              → queue_at t (fetch arrow topic offset s).1.topics.inner
                ≡ (if bytes_eq.beq topic t then [] else queue_at t s.topics.inner))
    fetch_drains rs ps e enc =
        let run : drain arrow (length held) held [] ≡ (ok (join ps), []) =
          rw (e, length-queue_of rs) (drain_lem rs ps [] enc) in
        (fetch-drain.0 ∙ ap (λ d. d.0) run, λ t. rw run at (fetch-drain.1 t))
