-- ===== src/TopicManager/Replay.antt =====
-- src/topic_manager.rs: `recover` on a file of whole entries replays them, in order.
use herbert.Prelude.{
  ℕ, zero, suc, ◌^◌, ◌<◌, ◌≡◌, refl, sym, ap, ◌∙◌, append_assoc, append-nil, false, some, List, [],
  ◌∷◌, ◌++◌, inl, inr, arith, if◌then◌else◌, length, length-append, bytes_eq, Bytes, Str,
  Bool-cases, as_u32, u32_le,
}
use herbert.HashMap.{HashMap, contains_key, insert}
use herbert.Outcome.{ok}
use herbert.Arrow.{Arrow, ArrowLaws}
use herbert.Storage.Record.{StoredRecord, raw, batch, RecordStorage, StorageLaws, add_all}
use herbert.Wal.Serialize.{framed}
use herbert.TopicManager.Operations.{TopicManager, TopicMetadata, new_metadata, exists, create}
use herbert.TopicManager.Recovery.{
  add_to_backend, create_unless, restore_first, restore, read_until, recover_loop, recover,
}
use herbert.TopicManager.RoundTrip.{IsTopic, framed-append, read_exact-append, recover_loop-framed}

length-framed :
    (topic : Str) (indicator : ℕ) (payload rest : Bytes)
    → length rest < length (framed topic indicator payload ++ rest)
unfolding framed
length-framed topic indicator payload rest = omega (
  arith,
  ap length (framed-append topic indicator payload rest),
  length-append topic (b'\n' ∷ indicator ∷ (u32_le (as_u32 (length payload)) ++ (payload ++ rest))),
  length-append (u32_le (as_u32 (length payload))) (payload ++ rest),
  length-append payload rest,
)

module _ {Schema Batch Fault : Type 0} (arrow : Arrow Schema Batch Fault) where
  -- `bytes` is the file that the entries of `es` make, each of which the format can carry.
  pub data Logged : List (Str × StoredRecord Batch) → Bytes → Type 0 where
    nothing : Logged [] []
    raw_entry :
        {es : List (Str × StoredRecord Batch)} {rest : Bytes} (topic : Str) (payload : Bytes)
        → IsTopic topic
        → length payload < 2 ^ 32
        → Logged es rest
        → Logged ((topic, raw payload) ∷ es) (framed topic 0 payload ++ rest)
    batch_entry :
        {es : List (Str × StoredRecord Batch)} {rest : Bytes} (topic : Str) (b : Batch)
        (out : Bytes)
        → IsTopic topic
        → arrow.write_stream (arrow.schema b) (b ∷ []) ≡ inr out
        → length out < 2 ^ 32
        → Logged es rest
        → Logged ((topic, batch b) ∷ es) (framed topic 1 out ++ rest)

  module _ {S : Type 0} (storage : RecordStorage Batch Fault S) where
    abbrev Manager : Type 0
    Manager = TopicManager Schema Batch S

    -- The schemas that are known after the entries: a batch of an unknown topic makes it known.
    abbrev pub learn :
        List (Str × StoredRecord Batch)
        → HashMap Str (TopicMetadata Schema)
        → HashMap Str (TopicMetadata Schema)
    learn [] m = m
    learn ((topic, raw _) ∷ es) m = learn es m
    learn ((topic, batch b) ∷ es) m = learn es (
        if contains_key topic m
        then m
        else insert topic (new_metadata topic (some (arrow.schema b))) m)

    abbrev pub replay : List (Str × StoredRecord Batch) → Manager → Manager
    replay es tm = record tm {
      backend = add_all storage es tm.backend;
      topic_metadatas = record tm.topic_metadatas { inner = learn es tm.topic_metadatas.inner };
    }

    module _ {Row : Type 0} (laws : ArrowLaws arrow Row) {IsHealthy : S → Type 0}
        (storage_laws : StorageLaws storage IsHealthy) where
      restore_raw :
          (topic : Str) (payload rest : Bytes) (tm : Manager)
          → IsHealthy tm.backend
          → restore arrow storage topic 0 (length payload) (payload ++ rest) tm
            ≡ (ok rest, replay ((topic, raw payload) ∷ []) tm)
      unfolding restore add_to_backend
      restore_raw topic payload rest tm h =
          rw (read_exact-append payload rest, storage_laws.add_ok topic (raw payload) tm.backend h)
            refl

      restore_first_lem :
          (topic : Str) (b : Batch) (tm : Manager)
          → tm.topic_metadatas.poisoned ≡ false
          → IsHealthy tm.backend
          → restore_first arrow storage topic (inr b ∷ []) tm
            ≡ (ok tt, replay ((topic, batch b) ∷ []) tm)
      unfolding restore_first exists create create_unless add_to_backend
      restore_first_lem topic b tm live h =
          elim (Bool-cases (contains_key topic tm.topic_metadatas.inner)) [
            | inl known ↦ simp (live, known, storage_laws.add_ok topic (batch b) tm.backend h) (cc)
            | inr unknown ↦
                simp (live, unknown, storage_laws.add_ok topic (batch b) tm.backend h) (cc)
          ]

      restore_batch :
          (topic : Str) (b : Batch) (out rest : Bytes) (tm : Manager)
          → arrow.write_stream (arrow.schema b) (b ∷ []) ≡ inr out
          → tm.topic_metadatas.poisoned ≡ false
          → IsHealthy tm.backend
          → restore arrow storage topic 1 (length out) (out ++ rest) tm
            ≡ (ok rest, replay ((topic, batch b) ∷ []) tm)
      unfolding restore
      restore_batch topic b out rest tm written live h =
          rw
            (
              read_exact-append out rest,
              laws.read-write (arrow.schema b) (b ∷ []) out (refl, tt) written,
              restore_first_lem topic b tm live h,
            )
            refl

      recover_loop-nil :
          (fuel : ℕ) (tm : Manager) → recover_loop arrow storage (suc fuel) [] tm ≡ (ok tt, tm)
      unfolding recover_loop read_until
      recover_loop-nil fuel tm = refl

      -- The entries in front of any other bytes are replayed, and the loop goes on behind them.
      pub recover_loop-Logged :
          (fuel : ℕ) (tm : Manager) {es : List (Str × StoredRecord Batch)} {bytes : Bytes}
          (rest : Bytes)
          → Logged es bytes
          → length (bytes ++ rest) < fuel
          → tm.topic_metadatas.poisoned ≡ false
          → IsHealthy tm.backend
          → (left : ℕ) × (length rest < left)
            × (recover_loop arrow storage fuel (bytes ++ rest) tm
                ≡ recover_loop arrow storage left rest (replay es tm))
      recover_loop-Logged zero tm rest l few live h = absurd (omega arith)
      recover_loop-Logged (suc fuel) tm rest nothing few live h = (suc fuel, few, refl)
      recover_loop-Logged (suc fuel) tm rest (raw_entry {es} {rest = bytes} topic payload t small l)
            few live h =
          let (left, enough, e) =
            recover_loop-Logged fuel (replay ((topic, raw payload) ∷ []) tm) rest l
              (omega (
                arith,
                length-framed topic 0 payload (bytes ++ rest),
                ap length (append_assoc (framed topic 0 payload) bytes rest),
              ))
              live (storage_laws.add-IsHealthy topic (raw payload) tm.backend h) in
          (
            left,
            enough,
            rw (append_assoc (framed topic 0 payload) bytes rest) (
                recover_loop-framed arrow storage fuel topic 0 payload (bytes ++ rest) tm t small
                ∙ rw (restore_raw topic payload (bytes ++ rest) tm h) e),
          )
      recover_loop-Logged (suc fuel) tm rest
            (batch_entry {es} {rest = bytes} topic b out t w small l) few live h =
          let (left, enough, e) =
            recover_loop-Logged fuel (replay ((topic, batch b) ∷ []) tm) rest l
              (omega (
                arith,
                length-framed topic 1 out (bytes ++ rest),
                ap length (append_assoc (framed topic 1 out) bytes rest),
              ))
              live (storage_laws.add-IsHealthy topic (batch b) tm.backend h) in
          (
            left,
            enough,
            rw (append_assoc (framed topic 1 out) bytes rest) (
                recover_loop-framed arrow storage fuel topic 1 out (bytes ++ rest) tm t small
                ∙ rw (restore_batch topic b out (bytes ++ rest) tm w live h) e),
          )

      recover_loop-all :
          (fuel : ℕ) (tm : Manager) {es : List (Str × StoredRecord Batch)} {bytes : Bytes}
          → Logged es bytes
          → length bytes < fuel
          → tm.topic_metadatas.poisoned ≡ false
          → IsHealthy tm.backend
          → recover_loop arrow storage fuel bytes tm ≡ (ok tt, replay es tm)
      recover_loop-all fuel tm {es} {bytes} l few live h =
          let (left, enough, e) =
            recover_loop-Logged fuel tm [] l (omega (arith, length-append bytes [])) live h in
          ap (λ bytes. recover_loop arrow storage fuel bytes tm) (sym (append-nil bytes))
          ∙ e
          ∙ empty left enough
        where
          empty :
              (left : ℕ)
              → 0 < left
              → recover_loop arrow storage left [] (replay es tm) ≡ (ok tt, replay es tm)
          empty zero enough = absurd (omega (arith, enough))
          empty (suc left) enough = recover_loop-nil left (replay es tm)

      -- `recover` on a file of whole entries succeeds: the backend has been given each record in
      -- the order of the file, and each topic with a batch is known, with the schema that it had
      -- before or else that of its first batch. Nothing else of the manager changes. The locks are
      -- not poisoned, and the backend takes every record.
      pub recover-replay :
          {es : List (Str × StoredRecord Batch)} (bytes : Bytes) (tm : Manager)
          → Logged es bytes
          → tm.wal.file.poisoned ≡ false
          → tm.topic_metadatas.poisoned ≡ false
          → IsHealthy tm.backend
          → recover arrow storage (some bytes) tm ≡ (ok tt, replay es tm)
      unfolding recover
      recover-replay bytes tm l file_live live h =
          simp file_live (recover_loop-all (suc (length bytes)) tm l (omega arith) live h)
