-- ===== src/TopicManager/Ends.antt =====
-- src/topic_manager.rs: `recover` ends on every file, whole or torn.
use herbert.Prelude.{
  ℕ, zero, suc, ◌+◌, ◌<◌, ◌≤◌, ◌≡◌, Bool, true, false, Option, none, some, ◌⊎◌, inl, inr, List, [],
  ◌∷◌, arith, ltb, ◌==◌, length, length-drop, without_last, bytes_eq, Bytes, Str, Bool-cases,
}
use herbert.HashMap.{contains_key}
use herbert.Outcome.Ends.{Any, Ends, Ends-then, Ends-and_then}
use herbert.Arrow.{Arrow, from_arrow, from_arrow-Ends}
use herbert.Utf8.{from_utf8, is_utf8}
use herbert.Storage.Record.{StoredRecord, raw, batch, RecordStorage}
use herbert.TopicManager.Operations.{TopicManager, exists, create}
use herbert.TopicManager.Recovery.{
  read_until, read_u8, read_u32, read_exact, read_header, add_to_backend, create_unless,
  restore_first, restore, recover_loop, recover,
}

-- What is left behind a line is shorter, unless nothing was read.
read_until-shorter :
    (bytes : Bytes)
    → length (read_until b'\n' bytes).0 + length (read_until b'\n' bytes).1 ≡ length bytes
unfolding read_until
read_until-shorter [] = omega arith
read_until-shorter (c ∷ cs) = elim (Bool-cases (c == b'\n')) [
  | inl e ↦ rw e (omega arith)
  | inr e ↦ rw e (omega (arith, read_until-shorter cs))
]

module _ (Fault : Type 0) where
  read_u8-Ends :
      (bytes : Bytes) → Ends {Fault = Fault} (λ r. length r.1 ≤ length bytes) (read_u8 bytes)
  unfolding read_u8
  read_u8-Ends [] = tt
  read_u8-Ends (b ∷ rest) = omega arith

  read_u32-Ends :
      (bytes : Bytes) → Ends {Fault = Fault} (λ r. length r.1 ≤ length bytes) (read_u32 bytes)
  unfolding read_u32
  read_u32-Ends [] = tt
  read_u32-Ends (a ∷ []) = tt
  read_u32-Ends (a ∷ b ∷ []) = tt
  read_u32-Ends (a ∷ b ∷ c ∷ []) = tt
  read_u32-Ends (a ∷ b ∷ c ∷ d ∷ rest) = omega arith

  read_exact-Ends :
      (size : ℕ) (bytes : Bytes)
      → Ends {Fault = Fault} (λ r. length r.1 ≤ length bytes) (read_exact size bytes)
  unfolding read_exact
  read_exact-Ends size bytes = elim (Bool-cases (ltb (length bytes) size)) [
    | inl e ↦ rw e tt
    | inr e ↦ rw e (omega (arith, length-drop size bytes))
  ]

  from_utf8-Ends : (s : Bytes) → Ends {Fault = Fault} (λ t. Unit) (from_utf8 s)
  unfolding from_utf8
  from_utf8-Ends s = elim (Bool-cases (is_utf8 s)) [ inl e ↦ rw e tt | inr e ↦ rw e tt ]

  read_header-Ends :
      (contents bytes : Bytes)
      → Ends {Fault = Fault} (λ h. length h.rest ≤ length bytes) (read_header contents bytes)
  unfolding read_header
  read_header-Ends contents bytes =
      Ends-then (λ t. Unit) _ (from_utf8 (without_last contents)) _ (from_utf8-Ends _)
        λ t _.
          Ends-then (λ r. length r.1 ≤ length bytes) _ (read_u8 bytes) _ (read_u8-Ends bytes)
            λ r shorter.
              Ends-then (λ q. length q.1 ≤ length r.1) _ (read_u32 r.1) _ (read_u32-Ends r.1)
                λ q less. omega arith

module _ {Schema Batch Fault S : Type 0} (arrow : Arrow Schema Batch Fault)
    (storage : RecordStorage Batch Fault S) where
  abbrev pub Manager : Type 0
  Manager = TopicManager Schema Batch S

  -- A backend whose `add` ends.
  abbrev pub AddEnds : Type 0
  AddEnds = (topic : Str) (r : StoredRecord Batch) (s : S) → Ends Any (storage.add topic r s).0

  exists-Ends : (topic : Str) (tm : Manager) → Ends {Fault = Fault} Any (exists topic tm)
  unfolding exists
  exists-Ends topic tm = elim (Bool-cases tm.topic_metadatas.poisoned) [
    | inl e ↦ rw e tt
    | inr e ↦ rw e tt
  ]

  pub create-Ends :
      (topic : Str) (schema : Option Schema) (tm : Manager)
      → Ends {Fault = Fault} Any (create topic schema tm).0
  unfolding create
  create-Ends topic schema tm = elim (Bool-cases tm.topic_metadatas.poisoned) [
    | inl e ↦ rw e tt
    | inr e ↦ elim (Bool-cases (contains_key topic tm.topic_metadatas.inner)) [
      | inl known ↦ rw (e, known) tt
      | inr unknown ↦ rw (e, unknown) tt
    ]
  ]

  create_unless-Ends :
      (known : Bool) (topic : Str) (schema : Schema) (tm : Manager)
      → Ends Any (create_unless arrow storage known topic schema tm).0
  unfolding create_unless
  create_unless-Ends true topic schema tm = tt
  create_unless-Ends false topic schema tm = create-Ends topic (some schema) tm

  module _ (ends : AddEnds) where
    add_to_backend-Ends :
        (topic : Str) (r : StoredRecord Batch) (tm : Manager)
        → Ends Any (add_to_backend arrow storage topic r tm).0
    unfolding add_to_backend
    add_to_backend-Ends topic r tm = ends topic r tm.backend

    restore_first-Ends :
        (topic : Str) (items : List (Fault ⊎ Batch)) (tm : Manager)
        → Ends Any (restore_first arrow storage topic items tm).0
    unfolding restore_first
    restore_first-Ends topic [] tm = tt
    restore_first-Ends topic (item ∷ items) tm =
        Ends-and_then Any Any (from_arrow item, tm) _ (from_arrow-Ends item)
          λ b tm1 _.
            Ends-and_then Any Any (exists topic tm1, tm1) _ (exists-Ends topic tm1)
              λ known tm2 _.
                Ends-and_then Any Any (create_unless arrow storage known topic (arrow.schema b) tm2)
                  _ (create_unless-Ends known topic (arrow.schema b) tm2)
                  λ _ tm3 _. add_to_backend-Ends topic (batch b) tm3

    restore-Ends :
        (topic : Str) (indicator size : ℕ) (bytes : Bytes) (tm : Manager)
        → Ends
            (λ rest. length rest ≤ length bytes)
            (restore arrow storage topic indicator size bytes tm).0
    unfolding restore
    restore-Ends topic indicator size bytes tm = elim (Bool-cases (indicator == 0)) [
      | inl zero_is ↦ rw zero_is (
          Ends-and_then (λ r. length r.1 ≤ length bytes) _ (read_exact size bytes, tm) _
            (read_exact-Ends Fault size bytes)
            λ r tm1 shorter.
              Ends-and_then Any _ (add_to_backend arrow storage topic (raw r.0) tm1) _
                (add_to_backend-Ends topic (raw r.0) tm1) λ _ tm2 _. shorter)
      | inr not_zero ↦ elim (Bool-cases (indicator == 1)) [
        | inl one ↦
            rw (not_zero, one)
              (Ends-and_then (λ r. length r.1 ≤ length bytes) _ (read_exact size bytes, tm) _
                (read_exact-Ends Fault size bytes)
                λ r tm1 shorter.
                  Ends-and_then Any _ (from_arrow (arrow.read_stream r.0), tm1) _
                    (from_arrow-Ends (arrow.read_stream r.0))
                    λ items tm2 _.
                      Ends-and_then Any _ (restore_first arrow storage topic items tm2) _
                        (restore_first-Ends topic items tm2) λ _ tm3 _. shorter)
        | inr not_one ↦ rw (not_zero, not_one) tt
      ]
    ]

    recover_loop-Ends :
        (fuel : ℕ) (bytes : Bytes) (tm : Manager)
        → length bytes < fuel
        → Ends Any (recover_loop arrow storage fuel bytes tm).0
    unfolding recover_loop
    recover_loop-Ends zero bytes tm few = absurd (omega arith)
    recover_loop-Ends (suc fuel) bytes tm few =
        let line = read_until b'\n' bytes in
        elim (Bool-cases (length line.0 == 0)) [
          | inl finished ↦ rw finished tt
          | inr more ↦
              let shorter : length line.1 < length bytes =
                ground (arith, more, read_until-shorter bytes) in
              rw more (
                Ends-and_then (λ h. length h.rest ≤ length line.1) Any
                  (read_header line.0 line.1, tm) _ (read_header-Ends Fault line.0 line.1)
                  λ h tm1 less.
                    Ends-and_then (λ rest. length rest ≤ length h.rest) Any
                      (restore arrow storage h.topic h.indicator h.size h.rest tm1) _
                      (restore-Ends h.topic h.indicator h.size h.rest tm1)
                      λ rest tm2 least. recover_loop-Ends fuel rest tm2 (omega arith))
        ]

    -- `recover` ends on every file, whole, torn or of any other bytes: with a value, an error or a
    -- panic, and never for want of fuel. The `add` of the backend must end.
    pub recover-Ends :
        (file : Option Bytes) (tm : Manager) → Ends Any (recover arrow storage file tm).0
    unfolding recover
    recover-Ends none tm = elim (Bool-cases tm.wal.file.poisoned) [
      | inl e ↦ rw e tt
      | inr e ↦ rw e tt
    ]
    recover-Ends (some bytes) tm = elim (Bool-cases tm.wal.file.poisoned) [
      | inl e ↦ rw e tt
      | inr e ↦ simp e (recover_loop-Ends (suc (length bytes)) bytes tm (omega arith))
    ]
