-- ===== src/TopicManager/Torn.antt =====
-- src/topic_manager.rs: `recover` on a file whose last entry was not written to its end.
use herbert.Prelude.{
  ℕ, zero, suc, ◌^◌, ◌<◌, ◌≡◌, ◌≢◌, refl, ◌∙◌, true, false, some, List, [], ◌∷◌, ◌++◌, ◌⊎◌, inl,
  inr, arith, ltb, ◌==◌, length, length-append, bytes_eq, Bytes, Str, Bool-cases, as_u32, u32_le,
  without_last, without_last-snoc,
}
use herbert.Outcome.{HerbertError, Outcome, err, io, unexpected_eof, from_utf8 as from_utf8_error}
use herbert.Arrow.{Arrow, ArrowLaws}
use herbert.Utf8.{is_utf8, from_utf8}
use herbert.Storage.Record.{StoredRecord, RecordStorage, StorageLaws}
use herbert.Wal.Serialize.{framed}
use herbert.TopicManager.Operations.{TopicManager}
use herbert.TopicManager.Recovery.{
  restore, read_until, read_u8, read_u32, read_exact, read_header, recover_loop, recover,
}
use herbert.TopicManager.RoundTrip.{IsTopic, read_until-line, read_header-u32_le}
use herbert.TopicManager.Replay.{Logged, replay, recover_loop-Logged}
use herbert.TopicManager.Cuts.{
  IsLine, Cut, in_topic, at_indicator, in_size, in_payload, tail-Cut, begins,
}

module _ {Fault : Type 0} where
  -- The errors of an entry that is cut.
  abbrev IsTorn : HerbertError Fault → Type 0
  IsTorn e = (e ≡ io unexpected_eof) ⊎ (e ≡ from_utf8_error)

  abbrev Stops : {A : Type 0} → Outcome Fault A → Type 0
  Stops r = (e : HerbertError Fault) × (r ≡ err e) × IsTorn e

  read_header-nil : (contents : Bytes) → Stops (read_header {Fault = Fault} contents [])
  unfolding read_header read_u8 from_utf8
  read_header-nil contents = elim (Bool-cases (is_utf8 (without_last contents))) [
    | inl text ↦ (io unexpected_eof, rw (read_header, from_utf8, text) refl, inl refl)
    | inr other ↦ (from_utf8_error, rw (read_header, from_utf8, other) refl, inr refl)
  ]

  read_u32-short : (s : Bytes) → length s < 4 → read_u32 {Fault = Fault} s ≡ err (io unexpected_eof)
  unfolding read_u32
  read_u32-short [] few = refl
  read_u32-short (a ∷ []) few = refl
  read_u32-short (a ∷ b ∷ []) few = refl
  read_u32-short (a ∷ b ∷ c ∷ []) few = refl
  read_u32-short (a ∷ b ∷ c ∷ d ∷ s) few = absurd (omega arith)

  read_header-short :
      (topic : Str) (i : ℕ) (s : Bytes)
      → is_utf8 topic ≡ true
      → length s < 4
      → read_header {Fault = Fault} (topic ++ b'\n' ∷ []) (i ∷ s) ≡ err (io unexpected_eof)
  unfolding read_header from_utf8 read_u8
  read_header-short topic i s text few =
      rw
        (read_header, without_last-snoc topic b'\n', from_utf8, text, read_u8, read_u32-short s few)
        refl

read_until-IsLine : (s : Bytes) → IsLine s → read_until b'\n' s ≡ (s, [])
unfolding read_until
read_until-IsLine [] h = refl
read_until-IsLine (c ∷ cs) h = rw (h.0, read_until-IsLine cs h.1) refl

module _ {Schema Batch Fault S : Type 0} (arrow : Arrow Schema Batch Fault)
    (storage : RecordStorage Batch Fault S) where
  abbrev Manager : Type 0
  Manager = TopicManager Schema Batch S

  -- The loop ends with an error of an entry that is cut, and leaves the manager.
  abbrev StopsAt : Manager → Outcome Fault Unit × Manager → Type 0
  StopsAt tm r = (e : HerbertError Fault) × (r ≡ (err e, tm)) × IsTorn e

  restore-short :
      (topic : Str) (indicator size : ℕ) (p : Bytes) (tm : Manager)
      → indicator < 2
      → length p < size
      → restore arrow storage topic indicator size p tm ≡ (err (io unexpected_eof), tm)
  unfolding restore read_exact
  restore-short topic zero size p tm known few =
      let short : ltb (length p) size ≡ true = ground (arith, few) in rw short refl
  restore-short topic (suc zero) size p tm known few =
      let short : ltb (length p) size ≡ true = ground (arith, few) in rw short refl
  restore-short topic (suc (suc i)) size p tm known few = absurd (omega arith)

  loop-Stops :
      (fuel : ℕ) (bytes contents behind : Bytes) (tm : Manager)
      → read_until b'\n' bytes ≡ (contents, behind)
      → 0 < length contents
      → Stops (read_header {Fault = Fault} contents behind)
      → StopsAt tm (recover_loop arrow storage (suc fuel) bytes tm)
  unfolding recover_loop
  loop-Stops fuel bytes contents behind tm e some_line (error, stops, torn) =
      let more : (length contents == 0) ≡ false = ground (arith, some_line) in
      (error, rw (recover_loop, e, more, stops) refl, torn)

  module _ (topic : Str) (indicator : ℕ) (payload : Bytes) (t : IsTopic topic)
      (known : indicator < 2) (small : length payload < 2 ^ 32) where
    loop-Cut :
        (fuel : ℕ) (torn : Bytes) (tm : Manager)
        → Cut topic indicator payload torn
        → StopsAt tm (recover_loop arrow storage (suc fuel) torn tm)
    unfolding recover_loop
    loop-Cut fuel _ tm (in_topic c cs l) =
        loop-Stops fuel (c ∷ cs) (c ∷ cs) [] tm (read_until-IsLine (c ∷ cs) l) (omega arith)
          (read_header-nil (c ∷ cs))
    loop-Cut fuel _ tm at_indicator =
        loop-Stops fuel (topic ++ b'\n' ∷ []) (topic ++ b'\n' ∷ []) [] tm
          (read_until-line topic [] t.one_line) (omega (arith, length-append topic (b'\n' ∷ [])))
          (read_header-nil (topic ++ b'\n' ∷ []))
    loop-Cut fuel _ tm (in_size i s few) =
        loop-Stops fuel (topic ++ b'\n' ∷ i ∷ s) (topic ++ b'\n' ∷ []) (i ∷ s) tm
          (read_until-line topic (i ∷ s) t.one_line)
          (omega (arith, length-append topic (b'\n' ∷ [])))
          (io unexpected_eof, read_header-short topic i s t.text few, inl refl)
    loop-Cut fuel _ tm (in_payload tail p e few) =
        let some_line : (length (topic ++ b'\n' ∷ []) == 0) ≡ false =
          ground (arith, length-append topic (b'\n' ∷ [])) in
        (
          io unexpected_eof,
          rw
              (
                e,
                recover_loop,
                read_until-line topic (indicator ∷ (u32_le (as_u32 (length payload)) ++ p))
                    t.one_line,
                some_line,
                read_header-u32_le topic indicator (length payload) p t small,
                restore-short topic indicator (length payload) p tm known few,
              )
              refl,
          inl refl,
        )

    -- A part of an entry that is neither nothing nor the whole stops the loop.
    loop-torn :
        (fuel : ℕ) (torn missing : Bytes) (m : ℕ) (tm : Manager)
        → torn ≢ []
        → torn ++ m ∷ missing ≡ framed topic indicator payload
        → StopsAt tm (recover_loop arrow storage (suc fuel) torn tm)
    unfolding framed
    loop-torn fuel [] missing m tm some_part e = absurd (some_part refl)
    loop-torn fuel (c ∷ cs) missing m tm some_part e =
        elim (begins topic (indicator ∷ (u32_le (as_u32 (length payload)) ++ payload)) missing m
          (c ∷ cs) t.one_line e) [
            | inl l ↦ loop-Cut fuel (c ∷ cs) tm (in_topic c cs l)
            | inr (part, torn_is, rest_is) ↦ rw torn_is (
                loop-Cut fuel (topic ++ b'\n' ∷ part) tm
                  (tail-Cut topic indicator payload part missing m rest_is))
          ]

    module _ {Row : Type 0} (laws : ArrowLaws arrow Row) {IsHealthy : S → Type 0}
        (storage_laws : StorageLaws storage IsHealthy) where
      -- Where the last entry of the file is not whole, behind any whole entries, `recover` fails
      -- with the end of the file or with a topic that is not UTF-8, after the whole entries have
      -- been replayed. The topic of the torn entry is UTF-8 on one line, its indicator 0 or 1 and
      -- its payload shorter than 2 ^ 32; the locks are not poisoned, and the backend takes every
      -- record.
      pub recover-torn :
          {es : List (Str × StoredRecord Batch)} (bytes torn missing : Bytes) (m : ℕ) (tm : Manager)
          → Logged arrow es bytes
          → torn ≢ []
          → torn ++ m ∷ missing ≡ framed topic indicator payload
          → tm.wal.file.poisoned ≡ false
          → tm.topic_metadatas.poisoned ≡ false
          → IsHealthy tm.backend
          → (e : HerbertError Fault) × (recover arrow storage (some (bytes ++ torn)) tm
              ≡ (err e, replay arrow storage es tm))
            × ((e ≡ io unexpected_eof) ⊎ (e ≡ from_utf8_error))
      unfolding recover
      recover-torn {es} bytes torn missing m tm l some_part e file_live live h =
          let (left, enough, goes_on) =
            recover_loop-Logged arrow storage laws storage_laws (suc (length (bytes ++ torn))) tm
              torn l (omega arith) live h in
          let (error, stops, is) = at_end left enough in
          (error, simp file_live (goes_on ∙ stops), is)
        where
          at_end :
              (left : ℕ)
              → length torn < left
              → StopsAt
                  (replay arrow storage es tm)
                  (recover_loop arrow storage left torn (replay arrow storage es tm))
          at_end zero enough = absurd (omega (arith, enough))
          at_end (suc left) enough =
              loop-torn left torn missing m (replay arrow storage es tm) some_part e
