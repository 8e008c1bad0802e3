-- ===== src/Arrow.antt =====
-- What the program uses of the arrow crates: an interface, and the documented laws of it.
use herbert.Prelude.{
  ℕ, ◌+◌, ◌≤◌, ◌≡◌, Bool, true, ◌↔◌, ◌⊎◌, inl, inr, List, [], ◌∷◌, map, All, length, take, drop,
  Bytes, Str,
}
use herbert.Outcome.{Outcome, ok, err, arrow_error}
use herbert.Outcome.Ends.{Ends}

pub record Arrow (Schema Batch Fault : Type 0) : Type 0 where
  -- `RecordBatch::schema`, `num_rows` and `slice(offset, length)`
  pub schema : Batch → Schema
  pub num_rows : Batch → ℕ
  pub slice : Batch → ℕ → ℕ → Batch
  -- `PartialEq` and `Debug` of `Schema`
  pub schema_beq : Schema → Schema → Bool
  pub schema_debug : Schema → Str
  -- `StreamWriter::try_new(&mut buffer, schema)?`, a `write` for each batch and `finish`: the
  -- buffer, or the first error.
  pub write_stream : Schema → List Batch → Fault ⊎ Bytes
  -- `StreamReader::try_new(Cursor::new(bytes), None)?`, and what the reader's `next` then yields.
  pub read_stream : Bytes → Fault ⊎ List (Fault ⊎ Batch)

-- The continuation marker, with which an encapsulated message begins.
abbrev pub continuation : Bytes
continuation = 0xff ∷ 0xff ∷ 0xff ∷ 0xff ∷ []

pub record ArrowLaws {Schema Batch Fault : Type 0} (arrow : Arrow Schema Batch Fault) (Row : Type 0)
    : Type 0 where
  pub rows : Batch → List Row
  pub length-rows : (b : Batch) → length (rows b) ≡ arrow.num_rows b
  pub rows-slice :
      (b : Batch) (offset len : ℕ)
      → offset + len ≤ arrow.num_rows b
      → rows (arrow.slice b offset len) ≡ take len (drop offset (rows b))
  pub schema-slice :
      (b : Batch) (offset len : ℕ) → arrow.schema (arrow.slice b offset len) ≡ arrow.schema b
  pub schema_beq_iff : (s t : Schema) → (arrow.schema_beq s t ≡ true) ↔ (s ≡ t)
  pub read-write :
      (s : Schema) (bs : List Batch) (out : Bytes)
      → All (λ b. arrow.schema b ≡ s) bs
      → arrow.write_stream s bs ≡ inr out
      → arrow.read_stream out ≡ inr (map inr bs)
  pub write_marker :
      (s : Schema) (bs : List Batch) (out : Bytes)
      → arrow.write_stream s bs ≡ inr out
      → (8 ≤ length out) × (take 4 out ≡ continuation)

-- `?` on an `ArrowError`
abbrev pub from_arrow : {Fault A : Type 0} → Fault ⊎ A → Outcome Fault A
from_arrow (inl fault) = err (arrow_error fault)
from_arrow (inr a) = ok a

pub from_arrow-Ends :
    {Fault A : Type 0} (x : Fault ⊎ A) → Ends {Fault = Fault} (λ a. Unit) (from_arrow x)
from_arrow-Ends (inl e) = tt
from_arrow-Ends (inr a) = tt
