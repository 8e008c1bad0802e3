-- ===== src/Storage/Record.antt =====
-- src/storage/mod.rs: `StoredRecord`, and the trait `RecordStorage` as a record of operations.
use herbert.Prelude.{◌≡◌, refl, List, [], ◌∷◌, ◌++◌, Bytes, Str}
use herbert.Prelude.Int.{ℤ}
use herbert.Outcome.{Method, ok}
use herbert.Outcome.Ends.{Any, Ends}

pub data StoredRecord (Batch : Type 0) : Type 0 where
  raw : Bytes → StoredRecord Batch
  batch : Batch → StoredRecord Batch

pub record RecordStorage (Batch Fault S : Type 0) : Type 0 where
  pub add : Str → StoredRecord Batch → Method Fault S Unit
  pub fetch : Str → ℤ → Method Fault S Bytes

-- What the write-ahead log relies on: a backend in a good state takes every record, and stays so.
pub record StorageLaws {Batch Fault S : Type 0} (storage : RecordStorage Batch Fault S)
    (IsHealthy : S → Type 0) : Type 0 where
  pub add_ok :
      (topic : Str) (r : StoredRecord Batch) (s : S)
      → IsHealthy s
      → (storage.add topic r s).0 ≡ ok tt
  pub add-IsHealthy :
      (topic : Str) (r : StoredRecord Batch) (s : S)
      → IsHealthy s
      → IsHealthy (storage.add topic r s).1

-- What a backend in a good state holds, seen by `contents`, is all that `add` depends on, and `fetch`
-- keeps it and the good state.
pub record ContentsLaws {Batch Fault S C : Type 0} (storage : RecordStorage Batch Fault S)
    (IsHealthy : S → Type 0) (contents : S → C) : Type 0 where
  pub add_same :
      (topic : Str) (r : StoredRecord Batch) (s t : S)
      → IsHealthy s
      → IsHealthy t
      → contents s ≡ contents t
      → contents (storage.add topic r s).1 ≡ contents (storage.add topic r t).1
  pub fetch-IsHealthy :
      (topic : Str) (offset : ℤ) (s : S) → IsHealthy s → IsHealthy (storage.fetch topic offset s).1
  pub fetch_same :
      (topic : Str) (offset : ℤ) (s : S)
      → IsHealthy s
      → contents (storage.fetch topic offset s).1 ≡ contents s

-- A backend whose operations end.
pub record AlwaysEnds {Batch Fault S : Type 0} (storage : RecordStorage Batch Fault S)
    : Type 0 where
  pub add_ends : (topic : Str) (r : StoredRecord Batch) (s : S) → Ends Any (storage.add topic r s).0
  pub fetch_ends : (topic : Str) (offset : ℤ) (s : S) → Ends Any (storage.fetch topic offset s).0

module _ {Batch Fault S : Type 0} (storage : RecordStorage Batch Fault S) where
  -- The backend after it was given the records in order.
  abbrev pub add_all : List (Str × StoredRecord Batch) → S → S
  add_all [] s = s
  add_all ((topic, r) ∷ es) s = add_all es (storage.add topic r s).1

  pub add_all-append :
      (es fs : List (Str × StoredRecord Batch)) (s : S)
      → add_all (es ++ fs) s ≡ add_all fs (add_all es s)
  add_all-append [] fs s = refl
  add_all-append ((topic, r) ∷ es) fs s = add_all-append es fs (storage.add topic r s).1

  pub add_all-IsHealthy :
      {IsHealthy : S → Type 0}
      → StorageLaws storage IsHealthy
      → (es : List (Str × StoredRecord Batch)) (s : S) → IsHealthy s
      → IsHealthy (add_all es s)
  add_all-IsHealthy laws [] s h = h
  add_all-IsHealthy laws ((topic, r) ∷ es) s h =
      add_all-IsHealthy laws es (storage.add topic r s).1 (laws.add-IsHealthy topic r s h)

  pub add_all_same :
      {IsHealthy : S → Type 0} {C : Type 0} (contents : S → C)
      → StorageLaws storage IsHealthy
      → ContentsLaws storage IsHealthy contents
      → (es : List (Str × StoredRecord Batch)) (s t : S) → IsHealthy s
      → IsHealthy t
      → contents s ≡ contents t
      → contents (add_all es s) ≡ contents (add_all es t)
  add_all_same contents laws same [] s t hs ht e = e
  add_all_same contents laws same ((topic, r) ∷ es) s t hs ht e =
      add_all_same contents laws same es (storage.add topic r s).1 (storage.add topic r t).1
        (laws.add-IsHealthy topic r s hs) (laws.add-IsHealthy topic r t ht)
        (same.add_same topic r s t hs ht e)
