-- ===== src/UnitTests.antt =====
-- The unit tests of src/, each as a function that ends as the test does: with `ok tt` where it passes,
-- and with an error or a panic where it fails.
pub mod Logs
pub mod Queues
pub mod Offsets
pub mod Wals
pub mod Managers
pub mod Producing
pub mod Fetching
pub mod Topics
pub mod Recovering
pub mod Committing
pub mod Serializing
use herbert.Prelude.{Bool, true, false, Option, none, some, List, [], ◌∷◌, bytes_beq, Bytes}
use herbert.Outcome.{Outcome, ok, err, panic, out_of_fuel}
use herbert.Storage.Record.{StoredRecord, raw, batch}

module _ {Fault : Type 0} where
  -- `assert!`
  abbrev pub assert : Bool → Outcome Fault Unit
  assert true = ok tt
  assert false = panic

  module _ {A : Type 0} where
    -- `unwrap` of a result and of an option.
    abbrev pub unwrap : Outcome Fault A → Outcome Fault A
    unwrap (ok a) = ok a
    unwrap (err _) = panic
    unwrap panic = panic
    unwrap out_of_fuel = out_of_fuel

    abbrev pub unwrap_some : Option A → Outcome Fault A
    unwrap_some none = panic
    unwrap_some (some a) = ok a

    abbrev pub is_err : Outcome Fault A → Bool
    is_err (err _) = true
    is_err _ = false

abbrev pub is_empty : {A : Type 0} → List A → Bool
is_empty [] = true
is_empty (_ ∷ _) = false

-- `*record == StoredRecord::Raw(bytes)`
abbrev pub is_raw : {Batch : Type 0} → Bytes → StoredRecord Batch → Bool
is_raw bytes (raw b) = bytes_beq bytes b
is_raw bytes (batch _) = false
