-- ===== src/Cli.antt =====
-- src/bin/herbert-cli.rs
use herbert.Prelude.{ℕ, none, some, Option, inl, inr, ◌⊎◌, List, [], ◌∷◌, Bytes, Str}
use herbert.Prelude.Int.{ℤ}
use herbert.Outcome.{IoError, HerbertError, Outcome, ok, err, panic, out_of_fuel}
use herbert.Arrow.{Arrow}
use herbert.HerbertApi.{Request}
use herbert.Client.Stream.{Stream, Codec}
use herbert.Client.Requests as Client
use herbert.Client.Consume.{consume_continuos}

pub data Command : Type 0 where
  produce : (broker topic message : Str) → Command
  produce_record_batch : (broker topic data_path schema_path : Str) → Command
  consume : (broker topic : Str) (max_messages : ℤ) (consumer_group : Str) → Command
  create_topic : (broker topic : Str) (schema_path : Option Str) → Command

-- The files, and what serde_json and arrow_json make of them.
pub record Files (Schema Batch : Type 0) : Type 0 where
  -- `fs::read_to_string`
  pub read_to_string : Str → IoError ⊎ Str
  -- `serde_json::from_str` at `Schema`; `none` is an error.
  pub from_str : Str → Option Schema
  -- `File::open`, and what is read of the file then
  pub read_file : Str → IoError ⊎ Bytes
  -- `ReaderBuilder::new(schema).build(..)`, `none` for an error, and what the reader's `next` then
  -- yields, where `none` is an error.
  pub build : Schema → Bytes → Option (List (Option Batch))

-- What `main` tells its user at the end.
pub data Report (Fault : Type 0) : Type 0 where
  quiet : Report Fault
  schema_not_loaded data_not_loaded : Str → Report Fault
  consumed : Outcome Fault ℤ → Report Fault
  create_failed : HerbertError Fault → Report Fault

module _ {Schema Batch : Type 0} (files : Files Schema Batch) where
  -- `none` is an `anyhow::Error`.
  unfoldable pub load_schema_from_json : Str → Option Schema
  load_schema_from_json schema_path = elim (files.read_to_string schema_path) [
    | inl _ ↦ none
    | inr text ↦ files.from_str text
  ]

  unfoldable pub first_item : Option (List (Option Batch)) → Option Batch
  first_item none = none
  first_item (some []) = none
  first_item (some (item ∷ _)) = item

  unfoldable pub load_record_batch_from_json : Str → Schema → Option Batch
  load_record_batch_from_json data_path schema = elim (files.read_file data_path) [
    | inl _ ↦ none
    | inr contents ↦ first_item (files.build schema contents)
  ]

-- `let _ = result;` of a call on a stream
unfoldable pub forget :
    {Fault A K : Type 0} → Outcome Fault A × Option K → Outcome Fault (Report Fault) × Option K
forget (ok _, k) = (ok quiet, k)
forget (err _, k) = (ok quiet, k)
forget (panic, k) = (panic, k)
forget (out_of_fuel, k) = (out_of_fuel, k)

-- `dbg!(&result)`
unfoldable pub show_result :
    {Fault K : Type 0} → Outcome Fault ℤ × Option K → Outcome Fault (Report Fault) × Option K
show_result (ok n, k) = (ok (consumed (ok n)), k)
show_result (err e, k) = (ok (consumed (err e)), k)
show_result (panic, k) = (panic, k)
show_result (out_of_fuel, k) = (out_of_fuel, k)

-- `if let Err(e) = ..`
unfoldable pub show_error :
    {Fault K : Type 0} → Outcome Fault Unit × Option K → Outcome Fault (Report Fault) × Option K
show_error (ok _, k) = (ok quiet, k)
show_error (err e, k) = (ok (create_failed e), k)
show_error (panic, k) = (panic, k)
show_error (out_of_fuel, k) = (out_of_fuel, k)

module _ {Schema Batch Fault K : Type 0} (arrow : Arrow Schema Batch Fault) (codec : Codec)
    (to_vec : Request Schema → Option Bytes) (files : Files Schema Batch) (stream : Stream K) where
  unfoldable pub produce_loaded :
      (broker topic data_path : Str) → Option Batch → Outcome Fault (Report Fault) × Option K
  produce_loaded broker topic data_path none = (ok (data_not_loaded data_path), none)
  produce_loaded broker topic data_path (some record_batch) =
      forget (Client.produce_record_batch codec stream arrow broker topic record_batch)

  unfoldable pub produce_with_schema :
      (broker topic data_path schema_path : Str)
      → Option Schema
      → Outcome Fault (Report Fault) × Option K
  produce_with_schema broker topic data_path schema_path none =
      (ok (schema_not_loaded schema_path), none)
  produce_with_schema broker topic data_path schema_path (some schema) =
      produce_loaded broker topic data_path (load_record_batch_from_json files data_path schema)

  unfoldable pub create_with_schema :
      (broker topic path : Str) → Option Schema → Outcome Fault (Report Fault) × Option K
  create_with_schema broker topic path none = (ok (schema_not_loaded path), none)
  create_with_schema broker topic path (some schema) =
      show_error (Client.create_topic stream to_vec broker topic (some schema))

  -- The loop of `consume_continuos` runs for so many rounds.
  unfoldable pub main : (rounds : ℕ) → Command → Outcome Fault (Report Fault) × Option K
  main rounds (produce broker topic message) =
      forget (Client.produce codec stream broker topic message)
  main rounds (produce_record_batch broker topic data_path schema_path) =
      produce_with_schema broker topic data_path schema_path
        (load_schema_from_json files schema_path)
  main rounds (consume broker topic max_messages consumer_group) =
      show_result
        (consume_continuos arrow codec stream rounds broker topic max_messages consumer_group)
  main rounds (create_topic broker topic none) =
      show_error (Client.create_topic stream to_vec broker topic none)
  main rounds (create_topic broker topic (some path)) =
      create_with_schema broker topic path (load_schema_from_json files path)
