-- ===== src/OffsetManager/Operations.antt =====
-- src/offset_manager.rs: the operations of `OffsetManager`.
use herbert.Prelude.{
  ◌≡◌, Option, none, some, [], ◌∷◌, ◌++◌, ◌==◌, if◌then◌else◌, bytes_eq, pair_eq, Bytes, Str,
}
use herbert.Prelude.Int.{ℤ, pos}
use herbert.HashMap.{HashMap, lookup, insert}
use herbert.HashMap.Collect.{IsMap, collect}
use herbert.Outcome.{
  IoError, Outcome, ok, err, panic, io, poison_error, serialization, deserialization,
  no_offset_file_found, Method, and_then, Lock, fresh,
}
use herbert.Config.{Config}

abbrev pub Offsets : Type 0
Offsets = HashMap (Str × Str) ℤ

pub record OffsetManager : Type 0 where
  pub offsets : Lock Offsets
  pub config : Config

-- `serde_json::to_string` and `from_slice` at `HashMap<String, i64>`; `none` is an error.
pub record Json : Type 0 where
  pub to_string : HashMap Str ℤ → Option Bytes
  pub from_slice : Bytes → Option (HashMap Str ℤ)

-- A map that is written is read back as a map with the same entries.
pub record JsonLaws (json : Json) : Type 0 where
  pub from_slice-to_string :
      (m : HashMap Str ℤ)
      → IsMap m
      → (text : Bytes) × (json.to_string m ≡ some text)
        × (n : HashMap Str ℤ) × (json.from_slice text ≡ some n)
        × IsMap n
        × ((k : Str) → lookup k n ≡ lookup k m)

-- `fs::write(path, contents)` over a file that may be there: an error, if any, and the file
-- afterwards.
pub record OffsetFile : Type 0 where
  pub write : Option Bytes → Bytes → Option IoError × Option Bytes

unfoldable pub new : Config → OffsetManager
new config = record { offsets = fresh []; config = config }

module _ {Fault : Type 0} where
  unfoldable pub get_offset : Str → Str → OffsetManager → Outcome Fault ℤ
  get_offset consumer_group topic om =
      if om.offsets.poisoned
      then err poison_error
      else ok (elim (lookup (consumer_group, topic) om.offsets.inner) [ none ↦ pos 0 | some o ↦ o ])

-- `format!("{}:{}", consumer_group, topic)`
unfoldable pub joined : Str × Str → Str
joined (consumer_group, topic) = consumer_group ++ b':' ∷ topic

-- `split_once(':')`: the parts before and behind the first colon.
unfoldable pub split_once : Str → Option (Str × Str)
split_once [] = none
split_once (c ∷ cs) =
    let rest : Option (Str × Str) = elim (split_once cs) [
      | none ↦ none
      | some (before, behind) ↦ some (c ∷ before, behind)
    ] in
    if c == b':' then some ([], cs) else rest

abbrev pub Saved : Type 0
Saved = OffsetManager × Option Bytes

module _ {Fault : Type 0} (json : Json) (disk : OffsetFile) where
  -- `fs::write(&self.config.offset_path, json)?`
  unfoldable pub save : Bytes → Method Fault Saved Unit
  save text (om, file) =
      let written = disk.write file text in
      (elim written.0 [ none ↦ ok tt | some e ↦ err (io e) ], (om, written.1))

  unfoldable pub flush : Method Fault Saved Unit
  flush (om, file) =
      if om.offsets.poisoned
      then (err poison_error, (om, file))
      else elim (json.to_string (collect joined om.offsets.inner [])) [
        | none ↦ (err serialization, (om, file))
        | some text ↦ save text (om, file)
      ]

  unfoldable pub set_offset : Str → Str → ℤ → Method Fault Saved Unit
  set_offset consumer_group topic offset (om, file) =
      let lock = om.offsets in
      if lock.poisoned
      then (err poison_error, (om, file))
      else flush (
        record om {
          offsets = record lock { inner = insert (consumer_group, topic) offset lock.inner };
        },
        file,
      )

module _ {Fault : Type 0} where
  -- The `map` and `collect` of `recover`: a key with no colon is a panic.
  unfoldable pub split_keys : HashMap Str ℤ → Offsets → Outcome Fault Offsets
  split_keys [] acc = ok acc
  split_keys ((key, offset) ∷ m) acc = elim (split_once key) [
    | none ↦ panic
    | some p ↦ split_keys m (insert p offset acc)
  ]

module _ {Fault : Type 0} (json : Json) where
  -- `file` is what `fs::read(&self.config.offset_path)` gives.
  unfoldable pub recover : Option Bytes → Method Fault OffsetManager Unit
  recover none om = (err no_offset_file_found, om)
  recover (some text) om = elim (json.from_slice text) [
    | none ↦ (err deserialization, om)
    | some stored ↦
        and_then (split_keys stored [], om)
          (λ offsets om. (ok tt, record om { offsets = fresh offsets }))
  ]
