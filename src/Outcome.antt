-- ===== src/Outcome.antt =====
-- src/error.rs, and how a call ends.
pub mod Ends
use herbert.Prelude.{ℕ, ◌≡◌, ap, Bool, true, false, Str}

-- `std::io::Error`, by the kinds that the program can meet.
pub data IoError : Type 0 where
  unexpected_eof write_zero : IoError
  os_error : ℕ → IoError

-- `HerbertError`; `Fault` is arrow's `ArrowError`.
pub data HerbertError (Fault : Type 0) : Type 0 where
  io : IoError → HerbertError Fault
  from_utf8 compute_size decode encode poison_error serialization deserialization :
      HerbertError Fault
  indicator_error : ℕ → HerbertError Fault
  no_topic_data empty_topic_list no_partition_data no_record_data : HerbertError Fault
  invalid_arrow_ipc : Str → HerbertError Fault
  arrow_error : Fault → HerbertError Fault
  schema_error : (expected found : Str) → HerbertError Fault
  topic_already_exists : Str → HerbertError Fault
  empty_queue no_wal_file_found no_offset_file_found request_decode unknown_error :
      HerbertError Fault

-- A call returns a `Result`, or it panics. `out_of_fuel` is the model's own, for loops on fuel.
pub data Outcome (Fault A : Type 0) : Type 0 where
  ok : A → Outcome Fault A
  err : HerbertError Fault → Outcome Fault A
  panic out_of_fuel : Outcome Fault A

pub ok-injective : {Fault A : Type 0} {x y : A} → ◌≡◌ {A = Outcome Fault A} (ok x) (ok y) → x ≡ y
ok-injective {Fault} {A} {x} e =
    ap (λ (o : Outcome Fault A). elim o [ ok a ↦ a | err _ ↦ x | panic ↦ x | out_of_fuel ↦ x ]) e

-- A method of an object: its outcome, and the object afterwards, whatever the outcome.
abbrev pub Method : Type 0 → Type 0 → Type 0 → Type 0
Method Fault S A = S → Outcome Fault A × S

module _ {F A B : Type 0} where
  -- The `?` operator.
  infixl 5 ◌>>=◌
  abbrev pub ◌>>=◌ : Outcome F A → (A → Outcome F B) → Outcome F B
  ok a >>= f = f a
  err e >>= f = err e
  panic >>= f = panic
  out_of_fuel >>= f = out_of_fuel

module _ {F S A B : Type 0} where
  -- The same for methods of one object: the next call sees the object that the last one left.
  abbrev pub and_then : Outcome F A × S → (A → S → Outcome F B × S) → Outcome F B × S
  and_then (ok a, s) f = f a s
  and_then (err e, s) f = (err e, s)
  and_then (panic, s) f = (panic, s)
  and_then (out_of_fuel, s) f = (out_of_fuel, s)

-- A value behind an `RwLock` or a `Mutex`. A thread that panics while it holds the lock for
-- writing poisons it.
pub record Lock (A : Type 0) : Type 0 where
  pub poisoned : Bool
  pub inner : A

abbrev pub fresh : {A : Type 0} → A → Lock A
fresh a = record { poisoned = false; inner = a }

abbrev pub poison : {A : Type 0} → Lock A → Lock A
poison l = record l { poisoned = true }
