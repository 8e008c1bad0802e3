-- ===== src/Outcome/Ends.antt =====
-- Calls that end: with a value, an error or a panic, and never for want of fuel.
use herbert.Prelude.{Option, none, some, Bool, true, false, if◌then◌else◌}
use herbert.Outcome.{Outcome, ok, err, panic, out_of_fuel, and_then, ◌>>=◌}

-- A call ended, and what it gave has a property.
abbrev pub Ends : {Fault A : Type 0} → (A → Type 0) → Outcome Fault A → Type 0
Ends P (ok a) = P a
Ends P (err e) = Unit
Ends P panic = Unit
Ends P out_of_fuel = ⊥

pub Ends-then :
    {Fault A B : Type 0} (P : A → Type 0) (Q : B → Type 0) (o : Outcome Fault A)
    (f : A → Outcome Fault B)
    → Ends P o
    → ((a : A) → P a → Ends Q (f a))
    → Ends Q (o >>= f)
Ends-then P Q (ok a) f h k = k a h
Ends-then P Q (err e) f h k = tt
Ends-then P Q panic f h k = tt
Ends-then P Q out_of_fuel f h k = absurd h

pub Ends-and_then :
    {Fault S A B : Type 0} (P : A → Type 0) (Q : B → Type 0) (r : Outcome Fault A × S)
    (f : A → S → Outcome Fault B × S)
    → Ends P r.0
    → ((a : A) (s : S) → P a → Ends Q (f a s).0)
    → Ends Q (and_then r f).0
Ends-and_then P Q (ok a, s) f h k = k a s h
Ends-and_then P Q (err e, s) f h k = tt
Ends-and_then P Q (panic, s) f h k = tt
Ends-and_then P Q (out_of_fuel, s) f h k = absurd h

-- A value of which nothing is said.
abbrev pub Any : {A : Type 0} → A → Type 0
Any a = Unit

-- A test ends if both of its branches do.
pub Ends-if :
    {Fault S A : Type 0} (P : A → Type 0) (c : Bool) (x y : Outcome Fault A × S)
    → Ends P x.0
    → Ends P y.0
    → Ends P (if c then x else y).0
Ends-if P true x y h k = h
Ends-if P false x y h k = k

pub Ends-test :
    {Fault A : Type 0} (P : A → Type 0) (c : Bool) (x y : Outcome Fault A)
    → Ends P x
    → Ends P y
    → Ends P (if c then x else y)
Ends-test P true x y h k = h
Ends-test P false x y h k = k

-- A match on an option ends if both of its cases do.
pub Ends-match :
    {Fault S A B : Type 0} (P : B → Type 0) (o : Option A) (x : Outcome Fault B × S)
    (f : A → Outcome Fault B × S)
    → Ends P x.0
    → ((a : A) → Ends P (f a).0)
    → Ends P (elim o as (λ _. Outcome Fault B × S) [ none ↦ x | some a ↦ f a ]).0
Ends-match P none x f h k = h
Ends-match P (some a) x f h k = k a

pub Ends-option :
    {Fault A B : Type 0} (P : B → Type 0) (o : Option A) (x : Outcome Fault B)
    (f : A → Outcome Fault B)
    → Ends P x
    → ((a : A) → Ends P (f a))
    → Ends P (elim o [ none ↦ x | some a ↦ f a ])
Ends-option P none x f h k = h
Ends-option P (some a) x f h k = k a
