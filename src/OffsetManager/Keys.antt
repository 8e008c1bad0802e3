-- ===== src/OffsetManager/Keys.antt =====
-- src/offset_manager.rs: the keys of the file, `group:topic`.
use mathlib.Core.Option.{some-injective}
use herbert.Prelude.{
  ℕ, ◌≡◌, refl, sym, ap, ◌∙◌, false, Option, none, some, inl, inr, [], ◌∷◌, ◌++◌, All, ◌==◌, ==_iff,
  Bool-cases, bytes_eq, pair_eq, Str,
}
use herbert.OffsetManager.Operations.{joined, split_once}

abbrev pub HasNoColon : Str → Type 0
HasNoColon g = All (λ c. (c == b':') ≡ false) g

pub split_once-joined : (g t : Str) → HasNoColon g → split_once (joined (g, t)) ≡ some (g, t)
unfolding split_once joined
split_once-joined [] t h = refl
split_once-joined (c ∷ g) t h = rw (h.0, split_once-joined g t h.1) refl

abbrev pub IsSplit : Str → Str × Str → Type 0
IsSplit k p = (k ≡ joined p) × HasNoColon p.0

-- One more byte in front, if it is no colon.
IsSplit-cons :
    (c : ℕ) (k : Str) (p : Str × Str) (o : Option (Str × Str))
    → (c == b':') ≡ false
    → ((q : Str × Str) → o ≡ some q → IsSplit k q)
    → (elim o [ none ↦ none | some (before, behind) ↦ some (c ∷ before, behind) ]) ≡ some p
    → IsSplit (c ∷ k) p
unfolding joined
IsSplit-cons c k p none other ih f = cc
IsSplit-cons c k p (some (before, behind)) other ih f =
    let (key, plain) = ih (before, behind) refl in
    let found : ◌≡◌ {A = Str × Str} (c ∷ before, behind) p = some-injective _ _ f in
    rw (← found) (ap (◌∷◌ c) key, (other, plain))

-- What `split_once` finds: the parts of the key, the first with no colon.
pub split_once_lem : (k : Str) (p : Str × Str) → split_once k ≡ some p → IsSplit k p
unfolding split_once joined
split_once_lem [] p e = cc
split_once_lem (c ∷ k) p e = elim (Bool-cases (c == b':')) [
  | inl colon ↦
      let found : ◌≡◌ {A = Str × Str} ([], k) p = some-injective _ _ (rw colon at e) in
      rw (← found, (==_iff c b':').0 colon) (refl, tt)
  | inr other ↦ IsSplit-cons c k p (split_once k) other (split_once_lem k) (rw other at e)
]

pub joined-injective :
    (p q : Str × Str) → HasNoColon p.0 → HasNoColon q.0 → joined p ≡ joined q → p ≡ q
joined-injective (g, t) (h, u) np nq e =
    some-injective _ _ (sym (split_once-joined g t np) ∙ ap split_once e ∙ split_once-joined h u nq)

-- A joined key has a colon, so it splits, if not always where it was joined.
pub split_once-some : (g t : Str) → (p : Str × Str) × (split_once (joined (g, t)) ≡ some p)
unfolding split_once joined
split_once-some [] t = (([], t), refl)
split_once-some (c ∷ g) t = elim (Bool-cases (c == b':')) [
  | inl colon ↦ (([], g ++ b':' ∷ t), rw colon refl)
  | inr other ↦ let (p, e) = split_once-some g t in ((c ∷ p.0, p.1), rw (other, e) refl)
]
