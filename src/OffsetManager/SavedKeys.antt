-- ===== src/OffsetManager/SavedKeys.antt =====
-- src/offset_manager.rs: the entries of a map that is saved under joined keys.
use herbert.Prelude.{
  ◌≡◌, refl, sym, ap, ◌∙◌, Option, none, some, inl, inr, [], ◌∷◌, bytes_eq, pair_eq, Str,
}
use herbert.Prelude.Int.{ℤ}
use herbert.HashMap.{HashMap, lookup, insert}
use herbert.HashMap.Collect.{
  AllKeys, IsMap, collect, or_else-none, lookup-collect, lookup-collect_source,
}
use herbert.Outcome.{ok}
use herbert.OffsetManager.Operations.{Offsets, joined, split_once, split_keys}
use herbert.OffsetManager.Keys.{
  HasNoColon, split_once-joined, split_once-some, split_once_lem, joined-injective,
}

-- A key with its two parts.
abbrev pub IsJoined : Str → Type 0
IsJoined k = (p : Str × Str) × (split_once k ≡ some p)

pub split_or : Str → Str × Str
split_or k = elim (split_once k) [ none ↦ ([], []) | some p ↦ p ]

split_or-some : (k : Str) (p : Str × Str) → split_once k ≡ some p → split_or k ≡ p
unfolding split_or
split_or-some k p e = rw (e, split_or) refl

module _ {Fault : Type 0} where
  pub split_keys-collect :
      (m : HashMap Str ℤ) (acc : Offsets)
      → AllKeys IsJoined m
      → split_keys {Fault = Fault} m acc ≡ ok (collect split_or m acc)
  unfolding split_keys collect
  split_keys-collect [] acc h = refl
  split_keys-collect ((k, o) ∷ m) acc h =
      let (p, e) = h.0 in
      rw (e, split_or-some k p e, split_keys) (split_keys-collect m (insert p o acc) h.1)

-- The keys of a saved map are joined from groups and topics.
pub saved-IsJoined :
    (offsets : Offsets) (k : Str) (o : ℤ)
    → lookup k (collect joined offsets []) ≡ some o
    → IsJoined k
unfolding lookup
saved-IsJoined offsets k o e = elim (lookup-collect_source joined k o offsets [] e) [
  | inl ((g, t), key) ↦ rw key (split_once-some g t)
  | inr absent ↦ cc
]

-- Where the split of another key gives `p`, that key is `p` joined.
key_of_split :
    (p : Str × Str) (m : HashMap Str ℤ)
    → HasNoColon p.0
    → AllKeys IsJoined m
    → AllKeys (λ k. split_or k ≡ split_or (joined p) → k ≡ joined p) m
key_of_split p [] plain h = tt
key_of_split p ((k, o) ∷ m) plain h = (
  λ same.
      let (q, e) = h.0 in
      (split_once_lem k q e).0
      ∙ ap joined (
          sym (split_or-some k q e)
          ∙ same
          ∙ split_or-some (joined p) p (split_once-joined p.0 p.1 plain)),
  key_of_split p m plain h.1,
)

group_of_key :
    (p : Str × Str) (offsets : Offsets)
    → HasNoColon p.0
    → AllKeys (λ q. HasNoColon q.0) offsets
    → AllKeys (λ q. joined q ≡ joined p → q ≡ p) offsets
group_of_key p [] plain h = tt
group_of_key p ((q, o) ∷ m) plain h = (joined-injective q p h.0 plain, group_of_key p m plain h.1)

pub lookup-stored :
    (p : Str × Str) (stored : HashMap Str ℤ)
    → HasNoColon p.0
    → IsMap stored
    → AllKeys IsJoined stored
    → lookup p (collect split_or stored []) ≡ lookup (joined p) stored
unfolding lookup
lookup-stored p stored plain unique keys =
    ap (λ q. lookup q (collect split_or stored []))
      (sym (split_or-some (joined p) p (split_once-joined p.0 p.1 plain)))
    ∙ lookup-collect split_or (joined p) stored [] unique (key_of_split p stored plain keys)
    ∙ or_else-none (lookup (joined p) stored)

split_or-HasNoColon :
    (k : Str) (o : Option (Str × Str)) → split_once k ≡ o → HasNoColon (split_or k).0
unfolding split_or
split_or-HasNoColon k none e = rw (e, split_or) tt
split_or-HasNoColon k (some p) e = rw (e, split_or) (split_once_lem k p e).1

pub restored-HasNoColon :
    (p : Str × Str) (o : ℤ) (stored : HashMap Str ℤ)
    → lookup p (collect split_or stored []) ≡ some o
    → HasNoColon p.0
unfolding lookup
restored-HasNoColon p o stored e = elim (lookup-collect_source split_or p o stored [] e) [
  | inl (k, from) ↦ rw from (split_or-HasNoColon k (split_once k) refl)
  | inr absent ↦ cc
]

pub lookup-saved :
    (offsets : Offsets) (p : Str × Str)
    → HasNoColon p.0
    → IsMap offsets
    → AllKeys (λ q. HasNoColon q.0) offsets
    → lookup (joined p) (collect joined offsets []) ≡ lookup p offsets
unfolding lookup
lookup-saved offsets p plain unique groups =
    lookup-collect joined p offsets [] unique (group_of_key p offsets plain groups)
    ∙ or_else-none (lookup p offsets)
