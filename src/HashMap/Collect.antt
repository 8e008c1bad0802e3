-- ===== src/HashMap/Collect.antt =====
-- `iter().map(..).collect::<HashMap<_, _>>()`: the entries of one map, inserted under other keys.
use herbert.Prelude.{
  ◌≡◌, refl, sym, ap, ◌∙◌, false, ◌⊎◌, inl, inr, Option, none, some, [], ◌∷◌, arith, Eq, beq_refl,
  Bool-cases,
}
use herbert.HashMap.{HashMap, lookup, insert, lookup-insert, lookup-insert_self}

-- The keys of a map have a property.
abbrev pub AllKeys : {K V : Type 0} → (K → Type 0) → HashMap K V → Type 0
AllKeys P [] = Unit
AllKeys P ((k, v) ∷ m) = P k × AllKeys P m

module _ {K V : Type 0} ⦃e : Eq K⦄ where
  -- No key stands twice.
  abbrev pub IsMap : HashMap K V → Type 0
  IsMap [] = Unit
  IsMap ((k, v) ∷ m) = (lookup k m ≡ none) × IsMap m

  pub insert-IsMap : (k : K) (v : V) (m : HashMap K V) → IsMap m → IsMap (insert k v m)
  unfolding insert lookup
  insert-IsMap k v [] h = (refl, tt)
  insert-IsMap k v ((j, w) ∷ m) h = elim (Bool-cases (e.beq j k)) [
    | inl same ↦ rw same (rw (← (e.beq_iff j k).0 same) h)
    | inr other ↦ rw other (
      lookup-insert k j v m ∙ ground (arith, e.beq_iff k j, e.beq_iff j k, h.0),
      insert-IsMap k v m h.1,
    )
  ]

  -- A map's keys are those at which `lookup` finds something.
  pub AllKeys-of_lookup :
      (P : K → Type 0) (m : HashMap K V)
      → IsMap m
      → ((k : K) (v : V) → lookup k m ≡ some v → P k)
      → AllKeys P m
  unfolding lookup
  AllKeys-of_lookup P [] u h = tt
  AllKeys-of_lookup P ((k, v) ∷ m) u h = (
    h k v (rw (beq_refl k) refl),
    AllKeys-of_lookup P m u.1 λ j w found. h j w (ground (arith, e.beq_iff k j, u.0)),
  )

-- Of two values the first that is there.
abbrev pub or_else : {V : Type 0} → Option V → Option V → Option V
or_else none o = o
or_else (some v) o = some v

pub or_else-none : {V : Type 0} (o : Option V) → or_else o none ≡ o
or_else-none none = refl
or_else-none (some v) = refl

module _ {K L V : Type 0} ⦃d : Eq K⦄ ⦃e : Eq L⦄ (f : K → L) where
  unfoldable pub collect : HashMap K V → HashMap L V → HashMap L V
  collect [] acc = acc
  collect ((k, v) ∷ m) acc = collect m (insert (f k) v acc)

  -- Where no other key is sent to the same place, the entry is found there.
  pub lookup-collect :
      (k : K) (m : HashMap K V) (acc : HashMap L V)
      → IsMap m
      → AllKeys (λ j. f j ≡ f k → j ≡ k) m
      → lookup (f k) (collect m acc) ≡ or_else (lookup k m) (lookup (f k) acc)
  unfolding lookup collect
  lookup-collect k [] acc u h = refl
  lookup-collect k ((j, v) ∷ m) acc u h =
      lookup-collect k m (insert (f j) v acc) u.1 h.1 ∙ elim (Bool-cases (d.beq j k)) [
        | inl same ↦
            let at_k : j ≡ k = (d.beq_iff j k).0 same in
            rw (same, ← at_k, u.0) (lookup-insert_self (f j) v acc)
        | inr other ↦
            let elsewhere : e.beq (f j) (f k) ≡ false =
              ground (arith, e.beq_iff (f j) (f k), d.beq_iff j k, h.0) in
            rw other
              (ap (or_else (lookup k m)) (lookup-insert (f j) (f k) v acc ∙ rw elsewhere refl))
      ]

  -- Each key of the result comes from a key of the map, or was there.
  pub lookup-collect_source :
      (l : L) (v : V) (m : HashMap K V) (acc : HashMap L V)
      → lookup l (collect m acc) ≡ some v
      → ((k : K) × (l ≡ f k)) ⊎ (lookup l acc ≡ some v)
  unfolding collect
  lookup-collect_source l v [] acc h = inr h
  lookup-collect_source l v ((k, w) ∷ m) acc h =
      elim (lookup-collect_source l v m (insert (f k) w acc) h) [
        | inl found ↦ inl found
        | inr old ↦ elim (Bool-cases (e.beq (f k) l)) [
          | inl here ↦ inl (k, sym ((e.beq_iff (f k) l).0 here))
          | inr elsewhere ↦ inr (rw elsewhere at (sym (lookup-insert (f k) l w acc) ∙ old))
        ]
      ]

  pub collect-IsMap : (m : HashMap K V) (acc : HashMap L V) → IsMap acc → IsMap (collect m acc)
  unfolding collect
  collect-IsMap [] acc h = h
  collect-IsMap ((k, v) ∷ m) acc h =
      collect-IsMap m (insert (f k) v acc) (insert-IsMap (f k) v acc h)
