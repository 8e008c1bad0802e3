-- ===== src/HashMap.antt =====
-- `std::collections::HashMap` as an association list with at most one entry for each key. The order
-- of the list stands for the order of iteration, which Rust leaves open.
pub mod Collect
use herbert.Prelude.{
  ◌≡◌, refl, Bool, true, false, Option, none, some, List, [], ◌∷◌, arith, Eq, beq_refl,
  if◌then◌else◌,
}

abbrev pub HashMap {ℓ} : Type ℓ → Type ℓ → Type ℓ
HashMap K V = List (K × V)

module _ {ℓ} {K V : Type ℓ} ⦃e : Eq K⦄ where
  -- `get`
  unfoldable pub lookup : K → HashMap K V → Option V
  lookup k [] = none
  lookup k ((j, v) ∷ m) = if e.beq j k then some v else lookup k m

  -- `insert`
  unfoldable pub insert : K → V → HashMap K V → HashMap K V
  insert k v [] = (k, v) ∷ []
  insert k v ((j, w) ∷ m) = if e.beq j k then (k, v) ∷ m else (j, w) ∷ insert k v m

  -- `contains_key`
  unfoldable pub contains_key : K → HashMap K V → Bool
  contains_key k m = elim (lookup k m) [ none ↦ false | some _ ↦ true ]

  -- `entry(k).or_insert(v)`: the map afterwards.
  unfoldable pub or_insert : K → V → HashMap K V → HashMap K V
  or_insert k v m = elim (lookup k m) [ none ↦ insert k v m | some _ ↦ m ]

  pub lookup-insert :
      (k j : K) (v : V) (m : HashMap K V)
      → lookup j (insert k v m) ≡ (if e.beq k j then some v else lookup j m)
  unfolding lookup insert
  lookup-insert k j v [] = refl
  lookup-insert k j v ((i, w) ∷ m) =
      ground (arith, e.beq_iff k j, e.beq_iff i k, e.beq_iff i j, lookup-insert k j v m)

  pub lookup-insert_self : (k : K) (v : V) (m : HashMap K V) → lookup k (insert k v m) ≡ some v
  lookup-insert_self k v m = simp (lookup-insert, beq_refl)

  pub contains_key-insert_self :
      (k : K) (v : V) (m : HashMap K V) → contains_key k (insert k v m) ≡ true
  unfolding contains_key
  contains_key-insert_self k v m = rw (lookup-insert_self k v m, contains_key) refl

module _ {ℓ} {K A : Type ℓ} ⦃e : Eq K⦄ where
  -- The queue of a key, where a missing key stands for an empty queue.
  abbrev pub queue_at : K → HashMap K (List A) → List A
  queue_at k m = elim (lookup k m) [ none ↦ [] | some q ↦ q ]

  pub queue_at-insert :
      (k j : K) (q : List A) (m : HashMap K (List A))
      → queue_at j (insert k q m) ≡ (if e.beq k j then q else queue_at j m)
  queue_at-insert k j q m = ground (arith, lookup-insert k j q m)

  pub queue_at-or_insert :
      (k j : K) (m : HashMap K (List A)) → queue_at j (or_insert k [] m) ≡ queue_at j m
  unfolding or_insert
  queue_at-or_insert k j m = ground (arith, lookup-insert k j [] m, e.beq_iff k j)
