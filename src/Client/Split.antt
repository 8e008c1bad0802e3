-- ===== src/Client/Split.antt =====
-- src/client.rs: what splitting at zero bytes makes of a response of raw records.
use herbert.Prelude.{
  ℕ, ◌+◌, ◌≡◌, refl, sym, ap, ◌∙◌, false, List, [], ◌∷◌, ◌++◌, append-nil, All, arith, ◌==◌,
  if◌then◌else◌, length, Bytes,
}
use herbert.Storage.InMemoryLog.RawTopic.{join}
use herbert.Client.Consume.{split}

-- No byte of a payload is zero.
abbrev pub HasNoZero : Bytes → Type 0
HasNoZero = All (λ c. (c == 0) ≡ false)

abbrev pub count_zeros : Bytes → ℕ
count_zeros [] = 0
count_zeros (c ∷ cs) = (if c == 0 then 1 else 0) + count_zeros cs

abbrev pub total_zeros : List Bytes → ℕ
total_zeros [] = 0
total_zeros (p ∷ ps) = count_zeros p + total_zeros ps

length-split : (s : Bytes) → length (split s) ≡ 1 + count_zeros s
unfolding split
length-split [] = refl
length-split (c ∷ cs) = of_parts (split cs) (length-split cs)
  where
    of_parts :
        (parts : List Bytes)
        → length parts ≡ 1 + count_zeros cs
        → length (elim parts [
          | [] ↦ (c ∷ []) ∷ []
          | part ∷ parts ↦ if c == 0 then [] ∷ part ∷ parts else (c ∷ part) ∷ parts
        ])
          ≡ 1 + count_zeros (c ∷ cs)
    of_parts [] e = absurd (omega arith)
    of_parts (part ∷ parts) e = ground arith

split-part :
    (p rest : Bytes) (part : Bytes) (parts : List Bytes)
    → HasNoZero p
    → split rest ≡ part ∷ parts
    → split (p ++ rest) ≡ (p ++ part) ∷ parts
unfolding split
split-part [] rest part parts h e = e
split-part (c ∷ p) rest part parts h e = rw (split-part p rest part parts h.1 e, split, h.0) refl

split-zero :
    (rest part : Bytes) (parts : List Bytes)
    → split rest ≡ part ∷ parts
    → split (0 ∷ rest) ≡ [] ∷ part ∷ parts
unfolding split
split-zero rest part parts e = rw (e, split) refl

-- Splitting a response of raw records at its zero bytes gives the records back, if there is one and
-- none contains a zero byte.
pub split-join :
    (p : Bytes) (ps : List Bytes) → All HasNoZero (p ∷ ps) → split (join (p ∷ ps)) ≡ p ∷ ps
unfolding split
split-join p [] h = ap split (sym (append-nil p)) ∙ split-part p [] [] [] h.0 refl ∙ rw append-nil
split-join p (q ∷ qs) h =
    split-part p (0 ∷ join (q ∷ qs)) [] (q ∷ qs) h.0
      (split-zero (join (q ∷ qs)) q qs (split-join q qs h.1))
    ∙ rw append-nil

count_zeros-append : (a b : Bytes) → count_zeros (a ++ b) ≡ count_zeros a + count_zeros b
count_zeros-append [] b = omega arith
count_zeros-append (c ∷ a) b = omega (arith, count_zeros-append a b)

count_zeros-join :
    (p : Bytes) (ps : List Bytes) → count_zeros (join (p ∷ ps)) ≡ total_zeros (p ∷ ps) + length ps
count_zeros-join p [] = omega arith
count_zeros-join p (q ∷ qs) =
    omega (arith, count_zeros-append p (0 ∷ join (q ∷ qs)), count_zeros-join q qs)

-- There is a part at least.
pub split_cases : (s : Bytes) → (part : Bytes) × (parts : List Bytes) × (split s ≡ part ∷ parts)
split_cases s = of_parts (split s) refl
  where
    of_parts :
        (xs : List Bytes)
        → split s ≡ xs
        → (part : Bytes) × (parts : List Bytes) × (split s ≡ part ∷ parts)
    of_parts [] e = absurd (omega (arith, ap length e, length-split s))
    of_parts (part ∷ parts) e = (part, parts, e)

-- The number of parts of a response is the number of its records and of all zero bytes inside them.
pub length-split-join :
    (p : Bytes) (ps : List Bytes)
    → length (split (join (p ∷ ps))) ≡ length (p ∷ ps) + total_zeros (p ∷ ps)
length-split-join p ps = omega (arith, length-split (join (p ∷ ps)), count_zeros-join p ps)
