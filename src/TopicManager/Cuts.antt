-- ===== src/TopicManager/Cuts.antt =====
-- src/wal.rs: where an entry is cut that was not written to its end.
use herbert.Prelude.{
  ℕ, ◌<◌, ◌≡◌, ap, false, [], ◌∷◌, ◌++◌, ◌⊎◌, inl, inr, arith, ◌==◌, length, length-append, All,
  bytes_eq, Bytes, Str, as_u32, u32_le, take, drop,
}

abbrev pub IsLine : Bytes → Type 0
IsLine = All (λ c. (c == b'\n') ≡ false)

-- Where an entry can be cut: inside its topic, or behind the newline, inside of what follows.
pub data Cut (topic : Str) (indicator : ℕ) (payload : Bytes) : Bytes → Type 0 where
  in_topic : (c : ℕ) (cs : Bytes) → IsLine (c ∷ cs) → Cut topic indicator payload (c ∷ cs)
  at_indicator : Cut topic indicator payload (topic ++ b'\n' ∷ [])
  in_size :
      (i : ℕ) (s : Bytes) → length s < 4 → Cut topic indicator payload (topic ++ b'\n' ∷ i ∷ s)
  in_payload :
      (tail p : Bytes)
      → tail ≡ indicator ∷ (u32_le (as_u32 (length payload)) ++ p)
      → length p < length payload
      → Cut topic indicator payload (topic ++ b'\n' ∷ tail)

module _ (topic : Str) (indicator : ℕ) (payload : Bytes) where
  -- A part of an entry that is not the whole is cut in the payload, or before it.
  payload_longer :
      (p missing : Bytes) (m : ℕ) → p ++ m ∷ missing ≡ payload → length p < length payload
  payload_longer p missing m e = omega (arith, ap length e, length-append p (m ∷ missing))

  pub tail-Cut :
      (tail missing : Bytes) (m : ℕ)
      → tail ++ m ∷ missing ≡ indicator ∷ (u32_le (as_u32 (length payload)) ++ payload)
      → Cut topic indicator payload (topic ++ b'\n' ∷ tail)
  unfolding u32_le
  tail-Cut [] missing m e = at_indicator
  tail-Cut (i ∷ []) missing m e = in_size i [] (omega arith)
  tail-Cut (i ∷ a ∷ []) missing m e = in_size i (a ∷ []) (omega arith)
  tail-Cut (i ∷ a ∷ b ∷ []) missing m e = in_size i (a ∷ b ∷ []) (omega arith)
  tail-Cut (i ∷ a ∷ b ∷ c ∷ []) missing m e = in_size i (a ∷ b ∷ c ∷ []) (omega arith)
  tail-Cut (i ∷ a ∷ b ∷ c ∷ d ∷ p) missing m e =
      in_payload (i ∷ a ∷ b ∷ c ∷ d ∷ p) p (ap (λ bytes. take 5 bytes ++ p) e)
        (payload_longer p missing m (ap (drop 5) e))

-- A part of an entry ends inside the line of the topic, or behind it.
pub begins :
    (topic tail missing : Bytes) (m : ℕ) (torn : Bytes)
    → IsLine topic
    → torn ++ m ∷ missing ≡ topic ++ b'\n' ∷ tail
    → IsLine torn ⊎ ((part : Bytes) × (torn ≡ topic ++ b'\n' ∷ part) × (part ++ m ∷ missing ≡ tail))
begins topic tail missing m [] h e = inl tt
begins [] tail missing m (c ∷ cs) h e = inr (cs, cc, ap (drop 1) e)
begins (t ∷ ts) tail missing m (c ∷ cs) h e =
    let same : c ≡ t = cc in
    elim (begins ts tail missing m cs h.1 (ap (drop 1) e)) [
      | inl l ↦ inl (rw same h.0, l)
      | inr (part, torn_is, rest_is) ↦ inr (part, cc, rest_is)
    ]
