-- ===== src/Utf8.antt =====
-- `String::from_utf8`, with which src/topic_manager.rs reads a topic back.
use herbert.Prelude.{
  ℕ, zero, suc, Bool, true, false, ◌&&◌, [], ◌∷◌, ltb, leb, ◌==◌, if◌then◌else◌, Bytes, Str,
}
use herbert.Outcome.{Outcome, ok, err, from_utf8 as from_utf8_error}

abbrev within : ℕ → ℕ → ℕ → Bool
within lo hi c = leb lo c && leb c hi

-- What the first byte of a code point asks for: so many more bytes, the next one in a range.
record Lead : Type 0 where
  valid : Bool
  more : ℕ
  lo : ℕ
  hi : ℕ

abbrev expect : ℕ → ℕ → ℕ → Lead
expect more lo hi = record { valid = true; more = more; lo = lo; hi = hi }

unfoldable lead : ℕ → Lead
lead c =
    if ltb c 0x80
    then expect 0 0x80 0xbf
    else if within 0xc2 0xdf c
    then expect 1 0x80 0xbf
    else if c == 0xe0
    then expect 2 0xa0 0xbf
    else if c == 0xed
    then expect 2 0x80 0x9f
    else if within 0xe1 0xef c
    then expect 2 0x80 0xbf
    else if c == 0xf0
    then expect 3 0x90 0xbf
    else if within 0xf1 0xf3 c
    then expect 3 0x80 0xbf
    else if c == 0xf4
    then expect 3 0x80 0x8f
    else record { valid = false; more = 0; lo = 0; hi = 0 }

-- `more` bytes of the current code point are left, and the next one is between `lo` and `hi`.
valid_from : ℕ → ℕ → ℕ → Bytes → Bool
valid_from zero lo hi [] = true
valid_from (suc more) lo hi [] = false
valid_from zero lo hi (c ∷ cs) = let l = lead c in l.valid && valid_from l.more l.lo l.hi cs
valid_from (suc more) lo hi (c ∷ cs) = within lo hi c && valid_from more 0x80 0xbf cs

unfoldable pub is_utf8 : Bytes → Bool
unfolding lead valid_from
is_utf8 = valid_from 0 0 0

unfoldable pub from_utf8 : {Fault : Type 0} → Bytes → Outcome Fault Str
from_utf8 bytes = if is_utf8 bytes then ok bytes else err from_utf8_error
