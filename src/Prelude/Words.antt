-- ===== src/Prelude/Words.antt =====
-- Byte strings, text literals as bytes, decimal numerals, and the 32-bit little-endian words of the
-- `byteorder` calls.
use Prim.Native.Nat.{ℕ, zero, suc, ◌+◌, ◌*◌, ◌/◌, ◌%◌, ◌^◌, ◌<◌}
use Prim.Native.Char.{code}
use Prim.Native.String.{String}
use mathlib.Core.Path.{◌≡◌}
use mathlib.Core.List.{List, [], ◌∷◌}
use native.Mathlib.Omega.{arith}
use herbert.Prelude.Compare.{ltb, if◌then◌else◌}

-- A byte is a number below 256. A Rust `String` is the byte string of its UTF-8 form.
abbrev pub Bytes : Type 0
Bytes = List ℕ

abbrev pub Str : Type 0
Str = Bytes

-- The code points of a literal: its bytes, since every literal here is ASCII.
abbrev pub codes : String → Bytes
codes String.[] = []
codes (String.◌∷◌ c s) = code c ∷ codes s

abbrev pub decimal_onto : ℕ → ℕ → Bytes → Bytes
decimal_onto zero n rest = rest
decimal_onto (suc fuel) n rest =
    let digits = (b'0' + n % 10) ∷ rest in
    let more = decimal_onto fuel (n / 10) digits in if ltb n 10 then digits else more

-- `usize::to_string`: a number below 2 ^ 64 has 20 digits at most.
abbrev pub decimal : ℕ → Bytes
decimal n = decimal_onto 20 n []

-- `x as u32`
abbrev pub as_u32 : ℕ → ℕ
as_u32 n = n % 2 ^ 32

-- `write_u32::<LittleEndian>`
unfoldable pub u32_le : ℕ → Bytes
u32_le n = n % 256 ∷ (n / 256) % 256 ∷ (n / 65536) % 256 ∷ (n / 16777216) % 256 ∷ []

-- `put_u32`
unfoldable pub u32_be : ℕ → Bytes
u32_be n = (n / 16777216) % 256 ∷ (n / 65536) % 256 ∷ (n / 256) % 256 ∷ n % 256 ∷ []

-- `read_u32::<LittleEndian>`, from four bytes that have been read
unfoldable pub of_u32_le : ℕ → ℕ → ℕ → ℕ → ℕ
of_u32_le a b c d = a + 256 * b + 65536 * c + 16777216 * d

pub of_u32_le-u32_le :
    (n : ℕ)
    → n < 2 ^ 32
    → of_u32_le (n % 256) ((n / 256) % 256) ((n / 65536) % 256) ((n / 16777216) % 256) ≡ n
unfolding of_u32_le
of_u32_le-u32_le n h = omega arith

-- `read_u32::<BigEndian>`, from four bytes that have been read
unfoldable pub of_u32_be : ℕ → ℕ → ℕ → ℕ → ℕ
of_u32_be a b c d = d + 256 * c + 65536 * b + 16777216 * a

pub of_u32_be-u32_be :
    (n : ℕ)
    → n < 2 ^ 32
    → of_u32_be ((n / 16777216) % 256) ((n / 65536) % 256) ((n / 256) % 256) (n % 256) ≡ n
unfolding of_u32_be
of_u32_be-u32_be n h = omega arith
