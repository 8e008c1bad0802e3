-- ===== src/Config/Parsing.antt =====
-- src/config.rs: `from_env` on an environment that a configuration has been printed to.
use herbert.Prelude.{
  ℕ, zero, suc, ◌+◌, ◌-◌, ◌*◌, ◌/◌, ◌%◌, ◌^◌, ◌≤◌, ◌<◌, ◌≡◌, refl, ◌∙◌, ap, true, false, Option,
  some, inl, inr, [], ◌∷◌, ltb, leb, ◌==◌, arith, Bool-cases, Str, codes, decimal, decimal_onto,
}
use herbert.Config.{
  Config, parse_digits, parse_uint, number_or, path_or, from_env, u16_max, usize_max,
}

parse_digits-digit :
    (max acc d : ℕ) (rest : Str)
    → d < 10
    → acc * 10 + d ≤ max
    → parse_digits max acc ((b'0' + d) ∷ rest) ≡ parse_digits max (acc * 10 + d) rest
unfolding parse_digits
parse_digits-digit max acc d rest digit fits =
    let lower : leb b'0' (b'0' + d) ≡ true = ground arith in
    let upper : leb (b'0' + d) b'9' ≡ true = ground arith in
    let back : (b'0' + d) - b'0' ≡ d = omega arith in
    let inside : ltb max (acc * 10 + d) ≡ false = ground arith in
    rw (lower, upper, back, inside) refl

-- The digits of a number are read back, behind a zero.
parse_digits-decimal_onto :
    (max fuel n : ℕ) (rest : Str)
    → n < 10 ^ fuel
    → n ≤ max
    → parse_digits max 0 (decimal_onto fuel n rest) ≡ parse_digits max n rest
parse_digits-decimal_onto max zero n rest few fits =
    let nothing : n ≡ 0 = omega (arith, few) in rw nothing refl
parse_digits-decimal_onto max (suc fuel) n rest few fits = elim (Bool-cases (ltb n 10)) [
  | inl one ↦
      let whole : n % 10 ≡ n = ground arith in
      let front : 0 * 10 + n ≡ n = omega arith in
      rw (one, whole)
        (parse_digits-digit max 0 n rest (ground arith) (omega (arith, fits))
          ∙ ap (λ k. parse_digits max k rest) front)
  | inr more ↦
      let whole : n / 10 * 10 + n % 10 ≡ n = omega arith in
      let power : 10 ^ suc fuel ≡ 10 ^ fuel * 10 = omega arith in
      rw more (
        parse_digits-decimal_onto max fuel (n / 10) ((b'0' + n % 10) ∷ rest)
          (omega (arith, few, power)) (omega (arith, fits))
        ∙ parse_digits-digit max (n / 10) (n % 10) rest (omega arith) (omega (arith, fits))
        ∙ ap (λ k. parse_digits max k rest) whole)
]

-- A number is printed as digits, of which there is one at least.
StartsWithDigit : Str → Type 0
StartsWithDigit [] = ⊥
StartsWithDigit (c ∷ cs) = b'0' ≤ c

decimal_onto-StartsWithDigit :
    (fuel n : ℕ) (rest : Str) → StartsWithDigit rest → StartsWithDigit (decimal_onto fuel n rest)
unfolding StartsWithDigit
decimal_onto-StartsWithDigit zero n rest h = h
decimal_onto-StartsWithDigit (suc fuel) n rest h = elim (Bool-cases (ltb n 10)) [
  | inl one ↦ rw one (omega arith)
  | inr more ↦
      rw more (decimal_onto-StartsWithDigit fuel (n / 10) ((b'0' + n % 10) ∷ rest) (omega arith))
]

decimal-StartsWithDigit : (n : ℕ) → StartsWithDigit (decimal n)
unfolding StartsWithDigit
decimal-StartsWithDigit n = elim (Bool-cases (ltb n 10)) [
  | inl one ↦ rw one (omega arith)
  | inr more ↦
      rw more (decimal_onto-StartsWithDigit 19 (n / 10) ((b'0' + n % 10) ∷ []) (omega arith))
]

parse_uint-digits :
    (max : ℕ) (s : Str) → StartsWithDigit s → parse_uint max s ≡ parse_digits max 0 s
unfolding StartsWithDigit parse_uint
parse_uint-digits max [] h = absurd h
parse_uint-digits max (c ∷ []) h =
    let no_plus : (c == b'+') ≡ false = ground arith in rw no_plus refl
parse_uint-digits max (c ∷ d ∷ cs) h =
    let no_plus : (c == b'+') ≡ false = ground arith in rw no_plus refl

parse_uint-decimal : (max n : ℕ) → n ≤ max → max ≤ usize_max → parse_uint max (decimal n) ≡ some n
unfolding parse_digits
parse_uint-decimal max n fits small =
    parse_uint-digits max (decimal n) (decimal-StartsWithDigit n)
    ∙ parse_digits-decimal_onto max 20 n [] (omega arith) fits
    ∙ refl

number_or-decimal :
    (max d n : ℕ) (o : Option Str)
    → n ≤ max
    → max ≤ usize_max
    → o ≡ some (decimal n)
    → number_or max d o ≡ n
unfolding number_or
number_or-decimal max d n o fits small e =
    rw (e, number_or, parse_uint-decimal max n fits small) refl

path_or-some : (d p : Str) (o : Option Str) → o ≡ some p → path_or d o ≡ p
unfolding path_or
path_or-some d p o e = rw (e, path_or) refl

-- The environment has each field of the configuration under its name, numbers in decimal.
pub record IsPrinted (var : Str → Option Str) (c : Config) : Type 0 where
  pub kafka_port_set : var (codes "KAFKA_PORT") ≡ some (decimal c.kafka_port)
  pub herbert_port_set : var (codes "HERBERT_PORT") ≡ some (decimal c.herbert_port)
  pub messages_set :
      var (codes "NUM_UNCOMMITTED_MESSAGES") ≡ some (decimal c.num_uncommitted_messages)
  pub wal_path_set : var (codes "WAL_PATH") ≡ some c.wal_path
  pub offset_path_set : var (codes "OFFSET_PATH") ≡ some c.offset_path

-- A configuration that is printed to the environment is what `from_env` reads, if its ports are of
-- 16 bits and its count is of 64 bits.
pub from_env-IsPrinted :
    (var : Str → Option Str) (c : Config)
    → c.kafka_port ≤ u16_max
    → c.herbert_port ≤ u16_max
    → c.num_uncommitted_messages ≤ usize_max
    → IsPrinted var c
    → from_env var ≡ c
unfolding from_env
from_env-IsPrinted var c kafka herbert messages h =
    rw
      (
        number_or-decimal u16_max 9001 c.kafka_port _ kafka (omega arith) h.kafka_port_set,
        number_or-decimal u16_max 9002 c.herbert_port _ herbert (omega arith) h.herbert_port_set,
        number_or-decimal usize_max 1 c.num_uncommitted_messages _ messages (omega arith)
            h.messages_set,
        path_or-some (codes "herbert.wal") c.wal_path _ h.wal_path_set,
        path_or-some (codes "herbert_offset.json") c.offset_path _ h.offset_path_set,
      )
      refl
