-- ===== src/Config.antt =====
-- src/config.rs
pub mod Parsing
use herbert.Prelude.{
  ℕ, ◌+◌, ◌-◌, ◌*◌, ◌≡◌, refl, ◌&&◌, Option, none, some, [], ◌∷◌, ltb, leb, ◌==◌, if◌then◌else◌,
  Str, codes,
}

pub record Config : Type 0 where
  pub kafka_port : ℕ
  pub herbert_port : ℕ
  pub num_uncommitted_messages : ℕ
  pub wal_path : Str
  pub offset_path : Str

-- The digits of `str::parse` at an unsigned type: values up to `max`, checked at each digit.
unfoldable pub parse_digits : ℕ → ℕ → Str → Option ℕ
parse_digits max acc [] = some acc
parse_digits max acc (c ∷ cs) =
    let n = acc * 10 + (c - b'0') in
    let rest = parse_digits max n cs in
    if leb b'0' c && leb c b'9' then (if ltb max n then none else rest) else none

-- `str::parse`: one `+` may stand in front, and there is at least one digit.
unfoldable pub parse_uint : ℕ → Str → Option ℕ
unfolding parse_digits
parse_uint max [] = none
parse_uint max (c ∷ []) = if c == b'+' then none else parse_digits max 0 (c ∷ [])
parse_uint max (c ∷ d ∷ cs) =
    if c == b'+' then parse_digits max 0 (d ∷ cs) else parse_digits max 0 (c ∷ d ∷ cs)

abbrev pub u16_max : ℕ
u16_max = 65535

abbrev pub usize_max : ℕ
usize_max = 18446744073709551615

-- `env::var(name).ok().and_then(|p| p.parse().ok()).unwrap_or(default)`
unfoldable pub number_or : ℕ → ℕ → Option Str → ℕ
number_or max default none = default
number_or max default (some p) = elim (parse_uint max p) [ none ↦ default | some n ↦ n ]

unfoldable pub path_or : Str → Option Str → Str
path_or default none = default
path_or default (some p) = p

-- The environment gives the value of each variable that is set and is valid Unicode.
unfoldable pub from_env : (Str → Option Str) → Config
unfolding number_or path_or
from_env var = record {
  kafka_port = number_or u16_max 9001 (var (codes "KAFKA_PORT"));
  herbert_port = number_or u16_max 9002 (var (codes "HERBERT_PORT"));
  num_uncommitted_messages = number_or usize_max 1 (var (codes "NUM_UNCOMMITTED_MESSAGES"));
  wal_path = path_or (codes "herbert.wal") (var (codes "WAL_PATH"));
  offset_path = path_or (codes "herbert_offset.json") (var (codes "OFFSET_PATH"));
}

unfoldable pub default : Config
default = record {
  kafka_port = 9001;
  herbert_port = 9002;
  num_uncommitted_messages = 1;
  wal_path = codes "herbert.wal";
  offset_path = codes "herbert_offset.json";
}

unfoldable pub test_default : Config
test_default = record {
  kafka_port = 9001;
  herbert_port = 9002;
  num_uncommitted_messages = 1;
  wal_path = codes "test.wal";
  offset_path = codes "test_offset.json";
}

unfoldable pub with_wal_path : Config → Str → Config
with_wal_path c path = record c { wal_path = path }

unfoldable pub with_offset_path : Config → Str → Config
with_offset_path c path = record c { offset_path = path }

-- With no variable set, `from_env` gives the configuration of `default`.
pub from_env-unset : from_env (λ _. none) ≡ default
unfolding from_env default
from_env-unset = refl
