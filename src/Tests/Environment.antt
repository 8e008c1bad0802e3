-- ===== src/Tests/Environment.antt =====
-- An example for src/config.rs.
use herbert.Prelude.{◌≡◌, refl, Option, some, arith, if◌then◌else◌, bytes_beq, Str, codes}
use herbert.Config.{Config, from_env}
use herbert.Config.Parsing.{from_env-IsPrinted}

abbrev printed : Config
printed = record {
  kafka_port = 9003;
  herbert_port = 65535;
  num_uncommitted_messages = 120;
  wal_path = codes "w";
  offset_path = codes "o";
}

abbrev var : Str → Option Str
var name =
    if bytes_beq name (codes "KAFKA_PORT")
    then some (codes "9003")
    else if bytes_beq name (codes "HERBERT_PORT")
    then some (codes "65535")
    else if bytes_beq name (codes "NUM_UNCOMMITTED_MESSAGES")
    then some (codes "120")
    else if bytes_beq name (codes "WAL_PATH")
    then some (codes "w")
    else some (codes "o")

from_env-IsPrinted_example : from_env var ≡ printed
from_env-IsPrinted_example =
    from_env-IsPrinted var printed (omega arith) (omega arith) (omega arith) (record {
      kafka_port_set = refl;
      herbert_port_set = refl;
      messages_set = refl;
      wal_path_set = refl;
      offset_path_set = refl;
    })
