-- ===== src/Tests/Toy.antt =====
-- Concrete stand-ins for the crates and the disk, with their laws, for the examples.
use herbert.Prelude.{
  ℕ, zero, suc, ◌≡◌, refl, ap, Bool, true, false, none, some, inr, List, [], ◌∷◌, ◌++◌, append-nil,
  arith, ◌==◌, ==_iff, length, take, drop, map, bytes_eq, Bytes, Str, decimal, codes,
}
use herbert.Prelude.Int.{ℤ, pos, negsuc}
use herbert.HashMap.{HashMap}
use herbert.Config.{Config}
use herbert.Arrow.{Arrow, ArrowLaws, continuation}
use herbert.BufWriter.{OsFile, TakesAll}
use herbert.OffsetManager.Operations.{Json, JsonLaws, OffsetFile}

-- A head with a mark, and the numbers that follow it.
abbrev Chunk : Type 0
Chunk = (Bool × ℕ) × List ℕ

abbrev encode_row : List ℕ → List ℕ → List ℕ
encode_row [] rest = rest
encode_row (r ∷ rs) rest = 1 ∷ r ∷ encode_row rs rest

abbrev encode : List Chunk → List ℕ
encode [] = []
encode (((false, x), row) ∷ cs) = 0 ∷ x ∷ encode_row row (encode cs)
encode (((true, x), row) ∷ cs) = 2 ∷ x ∷ encode_row row (encode cs)

-- What follows before the next head, and the chunks from there on.
abbrev decode : List ℕ → List ℕ × List Chunk
decode [] = ([], [])
decode (t ∷ []) = ([], [])
decode (zero ∷ x ∷ rest) = ([], ((false, x), (decode rest).0) ∷ (decode rest).1)
decode (suc zero ∷ x ∷ rest) = (x ∷ (decode rest).0, (decode rest).1)
decode (suc (suc t) ∷ x ∷ rest) = ([], ((true, x), (decode rest).0) ∷ (decode rest).1)

decode-encode_row :
    (row rest : List ℕ) → decode (encode_row row rest) ≡ (row ++ (decode rest).0, (decode rest).1)
decode-encode_row [] rest = refl
decode-encode_row (r ∷ rs) rest = rw (decode-encode_row rs rest) refl

decode-encode : (cs : List Chunk) → decode (encode cs) ≡ ([], cs)
decode-encode [] = refl
decode-encode (((false, x), row) ∷ cs) =
    rw (decode-encode_row row (encode cs), decode-encode cs, append-nil) refl
decode-encode (((true, x), row) ∷ cs) =
    rw (decode-encode_row row (encode cs), decode-encode cs, append-nil) refl

-- A batch is its schema, a number, and its rows.
abbrev pub Batch : Type 0
Batch = ℕ × List ℕ

abbrev to_chunk : Batch → Chunk
to_chunk (schema, rows) = ((false, schema), rows)

abbrev of_chunk : Chunk → Batch
of_chunk ((_, schema), rows) = (schema, rows)

of_chunk-to_chunk : (bs : List Batch) → map of_chunk (map to_chunk bs) ≡ bs
of_chunk-to_chunk [] = refl
of_chunk-to_chunk (b ∷ bs) = ap (◌∷◌ b) (of_chunk-to_chunk bs)

abbrev pub stream : List Batch → Bytes
stream bs = continuation ++ 0 ∷ 0 ∷ 0 ∷ 0 ∷ encode (map to_chunk bs)

abbrev pub arrow : Arrow ℕ Batch ℕ
arrow = record {
  schema = λ b. b.0;
  num_rows = λ b. length b.1;
  slice = λ b offset len. (b.0, take len (drop offset b.1));
  schema_beq = λ s t. s == t;
  schema_debug = λ s. decimal s;
  write_stream = λ _ bs. inr (stream bs);
  read_stream = λ bytes. inr (map inr (map of_chunk (decode (drop 8 bytes)).1));
}

pub read-stream : (bs : List Batch) → arrow.read_stream (stream bs) ≡ inr (map inr bs)
read-stream bs = rw (decode-encode (map to_chunk bs), of_chunk-to_chunk bs) refl

abbrev pub arrow_laws : ArrowLaws arrow ℕ
arrow_laws = record {
  rows = λ b. b.1;
  length-rows = λ b. refl;
  rows-slice = λ b offset len h. refl;
  schema-slice = λ b offset len. refl;
  schema_beq_iff = λ s t. ==_iff s t;
  read-write = λ s bs out h e. let same : stream bs ≡ out = cc in rw (← same) (read-stream bs);
  write_marker = λ s bs out e. let same : stream bs ≡ out = cc in rw (← same) (omega arith, refl);
}

abbrev pub config : Config
config = record {
  kafka_port = 9001;
  herbert_port = 9002;
  num_uncommitted_messages = 1;
  wal_path = codes "w";
  offset_path = codes "o";
}

-- A disk with room for everything.
abbrev pub os : OsFile
os = record { accept = λ _ chunk. inr (length chunk) }

pub os_takes : TakesAll os
os_takes file chunk = refl

abbrev pub disk : OffsetFile
disk = record { write = λ _ text. (none, some text) }

abbrev to_entry : Str × ℤ → Chunk
to_entry (k, pos n) = ((false, n), k)
to_entry (k, negsuc n) = ((true, n), k)

abbrev of_entry : Chunk → Str × ℤ
of_entry ((false, n), k) = (k, pos n)
of_entry ((true, n), k) = (k, negsuc n)

of_entry-to_entry : (m : HashMap Str ℤ) → map of_entry (map to_entry m) ≡ m
of_entry-to_entry [] = refl
of_entry-to_entry ((k, pos n) ∷ m) = ap (◌∷◌ (k, pos n)) (of_entry-to_entry m)
of_entry-to_entry ((k, negsuc n) ∷ m) = ap (◌∷◌ (k, negsuc n)) (of_entry-to_entry m)

abbrev pub json : Json
json = record {
  to_string = λ m. some (encode (map to_entry m));
  from_slice = λ text. some (map of_entry (decode text).1);
}

pub json_laws : JsonLaws json
json_laws = record {
  from_slice-to_string = λ m unique. (
    encode (map to_entry m),
    refl,
    m,
    rw (decode-encode (map to_entry m), of_entry-to_entry m) refl,
    unique,
    λ k. refl,
  );
}
