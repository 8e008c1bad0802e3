-- ===== src/Client/CatchUp.antt =====
-- src/client.rs: the loop of `consume_continuos` on a topic of raw records.
use herbert.Prelude.{
  ℕ, suc, ◌+◌, ◌^◌, ◌<◌, ◌≡◌, ◌≢◌, refl, ap, ◌∙◌, true, false, ◌||◌, inl, inr, Bool-cases, take,
  bytes_beq, codes, List, [], ◌∷◌, All, arith, ltb, length, drop, drop_all, length-drop, bytes_eq,
  Bytes, Str,
}
use herbert.Prelude.Int.{ℤ, pos}
use herbert.Outcome.{Outcome, ok}
use herbert.Arrow.{Arrow, continuation}
use herbert.BufWriter.{OsFile}
use herbert.Storage.InMemoryLog.{log_storage}
use herbert.Storage.InMemoryLog.RawTopic.{join}
use herbert.OffsetManager.Operations.{Json, OffsetFile, Saved}
use herbert.OffsetManager.Operations as Offsets
use herbert.KafkaApi.Committed.{get_offset-set_offset}
use herbert.Server.Dispatch.{Protocol}
use herbert.Client.Stream.{Stream, Codec}
use herbert.Client.Consume.{
  split, add_i64, print_parts, count_parts, count_records, advance, consume_rounds,
}
use herbert.Client.Split.{split-join}
use herbert.Utf8.{is_utf8, from_utf8}
use herbert.Client.Split.{HasNoZero}
use herbert.Client.Wire.{wire}
use herbert.Client.Responses.{ResponseLaws}
use herbert.Client.Fetching.{get_records-wire}
use herbert.Client.Committing.{set_offset-wire}
use herbert.Client.RawTopic.{
  add_i64-pos, Client, Manager, Holds, fetched, fetch-Holds, Fetches, Commits, consume_rounds-idle,
}

-- The parts are printed, and counted.
print_parts-ok :
    {Schema Batch Fault : Type 0} (arrow : Arrow Schema Batch Fault) (parts : List Bytes)
    → All (λ part. is_utf8 part ≡ true) parts
    → print_parts arrow parts ≡ ok tt
unfolding print_parts from_utf8
print_parts-ok arrow [] h = refl
print_parts-ok arrow (part ∷ parts) h = rw (from_utf8, h.0, print_parts-ok arrow parts h.1) refl

-- What does not start as arrow's bytes do.
abbrev pub IsPlain : Bytes → Type 0
IsPlain records =
    (bytes_beq (take 6 records) (codes "ARROW1") || bytes_beq (take 4 records) continuation) ≡ false

count_records-split :
    {Schema Batch Fault : Type 0} (arrow : Arrow Schema Batch Fault) (records : Bytes)
    (parts : List Bytes)
    → IsPlain records
    → split records ≡ parts
    → All (λ part. is_utf8 part ≡ true) parts
    → count_records arrow records ≡ ok (length parts)
unfolding count_records count_parts
count_records-split arrow records parts plain e text =
    let counted : count_parts arrow records ≡ ok (length parts) =
      rw (count_parts, e, print_parts-ok arrow parts text) refl in
    elim (Bool-cases (ltb (length records) 8)) [
      | inl short ↦ rw (count_records, short) counted
      | inr long ↦ rw (count_records, long, plain) counted
    ]

module _ {Schema Batch Fault : Type 0} (arrow : Arrow Schema Batch Fault) (os : OsFile)
    (json : Json) (disk : OffsetFile) (protocol : Protocol) (codec : Codec)
    (laws : ResponseLaws codec protocol) (opened : Client arrow os json disk protocol codec laws)
    (group topic : Str) (max_messages : ℤ) where
  abbrev stream : Stream (Client arrow os json disk protocol codec laws)
  stream = wire arrow os (log_storage arrow) json disk protocol opened

  abbrev pub after_rounds :
      ℕ
      → ℤ
      → Manager arrow os json disk protocol codec laws
      → Saved
      → Outcome Fault ℤ × Client arrow os json disk protocol codec laws
  after_rounds rounds offset tm s =
      consume_rounds arrow codec stream rounds topic max_messages group offset
        (record { server = (tm, s); inbox = [] })

  advance-join :
      (k n : ℕ) (p : Bytes) (qs : List Bytes) (tm : Manager arrow os json disk protocol codec laws)
      (s : Saved)
      → s.0.offsets.poisoned ≡ false
      → k + length (p ∷ qs) ≡ n
      → n < 2 ^ 63
      → (records : Bytes) → records ≢ []
      → IsPlain records
      → split records ≡ p ∷ qs
      → All (λ part. is_utf8 part ≡ true) (p ∷ qs)
      → Commits arrow os json disk protocol codec laws group topic (pos n)
      → advance arrow codec stream topic group
          (pos k)
          records
          (record { server = (tm, s); inbox = [] })
        ≡ (
          ok (pos n),
          record {
            server = (tm, (Offsets.set_offset {Fault = Fault} json disk group topic (pos n) s).1);
            inbox = [];
          },
        )
  unfolding advance
  advance-join k n p qs tm s live count few [] some_records plain e text commits =
      absurd (some_records refl)
  advance-join k n p qs tm s live count few (c ∷ cs) some_records plain e text commits =
      let next : add_i64 (pos k) (length (p ∷ qs)) ≡ pos n =
        add_i64-pos k (length (p ∷ qs)) (omega (arith, count, few)) ∙ ap pos count in
      rw
        (
          count_records-split arrow (c ∷ cs) (p ∷ qs) plain e text,
          next,
          set_offset-wire arrow os (log_storage arrow) json disk protocol codec laws opened group
              topic (pos n) tm s commits live,
        )
        refl

  -- A consumer that runs catches up: after its first round, and after each later one, its offset is
  -- the number of the records of the topic, and that is the offset that the server has for its group,
  -- once the server has handled what the client wrote, as it does on this wire at each write.
  -- The records from its first offset on are UTF-8 with no zero byte, do not look like arrow's
  -- when joined, and are not one empty record; the requests arrive, a fetch request but for its `max_bytes`, the lock of the offsets is not
  -- poisoned, the index of the log agrees with its records, of which there are fewer than 2 ^ 63.
  pub consume_rounds-catch_up :
      (k : ℕ) (ps : List Bytes) (p : Bytes) (qs : List Bytes) (rounds : ℕ)
      (tm : Manager arrow os json disk protocol codec laws) (s : Saved)
      → Holds arrow os json disk protocol codec laws topic ps tm
      → s.0.offsets.poisoned ≡ false
      → drop k ps ≡ p ∷ qs
      → join (p ∷ qs) ≢ []
      → IsPlain (join (p ∷ qs))
      → All HasNoZero (p ∷ qs)
      → All (λ part. is_utf8 part ≡ true) (p ∷ qs)
      → length ps < 2 ^ 63
      → Fetches arrow os json disk protocol codec laws topic max_messages (pos k) (join (p ∷ qs))
      → Commits arrow os json disk protocol codec laws group topic (pos (length ps))
      → Fetches arrow os json disk protocol codec laws topic max_messages (pos (length ps)) []
      → ((after_rounds (suc rounds) (pos k) tm s).0 ≡ ok (pos (length ps)))
        × (Offsets.get_offset {Fault = Fault} group topic
              (after_rounds (suc rounds) (pos k) tm s).1.server.1.0
            ≡ ok (pos (length ps)))
  unfolding consume_rounds
  consume_rounds-catch_up k ps p qs rounds tm s h live unread some_records plain whole text few x
        commits last =
      let found = fetch-Holds arrow os json disk protocol codec laws topic k ps tm h in
      let caught_up = fetched arrow os json disk protocol codec laws topic (pos k) tm in
      let saved =
        (Offsets.set_offset {Fault = Fault} json disk group topic (pos (length ps)) s).1 in
      let count : k + length (p ∷ qs) ≡ length ps =
        omega (arith, length-drop k ps, ap length unread) in
      let idle =
        consume_rounds-idle arrow os json disk protocol codec laws opened group topic max_messages
          (length ps) ps caught_up saved found.1 (ap join (drop_all ps)) last rounds in
      rw
        (
          get_records-wire arrow os (log_storage arrow) json disk protocol codec laws opened topic
              max_messages (pos k) (tm, s) (join (p ∷ qs)) caught_up x.carried x.arrives
              (found.0 ∙ ap (λ rs. (ok (join rs), caught_up)) unread) x.small,
          advance-join k (length ps) p qs caught_up s live count few (join (p ∷ qs)) some_records
              plain (split-join p qs whole) text commits,
        )
        (
          idle.0,
          rw idle.1 (get_offset-set_offset Fault json disk group topic (pos (length ps)) s live),
        )
