-- ===== src/Client/RawTopic.antt =====
-- src/client.rs with src/server.rs and src/storage/in_memory_log.rs: a consumer of a topic of raw
-- records.
use herbert.Prelude.{
  ℕ, zero, suc, ◌+◌, ◌^◌, ◌<◌, ◌≤◌, ◌≡◌, ◌≢◌, refl, ap, ◌∙◌, true, false, List, [], ◌∷◌, map, All,
  arith, ltb, length, drop, length-drop, bytes_eq, Bytes, Str,
}
use herbert.Prelude.Int.{ℤ, pos}
use herbert.HashMap.{queue_at}
use herbert.Outcome.{Outcome, ok}
use herbert.Arrow.{Arrow}
use herbert.BufWriter.{OsFile}
use herbert.Storage.Record.{raw}
use herbert.Storage.InMemoryLog.{InMemoryLog, log_storage}
use herbert.Storage.InMemoryLog as Log
use herbert.Storage.InMemoryLog.Index.{IsIndexed}
use herbert.Storage.InMemoryLog.Fetch.{fetch-IsIndexed}
use herbert.Storage.InMemoryLog.RawTopic.{join, fetch_raw}
use herbert.TopicManager.Operations.{TopicManager}
use herbert.TopicManager.Operations as Topics
use herbert.OffsetManager.Operations.{Json, OffsetFile, Saved}
use herbert.OffsetManager.Operations as Offsets
use herbert.KafkaApi.Topics.{create_fetch_request}
use herbert.KafkaApi.Offsets.{create_offset_commit_request, create_offset_fetch_request}
use herbert.Server.Dispatch.{offset_commit, offset_fetch, fetch, Protocol}
use herbert.Client.Stream.{Stream, Codec}
use herbert.Client.Requests.{fetch_key, offset_commit_key, offset_fetch_key}
use herbert.Client.Consume.{split, add_i64, consume_on, advance, consume_rounds}
use herbert.Client.Split.{HasNoZero, split-join}
use herbert.Client.Wire.{Arrives, Wire, wire}
use herbert.Client.Responses.{
  IsSendable, ResponseLaws, offset_body, records_body, reply_size, reply,
}
use herbert.Client.Fetching.{with_max_bytes, get_records-wire}
use herbert.Client.Progress.{consume_on-split}

pub add_i64-pos : (k n : ℕ) → k + n < 2 ^ 63 → add_i64 (pos k) n ≡ pos (k + n)
unfolding add_i64
add_i64-pos k n small = let fits : ltb (k + n) (2 ^ 63) ≡ true = ground arith in rw fits refl

module _ {Schema Batch Fault : Type 0} (arrow : Arrow Schema Batch Fault) (os : OsFile)
    (json : Json) (disk : OffsetFile) (protocol : Protocol) (codec : Codec)
    (laws : ResponseLaws codec protocol) where
  abbrev pub Manager : Type 0
  Manager = TopicManager Schema Batch (InMemoryLog Batch)

  abbrev pub Client : Type 0
  Client = Wire arrow os (log_storage arrow) json disk protocol

  -- The topic holds these payloads, and the index of the log agrees with its records.
  pub record Holds (topic : Str) (ps : List Bytes) (tm : Manager) : Type 0 where
    pub indexed : IsIndexed arrow tm.backend
    pub records_are : queue_at topic tm.backend.topics.inner ≡ map raw ps

  abbrev pub fetched : Str → ℤ → Manager → Manager
  fetched topic offset tm = record tm { backend = (Log.fetch arrow topic offset tm.backend).1 }

  pub fetch-Holds :
      (topic : Str) (k : ℕ) (ps : List Bytes) (tm : Manager)
      → Holds topic ps tm
      → (Topics.fetch arrow os (log_storage arrow) topic (pos k) tm
          ≡ (ok (join (drop k ps)), fetched topic (pos k) tm))
        × Holds topic ps (fetched topic (pos k) tm)
  unfolding Topics.fetch
  fetch-Holds topic k ps tm h = (
    rw (Topics.fetch, fetch_raw arrow topic k ps tm.backend h.indexed h.records_are) refl,
    record {
      indexed = (fetch-IsIndexed arrow topic (pos k) tm.backend h.indexed).0;
      records_are =
          (fetch-IsIndexed arrow topic (pos k) tm.backend h.indexed).1 topic ∙ h.records_are;
    },
  )

  -- The request for the offset arrives, and the response fits the buffer of the client.
  pub record Asks (group topic : Str) (offset : ℤ) : Type 0 where
    pub arrives :
        Arrives codec protocol codec.offset_fetch protocol.decode_offset_fetch offset_fetch_key
          (pos 6)
          offset_fetch
          (create_offset_fetch_request group topic)
    pub fits :
        length (
          reply protocol arrives.carried.header arrives.carried.size
            (offset_body protocol topic offset))
        ≤ 512
    pub sendable : IsSendable topic offset

  -- The request for the records at an offset arrives, but for its `max_bytes`, and the response can
  -- carry the records: the size of it is one of 32 bits.
  pub record Fetches (topic : Str) (max_messages offset : ℤ) (records : Bytes) : Type 0 where
    pub arrives :
        Arrives codec protocol codec.fetch
          (with_max_bytes max_messages protocol.decode_fetch)
          fetch_key
          (pos 1)
          fetch
          (create_fetch_request topic max_messages offset)
    pub small :
        reply_size protocol arrives.carried.header arrives.carried.size
          (records_body protocol records)
        < 2 ^ 32
    pub carried : length records < 2 ^ 31

  abbrev pub Commits : (group topic : Str) (offset : ℤ) → Type 0
  Commits group topic offset =
      Arrives codec protocol codec.offset_commit protocol.decode_offset_commit offset_commit_key
        (pos 9) offset_commit (create_offset_commit_request group topic offset)

  module _ (opened : Client) (group topic : Str) (max_messages : ℤ) (k : ℕ) (ps : List Bytes) where
    abbrev pub opened_wire : Stream Client
    opened_wire = wire arrow os (log_storage arrow) json disk protocol opened

    abbrev pub consumed : Manager → Saved → Outcome Fault (List Bytes) × Client
    consumed tm s =
        consume_on arrow codec opened_wire topic max_messages group
          (record { server = (tm, s); inbox = [] })

    -- The records from the offset of the group on are split, and the offset moves on by the number of
    -- the parts.
    consume_on-drop-split :
        (p : Bytes) (qs : List Bytes) (n : ℕ) (tm : Manager) (s : Saved)
        → Holds topic ps tm
        → s.0.offsets.poisoned ≡ false
        → Offsets.get_offset {Fault = Fault} group topic s.0 ≡ ok (pos k)
        → join (drop k ps) ≢ []
        → split (join (drop k ps)) ≡ p ∷ qs
        → k + length (p ∷ qs) ≡ n
        → n < 2 ^ 63
        → Asks group topic (pos k)
        → Fetches topic max_messages (pos k) (join (drop k ps))
        → Commits group topic (pos n)
        → ((consumed tm s).0 ≡ ok (p ∷ qs))
          × ((consumed tm s).1.inbox ≡ [])
          × Holds topic ps (consumed tm s).1.server.0
          × (Offsets.get_offset {Fault = Fault} group topic (consumed tm s).1.server.1.0
              ≡ ok (pos n))
    consume_on-drop-split p qs n tm s h live committed some_records parted count few a x commits =
        let next : add_i64 (pos k) (length (p ∷ qs)) ≡ pos n =
          add_i64-pos k (length (p ∷ qs)) (omega (arith, count, few)) ∙ ap pos count in
        let done =
          consume_on-split arrow os (log_storage arrow) json disk protocol codec laws opened group
            topic max_messages (pos k) tm (fetched topic (pos k) tm) s a.arrives x.arrives
            a.sendable live committed a.fits p qs (join (drop k ps)) some_records parted
            (rw next commits) x.carried (fetch-Holds topic k ps tm h).0 x.small in
        (done.0, done.1, rw done.2 (fetch-Holds topic k ps tm h).1, done.3 ∙ ap ok next)

    -- A consumer gets the records of the topic from the offset of its group on, each as it was
    -- produced, and once the server has handled what the client wrote, as it does on this wire at
    -- each write, the group's offset is the number of the records; the topic keeps them. There is
    -- such a record, they are not one empty record, and no one has a zero byte; the requests arrive,
    -- the fetch request but for its `max_bytes`, the responses fit the client's buffers, the lock
    -- of the offsets is not poisoned, the index of the log agrees with its records, of which there
    -- are fewer than 2 ^ 63.
    pub consume_on-drop :
        (p : Bytes) (qs : List Bytes) (tm : Manager) (s : Saved)
        → Holds topic ps tm
        → s.0.offsets.poisoned ≡ false
        → Offsets.get_offset {Fault = Fault} group topic s.0 ≡ ok (pos k)
        → drop k ps ≡ p ∷ qs
        → join (p ∷ qs) ≢ []
        → All HasNoZero (p ∷ qs)
        → length ps < 2 ^ 63
        → Asks group topic (pos k)
        → Fetches topic max_messages (pos k) (join (p ∷ qs))
        → Commits group topic (pos (length ps))
        → ((consumed tm s).0 ≡ ok (p ∷ qs))
          × ((consumed tm s).1.inbox ≡ [])
          × Holds topic ps (consumed tm s).1.server.0
          × (Offsets.get_offset {Fault = Fault} group topic (consumed tm s).1.server.1.0
              ≡ ok (pos (length ps)))
    consume_on-drop p qs tm s h live committed unread some_records whole few a x commits =
        consume_on-drop-split p qs (length ps) tm s h live committed (rw unread some_records)
          (ap (λ rs. split (join rs)) unread ∙ split-join p qs whole)
          (omega (arith, length-drop k ps, ap length unread)) few a (rw unread x) commits

    -- A consumer that is answered with no bytes stays where it is, for any number of rounds, and
    -- commits nothing: where it has read all records, but also where the only record that it has not
    -- read is empty. The request arrives, but for its `max_bytes`, the server handles it when it is
    -- written, and the index of the log agrees with its records.
    pub consume_rounds-idle :
        (tm : Manager) (s : Saved)
        → Holds topic ps tm
        → join (drop k ps) ≡ []
        → Fetches topic max_messages (pos k) []
        → (rounds : ℕ)
        → ((consume_rounds arrow codec opened_wire rounds topic max_messages group
              (pos k)
              (record { server = (tm, s); inbox = [] })).0
            ≡ ok (pos k))
          × ((consume_rounds arrow codec opened_wire rounds topic max_messages group
                (pos k)
                (record { server = (tm, s); inbox = [] })).1.server.1
              ≡ s)
    unfolding consume_rounds advance
    consume_rounds-idle tm s h nothing x zero = (refl, refl)
    consume_rounds-idle tm s h nothing x (suc rounds) =
        let found = fetch-Holds topic k ps tm h in
        rw
          (get_records-wire arrow os (log_storage arrow) json disk protocol codec laws opened topic
            max_messages (pos k) (tm, s) [] (fetched topic (pos k) tm) x.carried x.arrives
            (found.0 ∙ ap (λ records. (ok records, fetched topic (pos k) tm)) nothing) x.small)
          (consume_rounds-idle (fetched topic (pos k) tm) s found.1 nothing x rounds)
