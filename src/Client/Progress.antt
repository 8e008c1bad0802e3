-- ===== src/Client/Progress.antt =====
-- src/client.rs with src/server.rs: a consumer of raw records, from its offset to the one that it
-- commits.
use herbert.Prelude.{
  arith, ◌^◌, ◌<◌, ◌≤◌, ◌≡◌, ◌≢◌, refl, ◌∙◌, false, List, [], ◌∷◌, length, bytes_eq, pair_eq, Bytes,
  Str,
}
use herbert.Prelude.Int.{ℤ, pos}
use herbert.Outcome.{Outcome, ok}
use herbert.Arrow.{Arrow}
use herbert.BufWriter.{OsFile}
use herbert.Storage.Record.{RecordStorage}
use herbert.TopicManager.Operations.{TopicManager}
use herbert.TopicManager.Operations as Topics
use herbert.OffsetManager.Operations.{Json, OffsetFile, Saved}
use herbert.OffsetManager.Operations as Offsets
use herbert.KafkaApi.Topics.{create_fetch_request}
use herbert.KafkaApi.Offsets.{create_offset_commit_request, create_offset_fetch_request}
use herbert.KafkaApi.Committed.{get_offset-set_offset}
use herbert.Server.Dispatch.{offset_commit, offset_fetch, fetch, Protocol}
use herbert.Client.Stream.{Codec}
use herbert.Client.Requests.{fetch_key, offset_commit_key, offset_fetch_key}
use herbert.Client.Consume.{split, add_i64, consume_parts, consume_on}
use herbert.Client.Wire.{Arrives, Wire, wire}
use herbert.Client.Responses.{
  IsSendable, ResponseLaws, offset_body, records_body, reply_size, reply,
}
use herbert.Client.Asking.{get_offset-wire}
use herbert.Client.Fetching.{with_max_bytes, get_records-wire}
use herbert.Client.Committing.{set_offset-wire}

module _ {Schema Batch Fault S : Type 0} (arrow : Arrow Schema Batch Fault) (os : OsFile)
    (storage : RecordStorage Batch Fault S) (json : Json) (disk : OffsetFile) (protocol : Protocol)
    (codec : Codec) (laws : ResponseLaws codec protocol)
    (opened : Wire arrow os storage json disk protocol) (group topic : Str)
    (max_messages offset : ℤ) (tm tm' : TopicManager Schema Batch S) (s : Saved)
    (asks : Arrives codec protocol codec.offset_fetch protocol.decode_offset_fetch offset_fetch_key
      (pos 6)
      offset_fetch
      (create_offset_fetch_request group topic))
    (fetches : Arrives codec protocol codec.fetch
      (with_max_bytes max_messages protocol.decode_fetch)
      fetch_key
      (pos 1)
      fetch
      (create_fetch_request topic max_messages offset))
    (sendable : IsSendable topic offset) (live : s.0.offsets.poisoned ≡ false)
    (committed : Offsets.get_offset {Fault = Fault} group topic s.0 ≡ ok offset)
    (fits : length
        (reply protocol asks.carried.header asks.carried.size (offset_body protocol topic offset))
      ≤ 512) where
  abbrev run : Outcome Fault (List Bytes) × Wire arrow os storage json disk protocol
  run =
      consume_on arrow codec (wire arrow os storage json disk protocol opened) topic max_messages
        group (record { server = (tm, s); inbox = [] })

  -- The records that the server holds at the offset are fetched, and passed on.
  consume_on-parts :
      (records : Bytes)
      → length records < 2 ^ 31
      → Topics.fetch arrow os storage topic offset tm ≡ (ok records, tm')
      → reply_size protocol fetches.carried.header fetches.carried.size
          (records_body protocol records)
        < 2 ^ 32
      → run
        ≡ consume_parts arrow codec
            (wire arrow os storage json disk protocol opened)
            topic
            group
            offset
            records
            (record { server = (tm', s); inbox = [] })
  unfolding consume_on
  consume_on-parts records carried e small =
      rw
        (
          get_offset-wire arrow os storage json disk protocol codec laws opened group topic offset
              (tm, s) asks sendable committed fits,
          get_records-wire arrow os storage json disk protocol codec laws opened topic max_messages
              offset (tm, s) records tm' carried fetches e small,
        )
        refl

  -- Where the server answers with no records, the consumer gets none and commits nothing.
  pub consume_on-nothing :
      Topics.fetch arrow os storage topic offset tm ≡ (ok [], tm')
      → reply_size protocol fetches.carried.header fetches.carried.size (records_body protocol [])
        < 2 ^ 32
      → run ≡ (ok [], record { server = (tm', s); inbox = [] })
  unfolding consume_parts
  consume_on-nothing e small = consume_on-parts [] (omega arith) e small ∙ refl

  module _ (p : Bytes) (ps : List Bytes) (records : Bytes) (some_records : records ≢ [])
      (parted : split records ≡ p ∷ ps)
      (commits : Arrives codec protocol codec.offset_commit protocol.decode_offset_commit
        offset_commit_key
        (pos 9)
        offset_commit
        (create_offset_commit_request group topic (add_i64 offset (length (p ∷ ps))))) where
    abbrev after : Saved
    after =
        (Offsets.set_offset {Fault = Fault} json disk group topic (add_i64 offset (length (p ∷ ps)))
          s).1

    parts-commit :
        (bytes : Bytes)
        → bytes ≢ []
        → split bytes ≡ p ∷ ps
        → consume_parts arrow codec
            (wire arrow os storage json disk protocol opened)
            topic
            group
            offset
            bytes
            (record { server = (tm', s); inbox = [] })
          ≡ (ok (p ∷ ps), record { server = (tm', after); inbox = [] })
    unfolding consume_parts
    parts-commit [] some_bytes e = absurd (some_bytes refl)
    parts-commit (c ∷ cs) some_bytes e =
        rw
          (
            e,
            set_offset-wire arrow os storage json disk protocol codec laws opened group topic
                (add_i64 offset (length (p ∷ ps))) tm' s commits live,
          )
          refl

    -- The records that the server holds at the offset of the group are split, and the offset behind
    -- the parts is committed.
    pub consume_on-split :
        length records < 2 ^ 31
        → Topics.fetch arrow os storage topic offset tm ≡ (ok records, tm')
        → reply_size protocol fetches.carried.header fetches.carried.size
            (records_body protocol records)
          < 2 ^ 32
        → (run.0 ≡ ok (p ∷ ps))
          × (run.1.inbox ≡ [])
          × (run.1.server.0 ≡ tm')
          × (Offsets.get_offset {Fault = Fault} group topic run.1.server.1.0
              ≡ ok (add_i64 offset (length (p ∷ ps))))
    consume_on-split carried e small =
        rw (consume_on-parts records carried e small, parts-commit records some_records parted)
          (
            refl,
            refl,
            refl,
            get_offset-set_offset Fault json disk group topic (add_i64 offset (length (p ∷ ps))) s
                live,
          )
