-- ===== src/Tests/Clients.antt =====
-- Examples for src/client.rs.
use herbert.Prelude.{
  ℕ, ◌≡◌, ◌≢◌, refl, none, some, ◌++◌, u32_be, List, [], ◌∷◌, arith, bytes_eq, pair_eq, Bytes,
  codes,
}
use herbert.Prelude.Int.{pos}
use herbert.HashMap.{lookup, insert, or_insert}
use herbert.Outcome.{ok, fresh}
use herbert.Storage.Record.{raw}
use herbert.Storage.InMemoryLog.{InMemoryLog, log_storage}
use herbert.Storage.InMemoryLog as Log
use herbert.Storage.InMemoryLog.Index.{add-IsIndexed, new-IsIndexed}
use herbert.Storage.InMemoryLog.RawTopic.{join}
use herbert.TopicManager.Operations.{TopicManager}
use herbert.TopicManager.Reopened.{initial}
use herbert.OffsetManager.Operations.{Saved, get_offset}
use herbert.Utf8.{is_utf8}
use herbert.Client.Split.{HasNoZero}
use herbert.Client.Fetching.{handle_message-overcounts}
use herbert.Client.Responses.{payload, records_body}
use herbert.Server.Dispatch.{fetch, i16_be, handle_message}
use herbert.KafkaApi.Topics.{fetch_response}
use herbert.Client.RawTopic.{
  fetched, fetch-Holds, Client, Holds, consumed, consume_on-drop, consume_rounds-idle,
}
use herbert.Client.CatchUp.{after_rounds, consume_rounds-catch_up}
use herbert.Tests.Toy.{Batch, config, arrow, os, disk, json}
use herbert.Tests.Codec.{codec, protocol, response_laws}
use herbert.Tests.Arriving.{g, t, asks, fetches, commits}

abbrev payloads : List Bytes
payloads = codes "one" ∷ codes "two" ∷ codes "six" ∷ []

three : HasNoZero (codes "one")
three = (refl, (refl, (refl, tt)))

abbrev log : InMemoryLog Batch
log =
    (Log.add {Fault = ℕ} arrow t (raw (codes "six"))
      (Log.add {Fault = ℕ} arrow t (raw (codes "two"))
        (Log.add {Fault = ℕ} arrow t (raw (codes "one")) Log.new).1).1).1

abbrev tm : TopicManager ℕ Batch (InMemoryLog Batch)
tm = initial log [] config

tm-Holds :
    Holds {Schema = ℕ} {Fault = ℕ} arrow os json disk protocol codec response_laws t payloads tm
unfolding Log.add Log.push_offsets Log.push_rows lookup insert or_insert
tm-Holds = record {
  indexed =
      add-IsIndexed arrow t _ _
        (add-IsIndexed arrow t _ _ (add-IsIndexed arrow t _ _ (new-IsIndexed arrow)));
  records_are = refl;
}

-- The group has read one record.
abbrev pub saved : Saved
saved = (record { offsets = fresh (((g, t), pos 1) ∷ []); config = config }, none)

abbrev client :
    Client {Schema = ℕ} {Batch = Batch} {Fault = ℕ} arrow os json disk protocol codec response_laws
client = record { server = (tm, saved); inbox = [] }

not_empty : join (codes "two" ∷ codes "six" ∷ []) ≢ []
not_empty e = ground arith

consume_on-drop_example :
    (let after =
        consumed arrow os json disk protocol codec response_laws client g t
          (pos 10)
          1
          payloads
          tm
          saved in
      (after.0 ≡ ok (codes "two" ∷ codes "six" ∷ []))
      × (after.1.inbox ≡ [])
      × Holds {Fault = ℕ} arrow os json disk protocol codec response_laws t payloads
          after.1.server.0
      × (get_offset {Fault = ℕ} g t after.1.server.1.0 ≡ ok (pos 3)))
unfolding get_offset lookup
consume_on-drop_example =
    consume_on-drop arrow os json disk protocol codec response_laws client g t (pos 10) 1 payloads
      (codes "two") (codes "six" ∷ []) tm saved tm-Holds refl refl refl not_empty
      (three, (three, tt)) (omega arith) (asks 1 (omega arith)) (fetches 1 _ (omega arith))
      (commits 3)

abbrev two_six : Bytes
two_six = join (codes "two" ∷ codes "six" ∷ [])

abbrev answered : Bytes
answered =
    payload protocol
      (record { request_api_key = pos 1; request_api_version = pos 1; correlation_id = pos 0 })
      (records_body protocol two_six)

-- The response has 13 bytes, and the length says 18.
handle_message-overcounts_example :
    (protocol.header_size (pos 0) (protocol.request_header_version fetch (pos 1)) ≡ some 5)
    × (handle_message {Fault = ℕ} arrow os
          (log_storage arrow)
          json
          disk
          protocol
          (0 ∷ 1 ∷ 0 ∷ 1 ∷ 0 ∷ 1 ∷ t)
          (tm, saved)
        ≡ (
          ok (u32_be 18 ++ answered),
          (fetched {Fault = ℕ} arrow os json disk protocol codec response_laws t (pos 1) tm, saved),
        ))
unfolding fetch_response i16_be fetches
handle_message-overcounts_example =
    handle_message-overcounts arrow os (log_storage arrow) json disk protocol codec response_laws t
      (pos 10) (pos 1) (tm, saved) two_six
      (fetched {Fault = ℕ} arrow os json disk protocol codec response_laws t (pos 1) tm)
      (omega arith) (fetches 1 two_six (omega arith)).arrives
      (fetch-Holds arrow os json disk protocol codec response_laws t 1 payloads tm tm-Holds).0
      (omega arith)

-- A topic of two records, one of them with a zero byte.
abbrev pieces : List Bytes
pieces = (1 ∷ 0 ∷ 2 ∷ []) ∷ codes "x" ∷ []

abbrev pieces_tm : TopicManager ℕ Batch (InMemoryLog Batch)
pieces_tm =
    initial
      (Log.add {Fault = ℕ} arrow t (raw (codes "x"))
        (Log.add {Fault = ℕ} arrow t (raw (1 ∷ 0 ∷ 2 ∷ [])) Log.new).1).1
      [] config

abbrev unread : Saved
unread = (record { offsets = fresh (((g, t), pos 0) ∷ []); config = config }, none)

-- A group that has read all.
consume_rounds-idle_example :
    (let after =
        after_rounds arrow os json disk protocol codec response_laws client g t
          (pos 10)
          5
          (pos 3)
          tm
          saved in
      (after.0 ≡ ok (pos 3)) × (after.1.server.1 ≡ saved))
consume_rounds-idle_example =
    consume_rounds-idle arrow os json disk protocol codec response_laws client g t (pos 10) 3
      payloads tm saved tm-Holds refl (fetches 3 [] (omega arith)) 5

consume_rounds-catch_up_example :
    (let after =
        after_rounds arrow os json disk protocol codec response_laws client g t
          (pos 10)
          3
          (pos 1)
          tm
          saved in
      (after.0 ≡ ok (pos 3)) × (get_offset {Fault = ℕ} g t after.1.server.1.0 ≡ ok (pos 3)))
unfolding is_utf8
consume_rounds-catch_up_example =
    consume_rounds-catch_up arrow os json disk protocol codec response_laws client g t (pos 10) 1
      payloads (codes "two") (codes "six" ∷ []) 2 tm saved tm-Holds refl refl not_empty refl
      (three, (three, tt)) (refl, (refl, tt)) (omega arith) (fetches 1 _ (omega arith)) (commits 3)
      (fetches 3 [] (omega arith))
