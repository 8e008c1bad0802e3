-- ===== src/UnitTests/Recovering.antt =====
-- The unit test of src/topic_manager.rs that recovers from a log.
use mathlib.Core.Path.{subst}
use herbert.Prelude.{
  ◌<◌, ◌^◌, ◌≡◌, refl, sym, ◌∙◌, ◌-◌, true, ◌⊎◌, inl, inr, map, List, [], ◌∷◌, ◌++◌, append-nil,
  append_assoc, arith, ltb, length, bytes_eq, Bytes, Str, codes, Bool,
}
use herbert.Prelude.Int.{pos}
use herbert.HashMap.{lookup, insert, or_insert, contains_key, queue_at}
use herbert.Outcome.{ok, fresh}
use herbert.Config.{test_default, with_wal_path}
use herbert.Arrow.{Arrow, ArrowLaws}
use herbert.BufWriter
use herbert.BufWriter.{OsFile, TakesAll}
use herbert.Storage.Record.{StoredRecord, batch, add_all-IsHealthy}
use herbert.Storage.InMemoryLog.{InMemoryLog, log_storage, finish_records, fetch}
use herbert.Storage.InMemoryLog as Log
use herbert.Storage.InMemoryLog.Index.{IsIndexed, new-IsIndexed, log-StorageLaws}
use herbert.Storage.InMemoryLog.Fetch.{fetch-answer, fetch-IsIndexed}
use herbert.Wal.Serialize.{framed, serialize}
use herbert.Wal.Operations.{WriteAheadLog}
use herbert.Wal.Operations as Wal
use herbert.Wal.Laws.{add_lem}
use herbert.TopicManager.Interleaving.{contents-Placed}
use herbert.TopicManager.Operations.{TopicManager, exists, with_config}
use herbert.TopicManager.Operations as Topics
use herbert.TopicManager.Defaults.{default_log}
use herbert.TopicManager.Reopened.{reopened}
use herbert.TopicManager.RoundTrip.{IsTopic}
use herbert.TopicManager.Replay.{Logged, nothing, batch_entry, replay, recover-replay}
use herbert.UnitTests.Topics.{are_batches, check_recovered, test_recover}
use herbert.Utf8.{is_utf8}

module _ {Schema Batch Fault Row : Type 0} (arrow : Arrow Schema Batch Fault)
    (laws : ArrowLaws arrow Row) (b : Batch) (some_row : 0 < arrow.num_rows b)
    (whole : arrow.slice b 0 (arrow.num_rows b) ≡ b) where
  -- What a fetch of all rows answers, where the topic has this batch and perhaps more.
  fetch_whole :
      (topic : Str) (bs : List Batch) (out : Bytes) (s : InMemoryLog Batch)
      → IsIndexed arrow s
      → queue_at topic s.topics.inner ≡ batch b ∷ map batch bs
      → (bs ≡ []) ⊎ (bs ≡ b ∷ [])
      → arrow.write_stream (arrow.schema b) (b ∷ bs) ≡ inr out
      → (fetch arrow topic (pos 0) s).0 ≡ ok out
  unfolding finish_records
  fetch_whole topic bs out s h held few written =
      let first : ltb 0 (arrow.num_rows b) ≡ true = ground (arith, some_row) in
      let all : arrow.num_rows b - 0 ≡ arrow.num_rows b = omega arith in
      elim few [
        | inl none_more ↦
            fetch-answer arrow topic (pos 0) s h
            ∙ rw (held, none_more, first, all, whole, rw none_more at written) refl
        | inr one_more ↦
            fetch-answer arrow topic (pos 0) s h
            ∙ rw (held, one_more, first, all, whole, rw one_more at written) refl
      ]

  module _ (os : OsFile) (default_file : Bytes) (wal_path : Str) (batch_beq : Batch → Batch → Bool)
      (same : batch_beq b b ≡ true) (one two : Bytes)
      (one_written : arrow.write_stream (arrow.schema b) (b ∷ []) ≡ inr one)
      (two_written : arrow.write_stream (arrow.schema b) (b ∷ b ∷ []) ≡ inr two) where
    abbrev Manager : Type 0
    Manager = TopicManager Schema Batch (InMemoryLog Batch)

    are_batches_lem :
        (bs : List Batch)
        → (bs ≡ b ∷ []) ⊎ (bs ≡ b ∷ b ∷ [])
        → are_batches {Fault = Fault} arrow os default_file wal_path batch_beq bs (map inr bs)
          ≡ ok tt
    unfolding are_batches
    are_batches_lem bs (inl e) = rw (e, same) refl
    are_batches_lem bs (inr e) = rw (e, same) refl

    check_recovered_lem :
        (tm : Manager)
        → exists {Fault = Fault} (codes "foobar") tm ≡ ok true
        → exists {Fault = Fault} (codes "test") tm ≡ ok true
        → IsIndexed arrow tm.backend
        → queue_at (codes "foobar") tm.backend.topics.inner ≡ batch b ∷ batch b ∷ []
        → queue_at (codes "test") tm.backend.topics.inner ≡ batch b ∷ []
        → check_recovered arrow os default_file wal_path batch_beq b tm ≡ ok tt
    unfolding check_recovered Topics.fetch
    check_recovered_lem tm foobar test h foobar_is test_is =
        let (h1, kept) = fetch-IsIndexed arrow (codes "foobar") (pos 0) tm.backend h in
        let fetched = (fetch arrow (codes "foobar") (pos 0) tm.backend).1 in
        rw
          (
            foobar,
            test,
            fetch_whole (codes "foobar") (b ∷ []) two tm.backend h foobar_is (inr refl) two_written,
            laws.read-write (arrow.schema b) (b ∷ b ∷ []) two (refl, (refl, tt)) two_written,
            are_batches_lem (b ∷ b ∷ []) (inr refl),
            fetch_whole (codes "test") [] one fetched h1 (kept (codes "test") ∙ test_is) (inl refl)
                one_written,
            laws.read-write (arrow.schema b) (b ∷ []) one (refl, tt) one_written,
          )
          (are_batches_lem (b ∷ []) (inl refl))

    abbrev entries : List (Str × StoredRecord Batch)
    entries = (codes "foobar", batch b) ∷ (codes "foobar", batch b) ∷ (codes "test", batch b) ∷ []

    abbrev file_of_entries : Bytes
    file_of_entries =
        (framed (codes "foobar") 1 one ++ framed (codes "foobar") 1 one)
        ++ framed (codes "test") 1 one

    foobar-IsTopic : IsTopic (codes "foobar")
    unfolding is_utf8
    foobar-IsTopic = record {
      text = refl;
      one_line = (refl, (refl, (refl, (refl, (refl, (refl, tt))))));
    }

    test-IsTopic : IsTopic (codes "test")
    unfolding is_utf8
    test-IsTopic = record { text = refl; one_line = (refl, (refl, (refl, (refl, tt)))) }

    module _ (takes : TakesAll os) (small : length one < 2 ^ 32) where
      file-Logged : Logged arrow entries file_of_entries
      file-Logged =
          subst (Logged arrow entries)
            (rw append-nil (
              sym (append_assoc (framed (codes "foobar") 1 one) (framed (codes "foobar") 1 one) _)))
            (batch_entry (codes "foobar") b one foobar-IsTopic one_written small (
              batch_entry (codes "foobar") b one foobar-IsTopic one_written small
                (batch_entry (codes "test") b one test-IsTopic one_written small nothing)))

      -- What the recovery gives passes the checks.
      replayed_lem :
          check_recovered arrow os default_file wal_path batch_beq b (
            replay arrow
              (log_storage arrow)
              entries
              (reopened Log.new [] (with_wal_path test_default wal_path) file_of_entries))
          ≡ ok tt
      unfolding exists contains_key lookup insert or_insert Log.add
      replayed_lem =
          check_recovered_lem
            (replay arrow (log_storage arrow) entries
              (reopened Log.new [] (with_wal_path test_default wal_path) file_of_entries))
            refl refl
            (add_all-IsHealthy (log_storage arrow) (log-StorageLaws arrow) entries Log.new
              (new-IsIndexed arrow))
            refl refl

      test_recover_passes : test_recover arrow os default_file wal_path batch_beq b ≡ ok tt
      unfolding test_recover Wal.new default_log Topics.new with_config serialize
      test_recover_passes =
          let wal : WriteAheadLog Batch = record {
            file = fresh (record { file = []; buf = [] });
            buffer = fresh [];
            config = with_wal_path test_default wal_path;
          } in
          let written : (topic : Str) → serialize arrow topic (batch b) ≡ ok (framed topic 1 one) =
            λ topic. rw (one_written, serialize) refl in
          let e1 = framed (codes "foobar") 1 one in
          let e2 = framed (codes "test") 1 one in
          let (d1, x1) =
            add_lem arrow os takes (codes "foobar") (batch b) wal e1
              (record { file_live = refl; buffer_live = refl }) (written (codes "foobar")) in
          let w1 = (Wal.add arrow os (codes "foobar") (batch b) wal).1 in
          let (d2, x2) =
            add_lem arrow os takes (codes "foobar") (batch b) w1 e1 x1.live
              (written (codes "foobar")) in
          let w2 = (Wal.add arrow os (codes "foobar") (batch b) w1).1 in
          let (d3, x3) =
            add_lem arrow os takes (codes "test") (batch b) w2 e2 x2.live
              (written (codes "test")) in
          let w3 = (Wal.add arrow os (codes "test") (batch b) w2).1 in
          rw
            (
              d1,
              d2,
              d3,
              BufWriter.flush_lem {Fault = Fault} os takes w3.file.inner,
              contents-Placed w2.file.inner w3.file.inner e2 x3.placed,
              contents-Placed w1.file.inner w2.file.inner e1 x2.placed,
              contents-Placed wal.file.inner w1.file.inner e1 x1.placed,
              recover-replay arrow (log_storage arrow) laws (log-StorageLaws arrow) file_of_entries
                  (reopened Log.new [] (with_wal_path test_default wal_path) file_of_entries)
                  file-Logged refl refl (new-IsIndexed arrow),
            )
            replayed_lem
