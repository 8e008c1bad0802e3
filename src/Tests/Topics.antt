-- ===== src/Tests/Topics.antt =====
-- Examples for src/topic_manager.rs.
use mathlib.Core.Path.{subst}
use herbert.Prelude.{
  ℕ, ◌≡◌, refl, Option, none, some, List, [], ◌∷◌, ◌++◌, arith, if◌then◌else◌, bytes_eq, Bytes, Str,
  codes, decimal,
}
use herbert.HashMap.{HashMap, lookup, contains_key, insert}
use herbert.Outcome.{ok, err, schema_error, topic_already_exists}
use herbert.Storage.Record.{StoredRecord, raw, batch, RecordStorage}
use herbert.Storage.InMemoryLog.{InMemoryLog, log_storage}
use herbert.Storage.InMemoryLog as Log
use herbert.Storage.InMemoryLog.Index.{IsIndexed, new-IsIndexed, log-StorageLaws}
use herbert.Utf8.{is_utf8}
use herbert.Wal.Serialize.{framed}
use herbert.TopicManager.Operations.{
  TopicManager, TopicMetadata, new_metadata, create, first_batch, parse_record_batch_from_bytes,
  stored_record, add,
}
use herbert.TopicManager.Recovery.{recover}
use herbert.TopicManager.RoundTrip.{IsTopic}
use herbert.TopicManager.Replay.{Logged, nothing, raw_entry, batch_entry, replay, recover-replay}
use herbert.TopicManager.Logging.{IsSmall}
use herbert.TopicManager.Durable.{IsCarried, IsDurable, add-IsDurable}
use herbert.Outcome.Ends.{Any, Ends}
use herbert.TopicManager.Ends.{recover-Ends}
use herbert.Storage.InMemoryLog.Ends.{log-AlwaysEnds}
use herbert.TopicManager.Keeps.{add_keeps}
use herbert.TopicManager.Reopened.{initial, reopened}
use herbert.TopicManager.DurableCalls.{initial-IsDurable}
use herbert.Storage.InMemoryLog.Contents.{contents, log-ContentsLaws}
use herbert.TopicManager.Restart.{
  Restored, IsReachable, begin, creation, addition, recover-IsReachable,
  recover-IsReachable_default,
}
use herbert.TopicManager.Schemas.{parse-write, parse_mismatch, create-create}
use herbert.TopicManager.Stores.{StoresSchema, add-StoresSchema}
use herbert.Tests.Toy.{Batch, config, stream, arrow, arrow_laws, os, os_takes}

abbrev pub a : Str
a = codes "a"

abbrev pub b : Str
b = codes "b"

abbrev pub x : Bytes
x = codes "x"

-- A batch of schema 7, and the stream that a producer writes for it.
abbrev pub two_rows : Batch
two_rows = (7, 10 ∷ 11 ∷ [])

abbrev pub two_rows_stream : Bytes
two_rows_stream = stream (two_rows ∷ [])

abbrev pub storage : RecordStorage Batch ℕ (InMemoryLog Batch)
storage = log_storage arrow

abbrev pub topics : HashMap Str (TopicMetadata ℕ)
topics = (b, new_metadata b (some 7)) ∷ []

abbrev pub tm : TopicManager ℕ Batch (InMemoryLog Batch)
tm = initial Log.new topics config

pub a-IsTopic : IsTopic a
unfolding is_utf8
a-IsTopic = record { text = refl; one_line = (refl, tt) }

pub b-IsTopic : IsTopic b
unfolding is_utf8
b-IsTopic = record { text = refl; one_line = (refl, tt) }

b-IsCarried : IsCarried {Fault = ℕ} arrow tm b two_rows_stream
unfolding lookup stored_record parse_record_batch_from_bytes first_batch
b-IsCarried = record {
  topic_fits = b-IsTopic;
  record_fits = λ r e.
      let same : batch two_rows ≡ r = cc in
      rw (← same) (λ out w. let out_is : two_rows_stream ≡ out = cc in rw (← out_is) (omega arith));
}

raw-IsSmall :
    (o : Option (TopicMetadata ℕ)) (r : StoredRecord Batch)
    → o ≡ none
    → stored_record {Fault = ℕ} arrow o x ≡ ok r
    → IsSmall {Fault = ℕ} arrow r
unfolding stored_record
raw-IsSmall none r n e = let same : raw x ≡ r = cc in rw (← same) (omega arith)
raw-IsSmall (some m) r n e = cc

abbrev pub add_b : TopicManager ℕ Batch (InMemoryLog Batch)
add_b = (add {Fault = ℕ} arrow os storage b two_rows_stream tm).1

a-IsCarried : IsCarried {Fault = ℕ} arrow add_b a x
unfolding lookup
a-IsCarried = record {
  topic_fits = a-IsTopic;
  record_fits = λ r e.
      raw-IsSmall (lookup a add_b.topic_metadatas.inner) r
        (rw (add_keeps arrow os storage b two_rows_stream tm) refl) e;
}

abbrev pub Reachable : TopicManager ℕ Batch (InMemoryLog Batch) → Type 0
Reachable =
    IsReachable arrow os storage contents arrow_laws os_takes (log-StorageLaws arrow)
      (log-ContentsLaws arrow) Log.new config

abbrev after_create : TopicManager ℕ Batch (InMemoryLog Batch)
after_create = (create {Fault = ℕ} b (some 7) (initial Log.new [] config)).1

created_b : after_create ≡ tm
unfolding create contains_key lookup insert
created_b = refl

-- The topic `b` is created, a batch is added to it, and raw bytes to topic `a`.
abbrev pub served : TopicManager ℕ Batch (InMemoryLog Batch)
served = (add {Fault = ℕ} arrow os storage a x add_b).1

pub served-IsReachable : Reachable served
served-IsReachable =
    addition a x a-IsCarried (
      addition b two_rows_stream b-IsCarried
        (subst Reachable created_b (creation b (some 7) begin)))

recover-IsReachable_example :
    (after : TopicManager ℕ Batch (InMemoryLog Batch)) × (recover arrow storage
        (some served.wal.file.inner.file)
        (reopened Log.new [] config served.wal.file.inner.file)
      ≡ (ok tt, after))
    × Restored arrow os storage contents served after
    × Reachable after
recover-IsReachable_example =
    recover-IsReachable arrow os storage contents arrow_laws os_takes (log-StorageLaws arrow)
      (log-ContentsLaws arrow) Log.new config (new-IsIndexed arrow) served-IsReachable

recover-IsReachable_default_example :
    (after : TopicManager ℕ Batch (InMemoryLog Batch)) × (recover arrow storage
        (some served.wal.file.inner.file)
        (reopened Log.new [] config served.wal.file.inner.file)
      ≡ (ok tt, after))
    × (contents after.backend ≡ contents served.backend)
recover-IsReachable_default_example =
    recover-IsReachable_default arrow os storage contents arrow_laws os_takes
      (log-StorageLaws arrow) (log-ContentsLaws arrow) Log.new config (new-IsIndexed arrow)
      served-IsReachable (omega arith)

add-IsDurable_example :
    IsDurable {Fault = ℕ} arrow storage (IsIndexed {Fault = ℕ} arrow) contents Log.new config add_b
add-IsDurable_example =
    add-IsDurable arrow storage (IsIndexed arrow) contents Log.new config os os_takes
      (log-StorageLaws arrow) (log-ContentsLaws arrow) (new-IsIndexed arrow) b two_rows_stream tm
      b-IsCarried
      (initial-IsDurable arrow storage (IsIndexed arrow) contents Log.new config topics
        (new-IsIndexed arrow))

abbrev entries : List (Str × StoredRecord Batch)
entries = (b, batch two_rows) ∷ (a, raw x) ∷ []

abbrev file : Bytes
file = framed b 1 two_rows_stream ++ (framed a 0 x ++ [])

entries-Logged : Logged {Fault = ℕ} arrow entries file
entries-Logged =
    batch_entry b two_rows two_rows_stream b-IsTopic refl (omega arith)
      (raw_entry a x a-IsTopic (omega arith) nothing)

recover-replay_example :
    recover {Fault = ℕ} arrow storage (some file) tm ≡ (ok tt, replay arrow storage entries tm)
recover-replay_example =
    recover-replay arrow storage arrow_laws (log-StorageLaws arrow) file tm entries-Logged refl refl
      (new-IsIndexed arrow)

parse-write_example : parse_record_batch_from_bytes arrow two_rows_stream 7 ≡ ok two_rows
parse-write_example = parse-write arrow arrow_laws two_rows two_rows_stream refl

-- The topic has schema 8.
parse_mismatch_example :
    parse_record_batch_from_bytes arrow two_rows_stream 8
    ≡ err (schema_error (decimal 7) (decimal 8))
parse_mismatch_example =
    parse_mismatch arrow arrow_laws two_rows two_rows_stream refl 8 (λ e. omega arith)

-- The topic has schema 7, and so has the batch.
add-StoresSchema_example :
    StoresSchema {Fault = ℕ} arrow os storage
      (log-StorageLaws arrow)
      os_takes
      7
      b
      tm
      (add {Fault = ℕ} arrow os storage b two_rows_stream tm)
unfolding lookup
add-StoresSchema_example =
    add-StoresSchema arrow os storage (log-StorageLaws arrow) os_takes arrow_laws b b 7
      two_rows_stream tm
      (record {
        wal_live = record { file_live = refl; buffer_live = refl };
        healthy = new-IsIndexed arrow;
        metadatas_live = refl;
        empty = refl;
        few = omega arith;
      })
      refl

create-create_example :
    ((create {Fault = ℕ} a (some 3) tm).0 ≡ ok tt)
    × (create {Fault = ℕ} a none (create {Fault = ℕ} a (some 3) tm).1
        ≡ (err (topic_already_exists a), (create {Fault = ℕ} a (some 3) tm).1))
    × ((t : Str)
        → lookup t (create {Fault = ℕ} a (some 3) tm).1.topic_metadatas.inner ≡ (
            if bytes_eq.beq a t
            then some (new_metadata a (some 3))
            else lookup t tm.topic_metadatas.inner))
unfolding contains_key lookup
create-create_example = create-create a (some 3) none tm refl refl

-- A file with a torn entry.
recover-Ends_example :
    Ends {Fault = ℕ} Any (recover {Fault = ℕ} arrow storage (some (codes "a\n")) tm).0
recover-Ends_example =
    recover-Ends arrow storage (log-AlwaysEnds arrow).add_ends (some (codes "a\n")) tm
