-- ===== src/Storage/InMemoryLog/Contents.antt =====
-- src/storage/in_memory_log.rs: the log as the records of each topic.
use mathlib.Core.Path.{fun_ext}
use herbert.Prelude.{◌≡◌, ap, ◌++◌, [], ◌∷◌, List, if◌then◌else◌, bytes_eq, sym, ◌∙◌, Str}
use herbert.HashMap.{queue_at}
use herbert.Arrow.{Arrow}
use herbert.Storage.Record.{StoredRecord, ContentsLaws}
use herbert.Storage.InMemoryLog.{InMemoryLog, add, log_storage}
use herbert.Storage.InMemoryLog.Index.{IsIndexed, topics-add}
use herbert.Storage.InMemoryLog.Fetch.{fetch-IsIndexed}

-- A topic that is not there has no records.
abbrev pub contents : {Batch : Type 0} → InMemoryLog Batch → Str → List (StoredRecord Batch)
contents s topic = queue_at topic s.topics.inner

module _ {Schema Batch Fault : Type 0} (arrow : Arrow Schema Batch Fault) where
  add_same :
      (topic : Str) (r : StoredRecord Batch) (s t : InMemoryLog Batch)
      → IsIndexed arrow s
      → IsIndexed arrow t
      → contents s ≡ contents t
      → contents (add arrow topic r s).1 ≡ contents (add arrow topic r t).1
  add_same topic r s t hs ht e = fun_ext λ u.
      topics-add arrow topic r s hs u
      ∙ ap (λ c. if bytes_eq.beq topic u then c topic ++ r ∷ [] else c u) e
      ∙ sym (topics-add arrow topic r t ht u)

  pub log-ContentsLaws : ContentsLaws (log_storage arrow) (IsIndexed arrow) contents
  log-ContentsLaws = record {
    add_same = add_same;
    fetch-IsHealthy = λ topic offset s h. (fetch-IsIndexed arrow topic offset s h).0;
    fetch_same = λ topic offset s h. fun_ext (fetch-IsIndexed arrow topic offset s h).1;
  }
