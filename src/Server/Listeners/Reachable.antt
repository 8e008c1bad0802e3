-- ===== src/Server/Listeners/Reachable.antt =====
-- src/server.rs: what connections do to the topic manager is a history that a restart restores.
use herbert.Prelude.{◌≡◌, Option, bytes_eq, List, All, Bytes, Str}
use herbert.HerbertApi.{Request}
use herbert.Config.{Config}
use herbert.HashMap.{lookup}
use herbert.Outcome.{ok}
use herbert.Arrow.{Arrow, ArrowLaws}
use herbert.BufWriter.{OsFile, TakesAll}
use herbert.Storage.Record.{StoredRecord, RecordStorage, StorageLaws, ContentsLaws}
use herbert.TopicManager.Operations.{TopicManager, TopicMetadata, stored_record}
use herbert.TopicManager.RoundTrip.{IsTopic}
use herbert.TopicManager.Logging.{IsSmall}
use herbert.TopicManager.Restart.{IsReachable, addition, fetching, creation}
use herbert.OffsetManager.Operations.{Json, OffsetFile}
use herbert.Server.Dispatch.{Protocol}
use herbert.Server.Connection.{Link}
use herbert.Server.Listeners.{Event, Running, serve}
use herbert.Server.Listeners.Invariants.{IsFitEvent, EachMessage}
use herbert.Server.Listeners.Managers.{MessageAddsOnly, serve_topics_keep}

module _ {Schema Batch Fault : Type 0} (arrow : Arrow Schema Batch Fault) where
  -- The format can carry the topic, and the record however it is stored.
  pub record FitsFormat (topic : Str) (bytes : Bytes) : Type 0 where
    pub topic_fits : IsTopic topic
    pub record_fits :
        (metadata : Option (TopicMetadata Schema)) (r : StoredRecord Batch)
        → stored_record arrow metadata bytes ≡ ok r
        → IsSmall arrow r

module _ {Schema Batch Fault S C Row : Type 0} (arrow : Arrow Schema Batch Fault) (os : OsFile)
    (storage : RecordStorage Batch Fault S) (contents : S → C) (laws : ArrowLaws arrow Row)
    (takes : TakesAll os) {IsHealthy : S → Type 0} (storage_laws : StorageLaws storage IsHealthy)
    (same : ContentsLaws storage IsHealthy contents) (begun : S) (config : Config) where
  abbrev pub Reachable : TopicManager Schema Batch S → Type 0
  Reachable = IsReachable arrow os storage contents laws takes storage_laws same begun config

  -- Whatever connections are accepted and in whatever order their tasks have their turns, the topic
  -- manager is in a state that a restart restores, if it was so at first, and if what the produce
  -- requests among the messages ask to add is what the format can carry.
  pub serve-IsReachable :
      (json : Json) (disk : OffsetFile) (protocol : Protocol) (link : Link)
      (from_slice : Bytes → Option (Request Schema)) (es : List Event)
      (r : Running arrow os storage json disk protocol link from_slice)
      → All (IsFitEvent (MessageAddsOnly protocol (FitsFormat arrow))) es
      → All (λ k. EachMessage (MessageAddsOnly protocol (FitsFormat arrow)) k.incoming) r.kafka
      → Reachable r.state.0
      → Reachable (serve arrow os storage json disk protocol link from_slice es r).1.state.0
  serve-IsReachable json disk protocol link from_slice es r fits open_fits reachable =
      serve_topics_keep arrow os storage json disk protocol Reachable (FitsFormat arrow)
        (λ topic bytes tm fits r.
          addition topic bytes
            (record {
              topic_fits = fits.topic_fits;
              record_fits = fits.record_fits (lookup topic tm.topic_metadatas.inner);
            })
            r)
        (λ topic offset tm r. fetching topic offset r)
        (λ topic schema tm r. creation topic schema r) from_slice link es r fits open_fits reachable
