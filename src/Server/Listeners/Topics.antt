-- ===== src/Server/Listeners/Topics.antt =====
-- src/server.rs and src/topic_manager.rs: no connection takes a topic away, or changes its schema.
use herbert.Prelude.{
  ◌≡◌, refl, sym, true, false, ◌∙◌, Option, some, inl, inr, List, Bool-cases, bytes_eq, Bytes, Str,
}
use herbert.HashMap.{HashMap, lookup, contains_key, lookup-insert}
use herbert.HerbertApi.{Request}
use herbert.Arrow.{Arrow}
use herbert.BufWriter.{OsFile}
use herbert.Storage.Record.{RecordStorage}
use herbert.TopicManager.Operations.{TopicManager, TopicMetadata, create}
use herbert.TopicManager.Operations as Topics
use herbert.TopicManager.Keeps.{add_keeps}
use herbert.OffsetManager.Operations.{Json, OffsetFile}
use herbert.KafkaApi.Handled.{adds_any}
use herbert.Server.Dispatch.{Protocol}
use herbert.Server.Connection.{Link}
use herbert.Server.Listeners.{Event, Running, serve}
use herbert.Server.Listeners.Invariants.{every_event, every_stream}
use herbert.Server.Listeners.Managers.{MessageAddsOnly, serve_topics_keep}

abbrev Known :
    {Schema Batch S : Type 0} → Str → TopicMetadata Schema → TopicManager Schema Batch S → Type 0
Known t m tm = lookup t tm.topic_metadatas.inner ≡ some m

known_topic :
    {Schema : Type 0} (t : Str) (m : TopicMetadata Schema)
    (topics : HashMap Str (TopicMetadata Schema))
    → lookup t topics ≡ some m
    → contains_key t topics ≡ true
unfolding contains_key
known_topic t m topics known = rw (known, contains_key) refl

create-Known :
    (Fault : Type 0) {Schema Batch S : Type 0} (t : Str) (m : TopicMetadata Schema) (topic : Str)
    (schema : Option Schema) (tm : TopicManager Schema Batch S)
    → Known t m tm
    → Known t m (create {Fault = Fault} topic schema tm).1
unfolding create
create-Known Fault t m topic schema tm known = elim (Bool-cases tm.topic_metadatas.poisoned) [
  | inl broken ↦ simp broken known
  | inr live ↦ elim (Bool-cases (contains_key topic tm.topic_metadatas.inner)) [
    | inl there ↦ simp (live, there) known
    | inr new_topic ↦ elim (Bool-cases (bytes_eq.beq topic t)) [
      | inl same ↦
          let is : topic ≡ t = (bytes_eq.beq_iff topic t).0 same in
          let there : contains_key topic tm.topic_metadatas.inner ≡ true =
            rw is (known_topic t m tm.topic_metadatas.inner known) in
          let clash : true ≡ false = sym there ∙ new_topic in cc
      | inr other ↦ simp (live, new_topic, lookup-insert, other) known
    ]
  ]
]

module _ {Schema Batch Fault S : Type 0} (arrow : Arrow Schema Batch Fault) (os : OsFile)
    (storage : RecordStorage Batch Fault S) (json : Json) (disk : OffsetFile) (protocol : Protocol)
    (link : Link) (from_slice : Bytes → Option (Request Schema)) where
  adds_anything : (m : Bytes) → MessageAddsOnly protocol (λ _ _. Unit) m
  adds_anything m h buffer r has e = adds_any r.topic_data

  -- A topic that is known stays known, under its name and with its schema, whatever connections are
  -- accepted, whatever bytes they carry, and in whatever order their tasks have their turns.
  pub lookup-serve :
      (t : Str) (m : TopicMetadata Schema) (es : List Event)
      (r : Running arrow os storage json disk protocol link from_slice)
      → lookup t r.state.0.topic_metadatas.inner ≡ some m
      → lookup t
          (serve arrow os storage json disk protocol link from_slice es
            r).1.state.0.topic_metadatas.inner
        ≡ some m
  unfolding Topics.fetch
  lookup-serve t m es r known =
      serve_topics_keep arrow os storage json disk protocol (Known t m) (λ _ _. Unit)
        (λ topic bytes tm _ known. rw (add_keeps arrow os storage topic bytes tm) known)
        (λ topic offset tm known. known) (create-Known Fault t m) from_slice link es r
        (every_event _ adds_anything es) (every_stream _ adds_anything r.kafka) known
