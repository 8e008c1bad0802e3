-- ===== src/TopicManager/Schemas.antt =====
-- src/topic_manager.rs: topics with a schema, and what they accept.
use herbert.Prelude.{
  ◌≤◌, ◌≡◌, ◌≢◌, refl, ◌∙◌, Bool, true, false, not, ◌&&◌, Option, some, ◌⊎◌, inl, inr, List, [],
  ◌∷◌, arith, ltb, if◌then◌else◌, length, take, bytes_eq, bytes_beq, bytes_beq_iff, Bytes, Str,
  codes,
}
use herbert.HashMap.{lookup, contains_key, contains_key-insert_self, lookup-insert}
use herbert.Outcome.{
  Outcome, ok, err, panic, out_of_fuel, schema_error, topic_already_exists, ◌>>=◌,
}
use herbert.Arrow.{Arrow, ArrowLaws, continuation}
use herbert.Storage.Record.{StoredRecord, batch}
use herbert.TopicManager.Operations.{
  TopicManager, new_metadata, create, first_batch, parse_record_batch_from_bytes, stored_record,
}

and-false : (b : Bool) → (b && false) ≡ false
and-false true = refl
and-false false = refl

module _ {Schema Batch Fault : Type 0} (arrow : Arrow Schema Batch Fault) where
  first_batch-schema :
      {Row : Type 0} (laws : ArrowLaws arrow Row) (expected : Schema) (items : List (Fault ⊎ Batch))
      (b : Batch)
      → first_batch arrow expected items ≡ ok b
      → arrow.schema b ≡ expected
  unfolding first_batch
  first_batch-schema laws expected [] b e = cc
  first_batch-schema laws expected (inl fault ∷ items) b e = cc
  first_batch-schema laws expected (inr c ∷ items) b e =
      ground (arith, laws.schema_beq_iff (arrow.schema c) expected)

  parse-schema :
      {Row : Type 0} (laws : ArrowLaws arrow Row) (bytes : Bytes) (expected : Schema)
      (read : Fault ⊎ List (Fault ⊎ Batch)) (b : Batch)
      → arrow.read_stream bytes ≡ read
      → parse_record_batch_from_bytes arrow bytes expected ≡ ok b
      → arrow.schema b ≡ expected
  unfolding parse_record_batch_from_bytes
  parse-schema laws bytes expected (inl fault) b r e = ground arith
  parse-schema laws bytes expected (inr items) b r e =
      first_batch-schema laws expected items b (ground arith)

  -- A record that is accepted for a topic with a schema is a batch of that schema.
  pub stored-schema :
      {Row : Type 0} (laws : ArrowLaws arrow Row) (name : Str) (expected : Schema) (bytes : Bytes)
      (r : StoredRecord Batch)
      → stored_record arrow (some (new_metadata name (some expected))) bytes ≡ ok r
      → (b : Batch) × (r ≡ batch b) × (arrow.schema b ≡ expected)
  unfolding stored_record
  stored-schema laws name expected bytes r e =
      of_parsed (parse_record_batch_from_bytes arrow bytes expected) refl e
    where
      of_parsed :
          (o : Outcome Fault Batch)
          → parse_record_batch_from_bytes arrow bytes expected ≡ o
          → (o >>= λ b. ok (batch b)) ≡ ok r
          → (b : Batch) × (r ≡ batch b) × (arrow.schema b ≡ expected)
      of_parsed (ok b) p h = (b, cc, parse-schema laws bytes expected _ b refl p)
      of_parsed (err x) p h = cc
      of_parsed panic p h = cc
      of_parsed out_of_fuel p h = cc

  -- Past the tests of the length and of the marker, the first batch decides.
  parse_marked :
      (out : Bytes) (expected : Schema) (items : List (Fault ⊎ Batch))
      → (8 ≤ length out) × (take 4 out ≡ continuation)
      → arrow.read_stream out ≡ inr items
      → parse_record_batch_from_bytes arrow out expected ≡ first_batch arrow expected items
  unfolding parse_record_batch_from_bytes
  parse_marked out expected items marker read =
      let long : ltb (length out) 8 ≡ false = ground (arith, marker.0) in
      let marked : bytes_beq (take 4 out) continuation ≡ true =
        (bytes_beq_iff (take 4 out) continuation).1 marker.1 in
      rw (long, marked, read, and-false (not (bytes_beq (take 6 out) (codes "ARROW1")))) refl

  module _ {Row : Type 0} (laws : ArrowLaws arrow Row) (b : Batch) (out : Bytes)
      (written : arrow.write_stream (arrow.schema b) (b ∷ []) ≡ inr out) where
    parse_first :
        (expected : Schema)
        → parse_record_batch_from_bytes arrow out expected ≡ first_batch arrow expected (inr b ∷ [])
    parse_first expected =
        parse_marked out expected (inr b ∷ [])
          (laws.write_marker (arrow.schema b) (b ∷ []) out written)
          (laws.read-write (arrow.schema b) (b ∷ []) out (refl, tt) written)

    -- A record batch that a producer writes as a stream is read back as that batch, under the
    -- schema of the batch.
    pub parse-write : parse_record_batch_from_bytes arrow out (arrow.schema b) ≡ ok b
    unfolding first_batch
    parse-write =
        parse_first (arrow.schema b)
        ∙ rw ((laws.schema_beq_iff (arrow.schema b) (arrow.schema b)).1 refl) refl

    -- A batch of another schema is refused. The field `expected` of the error shows the schema of
    -- the batch, and its field `found` the schema of the topic.
    pub parse_mismatch :
        (expected : Schema)
        → arrow.schema b ≢ expected
        → parse_record_batch_from_bytes arrow out expected
          ≡ err (schema_error (arrow.schema_debug (arrow.schema b)) (arrow.schema_debug expected))
    unfolding first_batch
    parse_mismatch expected ne =
        let differ : arrow.schema_beq (arrow.schema b) expected ≡ false =
          ground (arith, laws.schema_beq_iff (arrow.schema b) expected) in
        parse_first expected ∙ rw differ refl

module _ {Schema Batch Fault S : Type 0} where
  -- `create` makes a topic known once, with the schema that it was given first: a second `create`
  -- is refused and changes nothing, and no other topic is touched. The lock is not poisoned, and
  -- the topic is not known before.
  pub create-create :
      (topic : Str) (first second : Option Schema) (tm : TopicManager Schema Batch S)
      → tm.topic_metadatas.poisoned ≡ false
      → contains_key topic tm.topic_metadatas.inner ≡ false
      → ((create {Fault = Fault} topic first tm).0 ≡ ok tt)
        × (create {Fault = Fault} topic second (create {Fault = Fault} topic first tm).1
            ≡ (err (topic_already_exists topic), (create {Fault = Fault} topic first tm).1))
        × ((t : Str)
            → lookup t (create {Fault = Fault} topic first tm).1.topic_metadatas.inner ≡ (
                if bytes_eq.beq topic t
                then some (new_metadata topic first)
                else lookup t tm.topic_metadatas.inner))
  unfolding create
  create-create topic first second tm live unknown =
      simp (live, unknown, contains_key-insert_self, lookup-insert) (refl, refl, λ t. refl)
