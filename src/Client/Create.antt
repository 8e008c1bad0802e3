-- ===== src/Client/Create.antt =====
-- src/client.rs with src/server.rs: `create_topic`, from the client to the topic manager.
use herbert.Prelude.{
  ◌^◌, ◌<◌, ◌≡◌, refl, sym, ap, ◌∙◌, append-nil, beq_refl, take_all, Option, none, some, inl, inr,
  [], ◌++◌, false, arith, ltb, length, as_u32, Bytes, Str, bytes_eq,
}
use herbert.Outcome.{ok, unexpected_eof}
use herbert.HerbertApi.{Request}
use herbert.HerbertApi as Herbert
use herbert.HashMap.{lookup, contains_key}
use herbert.TopicManager.Operations.{TopicManager, new_metadata}
use herbert.TopicManager.Operations as Topics
use herbert.TopicManager.Schemas.{create-create}
use herbert.Server.Connection.{
  closed, ended, read_message_len, handle_request, handle_herbert_connection,
}
use herbert.Server.Loop.{frame, read_message_len-frame}
use herbert.Client.Stream.{Stream, send, connected}
use herbert.Client.Requests.{send_len, create_topic}

-- A stream that takes every byte, and what has been sent on it.
abbrev pub recorder : Stream Bytes
recorder = record {
  connect = λ broker. inr [];
  write = λ bytes sent. (inr (length bytes), sent ++ bytes);
  write_all = λ bytes sent. (none, sent ++ bytes);
  read = λ n sent. (inr [], sent);
  read_exact = λ n sent. (inl unexpected_eof, sent);
}

read_frame :
    (encoded : Bytes)
    → length encoded < 2 ^ 32
    → read_message_len (frame encoded) ≡ some (length encoded, encoded)
read_frame encoded small =
    ap read_message_len (sym (append-nil (frame encoded)))
    ∙ read_message_len-frame encoded [] small
    ∙ rw append-nil refl

module _ {Schema : Type 0} (to_vec : Request Schema → Option Bytes)
    (from_slice : Bytes → Option (Request Schema)) (topic : Str) (schema : Option Schema)
    (encoded : Bytes) (small : length encoded < 2 ^ 32)
    (encodes : to_vec (Herbert.create_topic topic schema) ≡ some encoded)
    (decodes : from_slice encoded ≡ some (Herbert.create_topic topic schema)) where
  create_topic-frame :
      {Fault : Type 0} (broker : Str)
      → create_topic {Fault = Fault} recorder to_vec broker topic schema
        ≡ (ok tt, some (frame encoded))
  unfolding create_topic connected send_len send
  create_topic-frame broker =
      let whole : as_u32 (length encoded) ≡ length encoded = omega (arith, small) in
      rw (encodes, whole) refl

  connection-create :
      {Batch Fault S : Type 0} (tm : TopicManager Schema Batch S)
      → handle_herbert_connection {Fault = Fault} from_slice (frame encoded) tm ≡ (
        ended (Topics.create {Fault = Fault} topic schema tm).0,
        (Topics.create {Fault = Fault} topic schema tm).1,
      )
  unfolding handle_herbert_connection handle_request
  connection-create {Batch} {Fault} {S} tm =
      let fits : ltb (length encoded) (length encoded) ≡ false = ground arith in
      rw
        (
          handle_herbert_connection,
          read_frame encoded small,
          fits,
          take_all encoded (length encoded) (omega arith),
          decodes,
        )
        refl

  -- A topic that a client creates is known to the server: the client sends the request without an
  -- error, and the connection that reads what was sent ends without one and leaves the topic known
  -- with the schema of the request. The codec reads back what it writes, in less than 2 ^ 32 bytes,
  -- the lock of the topics is not poisoned, and the topic is not known before.
  pub create_topic-created :
      {Batch Fault S : Type 0} (broker : Str) (tm : TopicManager Schema Batch S)
      → tm.topic_metadatas.poisoned ≡ false
      → contains_key topic tm.topic_metadatas.inner ≡ false
      → (sent : Bytes) × (create_topic {Fault = Fault} recorder to_vec broker topic schema
          ≡ (ok tt, some sent))
        × ((handle_herbert_connection {Fault = Fault} from_slice sent tm).0 ≡ closed)
        × (lookup topic
              (handle_herbert_connection {Fault = Fault} from_slice sent tm).1.topic_metadatas.inner
            ≡ some (new_metadata topic schema))
  unfolding ended
  create_topic-created {Batch} {Fault} {S} broker tm live unknown =
      let created = create-create {Fault = Fault} topic schema schema tm live unknown in
      (
        frame encoded,
        create_topic-frame broker,
        rw (connection-create {Fault = Fault} tm, created.0) refl,
        rw (connection-create {Fault = Fault} tm, created.2, beq_refl topic) refl,
      )
