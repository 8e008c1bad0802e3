-- ===== src/Tests/Commands.antt =====
-- Examples for what a producer and `create_topic` do.
use herbert.Prelude.{
  ℕ, zero, suc, ◌≡◌, refl, none, some, Option, inl, [], ◌∷◌, ◌++◌, arith, bytes_eq, Bytes, codes,
}
use herbert.Prelude.Int.{pos}
use herbert.HashMap.{lookup, contains_key}
use herbert.Outcome.{ok}
use herbert.HerbertApi.{Request}
use herbert.HerbertApi as Herbert
use herbert.Storage.Record.{raw}
use herbert.Storage.InMemoryLog.{InMemoryLog, log_storage}
use herbert.Storage.InMemoryLog as Log
use herbert.Storage.InMemoryLog.Index.{log-StorageLaws, new-IsIndexed}
use herbert.TopicManager.Operations.{TopicManager, new_metadata}
use herbert.TopicManager.Reopened.{initial}
use herbert.KafkaApi.Topics.{create_produce_request, create_topic_produce_data}
use herbert.Server.Dispatch.{i16_be}
use herbert.Server.Dispatch as Key
use herbert.Server.Connection.{closed, handle_herbert_connection}
use herbert.Client.Stream.{create_request_header}
use herbert.Client.Requests.{produce_key, create_topic, produce}
use herbert.Client.Wire.{Arrives, wire}
use herbert.Client.Create.{recorder, create_topic-created}
use herbert.Client.Stored.{Server, produce-HasStored}
use herbert.Tests.Toy.{Batch, config, arrow, os, os_takes, disk, json}
use herbert.Tests.Codec.{codec, protocol}
use herbert.Tests.Arriving.{t}
use herbert.Tests.Clients.{saved}

abbrev to_vec : Request ℕ → Option Bytes
to_vec (Herbert.create_topic topic none) = some (0 ∷ topic)
to_vec (Herbert.create_topic topic (some schema)) = some (1 ∷ schema ∷ topic)

abbrev from_slice : Bytes → Option (Request ℕ)
from_slice (suc _ ∷ schema ∷ topic) = some (Herbert.create_topic topic (some schema))
from_slice (zero ∷ topic) = some (Herbert.create_topic topic none)
from_slice _ = none

abbrev tm : TopicManager ℕ Batch (InMemoryLog Batch)
tm = initial Log.new [] config

create_topic-created_example :
    (sent : Bytes) × (create_topic {Fault = ℕ} recorder to_vec (codes "host") t (some 7)
      ≡ (ok tt, some sent))
    × ((handle_herbert_connection {Fault = ℕ} from_slice sent tm).0 ≡ closed)
    × (lookup t (handle_herbert_connection {Fault = ℕ} from_slice sent tm).1.topic_metadatas.inner
        ≡ some (new_metadata t (some 7)))
unfolding contains_key lookup
create_topic-created_example =
    create_topic-created to_vec from_slice t (some 7) (1 ∷ 7 ∷ t) (omega arith) refl refl
      (codes "host") tm refl refl

abbrev opened :
    Server {Schema = ℕ} {Batch = Batch} {Fault = ℕ} arrow os
      (log_storage arrow)
      json
      disk
      protocol
      codec
      (log-StorageLaws arrow)
      os_takes
opened = record { server = (tm, saved); inbox = [] }

arrives :
    Arrives codec protocol codec.produce protocol.decode_produce produce_key
      (pos 9)
      Key.produce
      (create_produce_request t (codes "hello"))
unfolding create_request_header create_produce_request create_topic_produce_data i16_be
arrives = record {
  header_bytes = 0 ∷ 0 ∷ 0 ∷ 9 ∷ [];
  request_bytes = 1 ∷ t ++ codes "hello";
  encode_header = refl;
  size_header = refl;
  encode_request = refl;
  size_request = refl;
  small = omega arith;
  body = 1 ∷ t ++ codes "hello";
  carried = record {
    a = 0;
    b = 0;
    c = 0;
    d = 9;
    rest = 1 ∷ t ++ codes "hello";
    starts = refl;
    peeked = Key.produce;
    key_is = refl;
    version_is = refl;
    header = record {
      request_api_key = pos 0;
      request_api_version = pos 9;
      correlation_id = pos 0;
    };
    decoded = refl;
    size = 5;
    size_is = refl;
    header_key = refl;
    header_version_is = refl;
  };
  decoded = refl;
}

produce-HasStored_example :
    (after : Server {Schema = ℕ} {Batch = Batch} {Fault = ℕ} arrow os
      (log_storage arrow)
      json
      disk
      protocol
      codec
      (log-StorageLaws arrow)
      os_takes)
    × (produce {Fault = ℕ} codec
          (wire arrow os (log_storage arrow) json disk protocol opened)
          (codes "host")
          t
          (codes "hello")
        ≡ (ok tt, some after))
    × (after.inbox ≡ [])
    × (after.server.0.backend ≡ (Log.add {Fault = ℕ} arrow t (raw (codes "hello")) Log.new).1)
    × (after.server.0.wal.buffer.inner ≡ [])
    × (after.server.1 ≡ saved)
unfolding lookup
produce-HasStored_example =
    produce-HasStored arrow os (log_storage arrow) json disk protocol codec (log-StorageLaws arrow)
      os_takes opened t (codes "hello") arrives (codes "host")
      (record {
        wal_live = record { file_live = refl; buffer_live = refl };
        healthy = new-IsIndexed arrow;
        metadatas_live = refl;
        empty = refl;
        few = omega arith;
      })
      (inl refl)
