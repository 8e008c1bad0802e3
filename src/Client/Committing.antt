-- ===== src/Client/Committing.antt =====
-- src/client.rs with src/server.rs: `set_offset`, handled by a round of the server's loop.
use herbert.Prelude.{◌≡◌, refl, false, some, [], Str}
use herbert.Prelude.Int.{ℤ, pos}
use herbert.Outcome.{ok}
use herbert.Arrow.{Arrow}
use herbert.BufWriter.{OsFile}
use herbert.Storage.Record.{RecordStorage}
use herbert.TopicManager.Operations.{TopicManager}
use herbert.OffsetManager.Operations.{OffsetManager, Json, OffsetFile, Saved}
use herbert.OffsetManager.Operations as Offsets
use herbert.KafkaApi.Offsets.{create_offset_commit_request}
use herbert.KafkaApi.Committed.{commit_lem, set_offset_lem}
use herbert.Server.Dispatch.{offset_commit, Protocol, dispatch}
use herbert.Client.Stream.{Stream, Codec}
use herbert.Client.Requests.{offset_commit_key, set_offset}
use herbert.Client.Wire.{Arrives, Wire, wire, create_buffer-Arrives, send-Arrives}
use herbert.Client.Responses.{ResponseLaws}

module _ {Schema Batch Fault S : Type 0} (arrow : Arrow Schema Batch Fault) (os : OsFile)
    (storage : RecordStorage Batch Fault S) (json : Json) (disk : OffsetFile) (protocol : Protocol)
    (codec : Codec) (laws : ResponseLaws codec protocol) where
  abbrev Connected : Type 0
  Connected = Wire arrow os storage json disk protocol

  module _ (opened : Connected) where
    abbrev server_wire : Stream Connected
    server_wire = wire arrow os storage json disk protocol opened

    module _ (group topic : Str) (offset : ℤ) (tm : TopicManager Schema Batch S) (s : Saved)
        (a : Arrives codec protocol codec.offset_commit protocol.decode_offset_commit
          offset_commit_key
          (pos 9)
          offset_commit
          (create_offset_commit_request group topic offset)) where
      dispatch-offset_commit :
          s.0.offsets.poisoned ≡ false
          → dispatch arrow os storage json disk protocol
              (some offset_commit)
              a.carried.header
              a.carried.size
              (pos 9)
              a.body
              (tm, s)
            ≡ (ok [], (tm, (Offsets.set_offset {Fault = Fault} json disk group topic offset s).1))
      unfolding dispatch
      dispatch-offset_commit live =
          rw
            (
              a.carried.header_version_is,
              commit_lem Fault json disk protocol.decode_offset_commit a.body (pos 9) group topic
                  offset s a.decoded,
              (set_offset_lem Fault json disk group topic offset s.0 s.1 live).1,
            )
            refl

      pub set_offset-wire :
          s.0.offsets.poisoned ≡ false
          → set_offset {Fault = Fault} codec server_wire group topic offset
              (record { server = (tm, s); inbox = [] })
            ≡ (
              ok tt,
              record {
                server =
                    (tm, (Offsets.set_offset {Fault = Fault} json disk group topic offset s).1);
                inbox = [];
              },
            )
      unfolding set_offset
      set_offset-wire live =
          rw
            (
              create_buffer-Arrives arrow os storage json disk protocol codec opened
                  codec.offset_commit protocol.decode_offset_commit offset_commit_key (pos 9)
                  offset_commit _ a,
              send-Arrives arrow os storage json disk protocol codec opened codec.offset_commit
                  protocol.decode_offset_commit offset_commit_key (pos 9) offset_commit _ a [] []
                  (tm, s) _ (dispatch-offset_commit live),
            )
            refl
