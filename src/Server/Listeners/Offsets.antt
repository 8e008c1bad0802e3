-- ===== src/Server/Listeners/Offsets.antt =====
-- src/server.rs and src/offset_manager.rs: the offsets that connections commit are in the file.
use herbert.Prelude.{
  ℕ, ◌≡◌, refl, Option, none, some, inl, inr, List, [], ◌∷◌, All, Bool-cases, bytes_eq, pair_eq,
  Bytes, Str,
}
use herbert.Prelude.Int.{ℤ}
use herbert.HashMap.Collect.{AllKeys, insert-IsMap}
use herbert.HashMap.{insert}
use herbert.Outcome.{Outcome, ok}
use herbert.HerbertApi.{Request}
use herbert.Config.{Config}
use herbert.Arrow.{Arrow}
use herbert.BufWriter.{OsFile}
use herbert.Storage.Record.{RecordStorage}
use herbert.OffsetManager.Operations.{
  Offsets, OffsetManager, Json, JsonLaws, OffsetFile, Saved, flush, set_offset, get_offset, recover,
}
use herbert.OffsetManager.Operations as Manager
use herbert.OffsetManager.Keys.{HasNoColon}
use herbert.OffsetManager.RoundTrip.{IsPlain, TakesFile, recover-IsPlain}
use herbert.KafkaApi.Messages.{
  OffsetCommitRequestPartition, OffsetCommitRequestTopic, OffsetCommitRequest, Decode,
}
use herbert.KafkaApi.Offsets.{commit_partition, commit_topics, handle_offset_commit_request}
use herbert.KafkaApi.Committed.{set_offset_is}
use herbert.Server.Start.{offsets_recovered}
use herbert.Server.Dispatch.{
  ApiKey, produce, fetch, offset_commit, offset_fetch, other_key, RequestHeader, Protocol, Served,
  dispatch,
}
use herbert.Server.Connection.{Link}
use herbert.Server.Messages.{HasHeader, handle_message_keeps}
use herbert.Server.Listeners.{Event, Running, serve}
use herbert.Server.Listeners.Invariants.{EachMessage, IsFitEvent, serve_keeps}

-- The group of a message that commits offsets has no colon.
abbrev pub CommitsPlain : Protocol → (message : Bytes) → Type 0
CommitsPlain protocol message =
    (h : RequestHeader) (buffer : Bytes) (r : OffsetCommitRequest)
    → HasHeader protocol message h buffer
    → protocol.decode_offset_commit buffer h.request_api_version ≡ some r
    → HasNoColon r.group_id

insert-AllKeys :
    (p : Str × Str) (offset : ℤ) (offsets : Offsets)
    → HasNoColon p.0
    → AllKeys (λ q. HasNoColon q.0) offsets
    → AllKeys (λ q. HasNoColon q.0) (insert p offset offsets)
unfolding insert
insert-AllKeys p offset [] plain h = (plain, tt)
insert-AllKeys p offset ((q, o) ∷ m) plain h = elim (Bool-cases (pair_eq.beq q p)) [
  | inl same ↦ rw same (plain, h.1)
  | inr other ↦ rw other (h.0, insert-AllKeys p offset m plain h.1)
]

module _ (Fault : Type 0) (json : Json) (laws : JsonLaws json) (disk : OffsetFile)
    (takes : TakesFile disk) (config : Config) where
  -- A start over the file gives a manager that has the same offsets for the groups with no colon.
  pub record IsKept (s : Saved) : Type 0 where
    pub now : IsPlain s.0
    pub outcome : Outcome Fault Unit
    pub after : OffsetManager
    pub read : recover json s.1 (Manager.new config) ≡ (outcome, after)
    pub starts : offsets_recovered outcome ≡ ok tt
    pub then_plain : IsPlain after
    pub same :
        (group topic : Str)
        → HasNoColon group
        → get_offset {Fault = Fault} group topic after ≡ get_offset group topic s.0

  pub new-IsKept : IsKept (Manager.new config, none)
  unfolding Manager.new recover offsets_recovered
  new-IsKept =
      let plain : IsPlain (Manager.new config) = record { live = refl; unique = tt; plain = tt } in
      record {
        now = plain;
        outcome = _;
        after = Manager.new config;
        read = refl;
        starts = refl;
        then_plain = plain;
        same = λ group topic plain. refl;
      }

  -- A start over the same file once more gives the same again.
  pub restarted-IsKept : (s : Saved) → (kept : IsKept s) → IsKept (kept.after, s.1)
  restarted-IsKept s kept = record {
    now = kept.then_plain;
    outcome = kept.outcome;
    after = kept.after;
    read = kept.read;
    starts = kept.starts;
    then_plain = kept.then_plain;
    same = λ group topic plain. refl;
  }

  flush-IsKept :
      (om : OffsetManager) (file : Option Bytes)
      → IsPlain om
      → IsKept (flush {Fault = Fault} json disk (om, file)).1
  unfolding offsets_recovered
  flush-IsKept om file plain =
      let (text, flushed, after, recovered, same, after_plain) =
        recover-IsPlain {Fault = Fault} json laws disk takes om (Manager.new config) file plain in
      rw flushed (record {
        now = plain;
        outcome = ok tt;
        after = after;
        read = recovered;
        starts = refl;
        then_plain = after_plain;
        same = same;
      })

  set_offset-IsKept :
      (group topic : Str) (offset : ℤ) (s : Saved)
      → HasNoColon group
      → IsKept s
      → IsKept (set_offset {Fault = Fault} json disk group topic offset s).1
  set_offset-IsKept group topic offset (om, file) plain kept =
      rw (set_offset_is Fault json disk group topic offset om file kept.now.live) (
        flush-IsKept _ file (record {
          live = kept.now.live;
          unique = insert-IsMap (group, topic) offset om.offsets.inner kept.now.unique;
          plain = insert-AllKeys (group, topic) offset om.offsets.inner plain kept.now.plain;
        }))

  commit_topics-IsKept :
      (group : Str) (ts : List OffsetCommitRequestTopic) (s : Saved)
      → HasNoColon group
      → IsKept s
      → IsKept (commit_topics {Fault = Fault} json disk group ts s).1
  unfolding commit_topics commit_partition
  commit_topics-IsKept group [] s plain kept = kept
  commit_topics-IsKept group (t ∷ ts) s plain kept = partition-IsKept t.partitions
    where
      partition-IsKept :
          (ps : List OffsetCommitRequestPartition)
          → IsKept (commit_partition {Fault = Fault} json disk group t.name ps s).1
      partition-IsKept [] = kept
      partition-IsKept (p ∷ ps) = set_offset-IsKept group t.name p.committed_offset s plain kept

  commit-IsKept :
      (decode : Decode OffsetCommitRequest) (buf : Bytes) (version : ℤ) (s : Saved)
      (decoded : Option OffsetCommitRequest)
      → decode buf version ≡ decoded
      → ((r : OffsetCommitRequest) → decode buf version ≡ some r → HasNoColon r.group_id)
      → IsKept s
      → IsKept (handle_offset_commit_request {Fault = Fault} json disk decode buf version s).1
  unfolding handle_offset_commit_request
  commit-IsKept decode buf version s none e plain kept = rw (e, handle_offset_commit_request) kept
  commit-IsKept decode buf version s (some r) e plain kept =
      rw (e, handle_offset_commit_request)
        (commit_topics-IsKept r.group_id r.topics s (plain r e) kept)

module _ {Schema Batch Fault S : Type 0} (arrow : Arrow Schema Batch Fault) (os : OsFile)
    (storage : RecordStorage Batch Fault S) (json : Json) (laws : JsonLaws json) (disk : OffsetFile)
    (takes : TakesFile disk) (config : Config) (protocol : Protocol) where
  abbrev State : Type 0
  State = Served arrow os storage json disk protocol

  abbrev Kept : State → Type 0
  Kept s = IsKept Fault json laws disk takes config s.1

  dispatch-Kept :
      (message : Bytes)
      → CommitsPlain protocol message
      → (key : Option ApiKey) (h : RequestHeader) (size : ℕ) (version : ℤ) (buffer : Bytes)
        (s : State)
      → HasHeader protocol message h buffer
      → Kept s
      → Kept (dispatch arrow os storage json disk protocol key h size version buffer s).1
  unfolding dispatch
  dispatch-Kept message plain none h size version buffer s has kept = kept
  dispatch-Kept message plain (some produce) h size version buffer s has kept = kept
  dispatch-Kept message plain (some fetch) h size version buffer s has kept = kept
  dispatch-Kept message plain (some offset_commit) h size version buffer s has kept =
      commit-IsKept Fault json laws disk takes config protocol.decode_offset_commit buffer
        h.request_api_version s.1 _ refl (λ r e. plain h buffer r has e) kept
  dispatch-Kept message plain (some offset_fetch) h size version buffer s has kept = kept
  dispatch-Kept message plain (some other_key) h size version buffer s has kept = kept

  pub serve-Kept :
      (link : Link) (from_slice : Bytes → Option (Request Schema)) (es : List Event)
      (r : Running arrow os storage json disk protocol link from_slice)
      → All (IsFitEvent (CommitsPlain protocol)) es
      → All (λ k. EachMessage (CommitsPlain protocol) k.incoming) r.kafka
      → Kept r.state
      → Kept (serve arrow os storage json disk protocol link from_slice es r).1.state
  serve-Kept link from_slice es r fits open_fits kept =
      let served =
        serve_keeps arrow os storage json disk protocol link Kept (CommitsPlain protocol)
          (λ m s plain.
            handle_message_keeps arrow os storage json disk protocol Kept m (dispatch-Kept m plain)
              s)
          from_slice (λ stream s kept. kept) es r fits (record { holds = kept; fit = open_fits }) in
      served.holds
