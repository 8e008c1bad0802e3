-- ===== src/TopicManager/Restart.antt =====
-- src/topic_manager.rs and src/wal.rs: a manager that recovers from the file of another one.
use mathlib.Core.Path.{subst}
use herbert.Prelude.{
  Option, append-nil, ◌≤◌, ◌≡◌, refl, sym, ap, ◌∙◌, some, inl, inr, List, [], ◌∷◌, ◌++◌, arith,
  nil_of_length, bytes_eq, Bytes, Str,
}
use herbert.Outcome.{ok}
use herbert.Config.{Config}
use herbert.Arrow.{Arrow, ArrowLaws}
use herbert.BufWriter.{OsFile, TakesAll}
use herbert.Storage.Record.{
  StoredRecord, RecordStorage, StorageLaws, ContentsLaws, add_all, add_all-append,
  add_all-IsHealthy, add_all_same,
}
use herbert.TopicManager.Operations.{TopicManager, add, create, fetch}
use herbert.TopicManager.Reopened.{initial, reopened}
use herbert.TopicManager.DurableCalls.{initial-IsDurable, create-IsDurable, fetch-IsDurable}
use herbert.Prelude.Int.{ℤ}
use herbert.TopicManager.Recovery.{recover}
use herbert.TopicManager.Replay.{nothing, replay, recover-replay}
use herbert.TopicManager.Durable.{IsDurable, IsCarried, add-IsDurable}

append-eq-nil_left : {A : Type 0} (xs ys : List A) → xs ++ ys ≡ [] → xs ≡ []
append-eq-nil_left [] ys e = refl
append-eq-nil_left (x ∷ xs) ys e = cc

module _ {Schema Batch Fault S C : Type 0} (arrow : Arrow Schema Batch Fault) (os : OsFile)
    (storage : RecordStorage Batch Fault S) (contents : S → C) where
  abbrev pub Manager : Type 0
  Manager = TopicManager Schema Batch S

  -- What the manager `after` has, compared with `before`, whose process has ended: what its backend
  -- holds, and behind that a part of the records that waited in its buffer.
  pub record Restored (before after : Manager) : Type 0 where
    pub survived : List (Str × StoredRecord Batch)
    pub lost : List (Str × StoredRecord Batch)
    pub parts : before.wal.buffer.inner ≡ survived ++ lost
    pub backend_is : contents after.backend ≡ contents (add_all storage survived before.backend)

  module _ {Row : Type 0} (laws : ArrowLaws arrow Row) (takes : TakesAll os)
      {IsHealthy : S → Type 0} (storage_laws : StorageLaws storage IsHealthy)
      (same : ContentsLaws storage IsHealthy contents) (start : S) (config : Config) where
    -- The manager that a restart builds over the file that is there, with no topic known.
    abbrev pub restarted : Manager → Manager
    restarted tm = reopened start [] config tm.wal.file.inner.file

    restore-IsDurable :
        (tm : Manager)
        → IsHealthy start
        → (d : IsDurable arrow storage IsHealthy contents start config tm)
        → (after : Manager) × (recover arrow storage (some tm.wal.file.inner.file) (restarted tm)
            ≡ (ok tt, after))
          × Restored tm after
          × IsDurable arrow storage IsHealthy contents start config after
    restore-IsDurable tm h d = (
      replay arrow storage (d.applied ++ d.log.ahead) (restarted tm),
      recover-replay arrow storage laws storage_laws tm.wal.file.inner.file (restarted tm)
          d.log.in_file refl refl h,
      record {
        survived = d.log.ahead;
        lost = d.log.pending;
        parts = d.log.buffered;
        backend_is =
            ap contents (add_all-append storage d.applied d.log.ahead start)
            ∙ add_all_same storage contents storage_laws same d.log.ahead _ tm.backend
                (add_all-IsHealthy storage storage_laws d.applied start h) d.healthy
                (sym d.backend_is);
      },
      record {
        wal_live = record { file_live = refl; buffer_live = refl };
        wal_config = refl;
        metadatas_live = refl;
        healthy = add_all-IsHealthy storage storage_laws (d.applied ++ d.log.ahead) start h;
        applied = d.applied ++ d.log.ahead;
        backend_is = refl;
        log = record {
          ahead = [];
          pending = [];
          in_file = rw append-nil d.log.in_file;
          in_buf = nothing;
          buffered = refl;
        };
        backlog = inl refl;
      },
    )

    -- A history of the broker: topics are created, records are added and fetched, with whatever
    -- outcomes, and the process ends between two calls and recovers from the file that is there.
    pub data IsReachable : Manager → Type 0 where
      begin : IsReachable (initial start [] config)
      creation :
          (topic : Str) (schema : Option Schema) {tm : Manager}
          → IsReachable tm
          → IsReachable (create {Fault = Fault} topic schema tm).1
      addition :
          (topic : Str) (bytes : Bytes) {tm : Manager}
          → IsCarried arrow tm topic bytes
          → IsReachable tm
          → IsReachable (add arrow os storage topic bytes tm).1
      fetching :
          (topic : Str) (offset : ℤ) {tm : Manager}
          → IsReachable tm
          → IsReachable (fetch arrow os storage topic offset tm).1
      crash :
          {tm after : Manager}
          → recover arrow storage (some tm.wal.file.inner.file) (restarted tm) ≡ (ok tt, after)
          → IsReachable tm
          → IsReachable after

    recovered-IsDurable :
        (tm after : Manager)
        → IsHealthy start
        → IsDurable arrow storage IsHealthy contents start config tm
        → recover arrow storage (some tm.wal.file.inner.file) (restarted tm) ≡ (ok tt, after)
        → IsDurable arrow storage IsHealthy contents start config after
    recovered-IsDurable tm after h d e =
        let (found, recovered, _, durable) = restore-IsDurable tm h d in
        subst (IsDurable arrow storage IsHealthy contents start config)
          (ap (λ r. r.1) (sym recovered ∙ e)) durable

    -- Each reachable state is durable.
    pub IsReachable-IsDurable :
        {tm : Manager}
        → IsHealthy start
        → IsReachable tm
        → IsDurable arrow storage IsHealthy contents start config tm
    IsReachable-IsDurable h begin =
        initial-IsDurable arrow storage IsHealthy contents start config [] h
    IsReachable-IsDurable h (creation topic schema {tm} r) =
        create-IsDurable arrow storage IsHealthy contents start config topic schema tm
          (IsReachable-IsDurable h r)
    IsReachable-IsDurable h (addition topic bytes {tm} c r) =
        add-IsDurable arrow storage IsHealthy contents start config os takes storage_laws same h
          topic bytes tm c (IsReachable-IsDurable h r)
    IsReachable-IsDurable h (fetching topic offset {tm} r) =
        fetch-IsDurable arrow storage IsHealthy contents start config os same topic offset tm
          (IsReachable-IsDurable h r)
    IsReachable-IsDurable h (crash {tm} {after} e r) =
        recovered-IsDurable tm after h (IsReachable-IsDurable h r) e

    -- A restart succeeds in each reachable state, after any creations, additions, fetches and
    -- earlier restarts: the new backend holds what the old one held, and behind that only records
    -- that had been added and waited in the buffer, and the new state is reachable again. The records
    -- added must be ones that the format can carry, the disk takes every write, and the backend
    -- takes every record, and keeps what it holds in a fetch.
    pub recover-IsReachable :
        {tm : Manager}
        → IsHealthy start
        → IsReachable tm
        → (after : Manager) × (recover arrow storage (some tm.wal.file.inner.file) (restarted tm)
            ≡ (ok tt, after))
          × Restored tm after
          × IsReachable after
    recover-IsReachable {tm} h r =
        let (after, recovered, restored, _) = restore-IsDurable tm h (IsReachable-IsDurable h r) in
        (after, recovered, restored, crash recovered r)

    empty_backlog :
        (tm : Manager)
        → IsDurable arrow storage IsHealthy contents start config tm
        → config.num_uncommitted_messages ≤ 1
        → tm.wal.buffer.inner ≡ []
    empty_backlog tm d few = elim d.backlog [
      | inl none_left ↦ none_left
      | inr less ↦
          nil_of_length tm.wal.buffer.inner
            (omega (arith, ap (λ (c : Config). c.num_uncommitted_messages) d.wal_config))
    ]

    -- With `num_uncommitted_messages` at most 1, as by default, the recovered backend holds what
    -- the lost one held, in each reachable state, under the same conditions.
    pub recover-IsReachable_default :
        {tm : Manager}
        → IsHealthy start
        → IsReachable tm
        → config.num_uncommitted_messages ≤ 1
        → (after : Manager) × (recover arrow storage (some tm.wal.file.inner.file) (restarted tm)
            ≡ (ok tt, after))
          × (contents after.backend ≡ contents tm.backend)
    recover-IsReachable_default {tm} h reachable few =
        let d = IsReachable-IsDurable h reachable in
        let (after, recovered, r, _) = restore-IsDurable tm h d in
        let none_survive : r.survived ≡ [] =
          append-eq-nil_left r.survived r.lost (sym r.parts ∙ empty_backlog tm d few) in
        (
          after,
          recovered,
          r.backend_is ∙ ap (λ es. contents (add_all storage es tm.backend)) none_survive,
        )
