-- ===== src/KafkaApi/Committed.antt =====
-- src/kafka_api/offset_commit.rs and src/kafka_api/offset_fetch.rs: a committed offset is fetched.
use herbert.Prelude.{
  ◌≡◌, refl, ◌∙◌, Bool, true, false, Option, none, some, [], if◌then◌else◌, bytes_eq, pair_eq,
  Bytes, Str,
}
use herbert.Prelude.Int.{ℤ, pos}
use herbert.HashMap.{lookup, insert, lookup-insert, lookup-insert_self}
use herbert.HashMap.Collect.{collect}
use herbert.Outcome.{IoError, Outcome, ok}
use herbert.OffsetManager.Operations.{
  OffsetManager, Json, OffsetFile, Saved, save, flush, joined, set_offset, get_offset,
}
use herbert.KafkaApi.Messages.{OffsetCommitRequest, OffsetFetchRequest, OffsetFetchResponse, Decode}
use herbert.KafkaApi.Offsets.{
  create_offset_commit_request, create_offset_fetch_request, offset_fetch_response, ignore,
  commit_partition, commit_topics, handle_offset_commit_request, fetch_first,
  handle_offset_fetch_request,
}

abbrev offset_or : Option ℤ → ℤ
offset_or o = elim o [ none ↦ pos 0 | some n ↦ n ]

-- The answer where `o` is what is committed.
abbrev answer : (Fault : Type 0) → Str → Option ℤ → Outcome Fault OffsetFetchResponse
answer Fault t o = ok (offset_fetch_response t (offset_or o))

answer_if :
    (Fault : Type 0) (b : Bool) (t : Str) (offset : ℤ) (o : Option ℤ)
    → answer Fault t (if b then some offset else o)
      ≡ (if b then answer Fault t (some offset) else answer Fault t o)
answer_if Fault true t offset o = refl
answer_if Fault false t offset o = refl

pub fetch_lem :
    (Fault : Type 0) (decode : Decode OffsetFetchRequest) (buf : Bytes) (version : ℤ) (g t : Str)
    (om : OffsetManager)
    → decode buf version ≡ some (create_offset_fetch_request g t)
    → om.offsets.poisoned ≡ false
    → handle_offset_fetch_request {Fault = Fault} decode buf version om
      ≡ answer Fault t (lookup (g, t) om.offsets.inner)
unfolding handle_offset_fetch_request fetch_first create_offset_fetch_request get_offset
fetch_lem Fault decode buf version g t om e live = rw (e, live, handle_offset_fetch_request) refl

module _ (Fault : Type 0) (json : Json) (disk : OffsetFile) where
  save_keeps :
      (text : Bytes) (om : OffsetManager) (file : Option Bytes)
      → (save {Fault = Fault} json disk text (om, file)).1.0 ≡ om
  unfolding save
  save_keeps text om file = refl

  save_ignored :
      (text : Bytes) (om : OffsetManager) (file : Option Bytes) (e : Option IoError)
      → (disk.write file text).0 ≡ e
      → ignore (save {Fault = Fault} json disk text (om, file)).0 ≡ ok tt
  unfolding save ignore
  save_ignored text om file none e = rw e refl
  save_ignored text om file (some x) e = rw e refl

  -- Whether the file takes the offsets or not, `flush` leaves the manager and does not panic.
  flush_keeps :
      (om : OffsetManager) (file : Option Bytes) (text : Option Bytes)
      → json.to_string (collect joined om.offsets.inner []) ≡ text
      → om.offsets.poisoned ≡ false
      → ((flush {Fault = Fault} json disk (om, file)).1.0 ≡ om)
        × (ignore (flush {Fault = Fault} json disk (om, file)).0 ≡ ok tt)
  unfolding flush ignore
  flush_keeps om file none e live = simp (live, e) (refl, refl)
  flush_keeps om file (some text) e live =
      simp (live, e) (save_keeps text om file, save_ignored text om file _ refl)

  pub set_offset_is :
      (group topic : Str) (offset : ℤ) (om : OffsetManager) (file : Option Bytes)
      → om.offsets.poisoned ≡ false
      → set_offset {Fault = Fault} json disk group topic offset (om, file)
        ≡ flush json disk (
          record om {
            offsets = record om.offsets { inner = insert (group, topic) offset om.offsets.inner };
          },
          file,
        )
  unfolding set_offset
  set_offset_is group topic offset om file live = simp live

  pub set_offset_lem :
      (group topic : Str) (offset : ℤ) (om : OffsetManager) (file : Option Bytes)
      → om.offsets.poisoned ≡ false
      → ((set_offset {Fault = Fault} json disk group topic offset (om, file)).1.0 ≡ record om {
        offsets = record om.offsets { inner = insert (group, topic) offset om.offsets.inner };
      })
        × (ignore (set_offset {Fault = Fault} json disk group topic offset (om, file)).0 ≡ ok tt)
  set_offset_lem group topic offset om file live =
      rw (set_offset_is group topic offset om file live) (
        flush_keeps
          (record om {
            offsets = record om.offsets { inner = insert (group, topic) offset om.offsets.inner };
          })
          file _ refl live)

  pub get_offset-set_offset :
      (group topic : Str) (offset : ℤ) (s : Saved)
      → s.0.offsets.poisoned ≡ false
      → get_offset {Fault = Fault} group topic
          (set_offset {Fault = Fault} json disk group topic offset s).1.0
        ≡ ok offset
  unfolding get_offset
  get_offset-set_offset group topic offset s live =
      rw ((set_offset_lem group topic offset s.0 s.1 live).0, get_offset, live, lookup-insert_self)
        refl

  pub commit_lem :
      (decode : Decode OffsetCommitRequest) (buf : Bytes) (version : ℤ) (group topic : Str)
      (offset : ℤ) (s : Saved)
      → decode buf version ≡ some (create_offset_commit_request group topic offset)
      → handle_offset_commit_request {Fault = Fault} json disk decode buf version s ≡ (
        ignore (set_offset {Fault = Fault} json disk group topic offset s).0,
        (set_offset {Fault = Fault} json disk group topic offset s).1,
      )
  unfolding handle_offset_commit_request commit_topics commit_partition create_offset_commit_request
  commit_lem decode buf version group topic offset s e = rw (e, handle_offset_commit_request) refl

  -- A commit answers as done and is seen by the fetch that follows, whether the offsets are saved or
  -- not: a fetch of the same group and topic answers the offset, and each other one what it
  -- answered before. The codecs decode the two requests to what was built, and the lock of the
  -- offsets is not poisoned.
  pub commit-fetch :
      (decode_commit : Decode OffsetCommitRequest) (decode_fetch : Decode OffsetFetchRequest)
      (commit_buf fetch_buf : Bytes) (commit_version fetch_version : ℤ) (group topic g t : Str)
      (offset : ℤ) (om : OffsetManager) (file : Option Bytes)
      → decode_commit commit_buf commit_version
        ≡ some (create_offset_commit_request group topic offset)
      → decode_fetch fetch_buf fetch_version ≡ some (create_offset_fetch_request g t)
      → om.offsets.poisoned ≡ false
      → ((handle_offset_commit_request {Fault = Fault} json disk decode_commit commit_buf
            commit_version
            (om, file)).0
          ≡ ok tt)
        × (handle_offset_fetch_request {Fault = Fault} decode_fetch fetch_buf fetch_version
              (handle_offset_commit_request {Fault = Fault} json disk decode_commit commit_buf
                commit_version
                (om, file)).1.0
            ≡ (if pair_eq.beq (group, topic) (g, t)
                then ok (offset_fetch_response t offset)
                else handle_offset_fetch_request decode_fetch fetch_buf fetch_version om))
  commit-fetch decode_commit decode_fetch cb fb cv fv group topic g t offset om file dc df live =
      let done = set_offset_lem group topic offset om file live in
      rw (commit_lem decode_commit cb cv group topic offset (om, file) dc, done.0)
        (
          done.1,
          fetch_lem Fault decode_fetch fb fv g t _ df live
              ∙ rw (lookup-insert, fetch_lem Fault decode_fetch fb fv g t om df live)
                  (answer_if Fault _ t offset _),
        )
