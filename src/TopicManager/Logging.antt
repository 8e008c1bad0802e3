-- ===== src/TopicManager/Logging.antt =====
-- src/topic_manager.rs and src/wal.rs: what the file and the buffer of a log hold.
use mathlib.Core.Path.{subst}
use herbert.Prelude.{
  ◌^◌, ◌<◌, ◌≡◌, refl, sym, ◌∙◌, ◌⊎◌, inl, inr, List, [], ◌∷◌, ◌++◌, append-nil, append_assoc,
  length, bytes_eq, Bytes, Str,
}
use herbert.Outcome.{ok, err, HerbertError, arrow_error}
use herbert.Arrow.{Arrow}
use herbert.BufWriter.{Placed, buffered, flushed, direct}
use herbert.Storage.Record.{StoredRecord, raw, batch}
use herbert.Wal.Serialize.{framed, serialize}
use herbert.Wal.Operations.{WriteAheadLog}
use herbert.TopicManager.RoundTrip.{IsTopic}
use herbert.TopicManager.Replay.{Logged, nothing, raw_entry, batch_entry}

module _ {Schema Batch Fault : Type 0} (arrow : Arrow Schema Batch Fault) where
  -- The payload of a record has a length of 32 bits.
  abbrev pub IsSmall : StoredRecord Batch → Type 0
  IsSmall (raw payload) = length payload < 2 ^ 32
  IsSmall (batch b) =
      (out : Bytes) → arrow.write_stream (arrow.schema b) (b ∷ []) ≡ inr out → length out < 2 ^ 32

  pub Logged-append :
      {es fs : List (Str × StoredRecord Batch)} {a b : Bytes}
      → Logged arrow es a
      → Logged arrow fs b
      → Logged arrow (es ++ fs) (a ++ b)
  Logged-append nothing m = m
  Logged-append {b} (raw_entry {rest} topic p t small l) m =
      rw (append_assoc (framed topic 0 p) rest b) (raw_entry topic p t small (Logged-append l m))
  Logged-append {b} (batch_entry {rest} topic x out t w small l) m =
      rw (append_assoc (framed topic 1 out) rest b)
        (batch_entry topic x out t w small (Logged-append l m))

  entry_of_batch :
      (topic : Str) (b : Batch) (entry : Bytes) (written : Fault ⊎ Bytes)
      → IsTopic topic
      → IsSmall (batch b)
      → arrow.write_stream (arrow.schema b) (b ∷ []) ≡ written
      → serialize arrow topic (batch b) ≡ ok entry
      → Logged arrow ((topic, batch b) ∷ []) entry
  unfolding serialize
  entry_of_batch topic b entry (inl fault) t small w e = cc
  entry_of_batch topic b entry (inr out) t small w e =
      let same : framed topic 1 out ≡ entry = cc in
      subst (Logged arrow ((topic, batch b) ∷ [])) (append-nil (framed topic 1 out) ∙ same)
        (batch_entry topic b out t w (small out w) nothing)

  pub serialize_cases :
      (topic : Str) (r : StoredRecord Batch)
      → ((entry : Bytes) × (serialize arrow topic r ≡ ok entry))
        ⊎ ((e : HerbertError Fault) × (serialize arrow topic r ≡ err e))
  unfolding serialize
  serialize_cases topic (raw p) = inl (framed topic 0 p, refl)
  serialize_cases topic (batch b) = of_written (arrow.write_stream (arrow.schema b) (b ∷ [])) refl
    where
      of_written :
          (w : Fault ⊎ Bytes)
          → arrow.write_stream (arrow.schema b) (b ∷ []) ≡ w
          → ((entry : Bytes) × (serialize arrow topic (batch b) ≡ ok entry))
            ⊎ ((e : HerbertError Fault) × (serialize arrow topic (batch b) ≡ err e))
      of_written (inl fault) e = inr (arrow_error fault, rw e refl)
      of_written (inr out) e = inl (framed topic 1 out, rw e refl)

  pub Logged-serialize :
      (topic : Str) (r : StoredRecord Batch) (entry : Bytes)
      → IsTopic topic
      → IsSmall r
      → serialize arrow topic r ≡ ok entry
      → Logged arrow ((topic, r) ∷ []) entry
  unfolding serialize
  Logged-serialize topic (raw p) entry t small e =
      let same : framed topic 0 p ≡ entry = cc in
      subst (Logged arrow ((topic, raw p) ∷ [])) (append-nil (framed topic 0 p) ∙ same)
        (raw_entry topic p t small nothing)
  Logged-serialize topic (batch b) entry t small e = entry_of_batch topic b entry _ t small refl e

  -- What the file and the buffer of a log hold, beside the records that the backend has.
  pub record IsLogged (w : WriteAheadLog Batch) (applied : List (Str × StoredRecord Batch))
      : Type 0 where
    -- the buffered records whose entries are in the file, and those whose entries are not
    pub ahead : List (Str × StoredRecord Batch)
    pub pending : List (Str × StoredRecord Batch)
    pub in_file : Logged arrow (applied ++ ahead) w.file.inner.file
    pub in_buf : Logged arrow pending w.file.inner.buf
    pub buffered : w.buffer.inner ≡ ahead ++ pending

  -- A new entry comes last, wherever the writer puts it.
  pub Added-IsLogged :
      (w v : WriteAheadLog Batch) (topic : Str) (r : StoredRecord Batch) (entry : Bytes)
      (applied : List (Str × StoredRecord Batch))
      → Logged arrow ((topic, r) ∷ []) entry
      → v.buffer.inner ≡ w.buffer.inner ++ (topic, r) ∷ []
      → IsLogged w applied
      → Placed w.file.inner entry v.file.inner
      → IsLogged v applied
  Added-IsLogged w v topic r entry applied l grown d (buffered e) = record {
    ahead = d.ahead;
    pending = d.pending ++ (topic, r) ∷ [];
    in_file = rw e d.in_file;
    in_buf = rw e (Logged-append d.in_buf l);
    buffered = grown ∙ rw d.buffered (append_assoc d.ahead d.pending _);
  }
  Added-IsLogged w v topic r entry applied l grown d (flushed e) = record {
    ahead = d.ahead ++ d.pending;
    pending = (topic, r) ∷ [];
    in_file = rw (e, ← append_assoc applied d.ahead d.pending) (Logged-append d.in_file d.in_buf);
    in_buf = rw e l;
    buffered = grown ∙ rw d.buffered refl;
  }
  Added-IsLogged w v topic r entry applied l grown d (direct e) = record {
    ahead = (d.ahead ++ d.pending) ++ (topic, r) ∷ [];
    pending = [];
    in_file =
        rw
          (
            e,
            ← append_assoc applied (d.ahead ++ d.pending) ((topic, r) ∷ []),
            ← append_assoc applied d.ahead d.pending,
          )
          (Logged-append (Logged-append d.in_file d.in_buf) l);
    in_buf = rw e nothing;
    buffered = grown ∙ rw d.buffered (sym (append-nil _));
  }
