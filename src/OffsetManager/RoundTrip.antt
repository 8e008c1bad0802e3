-- ===== src/OffsetManager/RoundTrip.antt =====
-- src/offset_manager.rs: `recover` reads back what `flush` saved.
use herbert.Prelude.{
  ◌≡◌, refl, sym, ap, ◌∙◌, false, Option, none, some, [], ◌∷◌, ◌++◌, bytes_eq, pair_eq, Bytes, Str,
}
use herbert.Prelude.Int.{ℤ, pos}
use herbert.HashMap.{lookup}
use herbert.HashMap.Collect.{AllKeys, IsMap, AllKeys-of_lookup, collect, collect-IsMap}
use herbert.Outcome.{ok, fresh}
use herbert.OffsetManager.Operations.{
  Offsets, OffsetManager, Json, JsonLaws, OffsetFile, joined, save, flush, get_offset, recover,
}
use herbert.OffsetManager.SavedKeys.{
  IsJoined, split_or, split_keys-collect, saved-IsJoined, lookup-stored, restored-HasNoColon,
  lookup-saved,
}
use herbert.OffsetManager.Keys.{HasNoColon}

abbrev offset_or : Option ℤ → ℤ
offset_or o = elim o [ none ↦ pos 0 | some n ↦ n ]

none_of : (o : Option ℤ) → ((n : ℤ) → o ≡ some n → ⊥) → o ≡ none
none_of none h = refl
none_of (some n) h = absurd (h n refl)

colon-HasNoColon : (a b : Str) → HasNoColon (a ++ b':' ∷ b) → ⊥
colon-HasNoColon [] b h = cc (h.0)
colon-HasNoColon (c ∷ a) b h = colon-HasNoColon a b h.1

-- The lock is not poisoned, no group and topic has two offsets, and no group that has an offset
-- contains a colon.
pub record IsPlain (om : OffsetManager) : Type 0 where
  pub live : om.offsets.poisoned ≡ false
  pub unique : IsMap om.offsets.inner
  pub plain : AllKeys (λ p. HasNoColon p.0) om.offsets.inner

-- A disk that takes every file.
abbrev pub TakesFile : OffsetFile → Type 0
TakesFile disk = (file : Option Bytes) (text : Bytes) → disk.write file text ≡ (none, some text)

module _ {Fault : Type 0} (json : Json) (laws : JsonLaws json) where
  -- What `recover` makes of the text that `flush` wrote: it succeeds, and under a group with no
  -- colon it has what the text has under the joined key.
  pub recover_lem :
      (offsets : Offsets) (om : OffsetManager)
      → (text : Bytes) × (json.to_string (collect joined offsets []) ≡ some text)
        × (restored : Offsets) × (recover {Fault = Fault} json (some text) om
            ≡ (ok tt, record om { offsets = fresh restored }))
        × ((p : Str × Str)
            → HasNoColon p.0
            → lookup p restored ≡ lookup (joined p) (collect joined offsets []))
        × ((p : Str × Str) (o : ℤ) → lookup p restored ≡ some o → HasNoColon p.0)
        × IsMap restored
  unfolding recover
  recover_lem offsets om =
      let saved = collect joined offsets [] in
      let (text, written, stored, read, unique, same) =
        laws.from_slice-to_string saved (collect-IsMap joined offsets [] tt) in
      let keys : AllKeys IsJoined stored =
        AllKeys-of_lookup IsJoined stored unique
          λ k o e. saved-IsJoined offsets k o (sym (same k) ∙ e) in
      (
        text,
        written,
        collect split_or stored [],
        rw (read, split_keys-collect stored [] keys, recover) refl,
        λ p plain. lookup-stored p stored plain unique keys ∙ same (joined p),
        λ p o e. restored-HasNoColon p o stored e,
        collect-IsMap split_or stored [] tt,
      )

  module _ (disk : OffsetFile) (takes : TakesFile disk) where
    save_lem :
        (om : OffsetManager) (file : Option Bytes) (text : Bytes)
        → save {Fault = Fault} json disk text (om, file) ≡ (ok tt, (om, some text))
    unfolding save
    save_lem om file text = rw (takes file text, save) refl

    pub flush_lem :
        (om : OffsetManager) (file : Option Bytes) (text : Bytes)
        → om.offsets.poisoned ≡ false
        → json.to_string (collect joined om.offsets.inner []) ≡ some text
        → flush {Fault = Fault} json disk (om, file) ≡ (ok tt, (om, some text))
    unfolding flush
    flush_lem om file text live written = simp (live, written, save_lem om file text)

    -- What a manager reads that recovers from the flushed file is plain again.
    pub recover-IsPlain :
        (om before : OffsetManager) (file : Option Bytes)
        → IsPlain om
        → (text : Bytes) × (flush {Fault = Fault} json disk (om, file) ≡ (ok tt, (om, some text)))
          × (after : OffsetManager) × (recover {Fault = Fault} json (some text) before
              ≡ (ok tt, after))
          × ((group topic : Str)
              → HasNoColon group
              → get_offset {Fault = Fault} group topic after ≡ get_offset group topic om)
          × IsPlain after
    unfolding get_offset
    recover-IsPlain om before file h =
        let (text, written, restored, recovered, same, groups, unique) =
          recover_lem om.offsets.inner before in
        (
          text,
          flush_lem om file text h.live written,
          record before { offsets = fresh restored },
          recovered,
          λ group topic no_colon. simp (
            h.live,
            same (group, topic) no_colon,
            lookup-saved om.offsets.inner (group, topic) no_colon h.unique h.plain,
          ),
          record {
            live = refl;
            unique = unique;
            plain = AllKeys-of_lookup (λ p. HasNoColon p.0) restored unique groups;
          },
        )

    -- After `flush`, the file recovers, into any manager, without a panic. If no group that has an
    -- offset contains a colon, each group with no colon has the offset that it had. The disk takes
    -- the file, the lock is not poisoned, and no group and topic has two offsets.
    pub recover-flush :
        (om before : OffsetManager) (file : Option Bytes)
        → om.offsets.poisoned ≡ false
        → IsMap om.offsets.inner
        → AllKeys (λ p. HasNoColon p.0) om.offsets.inner
        → (text : Bytes) × (flush {Fault = Fault} json disk (om, file) ≡ (ok tt, (om, some text)))
          × (after : OffsetManager) × (recover {Fault = Fault} json (some text) before
              ≡ (ok tt, after))
          × ((group topic : Str)
              → HasNoColon group
              → get_offset {Fault = Fault} group topic after ≡ get_offset group topic om)
    recover-flush om before file live unique plain =
        let (text, written, after, recovered, same, _) =
          recover-IsPlain om before file (record { live = live; unique = unique; plain = plain }) in
        (text, written, after, recovered, same)

    -- After `flush` and `recover`, the offset of each group with a colon in its name is 0, whatever
    -- was committed. The disk takes the file, and the lock is not poisoned.
    pub recover_colon :
        (om before : OffsetManager) (file : Option Bytes)
        → om.offsets.poisoned ≡ false
        → (text : Bytes) × (flush {Fault = Fault} json disk (om, file) ≡ (ok tt, (om, some text)))
          × (after : OffsetManager) × (recover {Fault = Fault} json (some text) before
              ≡ (ok tt, after))
          × ((a b topic : Str)
              → get_offset {Fault = Fault} (a ++ b':' ∷ b) topic after ≡ ok (pos 0))
    unfolding get_offset
    recover_colon om before file live =
        let (text, written, restored, recovered, _, plain, _) =
          recover_lem om.offsets.inner before in
        (
          text,
          flush_lem om file text live written,
          record before { offsets = fresh restored },
          recovered,
          λ a b topic.
              ap (λ o. ok (offset_or o))
                (none_of (lookup ((a ++ b':' ∷ b), topic) restored)
                  λ o found. colon-HasNoColon a b (plain ((a ++ b':' ∷ b), topic) o found)),
        )
