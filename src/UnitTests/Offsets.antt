-- ===== src/UnitTests/Offsets.antt =====
-- The unit tests of src/offset_manager.rs.
use herbert.Prelude.{
  ℕ, ◌≡◌, refl, ap, ◌∙◌, Bool, false, ◌==◌, Option, none, some, [], bytes_eq, pair_eq, Bytes, Str,
  codes,
}
use herbert.Prelude.Int.{ℤ, pos, negsuc}
use herbert.HashMap.{lookup, insert}
use herbert.HashMap.Collect.{collect}
use herbert.Outcome.{Outcome, ok, fresh, ◌>>=◌}
use herbert.Config.{test_default, with_offset_path}
use herbert.OffsetManager.Operations.{
  Offsets, OffsetManager, Json, JsonLaws, OffsetFile, Saved, new, get_offset, set_offset, recover,
  joined,
}
use herbert.OffsetManager.Keys.{HasNoColon}
use herbert.OffsetManager.RoundTrip.{TakesFile, recover_lem, flush_lem}
use herbert.KafkaApi.Committed.{set_offset_is, set_offset_lem, get_offset-set_offset}
use herbert.UnitTests.{assert, unwrap, unwrap_some, is_empty}

-- `offset == &n`
abbrev pub is_offset : ℕ → ℤ → Bool
is_offset n (pos m) = n == m
is_offset n (negsuc m) = false

module _ (Fault : Type 0) (json : Json) (disk : OffsetFile) (offset_path : Str) where
  -- A manager over a file that is not there yet.
  abbrev pub opened : Saved
  opened = (new (with_offset_path test_default offset_path), none)

  abbrev pub set : Str → Str → ℤ → Saved → Saved
  set group topic offset s = (set_offset {Fault = Fault} json disk group topic offset s).1

  unfoldable test_new : Outcome Fault Unit
  test_new = assert (is_empty (new test_default).offsets.inner)

  unfoldable test_set_offset : Outcome Fault Unit
  test_set_offset = do
    let (om, _) = set (codes "test") (codes "foobar") (pos 10) opened
    offset ← unwrap_some (lookup (codes "test", codes "foobar") om.offsets.inner)
    assert (is_offset 10 offset)

  unfoldable test_get_offset : Outcome Fault Unit
  test_get_offset = do
    let (om, _) = set (codes "test") (codes "foobar") (pos 10) opened
    got_offset ← unwrap (get_offset (codes "test") (codes "foobar") om)
    assert (is_offset 10 got_offset)

  unfoldable test_get_offset_for_new_consumer_group : Outcome Fault Unit
  test_get_offset_for_new_consumer_group = do
    got_offset ← unwrap (get_offset (codes "test") (codes "foobar") opened.0)
    assert (is_offset 0 got_offset)

  unfoldable test_flush_and_recover : Outcome Fault Unit
  test_flush_and_recover =
      let s = set (codes "test") (codes "foobar") (pos 10) opened in
      let s = set (codes "walk") (codes "foobar") (pos 11) s in
      let s = set (codes "test") (codes "asap") (pos 54) s in
      let recovered = recover {Fault = Fault} json s.1 opened.0 in
      do
        _ ← unwrap recovered.0
        let offsets = recovered.1.offsets.inner
        a ← unwrap_some (lookup (codes "test", codes "foobar") offsets)
        _ ← assert (is_offset 10 a)
        b ← unwrap_some (lookup (codes "walk", codes "foobar") offsets)
        _ ← assert (is_offset 11 b)
        c ← unwrap_some (lookup (codes "test", codes "asap") offsets)
        assert (is_offset 54 c)

  test_new_passes : test_new ≡ ok tt
  unfolding test_new new
  test_new_passes = refl

  test_set_offset_passes : test_set_offset ≡ ok tt
  unfolding test_set_offset new insert lookup
  test_set_offset_passes =
      rw
        (set_offset_lem Fault json disk (codes "test") (codes "foobar") (pos 10) opened.0 none
          refl).0
        refl

  test_get_offset_passes : test_get_offset ≡ ok tt
  unfolding test_get_offset new
  test_get_offset_passes =
      rw
        (get_offset-set_offset Fault json disk (codes "test") (codes "foobar") (pos 10) opened refl)
        refl

  test_get_offset_for_new_consumer_group_passes : test_get_offset_for_new_consumer_group ≡ ok tt
  unfolding test_get_offset_for_new_consumer_group get_offset new lookup
  test_get_offset_for_new_consumer_group_passes = refl

  module _ (laws : JsonLaws json) (takes : TakesFile disk) where
    abbrev with_offset : Str → Str → ℤ → OffsetManager → OffsetManager
    with_offset group topic offset om = record om {
      offsets = record om.offsets { inner = insert (group, topic) offset om.offsets.inner };
    }

    -- What `set_offset` saves, and what a manager finds that recovers from it.
    saved_lem :
        (group topic : Str) (offset : ℤ) (om before : OffsetManager) (file : Option Bytes)
        → om.offsets.poisoned ≡ false
        → let offsets = insert (group, topic) offset om.offsets.inner in
          (text : Bytes) × (set group topic offset (om, file)
            ≡ (with_offset group topic offset om, some text))
          × (restored : Offsets) × (recover {Fault = Fault} json (some text) before
              ≡ (ok tt, record before { offsets = fresh restored }))
          × ((p : Str × Str)
              → HasNoColon p.0
              → lookup p restored ≡ lookup (joined p) (collect joined offsets []))
    saved_lem group topic offset om before file live =
        let offsets = insert (group, topic) offset om.offsets.inner in
        let (text, written, restored, recovered, same, _, _) =
          recover_lem {Fault = Fault} json laws offsets before in
        (
          text,
          ap (λ r. r.1)
              (set_offset_is Fault json disk group topic offset om file live
                ∙ flush_lem json laws disk takes _ file text live written),
          restored,
          recovered,
          same,
        )

    test_flush_and_recover_passes : test_flush_and_recover ≡ ok tt
    unfolding test_flush_and_recover new insert lookup collect joined
    test_flush_and_recover_passes =
        let om1 = with_offset (codes "test") (codes "foobar") (pos 10) opened.0 in
        let om2 = with_offset (codes "walk") (codes "foobar") (pos 11) om1 in
        let (a, set_a, _, _, _) =
          saved_lem (codes "test") (codes "foobar") (pos 10) opened.0 opened.0 none refl in
        let (b, set_b, _, _, _) =
          saved_lem (codes "walk") (codes "foobar") (pos 11) om1 opened.0 (some a) refl in
        let (c, set_c, restored, recovered, same) =
          saved_lem (codes "test") (codes "asap") (pos 54) om2 opened.0 (some b) refl in
        rw
          (
            set_a,
            set_b,
            set_c,
            recovered,
            same (codes "test", codes "foobar") (refl, (refl, (refl, (refl, tt)))),
            same (codes "walk", codes "foobar") (refl, (refl, (refl, (refl, tt)))),
            same (codes "test", codes "asap") (refl, (refl, (refl, (refl, tt)))),
          )
          refl
