-- ===== src/TopicManager/RoundTrip.antt =====
-- src/wal.rs and src/topic_manager.rs: `recover` reads back what `serialize` wrote.
use herbert.Prelude.{
  ℕ, suc, ◌^◌, ◌<◌, ◌≡◌, refl, true, false, [], ◌∷◌, ◌++◌, append_assoc, arith, ltb, ◌==◌, length,
  length-append, take-length_append, drop-length_append, without_last-snoc, All, as_u32, u32_le,
  of_u32_le-u32_le, bytes_eq, Bytes, Str,
}
use herbert.Outcome.{ok, and_then}
use herbert.Arrow.{Arrow}
use herbert.Utf8.{is_utf8, from_utf8}
use herbert.Storage.Record.{RecordStorage}
use herbert.Wal.Serialize.{framed}
use herbert.TopicManager.Operations.{TopicManager}
use herbert.TopicManager.Recovery.{
  read_until, read_u8, read_u32, read_exact, restore, read_header, recover_loop,
}

-- A topic that the format can carry: text, on one line.
pub record IsTopic (topic : Str) : Type 0 where
  pub text : is_utf8 topic ≡ true
  pub one_line : All (λ c. (c == b'\n') ≡ false) topic

pub read_until-line :
    (topic rest : Bytes)
    → All (λ c. (c == b'\n') ≡ false) topic
    → read_until b'\n' (topic ++ b'\n' ∷ rest) ≡ (topic ++ b'\n' ∷ [], rest)
unfolding read_until
read_until-line [] rest h = refl
read_until-line (c ∷ cs) rest h = rw (h.0, read_until-line cs rest h.1) refl

read_u32-u32_le :
    {Fault : Type 0} (n : ℕ) (rest : Bytes)
    → n < 2 ^ 32
    → read_u32 {Fault = Fault} (u32_le (as_u32 n) ++ rest) ≡ ok (n, rest)
unfolding read_u32 u32_le
read_u32-u32_le n rest h =
    let small : as_u32 n ≡ n = omega arith in rw (small, of_u32_le-u32_le n h) refl

pub read_exact-append :
    {Fault : Type 0} (p rest : Bytes)
    → read_exact {Fault = Fault} (length p) (p ++ rest) ≡ ok (p, rest)
unfolding read_exact
read_exact-append p rest =
    let enough : ltb (length (p ++ rest)) (length p) ≡ false =
      ground (arith, length-append p rest) in
    rw (enough, take-length_append p rest, drop-length_append p rest) refl

pub framed-append :
    (topic : Str) (indicator : ℕ) (payload rest : Bytes)
    → framed topic indicator payload ++ rest
      ≡ topic ++ b'\n' ∷ indicator ∷ (u32_le (as_u32 (length payload)) ++ (payload ++ rest))
unfolding framed
framed-append topic indicator payload rest = simp append_assoc

module _ {Fault : Type 0} where
  pub read_header-u32_le :
      (topic : Str) (indicator size : ℕ) (rest : Bytes)
      → IsTopic topic
      → size < 2 ^ 32
      → read_header {Fault = Fault}
          (topic ++ b'\n' ∷ [])
          (indicator ∷ (u32_le (as_u32 size) ++ rest))
        ≡ ok (record { topic = topic; indicator = indicator; size = size; rest = rest })
  unfolding read_header from_utf8 read_u8
  read_header-u32_le topic indicator size rest h small =
      rw (without_last-snoc topic b'\n', h.text, read_u32-u32_le size rest small) refl

module _ {Schema Batch Fault S : Type 0} (arrow : Arrow Schema Batch Fault)
    (storage : RecordStorage Batch Fault S) where
  abbrev pub Manager : Type 0
  Manager = TopicManager Schema Batch S

  -- A round of the loop on an entry goes on behind the entry.
  pub recover_loop-framed :
      (fuel : ℕ) (topic : Str) (indicator : ℕ) (payload rest : Bytes) (tm : Manager)
      → IsTopic topic
      → length payload < 2 ^ 32
      → recover_loop arrow storage (suc fuel) (framed topic indicator payload ++ rest) tm
        ≡ and_then
            (restore arrow storage topic indicator (length payload) (payload ++ rest) tm)
            (λ rest tm. recover_loop arrow storage fuel rest tm)
  unfolding recover_loop
  recover_loop-framed fuel topic indicator payload rest tm h small =
      let line : (length (topic ++ b'\n' ∷ []) == 0) ≡ false =
        ground (arith, length-append topic (b'\n' ∷ [])) in
      rw
        (
          framed-append topic indicator payload rest,
          read_until-line topic _ h.one_line,
          line,
          read_header-u32_le topic indicator (length payload) (payload ++ rest) h small,
        )
        refl
