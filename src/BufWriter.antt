-- ===== src/BufWriter.antt =====
-- `std::io::BufWriter<File>`, through which src/wal.rs writes: a file opened for appending, and
-- the bytes that have not reached it yet.
use herbert.Prelude.{
  ℕ, zero, suc, ◌-◌, ◌<◌, ◌≤◌, ◌≡◌, refl, true, false, inl, inr, ◌⊎◌, [], ◌∷◌, ◌++◌, append-nil,
  arith, ltb, leb, ◌==◌, if◌then◌else◌, length, take, drop, take_all, drop_all, nil_of_length,
  Bool-cases, Bytes,
}
use herbert.Outcome.{IoError, write_zero, Outcome, ok, err, out_of_fuel, io, Method, and_then}

-- `write(2)` on a file with these contents: how many bytes of the chunk were taken, or an error.
pub record OsFile : Type 0 where
  pub accept : Bytes → Bytes → IoError ⊎ ℕ

-- A file system with room, which takes each chunk as a whole.
abbrev pub TakesAll : OsFile → Type 0
TakesAll os = (file chunk : Bytes) → os.accept file chunk ≡ inr (length chunk)

pub record BufWriter : Type 0 where
  pub file : Bytes
  pub buf : Bytes

-- What has been written so far, whether it has reached the file or not.
abbrev pub contents : BufWriter → Bytes
contents w = w.file ++ w.buf

pub capacity : ℕ
capacity = 8192

-- A chunk that is as long as both the buffer and its spare room meets an empty buffer.
empty_of_exact :
    (buf chunk : Bytes)
    → ltb (length chunk) (capacity - length buf) ≡ false
    → ltb (capacity - length buf) (length chunk) ≡ false
    → leb capacity (length chunk) ≡ true
    → buf ≡ []
unfolding capacity
empty_of_exact buf chunk full exact long = nil_of_length buf (ground arith)

-- A chunk is written in one piece: into the buffer, into the buffer after a flush, or past it.
pub data Placed (w : BufWriter) (chunk : Bytes) : BufWriter → Type 0 where
  buffered : {v : BufWriter} → v ≡ record w { buf = w.buf ++ chunk } → Placed w chunk v
  flushed : {v : BufWriter} → v ≡ record { file = contents w; buf = chunk } → Placed w chunk v
  direct : {v : BufWriter} → v ≡ record { file = contents w ++ chunk; buf = [] } → Placed w chunk v

after_flush :
    (w : BufWriter) (chunk : Bytes) (v : BufWriter)
    → Placed (record { file = contents w; buf = [] }) chunk v
    → Placed w chunk v
after_flush w chunk v (buffered e) = flushed e
after_flush w chunk v (flushed e) = flushed (rw append-nil at e)
after_flush w chunk v (direct e) = direct (rw append-nil at e)

module _ {Fault : Type 0} (os : OsFile) where
  -- `flush_buf`. Each round takes a byte at least, so the length of the buffer is enough fuel.
  unfoldable pub flush_buf : ℕ → Bytes → Bytes → Outcome Fault Unit × BufWriter
  flush_buf _ file [] = (ok tt, record { file = file; buf = [] })
  flush_buf zero file (c ∷ cs) = (out_of_fuel, record { file = file; buf = c ∷ cs })
  flush_buf (suc fuel) file (c ∷ cs) =
      let buf = c ∷ cs in
      elim (os.accept file buf) [
        | inl e ↦ (err (io e), record { file = file; buf = buf })
        | inr n ↦ elim (n == 0) [
          | true ↦ (err (io write_zero), record { file = file; buf = buf })
          | false ↦ flush_buf fuel (file ++ take n buf) (drop n buf)
        ]
      ]

  -- `flush`
  unfoldable pub flush : Method Fault BufWriter Unit
  flush w = flush_buf (length w.buf) w.file w.buf

  -- The end of `write_cold`: a chunk as long as the buffer goes to the file at once, and the count
  -- that comes back may be short.
  unfoldable pub write_through : Bytes → Method Fault BufWriter ℕ
  write_through chunk w =
      if leb capacity (length chunk)
      then elim (os.accept w.file chunk) [
        | inl e ↦ (err (io e), w)
        | inr n ↦ (ok n, record w { file = w.file ++ take n chunk })
      ]
      else (ok (length chunk), record w { buf = w.buf ++ chunk })

  -- `write`
  unfoldable pub write : Bytes → Method Fault BufWriter ℕ
  write chunk w =
      let spare = capacity - length w.buf in
      if ltb (length chunk) spare
      then (ok (length chunk), record w { buf = w.buf ++ chunk })
      else if ltb spare (length chunk)
      then and_then (flush w) (λ _ w. write_through chunk w)
      else write_through chunk w

  -- `write_all` as a specification.
  pub record Wrote (chunk : Bytes) (w : BufWriter) (r : Outcome Fault ℕ × BufWriter) : Type 0 where
    pub count : r.0 ≡ ok (length chunk)
    pub placed : Placed w chunk r.1

  -- A chunk that fits is put into an empty buffer.
  pub write_small :
      (chunk file : Bytes)
      → length chunk < 8192
      → write chunk (record { file = file; buf = [] })
        ≡ (ok (length chunk), record { file = file; buf = chunk })
  unfolding write capacity
  write_small chunk file small =
      let fits : ltb (length chunk) (8192 - 0) ≡ true = ground arith in rw fits refl

  flush_buf_nil :
      (fuel : ℕ) (file : Bytes) → flush_buf fuel file [] ≡ (ok tt, record { file = file; buf = [] })
  unfolding flush_buf
  flush_buf_nil zero file = refl
  flush_buf_nil (suc fuel) file = refl

  module _ (takes : TakesAll os) where
    flush_buf_lem :
        (fuel : ℕ) (file buf : Bytes)
        → length buf ≤ fuel
        → flush_buf fuel file buf ≡ (ok tt, record { file = file ++ buf; buf = [] })
    unfolding flush_buf
    flush_buf_lem zero file [] h = rw append-nil refl
    flush_buf_lem (suc fuel) file [] h = rw append-nil refl
    flush_buf_lem zero file (c ∷ cs) h = absurd (omega arith)
    flush_buf_lem (suc fuel) file (c ∷ cs) h =
        let all : take (length (c ∷ cs)) (c ∷ cs) ≡ c ∷ cs =
          take_all (c ∷ cs) (length (c ∷ cs)) (omega arith) in
        let some_left : (length (c ∷ cs) == 0) ≡ false = ground arith in
        rw (takes file (c ∷ cs), some_left, all, drop_all (c ∷ cs), flush_buf)
          (flush_buf_nil fuel _)

    -- `flush` brings everything to the file.
    pub flush_lem : (w : BufWriter) → flush w ≡ (ok tt, record { file = contents w; buf = [] })
    unfolding flush
    flush_lem w = flush_buf_lem (length w.buf) w.file w.buf (omega arith)

    write_through_lem :
        (chunk : Bytes) (w : BufWriter)
        → (leb capacity (length chunk) ≡ true → w.buf ≡ [])
        → Wrote chunk w (write_through chunk w)
    unfolding write_through
    write_through_lem chunk w h = elim (Bool-cases (leb capacity (length chunk))) [
      | inl long ↦
          rw (long, takes w.file chunk)
            (record {
              count = refl;
              placed =
                  direct
                    (rw (take_all chunk (length chunk) (omega arith), h long) (rw append-nil refl));
            })
      | inr short ↦ rw short (record { count = refl; placed = buffered refl })
    ]

    -- Every write is taken as a whole and goes behind what was written before, whether it is
    -- buffered, flushes the buffer first or goes past it.
    pub write_lem : (chunk : Bytes) (w : BufWriter) → Wrote chunk w (write chunk w)
    unfolding write
    write_lem chunk w = elim (Bool-cases (ltb (length chunk) (capacity - length w.buf))) [
      | inl fits ↦ rw fits (record { count = refl; placed = buffered refl })
      | inr full ↦ elim (Bool-cases (ltb (capacity - length w.buf) (length chunk))) [
        | inl more ↦
            let through =
              write_through_lem chunk (record { file = contents w; buf = [] }) (λ _. refl) in
            rw (full, more, flush_lem w)
              (record { count = through.count; placed = after_flush w chunk _ through.placed })
        | inr exact ↦
            rw (full, exact)
              (write_through_lem chunk w (λ long. empty_of_exact w.buf chunk full exact long))
      ]
    ]
