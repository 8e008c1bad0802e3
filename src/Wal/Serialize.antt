-- ===== src/Wal/Serialize.antt =====
-- src/wal.rs: the entry that stands in the file for one record.
use herbert.Prelude.{ℕ, ◌∷◌, [], ◌++◌, length, as_u32, u32_le, Bytes, Str}
use herbert.Outcome.{Outcome, ok, ◌>>=◌}
use herbert.Arrow.{Arrow, from_arrow}
use herbert.Storage.Record.{StoredRecord, raw, batch}

-- The topic, a newline, an indicator, the length as a 32-bit word, and the payload.
unfoldable pub framed : Str → (indicator : ℕ) → Bytes → Bytes
framed topic indicator payload =
    topic ++ (b'\n' ∷ indicator ∷ (u32_le (as_u32 (length payload)) ++ payload))

module _ {Schema Batch Fault : Type 0} (arrow : Arrow Schema Batch Fault) where
  unfoldable pub serialize : Str → StoredRecord Batch → Outcome Fault Bytes
  serialize topic (raw bytes) = ok (framed topic 0 bytes)
  serialize topic (batch b) = do
    tmp_buffer ← from_arrow (arrow.write_stream (arrow.schema b) (b ∷ []))
    ok (framed topic 1 tmp_buffer)
