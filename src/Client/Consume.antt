-- ===== src/Client/Consume.antt =====
-- src/client.rs: `consume`, `consume_record_batches` and the loop of `consume_continuos`.
use herbert.Prelude.{
  ℕ, zero, suc, ◌+◌, ◌-◌, ◌^◌, ◌||◌, Option, ◌⊎◌, List, [], ◌∷◌, ltb, leb, ◌==◌, if◌then◌else◌,
  length, take, bytes_beq, Bytes, Str, codes,
}
use herbert.Prelude.Int.{ℤ, pos, negsuc}
use herbert.Outcome.{Outcome, ok, Method, and_then, ◌>>=◌}
use herbert.Arrow.{Arrow, from_arrow, continuation}
use herbert.Utf8.{from_utf8}
use herbert.KafkaApi.Topics.{create_fetch_request}
use herbert.Client.Stream.{Stream, Codec, create_request_header, create_buffer, connected}
use herbert.Client.Requests.{fetch_key, get_offset, set_offset, get_records}

-- `records.split(|b| *b == 0)`: one part more than there are zero bytes.
unfoldable pub split : Bytes → List Bytes
split [] = [] ∷ []
split (c ∷ cs) = elim (split cs) [
  | [] ↦ (c ∷ []) ∷ []
  | part ∷ parts ↦ if c == 0 then [] ∷ part ∷ parts else (c ∷ part) ∷ parts
]

-- `offset + count as i64`, as a release build computes it: a sum past 2 ^ 63 wraps around.
unfoldable pub add_i64 : ℤ → ℕ → ℤ
add_i64 (pos n) count =
    if ltb (n + count) (2 ^ 63) then pos (n + count) else negsuc (2 ^ 64 - (n + count) - 1)
add_i64 (negsuc n) count = if leb count n then negsuc (n - count) else pos (count - n - 1)

module _ {Schema Batch Fault : Type 0} (arrow : Arrow Schema Batch Fault) where
  -- `while let Some(batch_result) = reader.next() { batches.push(batch_result?) }`
  unfoldable pub all_batches : List (Fault ⊎ Batch) → Outcome Fault (List Batch)
  all_batches [] = ok []
  all_batches (item ∷ items) = do b ← from_arrow item; bs ← all_batches items; ok (b ∷ bs)

  unfoldable pub read_batches : Bytes → Outcome Fault (List Batch)
  read_batches records = do items ← from_arrow (arrow.read_stream records); all_batches items

  unfoldable pub num_rows : List Batch → ℕ
  num_rows [] = 0
  num_rows (b ∷ bs) = arrow.num_rows b + num_rows bs

  -- Each part is printed, which wants it to be UTF-8.
  unfoldable pub print_parts : List Bytes → Outcome Fault Unit
  print_parts [] = ok tt
  print_parts (part ∷ parts) = do _ ← from_utf8 part; print_parts parts

  unfoldable pub count_parts : Bytes → Outcome Fault ℕ
  count_parts records = do _ ← print_parts (split records); ok (length (split records))

  -- By how much `consume_continuos` advances on records that are not empty.
  unfoldable pub count_records : Bytes → Outcome Fault ℕ
  count_records records =
      if ltb (length records) 8
      then count_parts records
      else if bytes_beq (take 6 records) (codes "ARROW1") || bytes_beq (take 4 records) continuation
      then read_batches records >>= (λ batches. ok (num_rows batches))
      else count_parts records

  module _ {K : Type 0} (codec : Codec) (stream : Stream K) where
    -- A fetch request at an offset, and the records of the response.
    unfoldable pub fetch_records : (topic : Str) (max_messages offset : ℤ) → Method Fault K Bytes
    fetch_records topic max_messages offset k =
        and_then
          (
            create_buffer codec.header codec.fetch (create_request_header fetch_key (pos 1))
                (create_fetch_request topic max_messages offset),
            k,
          )
          (λ buffer k. get_records codec stream buffer (pos 1) k)

    unfoldable pub consume_parts :
        (topic consumer_group : Str) → ℤ → Bytes → Method Fault K (List Bytes)
    consume_parts topic consumer_group initial_offset [] k = (ok [], k)
    consume_parts topic consumer_group initial_offset (c ∷ cs) k =
        let parts = split (c ∷ cs) in
        and_then
          (set_offset codec stream consumer_group topic (add_i64 initial_offset (length parts)) k)
          (λ _ k. (ok parts, k))

    unfoldable pub consume_on :
        (topic : Str) (max_messages : ℤ) (consumer_group : Str) → Method Fault K (List Bytes)
    consume_on topic max_messages consumer_group k =
        and_then (get_offset codec stream consumer_group topic k) (λ initial_offset k.
          and_then (fetch_records topic max_messages initial_offset k)
            (λ records k. consume_parts topic consumer_group initial_offset records k))

    unfoldable pub consume :
        (broker topic : Str) (max_messages : ℤ) (consumer_group : Str)
        → Outcome Fault (List Bytes) × Option K
    consume broker topic max_messages consumer_group =
        connected stream broker (consume_on topic max_messages consumer_group)

    unfoldable pub consume_batches :
        (topic consumer_group : Str) → ℤ → Bytes → Method Fault K (List Batch)
    consume_batches topic consumer_group initial_offset [] k = (ok [], k)
    consume_batches topic consumer_group initial_offset (c ∷ cs) k =
        and_then (read_batches (c ∷ cs), k)
          (λ batches k.
            and_then
              (set_offset codec stream consumer_group topic
                (add_i64 initial_offset (num_rows batches)) k)
              (λ _ k. (ok batches, k)))

    unfoldable pub consume_record_batches :
        (broker topic : Str) (max_messages : ℤ) (consumer_group : Str)
        → Outcome Fault (List Batch) × Option K
    consume_record_batches broker topic max_messages consumer_group = connected stream broker (λ k.
        and_then (get_offset codec stream consumer_group topic k) (λ initial_offset k.
          and_then (fetch_records topic max_messages initial_offset k)
            (λ records k. consume_batches topic consumer_group initial_offset records k)))

    -- What the loop of `consume_continuos` does with records: the next offset.
    unfoldable pub advance : (topic consumer_group : Str) → ℤ → Bytes → Method Fault K ℤ
    advance topic consumer_group offset [] k = (ok offset, k)
    advance topic consumer_group offset (c ∷ cs) k =
        and_then (count_records (c ∷ cs), k)
          (λ count k.
            and_then (set_offset codec stream consumer_group topic (add_i64 offset count) k)
              (λ _ k. (ok (add_i64 offset count), k)))

    -- So many rounds of the loop, from an offset. The loop ends only by an error or a panic.
    unfoldable pub consume_rounds :
        ℕ → (topic : Str) (max_messages : ℤ) (consumer_group : Str) → ℤ → Method Fault K ℤ
    consume_rounds zero topic max_messages consumer_group offset k = (ok offset, k)
    consume_rounds (suc rounds) topic max_messages consumer_group offset k =
        and_then (fetch_records topic max_messages offset k) (λ records k.
          and_then (advance topic consumer_group offset records k)
            (λ offset k. consume_rounds rounds topic max_messages consumer_group offset k))

    unfoldable pub consume_continuos :
        ℕ
        → (broker topic : Str) (max_messages : ℤ) (consumer_group : Str)
        → Outcome Fault ℤ × Option K
    consume_continuos rounds broker topic max_messages consumer_group =
        connected stream broker (λ k.
          and_then (get_offset codec stream consumer_group topic k) (λ initial_offset k.
            consume_rounds rounds topic max_messages consumer_group initial_offset k))
