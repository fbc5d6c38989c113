-- ===== src/Op/Streamer/Fetch/Sound.antt =====
-- What is known of the L1 states in the cache stays known when blocks are read.
use espresso_streamers.Base.{
  ℕ, ◌-◌, ◌≡◌, false, inl, inr, refl, Option, none, some, List, [], ◌∷◌, arith, ◌==◌, add64,
  Bool-cases,
}
use espresso_streamers.Op.Batch.{Batch, BatchValidity, drop, accept, undecided, past}
use espresso_streamers.Op.Streamer.Deps.{Deps, Bytes}
use espresso_streamers.Op.Streamer.State.{BatchStreamer}
use espresso_streamers.Op.Streamer.Check.{check_batch}
use espresso_streamers.Op.Streamer.Check.Later.{same, asked_transactions, asked_time}
use espresso_streamers.Op.Streamer.Check.Vetted.{
  Vetting, HasSound, later-IsSound, check_batch-HasSound,
}
use espresso_streamers.Op.Streamer.Fetch.{
  is_head_duplicate, record_timestamp, buffer_batch, place_batch, process_espresso_transaction,
  process_transaction, process_block, process_blocks, fetch_hot_shot_range,
}
use espresso_streamers.Op.Streamer.Fetch.Keeps.{process_transaction-skip}

module _ {d : Deps} where
  place_batch-cache :
      (s : BatchStreamer d) (b : Batch) (stamp : ℕ)
      → (place_batch s b stamp).1.finalized_l1_state_cache ≡ s.finalized_l1_state_cache
  unfolding place_batch buffer_batch record_timestamp is_head_duplicate
  place_batch-cache s b stamp = ground arith

  place_batch-client :
      (s : BatchStreamer d) (b : Batch) (stamp : ℕ) → (place_batch s b stamp).1.client ≡ s.client
  unfolding place_batch buffer_batch record_timestamp is_head_duplicate
  place_batch-client s b stamp = ground arith

module _ {d : Deps} (vet : Vetting d) where
  placed :
      (s : BatchStreamer d) (b : Batch) (stamp : ℕ)
      → HasSound vet s
      → HasSound vet (place_batch s b stamp).1
  placed s b stamp v = rw (place_batch-cache s b stamp, place_batch-client s b stamp) v

  process_espresso_transaction-HasSound :
      (s : BatchStreamer d) (t : Bytes) (stamp : ℕ)
      → HasSound vet s
      → HasSound vet (process_espresso_transaction s t stamp).1
  unfolding process_espresso_transaction
  process_espresso_transaction-HasSound s t stamp v = by_batch (d.unmarshal_batch t) refl
    where
      by_validity :
          (b : Batch) (w : BatchValidity)
          → d.unmarshal_batch t ≡ some b
          → (check_batch s b).0 ≡ w
          → HasSound vet (process_espresso_transaction s t stamp).1
      by_validity b drop e f =
          rw (e, f, process_espresso_transaction) (check_batch-HasSound vet s b v)
      by_validity b past e f =
          rw (e, f, process_espresso_transaction) (check_batch-HasSound vet s b v)
      by_validity b accept e f =
          rw (e, f, process_espresso_transaction)
            (placed (check_batch s b).1 b stamp (check_batch-HasSound vet s b v))
      by_validity b undecided e f =
          rw (e, f, process_espresso_transaction)
            (placed (check_batch s b).1 b stamp (check_batch-HasSound vet s b v))

      by_batch :
          (o : Option Batch)
          → d.unmarshal_batch t ≡ o
          → HasSound vet (process_espresso_transaction s t stamp).1
      by_batch none e = rw (e, process_espresso_transaction) v
      by_batch (some b) e = by_validity b (check_batch s b).0 e refl

  pub process_transaction-HasSound :
      (s : BatchStreamer d) (pos stamp : ℕ) (t : Bytes)
      → HasSound vet s
      → HasSound vet (process_transaction s pos stamp t)
  process_transaction-HasSound s pos stamp t v =
      let cache : (process_transaction s pos stamp t).finalized_l1_state_cache
          ≡ (process_espresso_transaction s t stamp).1.finalized_l1_state_cache =
        ground (arith, process_transaction-skip s pos stamp t) in
      let client : (process_transaction s pos stamp t).client
          ≡ (process_espresso_transaction s t stamp).1.client =
        ground (arith, process_transaction-skip s pos stamp t) in
      rw (cache, client) (process_espresso_transaction-HasSound s t stamp v)

  pub process_block-HasSound :
      (s : BatchStreamer d) (pos stamp : ℕ) (ts : List Bytes)
      → HasSound vet s
      → HasSound vet (process_block s pos stamp ts)
  unfolding process_block
  process_block-HasSound s pos stamp [] v = v
  process_block-HasSound s pos stamp (t ∷ ts) v =
      process_block-HasSound (process_transaction s pos stamp t) pos stamp ts
        (process_transaction-HasSound s pos stamp t v)

  pub process_blocks-HasSound :
      (s : BatchStreamer d) (pos stamp : ℕ) (bs : List (List Bytes))
      → HasSound vet s
      → HasSound vet (process_blocks s pos stamp bs)
  unfolding process_blocks
  process_blocks-HasSound s pos stamp [] v = v
  process_blocks-HasSound s pos stamp (b ∷ bs) v =
      process_blocks-HasSound (process_block s pos stamp b) (add64 pos 1) stamp bs
        (process_block-HasSound s pos stamp b v)

  pub fetch_hot_shot_range-HasSound :
      (s : BatchStreamer d) (start finish : ℕ)
      → HasSound vet s
      → HasSound vet (fetch_hot_shot_range s start finish).1
  unfolding fetch_hot_shot_range
  fetch_hot_shot_range-HasSound s start finish v = elim (Bool-cases (finish == 0)) [
    | inl z ↦ rw (z, fetch_hot_shot_range) v
    | inr nz ↦ by_answer asked.0 nz refl
  ]
    where
      asked : Option (List (List Bytes)) × d.Client
      asked = d.fetch_namespace_transactions_in_range s.client start finish s.namespace

      after : HasSound vet (record s { client = asked.1 })
      after =
          later-IsSound vet s.client asked.1 s.finalized_l1_state_cache
            (asked_transactions start finish s.namespace same) v

      timed : HasSound vet (record s { client = (d.now asked.1).1; hot_shot_pos = finish - 1 })
      timed =
          later-IsSound vet asked.1 (d.now asked.1).1 s.finalized_l1_state_cache (asked_time same)
            after

      by_answer :
          (o : Option (List (List Bytes)))
          → (finish == 0) ≡ false
          → asked.0 ≡ o
          → HasSound vet (fetch_hot_shot_range s start finish).1
      by_answer none nz e = rw (nz, e, fetch_hot_shot_range) after
      by_answer (some []) nz e = rw (nz, e, fetch_hot_shot_range) after
      by_answer (some (b ∷ bs)) nz e =
          rw (nz, e, fetch_hot_shot_range) (process_blocks-HasSound _ start _ (b ∷ bs) timed)
