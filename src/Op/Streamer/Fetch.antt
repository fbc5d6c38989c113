-- ===== src/Op/Streamer/Fetch.antt =====
-- `processEspressoTransaction` and `fetchHotShotRange`.
pub mod Place
pub mod Keeps
pub mod Range
pub mod Skip
pub mod Rescan
pub mod Sound
pub mod Reaches
pub mod Turns
pub mod Final
pub mod Posted
use espresso_streamers.Base.{
  ℕ, ◌+◌, ◌-◌, Bool, true, false, not, ◌&&◌, Option, none, some, List, [], ◌∷◌, ltb, ◌==◌,
  if◌then◌else◌, min, add64,
}
use espresso_streamers.Op.Batch.{Batch, BatchValidity, drop, accept, undecided, past}
use espresso_streamers.Op.Buffer
use espresso_streamers.Op.Buffer.{InsertError, at_capacity, duplicate_batch}
use espresso_streamers.Op.Streamer.Deps.{Deps, Bytes}
use espresso_streamers.Op.Streamer.State.{BatchStreamer}
use espresso_streamers.Op.Streamer.Check.{check_batch}

-- `fetchHotShotRange` fails on an empty range and when the client does.
pub data FetchError : Type 0 where
  finish_zero fetch_failed : FetchError

module _ {d : Deps} where
  -- `(*batch)` has the number and the hash of the batch at the head.
  unfoldable pub is_head_duplicate : BatchStreamer d → Batch → Bool
  is_head_duplicate s batch = elim s.head_batch [
    | none ↦ false
    | some head ↦ batch.number == head.number && batch.hash == head.hash
  ]

  -- `s.batchTimestamps.Add`.
  unfoldable pub record_timestamp : BatchStreamer d → Batch → ℕ → BatchStreamer d
  record_timestamp s batch stamp =
      if s.track_batch_timestamp && not (stamp == 0)
      then elim s.batch_timestamps [
        | none ↦ s
        | some stamps ↦ record s { batch_timestamps = some (d.stamps_add stamps batch.hash stamp) }
      ]
      else s

  unfoldable pub buffer_batch : BatchStreamer d → Batch → ℕ → Option InsertError × BatchStreamer d
  buffer_batch s batch stamp =
      let (e, buffer) = Buffer.insert batch s.batch_buffer in
      let s' = record s { batch_buffer = buffer } in
      elim e [
        | some at_capacity ↦ (some at_capacity, s')
        | some duplicate_batch ↦ (none, record_timestamp s' batch stamp)
        | none ↦ (none, record_timestamp s' batch stamp)
      ]

  -- What becomes of a batch that was accepted or is undecided: it is at the head already, it
  -- becomes the head, or it goes into the buffer.
  unfoldable pub place_batch : BatchStreamer d → Batch → ℕ → Option InsertError × BatchStreamer d
  unfolding is_head_duplicate
  place_batch s batch stamp = if is_head_duplicate s batch then (none, s) else elim s.head_batch [
    | some head ↦ buffer_batch s batch stamp
    | none ↦
        if batch.number == s.next_batch_pos
        then (none, record_timestamp (record s { head_batch = some batch }) batch stamp)
        else buffer_batch s batch stamp
  ]

  unfoldable pub process_espresso_transaction :
      BatchStreamer d → Bytes → ℕ → Option InsertError × BatchStreamer d
  process_espresso_transaction s transaction stamp = elim (d.unmarshal_batch transaction) [
    | none ↦ (none, s)
    | some batch ↦
        let (validity, s') = check_batch s batch in
        elim validity [
          | drop ↦ (none, s')
          | past ↦ (none, s')
          | undecided ↦ place_batch s' batch stamp
          | accept ↦ place_batch s' batch stamp
        ]
  ]

  -- The body of the loop over a block's transactions: a full buffer is noted in `skipPos`.
  unfoldable pub process_transaction : BatchStreamer d → ℕ → ℕ → Bytes → BatchStreamer d
  process_transaction s block_pos stamp transaction =
      let (e, s') = process_espresso_transaction s transaction stamp in
      elim e [
        | some at_capacity ↦ record s' {
          skip_pos = min s'.skip_pos (if ltb 0 block_pos then block_pos - 1 else 0);
        }
        | some duplicate_batch ↦ s'
        | none ↦ s'
      ]

  unfoldable pub process_block : BatchStreamer d → ℕ → ℕ → List Bytes → BatchStreamer d
  process_block s block_pos stamp [] = s
  process_block s block_pos stamp (t ∷ ts) =
      process_block (process_transaction s block_pos stamp t) block_pos stamp ts

  -- The loop over the blocks; `blockPos` is `start + uint64(i)`.
  unfoldable pub process_blocks : BatchStreamer d → ℕ → ℕ → List (List Bytes) → BatchStreamer d
  unfolding process_block
  process_blocks s block_pos stamp [] = s
  process_blocks s block_pos stamp (b ∷ bs) =
      process_blocks (process_block s block_pos stamp b) (add64 block_pos 1) stamp bs

  unfoldable pub fetch_hot_shot_range :
      BatchStreamer d → ℕ → ℕ → Option FetchError × BatchStreamer d
  unfolding process_blocks
  fetch_hot_shot_range s start finish =
      let (answer, client) =
        d.fetch_namespace_transactions_in_range s.client start finish s.namespace in
      let (now, client') = d.now client in
      if finish == 0 then (some finish_zero, s) else elim answer [
        | none ↦ (some fetch_failed, record s { client = client })
        | some [] ↦ (none, record s { client = client })
        | some (b ∷ bs) ↦ (
          none,
          process_blocks (record s { client = client'; hot_shot_pos = finish - 1 }) start
              (if s.track_batch_timestamp then now else 0) (b ∷ bs),
        )
      ]
