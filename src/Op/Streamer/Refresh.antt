-- ===== src/Op/Streamer/Refresh.antt =====
-- `confirmEspressoBlockHeight`, `RefreshSafeL1Origin` and `Refresh`.
pub mod Positions
pub mod Safe
pub mod Rewind
pub mod Steady
use espresso_streamers.Base.{
  ℕ, Bool, true, false, ◌||◌, Option, none, some, ltb, leb, ◌==◌, if◌then◌else◌, max,
}
use espresso_streamers.Op.Batch.{BlockId, zero_address}
use espresso_streamers.Op.Streamer.Deps.{Deps, FinalizedState}
use espresso_streamers.Op.Streamer.State.{BatchStreamer, L1BlockRef, reset}

module _ {d : Deps} where
  -- `confirmEspressoBlockHeight`: whether to reset, and the streamer with its new fallback.
  unfoldable pub confirm_espresso_block_height : BatchStreamer d → BlockId → Bool × BatchStreamer d
  confirm_espresso_block_height s safe_l1_origin =
      let (answer, client) = d.finalized_state s.client safe_l1_origin.number in
      elim answer [
        | none ↦ (
          false,
          record s {
            client = client;
            fallback_hot_shot_pos = max s.fallback_hot_shot_pos s.origin_hot_shot_pos;
          },
        )
        | some state ↦
            if leb state.block_height s.origin_hot_shot_pos
            then (false, record s { client = client })
            else (
              ltb state.block_height s.fallback_hot_shot_pos,
              record s { client = client; fallback_hot_shot_pos = state.block_height },
            )
      ]

  unfoldable pub refresh_safe_l1_origin : BatchStreamer d → BlockId → BatchStreamer d
  refresh_safe_l1_origin s safe_l1_origin =
      let (should_reset, s') = confirm_espresso_block_height s safe_l1_origin in
      if should_reset then reset s' else s'

  -- The first half of `Refresh`: the finalized L1 block and the batcher's address.
  unfoldable pub fetch_espresso_batcher : BatchStreamer d → L1BlockRef → BatchStreamer d
  fetch_espresso_batcher s finalized_l1 =
      let (answer, client) = d.espresso_batcher s.client finalized_l1.number in
      elim answer [
        | none ↦ record s { client = client; finalized_l1 = finalized_l1 }
        | some a ↦ record s {
          client = client;
          finalized_l1 = finalized_l1;
          espresso_batcher = if a == zero_address then s.espresso_batcher else a;
        }
      ]

  -- The second half of `Refresh`: the safe batch.
  unfoldable pub refresh_batch_pos : BatchStreamer d → ℕ → BatchStreamer d
  refresh_batch_pos s safe_batch_number =
      let s' = record s { fallback_batch_pos = safe_batch_number } in
      if s.fallback_batch_pos == safe_batch_number
      then s
      else if ltb safe_batch_number s.fallback_batch_pos
          || ltb s.hot_shot_pos s.fallback_hot_shot_pos
          || leb s.next_batch_pos safe_batch_number
      then reset s'
      else s'

  -- `Refresh`, which never returns an error.
  unfoldable pub refresh : BatchStreamer d → L1BlockRef → ℕ → BlockId → BatchStreamer d
  refresh s finalized_l1 safe_batch_number safe_l1_origin =
      refresh_batch_pos
        (refresh_safe_l1_origin (fetch_espresso_batcher s finalized_l1) safe_l1_origin)
        safe_batch_number
