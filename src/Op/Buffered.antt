-- ===== src/Op/Buffered.antt =====
-- `BufferedEspressoStreamer` of op/buffered_streamer.go: a window of batches over any streamer.
pub mod Window
pub mod Reads
pub mod Follow
pub mod Replay
pub mod Consecutive
pub mod Redeliver
pub mod Sync
pub mod Misaligned
pub mod Peeks
mod Tests
use espresso_streamers.Base.{
  ℕ, zero, suc, ◌+◌, ◌-◌, Bool, true, false, Option, none, some, List, [], ◌∷◌, ◌++◌, ltb, leb,
  if◌then◌else◌, length, get_elem?, take, drop,
}
use espresso_streamers.Op.Batch.{Batch, BlockId, Hash}
use espresso_streamers.Op.Streamer.Deps.{Bytes}
use espresso_streamers.Op.Streamer.State.{L1BlockRef}
use espresso_streamers.Op.Interface.{EspressoStreamer}

pub record BufferedStreamer (i : EspressoStreamer) : Type 0 where
  pub streamer : i.State
  pub batches : List Batch
  pub read_pos : ℕ
  pub starting_batch_pos : ℕ
  pub current_safe_l1_origin : BlockId

-- `NewBufferedEspressoStreamer`.
unfoldable pub new_buffered : (i : EspressoStreamer) → i.State → BufferedStreamer i
new_buffered i streamer = record {
  streamer = streamer;
  batches = [];
  read_pos = 0;
  starting_batch_pos = 0;
  current_safe_l1_origin = record { hash = 0; number = 0 };
}

module _ {i : EspressoStreamer} where
  unfoldable pub update : ℕ → BufferedStreamer i → Option (Option i.Error × BufferedStreamer i)
  update fuel b = elim (i.update fuel b.streamer) [
    | none ↦ none
    | some (e, s) ↦ some (e, record b { streamer = s })
  ]

  -- `handleL2PositionUpdate`. The subtraction is made only where it does not wrap.
  unfoldable pub handle_l2_position_update : BufferedStreamer i → ℕ → BufferedStreamer i
  handle_l2_position_update b next_position =
      let adjustment = next_position - b.starting_batch_pos in
      if ltb next_position b.starting_batch_pos
      then record b {
        read_pos = 0;
        starting_batch_pos = next_position;
        batches = [];
        streamer = i.reset b.streamer;
      }
      else if ltb b.starting_batch_pos next_position
      then (if leb adjustment (length b.batches)
          then record b {
            batches = drop adjustment b.batches;
            read_pos = if leb adjustment b.read_pos then b.read_pos - adjustment else 0;
            starting_batch_pos = next_position;
          }
          else record b { batches = []; read_pos = 0; starting_batch_pos = next_position })
      else b

  -- `RefreshSafeL1Origin`.
  unfoldable pub refresh_safe_l1_origin : BufferedStreamer i → BlockId → BufferedStreamer i
  refresh_safe_l1_origin b safe_l1_origin =
      if ltb safe_l1_origin.number b.current_safe_l1_origin.number
      then record b {
        current_safe_l1_origin = safe_l1_origin;
        starting_batch_pos = 0;
        read_pos = 0;
        batches = [];
        streamer = i.refresh_safe_l1_origin b.streamer safe_l1_origin;
      }
      else record b { current_safe_l1_origin = safe_l1_origin }

  unfoldable pub refresh :
      BufferedStreamer i → L1BlockRef → ℕ → BlockId → Option i.Error × BufferedStreamer i
  refresh b finalized_l1 safe_batch_number safe_l1_origin =
      let b' =
        refresh_safe_l1_origin (handle_l2_position_update b safe_batch_number) safe_l1_origin in
      let (e, s) = i.refresh b'.streamer finalized_l1 safe_batch_number safe_l1_origin in
      (e, record b' { streamer = s })

  -- `Reset` rewinds the window, not the streamer below.
  unfoldable pub reset : BufferedStreamer i → BufferedStreamer i
  reset b = record b { read_pos = 0 }

  unfoldable pub get_batch_finalization_timestamp :
      BufferedStreamer i → Hash → Option ℕ × BufferedStreamer i
  get_batch_finalization_timestamp b hash =
      let (t, s) = i.get_batch_finalization_timestamp b.streamer hash in
      (t, record b { streamer = s })

  unfoldable pub has_next : BufferedStreamer i → Bool × BufferedStreamer i
  has_next b =
      let (found, s) = i.has_next b.streamer in
      if ltb b.read_pos (length b.batches) then (true, b) else (found, record b { streamer = s })

  -- The loop of `Next` on the streamer below, on fuel: batches before the window are passed over.
  unfoldable pub next_loop : ℕ → BufferedStreamer i → Option (Option Batch × BufferedStreamer i)
  next_loop zero b = none
  next_loop (suc fuel) b =
      let (answer, s) = i.next b.streamer in
      let b' = record b { streamer = s } in
      let rest = next_loop fuel b' in
      elim answer [
        | none ↦ some (none, b')
        | some batch ↦
            if leb b.starting_batch_pos batch.number
            then some (
              some batch,
              record b' { batches = b.batches ++ (batch ∷ []); read_pos = b.read_pos + 1 },
            )
            else rest
      ]

  unfoldable pub next : ℕ → BufferedStreamer i → Option (Option Batch × BufferedStreamer i)
  unfolding next_loop
  next fuel b =
      if ltb b.read_pos (length b.batches)
      then some (get_elem? b.batches b.read_pos, record b { read_pos = b.read_pos + 1 })
      else next_loop fuel b

  unfoldable pub get_fallback_hotshot_pos : BufferedStreamer i → ℕ
  get_fallback_hotshot_pos b = i.get_fallback_hotshot_pos b.streamer

  -- `SetProperHead` cuts the window at the read position.
  unfoldable pub set_proper_head : BufferedStreamer i → Hash → BufferedStreamer i
  set_proper_head b parent = record b {
    batches = take b.read_pos b.batches;
    streamer = i.set_proper_head b.streamer parent;
  }

  -- The loop of `Peek`, on fuel: a batch before the window is taken from the streamer below.
  unfoldable pub peek_loop : ℕ → BufferedStreamer i → Option (Option Batch × BufferedStreamer i)
  peek_loop zero b = none
  peek_loop (suc fuel) b =
      let (answer, s) = i.peek b.streamer in
      let rest = peek_loop fuel (record b { streamer = (i.next s).1 }) in
      elim answer [
        | none ↦ some (none, record b { streamer = s })
        | some batch ↦
            if leb b.starting_batch_pos batch.number
            then some (some batch, record b { streamer = s })
            else rest
      ]

  unfoldable pub peek : ℕ → BufferedStreamer i → Option (Option Batch × BufferedStreamer i)
  unfolding peek_loop
  peek fuel b =
      if ltb b.read_pos (length b.batches)
      then some (get_elem? b.batches b.read_pos, b)
      else peek_loop fuel b

  unfoldable pub unmarshal_batch : BufferedStreamer i → Bytes → Option Batch
  unmarshal_batch b bytes = i.unmarshal_batch b.streamer bytes
