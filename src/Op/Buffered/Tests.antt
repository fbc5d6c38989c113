-- ===== src/Op/Buffered/Tests.antt =====
-- The buffered streamer over the streamer of the concrete instance, and its theorems there.
mod Refreshes
use espresso_streamers.Base.{◌+◌, ◌≡◌, refl, some, none, false, get_elem?, [], ◌∷◌, arith, ◌<◌}
use espresso_streamers.Op.Batch.{Batch, BlockId}
use espresso_streamers.Op.Streamer.Deps.{Deps, FinalizedState}
use espresso_streamers.Op.Streamer.Refresh.{fetch_espresso_batcher}
use espresso_streamers.Op.Streamer.Refresh.Rewind.{StepsBack}
use espresso_streamers.Op.Streamer.Demo.{demo, demo_l1, demo_batch, demo_streamer}
use espresso_streamers.Op.Buffered.Peeks.{Shows, peek-Shows}
use espresso_streamers.Op.Buffered.Redeliver.{refresh_redelivers}
use espresso_streamers.Op.Streamer.Instance.{batch_streamer, batch_streamer-Lawful}
use espresso_streamers.Op.Buffered.{
  BufferedStreamer, next, reset, handle_l2_position_update, set_proper_head, next_loop, peek,
  refresh,
}
use espresso_streamers.Op.Buffered.Reads.{Reads, next-Reads}
use espresso_streamers.Op.Buffered.Follow.{
  IsWindow, follows, SkipsTo, set_proper_head_skips, next_loop_ends,
}
use espresso_streamers.Op.Buffered.Replay.{nexts, replays}

-- Batches 2 and 3 are in the window, 2 has been read, and the streamer below is due for batch 4.
abbrev window : BufferedStreamer (batch_streamer demo)
window = record {
  streamer = record (demo_streamer (demo_batch 4 ∷ []) 3) { next_batch_pos = 4 };
  batches = demo_batch 2 ∷ demo_batch 3 ∷ [];
  read_pos = 1;
  starting_batch_pos = 1;
  current_safe_l1_origin = record { hash = 7; number = 1 };
}

window-IsWindow : IsWindow (batch_streamer-Lawful demo) window
window-IsWindow = record {
  numbered = (refl, (refl, tt));
  due = refl;
  read = omega arith;
  valid = record { buffer = record { sorted = (tt, tt); bounded = omega arith }; head_due = tt };
}

abbrev all_read : BufferedStreamer (batch_streamer demo)
all_read = record window { read_pos = 2 }

next-Reads_example : Reads (batch_streamer-Lawful demo) 2 window (next 1 window)
next-Reads_example =
    next-Reads (batch_streamer-Lawful demo) 2 window 0 window-IsWindow (omega arith) (omega arith)

replays_example : nexts 1 2 (reset window) ≡ some (window.batches, record window { read_pos = 2 })
replays_example = replays 1 window

set_proper_head_skips_example :
    SkipsTo (batch_streamer-Lawful demo) 4 (next 1 (set_proper_head window 5)) × (3 < 4)
set_proper_head_skips_example =
    set_proper_head_skips (batch_streamer-Lawful demo) 2 window 5 0 window-IsWindow (omega arith)
      (omega arith)

abbrev lower : FinalizedState
lower = record { view_num = 3; block_height = 2; block_comm_root = 0 }

-- The light client reports height 2 after height 4.
abbrev demo_back : Deps
demo_back = record demo { finalized_state = λ c n. (some lower, c + 1) }

-- Batches 2 and 3 have been read.
abbrev read_out : BufferedStreamer (batch_streamer demo_back)
read_out = record {
  streamer = record {
    namespace = 1;
    client = 0;
    next_batch_pos = 4;
    fallback_batch_pos = 1;
    hot_shot_pos = 5;
    fallback_hot_shot_pos = 4;
    origin_hot_shot_pos = 0;
    finalized_l1 = demo_l1;
    skip_pos = 0xffff_ffff_ffff_ffff;
    head_batch = none;
    batch_buffer = record { batches = []; capacity = 3 };
    finalized_l1_state_cache = tt;
    espresso_batcher = 9;
    track_batch_timestamp = false;
    batch_timestamps = none;
  };
  batches = demo_batch 2 ∷ demo_batch 3 ∷ [];
  read_pos = 2;
  starting_batch_pos = 1;
  current_safe_l1_origin = record { hash = 7; number = 1 };
}

read_out-IsWindow : IsWindow (batch_streamer-Lawful demo_back) read_out
read_out-IsWindow = record {
  numbered = (refl, (refl, tt));
  due = refl;
  read = omega arith;
  valid = record { buffer = record { sorted = tt; bounded = omega arith }; head_due = tt };
}

abbrev origin : BlockId
origin = record { hash = 7; number = 1 }

read_out-StepsBack : StepsBack read_out.streamer demo_l1 origin lower
unfolding fetch_espresso_batcher
read_out-StepsBack = (refl, omega arith, omega arith)

refresh_redelivers_example :
    let c = (refresh read_out demo_l1 2 origin).1 in
    (0 < c.read_pos)
    × ((x : Batch) × (get_elem? c.batches 0 ≡ some x) × (x.number ≡ 3))
    × SkipsTo (batch_streamer-Lawful demo_back) 3 (next 1 c)
refresh_redelivers_example =
    refresh_redelivers read_out demo_l1 2 origin lower 0 read_out-IsWindow refl (omega arith)
      (omega arith) (omega arith) (omega arith) read_out-StepsBack
