-- ===== src/Op/Buffered/Tests/Refreshes.antt =====
-- `Refresh` of the buffered streamer at concrete windows.
use espresso_streamers.Base.{◌≡◌, inr, refl, none, some, get_elem?, [], ◌∷◌, arith}
use espresso_streamers.Op.Batch.{Batch}
use espresso_streamers.Op.Streamer.Demo.{demo, demo_l1, demo_batch, demo_streamer}
use espresso_streamers.Op.Streamer.Refresh.{confirm_espresso_block_height, fetch_espresso_batcher}
use espresso_streamers.Op.Streamer.Refresh.Steady.{IsSteady}
use espresso_streamers.Op.Streamer.Instance.{batch_streamer, batch_streamer-Lawful}
use espresso_streamers.Op.Buffered.{BufferedStreamer, has_next, next, reset, refresh}
use espresso_streamers.Op.Buffered.Window.{Numbered, IsRun}
use espresso_streamers.Op.Buffered.Consecutive.{
  Session, done, call, asks, reads, session_consecutive,
}
use espresso_streamers.Op.Buffered.Follow.{SkipsTo}
use espresso_streamers.Op.Buffered.Sync.{InSync, Synced, refresh-Synced}
use espresso_streamers.Op.Buffered.Misaligned.{refresh_misaligned}
use espresso_streamers.Op.Buffered.Tests.{window, window-IsWindow, origin}

window-InSync : InSync window
window-InSync = record { window = window-IsWindow; same_safe = refl }

window-IsSteady : IsSteady window.streamer demo_l1 origin
unfolding confirm_espresso_block_height fetch_espresso_batcher
window-IsSteady = record { no_reset = refl; scanned = omega arith }

refresh-Synced_example : Synced window 2 (refresh window demo_l1 2 origin).1
refresh-Synced_example =
    refresh-Synced window demo_l1 2 origin window-InSync (omega arith) (omega arith)
      (inr (inr window-IsSteady))

-- The origin has stepped back with the safe batch 3; since then batches 4 and 5 have been read.
abbrev misaligned : BufferedStreamer (batch_streamer demo)
misaligned = record {
  streamer = record (demo_streamer [] 3) { next_batch_pos = 6; fallback_batch_pos = 3 };
  batches = demo_batch 4 ∷ demo_batch 5 ∷ [];
  read_pos = 2;
  starting_batch_pos = 0;
  current_safe_l1_origin = record { hash = 7; number = 1 };
}

misaligned-IsRun : IsRun (batch_streamer-Lawful demo) 4 misaligned
misaligned-IsRun = record {
  numbered = (refl, (refl, tt));
  due = refl;
  read = omega arith;
  valid = record { buffer = record { sorted = tt; bounded = omega arith }; head_due = tt };
}

misaligned-IsSteady : IsSteady misaligned.streamer demo_l1 origin
unfolding confirm_espresso_block_height fetch_espresso_batcher
misaligned-IsSteady = record { no_reset = refl; scanned = omega arith }

refresh_misaligned_example :
    ((x : Batch) × (get_elem? misaligned.batches 1 ≡ some x) × (x.number ≡ 5))
    × SkipsTo
        (batch_streamer-Lawful demo)
        6
        (next 1 (reset (refresh misaligned demo_l1 4 origin).1))
refresh_misaligned_example =
    refresh_misaligned 4 misaligned demo_l1 4 origin 0 misaligned-IsRun refl (omega arith)
      (omega arith) (omega arith) (omega arith) (omega arith) misaligned-IsSteady

-- `HasNext`, then `Next`, which returns batch 3 of the window.
window_session :
    (c : BufferedStreamer (batch_streamer demo)) × Session window
      (none ∷ some (demo_batch 3) ∷ [])
      c
unfolding has_next next
window_session = (_, call asks (call (reads 0 refl) done))

session_consecutive_example :
    let c = window_session.0 in
    IsRun (batch_streamer-Lawful demo) 2 c
    × Numbered 3 (demo_batch 3 ∷ [])
    × (c.read_pos ≡ 2)
    × (c.starting_batch_pos ≡ 1)
session_consecutive_example =
    session_consecutive (batch_streamer-Lawful demo) 2 window_session.1 window-IsWindow
      (omega arith) (omega arith)
