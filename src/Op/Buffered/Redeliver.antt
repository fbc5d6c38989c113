-- ===== src/Op/Buffered/Redeliver.antt =====
-- The buffered streamer over the batch streamer, when the light client steps back.
use espresso_streamers.Base.{
  ℕ, suc, ◌+◌, ◌-◌, ◌^◌, ◌≤◌, ◌<◌, ◌≡◌, refl, some, length, get_elem?, drop, length-drop, arith,
}
use espresso_streamers.Op.Batch.{Batch, BlockId}
use espresso_streamers.Op.Streamer.Deps.{Deps, FinalizedState}
use espresso_streamers.Op.Streamer.State.{L1BlockRef}
use espresso_streamers.Op.Streamer.Instance.{batch_streamer, batch_streamer-Lawful}
use espresso_streamers.Op.Streamer.Refresh.Rewind.{StepsBack, refresh-rewound}
use espresso_streamers.Op.Buffered.{BufferedStreamer, next, refresh, refresh_safe_l1_origin}
use espresso_streamers.Op.Buffered.Window.{Numbered-drop, Numbered-get_elem?}
use espresso_streamers.Op.Buffered.Follow.{IsWindow, SkipsTo, skips_to, handle_within, moved_to}
use espresso_streamers.Op.Streamer.Refresh

module _ {d : Deps} where
  -- The origin has not stepped back, so the window is kept.
  kept_window :
      (b : BufferedStreamer (batch_streamer d)) (l1 : L1BlockRef) (safe : ℕ) (origin : BlockId)
      → b.starting_batch_pos ≤ safe
      → safe ≤ b.starting_batch_pos + length b.batches
      → b.current_safe_l1_origin.number ≤ origin.number
      → (refresh b l1 safe origin).1 ≡ record (moved_to b safe) {
        current_safe_l1_origin = origin;
        streamer = Refresh.refresh b.streamer l1 safe origin;
      }
  unfolding refresh refresh_safe_l1_origin
  kept_window b l1 safe origin lo hi le =
      let g = handle_within b safe lo hi in ground (arith, g, le)

  -- Let all batches of the window have been read, and let the safe batch move on to one before the
  -- last of them, at an origin not before the one known, where the light client steps back. After
  -- `Refresh` the first batch of the window is the one after the safe batch, and it has been read,
  -- and the next call of `Next` returns, if anything, a batch of just this number.
  pub refresh_redelivers :
      (b : BufferedStreamer (batch_streamer d)) (l1 : L1BlockRef) (safe : ℕ) (origin : BlockId)
      (state : FinalizedState) (fuel : ℕ)
      → IsWindow (batch_streamer-Lawful d) b
      → b.read_pos ≡ length b.batches
      → b.starting_batch_pos ≤ safe
      → safe < b.starting_batch_pos + length b.batches
      → safe + 1 < 2 ^ 64
      → b.current_safe_l1_origin.number ≤ origin.number
      → StepsBack b.streamer l1 origin state
      → let c = (refresh b l1 safe origin).1 in
        (0 < c.read_pos)
        × ((x : Batch) × (get_elem? c.batches 0 ≡ some x) × (x.number ≡ safe + 1))
        × SkipsTo (batch_streamer-Lawful d) (safe + 1) (next (suc fuel) c)
  refresh_redelivers b l1 safe origin state fuel w all lo hi room le back =
      let start = b.starting_batch_pos in
      let c = record (moved_to b safe) {
        current_safe_l1_origin = origin;
        streamer = Refresh.refresh b.streamer l1 safe origin;
      } in
      let (v, due) = refresh-rewound b.streamer l1 safe origin state room back in
      let numbered = Numbered-drop (start + 1) (safe - start) b.batches w.numbered (omega arith) in
      let len = length-drop (safe - start) b.batches in
      let (x, e, m) =
        Numbered-get_elem? (start + 1 + (safe - start)) 0 (drop (safe - start) b.batches) numbered
          (omega arith) in
      rw (kept_window b l1 safe origin lo (omega arith) le) (
        omega arith,
        (x, e, omega arith),
        skips_to (batch_streamer-Lawful d) (safe + 1) c fuel ((batch_streamer d).next c.streamer).0
            ((batch_streamer d).next c.streamer).1 refl v due (omega arith) (omega arith),
      )
