-- ===== src/Op/Buffered/Misaligned.antt =====
-- The window of the buffered streamer after the L1 origin has stepped back.
use espresso_streamers.Base.{
  ℕ, suc, ◌+◌, ◌-◌, ◌≤◌, ◌<◌, ◌≡◌, refl, some, [], length, get_elem?, arith,
}
use espresso_streamers.Op.Batch.{Batch, BlockId}
use espresso_streamers.Op.Interface.{EspressoStreamer}
use espresso_streamers.Op.Streamer.Deps.{Deps}
use espresso_streamers.Op.Streamer.State.{L1BlockRef}
use espresso_streamers.Op.Streamer.Refresh
use espresso_streamers.Op.Streamer.Refresh.Steady.{IsSteady, refresh_steady}
use espresso_streamers.Op.Streamer.Instance.{batch_streamer, batch_streamer-Lawful}
use espresso_streamers.Op.Buffered.{
  BufferedStreamer, next, refresh, refresh_safe_l1_origin, handle_l2_position_update, reset,
}
use espresso_streamers.Op.Buffered.Window.{IsRun, Numbered-get_elem?}
use espresso_streamers.Op.Buffered.Follow.{SkipsTo, skips_to}
use espresso_streamers.Op.Buffered.Sync.{refresh_unfolded, handle_beyond}

-- An origin before the one known empties the window and sets its start to 0, whatever the safe batch
-- is.
pub refresh_forgets_safe :
    {i : EspressoStreamer} (b : BufferedStreamer i) (l1 : L1BlockRef) (safe : ℕ) (origin : BlockId)
    → origin.number < b.current_safe_l1_origin.number
    → let c = (refresh b l1 safe origin).1 in
      (c.starting_batch_pos ≡ 0) × (c.batches ≡ []) × (c.read_pos ≡ 0)
unfolding refresh refresh_safe_l1_origin handle_l2_position_update
refresh_forgets_safe b l1 safe origin lt =
    (ground (arith, lt), ground (arith, lt), ground (arith, lt))

module _ {d : Deps} where
  -- Let the start of the window be 0, as an origin that steps back leaves it, while its batches begin
  -- at the number `n`, and let the next `Refresh` bring a safe batch in or just before the window, but
  -- not the last one of it, whose number exceeds the length of the window; neither the origin, nor the
  -- light client, nor the scan steps back then. The batch after the safe one was in the window, but
  -- after a `Reset` `Next` does not return it, but, if any, the one after all that were there.
  pub refresh_misaligned :
      (n : ℕ) (b : BufferedStreamer (batch_streamer d)) (l1 : L1BlockRef) (safe : ℕ)
      (origin : BlockId) (fuel : ℕ)
      → IsRun (batch_streamer-Lawful d) n b
      → b.starting_batch_pos ≡ 0
      → b.streamer.fallback_batch_pos ≤ safe
      → n ≤ safe + 1
      → safe + 1 < n + length b.batches
      → length b.batches < safe
      → b.current_safe_l1_origin.number ≤ origin.number
      → IsSteady b.streamer l1 origin
      → ((x : Batch) × (get_elem? b.batches (safe + 1 - n) ≡ some x) × (x.number ≡ safe + 1))
        × SkipsTo
            (batch_streamer-Lawful d)
            (n + length b.batches)
            (next (suc fuel) (reset (refresh b l1 safe origin).1))
  unfolding reset
  refresh_misaligned n b l1 safe origin fuel r zero_start known lo hi short le steady =
      let (v, same, _) =
        refresh_steady b.streamer l1 safe origin r.valid steady known (ground (arith, r.due, hi)) in
      let c = record b {
        streamer = Refresh.refresh b.streamer l1 safe origin;
        batches = [];
        read_pos = 0;
        starting_batch_pos = safe;
        current_safe_l1_origin = origin;
      } in
      let (x, e, m) = Numbered-get_elem? n (safe + 1 - n) b.batches r.numbered (omega arith) in
      rw (refresh_unfolded b l1 safe origin le, handle_beyond b safe (omega arith))
        (
          (x, e, omega (arith, m)),
          skips_to (batch_streamer-Lawful d) (n + length b.batches) c fuel
              ((batch_streamer d).next c.streamer).0 ((batch_streamer d).next c.streamer).1 refl v
              (ground (arith, same, r.due)) (omega arith) refl,
        )
