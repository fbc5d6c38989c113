-- ===== src/Op/Streamer/Update/Gaps.antt =====
-- Where `Update` stops short: a client with nothing to say, and the last block of a scan.
use espresso_streamers.Base.{
  ℕ, zero, suc, ◌+◌, ◌<◌, ◌≡◌, ◌≢◌, refl, Bool, true, false, none, some, [], arith,
}
use espresso_streamers.Op.Streamer.Deps.{Deps}
use espresso_streamers.Op.Streamer.State.{BatchStreamer}
use espresso_streamers.Op.Streamer.Head.{has_next_loop, has_next}
use espresso_streamers.Op.Streamer.Head.After.{round_empty}
use espresso_streamers.Op.Streamer.Fetch.Range.{answer, fetch-empty}
use espresso_streamers.Op.Streamer.Update.{
  range_start, compute_espresso_block_heights_range, update_loop,
}
use espresso_streamers.Op.Streamer.Update.Ends.{
  stops, first_block, last_block, fetched, loop_goes, Fits,
}

module _ {d : Deps} where
  has_next_nothing :
      (s : BatchStreamer d)
      → s.head_batch ≡ none
      → s.batch_buffer.batches ≡ []
      → has_next s ≡ (false, s)
  unfolding has_next has_next_loop
  has_next_nothing s h e = ground (arith, round_empty s h e)

  -- With nothing buffered, two blocks or more to read, and a client that answers every request with
  -- an empty list, the loop of `Update` never ends: no fuel is enough.
  pub update_stalls :
      (fuel : ℕ) (again : Bool) (height : ℕ) (s : BatchStreamer d)
      → s.head_batch ≡ none
      → s.batch_buffer.batches ≡ []
      → range_start s.hot_shot_pos + 1 < height + 1
      → Fits height s
      → ((c : d.Client) (from to namespace : ℕ)
          → (d.fetch_namespace_transactions_in_range c from to namespace).0 ≡ some [])
      → update_loop fuel again height s ≡ none
  update_stalls zero again height s h e two f quiet = unfold update_loop in refl
  update_stalls (suc fuel) again height s h e two f quiet =
      let go : stops again height s ≡ false =
        unfold compute_espresso_block_heights_range in ground arith in
      let nz : (last_block height s) ≢ 0 =
        unfold compute_espresso_block_heights_range in ground arith in
      let t : BatchStreamer d = record s {
        client = (answer s (first_block height s) (last_block height s)).1;
      } in
      let empty : fetched height s ≡ (none, t) =
        fetch-empty s (first_block height s) (last_block height s) nz
          (quiet s.client _ _ s.namespace) in
      let rest =
        update_stalls fuel true height t h e two
          (record { height_fits = f.height_fits; position_fits = f.position_fits }) quiet in
      rw (loop_goes fuel again height s go, empty, has_next_nothing t h e) rest
