-- ===== src/Nitro/Streamer/Race.antt =====
-- `Reset` to the block that a round of the goroutine began at, before the round's jump.
use espresso_streamers.Base.{ℕ, ◌≡◌, refl, some, [], arith}
use espresso_streamers.Nitro.Codec.{Codec}
use espresso_streamers.Nitro.Streamer.{EspressoClient, NitroStreamer, reset}
use espresso_streamers.Nitro.Streamer.Hotshot.{
  Fetched, fetch_blocks, parse_espresso_transaction, parse_transactions, jump,
}
use espresso_streamers.Nitro.Streamer.Start.{parses}
use espresso_streamers.Nitro.Streamer.Interleave.{
  idle, parsing, System, join, round_of, work, works, resets, Steps, stop, step,
}

module _ {e : EspressoClient} where
  -- If the next fetch succeeds and reading what it gave returns, the goroutine and a `Reset` to the
  -- block that it fetches from can interleave so that the streamer ends behind the fetched blocks,
  -- between two rounds, with the position that the user asked for and none of the messages of these
  -- blocks.
  pub reset_is_overwritten :
      (c : Codec) (s t u : NitroStreamer e) (f : Fetched) (pos : ℕ)
      → fetch_blocks s s.next_hotshot_block_num ≡ (some f, t)
      → parse_transactions (parse_espresso_transaction c) t f.l1_height (join f.blocks) ≡ some u
      → (y : System e) × Steps c (record { streamer = s; round = idle }) y
        × (y.round ≡ idle)
        × (y.streamer.current_message_pos ≡ pos)
        × (y.streamer.next_hotshot_block_num ≡ f.to_block)
        × (y.streamer.messages ≡ [])
  unfolding work round_of jump reset
  reset_is_overwritten c s t u f pos r p =
      let start = s.next_hotshot_block_num in
      let x : System e = record { streamer = s; round = idle } in
      let parse = parsing start f.to_block f.l1_height (join f.blocks) in
      let fetched : Steps c x (record { streamer = t; round = parse }) =
        step (step stop (works refl)) (works (ground (arith, r))) in
      let xs = parses c x start f.to_block f.l1_height (join f.blocks) t u p fetched in
      (
        record { streamer = jump (reset u pos start) start f.to_block; round = idle },
        step (step xs (resets pos start)) (works refl),
        refl,
        ground arith,
        ground arith,
        ground arith,
      )
