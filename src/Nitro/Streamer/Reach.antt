-- ===== src/Nitro/Streamer/Reach.antt =====
-- In every state that the interleaved nitro streamer reaches its map is in order.
use espresso_streamers.Base.{
  ℕ, ◌≤◌, ◌<◌, ◌≡◌, ◌⊎◌, inl, inr, List, [], ◌∷◌, All, ◌==◌, arith, Bool-cases, Option-cases, some,
}
use espresso_streamers.Op.Batch.{Address}
use espresso_streamers.Nitro.Bytes.{Bytes}
use espresso_streamers.Nitro.Codec.{Codec}
use espresso_streamers.Nitro.Monitor.{AddressValidRangeConfig}
use espresso_streamers.Nitro.Streamer.{
  EspressoClient, NitroStreamer, new_espresso_streamer, reset,
  get_current_earliest_hot_shot_block_number,
}
use espresso_streamers.Nitro.Streamer.Hotshot.{parse_espresso_transaction, fetch_blocks, jump}
use espresso_streamers.Nitro.Streamer.Queue.{IsQueue}
use espresso_streamers.Nitro.Streamer.Invariant.{advance-IsQueue, advance_to-IsQueue}
use espresso_streamers.Nitro.Streamer.Outcome.{
  IsBounded, Outcome, failed, fetched, fetch_blocks-Outcome,
}
use espresso_streamers.Nitro.Streamer.Reading.{parse_espresso_transaction-Kept}
use espresso_streamers.Nitro.Streamer.Progress.{unchanged, jump-IsQueue}
use espresso_streamers.Nitro.Streamer.Earliest.{earliest_lem}
use espresso_streamers.Nitro.Streamer.Interleave.{
  join, round_of, Round, idle, fetching, parsing, System, work, Step, works, advances, advances_to,
  resets, Steps, stop, step,
}

-- A round does not go back.
abbrev pub IsRound : Round → Type 0
IsRound idle = Unit
IsRound (fetching start) = Unit
IsRound (parsing start to_block l1_height txs) = start ≤ to_block

pub record IsSystem {e : EspressoClient} (x : System e) : Type 0 where
  pub queue : IsQueue x.streamer
  pub round : IsRound x.round

module _ {e : EspressoClient} where
  reset-IsQueue : (s : NitroStreamer e) (pos block : ℕ) → IsQueue (reset s pos block)
  unfolding reset
  reset-IsQueue s pos block = record { entries = tt; distinct = tt; rising = tt }

  fetch-IsSystem :
      (c : Codec) (s : NitroStreamer e) (start : ℕ) (y : System e)
      → IsQueue s
      → Outcome s start (fetch_blocks s start)
      → work c s (fetching start) ≡ some y
      → IsSystem y
  unfolding work round_of
  fetch-IsSystem c s start y q (failed k x r) w =
      let same : y ≡ record { streamer = record s { espresso_client = k }; round = idle } =
        ground (arith, w, r) in
      rw same (record { queue = (unchanged s k q).queue; round = tt })
  fetch-IsSystem c s start y q (fetched k f (lo, hi) r) w =
      let same : y ≡ record {
        streamer = record s { espresso_client = k };
        round = parsing start f.to_block f.l1_height (join f.blocks);
      } =
        ground (arith, w, r) in
      rw same (record { queue = (unchanged s k q).queue; round = lo })

  -- The jump raises the next block or does nothing.
  jump_any-IsQueue :
      (s : NitroStreamer e) (start to_block : ℕ)
      → IsQueue s
      → start ≤ to_block
      → IsQueue (jump s start to_block)
  unfolding jump
  jump_any-IsQueue s start to_block q le = elim (Bool-cases (s.next_hotshot_block_num == start)) [
    | inl t ↦ (jump-IsQueue s start to_block q (ground (arith, t)) le).0
    | inr t ↦ let g : jump s start to_block ≡ s = ground (arith, t) in rw g q
  ]

  work-IsSystem :
      (c : Codec) (s : NitroStreamer e) (r : Round) (y : System e)
      → IsBounded e
      → IsQueue s
      → IsRound r
      → work c s r ≡ some y
      → IsSystem y
  unfolding work
  work-IsSystem c s idle y bounded q h w =
      let same : y ≡ record { streamer = s; round = fetching s.next_hotshot_block_num } =
        ground (arith, w) in
      rw same (record { queue = q; round = tt })
  work-IsSystem c s (fetching start) y bounded q h w =
      fetch-IsSystem c s start y q (fetch_blocks-Outcome s start bounded) w
  work-IsSystem c s (parsing start to_block l1_height []) y bounded q h w =
      let same : y ≡ record { streamer = jump s start to_block; round = idle } =
        ground (arith, w) in
      rw same (record { queue = jump_any-IsQueue s start to_block q h; round = tt })
  work-IsSystem c s (parsing start to_block l1_height (tx ∷ txs)) y bounded q h w =
      elim (Option-cases (parse_espresso_transaction c s tx l1_height)) [
        | inl f ↦ absurd (ground (arith, w, f))
        | inr ((x, t), f) ↦
            let same : y ≡ record { streamer = t; round = parsing start to_block l1_height txs } =
              ground (arith, w, f) in
            rw same (record {
              queue = (parse_espresso_transaction-Kept c s t tx l1_height x q f).queue;
              round = h;
            })
      ]

  Step-IsSystem :
      (c : Codec) (x : System e) {y : System e} → IsBounded e → Step c x y → IsSystem x → IsSystem y
  Step-IsSystem c x bounded (works {y} w) v =
      work-IsSystem c x.streamer x.round y bounded v.queue v.round w
  Step-IsSystem c x bounded advances v = record {
    queue = advance-IsQueue x.streamer v.queue;
    round = v.round;
  }
  Step-IsSystem c x bounded (advances_to to_pos) v = record {
    queue = advance_to-IsQueue x.streamer to_pos v.queue;
    round = v.round;
  }
  Step-IsSystem c x bounded (resets pos block) v = record {
    queue = reset-IsQueue x.streamer pos block;
    round = v.round;
  }

  pub Steps-IsSystem :
      (c : Codec) (x : System e) {y : System e}
      → IsBounded e
      → Steps c x y
      → IsSystem x
      → IsSystem y
  Steps-IsSystem c x bounded stop v = v
  Steps-IsSystem c x bounded (step {y} xs st) v =
      Step-IsSystem c y bounded st (Steps-IsSystem c x bounded xs v)

  new-IsQueue :
      (hex : Bytes → Address) (namespace next : ℕ) (client : e.Client)
      (ranges : List AddressValidRangeConfig) (start : ℕ)
      → IsQueue {e = e} (new_espresso_streamer hex namespace next client ranges start)
  unfolding new_espresso_streamer
  new-IsQueue hex namespace next client ranges start = record {
    entries = tt;
    distinct = tt;
    rising = tt;
  }

  -- A new streamer, before its goroutine starts.
  abbrev pub started :
      (Bytes → Address) → ℕ → ℕ → e.Client → List AddressValidRangeConfig → ℕ → System e
  started hex namespace next client ranges start = record {
    streamer = new_espresso_streamer hex namespace next client ranges start;
    round = idle;
  }

  pub started-IsSystem :
      (hex : Bytes → Address) (namespace next : ℕ) (client : e.Client)
      (ranges : List AddressValidRangeConfig) (start : ℕ)
      → IsSystem (started hex namespace next client ranges start)
  started-IsSystem hex namespace next client ranges start = record {
    queue = new-IsQueue hex namespace next client ranges start;
    round = tt;
  }

  -- However the goroutine of a new streamer and the calls that advance and reset it interleave, also
  -- in the middle of a round, with a client that reports heights below 2^64, the block that
  -- `GetCurrentEarliestHotShotBlockNumber` names for a position is at most the next block and at
  -- most the height of every message that is kept for that position or a later one.
  pub restart_is_safe :
      (c : Codec) (hex : Bytes → Address) (namespace next : ℕ) (client : e.Client)
      (ranges : List AddressValidRangeConfig) (start : ℕ) (x : System e) (pos : ℕ)
      → IsBounded e
      → Steps c (started hex namespace next client ranges start) x
      → (get_current_earliest_hot_shot_block_number x.streamer pos
          ≤ x.streamer.next_hotshot_block_num)
        × All
            (λ m.
              (m.0 < pos)
              ⊎ (get_current_earliest_hot_shot_block_number x.streamer pos ≤ m.1.hotshot_height))
            x.streamer.messages
  restart_is_safe c hex namespace next client ranges start x pos bounded xs =
      earliest_lem x.streamer pos
        (Steps-IsSystem c (started hex namespace next client ranges start) bounded xs
          (started-IsSystem hex namespace next client ranges start)).queue
