-- ===== src/Op/Streamer/Tests.antt =====
-- Runs of the streamer over the concrete L1 and Espresso, and its theorems at concrete inputs.
use espresso_streamers.Base.{
  ℕ, ◌-◌, ◌≤◌, ◌<◌, ◌≡◌, ◌↔◌, refl, Bool, false, Option, none, some, List, [], ◌∷◌, arith, zero,
  suc,
}
use espresso_streamers.Op.Batch.{accept}
use espresso_streamers.Op.Buffer.{
  insert, position, search_loop, is_below, is_equal_at, compare_batch, peek as peek_buffer, pop,
}
use espresso_streamers.Op.Streamer.Deps.{Deps, Bytes}
use espresso_streamers.Op.Streamer.State.{BatchStreamer}
use espresso_streamers.Op.Streamer.Demo.{demo, demo_batch, demo_streamer, demo_blocks, demo_l1}
use espresso_streamers.Op.Streamer.Valid.{IsValid}
use espresso_streamers.Op.Streamer.Check.{
  check_batch, l1_state_at, is_unset, check_l1_state, contains,
}
use espresso_streamers.Op.Streamer.Check.Accept.{Accepts, check_batch-accept_iff}
use espresso_streamers.Op.Streamer.Head.{
  has_next, has_next_loop, has_next_round, check_head, has_next_measure, next, set_proper_head,
}
use espresso_streamers.Op.Streamer.Head.Rounds.{Answer, has_next_total}
use espresso_streamers.Op.Streamer.Head.Next.{NextPost, next_lem}
use espresso_streamers.Op.Streamer.Fetch.{
  fetch_hot_shot_range, process_blocks, process_block, process_transaction,
  process_espresso_transaction, place_batch, buffer_batch, is_head_duplicate, record_timestamp,
}
use espresso_streamers.Op.Streamer.Head.Fork.{Drained, set_proper_head_lem}
use espresso_streamers.Op.Streamer.Refresh.{refresh}
use espresso_streamers.Op.Streamer.Refresh.Safe.{Refreshed, refresh_lem}
use espresso_streamers.Op.Streamer.Update.Ends.{AnswersEachBlock, Updated}
use espresso_streamers.Op.Streamer.Update.Total.{update_loop_total}
use espresso_streamers.Op.Streamer.Update.Gaps.{update_stalls}
use espresso_streamers.Op.Streamer.Fetch.Skip.{first_full}
use espresso_streamers.Op.Streamer.Fetch.Rescan.{rescans}
use espresso_streamers.Op.Streamer.Update.{
  update, update_loop, compute_espresso_block_heights_range, range_start, UpdateError,
}

-- The program, to be unfolded in tests.
program : Unit {0}
unfolding insert position search_loop is_below is_equal_at compare_batch peek_buffer pop check_batch
    l1_state_at is_unset check_l1_state contains has_next has_next_loop has_next_round check_head
    has_next_measure next set_proper_head fetch_hot_shot_range process_blocks process_block
    process_transaction process_espresso_transaction place_batch buffer_batch is_head_duplicate
    record_timestamp update update_loop compute_espresso_block_heights_range range_start
program = tt

abbrev start : BatchStreamer demo
start = demo_streamer [] 3

start-IsValid : IsValid start
start-IsValid = record { buffer = record { sorted = tt; bounded = omega arith }; head_due = tt }

-- Batches 2 to 4 have been read: 2 is at the head, 3 and 4 are buffered.
abbrev filled : BatchStreamer demo
filled = record start {
  head_batch = some (demo_batch 2);
  batch_buffer = record { batches = demo_batch 3 ∷ demo_batch 4 ∷ []; capacity = 3 };
}

filled-IsValid : IsValid filled
filled-IsValid = record {
  buffer = record { sorted = omega arith; bounded = omega arith };
  head_due = refl;
}

-- `Update` reads blocks 2 to 4 and stops, since the batch that is due is there.
update_reads : update 10 start ≡ some (none, record filled { client = 11; hot_shot_pos = 4 })
unfolding program
update_reads = refl

-- Block 6 does not fit, so `skipPos` is 5.
abbrev crammed : BatchStreamer demo
crammed = record filled {
  client = 12;
  hot_shot_pos = 6;
  skip_pos = 5;
  batch_buffer = record { batches = demo_batch 3 ∷ demo_batch 4 ∷ demo_batch 5 ∷ []; capacity = 3 };
}

fetch_crams : fetch_hot_shot_range start 2 7 ≡ (none, crammed)
unfolding program
fetch_crams = refl

-- Batch 2 is delivered, and the scan goes back to where block 6 is read again.
abbrev rewound : BatchStreamer demo
rewound = record crammed {
  client = 14;
  next_batch_pos = 3;
  head_batch = none;
  hot_shot_pos = 5;
  skip_pos = 0xffff_ffff_ffff_ffff;
}

next_rewinds : next crammed ≡ (some (demo_batch 2), rewound)
unfolding program
next_rewinds = refl

crammed-IsValid : IsValid crammed
crammed-IsValid = record {
  buffer = record { sorted = omega arith; bounded = omega arith };
  head_due = refl;
}

next_lem_example : NextPost crammed (next crammed)
next_lem_example = next_lem crammed crammed-IsValid

has_next_total_example :
    (r : Bool × BatchStreamer demo) × (has_next_loop 4 filled ≡ some r) × Answer filled r
unfolding program
has_next_total_example = has_next_total 4 filled filled-IsValid (omega arith)

-- The head is freed; batch 3 is not due yet, so the buffer stays.
set_proper_head_lem_example :
    let t = set_proper_head filled 5 in
    IsValid t
    × (t.head_batch ≡ none)
    × Drained 2 5 filled.batch_buffer.batches t.batch_buffer.batches
    × (t ≡ record filled { head_batch = none; batch_buffer = t.batch_buffer })
    × (t.batch_buffer.capacity ≡ 3)
set_proper_head_lem_example = set_proper_head_lem filled 5 filled-IsValid

check_batch-accept_iff_example :
    ((check_batch start (demo_batch 2)).0 ≡ accept) ↔ Accepts start (demo_batch 2)
check_batch-accept_iff_example = check_batch-accept_iff start (demo_batch 2)

rescans_example : range_start rewound.hot_shot_pos ≤ 6
unfolding program first_full
rescans_example =
    rescans start 2 7 6 ((2 ∷ []) ∷ []) (demo_blocks 4 3) (demo_batch 2)
      (record rewound { client = 16 }) start-IsValid (omega arith) (omega arith) refl refl
      (omega arith) refl

demo_answers : AnswersEachBlock demo
demo_answers c from to namespace lt e = absurd (some_blocks (to - from) (omega arith) e)
  where
    some_blocks :
        (n : ℕ)
        → 0 < n
        → ◌≡◌ {A = Option (List (List Bytes))} (some (demo_blocks n from)) (some [])
        → ⊥
    some_blocks zero h q = absurd (omega arith)
    some_blocks (suc n) h q = cc

update_loop_total_example :
    (r : Option UpdateError × BatchStreamer demo) × (update_loop 4 false 4 start ≡ some r)
    × Updated 4 start r
unfolding range_start
update_loop_total_example =
    update_loop_total demo_answers 4 4 false start start-IsValid
      (record { height_fits = omega arith; position_fits = omega arith }) (omega arith)

-- The same L1 over an Espresso client that answers every range with an empty list.
abbrev quiet : Deps
quiet = record demo { fetch_namespace_transactions_in_range = λ c from to ns. (some [], c) }

abbrev idle : BatchStreamer quiet
idle = record {
  namespace = 1;
  client = 0;
  next_batch_pos = 2;
  fallback_batch_pos = 1;
  hot_shot_pos = 1;
  fallback_hot_shot_pos = 1;
  origin_hot_shot_pos = 0;
  finalized_l1 = demo_l1;
  skip_pos = 0xffff_ffff_ffff_ffff;
  head_batch = none;
  batch_buffer = record { batches = []; capacity = 3 };
  finalized_l1_state_cache = tt;
  espresso_batcher = 9;
  track_batch_timestamp = false;
  batch_timestamps = none;
}

update_stalls_example : update_loop 1000 false 4 idle ≡ none
unfolding range_start
update_stalls_example =
    update_stalls 1000 false 4 idle refl refl (omega arith)
      (record { height_fits = omega arith; position_fits = omega arith }) (λ c from to ns. refl)

refresh_lem_example :
    Refreshed filled 0 (refresh filled demo_l1 0 (record { hash = 7; number = 1 }))
refresh_lem_example =
    refresh_lem filled demo_l1 0 (record { hash = 7; number = 1 }) filled-IsValid
      (record { origin = omega arith; ahead = omega arith }) (omega arith) (omega arith)
