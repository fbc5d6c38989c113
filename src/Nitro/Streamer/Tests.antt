-- ===== src/Nitro/Streamer/Tests.antt =====
-- The theorems on the nitro streamer and its monitor at concrete inputs.
mod Runs
mod Posted
use espresso_streamers.Base.{
  ℕ, ◌^◌, ◌-◌, Option, ◌≤◌, ◌<◌, ◌≡◌, ◌⊎◌, ◌↔◌, refl, true, none, some, [], ◌∷◌, List, All, arith,
}
use espresso_streamers.Nitro.Types.{MessageWithMetadataAndPos}
use espresso_streamers.Nitro.Monitor.{
  new_monitor, is_valid, Covers, is_valid_iff, any_valid_at, is_valid_at,
}
use espresso_streamers.Nitro.Bytes.{has_prefix, get_uint64, can_safely_read_elements}
use espresso_streamers.Nitro.V0.{
  parse_v0_signature_and_messages, parse_v0_message_and_indexes, parse_v0_loop,
  parse_v0_message_and_index,
}
use espresso_streamers.Nitro.Payload.{
  v0, v1, next_message, message_at, message_iterator, verify_signature, verify_signer,
  parse_nitro_messages_from_hot_shot,
}
use espresso_streamers.Nitro.Demo.{demo_client, demo_codec, demo_transaction}
use espresso_streamers.Nitro.Streamer.{
  EspressoClient, NitroStreamer, advance, advance_to, get_current_earliest_hot_shot_block_number,
  get_message_count, lookup, lower_height, min_height, new_espresso_streamer, peek, queue_loop,
  queue_message, reset,
}
use espresso_streamers.Nitro.Streamer.Feed
use espresso_streamers.Nitro.Streamer.Refines.{Puts, view, message_of, refines_feed}
use espresso_streamers.Nitro.Streamer.Hotshot.{
  Fetched, fetch_blocks, parse_espresso_transaction, queue_messages_from_hotshot,
  fetch_next_hotshot_block, jump, failed_to_fetch_transactions, until_block, parse_blocks,
  parse_transactions, message_count,
}
use espresso_streamers.Nitro.Streamer.Queue.{IsQueue, lower_height-endless}
use espresso_streamers.Nitro.Streamer.Reading.{HasBelow}
use espresso_streamers.Nitro.Streamer.Outcome.{IsBounded, Fails}
use espresso_streamers.Nitro.Streamer.Progress.{queue_messages-error, IsRetried, IsRead}
use espresso_streamers.Nitro.Streamer.Interleave.{
  idle, System, work, Steps, stop, step, works, advances,
}
use espresso_streamers.Nitro.Streamer.CatchUp.{IsSteady, rounds, rounds_catch_up}
use mathlib.Core.List.Perm
use espresso_streamers.Nitro.Streamer.Earliest.{earliest_scan}
use espresso_streamers.Nitro.Streamer.Count.{IsFirstGap, get_message_count_lem}
use espresso_streamers.Nitro.Streamer.Authentic.{IsAuthentic}
use espresso_streamers.Nitro.Streamer.Signed.{messages_are_signed}
use espresso_streamers.Nitro.Streamer.Race.{reset_is_overwritten}
use espresso_streamers.Nitro.Streamer.Reach.{started, restart_is_safe}

-- The program, to be unfolded in tests.
pub program : Unit {0}
unfolding queue_messages_from_hotshot fetch_next_hotshot_block jump until_block parse_blocks
    parse_transactions parse_espresso_transaction message_count queue_loop queue_message
    lower_height lookup new_espresso_streamer new_monitor is_valid any_valid_at is_valid_at
    next_message message_at message_iterator verify_signature verify_signer
    parse_nitro_messages_from_hot_shot has_prefix parse_v0_signature_and_messages
    parse_v0_message_and_indexes parse_v0_loop parse_v0_message_and_index get_uint64
    can_safely_read_elements
program = tt

demo_client-IsBounded : IsBounded demo_client
demo_client-IsBounded k h e = ground (arith, e)

abbrev message : ℕ → ℕ → MessageWithMetadataAndPos
message pos height = record {
  message_with_meta = record { message = none; delayed_messages_read = 0 };
  pos = pos;
  hotshot_height = height;
}

abbrev fresh : NitroStreamer demo_client
fresh = new_espresso_streamer (λ b. 9) 1 2 0 (record { address = []; from = 0; to = 8 } ∷ []) 4

-- Reading stores both messages of the transaction.
reads_messages :
    queue_messages_from_hotshot (parse_espresso_transaction demo_codec) fresh
    ≡ some (
      none,
      record fresh {
        espresso_client = 3;
        next_hotshot_block_num = 6;
        highest_pos = 5;
        messages =
            (
              4,
              record (message 4 2) {
                message_with_meta = record { message = none; delayed_messages_read = 2 };
              },
            )
            ∷ (
              5,
              record (message 5 2) {
                message_with_meta = record { message = none; delayed_messages_read = 3 };
              },
            )
            ∷ [];
      },
    )
unfolding program fetch_blocks
reads_messages = refl

-- A message of the last position makes the loop over the higher positions go on for ever.
last_position_hangs : (fuel : ℕ) → lower_height fuel [] 0 (2 ^ 64 - 1) 2 ≡ none
last_position_hangs fuel = lower_height-endless fuel [] 0 (2 ^ 64 - 1) 2 (omega arith) (omega arith)

-- Messages 4 and 6 are kept, of the blocks 2 and 3; block 5 is next.
abbrev filled : NitroStreamer demo_client
filled = record {
  espresso_client = 0;
  next_hotshot_block_num = 5;
  current_message_pos = 4;
  namespace = 1;
  messages = (6, message 6 3) ∷ (4, message 4 2) ∷ [];
  highest_pos = 6;
  monitor = record { address_valid_ranges = [] };
}

filled-IsQueue : IsQueue filled
unfolding lookup
filled-IsQueue = record {
  entries = (
    (refl, omega arith, omega arith, omega arith),
    ((refl, omega arith, omega arith, omega arith), tt),
  );
  distinct = (refl, (refl, tt));
  rising = ((ground arith, (ground arith, tt)), ((ground arith, (ground arith, tt)), tt));
}

-- The demo transaction has the positions 5 and 4.
demo_transaction-HasBelow : HasBelow demo_codec demo_transaction
unfolding program
demo_transaction-HasBelow (v0 m) e =
    let p : m.messages
        ≡ record { pos = 5; message = record { message = none; delayed_messages_read = 3 } }
          ∷ record { pos = 4; message = record { message = none; delayed_messages_read = 2 } }
          ∷ [] =
      ground (arith, e) in
    rw p (omega arith, (omega arith, tt))
demo_transaction-HasBelow (v1 m) e = absurd (cc)

-- `demo_client` has six blocks whenever it is asked.
demo_client-IsSteady : IsSteady demo_codec demo_client 6
demo_client-IsSteady = record {
  latest = λ k. refl;
  blocks =
      λ k from to ns. ((demo_transaction ∷ []) ∷ [], refl, ((demo_transaction-HasBelow, tt), tt));
  header = λ k n. (some 3, refl);
}

rounds_catch_up_example :
    (t : NitroStreamer demo_client) × (rounds demo_codec 1 filled ≡ some t)
    × IsQueue t
    × (t.next_hotshot_block_num ≡ 6)
rounds_catch_up_example =
    rounds_catch_up demo_codec 1 6 filled demo_client-IsSteady (omega arith) filled-IsQueue
      (omega arith) (omega arith)

-- The client has lost its connection.
abbrev offline : EspressoClient
offline = record demo_client { fetch_latest_block_height = λ k. (none, k) }

abbrev stuck : NitroStreamer offline
stuck = new_espresso_streamer (λ b. 9) 1 2 0 [] 4

queue_messages-error_example :
    (Fails stuck stuck.next_hotshot_block_num
      × IsRetried stuck (queue_messages_from_hotshot (parse_espresso_transaction demo_codec) stuck))
    ⊎ ((¬ Fails stuck stuck.next_hotshot_block_num)
        × IsRead demo_codec stuck
            (queue_messages_from_hotshot (parse_espresso_transaction demo_codec) stuck))
queue_messages-error_example = queue_messages-error demo_codec stuck (λ k h f. ground (arith, f))

earliest_scan_example :
    get_current_earliest_hot_shot_block_number filled 5
    ≡ min_height 5 ((4, message 4 2) ∷ (6, message 6 3) ∷ []) 5
earliest_scan_example =
    earliest_scan filled 5 ((4, message 4 2) ∷ (6, message 6 3) ∷ []) filled-IsQueue
      (Perm.swap (4, message 4 2) (6, message 6 3) [])

get_message_count_lem_example :
    (count : ℕ) × (get_message_count filled ≡ some count) × IsFirstGap filled 4 count
get_message_count_lem_example = get_message_count_lem filled filled-IsQueue (omega arith)

refines_feed_example :
    (view (advance filled) ≡ Feed.advance (view filled))
    × ((to_pos : ℕ) → view (advance_to filled to_pos) ≡ Feed.advance_to (view filled) to_pos)
    × ((pos block : ℕ) → view (reset filled pos block) ≡ Feed.reset pos block)
    × ((msg : MessageWithMetadataAndPos) → Puts filled msg (queue_message filled msg))
    × (message_of (peek filled) ≡ (view filled).contents (view filled).position)
refines_feed_example = refines_feed filled filled-IsQueue
