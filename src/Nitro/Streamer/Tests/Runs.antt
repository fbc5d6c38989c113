-- ===== src/Nitro/Streamer/Tests/Runs.antt =====
-- The theorems on the interleaved nitro streamer at a concrete run.
use espresso_streamers.Base.{ℕ, none, subst, ◌≤◌, ◌<◌, ◌≡◌, ◌⊎◌, refl, some, [], ◌∷◌, All}
use mathlib.Core.List.{Memᴰ}
use espresso_streamers.Nitro.Types.{MessageWithMetadataAndPos}
use espresso_streamers.Nitro.Monitor.{new_monitor, is_valid}
use espresso_streamers.Nitro.Demo.{demo_client, demo_codec, demo_transaction}
use espresso_streamers.Nitro.Streamer.{
  Messages, NitroStreamer, new_espresso_streamer, advance, get_msg, peek, reset, min_height,
  get_current_earliest_hot_shot_block_number,
}
use espresso_streamers.Nitro.Streamer.Hotshot.{
  fetch_blocks, parse_transactions, parse_espresso_transaction,
}
use espresso_streamers.Nitro.Streamer.Interleave.{
  Round, fetching, parsing, idle, System, round_of, work, Steps, stop, step, works, advances,
}
use espresso_streamers.Nitro.Streamer.Authentic.{IsAuthentic}
use espresso_streamers.Nitro.Streamer.Signed.{messages_are_signed}
use espresso_streamers.Nitro.Streamer.Race.{reset_is_overwritten}
use espresso_streamers.Nitro.Streamer.Reach.{started, restart_is_safe}
use espresso_streamers.Nitro.Streamer.Tests.{program, demo_client-IsBounded}
use espresso_streamers.Nitro.Streamer.Lasting.{kept_until_taken}
use espresso_streamers.Nitro.Streamer.Consume.{Consumes, begins, goes_on, peeks, takes}
use espresso_streamers.Nitro.Streamer.Taken.{Succeeds, IsGenuine, takes_in_order}

-- A new streamer of which the goroutine has read two of the steps of a round when the user
-- advances.
abbrev begun : System demo_client
begun = started (λ b. 9) 1 2 0 (record { address = []; from = 0; to = 8 } ∷ []) 4

-- The new streamer with its map, its client and its round as given.
abbrev system_at : Messages → ℕ → ℕ → Round → System demo_client
system_at ms highest client round = record {
  streamer = record (begun.streamer) {
    messages = ms;
    highest_pos = highest;
    espresso_client = client;
  };
  round = round;
}

abbrev read : ℕ → ℕ → MessageWithMetadataAndPos
read pos delayed = record {
  message_with_meta = record { message = none; delayed_messages_read = delayed };
  pos = pos;
  hotshot_height = 2;
}

abbrev both : Messages
both = (4, read 4 2) ∷ (5, read 5 3) ∷ []

-- The steps of the first round: it has read the next block, fetched, and stored the messages.
abbrev awake : System demo_client
awake = system_at [] 1 0 (fetching 2)

abbrev loaded : System demo_client
loaded = system_at [] 1 3 (parsing 2 6 3 (demo_transaction ∷ []))

abbrev stored : System demo_client
stored = system_at both 5 3 (parsing 2 6 3 [])

wakes : work demo_codec begun.streamer begun.round ≡ some awake
unfolding work new_espresso_streamer
wakes = refl

loads : work demo_codec awake.streamer awake.round ≡ some loaded
unfolding program work round_of fetch_blocks
loads = refl

stores : work demo_codec loaded.streamer loaded.round ≡ some stored
unfolding program work
stores = refl

abbrev rested : System demo_client
rested = record { streamer = record (stored.streamer) { next_hotshot_block_num = 6 }; round = idle }

rests : work demo_codec stored.streamer stored.round ≡ some rested
unfolding program work
rests = refl

-- The user advances once the messages are stored, and then the goroutine goes on.
abbrev advanced : System demo_client
advanced = record stored { streamer = advance stored.streamer }

abbrev settled : System demo_client
settled = record {
  streamer = record (advanced.streamer) { next_hotshot_block_num = 6 };
  round = idle;
}

settles : work demo_codec advanced.streamer advanced.round ≡ some settled
unfolding program work advance
settles = refl

stored-Steps : Steps demo_codec begun stored
stored-Steps = step (step (step stop (works wakes)) (works loads)) (works stores)

advanced-Steps : Steps demo_codec begun settled
advanced-Steps = step (step stored-Steps advances) (works settles)

restart_is_safe_example :
    (get_current_earliest_hot_shot_block_number settled.streamer 5
      ≤ settled.streamer.next_hotshot_block_num)
    × All
        (λ x.
          (x.0 < 5)
          ⊎ (get_current_earliest_hot_shot_block_number settled.streamer 5 ≤ x.1.hotshot_height))
        settled.streamer.messages
restart_is_safe_example =
    restart_is_safe demo_codec (λ b. 9) 1 2 0 (record { address = []; from = 0; to = 8 } ∷ []) 4
      settled 5 demo_client-IsBounded advanced-Steps

messages_are_signed_example :
    All
      (IsAuthentic demo_codec
        (is_valid (new_monitor (λ b. 9) (record { address = []; from = 0; to = 8 } ∷ [])))
        1)
      settled.streamer.messages
messages_are_signed_example =
    messages_are_signed demo_codec (λ b. 9) 1 2 0 (record { address = []; from = 0; to = 8 } ∷ []) 4
      settled demo_client-IsBounded advanced-Steps

first_fetched : fetch_blocks begun.streamer begun.streamer.next_hotshot_block_num ≡ (
  some (record { to_block = 6; l1_height = 3; blocks = (demo_transaction ∷ []) ∷ [] }),
  loaded.streamer,
)
unfolding program fetch_blocks
first_fetched = refl

first_parsed :
    parse_transactions
      (parse_espresso_transaction demo_codec)
      loaded.streamer
      3
      (demo_transaction ∷ [])
    ≡ some stored.streamer
unfolding program
first_parsed = refl

reset_is_overwritten_example :
    (y : System demo_client) × Steps demo_codec begun y
    × (y.round ≡ idle)
    × (y.streamer.current_message_pos ≡ 4)
    × (y.streamer.next_hotshot_block_num ≡ 6)
    × (y.streamer.messages ≡ [])
reset_is_overwritten_example =
    reset_is_overwritten demo_codec begun.streamer loaded.streamer stored.streamer
      (record { to_block = 6; l1_height = 3; blocks = (demo_transaction ∷ []) ∷ [] }) 4
      first_fetched first_parsed

stored_peek : peek stored.streamer ≡ some (read 4 2)
unfolding program peek
stored_peek = refl

-- The user peeks, the goroutine goes on, and then the user advances.
abbrev taken : System demo_client
taken = record rested { streamer = advance rested.streamer }

first_taken : Consumes demo_codec begun taken (read 4 2 ∷ []) none
first_taken = takes (
    goes_on
      (subst (λ h. Consumes demo_codec begun stored [] h) stored_peek
        (peeks (goes_on (goes_on (goes_on begins wakes) loads) stores)))
      rests)

takes_in_order_example :
    Succeeds 4 (read 4 2 ∷ [])
    × (taken.streamer.current_message_pos ≡ 5)
    × All
        (IsGenuine demo_codec
          (new_monitor (λ b. 9) (record { address = []; from = 0; to = 8 } ∷ []))
          1)
        (read 4 2 ∷ [])
unfolding new_espresso_streamer
takes_in_order_example =
    takes_in_order demo_codec (λ b. 9) 1 2 0 (record { address = []; from = 0; to = 8 } ∷ []) 4
      begun taken (read 4 2 ∷ []) none demo_client-IsBounded stop first_taken

second_stored : get_msg stored.streamer 5 ≡ some (read 5 3)
unfolding program get_msg
second_stored = refl

-- The user takes the first message while the goroutine goes on, and the second one stays.
kept_until_taken_example :
    Memᴰ (read 5 3) (read 4 2 ∷ [])
    ⊎ ((taken.streamer.current_message_pos ≤ 5) × (get_msg taken.streamer 5 ≡ some (read 5 3)))
kept_until_taken_example =
    kept_until_taken demo_codec (λ b. 9) 1 2 0 (record { address = []; from = 0; to = 8 } ∷ []) 4 5
      (read 5 3) stored taken (read 4 2 ∷ []) none demo_client-IsBounded stored-Steps second_stored
      (takes (
        goes_on (subst (λ h. Consumes demo_codec stored stored [] h) stored_peek (peeks begins))
          rests))

-- The transaction of the blocks up to 6 is queued after a reset to block 7.
relabelled :
    (t : NitroStreamer demo_client) × (parse_transactions
        (parse_espresso_transaction demo_codec)
        (reset loaded.streamer 4 7)
        3
        (demo_transaction ∷ [])
      ≡ some t)
    × (get_msg t 4 ≡ some (record (read 4 2) { hotshot_height = 7 }))
    × (get_current_earliest_hot_shot_block_number t 4 ≡ 7)
unfolding program reset get_msg get_current_earliest_hot_shot_block_number min_height
relabelled = (_, refl, refl, refl)
