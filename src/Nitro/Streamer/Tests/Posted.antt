-- ===== src/Nitro/Streamer/Tests/Posted.antt =====
-- A payload that is built, signed and read.
use espresso_streamers.Base.{ℕ, zero, suc, none, List, [], ◌∷◌, ◌++◌}
use espresso_streamers.Nitro.Bytes.{Bytes, put_uint64}
use espresso_streamers.Nitro.Types.{MessageWithMetadata}
use espresso_streamers.Nitro.Monitor.{new_monitor}
use espresso_streamers.Nitro.Payload.{build_raw_hot_shot_payload}
use espresso_streamers.Nitro.Payload.Build.{fetcher}
use espresso_streamers.Nitro.Demo.{demo_client, demo_codec}
use espresso_streamers.Nitro.Streamer.{NitroStreamer}

abbrev stored : ℕ → MessageWithMetadata
stored p = record { message = none; delayed_messages_read = p }

abbrev zeros : ℕ → Bytes
zeros zero = []
zeros (suc n) = 0 ∷ zeros n

abbrev positions : List ℕ
positions = 4 ∷ 5 ∷ 6 ∷ []

abbrev built : Bytes
built = (build_raw_hot_shot_payload positions (fetcher demo_codec stored) 4130).0

abbrev payload : Bytes
payload = put_uint64 65 ++ (zeros 65 ++ built)

-- Nothing is kept yet; the signer 9 is valid up to height 8.
abbrev waiting : NitroStreamer demo_client
waiting = record {
  espresso_client = 0;
  next_hotshot_block_num = 2;
  current_message_pos = 4;
  namespace = 1;
  messages = [];
  highest_pos = 4;
  monitor = new_monitor (λ b. 9) (record { address = []; from = 0; to = 8 } ∷ []);
}
