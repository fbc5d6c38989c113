-- ===== src/Nitro/V1/Tests.antt =====
-- The theorem on the version 1 format at a concrete input.
use espresso_streamers.Base.{◌≡◌, ◌∷◌, [], none, some, refl, arith, ok}
use espresso_streamers.Nitro.Bytes.{Bytes, put_uint64}
use espresso_streamers.Nitro.Types.{V1HeaderAndBroadcastFeedMessages, BroadcastFeedMessage}
use espresso_streamers.Nitro.Codec.{Codec}
use espresso_streamers.Nitro.Demo.{demo_codec}
use espresso_streamers.Nitro.V1.{
  v1_header, encode_v1_header_and_broadcast_messages, encode_v1_header, encode_embedded_json,
  encode_v1_broadcast_feed_messages, encode_v1_broadcast_feed_message,
  parse_v1_header_and_broadcast_feed_messages,
}
use espresso_streamers.Nitro.V1.RoundTrip.{Decodes, v1_round_trip}

-- The concrete codec, with the one string that is written.
abbrev codec : Codec
codec = record demo_codec { json_unmarshal_string = λ b. some v1_header }

abbrev message : BroadcastFeedMessage
message = record {
  sequence_number = 3;
  message = record { message = none; delayed_messages_read = 0 };
  signature = [];
  signature_v2 = [];
  block_metadata = [];
  cumulative_sum_msg_size = 0;
  block_hash = none;
}

abbrev sent : V1HeaderAndBroadcastFeedMessages
sent = record { messages = message ∷ [] }

abbrev written : Bytes
written = 0 ∷ 0 ∷ 0 ∷ 0 ∷ 0 ∷ 0 ∷ 0 ∷ 4 ∷ 34 ∷ 86 ∷ 49 ∷ 34 ∷ 0 ∷ 0 ∷ 0 ∷ 0 ∷ 0 ∷ 0 ∷ 0 ∷ 1 ∷ 3 ∷ []

written_lem : encode_v1_header_and_broadcast_messages codec sent ≡ some written
unfolding encode_v1_header_and_broadcast_messages encode_v1_header encode_embedded_json
    encode_v1_broadcast_feed_messages encode_v1_broadcast_feed_message put_uint64
written_lem = refl

header-Decodes : Decodes codec.json_marshal_string codec.json_unmarshal_string v1_header
header-Decodes b e = refl

message-Decodes : Decodes codec.json_marshal_message codec.json_unmarshal_message message
message-Decodes b e = let f : b ≡ 3 ∷ [] = ground (arith, e) in rw f refl

v1_round_trip_example : parse_v1_header_and_broadcast_feed_messages codec written ≡ (ok sent, 21)
v1_round_trip_example =
    v1_round_trip codec sent written header-Decodes (message-Decodes, tt) written_lem (omega arith)
