-- ===== src/Nitro/Binary.antt =====
-- `MarshalBinary` and `UnmarshalBinary` of the formats, in nitro/v0_nitro_types_binary.go and
-- nitro/v1_nitro_type_binary.go. `UnmarshalBinary` stores what the parser returns also when it fails,
-- which is the zero value then, or, for a single version 1 message that the JSON decoder refuses, what
-- this has left in the value; that is a parameter.
pub mod Laws
use espresso_streamers.Base.{Option, none, some, [], take, drop, Result, ok, err}
use espresso_streamers.Nitro.Bytes.{Bytes, get_uint64, len_size}
use espresso_streamers.Nitro.Types.{
  V0MessageAndIndex, V0SignatureAndMessages, BroadcastFeedMessage, V1HeaderAndBroadcastFeedMessages,
}
use espresso_streamers.Nitro.Codec.{
  Codec, CodecError, not_enough_bytes_remaining, no_message_data, encoded_byte_length_mismatch,
  version_mismatch, unknown_message_format, embedded_error,
}
use espresso_streamers.Nitro.V0.{
  encode_v0_message_and_index, encode_v0_signature_and_messages, parse_v0_message_and_index,
  parse_v0_signature_and_messages,
}
use espresso_streamers.Nitro.V1.{
  encode_v1_broadcast_feed_message, encode_v1_header_and_broadcast_messages,
  parse_v1_broadcast_feed_message, parse_v1_header_and_broadcast_feed_messages,
}

-- The error, and the value of the receiver after the call.
unfoldable pub stored : {T : Type 0} → T → Result CodecError T → Option CodecError × T
stored zero_value (ok value) = (none, value)
stored zero_value (err e) = (some e, zero_value)

abbrev zero_message : V0MessageAndIndex
zero_message = record { pos = 0; message = record { message = none; delayed_messages_read = 0 } }

abbrev zero_messages : V0SignatureAndMessages
zero_messages = record { signature = []; hash = 0; messages = [] }

abbrev zero_feed_message : BroadcastFeedMessage
zero_feed_message = record {
  sequence_number = 0;
  message = record { message = none; delayed_messages_read = 0 };
  signature = [];
  signature_v2 = [];
  block_metadata = [];
  cumulative_sum_msg_size = 0;
  block_hash = none;
}

module _ (c : Codec) where
  unfoldable pub marshal_message_and_index : V0MessageAndIndex → Option Bytes
  marshal_message_and_index m = encode_v0_message_and_index c m

  unfoldable pub marshal_signature_and_messages : V0SignatureAndMessages → Option Bytes
  marshal_signature_and_messages m = encode_v0_signature_and_messages c m

  unfoldable pub marshal_broadcast_feed_message : BroadcastFeedMessage → Option Bytes
  marshal_broadcast_feed_message m = encode_v1_broadcast_feed_message c m

  unfoldable pub marshal_header_and_messages : V1HeaderAndBroadcastFeedMessages → Option Bytes
  marshal_header_and_messages m = encode_v1_header_and_broadcast_messages c m

  unfoldable pub unmarshal_message_and_index :
      V0MessageAndIndex → Bytes → Option CodecError × V0MessageAndIndex
  unfolding stored
  unmarshal_message_and_index m bytes = stored zero_message (parse_v0_message_and_index c bytes).0

  unfoldable pub unmarshal_signature_and_messages :
      V0SignatureAndMessages → Bytes → Option CodecError × V0SignatureAndMessages
  unfolding stored
  unmarshal_signature_and_messages m bytes =
      stored zero_messages (parse_v0_signature_and_messages c bytes)

  unfoldable pub unmarshal_header_and_messages :
      V1HeaderAndBroadcastFeedMessages
      → Bytes
      → Option CodecError × V1HeaderAndBroadcastFeedMessages
  unfolding stored
  unmarshal_header_and_messages m bytes =
      stored (record { messages = [] }) (parse_v1_header_and_broadcast_feed_messages c bytes).0

  -- `left` is what `json.Unmarshal` leaves in its target when it refuses the bytes.
  unfoldable pub unmarshal_broadcast_feed_message :
      (Bytes → BroadcastFeedMessage)
      → BroadcastFeedMessage
      → Bytes
      → Option CodecError × BroadcastFeedMessage
  unmarshal_broadcast_feed_message left m bytes = elim (parse_v1_broadcast_feed_message c bytes).0 [
    | ok value ↦ (none, value)
    | err embedded_error ↦
        (some embedded_error, left (take (get_uint64 bytes) (drop len_size bytes)))
    | err e ↦ (some e, zero_feed_message)
  ]
