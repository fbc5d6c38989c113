-- ===== src/Nitro/V1.antt =====
-- nitro/v1_nitro_type_binary.go: JSON values behind their lengths. The encoders copy into a buffer
-- of just the length of the pieces; the model puts the pieces one after the other.
pub mod RoundTrip
mod Tests
use espresso_streamers.Base.{
  ℕ, zero, suc, ◌+◌, Option, none, some, List, [], ◌∷◌, ◌++◌, if◌then◌else◌, length, take, drop,
  Result, ok, err, add64,
}
use espresso_streamers.Nitro.Bytes.{
  Bytes, put_uint64, get_uint64, len_size, can_safely_read_elements, bytes_equal,
}
use espresso_streamers.Nitro.Types.{BroadcastFeedMessage, V1HeaderAndBroadcastFeedMessages}
use espresso_streamers.Nitro.Codec.{
  Codec, CodecError, not_enough_bytes_remaining, version_mismatch, embedded_error,
}

-- `V1Header`, the string V1.
abbrev pub v1_header : Bytes
v1_header = 86 ∷ 49 ∷ []

-- `encodeEmbeddedJSON` and `parseEmbeddedJSON` of one type, whose JSON codec is the argument.
unfoldable pub encode_embedded_json : {T : Type 0} → (T → Option Bytes) → T → Option Bytes
encode_embedded_json marshal value = elim (marshal value) [
  | none ↦ none
  | some encoded ↦ some (put_uint64 (length encoded) ++ encoded)
]

unfoldable pub parse_embedded_json :
    {T : Type 0} → (Bytes → Option T) → Bytes → Result CodecError T × ℕ
parse_embedded_json unmarshal payload =
    let json_content_length = get_uint64 payload in
    if can_safely_read_elements (length payload) 0 len_size
    then (err (not_enough_bytes_remaining (length payload) len_size), 0)
    else if can_safely_read_elements (length payload) len_size json_content_length
    then (
      err (not_enough_bytes_remaining (length payload) (add64 len_size json_content_length)),
      len_size,
    )
    else elim (unmarshal (take json_content_length (drop len_size payload))) [
      | none ↦ (err embedded_error, len_size + json_content_length)
      | some value ↦ (ok value, len_size + json_content_length)
    ]

module _ (c : Codec) where
  unfoldable pub parse_v1_header : Bytes → Result CodecError Bytes × ℕ
  unfolding parse_embedded_json
  parse_v1_header payload =
      let (result, read) = parse_embedded_json c.json_unmarshal_string payload in
      elim result [
        | err e ↦ (err e, read)
        | ok header ↦
            if bytes_equal header v1_header
            then (ok header, read)
            else (err (version_mismatch header v1_header), read)
      ]

  unfoldable pub encode_v1_header : Option Bytes
  encode_v1_header = encode_embedded_json c.json_marshal_string v1_header

  unfoldable pub parse_v1_broadcast_feed_message :
      Bytes → Result CodecError BroadcastFeedMessage × ℕ
  parse_v1_broadcast_feed_message payload = parse_embedded_json c.json_unmarshal_message payload

  -- The loop on `data[offset:]`, here `payload`, on fuel.
  unfoldable pub parse_v1_loop :
      ℕ
      → Bytes
      → ℕ
      → List BroadcastFeedMessage
      → Option (Result CodecError (List BroadcastFeedMessage) × ℕ)
  unfolding parse_v1_broadcast_feed_message
  parse_v1_loop zero payload offset messages = none
  parse_v1_loop (suc fuel) [] offset messages = some (ok messages, offset)
  parse_v1_loop (suc fuel) (b ∷ bs) offset messages =
      let (result, read) = parse_v1_broadcast_feed_message (b ∷ bs) in
      elim result [
        | err e ↦ some (err e, offset + read)
        | ok message ↦
            parse_v1_loop fuel (drop read (b ∷ bs)) (offset + read) (messages ++ (message ∷ []))
      ]

  -- Each round reads at least 8 bytes, so the fuel does not run out.
  unfoldable pub parse_v1_broadcast_feed_messages :
      Bytes → Result CodecError (List BroadcastFeedMessage) × ℕ
  unfolding parse_v1_loop
  parse_v1_broadcast_feed_messages payload =
      elim (parse_v1_loop (suc (length payload)) payload 0 []) [
        | none ↦ (err embedded_error, 0)
        | some result ↦ result
      ]

  unfoldable pub parse_v1_header_and_broadcast_feed_messages :
      Bytes → Result CodecError V1HeaderAndBroadcastFeedMessages × ℕ
  unfolding parse_v1_broadcast_feed_messages
  parse_v1_header_and_broadcast_feed_messages payload =
      let (header, read) = parse_v1_header payload in
      elim header [
        | err e ↦ (err e, 0)
        | ok h ↦
            let (result, read') = parse_v1_broadcast_feed_messages (drop read payload) in
            elim result [
              | err e ↦ (err e, read + read')
              | ok messages ↦ (ok (record { messages = messages }), read + read')
            ]
      ]

  unfoldable pub encode_v1_broadcast_feed_message : BroadcastFeedMessage → Option Bytes
  encode_v1_broadcast_feed_message message = encode_embedded_json c.json_marshal_message message

  unfoldable pub encode_v1_broadcast_feed_messages : List BroadcastFeedMessage → Option Bytes
  encode_v1_broadcast_feed_messages [] = some []
  encode_v1_broadcast_feed_messages (m ∷ messages) = elim (encode_v1_broadcast_feed_message m) [
    | none ↦ none
    | some encoded ↦ elim (encode_v1_broadcast_feed_messages messages) [
      | none ↦ none
      | some rest ↦ some (encoded ++ rest)
    ]
  ]

  unfoldable pub encode_v1_header_and_broadcast_messages :
      V1HeaderAndBroadcastFeedMessages → Option Bytes
  encode_v1_header_and_broadcast_messages m = elim encode_v1_header [
    | none ↦ none
    | some header ↦ elim (encode_v1_broadcast_feed_messages m.messages) [
      | none ↦ none
      | some messages ↦ some (header ++ messages)
    ]
  ]
