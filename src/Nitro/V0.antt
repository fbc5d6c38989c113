-- ===== src/Nitro/V0.antt =====
-- nitro/v0_nitro_types_binary.go: messages with their positions behind a signature. The encoders
-- copy into a buffer of just the length of the pieces; the model puts the pieces one after the other.
pub mod RoundTrip
pub mod Frames
mod Tests
use espresso_streamers.Base.{
  ℕ, zero, suc, ◌+◌, Bool, Option, none, some, List, [], ◌∷◌, ◌++◌, ltb, ◌==◌, if◌then◌else◌,
  length, take, drop, Result, ok, err, add64,
}
use espresso_streamers.Nitro.Bytes.{
  Bytes, put_uint64, get_uint64, len_size, index_size, can_safely_read_elements,
}
use espresso_streamers.Nitro.Types.{V0MessageAndIndex, V0SignatureAndMessages}
use espresso_streamers.Nitro.Codec.{
  Codec, CodecError, not_enough_bytes_remaining, no_message_data, encoded_byte_length_mismatch,
  embedded_error,
}

module _ (c : Codec) where
  unfoldable pub encode_v0_message_and_index : V0MessageAndIndex → Option Bytes
  encode_v0_message_and_index message = elim (c.rlp_encode message.message) [
    | none ↦ none
    | some encoded ↦ some (put_uint64 message.pos ++ (put_uint64 (length encoded) ++ encoded))
  ]

  unfoldable pub encode_v0_message_and_indexes : List V0MessageAndIndex → Option Bytes
  encode_v0_message_and_indexes [] = some []
  encode_v0_message_and_indexes (message ∷ messages) = elim (encode_v0_message_and_index message) [
    | none ↦ none
    | some bytes ↦ elim (encode_v0_message_and_indexes messages) [
      | none ↦ none
      | some rest ↦ some (bytes ++ rest)
    ]
  ]

  unfoldable pub encode_v0_signature_and_messages : V0SignatureAndMessages → Option Bytes
  unfolding encode_v0_message_and_indexes
  encode_v0_signature_and_messages m = elim (encode_v0_message_and_indexes m.messages) [
    | none ↦ none
    | some encoded ↦ some (put_uint64 (length m.signature) ++ (m.signature ++ encoded))
  ]

  -- The result, and the number of bytes read.
  unfoldable pub parse_v0_message_and_index : Bytes → Result CodecError V0MessageAndIndex × ℕ
  parse_v0_message_and_index payload =
      let message_length = get_uint64 (drop index_size payload) in
      if can_safely_read_elements (length payload) 0 (index_size + len_size)
      then (err (not_enough_bytes_remaining (length payload) (index_size + len_size)), 0)
      else if message_length == 0
      then (err no_message_data, 16)
      else if can_safely_read_elements (length payload) 16 message_length
      then (err (not_enough_bytes_remaining (length payload) (add64 16 message_length)), 16)
      else elim (c.rlp_decode (take message_length (drop 16 payload))) [
        | none ↦ (err embedded_error, 16 + message_length)
        | some message ↦
            (ok (record { pos = get_uint64 payload; message = message }), 16 + message_length)
      ]

  -- The loop on `data[offset:]`, here `payload`, on fuel; a message without data is passed over.
  unfoldable pub parse_v0_loop :
      ℕ
      → Bytes
      → ℕ
      → List V0MessageAndIndex
      → Option (Result CodecError (List V0MessageAndIndex) × ℕ)
  parse_v0_loop zero payload offset messages = none
  parse_v0_loop (suc fuel) [] offset messages = some (ok messages, offset)
  parse_v0_loop (suc fuel) (b ∷ bs) offset messages =
      let (result, read) = parse_v0_message_and_index (b ∷ bs) in
      elim result [
        | err no_message_data ↦ parse_v0_loop fuel (drop read (b ∷ bs)) (offset + read) messages
        | err e ↦ some (err e, offset)
        | ok message ↦
            parse_v0_loop fuel (drop read (b ∷ bs)) (offset + read) (messages ++ (message ∷ []))
      ]

  -- Each round reads at least 16 bytes, so the fuel does not run out.
  unfoldable pub parse_v0_message_and_indexes :
      Bytes → Result CodecError (List V0MessageAndIndex) × ℕ
  unfolding parse_v0_loop
  parse_v0_message_and_indexes payload = elim (parse_v0_loop (suc (length payload)) payload 0 []) [
    | none ↦ (err embedded_error, 0)
    | some result ↦ result
  ]

  unfoldable pub parse_v0_signature_and_messages : Bytes → Result CodecError V0SignatureAndMessages
  unfolding parse_v0_message_and_indexes
  parse_v0_signature_and_messages payload =
      let signature_length = get_uint64 payload in
      let offset = len_size + signature_length in
      let user_data = drop offset payload in
      if can_safely_read_elements (length payload) 0 len_size
      then err (not_enough_bytes_remaining (length payload) len_size)
      else if can_safely_read_elements (length payload) len_size signature_length
      then err (not_enough_bytes_remaining (length payload) (add64 len_size signature_length))
      else let (result, bytes_read) = parse_v0_message_and_indexes user_data in
        elim result [
          | err e ↦ err e
          | ok messages ↦
              if offset + bytes_read == length payload
              then ok (record {
                signature = take signature_length (drop len_size payload);
                hash = c.keccak256 user_data;
                messages = messages;
              })
              else err (encoded_byte_length_mismatch (offset + bytes_read) (length payload))
        ]
