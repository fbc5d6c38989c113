-- ===== src/Nitro/Binary/Laws.antt =====
-- `UnmarshalBinary` stores what `MarshalBinary` was called on.
use espresso_streamers.Base.{
  ◌+◌, ◌^◌, ◌<◌, ◌≡◌, sym, ap, ◌∙◌, none, some, [], ◌∷◌, ◌++◌, append-nil, length, All, arith,
}
use espresso_streamers.Nitro.Bytes.{Bytes}
use espresso_streamers.Nitro.Types.{
  BroadcastFeedMessage, V0SignatureAndMessages, V1HeaderAndBroadcastFeedMessages,
}
use espresso_streamers.Nitro.Codec.{Codec}
use espresso_streamers.Nitro.V0.{encode_v0_message_and_indexes}
use espresso_streamers.Nitro.V0.RoundTrip.{AreFaithful, HasPositions, v0_round_trip}
use espresso_streamers.Nitro.V1.{
  v1_header, encode_v1_broadcast_feed_messages, parse_v1_broadcast_feed_message,
}
use espresso_streamers.Nitro.V1.RoundTrip.{
  Decodes, embedded, length-embedded, parse-embedded, encoded_parts, v1_round_trip,
}
use espresso_streamers.Nitro.Binary.{
  marshal_signature_and_messages, marshal_header_and_messages, unmarshal_signature_and_messages,
  unmarshal_header_and_messages, marshal_broadcast_feed_message, unmarshal_broadcast_feed_message,
}

module _ (c : Codec) where
  -- Whatever the receiver held, it holds the signature and the messages afterwards, with the hash of
  -- the encoded messages.
  pub unmarshal-marshal_v0 :
      (m old : V0SignatureAndMessages) (bytes : Bytes)
      → AreFaithful c m.messages
      → HasPositions c m.messages
      → marshal_signature_and_messages c m ≡ some bytes
      → length bytes < 2 ^ 64
      → (user_data : Bytes) × (encode_v0_message_and_indexes c m.messages ≡ some user_data)
        × (unmarshal_signature_and_messages c old bytes
            ≡ (none, record m { hash = c.keccak256 user_data }))
  unfolding marshal_signature_and_messages unmarshal_signature_and_messages
  unmarshal-marshal_v0 m old bytes faithful positions e room =
      let (user_data, f, g) = v0_round_trip c m bytes faithful positions e room in
      (user_data, f, ground (arith, g))

  -- Whatever the receiver held, it holds the messages afterwards.
  pub unmarshal-marshal_v1 :
      (m old : V1HeaderAndBroadcastFeedMessages) (bytes : Bytes)
      → Decodes c.json_marshal_string c.json_unmarshal_string v1_header
      → All (Decodes c.json_marshal_message c.json_unmarshal_message) m.messages
      → marshal_header_and_messages c m ≡ some bytes
      → length bytes < 2 ^ 64
      → unmarshal_header_and_messages c old bytes ≡ (none, m)
  unfolding marshal_header_and_messages unmarshal_header_and_messages
  unmarshal-marshal_v1 m old bytes strings values e room =
      let g = v1_round_trip c m bytes strings values e room in ground (arith, g)

  single_encoded :
      (m : BroadcastFeedMessage) (bytes : Bytes)
      → marshal_broadcast_feed_message c m ≡ some bytes
      → encode_v1_broadcast_feed_messages c (m ∷ []) ≡ some (bytes ++ [])
  unfolding marshal_broadcast_feed_message encode_v1_broadcast_feed_messages
  single_encoded m bytes e = ground (arith, e)

  -- Whatever the receiver held, and whatever the JSON decoder leaves when it fails, it holds the
  -- message afterwards.
  pub unmarshal-marshal_message :
      (left : Bytes → BroadcastFeedMessage) (m old : BroadcastFeedMessage) (bytes : Bytes)
      → Decodes c.json_marshal_message c.json_unmarshal_message m
      → marshal_broadcast_feed_message c m ≡ some bytes
      → length bytes < 2 ^ 64
      → unmarshal_broadcast_feed_message c left old bytes ≡ (none, m)
  unfolding unmarshal_broadcast_feed_message parse_v1_broadcast_feed_message
  unmarshal-marshal_message left m old bytes decodes e room =
      let (encoded, rest, f, _, parts) =
        encoded_parts c m [] (bytes ++ []) (single_encoded m bytes e) in
      let whole : bytes ≡ embedded encoded rest = sym (append-nil bytes) ∙ parts in
      let fits : 8 + length encoded + length rest < 2 ^ 64 =
        omega (arith, room, ap length whole, length-embedded encoded rest) in
      let parsed =
        parse-embedded c.json_marshal_message c.json_unmarshal_message m encoded rest decodes f
          fits in
      rw whole (ground (arith, parsed))
