-- ===== src/Nitro/V0/RoundTrip.antt =====
-- Parsing what the version 0 encoders write gives back what was encoded.
use espresso_streamers.Base.{
  ℕ, zero, suc, ◌+◌, ◌^◌, ◌≤◌, ◌<◌, ◌≡◌, inl, inr, refl, some, List, [], ◌∷◌, ◌++◌, length, take,
  drop, All, arith, Option-cases, ok, length-append, take-append, drop-append, append_assoc,
  append-nil, ap, ap₂, ◌∙◌,
}
use espresso_streamers.Nitro.Bytes.{
  Bytes, put_uint64, get_uint64, can_safely_read_elements, get_uint64-put_uint64,
}
use espresso_streamers.Nitro.Types.{V0MessageAndIndex, V0SignatureAndMessages, MessageWithMetadata}
use espresso_streamers.Nitro.Codec.{Codec}
use espresso_streamers.Nitro.V0.{
  encode_v0_message_and_index, encode_v0_message_and_indexes, encode_v0_signature_and_messages,
  parse_v0_message_and_index, parse_v0_loop, parse_v0_message_and_indexes,
  parse_v0_signature_and_messages,
}
use espresso_streamers.Nitro.V0.Frames.{
  framed, length-framed, drop_header, drop_headers, drop-framed,
}

-- RLP decodes what it encodes for the message, and encodes it as some bytes.
abbrev pub IsFaithful : Codec → MessageWithMetadata → Type 0
IsFaithful c m = (b : Bytes) → c.rlp_encode m ≡ some b → (c.rlp_decode b ≡ some m) × (0 < length b)

abbrev pub AreFaithful : Codec → List V0MessageAndIndex → Type 0
AreFaithful c ms = All (λ m. IsFaithful c m.message) ms

module _ (c : Codec) where
  parse_of_parts :
      (payload : Bytes) (pos size : ℕ) (message : MessageWithMetadata)
      → get_uint64 payload ≡ pos
      → get_uint64 (drop 8 payload) ≡ size
      → c.rlp_decode (take size (drop 16 payload)) ≡ some message
      → 0 < size
      → 16 + size ≤ length payload
      → length payload < 2 ^ 64
      → parse_v0_message_and_index c payload
        ≡ (ok (record { pos = pos; message = message }), 16 + size)
  unfolding parse_v0_message_and_index can_safely_read_elements
  parse_of_parts payload pos size message p s d nonempty fits room =
      let decoded : c.rlp_decode (take (get_uint64 (drop 8 payload)) (drop 16 payload))
          ≡ some message =
        rw s d in
      ground (arith, p, s, decoded)

  parse_framed :
      (m : V0MessageAndIndex) (encoded rest : Bytes)
      → IsFaithful c m.message
      → c.rlp_encode m.message ≡ some encoded
      → m.pos < 2 ^ 64
      → 16 + length encoded + length rest < 2 ^ 64
      → parse_v0_message_and_index c (framed m.pos encoded rest) ≡ (ok m, 16 + length encoded)
  parse_framed m encoded rest faithful e lt room =
      let (d, nonempty) = faithful encoded e in
      let whole = length-framed m.pos encoded rest in
      let body = take-append encoded rest in
      let decoded : c.rlp_decode (take (length encoded) (drop 16 (framed m.pos encoded rest)))
          ≡ some m.message =
        rw (drop_headers m.pos encoded rest, body) d in
      let size : get_uint64 (drop 8 (framed m.pos encoded rest)) ≡ length encoded =
        rw (drop_header m.pos encoded rest)
          (get_uint64-put_uint64 (length encoded) (encoded ++ rest) (omega arith)) in
      parse_of_parts (framed m.pos encoded rest) m.pos (length encoded) m.message
        (get_uint64-put_uint64 m.pos (put_uint64 (length encoded) ++ (encoded ++ rest)) lt) size
        decoded nonempty (omega (arith, whole)) (omega (arith, whole))

  loop_step :
      (payload : Bytes) (fuel offset : ℕ) (before : List V0MessageAndIndex) (m : V0MessageAndIndex)
      (read : ℕ)
      → 0 < length payload
      → parse_v0_message_and_index c payload ≡ (ok m, read)
      → parse_v0_loop c (suc fuel) payload offset before
        ≡ parse_v0_loop c fuel (drop read payload) (offset + read) (before ++ (m ∷ []))
  unfolding parse_v0_loop
  loop_step [] fuel offset before m read h e = absurd (omega arith)
  loop_step (b ∷ bs) fuel offset before m read h e = ground (arith, e)

  -- What the encoding of a list that is not empty is made of.
  encoded_parts :
      (m : V0MessageAndIndex) (ms : List V0MessageAndIndex) (bytes : Bytes)
      → encode_v0_message_and_indexes c (m ∷ ms) ≡ some bytes
      → (encoded : Bytes) × (rest : Bytes) × (c.rlp_encode m.message ≡ some encoded)
        × (encode_v0_message_and_indexes c ms ≡ some rest)
        × (bytes ≡ framed m.pos encoded rest)
  unfolding encode_v0_message_and_indexes encode_v0_message_and_index put_uint64
  encoded_parts m ms bytes e = elim (Option-cases (c.rlp_encode m.message)) [
    | inl f ↦ absurd (ground (arith, e, f))
    | inr (encoded, f) ↦ elim (Option-cases (encode_v0_message_and_indexes c ms)) [
      | inl g ↦ absurd (ground (arith, e, f, g))
      | inr (rest, g) ↦ (encoded, rest, f, g, ground (arith, e, f, g))
    ]
  ]

  abbrev pub HasPositions : List V0MessageAndIndex → Type 0
  HasPositions ms = All (λ m. m.pos < 2 ^ 64) ms

  loop_encoded :
      (ms : List V0MessageAndIndex) (bytes : Bytes) (fuel offset : ℕ)
      (before : List V0MessageAndIndex)
      → AreFaithful c ms
      → encode_v0_message_and_indexes c ms ≡ some bytes
      → HasPositions ms
      → length bytes < 2 ^ 64
      → length bytes < fuel
      → parse_v0_loop c fuel bytes offset before ≡ some (ok (before ++ ms), offset + length bytes)
  unfolding encode_v0_message_and_indexes parse_v0_loop
  loop_encoded ms bytes zero offset before faithful e h room enough = absurd (omega arith)
  loop_encoded [] bytes (suc fuel) offset before faithful e h room enough =
      let empty : bytes ≡ [] = ground (arith, e) in
      let same : before ++ [] ≡ before = append-nil before in
      let zero_more : offset + 0 ≡ offset = omega arith in rw (empty, same, zero_more) refl
  loop_encoded (m ∷ ms) bytes (suc fuel) offset before (q, faithful) e (p, h) room enough =
      let (encoded, rest, f, g, parts) = encoded_parts m ms bytes e in
      let whole = length-framed m.pos encoded rest in
      let size : length bytes ≡ 16 + length encoded + length rest = ground (arith, parts, whole) in
      let one =
        loop_step (framed m.pos encoded rest) fuel offset before m (16 + length encoded)
          (omega (arith, whole)) (parse_framed m encoded rest q f p (omega (arith, size, room))) in
      let more =
        loop_encoded ms rest fuel (offset + (16 + length encoded)) (before ++ (m ∷ [])) faithful g h
          (omega (arith, size, room)) (omega (arith, size, enough)) in
      let ends : offset + (16 + length encoded) + length rest ≡ offset + length bytes =
        omega (arith, size) in
      let joined : (before ++ (m ∷ [])) ++ ms ≡ before ++ (m ∷ ms) =
        append_assoc before (m ∷ []) ms in
      let dropped = drop-framed m.pos encoded rest in
      ap (λ b. parse_v0_loop c (suc fuel) b offset before) parts
      ∙ (one
          ∙ (ap (λ b. parse_v0_loop c fuel b (offset + (16 + length encoded)) (before ++ (m ∷ [])))
                dropped
              ∙ (more ∙ ap₂ (λ ns n. some (ok ns, n)) joined ends)))

  parse_of_sections :
      (payload : Bytes) (size n : ℕ) (signature user_data : Bytes) (ms : List V0MessageAndIndex)
      → get_uint64 payload ≡ size
      → take size (drop 8 payload) ≡ signature
      → drop (8 + size) payload ≡ user_data
      → parse_v0_message_and_indexes c user_data ≡ (ok ms, n)
      → 8 + size + n ≡ length payload
      → length payload < 2 ^ 64
      → parse_v0_signature_and_messages c payload
        ≡ ok (record { signature = signature; hash = c.keccak256 user_data; messages = ms })
  unfolding parse_v0_signature_and_messages can_safely_read_elements
  parse_of_sections payload size n signature user_data ms s t u p whole room =
      let user : drop (8 + get_uint64 payload) payload ≡ user_data = rw s u in
      let parsed : parse_v0_message_and_indexes c (drop (8 + get_uint64 payload) payload)
          ≡ (ok ms, n) =
        rw user p in
      let signed : take (get_uint64 payload) (drop 8 payload) ≡ signature = rw s t in
      ground (arith, s, parsed, signed, user, whole, room)

  -- Let RLP decode what it encodes for the messages. What `encodeV0SignatureAndMessages` writes for messages whose
  -- positions are uint64, if it is shorter than 2^64 bytes, `parseV0SignatureAndMessages` parses to
  -- the same signature and messages, with the hash of the encoded messages.
  pub v0_round_trip :
      (m : V0SignatureAndMessages) (bytes : Bytes)
      → AreFaithful c m.messages
      → HasPositions m.messages
      → encode_v0_signature_and_messages c m ≡ some bytes
      → length bytes < 2 ^ 64
      → (user_data : Bytes) × (encode_v0_message_and_indexes c m.messages ≡ some user_data)
        × (parse_v0_signature_and_messages c bytes ≡ ok (record m { hash = c.keccak256 user_data }))
  unfolding encode_v0_signature_and_messages parse_v0_message_and_indexes put_uint64
  v0_round_trip m bytes faithful h e room =
      elim (Option-cases (encode_v0_message_and_indexes c m.messages)) [
        | inl f ↦ absurd (ground (arith, e, f))
        | inr (user_data, f) ↦
            let size = length m.signature in
            let written : bytes ≡ put_uint64 size ++ (m.signature ++ user_data) =
              ground (arith, e, f) in
            let whole : length bytes ≡ 8 + size + length user_data =
              ground (arith, written, length-append m.signature user_data) in
            let looped =
              loop_encoded m.messages user_data (suc (length user_data)) 0 [] faithful f h
                (omega (arith, whole, room)) (omega arith) in
            let parsed : parse_v0_message_and_indexes c user_data
                ≡ (ok m.messages, length user_data) =
              ground (arith, looped) in
            let read : get_uint64 bytes ≡ size = rw written (
              get_uint64-put_uint64 size (m.signature ++ user_data) (omega (arith, whole, room))) in
            let eight : 8 + size ≡ suc (suc (suc (suc (suc (suc (suc (suc size))))))) =
              omega arith in
            let signed : take size (drop 8 bytes) ≡ m.signature =
              rw written (take-append m.signature user_data) in
            let rest : drop (8 + size) bytes ≡ user_data =
              rw (written, eight) (drop-append m.signature user_data) in
            (
              user_data,
              f,
              parse_of_sections bytes size (length user_data) m.signature user_data m.messages read
                  signed rest parsed (omega (arith, whole)) room,
            )
      ]
