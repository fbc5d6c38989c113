-- ===== src/Nitro/V1/RoundTrip.antt =====
-- Parsing what the version 1 encoders write gives back what was encoded.
use espresso_streamers.Base.{
  ℕ, zero, suc, ◌+◌, ◌^◌, ◌≤◌, ◌<◌, ◌≡◌, ◌∙◌, refl, ap, ap₂, Option, some, List, [], ◌∷◌, ◌++◌,
  length, take, drop, All, arith, Option-cases, inl, inr, ok, length-append, take-append,
  drop-append, append_assoc, append-nil,
}
use espresso_streamers.Nitro.Bytes.{
  Bytes, put_uint64, get_uint64, can_safely_read_elements, get_uint64-put_uint64, bytes_equal,
}
use espresso_streamers.Nitro.Types.{BroadcastFeedMessage, V1HeaderAndBroadcastFeedMessages}
use espresso_streamers.Nitro.Codec.{Codec}
use espresso_streamers.Nitro.V1.{
  v1_header, encode_embedded_json, parse_embedded_json, parse_v1_header, encode_v1_header,
  parse_v1_broadcast_feed_message, parse_v1_loop, parse_v1_broadcast_feed_messages,
  parse_v1_header_and_broadcast_feed_messages, encode_v1_broadcast_feed_message,
  encode_v1_broadcast_feed_messages, encode_v1_header_and_broadcast_messages,
}

-- A JSON codec decodes what it encodes for the value.
abbrev pub Decodes : {T : Type 0} → (T → Option Bytes) → (Bytes → Option T) → T → Type 0
Decodes marshal unmarshal value = (b : Bytes) → marshal value ≡ some b → unmarshal b ≡ some value

-- A value as it is written, in front of other bytes.
abbrev pub embedded : Bytes → Bytes → Bytes
embedded encoded rest = put_uint64 (length encoded) ++ (encoded ++ rest)

pub length-embedded :
    (encoded rest : Bytes) → length (embedded encoded rest) ≡ 8 + length encoded + length rest
unfolding put_uint64
length-embedded encoded rest = ground (arith, length-append encoded rest)

drop_length : (encoded rest : Bytes) → drop 8 (embedded encoded rest) ≡ encoded ++ rest
unfolding put_uint64
drop_length encoded rest = refl

drop-embedded : (encoded rest : Bytes) → drop (8 + length encoded) (embedded encoded rest) ≡ rest
unfolding put_uint64
drop-embedded encoded rest =
    let e : 8 + length encoded ≡ suc (suc (suc (suc (suc (suc (suc (suc (length encoded)))))))) =
      omega arith in
    rw e (drop-append encoded rest)

parse_of_parts :
    {T : Type 0} (unmarshal : Bytes → Option T) (payload : Bytes) (size : ℕ) (value : T)
    → get_uint64 payload ≡ size
    → unmarshal (take size (drop 8 payload)) ≡ some value
    → 8 + size ≤ length payload
    → length payload < 2 ^ 64
    → parse_embedded_json unmarshal payload ≡ (ok value, 8 + size)
unfolding parse_embedded_json can_safely_read_elements
parse_of_parts unmarshal payload size value s d fits room =
    let decoded : unmarshal (take (get_uint64 payload) (drop 8 payload)) ≡ some value = rw s d in
    ground (arith, s, decoded)

pub parse-embedded :
    {T : Type 0} (marshal : T → Option Bytes) (unmarshal : Bytes → Option T) (value : T)
    (encoded rest : Bytes)
    → Decodes marshal unmarshal value
    → marshal value ≡ some encoded
    → 8 + length encoded + length rest < 2 ^ 64
    → parse_embedded_json unmarshal (embedded encoded rest) ≡ (ok value, 8 + length encoded)
parse-embedded marshal unmarshal value encoded rest decodes e room =
    let whole = length-embedded encoded rest in
    let body = take-append encoded rest in
    let decoded : unmarshal (take (length encoded) (drop 8 (embedded encoded rest))) ≡ some value =
      rw (drop_length encoded rest, body) (decodes encoded e) in
    parse_of_parts unmarshal (embedded encoded rest) (length encoded) value
      (get_uint64-put_uint64 (length encoded) (encoded ++ rest) (omega arith)) decoded
      (omega (arith, whole)) (omega (arith, whole))

module _ (c : Codec) where
  loop_step :
      (payload : Bytes) (fuel offset : ℕ) (before : List BroadcastFeedMessage)
      (m : BroadcastFeedMessage) (read : ℕ)
      → 0 < length payload
      → parse_v1_broadcast_feed_message c payload ≡ (ok m, read)
      → parse_v1_loop c (suc fuel) payload offset before
        ≡ parse_v1_loop c fuel (drop read payload) (offset + read) (before ++ (m ∷ []))
  unfolding parse_v1_loop
  loop_step [] fuel offset before m read h e = absurd (omega arith)
  loop_step (b ∷ bs) fuel offset before m read h e = ground (arith, e)

  pub encoded_parts :
      (m : BroadcastFeedMessage) (ms : List BroadcastFeedMessage) (bytes : Bytes)
      → encode_v1_broadcast_feed_messages c (m ∷ ms) ≡ some bytes
      → (encoded : Bytes) × (rest : Bytes) × (c.json_marshal_message m ≡ some encoded)
        × (encode_v1_broadcast_feed_messages c ms ≡ some rest)
        × (bytes ≡ embedded encoded rest)
  unfolding encode_v1_broadcast_feed_messages encode_v1_broadcast_feed_message encode_embedded_json
      put_uint64
  encoded_parts m ms bytes e = elim (Option-cases (c.json_marshal_message m)) [
    | inl f ↦ absurd (ground (arith, e, f))
    | inr (encoded, f) ↦ elim (Option-cases (encode_v1_broadcast_feed_messages c ms)) [
      | inl g ↦ absurd (ground (arith, e, f, g))
      | inr (rest, g) ↦ (encoded, rest, f, g, ground (arith, e, f, g))
    ]
  ]

  loop_encoded :
      (ms : List BroadcastFeedMessage) (bytes : Bytes) (fuel offset : ℕ)
      (before : List BroadcastFeedMessage)
      → All (Decodes c.json_marshal_message c.json_unmarshal_message) ms
      → encode_v1_broadcast_feed_messages c ms ≡ some bytes
      → length bytes < 2 ^ 64
      → length bytes < fuel
      → parse_v1_loop c fuel bytes offset before ≡ some (ok (before ++ ms), offset + length bytes)
  unfolding encode_v1_broadcast_feed_messages parse_v1_loop parse_v1_broadcast_feed_message
  loop_encoded ms bytes zero offset before decodes e room enough = absurd (omega arith)
  loop_encoded [] bytes (suc fuel) offset before decodes e room enough =
      let empty : bytes ≡ [] = ground (arith, e) in
      let same : before ++ [] ≡ before = append-nil before in
      let zero_more : offset + 0 ≡ offset = omega arith in rw (empty, same, zero_more) refl
  loop_encoded (m ∷ ms) bytes (suc fuel) offset before (q, decodes) e room enough =
      let (encoded, rest, f, g, parts) = encoded_parts m ms bytes e in
      let whole = length-embedded encoded rest in
      let size : length bytes ≡ 8 + length encoded + length rest = ground (arith, parts, whole) in
      let one =
        loop_step (embedded encoded rest) fuel offset before m (8 + length encoded)
          (omega (arith, whole))
          (parse-embedded c.json_marshal_message c.json_unmarshal_message m encoded rest q f
            (omega (arith, size, room))) in
      let more =
        loop_encoded ms rest fuel (offset + (8 + length encoded)) (before ++ (m ∷ [])) decodes g
          (omega (arith, size, room)) (omega (arith, size, enough)) in
      let ends : offset + (8 + length encoded) + length rest ≡ offset + length bytes =
        omega (arith, size) in
      let joined : (before ++ (m ∷ [])) ++ ms ≡ before ++ (m ∷ ms) =
        append_assoc before (m ∷ []) ms in
      ap (λ b. parse_v1_loop c (suc fuel) b offset before) parts
      ∙ (one
          ∙ (ap (λ b. parse_v1_loop c fuel b (offset + (8 + length encoded)) (before ++ (m ∷ [])))
                (drop-embedded encoded rest)
              ∙ (more ∙ ap₂ (λ ns n. some (ok ns, n)) joined ends)))

  parse-header :
      (encoded rest : Bytes)
      → Decodes c.json_marshal_string c.json_unmarshal_string v1_header
      → c.json_marshal_string v1_header ≡ some encoded
      → 8 + length encoded + length rest < 2 ^ 64
      → parse_v1_header c (embedded encoded rest) ≡ (ok v1_header, 8 + length encoded)
  unfolding parse_v1_header bytes_equal
  parse-header encoded rest decodes e room = ground (
    arith,
    parse-embedded c.json_marshal_string c.json_unmarshal_string v1_header encoded rest decodes e
        room,
  )

  parts_parse :
      (payload rest : Bytes) (ms : List BroadcastFeedMessage) (n read : ℕ)
      → parse_v1_header c payload ≡ (ok v1_header, read)
      → drop read payload ≡ rest
      → parse_v1_loop c (suc (length rest)) rest 0 [] ≡ some (ok ms, n)
      → parse_v1_header_and_broadcast_feed_messages c payload
        ≡ (ok (record { messages = ms }), read + n)
  unfolding parse_v1_header_and_broadcast_feed_messages parse_v1_broadcast_feed_messages
  parts_parse payload rest ms n read h d l =
      let parsed : parse_v1_broadcast_feed_messages c (drop read payload) ≡ (ok ms, n) =
        rw d (ground (arith, l)) in
      ground (arith, h, parsed)

  -- Let JSON decode what it encodes for the header and the messages. What
  -- `encodeV1HeaderAndBroadcastMessages` writes, if it is shorter than 2^64 bytes,
  -- `parseV1HeaderAndBroadcastFeedMessages` parses to the same messages, and reads to the end.
  pub v1_round_trip :
      (m : V1HeaderAndBroadcastFeedMessages) (bytes : Bytes)
      → Decodes c.json_marshal_string c.json_unmarshal_string v1_header
      → All (Decodes c.json_marshal_message c.json_unmarshal_message) m.messages
      → encode_v1_header_and_broadcast_messages c m ≡ some bytes
      → length bytes < 2 ^ 64
      → parse_v1_header_and_broadcast_feed_messages c bytes ≡ (ok m, length bytes)
  unfolding encode_v1_header_and_broadcast_messages encode_v1_header encode_embedded_json put_uint64
  v1_round_trip m bytes strings values e room =
      elim (Option-cases (c.json_marshal_string v1_header)) [
        | inl f ↦ absurd (ground (arith, e, f))
        | inr (header, f) ↦ elim (Option-cases (encode_v1_broadcast_feed_messages c m.messages)) [
          | inl g ↦ absurd (ground (arith, e, f, g))
          | inr (rest, g) ↦
              let written : bytes ≡ embedded header rest = ground (arith, e, f, g) in
              let whole : length bytes ≡ 8 + length header + length rest =
                ground (arith, written, length-embedded header rest) in
              let looped =
                loop_encoded m.messages rest (suc (length rest)) 0 [] values g
                  (omega (arith, whole, room)) (omega arith) in
              let parsed =
                parts_parse (embedded header rest) rest m.messages (0 + length rest)
                  (8 + length header)
                  (parse-header header rest strings f (omega (arith, whole, room)))
                  (drop-embedded header rest) looped in
              let total : 8 + length header + (0 + length rest) ≡ length bytes =
                omega (arith, whole) in
              ap (λ b. parse_v1_header_and_broadcast_feed_messages c b) written
              ∙ (parsed ∙ ap (λ n. (ok m, n)) total)
        ]
      ]
