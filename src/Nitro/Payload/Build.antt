-- ===== src/Nitro/Payload/Build.antt =====
-- What is built and signed is what is parsed.
use espresso_streamers.Base.{
  ℕ, zero, suc, ◌+◌, ◌^◌, ◌≤◌, ◌<◌, ◌≡◌, ◌⊎◌, inl, inr, refl, Option, some, List, [], ◌∷◌, ◌++◌,
  ltb, length, take, map, All, arith, Option-cases, Bool-cases, ok, append-nil, append_assoc,
  length-append,
}
use espresso_streamers.Nitro.Bytes.{Bytes, put_uint64, has_prefix}
use espresso_streamers.Nitro.Types.{V0MessageAndIndex, V0SignatureAndMessages, MessageWithMetadata}
use espresso_streamers.Nitro.Codec.{Codec}
use espresso_streamers.Nitro.V0.{
  encode_v0_message_and_index, encode_v0_message_and_indexes, encode_v0_signature_and_messages,
  parse_v0_signature_and_messages,
}
use espresso_streamers.Nitro.V0.RoundTrip.{IsFaithful, AreFaithful, HasPositions, v0_round_trip}
use espresso_streamers.Nitro.Payload.{
  v0, build_loop, build_raw_hot_shot_payload, sign_hot_shot_payload,
  parse_nitro_messages_from_hot_shot, max_attestation_quote_size,
}

module _ (c : Codec) (messages : ℕ → MessageWithMetadata) where
  -- The message of a position.
  abbrev pub indexed : ℕ → V0MessageAndIndex
  indexed p = record { pos = p; message = messages p }

  -- The fetcher of a store that holds the encoded messages.
  abbrev pub fetcher : ℕ → Option Bytes
  fetcher p = c.rlp_encode (messages p)

  -- A payload of the first messages: it is the encoding of as many messages as are counted, and,
  -- if there is one, a quote still fits.
  pub record Built (max_size : ℕ) (ps : List ℕ) (r : Bytes × ℕ) : Type 0 where
    pub encoded : encode_v0_message_and_indexes c (map indexed (take r.1 ps)) ≡ some r.0
    pub counted : r.1 ≤ length ps
    pub fits : (r.1 ≡ 0) ⊎ (length r.0 + max_attestation_quote_size ≤ max_size)

  length-chunk :
      (p : ℕ) (b : Bytes) → length (put_uint64 p ++ (put_uint64 (length b) ++ b)) ≡ 16 + length b
  unfolding put_uint64
  length-chunk p b = omega arith

  nothing_encoded :
      (k : ℕ) (ps : List ℕ) (more : Bytes)
      → encode_v0_message_and_indexes c (map indexed (take k ps)) ≡ some more
      → k ≡ 0
      → length more ≡ 0
  unfolding encode_v0_message_and_indexes
  nothing_encoded zero ps more e z = let f : more ≡ [] = ground (arith, e) in rw f refl
  nothing_encoded (suc k) ps more e z = absurd (omega arith)

  build_loop-Built :
      (max_size : ℕ) (ps : List ℕ) (before : Bytes) (cnt : ℕ)
      → (more : Bytes) × (k : ℕ) × (build_loop fetcher max_size ps before cnt
          ≡ (before ++ more, cnt + k))
        × (encode_v0_message_and_indexes c (map indexed (take k ps)) ≡ some more)
        × (k ≤ length ps)
        × ((k ≡ 0) ⊎ (length (before ++ more) + max_attestation_quote_size ≤ max_size))
  unfolding build_loop encode_v0_message_and_indexes encode_v0_message_and_index
  build_loop-Built max_size [] before cnt =
      let same : before ++ [] ≡ before = append-nil before in
      ([], 0, ground (arith, same), refl, omega arith, inl refl)
  build_loop-Built max_size (p ∷ ps) before cnt =
      let same : before ++ [] ≡ before = append-nil before in
      elim (Option-cases (fetcher p)) [
        | inl f ↦ ([], 0, ground (arith, f, same), refl, omega arith, inl refl)
        | inr (b, f) ↦ elim (Bool-cases (ltb max_size (length before + 8 + length b + 8 + 4096))) [
          | inl t ↦ ([], 0, ground (arith, f, same, t), refl, omega arith, inl refl)
          | inr t ↦
              let chunk = put_uint64 p ++ (put_uint64 (length b) ++ b) in
              let (more, k, built, encoded, counted, fits) =
                build_loop-Built max_size ps (before ++ chunk) (cnt + 1) in
              let joined : (before ++ chunk) ++ more ≡ before ++ (chunk ++ more) =
                append_assoc before chunk more in
              let total : cnt + 1 + k ≡ cnt + suc k = omega arith in
              let size : length (before ++ chunk) ≡ length before + 16 + length b =
                ground (arith, length-append before chunk, length-chunk p b) in
              let whole : length (before ++ (chunk ++ more))
                  ≡ length (before ++ chunk) + length more =
                rw (← joined) (length-append (before ++ chunk) more) in
              (
                chunk ++ more,
                suc k,
                ground (arith, f, t, built, joined, total),
                ground (arith, f, encoded),
                omega (arith, counted),
                inr (
                    ground (
                      arith,
                      t,
                      size,
                      whole,
                      rw joined at fits,
                      nothing_encoded k ps more encoded,
                    )),
              )
        ]
      ]

  -- `BuildRawHotShotPayload` over a store of encoded messages writes the encoding of as many of the
  -- first messages as it counts; if it counts one, an attestation quote of 4096 bytes fits behind
  -- them into the maximal size.
  pub build-Built :
      (max_size : ℕ) (ps : List ℕ)
      → Built max_size ps (build_raw_hot_shot_payload ps fetcher max_size)
  unfolding build_raw_hot_shot_payload
  build-Built max_size ps =
      let (more, k, built, encoded, counted, fits) = build_loop-Built max_size ps [] 0 in
      let whole : build_raw_hot_shot_payload ps fetcher max_size ≡ (more, k) =
        ground (arith, built) in
      rw whole (record { encoded = encoded; counted = counted; fits = fits })

  positions_taken :
      (k : ℕ) (ps : List ℕ) → All (λ p. p < 2 ^ 64) ps → HasPositions c (map indexed (take k ps))
  positions_taken zero ps h = tt
  positions_taken (suc k) [] h = tt
  positions_taken (suc k) (p ∷ ps) (q, h) = (q, positions_taken k ps h)

  faithful_taken :
      (k : ℕ) (ps : List ℕ)
      → All (λ p. IsFaithful c (messages p)) ps
      → AreFaithful c (map indexed (take k ps))
  faithful_taken zero ps h = tt
  faithful_taken (suc k) [] h = tt
  faithful_taken (suc k) (p ∷ ps) (q, h) = (q, faithful_taken k ps h)

  is_version0 :
      (size : ℕ) (rest : Bytes) (m : V0SignatureAndMessages)
      → size ≡ 65
      → parse_v0_signature_and_messages c (put_uint64 size ++ rest) ≡ ok m
      → parse_nitro_messages_from_hot_shot c (put_uint64 size ++ rest) ≡ ok (v0 m)
  unfolding parse_nitro_messages_from_hot_shot put_uint64 has_prefix
  is_version0 size rest m e f =
      let g : parse_v0_signature_and_messages c (put_uint64 65 ++ rest) ≡ ok m = rw e at f in
      rw e (ground (arith, g))

  -- Let RLP decode what it encodes for the messages, and let the positions be uint64. A payload that is built over a
  -- store of encoded messages and signed with a signature of 65 bytes, if it is shorter than 2^64
  -- bytes, `ParseNitroMessagesFromHotShot` takes for version 0 and parses to that signature, the
  -- hash of the unsigned payload, and as many of the first messages as the builder has counted.
  pub parse-sign-build :
      (max_size : ℕ) (ps : List ℕ) (signer : Bytes → Option Bytes) (quote bytes : Bytes)
      → All (λ p. IsFaithful c (messages p)) ps
      → All (λ p. p < 2 ^ 64) ps
      → signer (build_raw_hot_shot_payload ps fetcher max_size).0 ≡ some quote
      → length quote ≡ 65
      → sign_hot_shot_payload (build_raw_hot_shot_payload ps fetcher max_size).0 signer ≡ some bytes
      → length bytes < 2 ^ 64
      → parse_nitro_messages_from_hot_shot c bytes
        ≡ ok (
            v0 (record {
              signature = quote;
              hash = c.keccak256 (build_raw_hot_shot_payload ps fetcher max_size).0;
              messages = map indexed (take (build_raw_hot_shot_payload ps fetcher max_size).1 ps);
            }))
  unfolding sign_hot_shot_payload encode_v0_signature_and_messages
  parse-sign-build max_size ps signer quote bytes faithful positions s size signed room =
      let unsigned = (build_raw_hot_shot_payload ps fetcher max_size).0 in
      let k = (build_raw_hot_shot_payload ps fetcher max_size).1 in
      let b = build-Built max_size ps in
      let m : V0SignatureAndMessages = record {
        signature = quote;
        hash = c.keccak256 unsigned;
        messages = map indexed (take k ps);
      } in
      let written : bytes ≡ put_uint64 (length quote) ++ (quote ++ unsigned) =
        ground (arith, s, signed) in
      let encoded : encode_v0_signature_and_messages c m ≡ some bytes =
        ground (arith, b.encoded, written) in
      let (user_data, e, parsed) =
        v0_round_trip c m bytes (faithful_taken k ps faithful) (positions_taken k ps positions)
          encoded room in
      let same : user_data ≡ unsigned = ground (arith, e, b.encoded) in
      let parsed' : parse_v0_signature_and_messages c
            (put_uint64 (length quote) ++ (quote ++ unsigned))
          ≡ ok m =
        rw same at (rw written at parsed) in
      rw written (is_version0 (length quote) (quote ++ unsigned) m size parsed')
