-- ===== src/Nitro/Streamer/Authentic.antt =====
-- Which messages get into the map of the nitro streamer: signed ones.
use espresso_streamers.Base.{
  ℕ, ◌≡◌, inl, inr, refl, Bool, true, none, some, List, get_elem?, All, All-get_elem?, arith,
  Bool-cases, Option-cases, ok,
}
use espresso_streamers.Op.Batch.{Address}
use espresso_streamers.Nitro.Bytes.{Bytes}
use espresso_streamers.Nitro.Types.{
  MessageWithMetadataAndPos, V0SignatureAndMessages, V0MessageAndIndex, BroadcastFeedMessage,
}
use espresso_streamers.Nitro.Codec.{Codec}
use espresso_streamers.Nitro.V0.{parse_v0_signature_and_messages}
use espresso_streamers.Nitro.Payload.{
  Payload, v0, v1, message_at, verify_signature, verify_signer, parse_nitro_messages_from_hot_shot,
  version1_header_peek, version0_peek, filter_verified,
}
use espresso_streamers.Nitro.Payload.Verify.{IsSigned, filter-IsSigned}
use espresso_streamers.Nitro.Streamer.Queue.{Entry}
use espresso_streamers.Nitro.Streamer.Reading.{Result-cases}
use espresso_streamers.Nitro.V1.{parse_v1_header_and_broadcast_feed_messages}
use espresso_streamers.Nitro.Bytes.{has_prefix}

-- A transaction of version 0 whose signature recovers the key of a valid address from the hash of
-- its messages, one of which is the entry's; or a signed message of version 1, which is the entry's.
pub data IsAuthentic (c : Codec) (valid : Address → ℕ → Bool) (chain_id : ℕ) (x : Entry)
    : Type 0 where
  by_v0 :
      (tx : Bytes) (m : V0SignatureAndMessages) (i l1_height : ℕ) (msg : V0MessageAndIndex)
      (key : c.PublicKey)
      → parse_v0_signature_and_messages c tx ≡ ok m
      → c.sig_to_pub m.hash m.signature ≡ some key
      → valid (c.pubkey_to_address key) l1_height ≡ true
      → get_elem? m.messages i ≡ some msg
      → x.0 ≡ msg.pos
      → x.1.message_with_meta ≡ msg.message
      → IsAuthentic c valid chain_id x
  by_v1 :
      (msg : BroadcastFeedMessage) (l1_height : ℕ)
      → IsSigned c valid chain_id l1_height msg
      → x.0 ≡ msg.sequence_number
      → x.1.message_with_meta ≡ msg.message
      → IsAuthentic c valid chain_id x

module _ (c : Codec) (valid : Address → ℕ → Bool) (chain_id : ℕ) where
  -- Whatever the iterator over a payload yields is authentic.
  abbrev pub Supplies : Payload → Type 0
  Supplies m =
      (position height : ℕ) (msg : MessageWithMetadataAndPos)
      → message_at m position height ≡ some msg
      → IsAuthentic c valid chain_id (msg.pos, msg)

  -- The height of an entry does not matter.
  pub IsAuthentic-height :
      (key h : ℕ) (msg : MessageWithMetadataAndPos)
      → IsAuthentic c valid chain_id (key, msg)
      → IsAuthentic c valid chain_id (key, record msg { hotshot_height = h })
  IsAuthentic-height key h msg (by_v0 tx m i l1 x k p r v g e1 e2) =
      by_v0 tx m i l1 x k p r v g e1 e2
  IsAuthentic-height key h msg (by_v1 m l1 s e1 e2) = by_v1 m l1 s e1 e2

  v0-Supplies :
      (tx : Bytes) (m : V0SignatureAndMessages) (l1_height : ℕ) (key : c.PublicKey)
      → parse_v0_signature_and_messages c tx ≡ ok m
      → c.sig_to_pub m.hash m.signature ≡ some key
      → valid (c.pubkey_to_address key) l1_height ≡ true
      → Supplies (v0 m)
  unfolding message_at
  v0-Supplies tx m l1_height key p r v position height msg e =
      elim (Option-cases (get_elem? m.messages position)) [
        | inl f ↦ absurd (ground (arith, e, f))
        | inr (x, f) ↦
            let g : msg
                ≡ record { message_with_meta = x.message; pos = x.pos; hotshot_height = height } =
              ground (arith, e, f) in
            rw g (by_v0 tx m position l1_height x key p r v f refl refl)
      ]

  v1-Supplies :
      (ms : List BroadcastFeedMessage) (l1_height : ℕ)
      → All (IsSigned c valid chain_id l1_height) ms
      → Supplies (v1 (record { messages = ms }))
  unfolding message_at
  v1-Supplies ms l1_height s position height msg e = elim (Option-cases (get_elem? ms position)) [
    | inl f ↦ absurd (ground (arith, e, f))
    | inr (x, f) ↦
        let g : msg ≡ record {
          message_with_meta = x.message;
          pos = x.sequence_number;
          hotshot_height = height;
        } =
          ground (arith, e, f) in
        rw g (
          by_v1 x l1_height (All-get_elem? (IsSigned c valid chain_id l1_height) ms position s f)
            refl refl)
  ]

  verified_signer :
      (l1_height hash : ℕ) (signature : Bytes)
      → verify_signer c valid l1_height hash signature ≡ none
      → (key : c.PublicKey) × (c.sig_to_pub hash signature ≡ some key)
        × (valid (c.pubkey_to_address key) l1_height ≡ true)
  unfolding verify_signer
  verified_signer l1_height hash signature e = elim (Option-cases (c.sig_to_pub hash signature)) [
    | inl f ↦ absurd (ground (arith, e, f))
    | inr (key, f) ↦ (key, f, ground (arith, e, f))
  ]

  parsed_v0 :
      (tx : Bytes) (m : V0SignatureAndMessages)
      → parse_nitro_messages_from_hot_shot c tx ≡ ok (v0 m)
      → parse_v0_signature_and_messages c tx ≡ ok m
  unfolding parse_nitro_messages_from_hot_shot
  parsed_v0 tx m e =
      let r1 = (parse_v1_header_and_broadcast_feed_messages c tx).0 in
      elim (Bool-cases (has_prefix tx version1_header_peek)) [
        | inl t ↦ elim (Result-cases r1) [
          | inl (x, f) ↦ absurd (ground (arith, e, t, f))
          | inr (m', f) ↦ absurd (ground (arith, e, t, f))
        ]
        | inr t ↦ elim (Bool-cases (has_prefix tx version0_peek)) [
          | inl u ↦ elim (Result-cases (parse_v0_signature_and_messages c tx)) [
            | inl (x, f) ↦ absurd (ground (arith, e, t, u, f))
            | inr (m', f) ↦ ground (arith, e, t, u, f)
          ]
          | inr u ↦ absurd (ground (arith, e, t, u))
        ]
      ]

  -- What a payload holds once it has verified.
  pub verified-Supplies :
      (tx : Bytes) (m : Payload) (l1_height : ℕ)
      → parse_nitro_messages_from_hot_shot c tx ≡ ok m
      → (verify_signature c valid chain_id l1_height m).0 ≡ none
      → Supplies (verify_signature c valid chain_id l1_height m).1
  unfolding verify_signature
  verified-Supplies tx (v0 m) l1_height p e =
      let (key, r, v) = verified_signer l1_height m.hash m.signature e in
      v0-Supplies tx m l1_height key (parsed_v0 tx m p) r v
  verified-Supplies tx (v1 m) l1_height p e =
      v1-Supplies (filter_verified c valid chain_id l1_height m.messages) l1_height
        (filter-IsSigned c valid chain_id l1_height m.messages)
