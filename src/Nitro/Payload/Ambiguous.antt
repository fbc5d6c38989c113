-- ===== src/Nitro/Payload/Ambiguous.antt =====
-- Messages of version 1 that share a signature: `ComputeBroadcastFeedMessageHashV2` puts fields that
-- may be absent, or of any length, one after the other without their lengths.
use espresso_streamers.Base.{ℕ, ◌≡◌, ◌≢◌, refl, ap, Bool, Option, none, some, [], ◌++◌, arith}
use espresso_streamers.Op.Batch.{Hash, Address}
use espresso_streamers.Nitro.Bytes.{Bytes}
use espresso_streamers.Nitro.Types.{
  BroadcastFeedMessage, L1IncomingMessage, L1IncomingMessageHeader,
}
use espresso_streamers.Nitro.Codec.{Codec}
use espresso_streamers.Nitro.Payload.{
  sequencer_signature_and_hasher, compute_broadcast_feed_message_hash_v2, verify_v1_message,
}

-- The message `m` with this header and these transactions.
abbrev pub with_content :
    BroadcastFeedMessage
    → L1IncomingMessage
    → L1IncomingMessageHeader
    → Bytes
    → BroadcastFeedMessage
with_content m l1_msg header l2msg = record m {
  message = record m.message {
    message = some (record l1_msg { header = some header; l2msg = l2msg });
  };
}

-- A signed message without a request id and a base fee whose transactions begin with 32 bytes.
abbrev pub original :
    Codec
    → BroadcastFeedMessage
    → L1IncomingMessage
    → L1IncomingMessageHeader
    → Hash
    → Bytes
    → BroadcastFeedMessage
original c m l1_msg header moved rest =
    with_content m l1_msg (record header { request_id = none; l1_base_fee = none })
      (c.hash_bytes moved ++ rest)

-- The same with these 32 bytes as its request id, and only the rest of the transactions.
abbrev pub forged :
    BroadcastFeedMessage
    → L1IncomingMessage
    → L1IncomingMessageHeader
    → Hash
    → Bytes
    → BroadcastFeedMessage
forged m l1_msg header moved rest =
    with_content m l1_msg (record header { request_id = some moved; l1_base_fee = none }) rest

hash_v2-forged :
    (c : Codec) (m : BroadcastFeedMessage) (l1_msg : L1IncomingMessage)
    (header : L1IncomingMessageHeader) (moved : Hash) (rest : Bytes) (chain_id : ℕ)
    → compute_broadcast_feed_message_hash_v2 c (forged m l1_msg header moved rest) chain_id
      ≡ compute_broadcast_feed_message_hash_v2 c (original c m l1_msg header moved rest) chain_id
unfolding compute_broadcast_feed_message_hash_v2
hash_v2-forged c m l1_msg header moved rest chain_id = refl

-- The request ids differ.
forged_differs :
    (c : Codec) (m : BroadcastFeedMessage) (l1_msg : L1IncomingMessage)
    (header : L1IncomingMessageHeader) (moved : Hash) (rest : Bytes)
    → forged m l1_msg header moved rest ≢ original c m l1_msg header moved rest
forged_differs c m l1_msg header moved rest = λ e. absurd (ground (arith, ap request_id_of e))
  where
    request_id_of : BroadcastFeedMessage → Option Hash
    request_id_of x = elim x.message.message [
      | none ↦ none
      | some l ↦ elim l.header [ none ↦ none | some h ↦ h.request_id ]
    ]

-- A message that carries only a signature over the second hash, without a request id and a base fee,
-- verifies exactly if another message verifies: the one in which the bytes of a hash at the front of
-- the transactions have become the request id.
pub verify-forged :
    (c : Codec) (m : BroadcastFeedMessage) (l1_msg : L1IncomingMessage)
    (header : L1IncomingMessageHeader) (moved : Hash) (rest : Bytes) (valid : Address → ℕ → Bool)
    (chain_id l1_height : ℕ)
    → m.signature ≡ []
    → (verify_v1_message c valid chain_id l1_height (forged m l1_msg header moved rest)
        ≡ verify_v1_message c valid chain_id l1_height (original c m l1_msg header moved rest))
      × (forged m l1_msg header moved rest ≢ original c m l1_msg header moved rest)
unfolding verify_v1_message sequencer_signature_and_hasher
verify-forged c m l1_msg header moved rest valid chain_id l1_height e = (
  ground (arith, e, hash_v2-forged c m l1_msg header moved rest chain_id),
  forged_differs c m l1_msg header moved rest,
)
