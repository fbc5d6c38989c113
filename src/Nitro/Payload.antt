-- ===== src/Nitro/Payload.antt =====
-- nitro/utils.go: building, signing, parsing and verifying payloads, and iterating over messages.
pub mod Build
pub mod Ambiguous
pub mod Verify
mod Tests
use espresso_streamers.Base.{
  ℕ, zero, suc, ◌+◌, Bool, true, false, not, Option, none, some, List, [], ◌∷◌, ◌++◌, ltb, leb,
  ◌==◌, if◌then◌else◌, length, get_elem?, Result, ok, err, add64,
}
use espresso_streamers.Op.Batch.{Hash, Address}
use espresso_streamers.Nitro.Bytes.{Bytes, put_uint64, len_size, index_size, has_prefix}
use espresso_streamers.Nitro.Types.{
  MessageWithMetadataAndPos, V0SignatureAndMessages, BroadcastFeedMessage,
  V1HeaderAndBroadcastFeedMessages,
}
use espresso_streamers.Nitro.Codec.{Codec, CodecError, unknown_message_format}
use espresso_streamers.Nitro.V0.{parse_v0_signature_and_messages}
use espresso_streamers.Nitro.V1.{parse_v1_header_and_broadcast_feed_messages}

abbrev pub max_attestation_quote_size : ℕ
max_attestation_quote_size = 4096

-- `BuildRawHotShotPayload` on the payload and the count so far; a fetch that fails ends the loop.
unfoldable pub build_loop : (ℕ → Option Bytes) → ℕ → List ℕ → Bytes → ℕ → Bytes × ℕ
build_loop msg_fetcher max_size [] payload msg_cnt = (payload, msg_cnt)
build_loop msg_fetcher max_size (p ∷ ps) payload msg_cnt = elim (msg_fetcher p) [
  | none ↦ (payload, msg_cnt)
  | some msg_bytes ↦
      let rest =
        build_loop msg_fetcher max_size ps
          (payload ++ (put_uint64 p ++ (put_uint64 (length msg_bytes) ++ msg_bytes)))
          (msg_cnt + 1) in
      if ltb max_size
        (length payload + len_size + length msg_bytes + index_size + max_attestation_quote_size)
      then (payload, msg_cnt)
      else rest
]

unfoldable pub build_raw_hot_shot_payload : List ℕ → (ℕ → Option Bytes) → ℕ → Bytes × ℕ
unfolding build_loop
build_raw_hot_shot_payload msg_positions msg_fetcher max_size =
    build_loop msg_fetcher max_size msg_positions [] 0

unfoldable pub sign_hot_shot_payload : Bytes → (Bytes → Option Bytes) → Option Bytes
sign_hot_shot_payload unsigned signer = elim (signer unsigned) [
  | none ↦ none
  | some quote ↦ some (put_uint64 (length quote) ++ (quote ++ unsigned))
]

-- The bytes of "Arbitrum Nitro Feed:".
abbrev pub preamble : Bytes
preamble =
    65 ∷ 114 ∷ 98 ∷ 105 ∷ 116 ∷ 114 ∷ 117 ∷ 109 ∷ 32 ∷ 78 ∷ 105 ∷ 116 ∷ 114 ∷ 111 ∷ 32 ∷ 70 ∷ 101
    ∷ 101 ∷ 100 ∷ 58 ∷ []

-- The errors of the hashes and of the verification, with what they report.
pub data VerifyError : Type 0 where
  missing_l1_incoming_message missing_l1_incoming_message_header :
      (message : BroadcastFeedMessage) (chain_id : ℕ) → VerifyError
  encoding_failed missing_sequencer_signature : (sequence_number : ℕ) → VerifyError
  no_public_key : VerifyError
  not_valid_for_l1_height : (address : Address) (l1_height : ℕ) → VerifyError

abbrev optional_bytes : {A : Type 0} → (A → Bytes) → Option A → Bytes
optional_bytes f none = []
optional_bytes f (some a) = f a

module _ (c : Codec) where
  unfoldable pub compute_broadcast_feed_message_hash_v2 :
      BroadcastFeedMessage → ℕ → Result VerifyError Hash
  compute_broadcast_feed_message_hash_v2 message chain_id = elim message.message.message [
    | none ↦ err (missing_l1_incoming_message message chain_id)
    | some l1_msg ↦ elim l1_msg.header [
      | none ↦ err (missing_l1_incoming_message_header message chain_id)
      | some header ↦ ok (
          c.keccak256 (
            preamble
            ++ (put_uint64 chain_id
                ++ (put_uint64 message.sequence_number
                    ++ (optional_bytes c.hash_bytes message.block_hash
                        ++ (message.block_metadata
                            ++ (put_uint64 message.message.delayed_messages_read
                                ++ (header.kind
                                    ∷ (c.address_bytes header.poster
                                        ++ (put_uint64 header.block_number
                                            ++ (put_uint64 header.timestamp
                                                ++ (optional_bytes c.hash_bytes header.request_id
                                                    ++ (optional_bytes c.big_bytes
                                                          header.l1_base_fee
                                                        ++ l1_msg.l2msg)))))))))))))
    ]
  ]

  unfoldable pub compute_broadcast_feed_message_hash :
      BroadcastFeedMessage → ℕ → Result VerifyError Hash
  compute_broadcast_feed_message_hash message chain_id = elim message.message.message [
    | none ↦ err (missing_l1_incoming_message message chain_id)
    | some l1_msg ↦ elim l1_msg.header [
      | none ↦ err (missing_l1_incoming_message_header message chain_id)
      | some header ↦ elim (c.rlp_encode_l1_message l1_msg) [
        | none ↦ err (encoding_failed message.sequence_number)
        | some encoded_message ↦ ok (
            c.keccak256 (
              preamble
              ++ (put_uint64 message.sequence_number
                  ++ (put_uint64 chain_id
                      ++ (put_uint64 message.message.delayed_messages_read ++ encoded_message)))))
      ]
    ]
  ]

  -- `SequencerSignatureAndHasher`.
  unfoldable pub sequencer_signature_and_hasher :
      BroadcastFeedMessage → Bytes × (BroadcastFeedMessage → ℕ → Result VerifyError Hash)
  sequencer_signature_and_hasher m =
      if ltb 0 (length m.signature)
      then (m.signature, compute_broadcast_feed_message_hash)
      else (m.signature_v2, compute_broadcast_feed_message_hash_v2)

  -- Recover the signer of a hash, and hold it against the validator.
  unfoldable pub verify_signer : (Address → ℕ → Bool) → ℕ → Hash → Bytes → Option VerifyError
  verify_signer is_valid l1_height hash signature = elim (c.sig_to_pub hash signature) [
    | none ↦ some no_public_key
    | some public_key ↦
        if not (is_valid (c.pubkey_to_address public_key) l1_height)
        then some (not_valid_for_l1_height (c.pubkey_to_address public_key) l1_height)
        else none
  ]

  unfoldable pub verify_v1_message :
      (Address → ℕ → Bool) → ℕ → ℕ → BroadcastFeedMessage → Option VerifyError
  verify_v1_message is_valid chain_id l1_height msg =
      let (signature, compute_hash) = sequencer_signature_and_hasher msg in
      if length signature == 0
      then some (missing_sequencer_signature msg.sequence_number)
      else elim (compute_hash msg chain_id) [
        | err e ↦ some e
        | ok hash ↦ verify_signer is_valid l1_height hash signature
      ]

  -- The loop of `VerifySignature` of V1: the messages that do not verify are dropped.
  unfoldable pub filter_verified :
      (Address → ℕ → Bool) → ℕ → ℕ → List BroadcastFeedMessage → List BroadcastFeedMessage
  filter_verified is_valid chain_id l1_height [] = []
  filter_verified is_valid chain_id l1_height (msg ∷ msgs) =
      elim (verify_v1_message is_valid chain_id l1_height msg) [
        | some e ↦ filter_verified is_valid chain_id l1_height msgs
        | none ↦ msg ∷ filter_verified is_valid chain_id l1_height msgs
      ]

-- The values of `SignatureVerifierAndMessageIterable`.
pub data Payload : Type 0 where
  v0 : V0SignatureAndMessages → Payload
  v1 : V1HeaderAndBroadcastFeedMessages → Payload

-- `VerifySignature`: the error, and the value after the call.
unfoldable pub verify_signature :
    Codec → (Address → ℕ → Bool) → ℕ → ℕ → Payload → Option VerifyError × Payload
unfolding filter_verified
verify_signature c is_valid chain_id l1_height (v0 m) =
    (verify_signer c is_valid l1_height m.hash m.signature, v0 m)
verify_signature c is_valid chain_id l1_height (v1 m) =
    (none, v1 (record { messages = filter_verified c is_valid chain_id l1_height m.messages }))

-- `v0MessageIterator` and `v1MessageIterator`.
pub record MessageIterator : Type 0 where
  pub message : Payload
  pub position : ℕ

unfoldable pub message_iterator : Payload → MessageIterator
message_iterator message = record { message = message; position = 0 }

-- The message at a position, with a hotshot height.
unfoldable pub message_at : Payload → ℕ → ℕ → Option MessageWithMetadataAndPos
message_at (v0 m) position height = elim (get_elem? m.messages position) [
  | none ↦ none
  | some msg ↦
      some (record { message_with_meta = msg.message; pos = msg.pos; hotshot_height = height })
]
message_at (v1 m) position height = elim (get_elem? m.messages position) [
  | none ↦ none
  | some msg ↦ some (record {
    message_with_meta = msg.message;
    pos = msg.sequence_number;
    hotshot_height = height;
  })
]

-- `NextMessage`.
unfoldable pub next_message :
    ℕ → MessageIterator → Option MessageWithMetadataAndPos × MessageIterator
unfolding message_at
next_message height i = elim (message_at i.message i.position height) [
  | none ↦ (none, i)
  | some msg ↦ (some msg, record i { position = i.position + 1 })
]

abbrev pub version1_header_peek : Bytes
version1_header_peek = 0 ∷ 0 ∷ 0 ∷ 0 ∷ 0 ∷ 0 ∷ 0 ∷ 4 ∷ 34 ∷ 86 ∷ 49 ∷ 34 ∷ []

abbrev pub version0_peek : Bytes
version0_peek = 0 ∷ 0 ∷ 0 ∷ 0 ∷ 0 ∷ 0 ∷ 0 ∷ 65 ∷ []

-- `ParseNitroMessagesFromHotShot`.
unfoldable pub parse_nitro_messages_from_hot_shot : Codec → Bytes → Result CodecError Payload
parse_nitro_messages_from_hot_shot c payload =
    if has_prefix payload version1_header_peek
    then elim (parse_v1_header_and_broadcast_feed_messages c payload).0 [
      | err e ↦ err e
      | ok m ↦ ok (v1 m)
    ]
    else if has_prefix payload version0_peek
    then elim (parse_v0_signature_and_messages c payload) [ err e ↦ err e | ok m ↦ ok (v0 m) ]
    else err unknown_message_format
