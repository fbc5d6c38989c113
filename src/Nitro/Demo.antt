-- ===== src/Nitro/Demo.antt =====
-- A concrete client and codec for tests: RLP knows only messages without an L1 message, JSON the
-- sequence number; a signature is the address of its signer behind 64 zeros.
pub mod Faithful
use espresso_streamers.Base.{ℕ, zero, suc, ◌+◌, Option, none, some, List, [], ◌∷◌, ◌++◌}
use espresso_streamers.Nitro.Bytes.{Bytes}
use espresso_streamers.Nitro.Types.{MessageWithMetadata, BroadcastFeedMessage}
use espresso_streamers.Nitro.Codec.{Codec}
use espresso_streamers.Nitro.Streamer.{EspressoClient}

abbrev pub encode : MessageWithMetadata → Option Bytes
encode m = elim m.message [ none ↦ some (m.delayed_messages_read ∷ []) | some l1_message ↦ none ]

abbrev pub decode : Bytes → Option MessageWithMetadata
decode [] = none
decode (n ∷ ns) = some (record { message = none; delayed_messages_read = n })

abbrev pub json_decode : Bytes → Option BroadcastFeedMessage
json_decode [] = none
json_decode (n ∷ ns) = some (record {
  sequence_number = n;
  message = record { message = none; delayed_messages_read = 0 };
  signature = [];
  signature_v2 = [];
  block_metadata = [];
  cumulative_sum_msg_size = 0;
  block_hash = none;
})

abbrev pub demo_codec : Codec
demo_codec = record {
  PublicKey = ℕ;
  rlp_encode = encode;
  rlp_decode = decode;
  rlp_encode_l1_message = λ m. some m.l2msg;
  json_marshal_string = λ s. some (34 ∷ (s ++ (34 ∷ [])));
  json_unmarshal_string = λ s. none;
  json_marshal_message = λ m. some (m.sequence_number ∷ []);
  json_unmarshal_message = json_decode;
  keccak256 = λ b. 7;
  sig_to_pub = λ h b. some 9;
  pubkey_to_address = λ k. k;
  hash_bytes = λ h. h ∷ [];
  address_bytes = λ a. a ∷ [];
  big_bytes = λ n. n ∷ [];
}

abbrev zeros : ℕ → Bytes → Bytes
zeros zero rest = rest
zeros (suc n) rest = 0 ∷ zeros n rest

-- A payload of version 0: a signature of 65 bytes, and the messages 5 and 4 of one byte each.
abbrev pub demo_transaction : Bytes
demo_transaction =
    zeros 7 (65 ∷ zeros 65 (zeros 7 (5 ∷ zeros 7 (1 ∷ 3 ∷ zeros 7 (4 ∷ zeros 7 (1 ∷ 2 ∷ []))))))

-- Six blocks; every request is answered with the one transaction.
abbrev pub demo_client : EspressoClient
demo_client = record {
  Client = ℕ;
  fetch_latest_block_height = λ k. (some 6, k + 1);
  fetch_header_by_height = λ k n. (some (some 3), k + 1);
  fetch_namespace_transactions_in_range =
      λ k from to ns. (some ((demo_transaction ∷ []) ∷ []), k + 1);
}
