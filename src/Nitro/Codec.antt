-- ===== src/Nitro/Codec.antt =====
-- What the nitro package calls and does not implement: RLP, JSON, Keccak and secp256k1; and the
-- errors of its own codecs.
use espresso_streamers.Base.{ℕ, Option}
use espresso_streamers.Op.Batch.{Hash, Address}
use espresso_streamers.Nitro.Bytes.{Bytes}
use espresso_streamers.Nitro.Types.{MessageWithMetadata, L1IncomingMessage, BroadcastFeedMessage}

-- `none` is an error of the callee.
pub record Codec : Type 1 where
  pub PublicKey : Type 0
  -- `rlp.EncodeToBytes` and `rlp.DecodeBytes`
  pub rlp_encode : MessageWithMetadata → Option Bytes
  pub rlp_decode : Bytes → Option MessageWithMetadata
  pub rlp_encode_l1_message : L1IncomingMessage → Option Bytes
  -- `json.Marshal` and `json.Unmarshal`
  pub json_marshal_string : Bytes → Option Bytes
  pub json_unmarshal_string : Bytes → Option Bytes
  pub json_marshal_message : BroadcastFeedMessage → Option Bytes
  pub json_unmarshal_message : Bytes → Option BroadcastFeedMessage
  pub keccak256 : Bytes → Hash
  pub sig_to_pub : Hash → Bytes → Option PublicKey
  pub pubkey_to_address : PublicKey → Address
  -- `common.Hash` and `common.Address` as bytes, and `big.Int.Bytes`
  pub hash_bytes : Hash → Bytes
  pub address_bytes : Address → Bytes
  pub big_bytes : ℕ → Bytes

-- The errors of the codecs, with what the code has and what it wants.
pub data CodecError : Type 0 where
  not_enough_bytes_remaining encoded_byte_length_mismatch : (have want : ℕ) → CodecError
  version_mismatch : (have want : Bytes) → CodecError
  no_message_data unknown_message_format embedded_error : CodecError
