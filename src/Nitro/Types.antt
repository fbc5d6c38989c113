-- ===== src/Nitro/Types.antt =====
-- The messages of nitro/nitro_types.go.
use espresso_streamers.Base.{ℕ, Option, List}
use espresso_streamers.Op.Batch.{Hash, Address}
use espresso_streamers.Nitro.Bytes.{Bytes}

pub record BatchDataStats : Type 0 where
  pub length : ℕ
  pub non_zeros : ℕ

-- `l1_base_fee` is a `*big.Int`, which is not negative.
pub record L1IncomingMessageHeader : Type 0 where
  pub kind : ℕ
  pub poster : Address
  pub block_number : ℕ
  pub timestamp : ℕ
  pub request_id : Option Hash
  pub l1_base_fee : Option ℕ

pub record L1IncomingMessage : Type 0 where
  pub header : Option L1IncomingMessageHeader
  pub l2msg : Bytes
  pub legacy_batch_gas_cost : Option ℕ
  pub batch_data_stats : Option BatchDataStats

pub record MessageWithMetadata : Type 0 where
  pub message : Option L1IncomingMessage
  pub delayed_messages_read : ℕ

pub record MessageWithMetadataAndPos : Type 0 where
  pub message_with_meta : MessageWithMetadata
  pub pos : ℕ
  pub hotshot_height : ℕ

pub record V0MessageAndIndex : Type 0 where
  pub pos : ℕ
  pub message : MessageWithMetadata

pub record V0SignatureAndMessages : Type 0 where
  pub signature : Bytes
  pub hash : Hash
  pub messages : List V0MessageAndIndex

pub record BroadcastFeedMessage : Type 0 where
  pub sequence_number : ℕ
  pub message : MessageWithMetadata
  pub signature : Bytes
  pub signature_v2 : Bytes
  pub block_metadata : Bytes
  pub cumulative_sum_msg_size : ℕ
  pub block_hash : Option Hash

pub record V1HeaderAndBroadcastFeedMessages : Type 0 where
  pub messages : List BroadcastFeedMessage
