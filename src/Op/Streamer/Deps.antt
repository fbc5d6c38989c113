-- ===== src/Op/Streamer/Deps.antt =====
-- What op/op_streamer.go uses and does not implement: the L1, Espresso and light clients, the
-- bindings of the BatchAuthenticator contract, the clock, the LRU caches and the unmarshaler.
-- A client may answer otherwise at every call, so a call returns the client beside its answer,
-- and `none` for an error.
use espresso_streamers.Base.{ℕ, Option, List}
use espresso_streamers.Op.Batch.{Batch, Hash, Address}

-- `FinalizedState` of the light client.
pub record FinalizedState : Type 0 where
  pub view_num : ℕ
  pub block_height : ℕ
  pub block_comm_root : ℕ

-- `l1State`.
pub record L1State : Type 0 where
  pub hash : Hash
  pub authorized_batchers : List Address

abbrev pub Bytes : Type 0
Bytes = List ℕ

pub record Deps : Type 1 where
  pub Client : Type 0
  pub Cache : Type 0
  pub Stamps : Type 0
  -- `NewBatchAuthenticatorCaller`
  pub bind_authenticator : Address → Client → Option Client
  -- `RollupL1Client.HeaderHashByNumber`
  pub header_hash_by_number : Client → ℕ → Option Hash × Client
  -- `EspressoBatcher` at a block, and `EspressoBatcherAtBlock` at a block for an L1 origin
  pub espresso_batcher : Client → ℕ → Option Address × Client
  pub espresso_batcher_at_block : Client → ℕ → ℕ → Option Address × Client
  -- `EspressoLightClient.FinalizedState` at a block
  pub finalized_state : Client → ℕ → Option FinalizedState × Client
  pub fetch_latest_block_height : Client → Option ℕ × Client
  -- from, to, namespace: the payloads of the transactions of each block
  pub fetch_namespace_transactions_in_range :
      Client → ℕ → ℕ → ℕ → Option (List (List Bytes)) × Client
  -- `time.Now().Unix()`
  pub now : Client → ℕ × Client
  -- `simplelru.LRU`: a read moves the entry to the front, so it returns the cache too
  pub cache_new : ℕ → Cache
  pub cache_get : Cache → ℕ → Option L1State × Cache
  pub cache_add : Cache → ℕ → L1State → Cache
  pub stamps_new : ℕ → Stamps
  pub stamps_get : Stamps → Hash → Option ℕ × Stamps
  pub stamps_add : Stamps → Hash → ℕ → Stamps
  -- the field `unmarshalBatch`
  pub unmarshal_batch : Bytes → Option Batch
