-- ===== src/Op/Streamer/State.antt =====
-- The fields of `BatchStreamer`, `NewEspressoStreamer` and `Reset`.
use espresso_streamers.Base.{
  ℕ, Bool, Option, none, some, ◌==◌, if◌then◌else◌, add64, max_uint64, Result, ok, err,
}
use espresso_streamers.Op.Batch.{Batch, Hash, Address, zero_address}
use espresso_streamers.Op.Buffer
use espresso_streamers.Op.Buffer.{BatchBuffer}
use espresso_streamers.Op.Streamer.Deps.{Deps}

-- `BatchBufferCapacity`.
abbrev pub batch_buffer_capacity : ℕ
batch_buffer_capacity = 1024

-- `eth.L1BlockRef`.
pub record L1BlockRef : Type 0 where
  pub hash : Hash
  pub number : ℕ
  pub parent_hash : Hash
  pub time : ℕ

abbrev pub zero_l1_block_ref : L1BlockRef
zero_l1_block_ref = record { hash = 0; number = 0; parent_hash = 0; time = 0 }

-- The clients that the struct holds are `client`, with whatever state they have.
pub record BatchStreamer (d : Deps) : Type 0 where
  pub namespace : ℕ
  pub client : d.Client
  pub next_batch_pos : ℕ
  pub fallback_batch_pos : ℕ
  pub hot_shot_pos : ℕ
  pub fallback_hot_shot_pos : ℕ
  pub origin_hot_shot_pos : ℕ
  pub finalized_l1 : L1BlockRef
  pub skip_pos : ℕ
  pub head_batch : Option Batch
  pub batch_buffer : BatchBuffer
  pub finalized_l1_state_cache : d.Cache
  pub espresso_batcher : Address
  pub track_batch_timestamp : Bool
  pub batch_timestamps : Option d.Stamps

-- The two errors of the constructor.
pub data NewError : Type 0 where
  authenticator_not_set bind_failed : NewError

-- `NewEspressoStreamer`: namespace, clients, the two origins, the contract's address, tracking.
unfoldable pub new_espresso_streamer :
    (d : Deps) → ℕ → d.Client → ℕ → ℕ → Address → Bool → Result NewError (BatchStreamer d)
unfolding Buffer.new
new_espresso_streamer d namespace client origin_hot_shot_pos origin_batch_pos address track =
    if address == zero_address
    then err authenticator_not_set
    else elim (d.bind_authenticator address client) [
      | none ↦ err bind_failed
      | some bound ↦ ok (record {
        namespace = namespace;
        client = bound;
        next_batch_pos = add64 origin_batch_pos 1;
        fallback_batch_pos = origin_batch_pos;
        hot_shot_pos = origin_hot_shot_pos;
        fallback_hot_shot_pos = origin_hot_shot_pos;
        origin_hot_shot_pos = origin_hot_shot_pos;
        finalized_l1 = zero_l1_block_ref;
        skip_pos = max_uint64;
        head_batch = none;
        batch_buffer = Buffer.new batch_buffer_capacity;
        finalized_l1_state_cache = d.cache_new 1000;
        espresso_batcher = zero_address;
        track_batch_timestamp = track;
        batch_timestamps = if track then some (d.stamps_new batch_buffer_capacity) else none;
      })
    ]

-- `Reset`.
unfoldable pub reset : {d : Deps} → BatchStreamer d → BatchStreamer d
unfolding Buffer.clear
reset s = record s {
  hot_shot_pos = s.fallback_hot_shot_pos;
  next_batch_pos = add64 s.fallback_batch_pos 1;
  head_batch = none;
  skip_pos = max_uint64;
  batch_buffer = Buffer.clear s.batch_buffer;
}

-- `GetFallbackHotshotPos`.
unfoldable pub get_fallback_hotshot_pos : {d : Deps} → BatchStreamer d → ℕ
get_fallback_hotshot_pos s = s.fallback_hot_shot_pos

-- `GetBatchFinalizationTimestamp`: zero and false are `none`.
unfoldable pub get_batch_finalization_timestamp :
    {d : Deps} → BatchStreamer d → Hash → Option ℕ × BatchStreamer d
get_batch_finalization_timestamp {d} s hash =
    if s.track_batch_timestamp
    then elim s.batch_timestamps [
      | none ↦ (none, s)
      | some stamps ↦
          let (t, stamps') = d.stamps_get stamps hash in
          (t, record s { batch_timestamps = some stamps' })
    ]
    else (none, s)
