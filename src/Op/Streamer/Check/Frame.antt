-- ===== src/Op/Streamer/Check/Frame.antt =====
-- `CheckBatch` changes nothing of the streamer but its clients and its cache.
use espresso_streamers.Base.{◌≡◌, arith}
use espresso_streamers.Op.Batch.{Batch}
use espresso_streamers.Op.Streamer.Deps.{Deps}
use espresso_streamers.Op.Streamer.State.{BatchStreamer}
use espresso_streamers.Op.Streamer.Check.{l1_state_at, check_batch}

-- `t` is `s` but for the clients and the cache.
abbrev pub SameBut : {d : Deps} → BatchStreamer d → BatchStreamer d → Type 0
SameBut s t =
    t ≡ record s { client = t.client; finalized_l1_state_cache = t.finalized_l1_state_cache }

module _ {d : Deps} (s : BatchStreamer d) (b : Batch) where
  l1_state_at-SameBut : SameBut s (l1_state_at s b.l1_origin).1
  unfolding l1_state_at
  l1_state_at-SameBut = ground arith

  pub check_batch-SameBut : SameBut s (check_batch s b).1
  unfolding check_batch
  check_batch-SameBut = ground (arith, l1_state_at-SameBut)
