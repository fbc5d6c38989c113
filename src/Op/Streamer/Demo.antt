-- ===== src/Op/Streamer/Demo.antt =====
-- A concrete L1 and Espresso for tests: block `h` of HotShot holds one transaction, whose batch has
-- the number `h`; the batcher is 9 and the L1 block of every origin has the hash 7.
use espresso_streamers.Base.{ℕ, zero, suc, ◌+◌, ◌-◌, false, Option, none, some, List, [], ◌∷◌}
use espresso_streamers.Op.Batch.{Batch}
use espresso_streamers.Op.Streamer.Deps.{Deps, Bytes}
use espresso_streamers.Op.Streamer.State.{BatchStreamer, L1BlockRef}

abbrev pub demo_batch : ℕ → Batch
demo_batch n = record {
  number = n;
  l1_origin = record { hash = 7; number = 1 };
  header = record { parent_hash = 0; number = some n; time = 0 };
  hash = 100 + n;
  signer = 9;
}

abbrev pub unmarshal : Bytes → Option Batch
unmarshal [] = none
unmarshal (n ∷ ns) = some (demo_batch n)

-- One block for each height from `from` on.
abbrev pub demo_blocks : ℕ → ℕ → List (List Bytes)
demo_blocks zero from = []
demo_blocks (suc n) from = ((from ∷ []) ∷ []) ∷ demo_blocks n (from + 1)

abbrev pub demo : Deps
demo = record {
  Client = ℕ;
  Cache = Unit {0};
  Stamps = Unit {0};
  bind_authenticator = λ a c. some c;
  header_hash_by_number = λ c n. (some 7, c + 1);
  espresso_batcher = λ c n. (some 9, c + 1);
  espresso_batcher_at_block = λ c at n. (some 9, c + 1);
  finalized_state = λ c n. (none, c + 1);
  fetch_latest_block_height = λ c. (some 6, c + 1);
  fetch_namespace_transactions_in_range =
      λ c from to ns. (some (demo_blocks (to - from) from), c + 1);
  now = λ c. (5, c + 1);
  cache_new = λ n. tt;
  cache_get = λ c n. (none, c);
  cache_add = λ c n st. c;
  stamps_new = λ n. tt;
  stamps_get = λ t h. (none, t);
  stamps_add = λ t h n. t;
  unmarshal_batch = unmarshal;
}

abbrev pub demo_l1 : L1BlockRef
demo_l1 = record { hash = 1; number = 5; parent_hash = 2; time = 3 }

-- A streamer over a buffer: batch 2 is due, the scan has visited block 1.
abbrev pub demo_streamer : List Batch → ℕ → BatchStreamer demo
demo_streamer batches capacity = record {
  namespace = 1;
  client = 0;
  next_batch_pos = 2;
  fallback_batch_pos = 1;
  hot_shot_pos = 1;
  fallback_hot_shot_pos = 1;
  origin_hot_shot_pos = 0;
  finalized_l1 = demo_l1;
  skip_pos = 0xffff_ffff_ffff_ffff;
  head_batch = none;
  batch_buffer = record { batches = batches; capacity = capacity };
  finalized_l1_state_cache = tt;
  espresso_batcher = 9;
  track_batch_timestamp = false;
  batch_timestamps = none;
}
