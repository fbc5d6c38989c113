-- ===== src/Op/Streamer/Calls/PostedTests.antt =====
-- The posted batch 2 comes out of the concrete streamer with a cache.
use espresso_streamers.Base.{ℕ, false, ◌≡◌, ◌==◌, inl, inr, refl, some, [], ◌∷◌, arith, Bool-cases}
use espresso_streamers.Op.Streamer.Deps.{L1State}
use espresso_streamers.Op.Streamer.State.{BatchStreamer}
use espresso_streamers.Op.Streamer.Demo.{demo_batch, demo_blocks, demo_l1}
use espresso_streamers.Op.Streamer.Check.{is_unset}
use espresso_streamers.Op.Streamer.Head.{next}
use espresso_streamers.Op.Streamer.Fetch.{fetch_hot_shot_range}
use espresso_streamers.Op.Streamer.Fetch.Reaches.{HasNoRival}
use espresso_streamers.Op.Streamer.Fetch.Final.{IsFinal, final_state}
use espresso_streamers.Op.Streamer.Fetch.Posted.{posted_is_delivered}
use espresso_streamers.Op.Streamer.Calls.Tests.{caching, caching-Lru, begun}

-- Batch 2 is due, and the state of its L1 origin is in the cache.
abbrev waiting : BatchStreamer caching
waiting = record begun {
  finalized_l1 = demo_l1;
  finalized_l1_state_cache = (1, record { hash = 7; authorized_batchers = 9 ∷ [] }) ∷ [];
}

demo_batch-IsFinal : IsFinal caching (demo_batch 2)
demo_batch-IsFinal = record {
  hash = λ k. refl;
  batcher = λ k at_block. refl;
  registered = λ e. absurd (omega arith);
}

waiting_agrees :
    (st : L1State)
    → caching-Lru.Holds waiting.finalized_l1_state_cache 1 st
    → st ≡ final_state (demo_batch 2)
waiting_agrees st h = ground (arith, h)

finalized_is_known : is_unset waiting.finalized_l1 ≡ false
unfolding is_unset
finalized_is_known = refl

demo-HasNoRival : (n : ℕ) → HasNoRival caching (demo_batch 2) (n ∷ [])
demo-HasNoRival n x e = elim (Bool-cases (n == 2)) [
  | inl same ↦ inl (ground (arith, e, same))
  | inr other ↦ inr (ground (arith, e, other))
]

posted_is_delivered_example : (next (fetch_hot_shot_range waiting 2 5).1).0 ≡ some (demo_batch 2)
posted_is_delivered_example =
    posted_is_delivered caching-Lru (demo_batch 2) demo_batch-IsFinal waiting 2 5 (demo_blocks 3 2)
      waiting_agrees refl finalized_is_known (omega arith) refl (omega arith) refl (inl (inl refl))
      ((demo-HasNoRival 2, tt), ((demo-HasNoRival 3, tt), ((demo-HasNoRival 4, tt), tt)))
