-- ===== src/Op/Streamer/Check/Later.antt =====
-- What calls of the clients lead to.
use espresso_streamers.Base.{ℕ}
use espresso_streamers.Op.Streamer.Deps.{Deps}

-- Calls, one after the other, lead from the first state of the clients to another one.
pub data Later (d : Deps) (first : d.Client) : d.Client → Type 0 where
  same : Later d first first
  asked_hash :
      {k : d.Client} (n : ℕ) → Later d first k → Later d first (d.header_hash_by_number k n).1
  asked_batcher :
      {k : d.Client} (n : ℕ) → Later d first k → Later d first (d.espresso_batcher k n).1
  asked_batcher_at :
      {k : d.Client} (at_block n : ℕ)
      → Later d first k
      → Later d first (d.espresso_batcher_at_block k at_block n).1
  asked_state : {k : d.Client} (n : ℕ) → Later d first k → Later d first (d.finalized_state k n).1
  asked_height : {k : d.Client} → Later d first k → Later d first (d.fetch_latest_block_height k).1
  asked_transactions :
      {k : d.Client} (from to namespace : ℕ)
      → Later d first k
      → Later d first (d.fetch_namespace_transactions_in_range k from to namespace).1
  asked_time : {k : d.Client} → Later d first k → Later d first (d.now k).1

pub Later-trans :
    {d : Deps} (first k last : d.Client) → Later d first k → Later d k last → Later d first last
Later-trans first k last x same = x
Later-trans first k last x (asked_hash {k = m} n y) = asked_hash n (Later-trans first k m x y)
Later-trans first k last x (asked_batcher {k = m} n y) = asked_batcher n (Later-trans first k m x y)
Later-trans first k last x (asked_batcher_at {k = m} a n y) =
    asked_batcher_at a n (Later-trans first k m x y)
Later-trans first k last x (asked_state {k = m} n y) = asked_state n (Later-trans first k m x y)
Later-trans first k last x (asked_height {k = m} y) = asked_height (Later-trans first k m x y)
Later-trans first k last x (asked_transactions {k = m} a b n y) =
    asked_transactions a b n (Later-trans first k m x y)
Later-trans first k last x (asked_time {k = m} y) = asked_time (Later-trans first k m x y)
