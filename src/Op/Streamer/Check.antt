-- ===== src/Op/Streamer/Check.antt =====
-- `CheckBatch`: the validity of a batch against the finalized L1 and the registered batchers.
pub mod Accept
pub mod Frame
pub mod Later
pub mod Vetted
pub mod Vouched
use espresso_streamers.Base.{
  ℕ, Bool, true, false, not, ◌&&◌, ◌||◌, Option, none, some, List, [], ◌∷◌, ltb, ◌==◌,
  if◌then◌else◌, Result, ok, err,
}
use espresso_streamers.Op.Batch.{
  Batch, BatchValidity, drop, accept, undecided, past, BlockId, Address, zero_address,
}
use espresso_streamers.Op.Streamer.Deps.{Deps, L1State}
use espresso_streamers.Op.Streamer.State.{BatchStreamer, L1BlockRef}

-- `slices.Contains`.
unfoldable pub contains : List Address → Address → Bool
contains [] a = false
contains (x ∷ xs) a = x == a || contains xs a

-- `s.FinalizedL1 == (eth.L1BlockRef{})`.
unfoldable pub is_unset : L1BlockRef → Bool
is_unset r = r.hash == 0 && r.number == 0 && r.parent_hash == 0 && r.time == 0

-- The checks against the state of the L1 at the origin.
unfoldable pub check_l1_state : L1State → Batch → BatchValidity
unfolding contains
check_l1_state state batch =
    if not (contains state.authorized_batchers batch.signer)
    then drop
    else if not (state.hash == batch.l1_origin.hash)
    then drop
    else accept

module _ {d : Deps} where
  -- The state of the L1 at an origin, from the cache or the clients; an early return is `err`.
  unfoldable pub l1_state_at :
      BatchStreamer d → BlockId → Result BatchValidity L1State × BatchStreamer d
  l1_state_at s origin =
      let (cached, cache) = d.cache_get s.finalized_l1_state_cache origin.number in
      let (hash_answer, client) = d.header_hash_by_number s.client origin.number in
      let (batcher_answer, client') =
        d.espresso_batcher_at_block client s.finalized_l1.number origin.number in
      elim cached [
        | some state ↦ (ok state, record s { finalized_l1_state_cache = cache })
        | none ↦ elim hash_answer [
          | none ↦ (err undecided, record s { finalized_l1_state_cache = cache; client = client })
          | some hash ↦ elim batcher_answer [
            | none ↦
                (err undecided, record s { finalized_l1_state_cache = cache; client = client' })
            | some batcher ↦
                let state : L1State = record { hash = hash; authorized_batchers = batcher ∷ [] } in
                if batcher == zero_address
                then (err drop, record s { finalized_l1_state_cache = cache; client = client' })
                else (
                  ok state,
                  record s {
                    finalized_l1_state_cache = d.cache_add cache origin.number state;
                    client = client';
                  },
                )
          ]
        ]
      ]

  unfoldable pub check_batch : BatchStreamer d → Batch → BatchValidity × BatchStreamer d
  unfolding is_unset
  check_batch s batch =
      let origin = batch.l1_origin in
      let (answer, s') = l1_state_at s origin in
      if ltb batch.number s.next_batch_pos
      then (past, s)
      else if is_unset s.finalized_l1
      then (undecided, s)
      else if ltb s.finalized_l1.number origin.number
      then (
        if not (s.espresso_batcher == zero_address) && not (batch.signer == s.espresso_batcher)
            then drop
            else undecided,
        s,
      )
      else elim answer [ err v ↦ (v, s') | ok state ↦ (check_l1_state state batch, s') ]
