-- ===== src/Op/Streamer/Refresh/Rewind.antt =====
-- `Refresh` when the light client reports a lower height than before.
use espresso_streamers.Base.{ℕ, ◌+◌, ◌^◌, ◌<◌, ◌≡◌, inl, inr, some, arith}
use espresso_streamers.Op.Batch.{BlockId}
use espresso_streamers.Op.Streamer.Deps.{Deps, FinalizedState}
use espresso_streamers.Op.Streamer.State.{BatchStreamer, L1BlockRef, reset}
use espresso_streamers.Op.Streamer.Valid.{IsValid}
use espresso_streamers.Op.Streamer.Refresh.{
  confirm_espresso_block_height, refresh_safe_l1_origin, fetch_espresso_batcher, refresh_batch_pos,
  refresh,
}
use espresso_streamers.Op.Streamer.Refresh.Positions.{reset-IsValid, fetch_espresso_batcher-same}
use espresso_streamers.Op.Streamer.Refresh.Safe.{batch_pos_cases, reset_at}

module _ {d : Deps} where
  -- The light client answers with a height after the origin and before the one known.
  abbrev pub StepsBack : BatchStreamer d → L1BlockRef → BlockId → FinalizedState → Type 0
  StepsBack s l1 origin state =
      ((d.finalized_state (fetch_espresso_batcher s l1).client origin.number).0 ≡ some state)
      × (s.origin_hot_shot_pos < state.block_height)
      × (state.block_height < s.fallback_hot_shot_pos)

  -- What is reset then.
  abbrev stepped : BatchStreamer d → BlockId → FinalizedState → BatchStreamer d
  stepped s origin state = record s {
    client = (d.finalized_state s.client origin.number).1;
    fallback_hot_shot_pos = state.block_height;
  }

  resets :
      (s : BatchStreamer d) (origin : BlockId) (state : FinalizedState)
      → (d.finalized_state s.client origin.number).0 ≡ some state
      → s.origin_hot_shot_pos < state.block_height
      → state.block_height < s.fallback_hot_shot_pos
      → refresh_safe_l1_origin s origin ≡ reset (stepped s origin state)
  unfolding refresh_safe_l1_origin confirm_espresso_block_height
  resets s origin state f lo hi = ground (arith, f, lo, hi)

  -- After a reset the second half leaves the batch after the safe one due.
  rewound :
      (s : BatchStreamer d) (safe : ℕ)
      → safe + 1 < 2 ^ 64
      → IsValid (refresh_batch_pos (reset s) safe)
        × ((refresh_batch_pos (reset s) safe).next_batch_pos ≡ safe + 1)
  unfolding reset
  rewound s safe g = elim (batch_pos_cases (reset s) safe g) [
    | inl (e, h) ↦ rw e (reset-IsValid s, ground (arith, h, g))
    | inr (inl (e, lt, ahead, scan)) ↦ absurd (ground (arith, lt, ahead, g))
    | inr (inr (e, ne)) ↦ rw e (
      reset-IsValid (record (reset s) { fallback_batch_pos = safe }),
      (reset_at (reset s) safe g).due,
    )
  ]

  -- When the light client steps back, the batch after the safe one is due after `Refresh`, whichever
  -- was due before.
  pub refresh-rewound :
      (s : BatchStreamer d) (l1 : L1BlockRef) (safe : ℕ) (origin : BlockId) (state : FinalizedState)
      → safe + 1 < 2 ^ 64
      → StepsBack s l1 origin state
      → IsValid (refresh s l1 safe origin) × ((refresh s l1 safe origin).next_batch_pos ≡ safe + 1)
  unfolding refresh
  refresh-rewound s l1 safe origin state g (f, lo, hi) =
      let a = fetch_espresso_batcher s l1 in
      let same = fetch_espresso_batcher-same s l1 in
      let e = resets a origin state f (ground (arith, same, lo)) (ground (arith, same, hi)) in
      rw e (rewound (stepped a origin state) safe g)
