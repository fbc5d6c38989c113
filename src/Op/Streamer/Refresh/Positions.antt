-- ===== src/Op/Streamer/Refresh/Positions.antt =====
-- The positions that `Refresh` keeps in order.
use espresso_streamers.Base.{
  ℕ, ◌+◌, ◌^◌, ◌<◌, ◌≤◌, ◌≡◌, false, none, some, arith, ltb, leb, max_uint64, ◌⊎◌, inl, inr,
  Option-cases, Bool-cases, subst, sym, [],
}
use espresso_streamers.Op.Batch.{BlockId}
use espresso_streamers.Op.Buffer.Ends.{clear-IsValid}
use espresso_streamers.Op.Streamer.Deps.{Deps, FinalizedState}
use espresso_streamers.Op.Streamer.State.{BatchStreamer, L1BlockRef, reset}
use espresso_streamers.Op.Streamer.Valid.{IsValid}
use espresso_streamers.Op.Streamer.Refresh.{
  confirm_espresso_block_height, refresh_safe_l1_origin, fetch_espresso_batcher,
}

-- The position to fall back to is never before the origin, and the batch that is due comes after
-- the safe one.
pub record InOrder {d : Deps} (s : BatchStreamer d) : Type 0 where
  pub origin : s.origin_hot_shot_pos ≤ s.fallback_hot_shot_pos
  pub ahead : s.fallback_batch_pos < s.next_batch_pos

module _ {d : Deps} where
  pub reset-IsValid : (s : BatchStreamer d) → IsValid (reset s)
  unfolding reset
  reset-IsValid s = record { buffer = clear-IsValid s.batch_buffer; head_due = tt }

  pub reset-InOrder :
      (s : BatchStreamer d)
      → s.origin_hot_shot_pos ≤ s.fallback_hot_shot_pos
      → s.fallback_batch_pos + 1 < 2 ^ 64
      → InOrder (reset s)
  unfolding reset
  reset-InOrder s h f = record { origin = h; ahead = ground arith }

  -- `confirmEspressoBlockHeight` moves the fallback position, and nothing else but the clients; to
  -- what the light client reports, if that is after the origin, and then it asks for a reset exactly
  -- when this is a step back.
  pub confirm_lem :
      (s : BatchStreamer d) (o : BlockId)
      → s.origin_hot_shot_pos ≤ s.fallback_hot_shot_pos
      → let (r, t) = confirm_espresso_block_height s o in
        (t ≡ record s { client = t.client; fallback_hot_shot_pos = t.fallback_hot_shot_pos })
        × (s.origin_hot_shot_pos ≤ t.fallback_hot_shot_pos)
        × ((r ≡ false) × (t.fallback_hot_shot_pos ≡ s.fallback_hot_shot_pos)
            ⊎ (state : FinalizedState) × ((d.finalized_state s.client o.number).0 ≡ some state)
              × (s.origin_hot_shot_pos < state.block_height)
              × (t.fallback_hot_shot_pos ≡ state.block_height)
              × (r ≡ ltb state.block_height s.fallback_hot_shot_pos))
  unfolding confirm_espresso_block_height
  confirm_lem s o h = elim (Option-cases (d.finalized_state s.client o.number).0) [
    | inl e ↦ (ground (arith, e), ground (arith, e), inl (ground (arith, e), ground (arith, e)))
    | inr (st, e) ↦ elim (Bool-cases (leb st.block_height s.origin_hot_shot_pos)) [
      | inl old ↦ (
        ground (arith, e, old),
        ground (arith, e, old),
        inl (ground (arith, e, old), ground (arith, e, old)),
      )
      | inr new ↦ (
        ground (arith, e, new),
        ground (arith, e, new),
        inr (st, e, ground (arith, new), ground (arith, e, new), ground (arith, e, new)),
      )
    ]
  ]

  -- The fields that the L1 part of `Refresh` leaves alone, or resets.
  pub record Kept (s t : BatchStreamer d) : Type 0 where
    pub valid : IsValid t
    pub fallback_batch : t.fallback_batch_pos ≡ s.fallback_batch_pos
    pub origin : t.origin_hot_shot_pos ≤ t.fallback_hot_shot_pos
    pub due : (t.next_batch_pos ≡ s.next_batch_pos) ⊎ (t.next_batch_pos ≡ s.fallback_batch_pos + 1)

  pub fetch_espresso_batcher-same :
      (s : BatchStreamer d) (l : L1BlockRef)
      → let t = fetch_espresso_batcher s l in
        t ≡ record s { client = t.client; finalized_l1 = l; espresso_batcher = t.espresso_batcher }
  unfolding fetch_espresso_batcher
  fetch_espresso_batcher-same s l = ground arith

  pub refresh_safe_l1_origin-Kept :
      (s : BatchStreamer d) (o : BlockId)
      → IsValid s
      → InOrder s
      → s.fallback_batch_pos + 1 < 2 ^ 64
      → Kept s (refresh_safe_l1_origin s o)
  unfolding refresh_safe_l1_origin
  refresh_safe_l1_origin-Kept s o v i f =
      let (same, low, _) = confirm_lem s o i.origin in
      let t = (confirm_espresso_block_height s o).1 in
      let fb : t.fallback_batch_pos ≡ s.fallback_batch_pos = ground (arith, same) in
      let og : t.origin_hot_shot_pos ≡ s.origin_hot_shot_pos = ground (arith, same) in
      elim (Bool-cases (confirm_espresso_block_height s o).0) [
        | inl back ↦
            rw (back, refresh_safe_l1_origin)
              (record {
                valid = reset-IsValid t;
                fallback_batch = unfold reset in fb;
                origin = unfold reset in omega (arith, og, low);
                due = inr (unfold reset in ground (arith, fb));
              })
        | inr on ↦
            rw (on, refresh_safe_l1_origin)
              (record {
                valid =
                    subst (λ (u : BatchStreamer d). IsValid u) (sym same)
                      (record { buffer = v.buffer; head_due = v.head_due });
                fallback_batch = fb;
                origin = omega (arith, og, low);
                due = inl (ground (arith, same));
              })
      ]

  -- A streamer that starts again at the safe position.
  pub record IsRestart (safe : ℕ) (t : BatchStreamer d) : Type 0 where
    pub due : t.next_batch_pos ≡ safe + 1
    pub scan : t.hot_shot_pos ≡ t.fallback_hot_shot_pos
    pub no_head : t.head_batch ≡ none
    pub no_buffer : t.batch_buffer.batches ≡ []
    pub no_skip : t.skip_pos ≡ max_uint64
