-- ===== src/Op/Streamer/Refresh/Steady.antt =====
-- `Refresh` when neither the light client nor the scan steps back.
use espresso_streamers.Base.{
  ℕ, ◌≤◌, ◌<◌, ◌≡◌, ◌||◌, false, arith, ltb, leb, ◌==◌, Bool-cases, inl, inr, subst, sym,
}
use espresso_streamers.Op.Batch.{BlockId}
use espresso_streamers.Op.Streamer.Deps.{Deps}
use espresso_streamers.Op.Streamer.State.{BatchStreamer, L1BlockRef}
use espresso_streamers.Op.Streamer.Valid.{IsValid}
use espresso_streamers.Op.Streamer.Refresh.{
  confirm_espresso_block_height, refresh_safe_l1_origin, fetch_espresso_batcher, refresh_batch_pos,
  refresh,
}
use espresso_streamers.Op.Streamer.Refresh.Positions.{fetch_espresso_batcher-same}

module _ {d : Deps} where
  -- The light client does not lead to a reset at this origin, and the scan is not behind the position
  -- to fall back to.
  pub record IsSteady (s : BatchStreamer d) (l1 : L1BlockRef) (origin : BlockId) : Type 0 where
    pub no_reset : (confirm_espresso_block_height (fetch_espresso_batcher s l1) origin).0 ≡ false
    pub scanned :
        (confirm_espresso_block_height (fetch_espresso_batcher s l1) origin).1.fallback_hot_shot_pos
        ≤ s.hot_shot_pos

  -- `t` is `s` but for what the L1 part of `Refresh` moves when it does not reset.
  abbrev Confirmed : BatchStreamer d → BatchStreamer d → Type 0
  Confirmed s t = t ≡ record s {
    client = t.client;
    finalized_l1 = t.finalized_l1;
    espresso_batcher = t.espresso_batcher;
    fallback_hot_shot_pos = t.fallback_hot_shot_pos;
  }

  confirm-Confirmed :
      (s : BatchStreamer d) (o : BlockId) → Confirmed s (confirm_espresso_block_height s o).1
  unfolding confirm_espresso_block_height
  confirm-Confirmed s o = ground arith

  stays_due :
      (s : BatchStreamer d) (safe : ℕ)
      → IsValid s
      → s.fallback_batch_pos ≤ safe
      → safe < s.next_batch_pos
      → s.fallback_hot_shot_pos ≤ s.hot_shot_pos
      → let t = refresh_batch_pos s safe in
        IsValid t × (t.next_batch_pos ≡ s.next_batch_pos) × (t.fallback_batch_pos ≡ safe)
  unfolding refresh_batch_pos
  stays_due s safe v lo hi scan = elim (Bool-cases (s.fallback_batch_pos == safe)) [
    | inl same ↦ rw (same, refresh_batch_pos) (v, ground arith, ground (arith, same))
    | inr moved ↦
        let on : (ltb safe s.fallback_batch_pos
              || ltb s.hot_shot_pos s.fallback_hot_shot_pos
              || leb s.next_batch_pos safe)
            ≡ false =
          ground (arith, lo, hi, scan) in
        rw (moved, on, refresh_batch_pos)
          (record { buffer = v.buffer; head_due = v.head_due }, ground arith, ground arith)
  ]

  -- A safe batch that has not moved back and is behind the batch that is due is taken over, and
  -- that batch stays due.
  pub refresh_steady :
      (s : BatchStreamer d) (l1 : L1BlockRef) (safe : ℕ) (origin : BlockId)
      → IsValid s
      → IsSteady s l1 origin
      → s.fallback_batch_pos ≤ safe
      → safe < s.next_batch_pos
      → let t = refresh s l1 safe origin in
        IsValid t × (t.next_batch_pos ≡ s.next_batch_pos) × (t.fallback_batch_pos ≡ safe)
  unfolding refresh
  refresh_steady s l1 safe origin v k lo hi =
      let a = fetch_espresso_batcher s l1 in
      let same = fetch_espresso_batcher-same s l1 in
      let t = (confirm_espresso_block_height a origin).1 in
      let c = confirm-Confirmed a origin in
      let q : Confirmed s t = ground (arith, same, c) in
      let steady : refresh_safe_l1_origin a origin ≡ t =
        unfold refresh_safe_l1_origin in ground (arith, k.no_reset) in
      let vt =
        subst (λ (u : BatchStreamer d). IsValid u) (sym q)
          (record { buffer = v.buffer; head_due = v.head_due }) in
      let (w, n, f) =
        stays_due t safe vt (ground (arith, q, lo)) (ground (arith, q, hi))
          (ground (arith, q, k.scanned)) in
      rw steady (w, ground (arith, n, q), f)
