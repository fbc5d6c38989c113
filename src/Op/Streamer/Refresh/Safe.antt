-- ===== src/Op/Streamer/Refresh/Safe.antt =====
-- `Refresh` as a whole: the streamer follows the safe batch.
use espresso_streamers.Base.{
  ℕ, ◌+◌, ◌^◌, ◌<◌, ◌≤◌, ◌≡◌, ◌≢◌, refl, ◌||◌, arith, ltb, leb, ◌==◌, ==_iff, ◌⊎◌, inl, inr,
  Bool-cases, subst, sym, ◌∙◌,
}
use espresso_streamers.Op.Batch.{BlockId}
use espresso_streamers.Op.Streamer.Deps.{Deps}
use espresso_streamers.Op.Streamer.State.{BatchStreamer, L1BlockRef, reset}
use espresso_streamers.Op.Streamer.Valid.{IsValid}
use espresso_streamers.Op.Streamer.Refresh.{
  refresh_safe_l1_origin, fetch_espresso_batcher, refresh_batch_pos, refresh,
}
use espresso_streamers.Op.Streamer.Refresh.Positions.{
  InOrder, reset-IsValid, reset-InOrder, Kept, IsRestart, refresh_safe_l1_origin-Kept,
  fetch_espresso_batcher-same,
}

module _ {d : Deps} where
  pub reset_at :
      (s : BatchStreamer d) (safe : ℕ)
      → safe + 1 < 2 ^ 64
      → IsRestart safe (reset (record s { fallback_batch_pos = safe }))
  unfolding reset
  reset_at s safe f = record {
    due = ground arith;
    scan = refl;
    no_head = refl;
    no_buffer = unfold espresso_streamers.Op.Buffer.clear in refl;
    no_skip = refl;
  }

  -- What the second half leaves: everything, when the safe batch is the one known; everything but
  -- the safe batch, when it moved forward and is still behind the batch that is due; or a restart.
  pub batch_pos_cases :
      (s : BatchStreamer d) (safe : ℕ)
      → safe + 1 < 2 ^ 64
      → (refresh_batch_pos s safe ≡ s) × (s.fallback_batch_pos ≡ safe)
        ⊎ ((refresh_batch_pos s safe ≡ record s { fallback_batch_pos = safe })
              × (s.fallback_batch_pos < safe)
              × (safe < s.next_batch_pos)
              × (s.fallback_hot_shot_pos ≤ s.hot_shot_pos)
            ⊎ (refresh_batch_pos s safe ≡ reset (record s { fallback_batch_pos = safe }))
              × (s.fallback_batch_pos ≢ safe))
  unfolding refresh_batch_pos
  batch_pos_cases s safe f = elim (Bool-cases (s.fallback_batch_pos == safe)) [
    | inl same ↦ inl (ground (arith, same), (==_iff _ _).0 same)
    | inr moved ↦
        elim (Bool-cases (
          ltb safe s.fallback_batch_pos
          || ltb s.hot_shot_pos s.fallback_hot_shot_pos
          || leb s.next_batch_pos safe)) [
            | inl back ↦ inr (inr (ground (arith, moved, back), ground (arith, moved)))
            | inr on ↦ inr (
                inl (
                  ground (arith, moved, on),
                  ground (arith, moved, on),
                  ground (arith, moved, on),
                  ground (arith, moved, on),
                ))
          ]
  ]

  -- What `Refresh` promises of its result.
  pub record Refreshed (s : BatchStreamer d) (safe : ℕ) (t : BatchStreamer d) : Type 0 where
    pub valid : IsValid t
    pub in_order : InOrder t
    pub safe_taken : t.fallback_batch_pos ≡ safe
    pub due : (t.next_batch_pos ≡ s.next_batch_pos) ⊎ (t.next_batch_pos ≡ safe + 1)
    pub restarts : (s.fallback_batch_pos ≤ safe) ⊎ IsRestart safe t

  second_half :
      (s b : BatchStreamer d) (safe : ℕ)
      → InOrder s
      → Kept s b
      → safe + 1 < 2 ^ 64
      → Refreshed s safe (refresh_batch_pos b safe)
  second_half s b safe i k g = elim (batch_pos_cases b safe g) [
    | inl (e, h) ↦ rw e (record {
      valid = k.valid;
      in_order = record { origin = k.origin; ahead = in_sync };
      safe_taken = h;
      due = elim k.due [ inl d ↦ inl d | inr d ↦ inr (omega (arith, k.fallback_batch)) ];
      restarts = inl (omega (arith, k.fallback_batch));
    })
    | inr (inl (e, lt, ahead, scan)) ↦ rw e (record {
      valid = record { buffer = k.valid.buffer; head_due = k.valid.head_due };
      in_order = record { origin = k.origin; ahead = ahead };
      safe_taken = refl;
      due = elim k.due [ inl d ↦ inl d | inr d ↦ absurd (omega (arith, k.fallback_batch)) ];
      restarts = inl (omega (arith, k.fallback_batch));
    })
    | inr (inr (e, ne)) ↦
        let r = reset_at b safe g in
        rw e (record {
          valid = reset-IsValid _;
          in_order = reset-InOrder (record b { fallback_batch_pos = safe }) k.origin g;
          safe_taken = unfold reset in refl;
          due = inr r.due;
          restarts = inr r;
        })
  ]
    where
      in_sync : b.fallback_batch_pos < b.next_batch_pos
      in_sync = elim k.due [
        | inl d ↦ omega (arith, k.fallback_batch, i.ahead)
        | inr d ↦ omega (arith, k.fallback_batch)
      ]

  -- `Refresh` keeps a valid streamer valid and its positions in order, and takes over the safe
  -- batch. The batch that is due stays, or becomes the one after the safe batch. If the safe batch
  -- moves back, the streamer starts again after it: nothing at the head, nothing buffered, no
  -- position to rewind to, and the scan at the position to fall back to. The safe batch's number and
  -- the one known before are not the largest `uint64`.
  pub refresh_lem :
      (s : BatchStreamer d) (l1 : L1BlockRef) (safe : ℕ) (origin : BlockId)
      → IsValid s
      → InOrder s
      → s.fallback_batch_pos + 1 < 2 ^ 64
      → safe + 1 < 2 ^ 64
      → Refreshed s safe (refresh s l1 safe origin)
  unfolding refresh
  refresh_lem s l1 safe origin v i f g =
      let a = fetch_espresso_batcher s l1 in
      let same = fetch_espresso_batcher-same s l1 in
      let va =
        subst (λ (u : BatchStreamer d). IsValid u) (sym same)
          (record { buffer = v.buffer; head_due = v.head_due }) in
      let fa : a.fallback_batch_pos ≡ s.fallback_batch_pos = ground (arith, same) in
      let na : a.next_batch_pos ≡ s.next_batch_pos = ground (arith, same) in
      let ia : InOrder a = record {
        origin = ground (arith, same, i.origin);
        ahead = omega (arith, fa, na, i.ahead);
      } in
      let k = refresh_safe_l1_origin-Kept a origin va ia (omega (arith, fa)) in
      let r = second_half a (refresh_safe_l1_origin a origin) safe ia k g in
      record {
        valid = r.valid;
        in_order = r.in_order;
        safe_taken = r.safe_taken;
        due = elim r.due [ inl e ↦ inl (e ∙ na) | inr e ↦ inr e ];
        restarts = elim r.restarts [ inl le ↦ inl (omega (arith, fa)) | inr x ↦ inr x ];
      }
