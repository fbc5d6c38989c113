-- ===== src/Op/Streamer/Calls/Cursor.antt =====
-- A cursor over the batch numbers, which is all that the order of the batches depends on.
use espresso_streamers.Base.{
  ℕ, ◌<◌, ◌≡◌, ◌⊎◌, inl, inr, refl, sym, subst, ◌∙◌, ◌||◌, List, [], ◌∷◌, arith, add64, ltb, leb,
  ◌==◌, Bool-cases,
}
use espresso_streamers.Op.Batch.{BlockId}
use espresso_streamers.Op.Streamer.Deps.{Deps}
use espresso_streamers.Op.Streamer.State.{BatchStreamer, L1BlockRef, reset}
use espresso_streamers.Op.Streamer.Valid.{IsValid}
use espresso_streamers.Op.Streamer.Refresh.{
  confirm_espresso_block_height, refresh_safe_l1_origin, fetch_espresso_batcher, refresh_batch_pos,
  refresh,
}
use espresso_streamers.Op.Streamer.Refresh.Positions.{reset-IsValid, fetch_espresso_batcher-same}
use espresso_streamers.Op.Streamer.Calls.{
  Event, delivered, refreshed, reset_by_caller, origin_refreshed, other,
}

-- The contract knows of a streamer only the number that is due and the safe batch.
pub record Cursor : Type 0 where
  pub due : ℕ
  pub safe : ℕ

-- The batch after the safe one is due.
abbrev pub restarted : ℕ → Cursor
restarted safe = record { due = add64 safe 1; safe = safe }

-- `Next` hands out the number that is due, and the one after it is due then. A reset makes the batch
-- after the safe one due. `Refresh` takes over the safe batch, and makes the batch after it due, or
-- leaves the one that is; that only if the safe batch has not moved, or has moved on and is still
-- behind that one.
abbrev pub Moves : Cursor → Event → Cursor → Type 0
Moves c (delivered b) c' = (b.number ≡ c.due) × (c' ≡ record { due = add64 c.due 1; safe = c.safe })
Moves c (refreshed safe) c' =
    (c' ≡ restarted safe)
    ⊎ ((c' ≡ record { due = c.due; safe = safe })
        × ((c.safe ≡ safe) ⊎ (c.safe < safe) × (safe < c.due)))
Moves c reset_by_caller c' = c' ≡ restarted c.safe
Moves c origin_refreshed c' = (c' ≡ c) ⊎ (c' ≡ restarted c.safe)
Moves c other c' = c' ≡ c

abbrev pub Follows : Cursor → List Event → Cursor → Type 0
Follows c [] c' = c' ≡ c
Follows c (e ∷ es) c' = (m : Cursor) × Moves c e m × Follows m es c'

-- A reset before the safe batch is taken over makes no difference to the contract.
combine :
    (c m c' : Cursor) (safe : ℕ)
    → (m ≡ c) ⊎ (m ≡ restarted c.safe)
    → Moves m (refreshed safe) c'
    → Moves c (refreshed safe) c'
combine c m c' safe (inl e) h = subst (λ (x : Cursor). Moves x (refreshed safe) c') e h
combine c m c' safe (inr e) (inl h) = inl h
combine c m c' safe (inr e) (inr (h, inl same)) = inl (ground (arith, e, h, same))
combine c m c' safe (inr e) (inr (h, inr (lo, hi))) = absurd (ground (arith, e, lo, hi))

module _ {d : Deps} where
  abbrev pub cursor : BatchStreamer d → Cursor
  cursor s = record { due = s.next_batch_pos; safe = s.fallback_batch_pos }

  pub confirm-same :
      (s : BatchStreamer d) (o : BlockId)
      → let t = (confirm_espresso_block_height s o).1 in
        t ≡ record s { client = t.client; fallback_hot_shot_pos = t.fallback_hot_shot_pos }
  unfolding confirm_espresso_block_height
  confirm-same s o = ground arith

  pub reset-Moves : (s : BatchStreamer d) → cursor (reset s) ≡ restarted s.fallback_batch_pos
  unfolding reset
  reset-Moves s = refl

  pub origin-Moves :
      (s : BatchStreamer d) (o : BlockId)
      → IsValid s
      → let t = refresh_safe_l1_origin s o in
        IsValid t × ((cursor t ≡ cursor s) ⊎ (cursor t ≡ restarted s.fallback_batch_pos))
  unfolding refresh_safe_l1_origin
  origin-Moves s o v =
      let same = confirm-same s o in
      let t = (confirm_espresso_block_height s o).1 in
      elim (Bool-cases (confirm_espresso_block_height s o).0) [
        | inl back ↦
            rw (back, refresh_safe_l1_origin)
              (reset-IsValid t, inr (reset-Moves t ∙ ground (arith, same)))
        | inr on ↦
            rw (on, refresh_safe_l1_origin)
              (
                subst (λ (u : BatchStreamer d). IsValid u) (sym same)
                    (record { buffer = v.buffer; head_due = v.head_due }),
                inl (ground (arith, same)),
              )
      ]

  position-Moves :
      (s : BatchStreamer d) (safe : ℕ)
      → IsValid s
      → let t = refresh_batch_pos s safe in
        IsValid t
        × ((cursor t ≡ restarted safe)
            ⊎ (cursor t ≡ record { due = s.next_batch_pos; safe = safe })
              × ((s.fallback_batch_pos ≡ safe)
                  ⊎ (s.fallback_batch_pos < safe) × (safe < s.next_batch_pos)))
  unfolding refresh_batch_pos
  position-Moves s safe v = elim (Bool-cases (s.fallback_batch_pos == safe)) [
    | inl same ↦
        rw (same, refresh_batch_pos) (v, inr (ground (arith, same), inl (ground (arith, same))))
    | inr moved ↦
        elim (Bool-cases (
          ltb safe s.fallback_batch_pos
          || ltb s.hot_shot_pos s.fallback_hot_shot_pos
          || leb s.next_batch_pos safe)) [
            | inl back ↦
                rw (moved, back, refresh_batch_pos)
                  (reset-IsValid _, inl (reset-Moves (record s { fallback_batch_pos = safe })))
            | inr on ↦
                rw (moved, on, refresh_batch_pos)
                  (
                    record { buffer = v.buffer; head_due = v.head_due },
                    inr (refl, inr (ground (arith, moved, on), ground (arith, moved, on))),
                  )
          ]
  ]

  -- `Refresh`: the origin may lead to a reset, and then the safe batch is taken over.
  pub refresh-Moves :
      (s : BatchStreamer d) (l1 : L1BlockRef) (safe : ℕ) (o : BlockId)
      → IsValid s
      → let t = refresh s l1 safe o in IsValid t × Moves (cursor s) (refreshed safe) (cursor t)
  unfolding refresh
  refresh-Moves s l1 safe o v =
      let same = fetch_espresso_batcher-same s l1 in
      let a = fetch_espresso_batcher s l1 in
      let va =
        subst (λ (u : BatchStreamer d). IsValid u) (sym same)
          (record { buffer = v.buffer; head_due = v.head_due }) in
      let (vb, first) = origin-Moves a o va in
      let (w, second) = position-Moves (refresh_safe_l1_origin a o) safe vb in
      (
        w,
        combine (cursor s) (cursor (refresh_safe_l1_origin a o)) _ safe
            (ground (arith, same, first)) second,
      )
