-- ===== src/Op/Streamer/Fetch/Rescan.antt =====
-- After a full buffer the next delivery makes the scan go back far enough.
use espresso_streamers.Base.{
  ℕ, ◌+◌, ◌-◌, ◌^◌, ◌<◌, ◌≤◌, ◌≡◌, ◌≢◌, subst, some, List, ◌∷◌, arith, length, min,
}
use espresso_streamers.Op.Batch.{Batch}
use espresso_streamers.Op.Streamer.Deps.{Deps, Bytes}
use espresso_streamers.Op.Streamer.State.{BatchStreamer}
use espresso_streamers.Op.Streamer.Valid.{IsValid}
use espresso_streamers.Op.Streamer.Head.{has_next, next}
use espresso_streamers.Op.Streamer.Head.Rounds.{has_next-Answer}
use espresso_streamers.Op.Streamer.Head.Next.{Delivers, NextPost, next_lem}
use espresso_streamers.Op.Streamer.Fetch.{process_blocks, fetch_hot_shot_range}
use espresso_streamers.Op.Streamer.Fetch.Keeps.{process_blocks_keeps}
use espresso_streamers.Op.Streamer.Fetch.Range.{answer, scanning, stamp, fetch-blocks}
use espresso_streamers.Op.Streamer.Fetch.Skip.{first_full, skip-process_blocks}
use espresso_streamers.Op.Streamer.Update.{range_start}

-- A scan that goes back to one block before `p` starts at `p` at the latest.
pub range_start-le : (x p : ℕ) → x ≤ p - 1 → p < 2 ^ 64 → range_start x ≤ p
unfolding range_start
range_start-le x p h lt = ground arith

module _ {d : Deps} where
  delivered :
      (s t : BatchStreamer d) (b : Batch) → IsValid s → next s ≡ (some b, t) → Delivers s b t
  delivered s t b v e = (subst (NextPost s) e (next_lem s v)).1

  -- Say that reading a range of HotShot blocks into a valid streamer, the positions of which do not
  -- wrap, meets a full buffer, first in block `p`. If `HasNext`, which `Update` calls then, is followed
  -- by a `Next` that returns a batch, the next scan starts at block `p` or before it.
  pub rescans :
      (s : BatchStreamer d) (start finish p : ℕ) (block : List Bytes) (blocks : List (List Bytes))
      (b : Batch) (t : BatchStreamer d)
      → IsValid s
      → finish ≢ 0
      → start + length (block ∷ blocks) ≤ 2 ^ 64
      → (answer s start finish).0 ≡ some (block ∷ blocks)
      → first_full (scanning s start finish) start (stamp s start finish) (block ∷ blocks) ≡ some p
      → p < 2 ^ 64
      → next (has_next (fetch_hot_shot_range s start finish).1).1 ≡ (some b, t)
      → range_start t.hot_shot_pos ≤ p
  rescans s start finish p block blocks b t v nz fits e full lt out =
      let u = scanning s start finish in
      let w : IsValid u = record { buffer = v.buffer; head_due = v.head_due } in
      let r = process_blocks u start (stamp s start finish) (block ∷ blocks) in
      let valid = (process_blocks_keeps u start (stamp s start finish) (block ∷ blocks) w).0 in
      let fetched = fetch-blocks s start finish block blocks nz e in
      let out' : next (has_next r).1 ≡ (some b, t) = rw fetched at out in
      let a = has_next-Answer r valid in
      let del = delivered (has_next r).1 t b a.valid out' in
      let low = skip-process_blocks u start (stamp s start finish) (block ∷ blocks) w fits in
      let low' : r.skip_pos ≡ min s.skip_pos (p - 1) = rw full at low in
      range_start-le t.hot_shot_pos p (ground (arith, del.rewound, a.kept, low')) lt
