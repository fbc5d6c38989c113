-- ===== src/Op/Streamer/Update/Keeps.antt =====
-- What `Update` keeps, whatever the clients answer.
use espresso_streamers.Base.{
  ℕ, zero, suc, ◌-◌, refl, Bool, true, false, Option, none, some, arith, ◌==◌, ltb, max_uint64,
  Bool-cases, Option-cases, inl, inr,
}
use espresso_streamers.Op.Streamer.Deps.{Deps}
use espresso_streamers.Op.Streamer.State.{BatchStreamer}
use espresso_streamers.Op.Streamer.Valid.{IsValid}
use espresso_streamers.Op.Streamer.Head.{has_next}
use espresso_streamers.Op.Streamer.Head.Rounds.{Answer, has_next-Answer}
use espresso_streamers.Op.Streamer.Fetch.{FetchError}
use espresso_streamers.Op.Streamer.Fetch.Range.{KeepsScan, fetch_hot_shot_range-Scanned}
use espresso_streamers.Op.Streamer.Update.{UpdateError, update_loop, update}
use espresso_streamers.Op.Streamer.Update.Ends.{
  stops, first_block, last_block, fetched, loop_stops, loop_goes, round_result,
}

module _ {d : Deps} where
  -- If `Update` returns, the streamer is valid and only what the scan moves has moved.
  abbrev pub Scans : BatchStreamer d → Option (Option UpdateError × BatchStreamer d) → Type 0
  Scans s none = Unit {0}
  Scans s (some r) = IsValid r.1 × KeepsScan s r.1

  Scans-trans :
      (s t : BatchStreamer d) (o : Option (Option UpdateError × BatchStreamer d))
      → KeepsScan s t
      → Scans t o
      → Scans s o
  Scans-trans s t none k p = tt
  Scans-trans s t (some r) k (v, q) = (v, ground (arith, k, q))

  round-Scans :
      (s t : BatchStreamer d) (e : Option FetchError) (x : Bool × BatchStreamer d)
      (rest : Option (Option UpdateError × BatchStreamer d))
      → IsValid t
      → KeepsScan s t
      → Answer t x
      → Scans x.1 rest
      → Scans s (round_result e t x rest)
  round-Scans s t (some e) (found, u) rest v k a r = (v, k)
  round-Scans s t none (true, u) rest v k a r = (a.valid, ground (arith, k, a.kept))
  round-Scans s t none (false, u) rest v k a r = Scans-trans s u rest (ground (arith, k, a.kept)) r

  update_loop-Scans :
      (fuel : ℕ) (again : Bool) (height : ℕ) (s : BatchStreamer d)
      → IsValid s
      → Scans s (update_loop fuel again height s)
  unfolding update_loop
  update_loop-Scans zero again height s v = tt
  update_loop-Scans (suc fuel) again height s v = elim (Bool-cases (stops again height s)) [
    | inl stop ↦ rw (loop_stops fuel again height s stop) (v, refl)
    | inr go ↦
        let scan = fetch_hot_shot_range-Scanned s (first_block height s) (last_block height s) v in
        let t = (fetched height s).1 in
        let found = has_next-Answer t scan.valid in
        rw (loop_goes fuel again height s go) (
          round-Scans s t (fetched height s).0 (has_next t) _ scan.valid scan.kept found
            (update_loop-Scans fuel true height (has_next t).1 found.valid))
  ]

  with_client : BatchStreamer d → d.Client → BatchStreamer d
  with_client s c = record s { client = c }

  asked-Scans : (s : BatchStreamer d) (c : d.Client) → IsValid s → IsValid (with_client s c)
  unfolding with_client
  asked-Scans s c v = record { buffer = v.buffer; head_due = v.head_due }

  pub update-Scans : (fuel : ℕ) (s : BatchStreamer d) → IsValid s → Scans s (update fuel s)
  unfolding update with_client
  update-Scans fuel s v =
      let c = (d.fetch_latest_block_height s.client).1 in
      let w = asked-Scans s c v in
      elim (Option-cases (d.fetch_latest_block_height s.client).0) [
        | inl e ↦ rw (e, update) (w, refl)
        | inr (latest, e) ↦ elim (Bool-cases (latest == max_uint64)) [
          | inl top ↦ rw (e, top, update) (w, refl)
          | inr fits ↦ elim (Bool-cases (ltb latest 2)) [
            | inl low ↦ rw (e, fits, low, update) (w, refl)
            | inr deep ↦
                rw (e, fits, deep, update)
                  (Scans-trans s (with_client s c)
                    (update_loop fuel false (latest - 2) (with_client s c)) refl
                    (update_loop-Scans fuel false (latest - 2) (with_client s c) w))
          ]
        ]
      ]
