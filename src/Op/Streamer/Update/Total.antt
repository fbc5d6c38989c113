-- ===== src/Op/Streamer/Update/Total.antt =====
-- `Update` ends with enough fuel, and has then reached what it is for.
use espresso_streamers.Base.{
  ℕ, zero, suc, ◌+◌, ◌-◌, ◌<◌, ◌≤◌, ◌≡◌, refl, Bool, true, false, Option, none, some, arith, ◌==◌,
  Bool-cases, inl, inr, ◌⊎◌,
}
use espresso_streamers.Op.Streamer.Deps.{Deps}
use espresso_streamers.Op.Streamer.State.{BatchStreamer}
use espresso_streamers.Op.Streamer.Valid.{IsValid}
use espresso_streamers.Op.Streamer.Head.{has_next}
use espresso_streamers.Op.Streamer.Head.Rounds.{Answer, has_next-Answer}
use espresso_streamers.Op.Streamer.Fetch.{FetchError}
use espresso_streamers.Op.Streamer.Fetch.Range.{KeepsScan, fetch_hot_shot_range-Scanned}
use espresso_streamers.Op.Streamer.Update.{
  UpdateError, range_start, compute_espresso_block_heights_range, update_loop,
}
use espresso_streamers.Op.Streamer.Update.Ends.{
  AnswersEachBlock, Reached, Updated, stops, first_block, last_block, fetched, fetch_moves,
  loop_stops, loop_goes, left, Result, round_result, Fits, stopped,
}

module _ {d : Deps} (answers : AnswersEachBlock d) (height : ℕ) where
  Result_trans :
      (s u : BatchStreamer d) (o : Option (Option UpdateError × BatchStreamer d))
      → KeepsScan s u
      → Result height u o
      → Result height s o
  Result_trans s u none k r = r
  Result_trans s u (some (some e, t)) k r = record {
    valid = r.valid;
    kept = ground (arith, k, r.kept);
    reached = tt;
  }
  Result_trans s u (some (none, t)) k r = record {
    valid = r.valid;
    kept = ground (arith, k, r.kept);
    reached = by_side r.reached;
  }
    where
      by_side : Reached height u none t → Reached height s none t
      by_side (inl (b, h, n)) = inl (b, h, ground (arith, n, k))
      by_side (inr le) = inr le

  -- One round that reads blocks and finds nothing.
  record Advanced (s u : BatchStreamer d) : Type 0 where
    valid : IsValid u
    kept : KeepsScan s u
    position : u.hot_shot_pos ≡ last_block height s - 1
    nonempty : first_block height s < last_block height s
    below : last_block height s ≤ height + 1

  going :
      (again : Bool) (s : BatchStreamer d)
      → Fits height s
      → stops again height s ≡ false
      → (first_block height s < last_block height s)
        × (last_block height s ≤ height + 1)
        × (first_block height s ≡ range_start s.hot_shot_pos)
  unfolding compute_espresso_block_heights_range
  going again s f h = (ground arith, ground arith, refl)

  advance_round :
      (again : Bool) (s : BatchStreamer d)
      → IsValid s
      → Fits height s
      → stops again height s ≡ false
      → (fetched height s).0 ≡ none
      → Advanced s (has_next (fetched height s).1).1
  advance_round again s v f h e =
      let (lt, le, _) = going again s f h in
      let scan = fetch_hot_shot_range-Scanned s (first_block height s) (last_block height s) v in
      let found = has_next-Answer (fetched height s).1 scan.valid in
      let moved =
        fetch_moves s (first_block height s) (last_block height s) (omega arith)
          (answers s.client _ _ s.namespace lt) v e in
      record {
        valid = found.valid;
        kept = ground (arith, scan.kept, found.kept);
        position = ground (arith, moved, found.kept);
        nonempty = lt;
        below = le;
      }

  -- The next round has fewer blocks to read, or is the last.
  shrinks :
      (again : Bool) (s u : BatchStreamer d)
      → Fits height s
      → stops again height s ≡ false
      → Advanced s u
      → Fits height u
        × ((left height u < left height s) ⊎ (stops true height u ≡ true) × (1 ≤ left height s))
  unfolding compute_espresso_block_heights_range
  shrinks again s u f h a =
      let fits : Fits height u = record {
        height_fits = f.height_fits;
        position_fits = omega (arith, a.position, a.below, f.height_fits);
      } in
      elim (Bool-cases (last_block height s == 1)) [
        | inl one ↦
            (fits, inr (ground (arith, a.position, a.nonempty, one), ground (arith, a.nonempty)))
        | inr more ↦ (fits, inl (ground (arith, a.position, a.nonempty, a.below)))
      ]

  ends_at_once :
      (fuel : ℕ) (u : BatchStreamer d)
      → 0 < fuel
      → IsValid u
      → Fits height u
      → stops true height u ≡ true
      → Result height u (update_loop fuel true height u)
  ends_at_once zero u h v f e = absurd (omega arith)
  ends_at_once (suc fuel) u h v f e =
      rw (loop_stops fuel true height u e)
        (record { valid = v; kept = refl; reached = inr (stopped true height u v f e) })

  found_result :
      (s t : BatchStreamer d) (x : Bool × BatchStreamer d)
      → KeepsScan s t
      → x.0 ≡ true
      → Answer t x
      → Result height s (some (none, x.1))
  found_result s t (false, u) k e a = absurd (cc)
  found_result s t (true, u) k e a =
      let f = a.outcome in
      record {
        valid = a.valid;
        kept = ground (arith, k, a.kept);
        reached = inl (f.head, f.at_head, ground (arith, f.due, k));
      }

  round-Result :
      (s t : BatchStreamer d) (e : Option FetchError) (x : Bool × BatchStreamer d)
      (rest : Option (Option UpdateError × BatchStreamer d))
      → KeepsScan s t
      → IsValid t
      → Answer t x
      → (e ≡ none → Result height s rest)
      → Result height s (round_result e t x rest)
  round-Result s t (some e) (found, u) rest k v a r = record { valid = v; kept = k; reached = tt }
  round-Result s t none (true, u) rest k v a r = found_result s t (true, u) k refl a
  round-Result s t none (false, u) rest k v a r = r refl

  rest-Result :
      (fuel : ℕ) (again : Bool) (s : BatchStreamer d)
      → IsValid s
      → Fits height s
      → left height s < suc fuel
      → stops again height s ≡ false
      → ((u : BatchStreamer d)
          → IsValid u
          → Fits height u
          → left height u < fuel
          → Result height u (update_loop fuel true height u))
      → (fetched height s).0 ≡ none
      → Result height s (update_loop fuel true height (has_next (fetched height s).1).1)
  rest-Result fuel again s v f h go ih e =
      let a = advance_round again s v f go e in
      let u = (has_next (fetched height s).1).1 in
      let (fits, next) = shrinks again s u f go a in
      Result_trans s u (update_loop fuel true height u) a.kept (elim next [
        | inl less ↦ ih u a.valid fits (omega arith)
        | inr (stop, one) ↦ ends_at_once fuel u (omega arith) a.valid fits stop
      ])

  update_loop-Result :
      (fuel : ℕ) (again : Bool) (s : BatchStreamer d)
      → IsValid s
      → Fits height s
      → left height s < fuel
      → Result height s (update_loop fuel again height s)
  update_loop-Result zero again s v f h = absurd (omega arith)
  update_loop-Result (suc fuel) again s v f h = elim (Bool-cases (stops again height s)) [
    | inl stop ↦
        rw (loop_stops fuel again height s stop)
          (record { valid = v; kept = refl; reached = inr (stopped again height s v f stop) })
    | inr go ↦
        let scan = fetch_hot_shot_range-Scanned s (first_block height s) (last_block height s) v in
        rw (loop_goes fuel again height s go) (
          round-Result s (fetched height s).1 (fetched height s).0 (has_next (fetched height s).1) _
            scan.kept scan.valid (has_next-Answer (fetched height s).1 scan.valid)
            (rest-Result fuel again s v f h go (update_loop-Result fuel true)))
  ]

  -- On a valid streamer whose positions are away from the end of the `uint64` range, and with a
  -- client that answers each block, the loop of `Update` ends as soon as its fuel exceeds the number
  -- of blocks left up to `height`. It leaves a valid streamer of which, of the positions, only
  -- `skipPos` and the scan position have moved; and if there is no error, the batch that is due is
  -- at the head or at most one block up to `height` is left to read.
  pub update_loop_total :
      (fuel : ℕ) (again : Bool) (s : BatchStreamer d)
      → IsValid s
      → Fits height s
      → left height s < fuel
      → (r : Option UpdateError × BatchStreamer d) × (update_loop fuel again height s ≡ some r)
        × Updated height s r
  update_loop_total fuel again s v f h =
      by_result (update_loop fuel again height s) refl (update_loop-Result fuel again s v f h)
    where
      by_result :
          (o : Option (Option UpdateError × BatchStreamer d))
          → update_loop fuel again height s ≡ o
          → Result height s o
          → (r : Option UpdateError × BatchStreamer d) × (update_loop fuel again height s ≡ some r)
            × Updated height s r
      by_result none e r = absurd r
      by_result (some x) e r = (x, e, r)
