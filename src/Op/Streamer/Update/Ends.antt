-- ===== src/Op/Streamer/Update/Ends.antt =====
-- The loop of `Update` ends, and what holds when it does.
use espresso_streamers.Base.{
  ℕ, suc, ◌+◌, ◌-◌, ◌^◌, ◌<◌, ◌≤◌, ◌≡◌, ◌≢◌, refl, Bool, true, false, ◌||◌, ◌&&◌, Option, none,
  some, List, [], ◌∷◌, arith, leb, ◌==◌, if◌then◌else◌, ◌⊎◌, add64,
}
use espresso_streamers.Op.Batch.{Batch}
use espresso_streamers.Op.Streamer.Deps.{Deps, Bytes}
use espresso_streamers.Op.Streamer.State.{BatchStreamer}
use espresso_streamers.Op.Streamer.Valid.{IsValid}
use espresso_streamers.Op.Streamer.Head.{has_next}
use espresso_streamers.Op.Streamer.Fetch.{FetchError, fetch_hot_shot_range}
use espresso_streamers.Op.Streamer.Fetch.Keeps.{process_blocks_keeps}
use espresso_streamers.Op.Streamer.Fetch.Range.{
  KeepsScan, scanning, stamp, answer, fetch-failed, fetch-blocks,
}
use espresso_streamers.Op.Streamer.Update.{
  UpdateError, range_failed, range_start, compute_espresso_block_heights_range, update_loop,
  hotshot_block_fetch_limit,
}

-- The documented behaviour of the Espresso client that the loop relies on: a range that holds a
-- block is answered, if at all, with an entry for it.
abbrev pub AnswersEachBlock : Deps → Type 0
AnswersEachBlock d =
    (c : d.Client) (from to namespace : ℕ)
    → from < to
    → (d.fetch_namespace_transactions_in_range c from to namespace).0 ≢ some []

module _ {d : Deps} where
  -- `t` was left because the batch that is due is at the head, or because at most one block up to
  -- `height` is left to read.
  abbrev pub Reached : ℕ → BatchStreamer d → Option UpdateError → BatchStreamer d → Type 0
  Reached height s (some e) t = Unit {0}
  Reached height s none t =
      ((b : Batch) × (t.head_batch ≡ some b) × (b.number ≡ s.next_batch_pos))
      ⊎ (height ≤ range_start t.hot_shot_pos)

  pub record Updated (height : ℕ) (s : BatchStreamer d) (r : Option UpdateError × BatchStreamer d)
      : Type 0 where
    pub valid : IsValid r.1
    pub kept : KeepsScan s r.1
    pub reached : Reached height s r.0 r.1

  -- The test that ends the loop.
  abbrev pub stops : Bool → ℕ → BatchStreamer d → Bool
  stops again height s =
      let (start, finish) =
        compute_espresso_block_heights_range s height hotshot_block_fetch_limit in
      leb finish start || (add64 start 1 == finish && again)

  abbrev pub first_block : ℕ → BatchStreamer d → ℕ
  first_block height s = (compute_espresso_block_heights_range s height hotshot_block_fetch_limit).0

  abbrev pub last_block : ℕ → BatchStreamer d → ℕ
  last_block height s = (compute_espresso_block_heights_range s height hotshot_block_fetch_limit).1

  abbrev pub fetched : ℕ → BatchStreamer d → Option FetchError × BatchStreamer d
  fetched height s = fetch_hot_shot_range s (first_block height s) (last_block height s)

  pub fetch_moves :
      (s : BatchStreamer d) (start finish : ℕ)
      → finish ≢ 0
      → (answer s start finish).0 ≢ some []
      → IsValid s
      → (fetch_hot_shot_range s start finish).0 ≡ none
      → (fetch_hot_shot_range s start finish).1.hot_shot_pos ≡ finish - 1
  fetch_moves s start finish nz ne v h = by_answer (answer s start finish).0 refl
    where
      moved :
          (b : List Bytes) (bs : List (List Bytes))
          → (answer s start finish).0 ≡ some (b ∷ bs)
          → (fetch_hot_shot_range s start finish).1.hot_shot_pos ≡ finish - 1
      moved b bs e =
          let (w, k) =
            process_blocks_keeps (scanning s start finish) start (stamp s start finish) (b ∷ bs)
              (record { buffer = v.buffer; head_due = v.head_due }) in
          ground (arith, fetch-blocks s start finish b bs nz e, k)

      by_answer :
          (o : Option (List (List Bytes)))
          → (answer s start finish).0 ≡ o
          → (fetch_hot_shot_range s start finish).1.hot_shot_pos ≡ finish - 1
      by_answer none e = absurd (cc (fetch-failed s start finish nz e))
      by_answer (some []) e = absurd (ne e)
      by_answer (some (b ∷ bs)) e = moved b bs e

  pub loop_stops :
      (fuel : ℕ) (again : Bool) (height : ℕ) (s : BatchStreamer d)
      → stops again height s ≡ true
      → update_loop (suc fuel) again height s ≡ some (none, s)
  unfolding update_loop
  loop_stops fuel again height s h = rw (h, update_loop)

  -- How a round that was begun ends: by an error, by a batch that was found, or with the rest.
  abbrev pub round_result :
      Option FetchError
      → BatchStreamer d
      → Bool × BatchStreamer d
      → Option (Option UpdateError × BatchStreamer d)
      → Option (Option UpdateError × BatchStreamer d)
  round_result (some e) t (found, u) rest = some (some (range_failed e), t)
  round_result none t (found, u) rest = if found then some (none, u) else rest

  pub loop_goes :
      (fuel : ℕ) (again : Bool) (height : ℕ) (s : BatchStreamer d)
      → stops again height s ≡ false
      → update_loop (suc fuel) again height s
        ≡ round_result
            (fetched height s).0
            (fetched height s).1
            (has_next (fetched height s).1)
            (update_loop fuel true height (has_next (fetched height s).1).1)
  unfolding update_loop
  loop_goes fuel again height s h = ground (arith, h)

  -- The blocks that are still to be read.
  abbrev pub left : ℕ → BatchStreamer d → ℕ
  left height s = height + 1 - range_start s.hot_shot_pos

  abbrev pub Result : ℕ → BatchStreamer d → Option (Option UpdateError × BatchStreamer d) → Type 0
  Result height s none = ⊥
  Result height s (some r) = Updated height s r

  -- The positions stay away from the end of the `uint64` range.
  pub record Fits (height : ℕ) (s : BatchStreamer d) : Type 0 where
    pub height_fits : height + 101 < 2 ^ 64
    pub position_fits : s.hot_shot_pos + 101 < 2 ^ 64

  pub stopped :
      (again : Bool) (height : ℕ) (s : BatchStreamer d)
      → IsValid s
      → Fits height s
      → stops again height s ≡ true
      → height ≤ range_start s.hot_shot_pos
  unfolding compute_espresso_block_heights_range
  stopped again height s v f h = ground arith
