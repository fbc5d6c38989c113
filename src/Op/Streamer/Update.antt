-- ===== src/Op/Streamer/Update.antt =====
-- `computeEspressoBlockHeightsRange` and `Update`.
pub mod Ends
pub mod Total
pub mod Gaps
pub mod Keeps
use espresso_streamers.Base.{
  ℕ, zero, suc, ◌+◌, ◌-◌, Bool, true, false, ◌&&◌, ◌||◌, Option, none, some, ltb, leb, ◌==◌,
  if◌then◌else◌, min, add64, max_uint64,
}
use espresso_streamers.Op.Streamer.Deps.{Deps}
use espresso_streamers.Op.Streamer.State.{BatchStreamer}
use espresso_streamers.Op.Streamer.Head.{has_next}
use espresso_streamers.Op.Streamer.Fetch.{FetchError, fetch_hot_shot_range}

-- `HOTSHOT_BLOCK_FETCH_LIMIT`.
abbrev pub hotshot_block_fetch_limit : ℕ
hotshot_block_fetch_limit = 100

pub data UpdateError : Type 0 where
  latest_failed height_overflow : UpdateError
  range_failed : FetchError → UpdateError

-- Where a scan starts that has visited the block `pos` last.
unfoldable pub range_start : ℕ → ℕ
range_start pos = if ltb 0 pos then add64 pos 1 else pos

module _ {d : Deps} where
  unfoldable pub compute_espresso_block_heights_range : BatchStreamer d → ℕ → ℕ → ℕ × ℕ
  unfolding range_start
  compute_espresso_block_heights_range s finalized_block_height limit =
      let start = range_start s.hot_shot_pos in
      (start, min (add64 start limit) (add64 finalized_block_height 1))

  -- The loop of `Update` on fuel, with `i > 0` as `again`. `none` is that the fuel ran out; a
  -- return with no error is `some (none, …)`.
  unfoldable pub update_loop :
      ℕ → Bool → ℕ → BatchStreamer d → Option (Option UpdateError × BatchStreamer d)
  unfolding compute_espresso_block_heights_range
  update_loop zero again height s = none
  update_loop (suc fuel) again height s =
      let (start, finish) =
        compute_espresso_block_heights_range s height hotshot_block_fetch_limit in
      let (e, s') = fetch_hot_shot_range s start finish in
      let (found, s'') = has_next s' in
      let rest = update_loop fuel true height s'' in
      if leb finish start || (add64 start 1 == finish && again) then some (none, s) else elim e [
        | some x ↦ some (some (range_failed x), s')
        | none ↦ if found then some (none, s'') else rest
      ]

  unfoldable pub update : ℕ → BatchStreamer d → Option (Option UpdateError × BatchStreamer d)
  unfolding update_loop
  update fuel s =
      let (answer, client) = d.fetch_latest_block_height s.client in
      let s' = record s { client = client } in
      elim answer [
        | none ↦ some (some latest_failed, s')
        | some latest ↦
            if latest == max_uint64
            then some (some height_overflow, s')
            else if ltb latest 2
            then some (none, s')
            else update_loop fuel false (latest - 2) s'
      ]
