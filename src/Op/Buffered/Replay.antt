-- ===== src/Op/Buffered/Replay.antt =====
-- The window is replayed after `Reset`.
use espresso_streamers.Base.{
  ℕ, zero, suc, ◌+◌, ◌≡◌, refl, Option, none, some, List, [], ◌∷◌, length, get_elem?, drop, arith,
  get_elem?_of_lt, drop-length,
}
use espresso_streamers.Op.Batch.{Batch}
use espresso_streamers.Op.Interface.{EspressoStreamer}
use espresso_streamers.Op.Buffered.{BufferedStreamer, next, reset}

-- `n` calls of `Next`, and the batches that they return; `none` if one returns nothing.
unfoldable pub nexts :
    {i : EspressoStreamer} → ℕ → ℕ → BufferedStreamer i → Option (List Batch × BufferedStreamer i)
nexts fuel zero b = some ([], b)
nexts fuel (suc n) b = elim (next fuel b) [
  | none ↦ none
  | some (none, b') ↦ none
  | some (some x, b') ↦ elim (nexts fuel n b') [ none ↦ none | some (xs, b'') ↦ some (x ∷ xs, b'') ]
]

drop_at :
    (xs : List Batch) (k : ℕ) (x : Batch)
    → get_elem? xs k ≡ some x
    → drop k xs ≡ x ∷ drop (k + 1) xs
drop_at [] k x e = cc
drop_at (y ∷ ys) zero x e = cc
drop_at (y ∷ ys) (suc k) x e =
    let q : suc k + 1 ≡ suc (k + 1) = omega arith in rw q (drop_at ys k x e)

module _ {i : EspressoStreamer} where
  replays_from :
      (fuel m : ℕ) (b : BufferedStreamer i)
      → b.read_pos + m ≡ length b.batches
      → nexts fuel m b ≡ some (drop b.read_pos b.batches, record b { read_pos = length b.batches })
  unfolding nexts next
  replays_from fuel zero b e =
      let at : b.read_pos ≡ length b.batches = ground (arith, e) in
      rw (at, drop-length b.batches) refl
  replays_from fuel (suc m) b e =
      let (x, f) = get_elem?_of_lt b.batches b.read_pos (ground (arith, e)) in
      let rest = replays_from fuel m (record b { read_pos = b.read_pos + 1 }) (ground (arith, e)) in
      let g = drop_at b.batches b.read_pos x f in ground (arith, e, f, rest, g)

  -- After `Reset`, as many calls of `Next` as there are batches in the window return those batches
  -- in order, and the streamer below is not touched.
  pub replays :
      (fuel : ℕ) (b : BufferedStreamer i)
      → nexts fuel (length b.batches) (reset b)
        ≡ some (b.batches, record b { read_pos = length b.batches })
  unfolding reset
  replays fuel b = replays_from fuel (length b.batches) (reset b) (omega arith)
