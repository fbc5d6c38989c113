-- ===== src/Nitro/Streamer/Earliest.antt =====
-- The block to restart from.
use espresso_streamers.Base.{
  ℕ, ◌≤◌, ◌<◌, ◌≡◌, ◌⊎◌, inl, inr, refl, ◌∙◌, ap, [], ◌∷◌, ltb, leb, if◌then◌else◌, ◌==◌, length,
  All, arith, Bool-cases, Option-cases,
}
use mathlib.Core.Logic.{∥∥₁_elim}
use mathlib.Core.List.{Perm, Permᴰ}
use mathlib.Core.List.Permᴰ.{nil, cons, swap, trans}
use espresso_streamers.Nitro.Streamer.{
  EspressoClient, NitroStreamer, Messages, lookup, min_height,
  get_current_earliest_hot_shot_block_number,
}
use espresso_streamers.Nitro.Streamer.Queue.{Entry, IsEntry, Rises, IsQueue, All-lookup}

min_height_le : (pos : ℕ) (ms : Messages) (low : ℕ) → min_height pos ms low ≤ low
unfolding min_height
min_height_le pos [] low = omega arith
min_height_le pos ((k, m) ∷ ms) low =
    ground (arith, min_height_le pos ms low, min_height_le pos ms m.hotshot_height)

min_height-All :
    (pos : ℕ) (ms : Messages) (low : ℕ)
    → All (λ x. (x.0 < pos) ⊎ (min_height pos ms low ≤ x.1.hotshot_height)) ms
unfolding min_height
min_height-All pos [] low = tt
min_height-All pos ((k, m) ∷ ms) low = (
  ground (arith, min_height_le pos ms low, min_height_le pos ms m.hotshot_height),
  min_height-All pos ms _,
)

-- It is at least any bound of the given height and of the messages in the range.
le-min_height :
    (pos bound : ℕ) (ms : Messages) (low : ℕ)
    → bound ≤ low
    → All (λ x. (x.0 < pos) ⊎ (bound ≤ x.1.hotshot_height)) ms
    → bound ≤ min_height pos ms low
unfolding min_height
le-min_height pos bound [] low le h = le
le-min_height pos bound ((k, m) ∷ ms) low le (p, h) =
    le-min_height pos bound ms _ (ground (arith, le, p)) h

-- What the loop of `min_height` does with one entry.
abbrev lowered : ℕ → Entry → ℕ → ℕ
lowered pos x low =
    if leb pos x.0 then (if ltb x.1.hotshot_height low then x.1.hotshot_height else low) else low

lowered_comm :
    (pos low : ℕ) (x y : Entry)
    → lowered pos y (lowered pos x low) ≡ lowered pos x (lowered pos y low)
lowered_comm pos low x y = ground arith

min_height-Permᴰ :
    (pos : ℕ) {ms ns : Messages}
    → Permᴰ ms ns
    → (low : ℕ) → min_height pos ms low ≡ min_height pos ns low
unfolding min_height
min_height-Permᴰ pos nil low = refl
min_height-Permᴰ pos (cons {a} {b} f d) low = rw f (min_height-Permᴰ pos d (lowered pos b low))
min_height-Permᴰ pos (swap {a' = a'} {b' = b'} {l = l} f g) low =
    rw f (rw g (ap (min_height pos l) (lowered_comm pos low b' a')))
min_height-Permᴰ pos (trans d d') low = min_height-Permᴰ pos d low ∙ min_height-Permᴰ pos d' low

-- The order in which the map is ranged over does not matter.
min_height-Perm :
    (pos low : ℕ) (ms ns : Messages) → Perm ms ns → min_height pos ms low ≡ min_height pos ns low
min_height-Perm pos low ms ns p = ∥∥₁_elim p (hlevel) (λ d. min_height-Permᴰ pos d low)

min_height-empty : (pos : ℕ) (ms : Messages) (low : ℕ) → length ms ≡ 0 → min_height pos ms low ≡ low
unfolding min_height
min_height-empty pos [] low h = refl
min_height-empty pos (x ∷ ms) low h = absurd (omega arith)

All-empty : (P : Entry → Type 0) (ms : Messages) → length ms ≡ 0 → All P ms
All-empty P [] h = tt
All-empty P (x ∷ ms) h = absurd (omega arith)

module _ {e : EspressoClient} where
  -- In a streamer whose map is in order, the block that `GetCurrentEarliestHotShotBlockNumber`
  -- names for a position is at most the next block, and at most the height of every message that is
  -- kept for that position or a later one.
  pub earliest_lem :
      (s : NitroStreamer e) (pos : ℕ)
      → IsQueue s
      → (get_current_earliest_hot_shot_block_number s pos ≤ s.next_hotshot_block_num)
        × All
            (λ x.
              (x.0 < pos) ⊎ (get_current_earliest_hot_shot_block_number s pos ≤ x.1.hotshot_height))
            s.messages
  unfolding get_current_earliest_hot_shot_block_number
  earliest_lem s pos q =
      let ms = s.messages in
      let next = s.next_hotshot_block_num in
      let earliest = get_current_earliest_hot_shot_block_number s pos in
      elim (Bool-cases (length ms == 0)) [
        | inl t ↦
            let g : earliest ≡ next = ground (arith, t) in
            (ground (arith, g), All-empty _ ms (ground (arith, t)))
        | inr t ↦ elim (Option-cases (lookup pos ms)) [
          | inl f ↦
              let g : earliest ≡ min_height pos ms next = ground (arith, t, f) in
              rw g (min_height_le pos ms next, min_height-All pos ms next)
          | inr (m, f) ↦
              let g : earliest ≡ m.hotshot_height = ground (arith, t, f) in
              let k : IsEntry s.current_message_pos s.highest_pos next (pos, m) =
                All-lookup (IsEntry s.current_message_pos s.highest_pos next) ms pos m q.entries
                  f in
              rw g (k.3, All-lookup (λ x. All (Rises x) ms) ms pos m q.rising f)
        ]
      ]

  -- In a streamer whose map is in order, `GetCurrentEarliestHotShotBlockNumber`, which for a position
  -- that is kept answers with the height of its message, answers what the loop over the map finds,
  -- in whichever order this ranges over the map.
  pub earliest_scan :
      (s : NitroStreamer e) (pos : ℕ) (ms : Messages)
      → IsQueue s
      → Perm s.messages ms
      → get_current_earliest_hot_shot_block_number s pos
        ≡ min_height pos ms s.next_hotshot_block_num
  unfolding get_current_earliest_hot_shot_block_number
  earliest_scan s pos ms q p =
      let next = s.next_hotshot_block_num in
      let scan = min_height pos s.messages next in
      let same = min_height-Perm pos next s.messages ms p in
      let (le, below) = earliest_lem s pos q in
      let above =
        le-min_height pos (get_current_earliest_hot_shot_block_number s pos) s.messages next le
          below in
      elim (Bool-cases (length s.messages == 0)) [
        | inl t ↦ ground (arith, t, same, min_height-empty pos s.messages next (ground (arith, t)))
        | inr t ↦ elim (Option-cases (lookup pos s.messages)) [
          | inl f ↦ ground (arith, t, f, same)
          | inr (m, f) ↦
              let k =
                All-lookup (λ x. (x.0 < pos) ⊎ (scan ≤ x.1.hotshot_height)) s.messages pos m
                  (min_height-All pos s.messages next) f in
              ground (arith, t, f, same, k, above)
        ]
      ]
