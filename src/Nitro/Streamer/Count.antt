-- ===== src/Nitro/Streamer/Count.antt =====
-- `GetMessageCount`.
use espresso_streamers.Base.{
  ℕ, zero, suc, ◌+◌, ◌-◌, ◌^◌, ◌≤◌, ◌<◌, ◌≡◌, inl, inr, ap, ◌∙◌, none, some, arith, Option-cases,
  Bool-cases, ◌==◌, add64,
}
use espresso_streamers.Nitro.Types.{MessageWithMetadataAndPos}
use espresso_streamers.Nitro.Streamer.{
  EspressoClient, NitroStreamer, lookup, count_loop, get_message_count,
}
use espresso_streamers.Nitro.Streamer.Queue.{IsEntry, IsQueue, All-lookup}

module _ {e : EspressoClient} where
  -- The first position from `pos` on of which there is no message.
  abbrev pub IsFirstGap : NitroStreamer e → ℕ → ℕ → Type 0
  IsFirstGap s pos count =
      (pos ≤ count)
      × ((p : ℕ)
          → pos ≤ p
          → p < count
          → (msg : MessageWithMetadataAndPos) × (lookup p s.messages ≡ some msg))
      × (lookup count s.messages ≡ none)

  gap_here : (s : NitroStreamer e) (pos : ℕ) → lookup pos s.messages ≡ none → IsFirstGap s pos pos
  gap_here s pos f = (omega arith, (λ p lo hi. absurd (omega arith)), f)

  gap_later :
      (s : NitroStreamer e) (pos count : ℕ) (msg : MessageWithMetadataAndPos)
      → lookup pos s.messages ≡ some msg
      → IsFirstGap s (pos + 1) count
      → IsFirstGap s pos count
  gap_later s pos count msg f (lo, all, gap) = (
    omega arith,
    (λ p low high. elim (Bool-cases (p == pos)) [
      | inl t ↦ (msg, ground (arith, t, f))
      | inr t ↦ all p (ground (arith, t, low)) high
    ]),
    gap,
  )

  kept_below :
      (s : NitroStreamer e) (pos : ℕ) (msg : MessageWithMetadataAndPos)
      → IsQueue s
      → lookup pos s.messages ≡ some msg
      → pos ≤ s.highest_pos
  kept_below s pos msg q f =
      let k : IsEntry s.current_message_pos s.highest_pos s.next_hotshot_block_num (pos, msg) =
        All-lookup (IsEntry s.current_message_pos s.highest_pos s.next_hotshot_block_num) s.messages
          pos msg q.entries f in
      k.2

  count_step :
      (s : NitroStreamer e) (fuel pos : ℕ) (msg : MessageWithMetadataAndPos)
      → lookup pos s.messages ≡ some msg
      → count_loop (suc fuel) s pos ≡ count_loop fuel s (add64 pos 1)
  unfolding count_loop
  count_step s fuel pos msg f = ground (arith, f)

  count_loop_lem :
      (s : NitroStreamer e) (fuel pos : ℕ)
      → IsQueue s
      → s.highest_pos + 1 < 2 ^ 64
      → suc s.highest_pos ≤ fuel + pos
      → (count : ℕ) × (count_loop (suc fuel) s pos ≡ some count) × IsFirstGap s pos count
  unfolding count_loop
  count_loop_lem s zero pos q lt enough = elim (Option-cases (lookup pos s.messages)) [
    | inl f ↦ (pos, ground (arith, f), gap_here s pos f)
    | inr (msg, f) ↦ let below = kept_below s pos msg q f in absurd (omega arith)
  ]
  count_loop_lem s (suc fuel) pos q lt enough = elim (Option-cases (lookup pos s.messages)) [
    | inl f ↦ (pos, ground (arith, f), gap_here s pos f)
    | inr (msg, f) ↦
        let below = kept_below s pos msg q f in
        let (count, r, gap) = count_loop_lem s fuel (pos + 1) q lt (omega arith) in
        let next : add64 pos 1 ≡ pos + 1 = ground (arith, lt, below) in
        let g : count_loop (suc (suc fuel)) s pos ≡ count_loop (suc fuel) s (pos + 1) =
          count_step s (suc fuel) pos msg f ∙ ap (count_loop (suc fuel) s) next in
        (count, g ∙ r, gap_later s pos count msg f gap)
  ]

  -- If the map is in order and the highest position is below 2^64 - 1, `GetMessageCount` ends, with
  -- the first position from the current one on of which there is no message.
  pub get_message_count_lem :
      (s : NitroStreamer e)
      → IsQueue s
      → s.highest_pos + 1 < 2 ^ 64
      → (count : ℕ) × (get_message_count s ≡ some count) × IsFirstGap s s.current_message_pos count
  unfolding get_message_count
  get_message_count_lem s q lt =
      count_loop_lem s (suc s.highest_pos - s.current_message_pos) s.current_message_pos q lt
        (omega arith)
