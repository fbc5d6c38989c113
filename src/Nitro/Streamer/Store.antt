-- ===== src/Nitro/Streamer/Store.antt =====
-- What the loop of `parseEspressoTransaction` does with one message.
use espresso_streamers.Base.{
  ℕ, suc, ◌+◌, ◌-◌, ◌^◌, ◌≤◌, ◌<◌, ◌≡◌, ◌⊎◌, inl, inr, Option, none, some, ◌∷◌, ltb, if◌then◌else◌,
  arith, Bool-cases, Option-cases, add64,
}
use espresso_streamers.Nitro.Types.{MessageWithMetadataAndPos}
use espresso_streamers.Nitro.Streamer.{EspressoClient, NitroStreamer, lookup, queue_message}
use espresso_streamers.Nitro.Streamer.Queue.{added, lower_height-lowest, lower_height-endless}

module _ {e : EspressoClient} where
  -- The highest position once the message is in the map, and the streamer then.
  abbrev pub top : NitroStreamer e → MessageWithMetadataAndPos → ℕ
  top s msg = if ltb s.highest_pos msg.pos then msg.pos else s.highest_pos

  abbrev pub put_in : NitroStreamer e → MessageWithMetadataAndPos → NitroStreamer e
  put_in s msg = record s {
    highest_pos = top s msg;
    messages = added s msg (top s msg) ∷ s.messages;
  }

  -- The message is behind, or its position is taken; it is put in; or, at the end of the uint64
  -- range, the call does not return.
  pub data Queueing (s : NitroStreamer e) (msg : MessageWithMetadataAndPos)
      (r : Option (NitroStreamer e)) : Type 0 where
    passed_over :
        (msg.pos < s.current_message_pos)
          ⊎ ((other : MessageWithMetadataAndPos) × (lookup msg.pos s.messages ≡ some other))
        → r ≡ some s
        → Queueing s msg r
    put :
        s.current_message_pos ≤ msg.pos
        → lookup msg.pos s.messages ≡ none
        → top s msg + 1 < 2 ^ 64
        → r ≡ some (put_in s msg)
        → Queueing s msg r
    endless : 2 ^ 64 ≤ top s msg + 1 → r ≡ none → Queueing s msg r

  pub queue_message-Queueing :
      (s : NitroStreamer e) (msg : MessageWithMetadataAndPos) → Queueing s msg (queue_message s msg)
  unfolding queue_message
  queue_message-Queueing s msg = elim (Bool-cases (ltb msg.pos s.current_message_pos)) [
    | inl t ↦ passed_over (inl (ground (arith, t))) (ground (arith, t))
    | inr t ↦ elim (Option-cases (lookup msg.pos s.messages)) [
      | inr (other, f) ↦ passed_over (inr (other, f)) (ground (arith, t, f))
      | inl f ↦
          let highest = top s msg in
          let reach : msg.pos ≤ highest = ground arith in
          let fuel = suc (highest - msg.pos) in
          elim (Bool-cases (ltb (highest + 1) (2 ^ 64))) [
            | inl lt ↦
                let next : add64 msg.pos 1 ≡ msg.pos + 1 = ground (arith, reach, lt) in
                let n : highest + 1 - (msg.pos + 1) ≡ highest - msg.pos = omega arith in
                let ends =
                  lower_height-lowest fuel s.messages (msg.pos + 1) highest msg.hotshot_height
                    (ground (arith, lt)) (omega arith) (omega arith) in
                put (ground (arith, t)) f (ground (arith, lt)) (ground (arith, t, f, next, n, ends))
            | inr ge ↦
                let hangs =
                  lower_height-endless fuel s.messages (add64 msg.pos 1) highest msg.hotshot_height
                    (ground (arith, ge)) (omega arith) in
                endless (ground (arith, ge)) (ground (arith, t, f, hangs))
          ]
    ]
  ]

  -- A property of the streamer before and of the one with the message in it holds of what is
  -- returned.
  pub queue_message-returned :
      (P : NitroStreamer e → Type 0) (s t : NitroStreamer e) (msg : MessageWithMetadataAndPos)
      → P s
      → (s.current_message_pos ≤ msg.pos
          → lookup msg.pos s.messages ≡ none
          → top s msg + 1 < 2 ^ 64
          → P (put_in s msg))
      → queue_message s msg ≡ some t
      → P t
  queue_message-returned P s t msg before after r = elim (queue_message-Queueing s msg) [
    | passed_over why g ↦ let same : t ≡ s = ground (arith, r, g) in rw same before
    | put le fresh lt g ↦
        let same : t ≡ put_in s msg = ground (arith, r, g) in rw same (after le fresh lt)
    | endless high g ↦ absurd (ground (arith, r, g))
  ]

  -- With the positions below the end of the uint64 range the call returns.
  pub queue_message_returns :
      (s : NitroStreamer e) (msg : MessageWithMetadataAndPos)
      → s.highest_pos + 1 < 2 ^ 64
      → msg.pos + 1 < 2 ^ 64
      → (t : NitroStreamer e) × (queue_message s msg ≡ some t) × (t.highest_pos + 1 < 2 ^ 64)
  queue_message_returns s msg high low = elim (queue_message-Queueing s msg) [
    | passed_over why g ↦ (s, g, high)
    | put le fresh lt g ↦ (put_in s msg, g, lt)
    | endless top g ↦ absurd (ground (arith, top, high, low))
  ]
