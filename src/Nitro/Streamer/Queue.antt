-- ===== src/Nitro/Streamer/Queue.antt =====
-- The map of the nitro streamer: heights rise with the positions, so that one block bounds them all.
use espresso_streamers.Base.{
  add64, leb, true, if◌then◌else◌, ◌^◌, refl, ℕ, zero, suc, ◌+◌, ◌-◌, ◌≤◌, ◌<◌, ◌≡◌, ◌⊎◌, inl, inr,
  none, some, [], ◌∷◌, ltb, ◌==◌, All, arith, Bool-cases, Option-cases,
}
use espresso_streamers.Nitro.Types.{MessageWithMetadataAndPos}
use espresso_streamers.Nitro.Streamer.{
  EspressoClient, NitroStreamer, Messages, lookup, lower_height,
}

abbrev pub Entry : Type 0
Entry = ℕ × MessageWithMetadataAndPos

-- Each key stands once.
abbrev pub Distinct : Messages → Type 0
Distinct [] = Unit
Distinct ((key, msg) ∷ ms) = (lookup key ms ≡ none) × Distinct ms

-- An entry has the position of its message, between the current one and the highest one, and a
-- height not after the next block.
abbrev pub IsEntry : ℕ → ℕ → ℕ → Entry → Type 0
IsEntry current highest next (key, msg) =
    (msg.pos ≡ key) × (current ≤ key) × (key ≤ highest) × (msg.hotshot_height ≤ next)

-- Of two entries the one at the higher position does not have the lower height.
abbrev pub Rises : Entry → Entry → Type 0
Rises (p, m) (q, n) = (q < p) ⊎ (m.hotshot_height ≤ n.hotshot_height)

abbrev pub IsRising : Messages → Type 0
IsRising ms = All (λ x. All (Rises x) ms) ms

pub All-weaken :
    (P Q : Entry → Type 0) (ms : Messages) → ((x : Entry) → P x → Q x) → All P ms → All Q ms
All-weaken P Q [] f h = tt
All-weaken P Q (x ∷ ms) f (p, h) = (f x p, All-weaken P Q ms f h)

pub All-both :
    (P Q : Entry → Type 0) (ms : Messages) → All P ms → All Q ms → All (λ x. P x × Q x) ms
All-both P Q [] g h = tt
All-both P Q (x ∷ ms) (p, g) (q, h) = ((p, q), All-both P Q ms g h)

-- What a map finds is an entry of it.
pub All-lookup :
    (P : Entry → Type 0) (ms : Messages) (pos : ℕ) (msg : MessageWithMetadataAndPos)
    → All P ms
    → lookup pos ms ≡ some msg
    → P (pos, msg)
unfolding lookup
All-lookup P [] pos msg h e = cc
All-lookup P ((key, m) ∷ ms) pos msg (p, h) e = elim (Bool-cases (key == pos)) [
  | inl t ↦
      let k : key ≡ pos = ground (arith, t) in
      let f : m ≡ msg = ground (arith, e, t) in rw k at (rw f at p)
  | inr t ↦ All-lookup P ms pos msg h (ground (arith, e, t))
]

-- Every entry of a map with distinct keys is found.
pub Distinct-Found : (ms : Messages) → Distinct ms → All (λ x. lookup x.0 ms ≡ some x.1) ms
unfolding lookup
Distinct-Found [] h = tt
Distinct-Found ((key, msg) ∷ ms) (fresh, h) = (
  ground arith,
  All-weaken (λ x. lookup x.0 ms ≡ some x.1) (λ x. lookup x.0 ((key, msg) ∷ ms) ≡ some x.1) ms
      (λ x e. elim (Bool-cases (key == x.0)) [
        | inl t ↦
            let k : key ≡ x.0 = ground (arith, t) in
            let f : lookup x.0 ms ≡ none = rw k at fresh in absurd (ground (arith, e, f))
        | inr t ↦ ground (arith, e, t)
      ])
      (Distinct-Found ms h),
)

-- The lowest of a height and of the heights of the messages at `n` positions from `next` on.
unfoldable pub lowest : Messages → ℕ → ℕ → ℕ → ℕ
lowest ms next zero height = height
lowest ms next (suc n) height = lowest ms (next + 1) n (elim (lookup next ms) [
  | none ↦ height
  | some higher ↦ if ltb higher.hotshot_height height then higher.hotshot_height else height
])

-- Below the end of the uint64 range the loop ends, with the lowest height.
pub lower_height-lowest :
    (fuel : ℕ) (ms : Messages) (next highest height : ℕ)
    → highest + 1 < 2 ^ 64
    → next ≤ highest + 1
    → highest + 1 < fuel + next
    → lower_height fuel ms next highest height ≡ some (lowest ms next (highest + 1 - next) height)
unfolding lower_height lowest
lower_height-lowest zero ms next highest height lt le enough = absurd (omega arith)
lower_height-lowest (suc fuel) ms next highest height lt le enough =
    elim (Bool-cases (leb next highest)) [
      | inl t ↦
          let n : highest + 1 - next ≡ suc (highest + 1 - (next + 1)) = ground (arith, t) in
          let w : add64 next 1 ≡ next + 1 = ground (arith, t, lt) in
          let rest =
            lower_height-lowest fuel ms (next + 1) highest
              (elim (lookup next ms) [
                | none ↦ height
                | some higher ↦
                    if ltb higher.hotshot_height height then higher.hotshot_height else height
              ])
              lt (ground (arith, t)) (omega arith) in
          rw (n, t, w) rest
      | inr t ↦ let n : highest + 1 - next ≡ 0 = ground (arith, t) in rw (n, t) refl
    ]

-- At the end of it the loop does not end.
pub lower_height-endless :
    (fuel : ℕ) (ms : Messages) (next highest height : ℕ)
    → 2 ^ 64 ≤ highest + 1
    → next < 2 ^ 64
    → lower_height fuel ms next highest height ≡ none
unfolding lower_height
lower_height-endless zero ms next highest height top lt = refl
lower_height-endless (suc fuel) ms next highest height top lt =
    let t : leb next highest ≡ true = ground (arith, top, lt) in
    rw t (lower_height-endless fuel ms (add64 next 1) highest _ top (omega arith))

-- The lowest height is at most the given one, and that of each message in the range.
pub lowest_le : (ms : Messages) (next n height : ℕ) → lowest ms next n height ≤ height
unfolding lowest
lowest_le ms next zero height = omega arith
lowest_le ms next (suc n) height = elim (Option-cases (lookup next ms)) [
  | inl e ↦ ground (arith, e, lowest_le ms (next + 1) n height)
  | inr (m, e) ↦
      ground
        (arith, e, lowest_le ms (next + 1) n height, lowest_le ms (next + 1) n m.hotshot_height)
]

lowest_le_of_lookup :
    (ms : Messages) (next n height pos : ℕ) (msg : MessageWithMetadataAndPos)
    → lookup pos ms ≡ some msg
    → next ≤ pos
    → pos < next + n
    → lowest ms next n height ≤ msg.hotshot_height
unfolding lowest
lowest_le_of_lookup ms next zero height pos msg e lo hi = absurd (omega arith)
lowest_le_of_lookup ms next (suc n) height pos msg e lo hi = elim (Bool-cases (next == pos)) [
  | inl t ↦
      let f : lookup next ms ≡ some msg = ground (arith, t, e) in
      ground
        (arith, f, lowest_le ms (next + 1) n height, lowest_le ms (next + 1) n msg.hotshot_height)
  | inr t ↦ lowest_le_of_lookup ms (next + 1) n _ pos msg e (ground (arith, t)) (omega arith)
]

-- It is at least any bound of the given height and of the messages from `next` on.
pub le-lowest :
    (ms : Messages) (bound next n height : ℕ)
    → bound ≤ height
    → All (λ x. (x.0 < next) ⊎ (bound ≤ x.1.hotshot_height)) ms
    → bound ≤ lowest ms next n height
unfolding lowest
le-lowest ms bound next zero height le h = le
le-lowest ms bound next (suc n) height le h =
    let later =
      All-weaken (λ x. (x.0 < next) ⊎ (bound ≤ x.1.hotshot_height))
        (λ x. (x.0 < next + 1) ⊎ (bound ≤ x.1.hotshot_height)) ms (λ x k. ground (arith, k)) h in
    elim (Option-cases (lookup next ms)) [
      | inl e ↦ ground (arith, e, le-lowest ms bound (next + 1) n height le later)
      | inr (m, e) ↦
          let here : (next < next) ⊎ (bound ≤ m.hotshot_height) =
            All-lookup (λ x. (x.0 < next) ⊎ (bound ≤ x.1.hotshot_height)) ms next m h e in
          let high : bound ≤ m.hotshot_height = ground (arith, here) in
          ground (
            arith,
            e,
            le-lowest ms bound (next + 1) n height le later,
            le-lowest ms bound (next + 1) n m.hotshot_height high later,
          )
    ]

module _ {e : EspressoClient} where
  pub record IsQueue (s : NitroStreamer e) : Type 0 where
    pub entries :
        All (IsEntry s.current_message_pos s.highest_pos s.next_hotshot_block_num) s.messages
    pub distinct : Distinct s.messages
    pub rising : IsRising s.messages

  -- The entry that `queue_message` adds.
  abbrev pub added : NitroStreamer e → MessageWithMetadataAndPos → ℕ → Entry
  added s msg highest = (
    msg.pos,
    record msg {
      hotshot_height = lowest s.messages (msg.pos + 1) (highest - msg.pos) msg.hotshot_height;
    },
  )

  pub added_below :
      (s : NitroStreamer e) (msg : MessageWithMetadataAndPos) (highest : ℕ)
      → IsQueue s
      → s.highest_pos ≤ highest
      → lookup msg.pos s.messages ≡ none
      → All (Rises (added s msg highest)) s.messages
  added_below s msg highest q le fresh =
      let next = s.next_hotshot_block_num in
      let current = s.current_message_pos in
      All-weaken (λ x. IsEntry current s.highest_pos next x × (lookup x.0 s.messages ≡ some x.1))
        (Rises (added s msg highest)) s.messages
        (λ x (k, f). elim (Bool-cases (ltb msg.pos x.0)) [
          | inl t ↦ inr (
              lowest_le_of_lookup s.messages (msg.pos + 1) (highest - msg.pos) msg.hotshot_height
                x.0 x.1 f (ground (arith, t)) (ground (arith, k, t, le)))
          | inr t ↦ elim (Bool-cases (x.0 == msg.pos)) [
            | inl u ↦
                let v : x.0 ≡ msg.pos = ground (arith, u) in
                let w : lookup msg.pos s.messages ≡ some x.1 = rw v at f in
                absurd (ground (arith, w, fresh))
            | inr u ↦ inl (ground (arith, t, u))
          ]
        ])
        (All-both (IsEntry current s.highest_pos next) (λ x. lookup x.0 s.messages ≡ some x.1)
          s.messages q.entries (Distinct-Found s.messages q.distinct))

  pub added_above :
      (s : NitroStreamer e) (msg : MessageWithMetadataAndPos) (highest : ℕ)
      → IsQueue s
      → msg.hotshot_height ≡ s.next_hotshot_block_num
      → All (λ x. Rises x (added s msg highest)) s.messages
  added_above s msg highest q now =
      let next = s.next_hotshot_block_num in
      let current = s.current_message_pos in
      All-weaken (λ x. IsEntry current s.highest_pos next x × All (Rises x) s.messages)
        (λ x. Rises x (added s msg highest)) s.messages
        (λ x (k, r). elim (Bool-cases (ltb msg.pos x.0)) [
          | inl t ↦ inl (ground (arith, t))
          | inr t ↦ inr (
              le-lowest s.messages x.1.hotshot_height (msg.pos + 1) (highest - msg.pos)
                msg.hotshot_height (ground (arith, k, now))
                (All-weaken (Rises x)
                  (λ y. (y.0 < msg.pos + 1) ⊎ (x.1.hotshot_height ≤ y.1.hotshot_height)) s.messages
                  (λ y g. ground (arith, g, t)) r))
        ])
        (All-both (IsEntry current s.highest_pos next) (λ x. All (Rises x) s.messages) s.messages
          q.entries q.rising)
