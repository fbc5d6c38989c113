-- ===== src/Nitro/Streamer/Feed.antt =====
-- What the nitro streamer promises: a position, the next block, and at each position a message or
-- none. The heights of the messages and the order of the map are left out.
use espresso_streamers.Base.{ℕ, Bool, Option, none, some, ltb, leb, ◌==◌, if◌then◌else◌, add64}
use espresso_streamers.Nitro.Types.{MessageWithMetadata}

pub record Feed : Type 0 where
  pub position : ℕ
  pub next : ℕ
  pub contents : ℕ → Option MessageWithMetadata

-- No message at the positions that are gone, and as before elsewhere.
abbrev pub without : (ℕ → Bool) → (ℕ → Option MessageWithMetadata) → ℕ → Option MessageWithMetadata
without gone contents p = if gone p then none else contents p

abbrev pub advance : Feed → Feed
advance f = record f {
  position = add64 f.position 1;
  contents = without (λ p. p == f.position) f.contents;
}

abbrev pub advance_to : Feed → ℕ → Feed
advance_to f to_pos =
    if leb to_pos f.position
    then f
    else record f { position = to_pos; contents = without (λ p. ltb p to_pos) f.contents }

abbrev pub reset : ℕ → ℕ → Feed
reset pos block = record { position = pos; next = block; contents = λ p. none }

-- A message is put in where none is, not behind the position.
abbrev pub put : Feed → ℕ → MessageWithMetadata → Feed
put f pos msg = if ltb pos f.position then f else record f {
  contents =
      λ p. elim (f.contents p) [ some m ↦ some m | none ↦ if p == pos then some msg else none ];
}
