-- ===== src/Nitro/Streamer/Consume.antt =====
-- A user of the nitro streamer who peeks at messages and advances over them while the goroutine of
-- `Start` works.
use espresso_streamers.Base.{
  Option-cases, arith, inl, inr, ℕ, ◌≡◌, Option, none, some, List, [], ◌∷◌, ◌++◌, arith,
}
use espresso_streamers.Nitro.Types.{MessageWithMetadataAndPos}
use espresso_streamers.Nitro.Codec.{Codec}
use espresso_streamers.Nitro.Streamer.{EspressoClient, NitroStreamer, peek, advance}
use espresso_streamers.Nitro.Streamer.Hotshot.{parse_espresso_transaction, fetch_blocks, jump}
use espresso_streamers.Nitro.Streamer.Queue.{IsQueue}
use espresso_streamers.Nitro.Streamer.Outcome.{
  IsBounded, Outcome, failed, fetched, fetch_blocks-Outcome,
}
use espresso_streamers.Nitro.Streamer.Reading.{parse_espresso_transaction-Kept}
use espresso_streamers.Nitro.Streamer.Interleave.{Round, idle, fetching, parsing, System, work}

-- The user has taken some messages and may hold the answer of a `Peek` that they have not advanced
-- over yet; the goroutine works at any point.
pub data Consumes {e : EspressoClient} (c : Codec) (x : System e)
    : System e → List MessageWithMetadataAndPos → Option MessageWithMetadataAndPos → Type 0 where
  begins : Consumes c x x [] none
  goes_on :
      {y z : System e} {ms : List MessageWithMetadataAndPos}
      {held : Option MessageWithMetadataAndPos}
      → Consumes c x y ms held
      → work c y.streamer y.round ≡ some z
      → Consumes c x z ms held
  peeks :
      {y : System e} {ms : List MessageWithMetadataAndPos} {held : Option MessageWithMetadataAndPos}
      → Consumes c x y ms held
      → Consumes c x y ms (peek y.streamer)
  takes :
      {y : System e} {ms : List MessageWithMetadataAndPos} {m : MessageWithMetadataAndPos}
      → Consumes c x y ms (some m)
      → Consumes c x (record y { streamer = advance y.streamer }) (ms ++ (m ∷ [])) none

module _ {e : EspressoClient} where
  fetch-position :
      (c : Codec) (s : NitroStreamer e) (start : ℕ) (y : System e)
      → Outcome s start (fetch_blocks s start)
      → work c s (fetching start) ≡ some y
      → y.streamer.current_message_pos ≡ s.current_message_pos
  unfolding work
  fetch-position c s start y (failed k x r) w = ground (arith, w, r)
  fetch-position c s start y (fetched k f b r) w = ground (arith, w, r)

  jump-position :
      (s : NitroStreamer e) (start to_block : ℕ)
      → (jump s start to_block).current_message_pos ≡ s.current_message_pos
  unfolding jump
  jump-position s start to_block = ground arith

  -- The goroutine leaves the position to the user.
  pub work-position :
      (c : Codec) (s : NitroStreamer e) (r : Round) (y : System e)
      → IsBounded e
      → IsQueue s
      → work c s r ≡ some y
      → y.streamer.current_message_pos ≡ s.current_message_pos
  unfolding work
  work-position c s idle y bounded q w = ground (arith, w)
  work-position c s (fetching start) y bounded q w =
      fetch-position c s start y (fetch_blocks-Outcome s start bounded) w
  work-position c s (parsing start to_block l1_height []) y bounded q w =
      ground (arith, w, jump-position s start to_block)
  work-position c s (parsing start to_block l1_height (tx ∷ txs)) y bounded q w =
      elim (Option-cases (parse_espresso_transaction c s tx l1_height)) [
        | inl f ↦ absurd (ground (arith, w, f))
        | inr ((x, t), f) ↦
            let k = parse_espresso_transaction-Kept c s t tx l1_height x q f in
            ground (arith, w, f, k.position)
      ]
