-- ===== src/Nitro/Streamer/Interleave.antt =====
-- `Start` and the user of the nitro streamer, interleaved: the goroutine runs rounds of
-- `QueueMessagesFromHotshot`, which holds the lock only while it stores the messages of one
-- transaction and for the jump; the methods of the user take the lock between these.
use espresso_streamers.Base.{ℕ, ◌≡◌, ◌++◌, Option, none, some, List, [], ◌∷◌}
use espresso_streamers.Nitro.Bytes.{Bytes}
use espresso_streamers.Nitro.Codec.{Codec}
use espresso_streamers.Nitro.Streamer.{EspressoClient, NitroStreamer, reset, advance, advance_to}
use espresso_streamers.Nitro.Streamer.Hotshot.{
  Fetched, fetch_blocks, parse_espresso_transaction, jump,
}

-- Where the goroutine is: it sleeps or logs between two rounds, it has read `nextHotshotBlockNum`,
-- or it has fetched up to a block and has transactions left to parse.
pub data Round : Type 0 where
  idle : Round
  fetching : ℕ → Round
  parsing : ℕ → ℕ → ℕ → List Bytes → Round

pub record System (e : EspressoClient) : Type 0 where
  pub streamer : NitroStreamer e
  pub round : Round

abbrev pub join : List (List Bytes) → List Bytes
join [] = []
join (b ∷ bs) = b ++ join bs

-- The round after a fetch from `start`.
unfoldable pub round_of : ℕ → Option Fetched → Round
round_of start none = idle
round_of start (some f) = parsing start f.to_block f.l1_height (join f.blocks)

-- What the goroutine does next; `none` is a step that does not end, with the lock held.
unfoldable pub work : {e : EspressoClient} → Codec → NitroStreamer e → Round → Option (System e)
unfolding round_of
work c s idle = some (record { streamer = s; round = fetching s.next_hotshot_block_num })
work c s (fetching start) =
    let (answer, s') = fetch_blocks s start in
    some (record { streamer = s'; round = round_of start answer })
work c s (parsing start to_block l1_height []) =
    some (record { streamer = jump s start to_block; round = idle })
work c s (parsing start to_block l1_height (tx ∷ txs)) =
    elim (parse_espresso_transaction c s tx l1_height) [
      | none ↦ none
      | some (x, s') ↦ some (record { streamer = s'; round = parsing start to_block l1_height txs })
    ]

-- A step of the goroutine, or a call of the user at any point of a round. Calls that only read
-- the map change nothing. From a step of the goroutine that does not end no state is reached.
pub data Step {e : EspressoClient} (c : Codec) (x : System e) : System e → Type 0 where
  works : {y : System e} → work c x.streamer x.round ≡ some y → Step c x y
  advances : Step c x (record x { streamer = advance x.streamer })
  advances_to : (to_pos : ℕ) → Step c x (record x { streamer = advance_to x.streamer to_pos })
  resets : (pos block : ℕ) → Step c x (record x { streamer = reset x.streamer pos block })

pub data Steps {e : EspressoClient} (c : Codec) (x : System e) : System e → Type 0 where
  stop : Steps c x x
  step : {y z : System e} → Steps c x y → Step c y z → Steps c x z
