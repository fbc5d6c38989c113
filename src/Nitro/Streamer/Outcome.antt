-- ===== src/Nitro/Streamer/Outcome.antt =====
-- The ways that the calls of the client in `fetchNextHotshotBlock` go.
use espresso_streamers.Base.{
  ℕ, ◌+◌, ◌^◌, ◌≤◌, ◌<◌, ◌≡◌, inl, inr, refl, false, Option, none, some, List, [], ◌∷◌, ltb, ◌==◌,
  arith, Bool-cases, Option-cases, sub64,
}
use espresso_streamers.Nitro.Bytes.{Bytes}
use espresso_streamers.Nitro.Streamer.{EspressoClient, NitroStreamer, hotshot_range_limit}
use espresso_streamers.Nitro.Streamer.Hotshot.{until_block, Fetched, nothing_before, fetch_blocks}

-- The heights that the client reports are uint64.
abbrev pub IsBounded : EspressoClient → Type 0
IsBounded e = (k : e.Client) (h : ℕ) → (e.fetch_latest_block_height k).0 ≡ some h → h < 2 ^ 64

-- The block to go on from is not before the first one, and at most the limit behind it.
abbrev pub IsWithin : ℕ → ℕ → Type 0
IsWithin from to_block = (from ≤ to_block) × (to_block ≤ from + hotshot_range_limit)

until_block-IsWithin :
    (from latest : ℕ) → from ≤ latest → latest < 2 ^ 64 → IsWithin from (until_block from latest)
unfolding until_block
until_block-IsWithin from latest le lt = ground arith

module _ {e : EspressoClient} (s : NitroStreamer e) (from : ℕ) where
  -- The answers of the three calls.
  abbrev pub latest_answer : Option ℕ × e.Client
  latest_answer = e.fetch_latest_block_height s.espresso_client

  abbrev pub blocks_answer : ℕ → Option (List (List Bytes)) × e.Client
  blocks_answer latest =
      e.fetch_namespace_transactions_in_range latest_answer.1 from (until_block from latest)
        s.namespace

  abbrev pub header_answer : ℕ → Option (Option ℕ) × e.Client
  header_answer latest =
      e.fetch_header_by_height (blocks_answer latest).1 (sub64 (until_block from latest) 1)

  -- There are blocks to read up to `latest`.
  abbrev pub HasBlocks : ℕ → Type 0
  HasBlocks latest =
      (latest_answer.0 ≡ some latest)
      × (ltb latest from ≡ false)
      × ((from == until_block from latest) ≡ false)

  -- A call fails that is made: for the latest height, for the blocks if there are any to read, or
  -- for the header if one of these came.
  pub data Fails : Type 0 where
    no_latest : latest_answer.0 ≡ none → Fails
    no_blocks : (latest : ℕ) → HasBlocks latest → (blocks_answer latest).0 ≡ none → Fails
    no_header :
        (latest : ℕ) (b : List Bytes) (bs : List (List Bytes))
        → HasBlocks latest
        → (blocks_answer latest).0 ≡ some (b ∷ bs)
        → (header_answer latest).0 ≡ none
        → Fails

  -- Nothing changes but the client, and there is an answer, or a call fails.
  pub data Outcome (r : Option Fetched × NitroStreamer e) : Type 0 where
    failed : (k : e.Client) → Fails → r ≡ (none, record s { espresso_client = k }) → Outcome r
    fetched :
        (k : e.Client) (f : Fetched)
        → IsWithin from f.to_block
        → r ≡ (some f, record s { espresso_client = k })
        → Outcome r

  read_outcome :
      (latest : ℕ) (blocks : Option (List (List Bytes))) (header : Option (Option ℕ))
      → HasBlocks latest
      → IsWithin from (until_block from latest)
      → (blocks_answer latest).0 ≡ blocks
      → (header_answer latest).0 ≡ header
      → Outcome (fetch_blocks s from)
  unfolding fetch_blocks
  read_outcome latest none header (l, a, b) w f g =
      failed (blocks_answer latest).1 (no_blocks latest (l, a, b) f) (ground (arith, l, a, b, f))
  read_outcome latest (some []) header (l, a, b) w f g =
      fetched (blocks_answer latest).1 (nothing_before (until_block from latest)) w
        (ground (arith, l, a, b, f))
  read_outcome latest (some (x ∷ xs)) none (l, a, b) w f g =
      failed (header_answer latest).1 (no_header latest x xs (l, a, b) f g)
        (ground (arith, l, a, b, f, g))
  read_outcome latest (some (x ∷ xs)) (some finalized) (l, a, b) w f g =
      fetched (header_answer latest).1
        (record {
          to_block = until_block from latest;
          l1_height = elim finalized [ none ↦ 0 | some number ↦ number ];
          blocks = x ∷ xs;
        })
        w (ground (arith, l, a, b, f, g))

  pub fetch_blocks-Outcome : IsBounded e → Outcome (fetch_blocks s from)
  unfolding fetch_blocks
  fetch_blocks-Outcome bounded = elim (Option-cases latest_answer.0) [
    | inl l ↦ failed latest_answer.1 (no_latest l) (ground (arith, l))
    | inr (latest, l) ↦ elim (Bool-cases (ltb latest from)) [
      | inl a ↦
          fetched latest_answer.1 (nothing_before from) (omega arith, omega arith)
            (ground (arith, l, a))
      | inr a ↦ elim (Bool-cases (from == until_block from latest)) [
        | inl b ↦
            fetched latest_answer.1 (nothing_before from) (omega arith, omega arith)
              (ground (arith, l, a, b))
        | inr b ↦
            read_outcome latest _ _ (l, a, b)
              (until_block-IsWithin from latest (ground (arith, a))
                (bounded s.espresso_client latest l))
              refl refl
      ]
    ]
  ]

  -- A failing call is an error of the fetch.
  pub fetch_blocks-Fails : Fails → (fetch_blocks s from).0 ≡ none
  unfolding fetch_blocks
  fetch_blocks-Fails (no_latest l) = ground (arith, l)
  fetch_blocks-Fails (no_blocks latest (l, a, b) f) = ground (arith, l, a, b, f)
  fetch_blocks-Fails (no_header latest x xs (l, a, b) f g) = ground (arith, l, a, b, f, g)
