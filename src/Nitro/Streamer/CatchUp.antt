-- ===== src/Nitro/Streamer/CatchUp.antt =====
-- Rounds of `QueueMessagesFromHotshot` reach the latest block.
use espresso_streamers.Base.{
  All, ℕ, zero, suc, ◌+◌, ◌*◌, ◌^◌, ◌≤◌, ◌<◌, ◌≡◌, inl, inr, refl, false, min, max, Option, none,
  some, List, [], ◌∷◌, ltb, ◌==◌, arith, Bool-cases, sub64,
}
use espresso_streamers.Nitro.Bytes.{Bytes}
use espresso_streamers.Nitro.Codec.{Codec}
use espresso_streamers.Nitro.Streamer.{EspressoClient, NitroStreamer, hotshot_range_limit}
use espresso_streamers.Nitro.Streamer.Hotshot.{
  Fetched, nothing_before, fetch_blocks, until_block, parse_espresso_transaction,
  queue_messages_from_hotshot, jump,
}
use espresso_streamers.Nitro.Streamer.Queue.{IsQueue}
use espresso_streamers.Nitro.Streamer.Outcome.{latest_answer, blocks_answer, header_answer}
use espresso_streamers.Nitro.Streamer.Reading.{HasBelow}
use espresso_streamers.Nitro.Streamer.Sequence.{parse_blocks_returns}
use espresso_streamers.Nitro.Streamer.Progress.{fetched_round}

-- A client that answers every call, always with the same latest height, and with transactions whose
-- messages have positions below the last uint64.
pub record IsSteady (c : Codec) (e : EspressoClient) (h : ℕ) : Type 0 where
  pub latest : (k : e.Client) → (e.fetch_latest_block_height k).0 ≡ some h
  pub blocks :
      (k : e.Client) (from to ns : ℕ)
      → (b : List (List Bytes)) × ((e.fetch_namespace_transactions_in_range k from to ns).0
          ≡ some b)
        × All (All (HasBelow c)) b
  pub header :
      (k : e.Client) (n : ℕ) → (l1 : Option ℕ) × ((e.fetch_header_by_height k n).0 ≡ some l1)

-- Where a round that begins at `from` ends.
abbrev reached : ℕ → ℕ → ℕ
reached from h = max from (min h (from + hotshot_range_limit))

until_block-reached :
    (from h : ℕ) → h < 2 ^ 64 → ltb h from ≡ false → until_block from h ≡ reached from h
unfolding until_block
until_block-reached from h lt a = ground (arith, a, lt)

module _ {e : EspressoClient} where
  -- The fetch succeeds, and gives this block to go on from, and such transactions.
  Fetches : Codec → NitroStreamer e → ℕ → ℕ → Type 0
  Fetches c s from to_block =
      (k : e.Client) × (f : Fetched) × (fetch_blocks s from
        ≡ (some f, record s { espresso_client = k }))
      × (f.to_block ≡ to_block)
      × All (All (HasBelow c)) f.blocks

  steady_read :
      (c : Codec) (s : NitroStreamer e) (from h : ℕ) (bs : List (List Bytes)) (l1 : Option ℕ)
      → (latest_answer s from).0 ≡ some h
      → ltb h from ≡ false
      → (from == until_block from h) ≡ false
      → (blocks_answer s from h).0 ≡ some bs
      → All (All (HasBelow c)) bs
      → (header_answer s from h).0 ≡ some l1
      → Fetches c s from (until_block from h)
  unfolding fetch_blocks Fetches
  steady_read c s from h [] l1 l a b f low g = (
    (blocks_answer s from h).1,
    nothing_before (until_block from h),
    ground (arith, l, a, b, f),
    refl,
    tt,
  )
  steady_read c s from h (x ∷ xs) l1 l a b f low g = (
    (header_answer s from h).1,
    record {
      to_block = until_block from h;
      l1_height = elim l1 [ none ↦ 0 | some number ↦ number ];
      blocks = x ∷ xs;
    },
    ground (arith, l, a, b, f, g),
    refl,
    low,
  )

  steady_fetch :
      (c : Codec) (s : NitroStreamer e) (from h : ℕ)
      → IsSteady c e h
      → h < 2 ^ 64
      → Fetches c s from (reached from h)
  unfolding fetch_blocks Fetches
  steady_fetch c s from h steady lt =
      let l = steady.latest s.espresso_client in
      elim (Bool-cases (ltb h from)) [
        | inl a ↦ (
          (latest_answer s from).1,
          nothing_before from,
          ground (arith, l, a),
          ground (arith, a),
          tt,
        )
        | inr a ↦
            let same = until_block-reached from h lt a in
            elim (Bool-cases (from == until_block from h)) [
              | inl b ↦ (
                (latest_answer s from).1,
                nothing_before from,
                ground (arith, l, a, b),
                ground (arith, same, b),
                tt,
              )
              | inr b ↦
                  let (bs, f, low) =
                    steady.blocks (latest_answer s from).1 from (until_block from h) s.namespace in
                  let (l1, g) =
                    steady.header (blocks_answer s from h).1 (sub64 (until_block from h) 1) in
                  let (k, r, eq, to, low') = steady_read c s from h bs l1 l a b f low g in
                  (k, r, eq, ground (arith, to, same), low')
            ]
      ]

  unfoldable pub rounds : Codec → ℕ → NitroStreamer e → Option (NitroStreamer e)
  rounds c zero s = some s
  rounds c (suc n) s = elim (queue_messages_from_hotshot (parse_espresso_transaction c) s) [
    | none ↦ none
    | some (x, t) ↦ rounds c n t
  ]

  jump-highest :
      (s : NitroStreamer e) (start to_block : ℕ)
      → (jump s start to_block).highest_pos ≡ s.highest_pos
  unfolding jump
  jump-highest s start to_block = ground arith

  -- With a client that answers every call, always reports the height `h`, below 2^64, and returns
  -- transactions whose messages have positions below the last uint64, as many rounds as there are
  -- hundreds of blocks left, on a streamer whose map is in order and whose highest position is below
  -- the last uint64, all end, and read up to `h`, or stay where they are if the streamer is ahead of
  -- it; the map stays in order.
  pub rounds_catch_up :
      (c : Codec) (n h : ℕ) (s : NitroStreamer e)
      → IsSteady c e h
      → h < 2 ^ 64
      → IsQueue s
      → s.highest_pos + 1 < 2 ^ 64
      → h ≤ s.next_hotshot_block_num + hotshot_range_limit * n
      → (t : NitroStreamer e) × (rounds c n s ≡ some t)
        × IsQueue t
        × (t.next_hotshot_block_num ≡ max h s.next_hotshot_block_num)
  unfolding rounds Fetches
  rounds_catch_up c zero h s steady lt q high enough = (s, refl, q, omega arith)
  rounds_catch_up c (suc n) h s steady lt q high enough =
      let from = s.next_hotshot_block_num in
      let (k, f, r, to, low) = steady_fetch c s from h steady lt in
      let (u, p, high') =
        parse_blocks_returns c (record s { espresso_client = k }) f.l1_height f.blocks high low in
      let (a, d, next) = fetched_round c s u k f q (omega arith, omega arith) r p in
      let t = jump u from f.to_block in
      let same = jump-highest u from f.to_block in
      let (v, b, w, last) = rounds_catch_up c n h t steady lt d (omega arith) (omega arith) in
      (v, ground (arith, a, b), w, omega arith)
