-- ===== src/Nitro/Streamer/Progress.antt =====
-- `QueueMessagesFromHotshot`: the map stays in order, and the next block does not go back.
use espresso_streamers.Base.{
  Option-cases, ℕ, ◌≤◌, ◌≡◌, ◌⊎◌, inl, inr, refl, Option, none, some, arith,
}
use espresso_streamers.Nitro.Codec.{Codec}
use espresso_streamers.Nitro.Streamer.{EspressoClient, NitroStreamer}
use espresso_streamers.Nitro.Streamer.Hotshot.{
  parse_espresso_transaction, parse_blocks, Fetched, fetch_blocks, fetch_next_hotshot_block,
  FetchError, failed_to_fetch_transactions, jump, queue_messages_from_hotshot,
}
use espresso_streamers.Nitro.Streamer.Outcome.{
  IsBounded, IsWithin, Fails, failed, fetched, fetch_blocks-Outcome, fetch_blocks-Fails,
}
use espresso_streamers.Nitro.Streamer.Queue.{IsQueue, IsEntry, All-weaken}
use espresso_streamers.Nitro.Streamer.Reading.{Kept, Kept-trans}
use espresso_streamers.Nitro.Streamer.Sequence.{parse_blocks-Kept}

module _ {e : EspressoClient} where
  pub unchanged :
      (s : NitroStreamer e) (k : e.Client) → IsQueue s → Kept s (record s { espresso_client = k })
  unchanged s k q = record {
    queue = record { entries = q.entries; distinct = q.distinct; rising = q.rising };
    next = refl;
    position = refl;
  }

  pub jump-IsQueue :
      (t : NitroStreamer e) (start to_block : ℕ)
      → IsQueue t
      → t.next_hotshot_block_num ≡ start
      → start ≤ to_block
      → IsQueue (jump t start to_block)
        × ((jump t start to_block).next_hotshot_block_num ≡ to_block)
  unfolding jump
  jump-IsQueue t start to_block q here le =
      let r : jump t start to_block ≡ record t { next_hotshot_block_num = to_block } =
        ground (arith, here) in
      let Old = IsEntry t.current_message_pos t.highest_pos t.next_hotshot_block_num in
      rw r (
        record {
          entries =
              All-weaken Old (IsEntry t.current_message_pos t.highest_pos to_block) t.messages
                (λ x (a, b, c, d). (a, b, c, ground (arith, d, here, le))) q.entries;
          distinct = q.distinct;
          rising = q.rising;
        },
        refl,
      )

  -- A round whose fetch succeeds and whose transactions are read to the end stops at the block to go
  -- on from.
  pub fetched_round :
      (c : Codec) (s t : NitroStreamer e) (k : e.Client) (f : Fetched)
      → IsQueue s
      → IsWithin s.next_hotshot_block_num f.to_block
      → fetch_blocks s s.next_hotshot_block_num ≡ (some f, record s { espresso_client = k })
      → parse_blocks
          (parse_espresso_transaction c)
          (record s { espresso_client = k })
          f.l1_height
          f.blocks
        ≡ some t
      → (queue_messages_from_hotshot (parse_espresso_transaction c) s
          ≡ some (none, jump t s.next_hotshot_block_num f.to_block))
        × IsQueue (jump t s.next_hotshot_block_num f.to_block)
        × ((jump t s.next_hotshot_block_num f.to_block).next_hotshot_block_num ≡ f.to_block)
  unfolding queue_messages_from_hotshot fetch_next_hotshot_block
  fetched_round c s t k f q (lo, hi) r p =
      let u = unchanged s k q in
      let w =
        Kept-trans s (record s { espresso_client = k }) t u
          (parse_blocks-Kept c (record s { espresso_client = k }) t f.l1_height f.blocks u.queue
            p) in
      let (d, n) = jump-IsQueue t s.next_hotshot_block_num f.to_block w.queue w.next lo in
      (ground (arith, r, p), d, n)

  failed-Unchanged :
      (c : Codec) (s : NitroStreamer e) (k : e.Client)
      → fetch_blocks s s.next_hotshot_block_num ≡ (none, record s { espresso_client = k })
      → queue_messages_from_hotshot (parse_espresso_transaction c) s
        ≡ some (some failed_to_fetch_transactions, record s { espresso_client = k })
  unfolding queue_messages_from_hotshot fetch_next_hotshot_block
  failed-Unchanged c s k r = ground (arith, r)

  -- An error of a round: nothing has changed but the client, so that the next round asks for the
  -- same blocks.
  abbrev pub IsRetried : NitroStreamer e → Option (Option FetchError × NitroStreamer e) → Type 0
  IsRetried s r =
      (k : e.Client) × (r
        ≡ some (some failed_to_fetch_transactions, record s { espresso_client = k }))

  -- A round without an error: the blocks are read, and it goes on behind them; or reading them does
  -- not end.
  abbrev pub read_to_end :
      NitroStreamer e
      → Fetched
      → Option (NitroStreamer e)
      → Option (Option FetchError × NitroStreamer e)
  read_to_end s f none = none
  read_to_end s f (some t) = some (none, jump t s.next_hotshot_block_num f.to_block)

  abbrev pub IsRead :
      Codec → NitroStreamer e → Option (Option FetchError × NitroStreamer e) → Type 0
  IsRead c s r =
      (k : e.Client) × (f : Fetched) × (fetch_blocks s s.next_hotshot_block_num
        ≡ (some f, record s { espresso_client = k }))
      × (r
          ≡ read_to_end s f (
              parse_blocks (parse_espresso_transaction c) (record s { espresso_client = k })
                f.l1_height f.blocks))

  fetched-IsRead :
      (c : Codec) (s : NitroStreamer e) (k : e.Client) (f : Fetched)
      → fetch_blocks s s.next_hotshot_block_num ≡ (some f, record s { espresso_client = k })
      → IsRead c s (queue_messages_from_hotshot (parse_espresso_transaction c) s)
  unfolding queue_messages_from_hotshot fetch_next_hotshot_block
  fetched-IsRead c s k f r =
      let t = record s { espresso_client = k } in
      elim (Option-cases (parse_blocks (parse_espresso_transaction c) t f.l1_height f.blocks)) [
        | inl p ↦ (k, f, r, ground (arith, r, p))
        | inr (u, p) ↦ (k, f, r, ground (arith, r, p))
      ]

  -- With a client that reports heights below 2^64, a round of reading fails, and changes nothing but
  -- the client, if a call of the client fails that it makes: for the latest height, for the blocks if
  -- there are any to read, or for the header if blocks came. Otherwise the fetch succeeds, and the
  -- round reads the blocks and goes on behind them, or does not end if reading them does not.
  pub queue_messages-error :
      (c : Codec) (s : NitroStreamer e)
      → IsBounded e
      → (Fails s s.next_hotshot_block_num
          × IsRetried s (queue_messages_from_hotshot (parse_espresso_transaction c) s))
        ⊎ ((¬ Fails s s.next_hotshot_block_num)
            × IsRead c s (queue_messages_from_hotshot (parse_espresso_transaction c) s))
  queue_messages-error c s bounded =
      elim (fetch_blocks-Outcome s s.next_hotshot_block_num bounded) [
        | failed k x r ↦ inl (x, (k, failed-Unchanged c s k r))
        | fetched k f w r ↦ inr (
          (λ x. let n = fetch_blocks-Fails s s.next_hotshot_block_num x in ground (arith, n, r)),
          fetched-IsRead c s k f r,
        )
      ]
