-- ===== src/Nitro/Streamer/Relabel.antt =====
-- `Reset` in the middle of a round of the goroutine: under which block its messages are kept.
use espresso_streamers.Base.{
  ℕ, zero, suc, ◌+◌, ◌-◌, ◌≤◌, ◌<◌, ◌≡◌, ◌⊎◌, inl, inr, refl, false, some, List, [], ◌∷◌, ltb, leb,
  ◌==◌, if◌then◌else◌, length, All, arith, Bool-cases, Option-cases,
}
use espresso_streamers.Nitro.Bytes.{Bytes}
use espresso_streamers.Nitro.Types.{MessageWithMetadataAndPos}
use espresso_streamers.Nitro.Codec.{Codec}
use espresso_streamers.Nitro.Payload.{MessageIterator, message_iterator, next_message}
use espresso_streamers.Nitro.Streamer.{
  EspressoClient, NitroStreamer, Messages, lookup, min_height, queue_message, queue_loop, reset,
  get_current_earliest_hot_shot_block_number,
}
use espresso_streamers.Nitro.Streamer.Hotshot.{
  parse_espresso_transaction, parse_transactions, message_count, jump,
}
use espresso_streamers.Nitro.Streamer.Queue.{
  lowest, Entry, All-weaken, All-lookup, lowest_le, le-lowest,
}
use espresso_streamers.Nitro.Streamer.Store.{top, queue_message-returned}
use espresso_streamers.Nitro.Streamer.Sequence.{parse_transactions_keeps}
use espresso_streamers.Nitro.Streamer.Reading.{
  message_at-cases, Parsed, skipped, queued, parse_espresso_transaction-Parsed,
}
use espresso_streamers.Nitro.Streamer.Start.{parses}
use espresso_streamers.Nitro.Streamer.Interleave.{
  idle, parsing, System, work, works, resets, Steps, stop, step,
}

-- The entry is kept as one of the block.
abbrev IsOf : ℕ → Entry → Type 0
IsOf block x = x.1.hotshot_height ≡ block

lowest-IsOf :
    (ms : Messages) (block next n : ℕ) → All (IsOf block) ms → lowest ms next n block ≡ block
lowest-IsOf ms block next n h =
    let le = lowest_le ms next n block in
    let ge = le-lowest ms block next n block (omega arith) (
      All-weaken (IsOf block) (λ x. (x.0 < next) ⊎ (block ≤ x.1.hotshot_height)) ms
        (λ x f. inr (ground (arith, f))) h) in
    omega arith

min_height-IsOf :
    (ms : Messages) (block pos : ℕ) → All (IsOf block) ms → min_height pos ms block ≡ block
unfolding min_height
min_height-IsOf [] block pos h = refl
min_height-IsOf ((k, m) ∷ ms) block pos (f, h) =
    let low =
      if leb pos k
      then (if ltb m.hotshot_height block then m.hotshot_height else block)
      else block in
    let same : low ≡ block = ground (arith, f) in rw same (min_height-IsOf ms block pos h)

module _ {e : EspressoClient} (block : ℕ) where
  -- All that is kept is kept as of the block that is due.
  record Labelled (s : NitroStreamer e) : Type 0 where
    due : s.next_hotshot_block_num ≡ block
    entries : All (IsOf block) s.messages

  queue_message-Labelled :
      (s t : NitroStreamer e) (msg : MessageWithMetadataAndPos)
      → Labelled s
      → msg.hotshot_height ≡ block
      → queue_message s msg ≡ some t
      → Labelled t
  queue_message-Labelled s t msg v now r =
      let same = lowest-IsOf s.messages block (msg.pos + 1) (top s msg - msg.pos) v.entries in
      queue_message-returned Labelled s t msg v
        (λ le fresh lt. record { due = v.due; entries = (ground (arith, now, same), v.entries) }) r

  queue_loop-Labelled :
      (fuel : ℕ) (s t : NitroStreamer e) (it : MessageIterator)
      → Labelled s
      → queue_loop fuel s it ≡ some t
      → Labelled t
  unfolding queue_loop next_message
  queue_loop-Labelled zero s t it v r = cc
  queue_loop-Labelled (suc fuel) s t it v r =
      elim (message_at-cases it.message it.position s.next_hotshot_block_num) [
        | inl (f, g) ↦ let same : t ≡ s = ground (arith, r, f) in rw same v
        | inr (msg, f, h, g) ↦ elim (Option-cases (queue_message s msg)) [
          | inl m ↦ absurd (ground (arith, r, f, m))
          | inr (u, m) ↦
              queue_loop-Labelled fuel u t (record it { position = it.position + 1 })
                (queue_message-Labelled s u msg v (ground (arith, h, v.due)) m)
                (ground (arith, r, f, m))
        ]
      ]

  Parsed-Labelled :
      (c : Codec) (s t : NitroStreamer e) (tx : Bytes) (l1_height : ℕ)
      → Labelled s
      → Parsed c s tx l1_height t
      → Labelled t
  Parsed-Labelled c s t tx l1_height v (skipped r) = rw r v
  Parsed-Labelled c s t tx l1_height v (queued message verified f g l) =
      queue_loop-Labelled (suc (message_count verified)) s t (message_iterator verified) v l

  parse_transactions-Labelled :
      (c : Codec) (s t : NitroStreamer e) (l1_height : ℕ) (txs : List Bytes)
      → Labelled s
      → parse_transactions (parse_espresso_transaction c) s l1_height txs ≡ some t
      → Labelled t
  parse_transactions-Labelled c s t l1_height txs v r =
      parse_transactions_keeps Labelled c l1_height txs s t
        (λ u w tx x k f.
          Parsed-Labelled c u w tx l1_height k
            (parse_espresso_transaction-Parsed c u w tx l1_height x f))
        v r

  earliest-Labelled :
      (s : NitroStreamer e) (pos : ℕ)
      → Labelled s
      → get_current_earliest_hot_shot_block_number s pos ≡ block
  unfolding get_current_earliest_hot_shot_block_number
  earliest-Labelled s pos v = elim (Bool-cases (length s.messages == 0)) [
    | inl t ↦ ground (arith, t, v.due)
    | inr t ↦ elim (Option-cases (lookup pos s.messages)) [
      | inr (m, f) ↦ ground (arith, t, f, All-lookup (IsOf block) s.messages pos m v.entries f)
      | inl f ↦
          let low = min_height-IsOf s.messages block pos v.entries in
          ground (arith, t, f, v.due, low)
    ]
  ]

module _ {e : EspressoClient} where
  reset-Labelled : (s : NitroStreamer e) (pos block : ℕ) → Labelled block (reset s pos block)
  unfolding reset
  reset-Labelled s pos block = record { due = refl; entries = tt }

  -- A round has transactions left to read of the blocks from `start` up to `to_block` when the user
  -- resets the streamer to another block. If reading them returns, the goroutine can go on to the end
  -- of the round, and queues the messages of these transactions as of the block of the reset, also
  -- when they all lie before it: the block to restart from is then this block for every position.
  pub reset_relabels :
      (c : Codec) (s t : NitroStreamer e) (start to_block l1_height pos block : ℕ)
      (txs : List Bytes)
      → (block == start) ≡ false
      → parse_transactions (parse_espresso_transaction c) (reset s pos block) l1_height txs ≡ some t
      → Steps c
          (record { streamer = s; round = parsing start to_block l1_height txs })
          (record { streamer = t; round = idle })
        × ((p : ℕ) → get_current_earliest_hot_shot_block_number t p ≡ block)
  unfolding work jump
  reset_relabels c s t start to_block l1_height pos block txs other r =
      let x : System e = record { streamer = s; round = parsing start to_block l1_height txs } in
      let v =
        parse_transactions-Labelled block c (reset s pos block) t l1_height txs
          (reset-Labelled s pos block) r in
      (
        step
            (parses c x start to_block l1_height txs (reset s pos block) t r
              (step stop (resets pos block)))
            (works (ground (arith, other, v.due))),
        λ p. earliest-Labelled block t p v,
      )
