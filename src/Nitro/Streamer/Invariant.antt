-- ===== src/Nitro/Streamer/Invariant.antt =====
-- Every operation of the nitro streamer keeps its map in order.
use espresso_streamers.Base.{
  ℕ, zero, suc, ◌+◌, ◌-◌, ◌≤◌, ◌<◌, ◌≡◌, ◌⊎◌, inl, inr, refl, some, none, [], ◌∷◌, leb, ◌==◌, All,
  arith, Bool-cases, add64,
}
use espresso_streamers.Nitro.Types.{MessageWithMetadataAndPos}
use espresso_streamers.Nitro.Streamer.{
  EspressoClient, NitroStreamer, Messages, lookup, delete, delete_range, queue_message, advance,
  advance_to,
}
use espresso_streamers.Nitro.Streamer.Queue.{
  Entry, IsEntry, Distinct, Rises, IsRising, IsQueue, All-weaken, All-both, lowest_le, added,
  added_below, added_above,
}
use espresso_streamers.Nitro.Streamer.Store.{top, queue_message-returned}

delete-none :
    (pos key : ℕ) (ms : Messages) → lookup key ms ≡ none → lookup key (delete pos ms) ≡ none
unfolding delete lookup
delete-none pos key [] h = refl
delete-none pos key ((k, m) ∷ ms) h = elim (Bool-cases (k == pos)) [
  | inl t ↦ ground (arith, h, t, delete-none pos key ms)
  | inr t ↦ ground (arith, h, t, delete-none pos key ms)
]

pub All-delete : (P : Entry → Type 0) (pos : ℕ) (ms : Messages) → All P ms → All P (delete pos ms)
unfolding delete
All-delete P pos [] h = tt
All-delete P pos ((k, m) ∷ ms) (p, h) = elim (Bool-cases (k == pos)) [
  | inl t ↦ rw t (All-delete P pos ms h)
  | inr t ↦ rw t (p, All-delete P pos ms h)
]

pub delete_range-All :
    (P : Entry → Type 0) (n pos : ℕ) (ms : Messages) → All P ms → All P (delete_range pos n ms)
unfolding delete_range
delete_range-All P zero pos ms h = h
delete_range-All P (suc n) pos ms h =
    delete_range-All P n (pos + 1) (delete pos ms) (All-delete P pos ms h)

Distinct-delete : (pos : ℕ) (ms : Messages) → Distinct ms → Distinct (delete pos ms)
unfolding delete
Distinct-delete pos [] h = tt
Distinct-delete pos ((k, m) ∷ ms) (fresh, h) = elim (Bool-cases (k == pos)) [
  | inl t ↦ rw t (Distinct-delete pos ms h)
  | inr t ↦ rw t (delete-none pos k ms fresh, Distinct-delete pos ms h)
]

IsRising-delete : (pos : ℕ) (ms : Messages) → IsRising ms → IsRising (delete pos ms)
IsRising-delete pos ms h =
    All-weaken (λ x. All (Rises x) ms) (λ x. All (Rises x) (delete pos ms)) (delete pos ms)
      (λ x r. All-delete (Rises x) pos ms r) (All-delete (λ x. All (Rises x) ms) pos ms h)

-- What is deleted is not found, and nothing that was not there is found.
delete-gone :
    (pos : ℕ) (ms : Messages) → Distinct ms → All (λ x. (x.0 < pos) ⊎ (pos < x.0)) (delete pos ms)
unfolding delete
delete-gone pos [] h = tt
delete-gone pos ((k, m) ∷ ms) (fresh, h) = elim (Bool-cases (k == pos)) [
  | inl t ↦ rw t (delete-gone pos ms h)
  | inr t ↦ rw t (ground (arith, t), delete-gone pos ms h)
]

module _ {e : EspressoClient} where
  IsQueue-added :
      (s : NitroStreamer e) (msg : MessageWithMetadataAndPos) (highest : ℕ)
      → IsQueue s
      → msg.hotshot_height ≡ s.next_hotshot_block_num
      → s.current_message_pos ≤ msg.pos
      → lookup msg.pos s.messages ≡ none
      → s.highest_pos ≤ highest
      → msg.pos ≤ highest
      → IsQueue (record s { highest_pos = highest; messages = added s msg highest ∷ s.messages })
  IsQueue-added s msg highest q now lo fresh le hi =
      let next = s.next_hotshot_block_num in
      let current = s.current_message_pos in
      let top = added_above s msg highest q now in
      let low : (added s msg highest).1.hotshot_height ≤ msg.hotshot_height =
        lowest_le s.messages (msg.pos + 1) (highest - msg.pos) msg.hotshot_height in
      record {
        entries = (
          (refl, lo, hi, ground (arith, low, now)),
          All-weaken (IsEntry current s.highest_pos next) (IsEntry current highest next) s.messages
              (λ x (a, b, c, d). (a, b, ground (arith, c, le), d)) q.entries,
        );
        distinct = (fresh, q.distinct);
        rising = (
          (inr (omega arith), added_below s msg highest q le fresh),
          All-weaken (λ x. Rises x (added s msg highest) × All (Rises x) s.messages)
              (λ x. All (Rises x) (added s msg highest ∷ s.messages)) s.messages (λ x r. r)
              (All-both (λ x. Rises x (added s msg highest)) (λ x. All (Rises x) s.messages)
                s.messages top q.rising),
        );
      }

  -- A message of the block that is due, put into a map in order, leaves the map in order.
  pub queue_message-IsQueue :
      (s t : NitroStreamer e) (msg : MessageWithMetadataAndPos)
      → IsQueue s
      → msg.hotshot_height ≡ s.next_hotshot_block_num
      → queue_message s msg ≡ some t
      → IsQueue t
  queue_message-IsQueue s t msg q now r =
      queue_message-returned IsQueue s t msg q
        (λ le fresh lt.
          IsQueue-added s msg (top s msg) q now le fresh (ground arith) (ground arith))
        r

  -- The current position is deleted, and the new one is at most the position behind it.
  delete-IsQueue :
      (s : NitroStreamer e) (next_pos : ℕ)
      → IsQueue s
      → next_pos ≤ s.current_message_pos + 1
      → IsQueue (record s {
        messages = delete s.current_message_pos s.messages;
        current_message_pos = next_pos;
      })
  delete-IsQueue s next_pos q le =
      let pos = s.current_message_pos in
      let Old = IsEntry pos s.highest_pos s.next_hotshot_block_num in
      let Other = λ (x : Entry). (x.0 < pos) ⊎ (pos < x.0) in
      record {
        entries =
            All-weaken (λ x. Old x × Other x)
              (IsEntry next_pos s.highest_pos s.next_hotshot_block_num) (delete pos s.messages)
              (λ x ((a, b, c, f), g). (a, ground (arith, b, g, le), c, f))
              (All-both Old Other (delete pos s.messages) (All-delete _ pos s.messages q.entries)
                (delete-gone pos s.messages q.distinct));
        distinct = Distinct-delete pos s.messages q.distinct;
        rising = IsRising-delete pos s.messages q.rising;
      }

  -- `Advance` keeps the map in order, at the end of the uint64 range too.
  pub advance-IsQueue : (s : NitroStreamer e) → IsQueue s → IsQueue (advance s)
  unfolding advance
  advance-IsQueue s q = delete-IsQueue s (add64 s.current_message_pos 1) q (omega arith)

  delete_range-IsQueue :
      (n : ℕ) (s : NitroStreamer e)
      → IsQueue s
      → IsQueue (record s {
        messages = delete_range s.current_message_pos n s.messages;
        current_message_pos = s.current_message_pos + n;
      })
  unfolding delete_range
  delete_range-IsQueue zero s q =
      let g : s.current_message_pos + 0 ≡ s.current_message_pos = omega arith in
      rw g (record { entries = q.entries; distinct = q.distinct; rising = q.rising })
  delete_range-IsQueue (suc n) s q =
      let pos = s.current_message_pos in
      let g : pos + suc n ≡ (pos + 1) + n = omega arith in
      rw g (
        delete_range-IsQueue n
          (record s { messages = delete pos s.messages; current_message_pos = pos + 1 })
          (delete-IsQueue s (pos + 1) q (omega arith)))

  -- `AdvanceTo` keeps the map in order.
  pub advance_to-IsQueue :
      (s : NitroStreamer e) (to_pos : ℕ) → IsQueue s → IsQueue (advance_to s to_pos)
  unfolding advance_to
  advance_to-IsQueue s to_pos q = elim (Bool-cases (leb to_pos s.current_message_pos)) [
    | inl t ↦ let g : advance_to s to_pos ≡ s = ground (arith, t) in rw g q
    | inr t ↦
        let n = to_pos - s.current_message_pos in
        let g : s.current_message_pos + n ≡ to_pos = ground (arith, t) in
        let k = delete_range-IsQueue n s q in
        let f : advance_to s to_pos ≡ record s {
          messages = delete_range s.current_message_pos n s.messages;
          current_message_pos = s.current_message_pos + n;
        } =
          ground (arith, t, g) in
        rw f k
  ]
