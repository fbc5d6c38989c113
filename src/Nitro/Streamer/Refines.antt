-- ===== src/Nitro/Streamer/Refines.antt =====
-- The operations of the nitro streamer do what `Feed` promises.
use espresso_streamers.Base.{
  ℕ, zero, suc, ◌+◌, ◌-◌, ◌≤◌, ◌<◌, ◌≡◌, ◌⊎◌, ◌^◌, inl, inr, refl, ap, ◌∙◌, Option, none, some, [],
  ◌∷◌, ltb, leb, ◌==◌, if◌then◌else◌, ◌&&◌, arith, Bool-cases, Option-cases, add64,
}
use mathlib.Core.Path.{fun_ext, sym}
use espresso_streamers.Nitro.Types.{MessageWithMetadata, MessageWithMetadataAndPos}
use espresso_streamers.Nitro.Streamer.{
  EspressoClient, NitroStreamer, Messages, lookup, delete, delete_range, advance, advance_to, reset,
  peek, queue_message,
}
use espresso_streamers.Nitro.Streamer.Queue.{IsQueue, IsEntry, All-lookup, added}
use espresso_streamers.Nitro.Streamer.Store.{
  top, put_in, passed_over, put, endless, queue_message-Queueing,
}
use espresso_streamers.Nitro.Streamer.Feed
use espresso_streamers.Nitro.Streamer.Feed.{Feed}

abbrev pub message_of : Option MessageWithMetadataAndPos → Option MessageWithMetadata
message_of none = none
message_of (some m) = some m.message_with_meta

pub lookup-delete :
    (pos p : ℕ) (ms : Messages)
    → lookup p (delete pos ms) ≡ (if p == pos then none else lookup p ms)
unfolding lookup delete
lookup-delete pos p [] = ground arith
lookup-delete pos p ((k, m) ∷ ms) = ground (arith, lookup-delete pos p ms)

lookup-delete_range :
    (n pos p : ℕ) (ms : Messages)
    → lookup p (delete_range pos n ms)
      ≡ (if leb pos p && ltb p (pos + n) then none else lookup p ms)
unfolding delete_range
lookup-delete_range zero pos p ms = ground arith
lookup-delete_range (suc n) pos p ms =
    ground (arith, lookup-delete_range n (pos + 1) p (delete pos ms), lookup-delete pos p ms)

abbrev feed_at : ℕ → ℕ → (ℕ → Option MessageWithMetadata) → Feed
feed_at position next contents = record { position = position; next = next; contents = contents }

-- What `Feed.put` leaves at a position.
abbrev filled :
    ℕ → MessageWithMetadata → ℕ → Option MessageWithMetadata → Option MessageWithMetadata
filled pos msg p none = if p == pos then some msg else none
filled pos msg p (some m) = some m

filled_new :
    (ms : Messages) (pos height p : ℕ) (msg : MessageWithMetadataAndPos)
    → lookup pos ms ≡ none
    → message_of (lookup p ((pos, record msg { hotshot_height = height }) ∷ ms))
      ≡ filled pos msg.message_with_meta p (message_of (lookup p ms))
unfolding lookup
filled_new ms pos height p msg f = elim (Bool-cases (pos == p)) [
  | inl t ↦
      let same : pos ≡ p = ground (arith, t) in
      let g : lookup p ms ≡ none = rw same at f in ground (arith, t, g)
  | inr t ↦ elim (Option-cases (lookup p ms)) [
    | inl g ↦ ground (arith, t, g)
    | inr (m, g) ↦ ground (arith, t, g)
  ]
]

filled_old :
    (ms : Messages) (pos p : ℕ) (msg : MessageWithMetadata) (other : MessageWithMetadataAndPos)
    → lookup pos ms ≡ some other
    → message_of (lookup p ms) ≡ filled pos msg p (message_of (lookup p ms))
filled_old ms pos p msg other f = elim (Option-cases (lookup p ms)) [
  | inr (m, g) ↦ ground (arith, g)
  | inl g ↦ elim (Bool-cases (p == pos)) [
    | inl t ↦
        let same : p ≡ pos = ground (arith, t) in
        let h : lookup pos ms ≡ none = rw same at g in absurd (ground (arith, f, h))
    | inr t ↦ ground (arith, t, g)
  ]
]

module _ {e : EspressoClient} where
  unfoldable pub view : NitroStreamer e → Feed
  view s = record {
    position = s.current_message_pos;
    next = s.next_hotshot_block_num;
    contents = λ p. message_of (lookup p s.messages);
  }

  -- Nothing is kept behind the current position.
  none_behind :
      (s : NitroStreamer e) (p : ℕ)
      → IsQueue s
      → p < s.current_message_pos
      → lookup p s.messages ≡ none
  none_behind s p q lt = elim (Option-cases (lookup p s.messages)) [
    | inl f ↦ f
    | inr (m, f) ↦
        let k : IsEntry s.current_message_pos s.highest_pos s.next_hotshot_block_num (p, m) =
          All-lookup (IsEntry s.current_message_pos s.highest_pos s.next_hotshot_block_num)
            s.messages p m q.entries f in
        absurd (omega (arith, k.1))
  ]

  view-advance : (s : NitroStreamer e) → view (advance s) ≡ Feed.advance (view s)
  unfolding view advance
  view-advance s =
      let same : (λ p. message_of (lookup p (delete s.current_message_pos s.messages)))
          ≡ Feed.without (λ p. p == s.current_message_pos) (λ p. message_of (lookup p s.messages)) =
        fun_ext (λ p. ground (arith, lookup-delete s.current_message_pos p s.messages)) in
      ap
        (λ c. record {
          position = add64 s.current_message_pos 1;
          next = s.next_hotshot_block_num;
          contents = c;
        })
        same

  -- The positions that `AdvanceTo` passes.
  passed :
      (s : NitroStreamer e) (to_pos p : ℕ)
      → IsQueue s
      → s.current_message_pos ≤ to_pos
      → message_of (
          lookup p (delete_range s.current_message_pos (to_pos - s.current_message_pos) s.messages))
        ≡ Feed.without (λ p. ltb p to_pos) (λ p. message_of (lookup p s.messages)) p
  passed s to_pos p q le =
      let gone =
        lookup-delete_range (to_pos - s.current_message_pos) s.current_message_pos p s.messages in
      elim (Bool-cases (ltb p s.current_message_pos)) [
        | inl t ↦
            let none_there = none_behind s p q (ground (arith, t)) in
            ground (arith, gone, none_there)
        | inr t ↦ ground (arith, gone, t, le)
      ]

  view-advance_to :
      (s : NitroStreamer e) (to_pos : ℕ)
      → IsQueue s
      → view (advance_to s to_pos) ≡ Feed.advance_to (view s) to_pos
  unfolding view advance_to
  view-advance_to s to_pos q = elim (Bool-cases (leb to_pos s.current_message_pos)) [
    | inl t ↦ ground (arith, t)
    | inr t ↦
        let n = to_pos - s.current_message_pos in
        let r : advance_to s to_pos ≡ record s {
          messages = delete_range s.current_message_pos n s.messages;
          current_message_pos = to_pos;
        } =
          ground (arith, t) in
        let r' : Feed.advance_to (view s) to_pos
            ≡ feed_at to_pos s.next_hotshot_block_num
                (Feed.without (λ p. ltb p to_pos) (λ p. message_of (lookup p s.messages))) =
          ground (arith, t) in
        let same = fun_ext (λ p. passed s to_pos p q (ground (arith, t))) in
        ap view r ∙ (ap (feed_at to_pos s.next_hotshot_block_num) same ∙ sym r')
  ]

  view-reset :
      (s : NitroStreamer e) (pos block : ℕ) → view (reset s pos block) ≡ Feed.reset pos block
  unfolding view reset lookup
  view-reset s pos block = refl

  view-passed_over :
      (s : NitroStreamer e) (msg : MessageWithMetadataAndPos)
      → (msg.pos < s.current_message_pos)
        ⊎ ((other : MessageWithMetadataAndPos) × (lookup msg.pos s.messages ≡ some other))
      → view s ≡ Feed.put (view s) msg.pos msg.message_with_meta
  unfolding view
  view-passed_over s msg (inl lt) = ground (arith, lt)
  view-passed_over s msg (inr (other, f)) = elim (Bool-cases (ltb msg.pos s.current_message_pos)) [
    | inl t ↦ ground (arith, t)
    | inr t ↦
        let put_at = feed_at s.current_message_pos s.next_hotshot_block_num in
        let r : Feed.put (view s) msg.pos msg.message_with_meta
            ≡ put_at
                (λ p. filled msg.pos msg.message_with_meta p (message_of (lookup p s.messages))) =
          ground (arith, t) in
        let same = fun_ext (λ p. filled_old s.messages msg.pos p msg.message_with_meta other f) in
        ap put_at same ∙ sym r
  ]

  -- The message is put in as the feed does it; or the call does not return, which is the case only
  -- if the position of the message or the highest one is the last uint64.
  abbrev pub Puts : NitroStreamer e → MessageWithMetadataAndPos → Option (NitroStreamer e) → Type 0
  Puts s msg r =
      ((t : NitroStreamer e) × (r ≡ some t)
        × (view t ≡ Feed.put (view s) msg.pos msg.message_with_meta))
      ⊎ ((r ≡ none) × ((2 ^ 64 ≤ msg.pos + 1) ⊎ (2 ^ 64 ≤ s.highest_pos + 1)))

  view-queue_message :
      (s : NitroStreamer e) (msg : MessageWithMetadataAndPos) → Puts s msg (queue_message s msg)
  unfolding view
  view-queue_message s msg =
      let put_at = feed_at s.current_message_pos s.next_hotshot_block_num in
      elim (queue_message-Queueing s msg) [
        | endless high g ↦ inr (g, ground (arith, high))
        | passed_over why g ↦ inl (s, g, view-passed_over s msg why)
        | put le f lt g ↦
            let (key, y) = added s msg (top s msg) in
            let r : Feed.put (view s) msg.pos msg.message_with_meta
                ≡ put_at (λ p.
                  filled msg.pos msg.message_with_meta p (message_of (lookup p s.messages))) =
              ground (arith, le) in
            let same = fun_ext (λ p. filled_new s.messages msg.pos y.hotshot_height p msg f) in
            inl (put_in s msg, g, ap put_at same ∙ sym r)
      ]

  -- `Peek` shows what the feed has at its position.
  view-peek : (s : NitroStreamer e) → message_of (peek s) ≡ (view s).contents (view s).position
  unfolding view peek
  view-peek s = refl

  -- On a streamer whose map is in order, seen as the messages at the positions, `Advance` takes away
  -- the message at the position and moves on by one, `AdvanceTo` takes away all messages before the
  -- new position, if that is ahead, `Reset` takes away all, the loop of `parseEspressoTransaction`
  -- puts in each message that is not behind the position where none is, or does not return, which is
  -- the case only if the position of the message or the highest one is the last uint64, and `Peek`
  -- shows the message at the position.
  pub refines_feed :
      (s : NitroStreamer e)
      → IsQueue s
      → (view (advance s) ≡ Feed.advance (view s))
        × ((to_pos : ℕ) → view (advance_to s to_pos) ≡ Feed.advance_to (view s) to_pos)
        × ((pos block : ℕ) → view (reset s pos block) ≡ Feed.reset pos block)
        × ((msg : MessageWithMetadataAndPos) → Puts s msg (queue_message s msg))
        × (message_of (peek s) ≡ (view s).contents (view s).position)
  refines_feed s q = (
    view-advance s,
    (λ to_pos. view-advance_to s to_pos q),
    (λ pos block. view-reset s pos block),
    (λ msg. view-queue_message s msg),
    view-peek s,
  )
