-- ===== src/Nitro/Streamer/Delivery.antt =====
-- What the loop of `parseEspressoTransaction` leaves in the map.
use espresso_streamers.Base.{
  ℕ, zero, suc, ◌+◌, ◌≤◌, ◌<◌, ◌≡◌, ◌⊎◌, inl, inr, refl, ◌∙◌, sym, none, some, ◌==◌, arith,
  Bool-cases, Option-cases,
}
use espresso_streamers.Nitro.Types.{MessageWithMetadataAndPos}
use espresso_streamers.Nitro.Payload.{Payload, MessageIterator, next_message, message_at}
use espresso_streamers.Nitro.Streamer.Hotshot.{message_count}
use espresso_streamers.Nitro.Streamer.Reading.{message_at-cases}
use espresso_streamers.Nitro.Streamer.Queue.{added}
use espresso_streamers.Nitro.Streamer.Store.{
  top, put_in, passed_over, put, endless, queue_message-Queueing,
}
use espresso_streamers.Nitro.Streamer.{
  EspressoClient, NitroStreamer, lookup, queue_message, queue_loop,
}

-- The iterator yields messages only up to their number.
pub message_at_lt :
    (m : Payload) (i height : ℕ) (x : MessageWithMetadataAndPos)
    → message_at m i height ≡ some x
    → i < message_count m
message_at_lt m i height x f = elim (message_at-cases m i height) [
  | inl (g, h) ↦ absurd (ground (arith, f, g))
  | inr (msg, g, h, lt) ↦ lt
]

module _ {e : EspressoClient} where
  -- What is found at a position has not changed, or it was nothing and the message of the iterator
  -- at the given index is found there now, perhaps with a lower height.
  pub data Found (s t : NitroStreamer e) (it : MessageIterator) (p : ℕ) : Type 0 where
    as_before : lookup p t.messages ≡ lookup p s.messages → Found s t it p
    stored_new :
        (i : ℕ) (x y : MessageWithMetadataAndPos)
        → lookup p s.messages ≡ none
        → it.position ≤ i
        → message_at it.message i s.next_hotshot_block_num ≡ some x
        → x.pos ≡ p
        → lookup p t.messages ≡ some y
        → y.message_with_meta ≡ x.message_with_meta
        → Found s t it p

  -- One message: it is in the map if it is not behind the current position.
  record Queued (s t : NitroStreamer e) (msg : MessageWithMetadataAndPos) : Type 0 where
    current : t.current_message_pos ≡ s.current_message_pos
    next : t.next_hotshot_block_num ≡ s.next_hotshot_block_num
    others : (p : ℕ) → (p ≡ msg.pos) ⊎ (lookup p t.messages ≡ lookup p s.messages)
    here :
        (lookup msg.pos t.messages ≡ lookup msg.pos s.messages)
        ⊎ ((lookup msg.pos s.messages ≡ none)
            × ((y : MessageWithMetadataAndPos) × (lookup msg.pos t.messages ≡ some y)
                × (y.message_with_meta ≡ msg.message_with_meta)))
    stored :
        s.current_message_pos ≤ msg.pos
        → (y : MessageWithMetadataAndPos) × (lookup msg.pos t.messages ≡ some y)

  queue_message-Queued :
      (s t : NitroStreamer e) (msg : MessageWithMetadataAndPos)
      → queue_message s msg ≡ some t
      → Queued s t msg
  unfolding lookup
  queue_message-Queued s t msg r = elim (queue_message-Queueing s msg) [
    | passed_over why g ↦
        let same : t ≡ s = ground (arith, r, g) in
        rw same (record {
          current = refl;
          next = refl;
          others = λ p. inr refl;
          here = inl refl;
          stored = λ le. elim why [ inl lt ↦ absurd (omega arith) | inr found ↦ found ];
        })
    | put le f lt g ↦
        let (key, y) = added s msg (top s msg) in
        let same : t ≡ put_in s msg = ground (arith, r, g) in
        rw same (record {
          current = refl;
          next = refl;
          others = λ p. elim (Bool-cases (msg.pos == p)) [
            | inl u ↦ inl (ground (arith, u))
            | inr u ↦ inr (ground (arith, u))
          ];
          here = inr (f, (y, ground arith, refl));
          stored = λ le. (y, ground arith);
        })
    | endless high g ↦ absurd (ground (arith, r, g))
  ]

  -- The loop: every position is as before or has a message of the iterator, and every message that
  -- is not behind the current position is in the map.
  pub record Looped (s t : NitroStreamer e) (it : MessageIterator) : Type 0 where
    pub current : t.current_message_pos ≡ s.current_message_pos
    pub next : t.next_hotshot_block_num ≡ s.next_hotshot_block_num
    pub found : (p : ℕ) → Found s t it p
    pub stored :
        (i : ℕ) (x : MessageWithMetadataAndPos)
        → it.position ≤ i
        → message_at it.message i s.next_hotshot_block_num ≡ some x
        → s.current_message_pos ≤ x.pos
        → (y : MessageWithMetadataAndPos) × (lookup x.pos t.messages ≡ some y)

  -- Nothing is removed.
  none_earlier :
      (s u : NitroStreamer e) (msg : MessageWithMetadataAndPos) (p : ℕ)
      → Queued s u msg
      → lookup p u.messages ≡ none
      → lookup p s.messages ≡ none
  none_earlier s u msg p q f = elim (q.others p) [
    | inr same ↦ sym same ∙ f
    | inl k ↦ elim q.here [
      | inl same ↦ rw k (sym same ∙ (rw k at f))
      | inr (none_before, g) ↦ rw k none_before
    ]
  ]

  Found-after :
      (s u t : NitroStreamer e) (msg : MessageWithMetadataAndPos) (it : MessageIterator) (p : ℕ)
      → Queued s u msg
      → message_at it.message it.position s.next_hotshot_block_num ≡ some msg
      → Found u t (record it { position = it.position + 1 }) p
      → Found s t it p
  Found-after s u t msg it p q m (as_before f) = elim (q.others p) [
    | inr same ↦ as_before (f ∙ same)
    | inl k ↦ elim q.here [
      | inl same ↦ as_before (f ∙ rw k same)
      | inr (none_before, (y, g, meta)) ↦
          stored_new it.position msg y (rw k none_before) (omega arith) m (ground (arith, k))
            (f ∙ rw k g) meta
    ]
  ]
  Found-after s u t msg it p q m (stored_new i x y none_before le at pos f meta) =
      stored_new i x y (none_earlier s u msg p q none_before) (omega arith) (rw q.next at at) pos f
        meta

  still_there :
      (s t : NitroStreamer e) (it : MessageIterator) (p : ℕ) (y : MessageWithMetadataAndPos)
      → lookup p s.messages ≡ some y
      → Found s t it p
      → (z : MessageWithMetadataAndPos) × (lookup p t.messages ≡ some z)
  still_there s t it p y f (as_before g) = (y, g ∙ f)
  still_there s t it p y f (stored_new i x z n le at pos g meta) = (z, g)

  pub queue_loop-Looped :
      (fuel : ℕ) (s t : NitroStreamer e) (it : MessageIterator)
      → queue_loop fuel s it ≡ some t
      → Looped s t it
  unfolding queue_loop next_message
  queue_loop-Looped zero s t it r = cc
  queue_loop-Looped (suc fuel) s t it r =
      elim (message_at-cases it.message it.position s.next_hotshot_block_num) [
        | inl (f, none_left) ↦
            let q : t ≡ s = ground (arith, r, f) in
            rw q (record {
              current = refl;
              next = refl;
              found = λ p. as_before refl;
              stored = λ i x le m cur.
                  let lt = message_at_lt it.message i s.next_hotshot_block_num x m in
                  absurd (omega arith);
            })
        | inr (msg, f, h, g) ↦ elim (Option-cases (queue_message s msg)) [
          | inl m ↦ absurd (ground (arith, r, f, m))
          | inr (u, m) ↦
              let q = queue_message-Queued s u msg m in
              let rest =
                queue_loop-Looped fuel u t (record it { position = it.position + 1 })
                  (ground (arith, r, f, m)) in
              record {
                current = rest.current ∙ q.current;
                next = rest.next ∙ q.next;
                found = λ p. Found-after s u t msg it p q f (rest.found p);
                stored = λ i x le m cur. elim (Bool-cases (i == it.position)) [
                  | inl k ↦
                      let same : msg ≡ x = ground (arith, f, m, k) in
                      let (y, g) = q.stored (rw same cur) in
                      rw same at (
                        still_there u t (record it { position = it.position + 1 }) msg.pos y g
                          (rest.found msg.pos))
                  | inr k ↦ rest.stored i x (ground (arith, k, le)) (rw q.next m) (rw q.current cur)
                ];
              }
        ]
      ]
