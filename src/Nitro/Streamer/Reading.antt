-- ===== src/Nitro/Streamer/Reading.antt =====
-- Reading HotShot blocks keeps the map of the nitro streamer in order.
use espresso_streamers.Base.{
  Bool, Option, All, get_elem?, All-get_elem?, ◌^◌, ℕ, zero, suc, ◌+◌, ◌≤◌, ◌<◌, ◌≡◌, ◌⊎◌, inl, inr,
  refl, none, some, List, [], ◌∷◌, ltb, length, arith, Bool-cases, Option-cases, Result, ok, err,
  get_elem?_of_lt, get_elem?_of_ge,
}
use espresso_streamers.Nitro.Bytes.{Bytes}
use espresso_streamers.Nitro.Types.{MessageWithMetadataAndPos, BroadcastFeedMessage}
use espresso_streamers.Nitro.Codec.{Codec}
use espresso_streamers.Nitro.Payload.{
  verify_v1_message, filter_verified, Payload, v0, v1, MessageIterator, message_iterator,
  next_message, message_at, verify_signature, parse_nitro_messages_from_hot_shot,
}
use espresso_streamers.Op.Batch.{Address}
use espresso_streamers.Nitro.Monitor.{is_valid}
use espresso_streamers.Nitro.Streamer.{EspressoClient, NitroStreamer, queue_message, queue_loop}
use espresso_streamers.Nitro.Streamer.Hotshot.{
  TransactionError, parse_failed, payload_had_no_messages, signature_failed,
  parse_espresso_transaction, message_count,
}
use espresso_streamers.Nitro.Streamer.Queue.{IsQueue}
use espresso_streamers.Nitro.Streamer.Store.{queue_message-returned, queue_message_returns}
use espresso_streamers.Nitro.Streamer.Invariant.{queue_message-IsQueue}

-- The iterator yields a message of the given height, or it is behind the last one.
pub message_at-cases :
    (m : Payload) (position height : ℕ)
    → ((message_at m position height ≡ none) × (message_count m ≤ position))
      ⊎ ((msg : MessageWithMetadataAndPos) × (message_at m position height ≡ some msg)
          × (msg.hotshot_height ≡ height)
          × (position < message_count m))
unfolding message_at message_count
message_at-cases (v0 m) position height = elim (Bool-cases (ltb position (length m.messages))) [
  | inl t ↦
      let (x, e) = get_elem?_of_lt m.messages position (ground (arith, t)) in
      inr (
        record { message_with_meta = x.message; pos = x.pos; hotshot_height = height },
        ground (arith, e),
        refl,
        ground (arith, t),
      )
  | inr t ↦
      let e = get_elem?_of_ge m.messages position (ground (arith, t)) in
      inl (ground (arith, e), ground (arith, t))
]
message_at-cases (v1 m) position height = elim (Bool-cases (ltb position (length m.messages))) [
  | inl t ↦
      let (x, e) = get_elem?_of_lt m.messages position (ground (arith, t)) in
      inr (
        record { message_with_meta = x.message; pos = x.sequence_number; hotshot_height = height },
        ground (arith, e),
        refl,
        ground (arith, t),
      )
  | inr t ↦
      let e = get_elem?_of_ge m.messages position (ground (arith, t)) in
      inl (ground (arith, e), ground (arith, t))
]

pub Result-cases :
    {E A : Type 0} (r : Result E A) → ((x : E) × (r ≡ err x)) ⊎ ((a : A) × (r ≡ ok a))
Result-cases (err x) = inl (x, refl)
Result-cases (ok a) = inr (a, refl)

-- The positions of all messages are below the end of the uint64 range.
abbrev pub IsBelow : Payload → Type 0
IsBelow (v0 m) = All (λ x. x.pos + 1 < 2 ^ 64) m.messages
IsBelow (v1 m) = All (λ x. x.sequence_number + 1 < 2 ^ 64) m.messages

-- So are those of the messages in a transaction, if it has any.
abbrev pub HasBelow : Codec → Bytes → Type 0
HasBelow c tx = (m : Payload) → parse_nitro_messages_from_hot_shot c tx ≡ ok m → IsBelow m

message_at-IsBelow :
    (m : Payload) (position height : ℕ) (x : MessageWithMetadataAndPos)
    → IsBelow m
    → message_at m position height ≡ some x
    → x.pos + 1 < 2 ^ 64
unfolding message_at
message_at-IsBelow (v0 m) position height x h e =
    elim (Option-cases (get_elem? m.messages position)) [
      | inl f ↦ absurd (ground (arith, e, f))
      | inr (y, f) ↦
          let low = All-get_elem? (λ z. z.pos + 1 < 2 ^ 64) m.messages position h f in
          ground (arith, e, f, low)
    ]
message_at-IsBelow (v1 m) position height x h e =
    elim (Option-cases (get_elem? m.messages position)) [
      | inl f ↦ absurd (ground (arith, e, f))
      | inr (y, f) ↦
          let low = All-get_elem? (λ z. z.sequence_number + 1 < 2 ^ 64) m.messages position h f in
          ground (arith, e, f, low)
    ]

filter_verified-All :
    (P : BroadcastFeedMessage → Type 0) (c : Codec) (valid : Address → ℕ → Bool)
    (chain_id l1_height : ℕ) (ms : List BroadcastFeedMessage)
    → All P ms
    → All P (filter_verified c valid chain_id l1_height ms)
unfolding filter_verified
filter_verified-All P c valid chain_id l1_height [] h = tt
filter_verified-All P c valid chain_id l1_height (m ∷ ms) (p, h) =
    let rest = filter_verified-All P c valid chain_id l1_height ms h in
    elim (Option-cases (verify_v1_message c valid chain_id l1_height m)) [
      | inl e ↦
          let r : filter_verified c valid chain_id l1_height (m ∷ ms)
              ≡ m ∷ filter_verified c valid chain_id l1_height ms =
            ground (arith, e) in
          rw r (p, rest)
      | inr (x, e) ↦
          let r : filter_verified c valid chain_id l1_height (m ∷ ms)
              ≡ filter_verified c valid chain_id l1_height ms =
            ground (arith, e) in
          rw r rest
    ]

verify_signature-IsBelow :
    (c : Codec) (valid : Address → ℕ → Bool) (chain_id l1_height : ℕ) (m : Payload)
    → IsBelow m
    → IsBelow (verify_signature c valid chain_id l1_height m).1
unfolding verify_signature
verify_signature-IsBelow c valid chain_id l1_height (v0 m) h = h
verify_signature-IsBelow c valid chain_id l1_height (v1 m) h =
    filter_verified-All (λ x. x.sequence_number + 1 < 2 ^ 64) c valid chain_id l1_height m.messages
      h

module _ {e : EspressoClient} where
  -- The map stays in order, and the next block and the current position are the same.
  pub record Kept (s t : NitroStreamer e) : Type 0 where
    pub queue : IsQueue t
    pub next : t.next_hotshot_block_num ≡ s.next_hotshot_block_num
    pub position : t.current_message_pos ≡ s.current_message_pos

  queue_message-Kept :
      (s t : NitroStreamer e) (msg : MessageWithMetadataAndPos)
      → IsQueue s
      → msg.hotshot_height ≡ s.next_hotshot_block_num
      → queue_message s msg ≡ some t
      → Kept s t
  queue_message-Kept s t msg q now r =
      let same =
        queue_message-returned
          (λ u.
            (u.next_hotshot_block_num ≡ s.next_hotshot_block_num)
            × (u.current_message_pos ≡ s.current_message_pos))
          s t msg (refl, refl) (λ le fresh lt. (refl, refl)) r in
      record { queue = queue_message-IsQueue s t msg q now r; next = same.0; position = same.1 }

  pub Kept-trans : (s t u : NitroStreamer e) → Kept s t → Kept t u → Kept s u
  Kept-trans s t u k l = record {
    queue = l.queue;
    next = ground (arith, k.next, l.next);
    position = ground (arith, k.position, l.position);
  }

  -- What the loop over the messages of an iterator returns.
  pub queue_loop-Kept :
      (fuel : ℕ) (s t : NitroStreamer e) (it : MessageIterator)
      → IsQueue s
      → queue_loop fuel s it ≡ some t
      → Kept s t
  unfolding queue_loop next_message
  queue_loop-Kept zero s t it q r = cc
  queue_loop-Kept (suc fuel) s t it q r =
      elim (message_at-cases it.message it.position s.next_hotshot_block_num) [
        | inl (f, g) ↦
            let same : t ≡ s = ground (arith, r, f) in
            rw same (record { queue = q; next = refl; position = refl })
        | inr (msg, f, h, g) ↦ elim (Option-cases (queue_message s msg)) [
          | inl m ↦ absurd (ground (arith, r, f, m))
          | inr (u, m) ↦
              let k = queue_message-Kept s u msg q h m in
              Kept-trans s u t k (
                queue_loop-Kept fuel u t (record it { position = it.position + 1 }) k.queue
                  (ground (arith, r, f, m)))
        ]
      ]

  -- The loop ends once its fuel exceeds the messages that are left, with the positions below the end
  -- of the uint64 range.
  pub queue_loop_ends :
      (fuel : ℕ) (s : NitroStreamer e) (it : MessageIterator)
      → s.highest_pos + 1 < 2 ^ 64
      → IsBelow it.message
      → it.position ≤ message_count it.message
      → message_count it.message < fuel + it.position
      → (t : NitroStreamer e) × (queue_loop fuel s it ≡ some t) × (t.highest_pos + 1 < 2 ^ 64)
  unfolding queue_loop next_message
  queue_loop_ends zero s it high below le lt = absurd (omega arith)
  queue_loop_ends (suc fuel) s it high below le lt =
      elim (message_at-cases it.message it.position s.next_hotshot_block_num) [
        | inl (f, g) ↦ (s, ground (arith, f), high)
        | inr (msg, f, h, g) ↦
            let low =
              message_at-IsBelow it.message it.position s.next_hotshot_block_num msg below f in
            let (u, m, high') = queue_message_returns s msg high low in
            let (t, r, top) =
              queue_loop_ends fuel u (record it { position = it.position + 1 }) high' below
                (omega arith) (omega arith) in
            (t, ground (arith, f, m, r), top)
      ]

  -- How a transaction leaves the streamer: as it was, or with the messages of a payload queued that
  -- has verified.
  pub data Parsed (c : Codec) (s : NitroStreamer e) (tx : Bytes) (l1_height : ℕ)
      (t : NitroStreamer e) : Type 0 where
    skipped : t ≡ s → Parsed c s tx l1_height t
    queued :
        (message verified : Payload)
        → parse_nitro_messages_from_hot_shot c tx ≡ ok message
        → verify_signature c (is_valid s.monitor) s.namespace l1_height message ≡ (none, verified)
        → queue_loop (suc (message_count verified)) s (message_iterator verified) ≡ some t
        → Parsed c s tx l1_height t

  pub parse_espresso_transaction-Parsed :
      (c : Codec) (s t : NitroStreamer e) (tx : Bytes) (l1_height : ℕ) (x : Option TransactionError)
      → parse_espresso_transaction c s tx l1_height ≡ some (x, t)
      → Parsed c s tx l1_height t
  unfolding parse_espresso_transaction
  parse_espresso_transaction-Parsed c s t tx l1_height x r =
      elim (Result-cases (parse_nitro_messages_from_hot_shot c tx)) [
        | inl (y, f) ↦ skipped (ground (arith, r, f))
        | inr (message, f) ↦
            let check = verify_signature c (is_valid s.monitor) s.namespace l1_height message in
            let loop = queue_loop (suc (message_count check.1)) s (message_iterator check.1) in
            elim (Option-cases (next_message 0 (message_iterator message)).0) [
              | inl n ↦ skipped (ground (arith, r, f, n))
              | inr (m, n) ↦ elim (Option-cases check.0) [
                | inr (y, v) ↦ skipped (ground (arith, r, f, n, v))
                | inl v ↦ elim (Option-cases loop) [
                  | inl l ↦ absurd (ground (arith, r, f, n, v, l))
                  | inr (u, l) ↦
                      queued message check.1 f (ground (arith, v)) (ground (arith, r, f, n, v, l))
                ]
              ]
            ]
      ]

  -- A transaction whose messages have positions below the end of the uint64 range is read to the end.
  pub parse_espresso_transaction_returns :
      (c : Codec) (s : NitroStreamer e) (tx : Bytes) (l1_height : ℕ)
      → s.highest_pos + 1 < 2 ^ 64
      → HasBelow c tx
      → (x : Option TransactionError) × (t : NitroStreamer e) × (parse_espresso_transaction c s tx
            l1_height
          ≡ some (x, t))
        × (t.highest_pos + 1 < 2 ^ 64)
  unfolding parse_espresso_transaction message_iterator
  parse_espresso_transaction_returns c s tx l1_height high below =
      elim (Result-cases (parse_nitro_messages_from_hot_shot c tx)) [
        | inl (y, f) ↦ (some (parse_failed y), s, ground (arith, f), high)
        | inr (message, f) ↦
            let check = verify_signature c (is_valid s.monitor) s.namespace l1_height message in
            elim (Option-cases (next_message 0 (message_iterator message)).0) [
              | inl n ↦ (some payload_had_no_messages, s, ground (arith, f, n), high)
              | inr (m, n) ↦ elim (Option-cases check.0) [
                | inr (y, v) ↦ (some (signature_failed y), s, ground (arith, f, n, v), high)
                | inl v ↦
                    let low =
                      verify_signature-IsBelow c (is_valid s.monitor) s.namespace l1_height message
                        (below message f) in
                    let (t, l, high') =
                      queue_loop_ends (suc (message_count check.1)) s (message_iterator check.1)
                        high low (omega arith) (omega arith) in
                    (none, t, ground (arith, f, n, v, l), high')
              ]
            ]
      ]

  Parsed-Kept :
      (c : Codec) (s t : NitroStreamer e) (tx : Bytes) (l1_height : ℕ)
      → IsQueue s
      → Parsed c s tx l1_height t
      → Kept s t
  Parsed-Kept c s t tx l1_height q (skipped r) =
      rw r (record { queue = q; next = refl; position = refl })
  Parsed-Kept c s t tx l1_height q (queued message verified f v l) =
      queue_loop-Kept (suc (message_count verified)) s t (message_iterator verified) q l

  -- A transaction, whatever its bytes are, leaves a map that is in order in order.
  pub parse_espresso_transaction-Kept :
      (c : Codec) (s t : NitroStreamer e) (tx : Bytes) (l1_height : ℕ) (x : Option TransactionError)
      → IsQueue s
      → parse_espresso_transaction c s tx l1_height ≡ some (x, t)
      → Kept s t
  parse_espresso_transaction-Kept c s t tx l1_height x q r =
      Parsed-Kept c s t tx l1_height q (parse_espresso_transaction-Parsed c s t tx l1_height x r)
