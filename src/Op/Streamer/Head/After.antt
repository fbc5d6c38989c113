-- ===== src/Op/Streamer/Head/After.antt =====
-- One round of the loop of `HasNext`.
use espresso_streamers.Base.{
  ◌<◌, ◌≡◌, refl, ap, Bool, true, false, none, some, List, [], ◌∷◌, arith, length, ltb, ◌==◌, not,
  if◌then◌else◌, Bool-cases, Option-cases, inl, inr, ==_iff,
}
use espresso_streamers.Op.Batch.{Batch, BatchValidity, drop, accept, undecided, past}
use espresso_streamers.Op.Buffer.Order.{IsValid as IsValidBuffer}
use espresso_streamers.Op.Streamer.Deps.{Deps}
use espresso_streamers.Op.Streamer.State.{BatchStreamer}
use espresso_streamers.Op.Streamer.Check.{check_batch}
use espresso_streamers.Op.Streamer.Check.Frame.{SameBut, check_batch-SameBut}
use espresso_streamers.Op.Streamer.Valid.{
  IsValid, Keeps, SameBut→IsValid, SameBut→IsValid_no_head, SameBut→Keeps, SameBut→Keeps_no_head,
  Keeps-trans,
}
use espresso_streamers.Op.Streamer.Head.{
  Round, return, continue, check_head, has_next_round, has_next_measure,
}

module _ {d : Deps} where
  -- A head that was found: `CheckBatch` accepted it in a state that shares all but the head, the
  -- buffer, the clients and the cache with the state at the start.
  pub record Found (s t : BatchStreamer d) : Type 0 where
    pub head : Batch
    pub at : BatchStreamer d
    pub at_head : t.head_batch ≡ some head
    pub due : head.number ≡ s.next_batch_pos
    pub kept : Keeps s at
    pub accepted : check_batch at head ≡ (accept, t)

  abbrev pub Outcome : BatchStreamer d → Bool → BatchStreamer d → Type 0
  Outcome s true t = Found s t
  Outcome s false t = Unit {0}

  abbrev pub After : BatchStreamer d → Round d → Type 0
  After s (return found t) = IsValid t × Keeps s t × Outcome s found t
  After s (continue t) = IsValid t × Keeps s t × (has_next_measure t < has_next_measure s)

  dropped-After :
      (s t : BatchStreamer d) (b : Batch)
      → IsValid s
      → s.head_batch ≡ some b
      → SameBut s t
      → After s (continue (record t { head_batch = none }))
  unfolding has_next_measure
  dropped-After s t b v h e =
      (SameBut→IsValid_no_head s t e v, SameBut→Keeps_no_head s t e, ground (arith, h, e))

  -- A head that was checked: accepted, kept for later, or dropped.
  check_head-After :
      (s : BatchStreamer d) (b : Batch)
      → IsValid s
      → s.head_batch ≡ some b
      → After s (check_head s b)
  unfolding check_head
  check_head-After s b v h = by_validity (check_batch s b).0 refl
    where
      t : BatchStreamer d
      t = (check_batch s b).1

      same : SameBut s t
      same = check_batch-SameBut s b

      due : b.number ≡ s.next_batch_pos
      due = rw h at v.head_due

      by_validity : (w : BatchValidity) → (check_batch s b).0 ≡ w → After s (check_head s b)
      by_validity accept e =
          rw (e, check_head)
            (
              SameBut→IsValid s t same v,
              SameBut→Keeps s t same,
              record {
                head = b;
                at = s;
                at_head = ground (arith, h, same);
                due = due;
                kept = refl;
                accepted = ground (arith, e);
              },
            )
      by_validity undecided e =
          rw (e, check_head) (SameBut→IsValid s t same v, SameBut→Keeps s t same, tt)
      by_validity drop e = rw (e, check_head) (dropped-After s t b v h same)
      by_validity past e = rw (e, check_head) (dropped-After s t b v h same)

  -- The state with the first batch of the buffer moved to the head.
  abbrev pub taken : BatchStreamer d → Batch → List Batch → BatchStreamer d
  taken s b bs = record s {
    head_batch = some b;
    batch_buffer = record { batches = bs; capacity = s.batch_buffer.capacity };
  }

  pub round_take :
      (s : BatchStreamer d) (b : Batch) (bs : List Batch)
      → s.head_batch ≡ none
      → s.batch_buffer.batches ≡ b ∷ bs
      → has_next_round s ≡ (
          if ltb b.number s.next_batch_pos
          then continue (record (taken s b bs) { head_batch = none })
          else if not (b.number == s.next_batch_pos)
          then return false s
          else check_head (taken s b bs) b)
  unfolding has_next_round
  round_take s b bs h e = ground (arith, h, e)

  transport-After :
      (s t : BatchStreamer d) (r : Round d)
      → Keeps s t
      → has_next_measure t ≡ has_next_measure s
      → After t r
      → After s r
  transport-After s t (return true u) k m (v, p, f) = (
    v,
    Keeps-trans s t u k p,
    record {
      head = f.head;
      at = f.at;
      at_head = f.at_head;
      due = ground (arith, f.due, k);
      kept = Keeps-trans s t f.at k f.kept;
      accepted = f.accepted;
    },
  )
  transport-After s t (return false u) k m (v, p, f) = (v, Keeps-trans s t u k p, tt)
  transport-After s t (continue u) k m (v, p, f) = (v, Keeps-trans s t u k p, omega arith)

  -- With no head, the first batch of the buffer decides.
  take_head-After :
      (s : BatchStreamer d) (b : Batch) (bs : List Batch)
      → IsValid s
      → s.head_batch ≡ none
      → s.batch_buffer.batches ≡ b ∷ bs
      → After s (has_next_round s)
  unfolding has_next_measure
  take_head-After s b bs v h e =
      rw (round_take s b bs h e) (elim (Bool-cases (ltb b.number s.next_batch_pos)) [
        | inl stale ↦
            rw stale
              (record { buffer = rest; head_due = tt }, ground (arith, h), ground (arith, h, e))
        | inr fresh ↦ elim (Bool-cases (b.number == s.next_batch_pos)) [
          | inr gap ↦ rw (fresh, gap) (v, refl, tt)
          | inl due ↦
              rw (fresh, due)
                (transport-After s (taken s b bs) (check_head (taken s b bs) b) refl
                  (ground (arith, h, e))
                  (check_head-After (taken s b bs) b
                    (record { buffer = rest; head_due = (==_iff _ _).0 due }) refl))
        ]
      ])
    where
      rest : IsValidBuffer (record { batches = bs; capacity = s.batch_buffer.capacity })
      rest = record { sorted = (rw e at v.buffer.sorted).1; bounded = omega (arith, ap length e) }

  pub round_head :
      (s : BatchStreamer d) (b : Batch) → s.head_batch ≡ some b → has_next_round s ≡ check_head s b
  unfolding has_next_round
  round_head s b h = ground (arith, h)

  pub round_empty :
      (s : BatchStreamer d)
      → s.head_batch ≡ none
      → s.batch_buffer.batches ≡ []
      → has_next_round s ≡ return false s
  unfolding has_next_round
  round_empty s h e = ground (arith, h, e)

  pub has_next_round-After : (s : BatchStreamer d) → IsValid s → After s (has_next_round s)
  has_next_round-After s v = elim (Option-cases s.head_batch) [
    | inr (b, h) ↦ rw (round_head s b h) (check_head-After s b v h)
    | inl h ↦ by_buffer s.batch_buffer.batches refl h
  ]
    where
      by_buffer :
          (l : List Batch)
          → s.batch_buffer.batches ≡ l
          → s.head_batch ≡ none
          → After s (has_next_round s)
      by_buffer [] e h = rw (round_empty s h e) (v, refl, tt)
      by_buffer (b ∷ bs) e h = take_head-After s b bs v h e
