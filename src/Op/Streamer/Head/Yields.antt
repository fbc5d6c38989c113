-- ===== src/Op/Streamer/Head/Yields.antt =====
-- What is known of the batch that `HasNext` finds.
use espresso_streamers.Base.{
  ℕ, zero, suc, ◌≡◌, inl, inr, refl, Bool, true, false, Option, none, some, List, [], ◌∷◌, arith,
  ltb, ◌==◌, Bool-cases, Option-cases,
}
use espresso_streamers.Op.Batch.{Batch, BatchValidity, drop, accept, undecided, past}
use espresso_streamers.Op.Streamer.Deps.{Deps}
use espresso_streamers.Op.Streamer.State.{BatchStreamer}
use espresso_streamers.Op.Streamer.Check.{check_batch}
use espresso_streamers.Op.Streamer.Check.Frame.{check_batch-SameBut}
use espresso_streamers.Op.Streamer.Check.Vetted.{
  Vetting, HasSound, IsVetted, check_batch-HasSound, check_batch-IsVetted,
}
use espresso_streamers.Op.Streamer.Head.{
  Round, return, continue, check_head, has_next_round, has_next_loop, has_next_measure, has_next,
  next, peek,
}
use espresso_streamers.Op.Streamer.Head.After.{round_head, round_take, round_empty, taken}

module _ {d : Deps} (vet : Vetting d) where
  abbrev pub VettedIfAny : d.Client → Option Batch → Type 0
  VettedIfAny k none = Unit {0}
  VettedIfAny k (some b) = IsVetted vet k b

  -- A head that is reported is vetted.
  abbrev pub Yields : Bool → BatchStreamer d → Type 0
  Yields false t = HasSound vet t
  Yields true t = HasSound vet t × ((b : Batch) × (t.head_batch ≡ some b) × IsVetted vet t.client b)

  abbrev RoundYields : Round d → Type 0
  RoundYields (return found t) = Yields found t
  RoundYields (continue t) = HasSound vet t

  check_head-Yields :
      (s : BatchStreamer d) (b : Batch)
      → s.head_batch ≡ some b
      → HasSound vet s
      → RoundYields (check_head s b)
  unfolding check_head
  check_head-Yields s b h v = by_validity (check_batch s b).0 refl
    where
      sound : HasSound vet (check_batch s b).1
      sound = check_batch-HasSound vet s b v

      by_validity : (w : BatchValidity) → (check_batch s b).0 ≡ w → RoundYields (check_head s b)
      by_validity accept e =
          rw (e, check_head)
            (
              sound,
              (b, ground (arith, h, check_batch-SameBut s b), check_batch-IsVetted vet s b v e),
            )
      by_validity undecided e = rw (e, check_head) sound
      by_validity drop e = rw (e, check_head) sound
      by_validity past e = rw (e, check_head) sound

  take_head-Yields :
      (s : BatchStreamer d) (b : Batch) (bs : List Batch)
      → s.head_batch ≡ none
      → s.batch_buffer.batches ≡ b ∷ bs
      → HasSound vet s
      → RoundYields (has_next_round s)
  take_head-Yields s b bs h e v =
      rw (round_take s b bs h e) (elim (Bool-cases (ltb b.number s.next_batch_pos)) [
        | inl stale ↦ rw stale v
        | inr fresh ↦ elim (Bool-cases (b.number == s.next_batch_pos)) [
          | inr gap ↦ rw (fresh, gap) v
          | inl due ↦ rw (fresh, due) (check_head-Yields (taken s b bs) b refl v)
        ]
      ])

  has_next_round-Yields : (s : BatchStreamer d) → HasSound vet s → RoundYields (has_next_round s)
  has_next_round-Yields s v = elim (Option-cases s.head_batch) [
    | inr (b, h) ↦ rw (round_head s b h) (check_head-Yields s b h v)
    | inl h ↦ by_buffer s.batch_buffer.batches refl h
  ]
    where
      by_buffer :
          (l : List Batch)
          → s.batch_buffer.batches ≡ l
          → s.head_batch ≡ none
          → RoundYields (has_next_round s)
      by_buffer [] e h = rw (round_empty s h e) v
      by_buffer (b ∷ bs) e h = take_head-Yields s b bs h e v

  LoopYields : Option (Bool × BatchStreamer d) → Type 0
  LoopYields none = Unit {0}
  LoopYields (some (found, t)) = Yields found t

  has_next_loop-Yields :
      (fuel : ℕ) (s : BatchStreamer d) → HasSound vet s → LoopYields (has_next_loop fuel s)
  unfolding LoopYields has_next_loop
  has_next_loop-Yields zero s v = tt
  has_next_loop-Yields (suc fuel) s v =
      by_round (has_next_round s) refl (has_next_round-Yields s v) (has_next_loop-Yields fuel)
    where
      by_round :
          (r : Round d)
          → has_next_round s ≡ r
          → RoundYields r
          → ((t : BatchStreamer d) → HasSound vet t → LoopYields (has_next_loop fuel t))
          → LoopYields (has_next_loop (suc fuel) s)
      by_round (return found t) e y ih = rw (e, has_next_loop) y
      by_round (continue t) e y ih = rw (e, has_next_loop) (ih t y)

  pub has_next-Yields :
      (s : BatchStreamer d) → HasSound vet s → Yields (has_next s).0 (has_next s).1
  unfolding has_next LoopYields
  has_next-Yields s v = by_result _ refl (has_next_loop-Yields (suc (has_next_measure s)) s v)
    where
      by_result :
          (o : Option (Bool × BatchStreamer d))
          → has_next_loop (suc (has_next_measure s)) s ≡ o
          → LoopYields o
          → Yields (has_next s).0 (has_next s).1
      by_result none e y = rw (e, has_next) v
      by_result (some r) e y = rw (e, has_next) y

  Yields-HasSound : (found : Bool) (t : BatchStreamer d) → Yields found t → HasSound vet t
  Yields-HasSound false t y = y
  Yields-HasSound true t y = y.0

  pub has_next-HasSound : (s : BatchStreamer d) → HasSound vet s → HasSound vet (has_next s).1
  has_next-HasSound s v = Yields-HasSound (has_next s).0 (has_next s).1 (has_next-Yields s v)

  pub peek-HasSound : (s : BatchStreamer d) → HasSound vet s → HasSound vet (peek s).1
  unfolding peek
  peek-HasSound s v = has_next-HasSound s v

  next_of_Yields :
      (s : BatchStreamer d) (r : Bool × BatchStreamer d)
      → has_next s ≡ r
      → Yields r.0 r.1
      → HasSound vet (next s).1 × VettedIfAny (next s).1.client (next s).0
  unfolding next
  next_of_Yields s (false, t) e y = rw (e, next) (y, tt)
  next_of_Yields s (true, t) e (v, (b, h, a)) = rw (e, next, h) (v, a)

  -- What `Next` returns is vetted.
  pub next-IsVetted :
      (s : BatchStreamer d)
      → HasSound vet s
      → HasSound vet (next s).1 × VettedIfAny (next s).1.client (next s).0
  next-IsVetted s v = next_of_Yields s (has_next s) refl (has_next-Yields s v)
