-- ===== src/Op/Streamer/Head/Rounds.antt =====
-- The loop of `HasNext`: each round keeps the invariant, and there are finitely many.
use espresso_streamers.Base.{
  ℕ, zero, suc, ◌<◌, ◌≡◌, refl, Bool, true, false, Option, none, some, arith,
}
use espresso_streamers.Op.Streamer.Deps.{Deps}
use espresso_streamers.Op.Streamer.State.{BatchStreamer}
use espresso_streamers.Op.Streamer.Valid.{IsValid, Keeps, Keeps-trans}
use espresso_streamers.Op.Streamer.Head.{
  Round, return, continue, has_next_round, has_next_loop, has_next_measure, has_next,
}
use espresso_streamers.Op.Streamer.Head.After.{Outcome, After, has_next_round-After}

module _ {d : Deps} where
  -- What `HasNext` answers, and the state that it leaves.
  pub record Answer (s : BatchStreamer d) (r : Bool × BatchStreamer d) : Type 0 where
    pub valid : IsValid r.1
    pub kept : Keeps s r.1
    pub outcome : Outcome s r.0 r.1

  Ends : BatchStreamer d → Option (Bool × BatchStreamer d) → Type 0
  Ends s none = ⊥
  Ends s (some r) = Answer s r

  Ends-trans :
      (s t : BatchStreamer d) (o : Option (Bool × BatchStreamer d))
      → Keeps s t
      → Ends t o
      → Ends s o
  unfolding Ends
  Ends-trans s t none k a = a
  Ends-trans s t (some (true, u)) k a =
      let f = a.outcome in
      record {
        valid = a.valid;
        kept = Keeps-trans s t u k a.kept;
        outcome = record {
          head = f.head;
          at = f.at;
          at_head = f.at_head;
          due = ground (arith, f.due, k);
          kept = Keeps-trans s t f.at k f.kept;
          accepted = f.accepted;
        };
      }
  Ends-trans s t (some (false, u)) k a = record {
    valid = a.valid;
    kept = Keeps-trans s t u k a.kept;
    outcome = tt;
  }

  -- With more fuel than the measure the loop ends.
  has_next_loop-Ends :
      (fuel : ℕ) (s : BatchStreamer d)
      → IsValid s
      → has_next_measure s < fuel
      → Ends s (has_next_loop fuel s)
  unfolding Ends has_next_loop
  has_next_loop-Ends zero s v h = absurd (omega arith)
  has_next_loop-Ends (suc fuel) s v h =
      by_round (has_next_round s) refl (has_next_round-After s v) (has_next_loop-Ends fuel)
    where
      by_round :
          (r : Round d)
          → has_next_round s ≡ r
          → After s r
          → ((t : BatchStreamer d)
              → IsValid t
              → has_next_measure t < fuel
              → Ends t (has_next_loop fuel t))
          → Ends s (has_next_loop (suc fuel) s)
      by_round (return found t) e (w, k, o) ih =
          rw (e, has_next_loop) (record { valid = w; kept = k; outcome = o })
      by_round (continue t) e (w, k, m) ih =
          rw (e, has_next_loop) (Ends-trans s t (has_next_loop fuel t) k (ih t w (omega arith)))

  -- On a valid streamer the loop of `HasNext` ends within its fuel. What it leaves is valid and has
  -- changed in nothing but the head, the buffer, the clients and the cache. If the answer is yes,
  -- the head is a batch whose number is the one that is due, and `CheckBatch` has just accepted it.
  pub has_next_total :
      (fuel : ℕ) (s : BatchStreamer d)
      → IsValid s
      → has_next_measure s < fuel
      → (r : Bool × BatchStreamer d) × (has_next_loop fuel s ≡ some r) × Answer s r
  unfolding Ends
  has_next_total fuel s v h = by_result (has_next_loop fuel s) refl (has_next_loop-Ends fuel s v h)
    where
      by_result :
          (o : Option (Bool × BatchStreamer d))
          → has_next_loop fuel s ≡ o
          → Ends s o
          → (r : Bool × BatchStreamer d) × (has_next_loop fuel s ≡ some r) × Answer s r
      by_result none e a = absurd a
      by_result (some r) e a = (r, e, a)

  pub has_next-Answer : (s : BatchStreamer d) → IsValid s → Answer s (has_next s)
  unfolding has_next
  has_next-Answer s v =
      let (r, e, a) = has_next_total (suc (has_next_measure s)) s v (omega arith) in
      rw (e, has_next) a
