-- ===== src/Op/Streamer/Head/Next.antt =====
-- `Next` hands out the batch that is due; `Peek` and `SetProperHead` move nothing on.
use espresso_streamers.Base.{
  ◌≡◌, refl, ap, Bool, true, false, Option, none, some, arith, ◌==◌, if◌then◌else◌, add64,
  max_uint64,
}
use espresso_streamers.Op.Batch.{Batch}
use espresso_streamers.Op.Streamer.Deps.{Deps}
use espresso_streamers.Op.Streamer.State.{BatchStreamer}
use espresso_streamers.Op.Streamer.Check.Accept.{Accepts, check_batch-accept_iff}
use espresso_streamers.Op.Streamer.Valid.{IsValid, Keeps}
use espresso_streamers.Op.Streamer.Head.{has_next, next}
use espresso_streamers.Op.Streamer.Head.Rounds.{Answer, has_next-Answer}

module _ {d : Deps} where
  -- What a delivery of `b` is: it was due, the position moves on by one, the head is free, a
  -- position to rewind to is taken up, nothing else changes but the buffer, the clients and the
  -- cache, and `b` was accepted in a state that shares all but the head, the buffer, the clients and
  -- the cache with the one before.
  pub record Delivers (s : BatchStreamer d) (b : Batch) (t : BatchStreamer d) : Type 0 where
    pub due : b.number ≡ s.next_batch_pos
    pub moved : t.next_batch_pos ≡ add64 s.next_batch_pos 1
    pub head_free : t.head_batch ≡ none
    pub rewound : t.hot_shot_pos ≡ (if s.skip_pos == max_uint64 then s.hot_shot_pos else s.skip_pos)
    pub no_skip : t.skip_pos ≡ max_uint64
    pub rest : t ≡ record s {
      client = t.client;
      next_batch_pos = t.next_batch_pos;
      hot_shot_pos = t.hot_shot_pos;
      skip_pos = t.skip_pos;
      head_batch = t.head_batch;
      batch_buffer = t.batch_buffer;
      finalized_l1_state_cache = t.finalized_l1_state_cache;
    }
    pub at : BatchStreamer d
    pub kept : Keeps s at
    pub accepted : Accepts at b

  abbrev pub NextPost : BatchStreamer d → Option Batch × BatchStreamer d → Type 0
  NextPost s (none, t) = IsValid t × Keeps s t
  NextPost s (some b, t) = IsValid t × Delivers s b t

  next_of_Answer :
      (s : BatchStreamer d) (r : Bool × BatchStreamer d)
      → has_next s ≡ r
      → Answer s r
      → NextPost s (next s)
  unfolding next
  next_of_Answer s (false, t) e a = rw (e, next) (a.valid, a.kept)
  next_of_Answer s (true, t) e a =
      let f = a.outcome in
      rw (e, next, f.at_head)
        (
          record { buffer = a.valid.buffer; head_due = tt },
          record {
            due = f.due;
            moved = ground (arith, a.kept);
            head_free = refl;
            rewound = ground (arith, a.kept);
            no_skip = refl;
            rest = ground (arith, a.kept);
            at = f.at;
            kept = f.kept;
            accepted = (check_batch-accept_iff f.at f.head).0 (ap (λ p. p.0) f.accepted);
          },
        )

  -- `Next` on a valid streamer either returns nothing, and then the streamer has changed in nothing
  -- but the head, the buffer, the clients and the cache; or it returns the batch whose number is
  -- due, which `CheckBatch` accepts, moves the position on by one, and rewinds to the position that
  -- was noted when the buffer was full, if any, and leaves the rest but the head, the buffer, the
  -- clients and the cache as it was. Either way the streamer stays valid.
  pub next_lem : (s : BatchStreamer d) → IsValid s → NextPost s (next s)
  next_lem s v = next_of_Answer s (has_next s) refl (has_next-Answer s v)
