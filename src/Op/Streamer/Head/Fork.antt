-- ===== src/Op/Streamer/Head/Fork.antt =====
-- `Peek`, and the draining of wrong forks by `SetProperHead`.
use espresso_streamers.Base.{
  ℕ, ◌≤◌, ◌≡◌, ◌≢◌, refl, ap, Bool, true, false, Option, none, some, List, [], ◌∷◌, ◌++◌, arith,
  length, ◌==◌, Bool-cases, inl, inr, ==_iff, ◌⊎◌, All,
}
use espresso_streamers.Op.Batch.{Batch, Hash}
use espresso_streamers.Op.Buffer.Order.{Sorted}
use espresso_streamers.Op.Streamer.Deps.{Deps}
use espresso_streamers.Op.Streamer.State.{BatchStreamer}
use espresso_streamers.Op.Streamer.Valid.{IsValid, Keeps, HeadDue}
use espresso_streamers.Op.Streamer.Head.{has_next, peek, drop_forks, set_proper_head}
use espresso_streamers.Op.Streamer.Head.Rounds.{Answer, has_next-Answer}

module _ {d : Deps} where
  abbrev pub PeekPost : BatchStreamer d → Option Batch × BatchStreamer d → Type 0
  PeekPost s (none, t) = IsValid t × Keeps s t
  PeekPost s (some b, t) =
      IsValid t × Keeps s t × (t.head_batch ≡ some b) × (b.number ≡ s.next_batch_pos)

  peek_of_Answer :
      (s : BatchStreamer d) (r : Bool × BatchStreamer d)
      → has_next s ≡ r
      → Answer s r
      → PeekPost s (peek s)
  unfolding peek
  peek_of_Answer s (false, t) e a = rw (e, peek) (a.valid, a.kept)
  peek_of_Answer s (true, t) e a =
      let f = a.outcome in
      let shown : peek s ≡ (some f.head, t) = ground (arith, e, f.at_head) in
      rw shown (a.valid, a.kept, f.at_head, f.due)

  -- `Peek` on a valid streamer changes nothing but the head, the buffer, the clients and the cache,
  -- and keeps the streamer valid. A batch that it shows is the one at the head, and it is due.
  pub peek_lem : (s : BatchStreamer d) → IsValid s → PeekPost s (peek s)
  peek_lem s v = peek_of_Answer s (has_next s) refl (has_next-Answer s v)

-- A batch of the number that is due whose parent is another.
pub record WrongFork (pos : ℕ) (parent : Hash) (b : Batch) : Type 0 where
  pub number : b.number ≡ pos
  pub parent_differs : b.header.parent_hash ≢ parent

-- The list is empty, or starts with a batch of another number or of the right parent.
abbrev pub StartsRight : ℕ → Hash → List Batch → Type 0
StartsRight pos parent [] = Unit {0}
StartsRight pos parent (x ∷ xs) = (x.number ≢ pos) ⊎ (x.header.parent_hash ≡ parent)

pub record Drained (pos : ℕ) (parent : Hash) (before after : List Batch) : Type 0 where
  pub dropped : List Batch
  pub split : before ≡ dropped ++ after
  pub all_wrong : All (WrongFork pos parent) dropped
  pub starts_right : StartsRight pos parent after

drop_forks-Drained :
    (pos : ℕ) (parent : Hash) (xs : List Batch) → Drained pos parent xs (drop_forks pos parent xs)
unfolding drop_forks
drop_forks-Drained pos parent [] = record {
  dropped = [];
  split = refl;
  all_wrong = tt;
  starts_right = tt;
}
drop_forks-Drained pos parent (x ∷ xs) = elim (Bool-cases (x.number == pos)) [
  | inr other ↦
      rw other
        (record { dropped = []; split = refl; all_wrong = tt; starts_right = inl (ground arith) })
  | inl due ↦ elim (Bool-cases (x.header.parent_hash == parent)) [
    | inl right ↦
        rw (due, right)
          (record {
            dropped = [];
            split = refl;
            all_wrong = tt;
            starts_right = inr ((==_iff _ _).0 right);
          })
    | inr wrong ↦
        let r = drop_forks-Drained pos parent xs in
        rw (due, wrong)
          (record {
            dropped = x ∷ r.dropped;
            split = ap (◌∷◌ x) r.split;
            all_wrong = (
              record { number = (==_iff _ _).0 due; parent_differs = ground arith },
              r.all_wrong,
            );
            starts_right = r.starts_right;
          })
  ]
]

drop_forks-valid :
    (pos : ℕ) (parent : Hash) (xs : List Batch) (c : ℕ)
    → Sorted xs
    → length xs ≤ c
    → Sorted (drop_forks pos parent xs) × (length (drop_forks pos parent xs) ≤ c)
unfolding drop_forks
drop_forks-valid pos parent [] c s h = (tt, h)
drop_forks-valid pos parent (x ∷ xs) c (p, ps) h = elim (Bool-cases (x.number == pos)) [
  | inr other ↦ rw other ((p, ps), h)
  | inl due ↦ elim (Bool-cases (x.header.parent_hash == parent)) [
    | inl right ↦ rw (due, right) ((p, ps), h)
    | inr wrong ↦ rw (due, wrong) (drop_forks-valid pos parent xs c ps (omega arith))
  ]
]

module _ {d : Deps} where
  abbrev drained : BatchStreamer d → Hash → BatchStreamer d
  drained s parent = record s {
    head_batch = none;
    batch_buffer = record {
      batches = drop_forks s.next_batch_pos parent s.batch_buffer.batches;
      capacity = s.batch_buffer.capacity;
    };
  }

  -- The head of a valid streamer is due, so the early return is not taken.
  set_proper_head_drains :
      (s : BatchStreamer d) (parent : Hash)
      → IsValid s
      → set_proper_head s parent ≡ drained s parent
  unfolding set_proper_head
  set_proper_head_drains s parent v = by_head s.head_batch refl v.head_due
    where
      by_head :
          (h : Option Batch)
          → s.head_batch ≡ h
          → HeadDue h s.next_batch_pos
          → set_proper_head s parent ≡ drained s parent
      by_head none e due = ground (arith, e)
      by_head (some b) e due = ground (arith, e, due)

  -- `SetProperHead` on a valid streamer frees the head and drops batches from the front of the
  -- buffer, all of the number that is due and of another parent, until the first batch left, if
  -- any, has another number or the given parent. Nothing else changes, and it stays valid.
  pub set_proper_head_lem :
      (s : BatchStreamer d) (parent : Hash)
      → IsValid s
      → let t = set_proper_head s parent in
        IsValid t
        × (t.head_batch ≡ none)
        × Drained s.next_batch_pos parent s.batch_buffer.batches t.batch_buffer.batches
        × (t ≡ record s { head_batch = none; batch_buffer = t.batch_buffer })
        × (t.batch_buffer.capacity ≡ s.batch_buffer.capacity)
  set_proper_head_lem s parent v =
      let (sorted, bounded) =
        drop_forks-valid s.next_batch_pos parent s.batch_buffer.batches s.batch_buffer.capacity
          v.buffer.sorted v.buffer.bounded in
      rw (set_proper_head_drains s parent v) (
        record { buffer = record { sorted = sorted; bounded = bounded }; head_due = tt },
        refl,
        drop_forks-Drained s.next_batch_pos parent s.batch_buffer.batches,
        refl,
        refl,
      )
