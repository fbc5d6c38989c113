-- ===== src/Op/Buffered/Consecutive.antt =====
-- What the buffered streamer hands out over a sequence of calls.
use espresso_streamers.Base.{
  ℕ, suc, ◌+◌, ◌^◌, ◌≤◌, ◌<◌, ◌≡◌, inl, inr, refl, subst, ap, ◌∙◌, Option, none, some, List, [],
  ◌∷◌, length, arith, ltb, Bool-cases,
}
use espresso_streamers.Op.Batch.{Batch, Hash}
use espresso_streamers.Op.Interface.{EspressoStreamer, Lawful}
use espresso_streamers.Op.Buffered.{
  BufferedStreamer, update, has_next, next, peek, get_batch_finalization_timestamp,
}
use espresso_streamers.Op.Buffered.Window.{Numbered, IsRun}
use espresso_streamers.Op.Buffered.Reads.{Reads, next-Reads}
use espresso_streamers.Op.Buffered.Peeks.{Shows, peek-Shows}

-- A method was called, other than those that move the window, and returned; `Next` returned the
-- batch, if any.
pub data Call {i : EspressoStreamer}
    : BufferedStreamer i → Option Batch → BufferedStreamer i → Type 0 where
  updates :
      {b c : BufferedStreamer i} (fuel : ℕ) (e : Option i.Error)
      → update fuel b ≡ some (e, c)
      → Call b none c
  asks : {b : BufferedStreamer i} → Call b none (has_next b).1
  shows :
      {b c : BufferedStreamer i} (fuel : ℕ) (o : Option Batch)
      → peek (suc fuel) b ≡ some (o, c)
      → Call b none c
  reads :
      {b c : BufferedStreamer i} {o : Option Batch} (fuel : ℕ)
      → next (suc fuel) b ≡ some (o, c)
      → Call b o c
  looks_up :
      {b : BufferedStreamer i} (hash : Hash)
      → Call b none (get_batch_finalization_timestamp b hash).1

-- One call after the other, with what `Next` returned.
pub data Session {i : EspressoStreamer}
    : BufferedStreamer i → List (Option Batch) → BufferedStreamer i → Type 0 where
  done : {b : BufferedStreamer i} → Session b [] b
  call :
      {b c e : BufferedStreamer i} {o : Option Batch} {os : List (Option Batch)}
      → Call b o c
      → Session c os e
      → Session b (o ∷ os) e

abbrev pub returned : List (Option Batch) → List Batch
returned [] = []
returned (none ∷ os) = returned os
returned (some x ∷ os) = x ∷ returned os

length-returned :
    (o : Option Batch) (os : List (Option Batch))
    → length (returned (o ∷ os)) ≡ length (returned (o ∷ [])) + length (returned os)
length-returned none os = omega arith
length-returned (some x) os = omega arith

Numbered-join :
    (m : ℕ) (o : Option Batch) (os : List (Option Batch))
    → Numbered m (returned (o ∷ []))
    → Numbered (m + length (returned (o ∷ []))) (returned os)
    → Numbered m (returned (o ∷ os))
Numbered-join m none os p q = let e : m + 0 ≡ m = omega arith in rw e at q
Numbered-join m (some x) os p q = (p.0, q)

module _ {i : EspressoStreamer} (l : Lawful i) (n : ℕ) where
  -- A call left the window with its start and at most one batch longer; if `Next` returned a batch, it
  -- is the one after those read.
  pub record Goes (b : BufferedStreamer i) (o : Option Batch) (c : BufferedStreamer i)
      : Type 0 where
    pub run : IsRun l n c
    pub start : c.starting_batch_pos ≡ b.starting_batch_pos
    pub grown : length c.batches ≤ length b.batches + 1
    pub read : Numbered (n + b.read_pos) (returned (o ∷ []))
    pub read_pos : c.read_pos ≡ b.read_pos + length (returned (o ∷ []))

  below-Goes :
      (b : BufferedStreamer i) (s : i.State)
      → IsRun l n b
      → l.Valid s × (l.position s ≡ l.position b.streamer)
      → Goes b none (record b { streamer = s })
  below-Goes b s r (v, e) = record {
    run = record {
      numbered = r.numbered;
      due = ground (arith, e, r.due);
      read = r.read;
      valid = v;
    };
    start = refl;
    grown = omega arith;
    read = tt;
    read_pos = omega arith;
  }

  update-Goes :
      (b c : BufferedStreamer i) (fuel : ℕ) (e : Option i.Error)
      → update fuel b ≡ some (e, c)
      → IsRun l n b
      → Goes b none c
  unfolding update
  update-Goes b c fuel e h r = by_answer (i.update fuel b.streamer) refl
    where
      by_answer :
          (o : Option (Option i.Error × i.State)) → i.update fuel b.streamer ≡ o → Goes b none c
      by_answer none f = absurd (ground (arith, h, f))
      by_answer (some (e', s)) f =
          let same : record b { streamer = s } ≡ c = ground (arith, h, f) in
          subst (λ (x : BufferedStreamer i). Goes b none x) same
            (below-Goes b s r (l.update_keeps fuel b.streamer s e' r.valid f))

  has_next-Goes : (b : BufferedStreamer i) → IsRun l n b → Goes b none (has_next b).1
  unfolding has_next
  has_next-Goes b r = elim (Bool-cases (ltb b.read_pos (length b.batches))) [
    | inl e ↦ rw (e, has_next) (below-Goes b b.streamer r (r.valid, refl))
    | inr e ↦
        rw (e, has_next)
          (below-Goes b (i.has_next b.streamer).1 r (l.has_next_keeps b.streamer r.valid))
  ]

  shown-Goes :
      (b c : BufferedStreamer i) (o : Option Batch)
      → IsRun l n b
      → Shows l n b (some (o, c))
      → Goes b none c
  shown-Goes b c o r (t, run, shown) =
      let same : record b { streamer = t } ≡ c = elim shown [
        | inl e ↦ ground (arith, e)
        | inr (x, e, m) ↦ ground (arith, e)
      ] in
      subst (λ (x : BufferedStreamer i). Goes b none x) same
        (below-Goes b t r (run.valid, ground (arith, run.due, r.due)))

  read-Goes : (b c : BufferedStreamer i) (o : Option Batch) → Reads l n b (some (o, c)) → Goes b o c
  read-Goes b c o (inl (c', e, w)) =
      let same : c' ≡ c = ground (arith, e) in
      let nothing : none ≡ o = ground (arith, e) in
      subst (λ (x : BufferedStreamer i). Goes b o x) same
        (subst (λ (y : Option Batch). Goes b y c') nothing
          (record {
            run = w.run;
            start = w.start;
            grown = omega (arith, ap length w.batches);
            read = tt;
            read_pos = omega (arith, w.read_pos);
          }))
  read-Goes b c o (inr (x, c', e, w)) =
      let same : c' ≡ c = ground (arith, e) in
      let batch : some x ≡ o = ground (arith, e) in
      subst (λ (x : BufferedStreamer i). Goes b o x) same
        (subst (λ (y : Option Batch). Goes b y c') batch
          (record {
            run = w.run;
            start = w.start;
            grown = w.grown;
            read = (w.in_order, tt);
            read_pos = w.read_pos;
          }))

  call-Goes :
      {b c : BufferedStreamer i} {o : Option Batch}
      → Call b o c
      → IsRun l n b
      → b.starting_batch_pos ≤ n
      → n + length b.batches + 1 < 2 ^ 64
      → Goes b o c
  call-Goes {b = b} {c = c} (updates fuel e h) r le room = update-Goes b c fuel e h r
  call-Goes {b = b} asks r le room = has_next-Goes b r
  call-Goes {b = b} {c = c} (shows fuel o h) r le room =
      shown-Goes b c o r (subst (Shows l n b) h (peek-Shows l n b fuel r le))
  call-Goes {b = b} {c = c} {o = o} (reads fuel h) r le room =
      read-Goes b c o (subst (Reads l n b) h (next-Reads l n b fuel r le room))
  call-Goes {b = b} (looks_up hash) r le room =
      unfold get_batch_finalization_timestamp in
      below-Goes b (i.get_batch_finalization_timestamp b.streamer hash).1 r
        (l.stamps_keep b.streamer hash r.valid)

  -- Over any calls of `Update`, `HasNext`, `Peek`, `Next` and `GetBatchFinalizationTimestamp` on a
  -- window that starts at `n`, not before the starting position, over a lawful streamer that is due to
  -- continue it, with as many numbers left below 2^64 as there are calls, the batches that `Next`
  -- returns have the numbers after those read, one after the other without a gap; the window stays a
  -- run of consecutive batches that the streamer below continues.
  pub session_consecutive :
      {b c : BufferedStreamer i} {os : List (Option Batch)}
      → Session b os c
      → IsRun l n b
      → b.starting_batch_pos ≤ n
      → n + length b.batches + length os + 1 < 2 ^ 64
      → IsRun l n c
        × Numbered (n + b.read_pos) (returned os)
        × (c.read_pos ≡ b.read_pos + length (returned os))
        × (c.starting_batch_pos ≡ b.starting_batch_pos)
  session_consecutive done r le room = (r, tt, omega arith, refl)
  session_consecutive {b = b} (call {c = c} {o = o} {os = os} x rest) r le room =
      let g = call-Goes x r le (omega arith) in
      let (run, numbered, read, start) =
        session_consecutive rest g.run (omega (arith, g.start)) (omega (arith, g.grown)) in
      let len = length-returned o os in
      let at : n + c.read_pos ≡ n + b.read_pos + length (returned (o ∷ [])) =
        omega (arith, g.read_pos) in
      (
        run,
        Numbered-join (n + b.read_pos) o os g.read (rw at at numbered),
        omega (arith, read, g.read_pos, len),
        start ∙ g.start,
      )
