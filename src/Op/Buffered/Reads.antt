-- ===== src/Op/Buffered/Reads.antt =====
-- What `Next` of the buffered streamer delivers.
use espresso_streamers.Base.{
  ℕ, suc, ◌+◌, ◌^◌, ◌≤◌, ◌<◌, ◌≡◌, ◌⊎◌, inl, inr, refl, Option, none, some, [], ◌∷◌, ◌++◌, length,
  get_elem?, take, arith, length-append, take-append, take-length, get_elem?-append, ltb,
  Bool-cases,
}
use espresso_streamers.Op.Batch.{Batch}
use espresso_streamers.Op.Interface.{EspressoStreamer, Lawful}
use espresso_streamers.Op.Buffered.{BufferedStreamer, next, next_loop}
use espresso_streamers.Op.Buffered.Window.{Numbered-get_elem?, Numbered-append, IsRun}

module _ {i : EspressoStreamer} (l : Lawful i) (n : ℕ) where
  -- Nothing was there: only the streamer below moved.
  pub record Waits (b b' : BufferedStreamer i) : Type 0 where
    pub run : IsRun l n b'
    pub batches : b'.batches ≡ b.batches
    pub read_pos : b'.read_pos ≡ b.read_pos
    pub start : b'.starting_batch_pos ≡ b.starting_batch_pos

  -- The batch `x` was delivered: it is the one after those read, and it stays in the window.
  pub record Delivers (b : BufferedStreamer i) (x : Batch) (b' : BufferedStreamer i) : Type 0 where
    pub run : IsRun l n b'
    pub in_order : x.number ≡ n + b.read_pos
    pub held : get_elem? b'.batches b.read_pos ≡ some x
    pub kept : take (length b.batches) b'.batches ≡ b.batches
    pub grown : length b'.batches ≤ length b.batches + 1
    pub read_pos : b'.read_pos ≡ b.read_pos + 1
    pub start : b'.starting_batch_pos ≡ b.starting_batch_pos

  abbrev pub Reads : BufferedStreamer i → Option (Option Batch × BufferedStreamer i) → Type 0
  Reads b r =
      ((b' : BufferedStreamer i) × (r ≡ some (none, b')) × Waits b b')
      ⊎ ((x : Batch) × (b' : BufferedStreamer i) × (r ≡ some (some x, b')) × Delivers b x b')

  Reads-held :
      (b : BufferedStreamer i) (fuel : ℕ)
      → IsRun l n b
      → b.read_pos < length b.batches
      → Reads b (next fuel b)
  unfolding next
  Reads-held b fuel r lt =
      let (x, e, m) = Numbered-get_elem? n b.read_pos b.batches r.numbered lt in
      inr (
        x,
        record b { read_pos = b.read_pos + 1 },
        ground (arith, e),
        record {
          run = record { numbered = r.numbered; due = r.due; read = omega arith; valid = r.valid };
          in_order = m;
          held = e;
          kept = take-length b.batches;
          grown = omega arith;
          read_pos = refl;
          start = refl;
        },
      )

  -- At the end of the window the batch comes from the streamer below, at its first call.
  Reads-below :
      (b : BufferedStreamer i) (fuel : ℕ) (answer : Option Batch) (s : i.State)
      → i.next b.streamer ≡ (answer, s)
      → IsRun l n b
      → b.starting_batch_pos ≤ n
      → n + length b.batches + 1 < 2 ^ 64
      → b.read_pos ≡ length b.batches
      → Reads b (next (suc fuel) b)
  unfolding next next_loop
  Reads-below b fuel none s e r le room at =
      let (v, same) = l.next_none b.streamer s r.valid e in
      inl (
        record b { streamer = s },
        ground (arith, e, at),
        record {
          run = record {
            numbered = r.numbered;
            due = ground (arith, same, r.due);
            read = r.read;
            valid = v;
          };
          batches = refl;
          read_pos = refl;
          start = refl;
        },
      )
  Reads-below b fuel (some x) s e r le room at =
      let (v, m, moved) = l.next_some b.streamer s x r.valid e in
      let len = length-append b.batches (x ∷ []) in
      let due = r.due in
      inr (
        x,
        record b { streamer = s; batches = b.batches ++ (x ∷ []); read_pos = b.read_pos + 1 },
        ground (arith, e, at, m, due),
        record {
          run = record {
            numbered = Numbered-append n b.batches x r.numbered (ground (arith, m, due));
            due = ground (arith, moved, due, len);
            read = ground (arith, len, at);
            valid = v;
          };
          in_order = ground (arith, m, due, at);
          held = rw at (get_elem?-append b.batches x);
          kept = take-append b.batches (x ∷ []);
          grown = omega (arith, len);
          read_pos = refl;
          start = refl;
        },
      )

  -- `Next`, with any fuel but none, on a window that starts at `n`, not before the starting
  -- position, over a lawful streamer that is due to continue it and is not at the end of the uint64
  -- range, returns nothing and moves only the streamer below, or returns the batch whose number
  -- comes after those read, which stays in the window. The window is a run from `n` either way.
  pub next-Reads :
      (b : BufferedStreamer i) (fuel : ℕ)
      → IsRun l n b
      → b.starting_batch_pos ≤ n
      → n + length b.batches + 1 < 2 ^ 64
      → Reads b (next (suc fuel) b)
  next-Reads b fuel r le room = elim (Bool-cases (ltb b.read_pos (length b.batches))) [
    | inl e ↦ Reads-held b (suc fuel) r (ground (arith, e))
    | inr e ↦
        Reads-below b fuel (i.next b.streamer).0 (i.next b.streamer).1 refl r le room
          (ground (arith, e, r.read))
  ]
