-- ===== src/Op/Buffered/Peeks.antt =====
-- What `Peek` of the buffered streamer shows.
use espresso_streamers.Base.{
  ℕ, suc, ◌+◌, ◌≤◌, ◌≡◌, ◌⊎◌, inl, inr, refl, Option, none, some, length, arith, ltb, Bool-cases,
}
use espresso_streamers.Op.Batch.{Batch}
use espresso_streamers.Op.Interface.{EspressoStreamer, Lawful}
use espresso_streamers.Op.Buffered.{BufferedStreamer, peek, peek_loop}
use espresso_streamers.Op.Buffered.Window.{Numbered-get_elem?, IsRun}

module _ {i : EspressoStreamer} (l : Lawful i) (n : ℕ) where
  -- Nothing, or the batch after those read; only the streamer below has moved.
  abbrev pub Shows : BufferedStreamer i → Option (Option Batch × BufferedStreamer i) → Type 0
  Shows b r =
      (t : i.State) × IsRun l n (record b { streamer = t })
      × ((r ≡ some (none, record b { streamer = t }))
          ⊎ ((x : Batch) × (r ≡ some (some x, record b { streamer = t }))
              × (x.number ≡ n + b.read_pos)))

  Shows-below :
      (b : BufferedStreamer i) (fuel : ℕ) (answer : Option Batch) (t : i.State)
      → i.peek b.streamer ≡ (answer, t)
      → IsRun l n b
      → b.starting_batch_pos ≤ n
      → b.read_pos ≡ length b.batches
      → Shows b (peek (suc fuel) b)
  unfolding peek peek_loop
  Shows-below b fuel none t e r le at =
      let (v, same) = l.peek_none b.streamer t r.valid e in
      (
        t,
        record {
          numbered = r.numbered;
          due = ground (arith, same, r.due);
          read = r.read;
          valid = v;
        },
        inl (ground (arith, e, at)),
      )
  Shows-below b fuel (some x) t e r le at =
      let (v, m, same) = l.peek_some b.streamer t x r.valid e in
      (
        t,
        record {
          numbered = r.numbered;
          due = ground (arith, same, r.due);
          read = r.read;
          valid = v;
        },
        inr (x, ground (arith, e, at, m, r.due, le), ground (arith, m, r.due, at)),
      )

  -- `Peek`, with any fuel but none, on a window that starts at `n`, not before the starting position,
  -- over a lawful streamer that is due to continue it, shows nothing or the batch whose number comes
  -- after those read. It changes at most the streamer below, which still continues the window.
  pub peek-Shows :
      (b : BufferedStreamer i) (fuel : ℕ)
      → IsRun l n b
      → b.starting_batch_pos ≤ n
      → Shows b (peek (suc fuel) b)
  unfolding peek
  peek-Shows b fuel r le = elim (Bool-cases (ltb b.read_pos (length b.batches))) [
    | inl t ↦
        let (x, e, m) = Numbered-get_elem? n b.read_pos b.batches r.numbered (ground (arith, t)) in
        (
          b.streamer,
          record { numbered = r.numbered; due = r.due; read = r.read; valid = r.valid },
          inr (x, ground (arith, t, e), m),
        )
    | inr t ↦
        Shows-below b fuel (i.peek b.streamer).0 (i.peek b.streamer).1 refl r le
          (ground (arith, t, r.read))
  ]
