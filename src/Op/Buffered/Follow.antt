-- ===== src/Op/Buffered/Follow.antt =====
-- How the window follows the safe batch, is replayed after `Reset`, and is cut by `SetProperHead`.
use espresso_streamers.Base.{
  ℕ, zero, suc, ◌+◌, ◌-◌, ◌^◌, ◌≤◌, ◌<◌, ◌≡◌, ◌⊎◌, inl, inr, refl, Option, none, some, [], ◌∷◌,
  ◌++◌, length, drop, arith, length-drop, length-take, ltb, leb, Bool-cases, max,
}
use espresso_streamers.Op.Batch.{Batch, Hash}
use espresso_streamers.Op.Interface.{EspressoStreamer, Lawful}
use espresso_streamers.Op.Buffered.{
  BufferedStreamer, next, next_loop, set_proper_head, handle_l2_position_update,
}
use espresso_streamers.Op.Buffered.Window.{Numbered-drop, IsRun}

-- The window without its first batches up to `safe`.
abbrev pub moved_to : {i : EspressoStreamer} → BufferedStreamer i → ℕ → BufferedStreamer i
moved_to b safe = record b {
  batches = drop (safe - b.starting_batch_pos) b.batches;
  read_pos = b.read_pos - (safe - b.starting_batch_pos);
  starting_batch_pos = safe;
}

pub handle_within :
    {i : EspressoStreamer} (b : BufferedStreamer i) (safe : ℕ)
    → b.starting_batch_pos ≤ safe
    → safe ≤ b.starting_batch_pos + length b.batches
    → handle_l2_position_update b safe ≡ moved_to b safe
unfolding handle_l2_position_update
handle_within b safe lo hi = elim (Bool-cases (ltb b.starting_batch_pos safe)) [
  | inl e ↦ elim (Bool-cases (leb (safe - b.starting_batch_pos) b.read_pos)) [
    | inl f ↦ ground (arith, e, f, lo, hi)
    | inr f ↦ ground (arith, e, f, lo, hi)
  ]
  | inr e ↦
      let same : safe ≡ b.starting_batch_pos = ground (arith, e) in
      let q : safe - b.starting_batch_pos ≡ 0 = omega arith in ground (arith, e, same, q)
]

module _ {i : EspressoStreamer} (l : Lawful i) where
  -- The window starts after the safe batch.
  abbrev pub IsWindow : BufferedStreamer i → Type 0
  IsWindow b = IsRun l (b.starting_batch_pos + 1) b

  -- When the safe batch moves on within the window, exactly the batches up to it leave the window,
  -- which starts after it then, and the next batch to be read stays the same one, unless it has
  -- left: then it is the first one after the safe batch.
  pub follows :
      (b : BufferedStreamer i) (safe : ℕ)
      → IsWindow b
      → b.starting_batch_pos ≤ safe
      → safe ≤ b.starting_batch_pos + length b.batches
      → IsWindow (handle_l2_position_update b safe)
        × ((handle_l2_position_update b safe).starting_batch_pos ≡ safe)
        × ((handle_l2_position_update b safe).batches
            ≡ drop (safe - b.starting_batch_pos) b.batches)
        × (safe + 1 + (handle_l2_position_update b safe).read_pos
            ≡ max (safe + 1) (b.starting_batch_pos + 1 + b.read_pos))
  follows b safe w lo hi =
      let start = b.starting_batch_pos in
      let numbered = Numbered-drop (start + 1) (safe - start) b.batches w.numbered (omega arith) in
      let q : start + 1 + (safe - start) ≡ safe + 1 = omega arith in
      let len = length-drop (safe - start) b.batches in
      rw (handle_within b safe lo hi) (
        record {
          numbered = rw q at numbered;
          due = ground (arith, len, w.due);
          read = ground (arith, len, w.read);
          valid = w.valid;
        },
        refl,
        refl,
        omega arith,
      )

  abbrev pub SkipsTo : ℕ → Option (Option Batch × BufferedStreamer i) → Type 0
  SkipsTo n r =
      ((b : BufferedStreamer i) × (r ≡ some (none, b)))
      ⊎ ((x : Batch) × (b : BufferedStreamer i) × (r ≡ some (some x, b)) × (x.number ≡ n))

  pub skips_to :
      (n : ℕ) (b : BufferedStreamer i) (fuel : ℕ) (answer : Option Batch) (s : i.State)
      → i.next b.streamer ≡ (answer, s)
      → l.Valid b.streamer
      → l.position b.streamer ≡ n
      → b.starting_batch_pos ≤ n
      → b.read_pos ≡ length b.batches
      → SkipsTo n (next (suc fuel) b)
  unfolding next next_loop
  skips_to n b fuel none s e v at le all = inl (record b { streamer = s }, ground (arith, e, all))
  skips_to n b fuel (some x) s e v at le all =
      let (v', m, moved) = l.next_some b.streamer s x v e in
      inr (
        x,
        record b { streamer = s; batches = b.batches ++ (x ∷ []); read_pos = b.read_pos + 1 },
        ground (arith, e, all, m, at),
        ground (arith, m, at),
      )

  -- When `SetProperHead` is called on a window that starts at `n` and of which batches are left to
  -- read, what `Next` returns then, if anything, is not the batch after those read but the one
  -- after the whole window: the streamer below has handed out the batches that are cut off, and it
  -- does not go back.
  pub set_proper_head_skips :
      (n : ℕ) (b : BufferedStreamer i) (parent : Hash) (fuel : ℕ)
      → IsRun l n b
      → b.starting_batch_pos ≤ n
      → b.read_pos < length b.batches
      → SkipsTo (n + length b.batches) (next (suc fuel) (set_proper_head b parent))
        × (n + b.read_pos < n + length b.batches)
  unfolding set_proper_head
  set_proper_head_skips n b parent fuel r le lt =
      let (v, same) = l.set_proper_head_keeps b.streamer parent r.valid in
      let c = set_proper_head b parent in
      (
        skips_to (n + length b.batches) c fuel (i.next c.streamer).0 (i.next c.streamer).1 refl v
            (ground (arith, same, r.due)) (omega arith)
            (ground (arith, length-take b.read_pos b.batches (omega arith))),
        omega arith,
      )

  next_of_behind :
      (fuel : ℕ) (b : BufferedStreamer i) (answer : Option Batch) (s : i.State)
      → ((c : BufferedStreamer i)
          → l.Valid c.streamer
          → l.position c.streamer ≤ c.starting_batch_pos
          → c.starting_batch_pos + 1 < 2 ^ 64
          → c.starting_batch_pos < fuel + l.position c.streamer
          → SkipsTo c.starting_batch_pos (next_loop fuel c))
      → i.next b.streamer ≡ (answer, s)
      → l.Valid b.streamer
      → l.position b.streamer ≤ b.starting_batch_pos
      → b.starting_batch_pos + 1 < 2 ^ 64
      → b.starting_batch_pos < suc fuel + l.position b.streamer
      → SkipsTo b.starting_batch_pos (next_loop (suc fuel) b)
  unfolding next_loop
  next_of_behind fuel b none s rest e v le room lt =
      inl (record b { streamer = s }, ground (arith, e))
  next_of_behind fuel b (some x) s rest e v le room lt =
      let (v', m, moved) = l.next_some b.streamer s x v e in
      elim (Bool-cases (leb b.starting_batch_pos x.number)) [
        | inl t ↦ inr (
          x,
          record b { streamer = s; batches = b.batches ++ (x ∷ []); read_pos = b.read_pos + 1 },
          ground (arith, e, t),
          ground (arith, m, t, le),
        )
        | inr f ↦
            let r =
              rest (record b { streamer = s }) v' (ground (arith, m, moved, f, le, room)) room
                (ground (arith, m, moved, f, le, room, lt)) in
            let q : next_loop (suc fuel) b ≡ next_loop fuel (record b { streamer = s }) =
              ground (arith, e, f) in
            rw q r
      ]

  -- The loop of `Next` over a lawful streamer that is behind the starting position, which is not
  -- the last uint64, ends once its fuel exceeds the distance: it returns nothing, or the batch whose
  -- number is the starting position.
  pub next_loop_ends :
      (fuel : ℕ) (b : BufferedStreamer i)
      → l.Valid b.streamer
      → l.position b.streamer ≤ b.starting_batch_pos
      → b.starting_batch_pos + 1 < 2 ^ 64
      → b.starting_batch_pos < fuel + l.position b.streamer
      → SkipsTo b.starting_batch_pos (next_loop fuel b)
  next_loop_ends zero b v le room lt = absurd (omega arith)
  next_loop_ends (suc fuel) b v le room lt =
      next_of_behind fuel b (i.next b.streamer).0 (i.next b.streamer).1 (next_loop_ends fuel) refl v
        le room lt
