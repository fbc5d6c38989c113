-- ===== src/Op/Buffered/Sync.antt =====
-- The buffered streamer over the batch streamer: `Refresh` keeps the two in step.
use espresso_streamers.Base.{
  ℕ, zero, suc, ◌+◌, ◌-◌, ◌^◌, ◌≤◌, ◌<◌, ◌≡◌, ◌⊎◌, inl, inr, refl, List, [], ◌∷◌, length, drop,
  arith, ltb, leb, if◌then◌else◌, max, Bool-cases, sym,
}
use espresso_streamers.Op.Batch.{Batch, BlockId}
use espresso_streamers.Op.Streamer.Deps.{Deps}
use espresso_streamers.Op.Streamer.State.{BatchStreamer, L1BlockRef}
use espresso_streamers.Op.Streamer.State
use espresso_streamers.Op.Streamer.Valid.{IsValid}
use espresso_streamers.Op.Streamer.Refresh
use espresso_streamers.Op.Streamer.Refresh.Positions.{reset-IsValid}
use espresso_streamers.Op.Streamer.Refresh.Steady.{IsSteady, refresh_steady}
use espresso_streamers.Op.Streamer.Instance.{batch_streamer, batch_streamer-Lawful}
use espresso_streamers.Op.Streamer.Calls.Cursor.{cursor, restarted, refresh-Moves, reset-Moves}
use espresso_streamers.Op.Buffered.{
  BufferedStreamer, refresh, refresh_safe_l1_origin, handle_l2_position_update,
}
use espresso_streamers.Op.Buffered.Follow.{IsWindow, follows, handle_within, moved_to}

drop_beyond : (k : ℕ) (xs : List Batch) → length xs < k → drop k xs ≡ []
drop_beyond zero xs h = absurd (omega arith)
drop_beyond (suc k) [] h = refl
drop_beyond (suc k) (x ∷ xs) h = drop_beyond k xs (omega arith)

module _ {d : Deps} where
  -- The window starts after the safe batch, the streamer below continues it, and both know the same
  -- safe batch.
  pub record InSync (b : BufferedStreamer (batch_streamer d)) : Type 0 where
    pub window : IsWindow (batch_streamer-Lawful d) b
    pub same_safe : b.streamer.fallback_batch_pos ≡ b.starting_batch_pos

  -- The batches behind the safe one, if it has not moved back.
  abbrev pub left_of : BufferedStreamer (batch_streamer d) → ℕ → List Batch
  left_of b safe =
      if ltb safe b.starting_batch_pos then [] else drop (safe - b.starting_batch_pos) b.batches

  -- The number that is to be read next, by the window, and after the safe batch has been taken over.
  abbrev pub next_number : BufferedStreamer (batch_streamer d) → ℕ
  next_number b = b.starting_batch_pos + 1 + b.read_pos

  abbrev pub next_number_at : BufferedStreamer (batch_streamer d) → ℕ → ℕ
  next_number_at b safe =
      if ltb safe b.starting_batch_pos then safe + 1 else max (safe + 1) (next_number b)

  pub refresh_unfolded :
      (b : BufferedStreamer (batch_streamer d)) (l1 : L1BlockRef) (safe : ℕ) (origin : BlockId)
      → b.current_safe_l1_origin.number ≤ origin.number
      → (refresh b l1 safe origin).1 ≡ record (handle_l2_position_update b safe) {
        current_safe_l1_origin = origin;
        streamer = Refresh.refresh (handle_l2_position_update b safe).streamer l1 safe origin;
      }
  unfolding refresh refresh_safe_l1_origin handle_l2_position_update
  refresh_unfolded b l1 safe origin le = ground (arith, le)

  -- What `Refresh` leaves of the window.
  abbrev pub Synced :
      BufferedStreamer (batch_streamer d) → ℕ → BufferedStreamer (batch_streamer d) → Type 0
  Synced b safe c =
      InSync c
      × (c.starting_batch_pos ≡ safe)
      × (c.batches ≡ left_of b safe)
      × (next_number c ≡ next_number_at b safe)

  -- The window is given up, and the streamer below starts again after the safe batch.
  given_up :
      (b : BufferedStreamer (batch_streamer d)) (s : BatchStreamer d) (safe : ℕ) (origin : BlockId)
      → IsValid s
      → cursor s ≡ restarted safe
      → safe + 1 < 2 ^ 64
      → left_of b safe ≡ []
      → next_number_at b safe ≡ safe + 1
      → Synced b safe (record {
        streamer = s;
        batches = [];
        read_pos = 0;
        starting_batch_pos = safe;
        current_safe_l1_origin = origin;
      })
  given_up b s safe origin v e fits l n = (
    record {
      window = record {
        numbered = tt;
        due = ground (arith, e, fits);
        read = omega arith;
        valid = v;
      };
      same_safe = ground (arith, e);
    },
    refl,
    sym l,
    ground (arith, n),
  )

  -- A safe batch that has moved back, or has caught up with the batch that is due, makes the streamer
  -- below start again after it.
  starts_again :
      (s : BatchStreamer d) (l1 : L1BlockRef) (safe : ℕ) (origin : BlockId)
      → IsValid s
      → (safe < s.fallback_batch_pos) ⊎ (s.fallback_batch_pos < safe) × (s.next_batch_pos ≤ safe)
      → IsValid (Refresh.refresh s l1 safe origin)
        × (cursor (Refresh.refresh s l1 safe origin) ≡ restarted safe)
  starts_again s l1 safe origin v away =
      let (w, m) = refresh-Moves s l1 safe origin v in
      (
        w,
        elim m [
          | inl e ↦ e
          | inr (e, inl same) ↦
              absurd (elim away [ inl lt ↦ omega arith | inr (lt, le) ↦ omega arith ])
          | inr (e, inr (lo, hi)) ↦
              absurd (elim away [ inl lt ↦ omega arith | inr (lt, le) ↦ omega arith ])
        ],
      )

  handle_back :
      (b : BufferedStreamer (batch_streamer d)) (safe : ℕ)
      → safe < b.starting_batch_pos
      → handle_l2_position_update b safe ≡ record b {
        read_pos = 0;
        starting_batch_pos = safe;
        batches = [];
        streamer = State.reset b.streamer;
      }
  unfolding handle_l2_position_update
  handle_back b safe lt = ground (arith, lt)

  pub handle_beyond :
      (b : BufferedStreamer (batch_streamer d)) (safe : ℕ)
      → b.starting_batch_pos + length b.batches < safe
      → handle_l2_position_update b safe
        ≡ record b { read_pos = 0; starting_batch_pos = safe; batches = [] }
  unfolding handle_l2_position_update
  handle_beyond b safe lt = ground (arith, lt)

  module _ (b : BufferedStreamer (batch_streamer d)) (l1 : L1BlockRef) (safe : ℕ) (origin : BlockId)
      (sync : InSync b) (le : b.current_safe_l1_origin.number ≤ origin.number)
      (fits : safe + 1 < 2 ^ 64) where
    back-Synced : safe < b.starting_batch_pos → Synced b safe (refresh b l1 safe origin).1
    back-Synced lt =
        let s = State.reset b.streamer in
        let again : cursor s ≡ restarted b.streamer.fallback_batch_pos = reset-Moves b.streamer in
        let (v, e) =
          starts_again s l1 safe origin (reset-IsValid b.streamer)
            (inl (ground (arith, again, sync.same_safe, lt))) in
        rw (refresh_unfolded b l1 safe origin le, handle_back b safe lt)
          (given_up b (Refresh.refresh s l1 safe origin) safe origin v e fits (ground (arith, lt))
            (ground (arith, lt)))

    beyond-Synced :
        b.starting_batch_pos + length b.batches < safe → Synced b safe (refresh b l1 safe origin).1
    beyond-Synced lt =
        let w = sync.window in
        let (v, e) =
          starts_again b.streamer l1 safe origin w.valid
            (inr (omega (arith, sync.same_safe), ground (arith, w.due, lt))) in
        rw (refresh_unfolded b l1 safe origin le, handle_beyond b safe lt)
          (given_up b (Refresh.refresh b.streamer l1 safe origin) safe origin v e fits
            (ground (arith, lt, drop_beyond (safe - b.starting_batch_pos) b.batches))
            (ground (arith, lt, w.read)))

    within-Synced :
        IsSteady b.streamer l1 origin
        → b.starting_batch_pos ≤ safe
        → safe ≤ b.starting_batch_pos + length b.batches
        → Synced b safe (refresh b l1 safe origin).1
    within-Synced steady lo hi =
        let w = sync.window in
        let (f, _, _, _) = follows (batch_streamer-Lawful d) b safe w lo hi in
        let moved = handle_within b safe lo hi in
        let g : IsWindow (batch_streamer-Lawful d) (moved_to b safe) = rw moved at f in
        let (v, n, taken) =
          refresh_steady b.streamer l1 safe origin w.valid steady (omega (arith, sync.same_safe))
            (ground (arith, w.due, hi)) in
        rw (refresh_unfolded b l1 safe origin le, moved)
          (
            record {
              window = record {
                numbered = g.numbered;
                due = ground (arith, n, g.due);
                read = g.read;
                valid = v;
              };
              same_safe = taken;
            },
            refl,
            ground (arith, lo),
            ground (arith, lo),
          )

    -- `Refresh` of the buffered streamer over the batch streamer, which are in step, with a safe
    -- batch that is not the largest uint64 and an origin not before the one known, and, if the safe
    -- batch is in the window or just before it, when neither the light client nor the scan steps
    -- back: they are in step again, and the window starts after the safe batch. Of the batches
    -- exactly those up to it have left, or all, if it has moved back; and the number that is to be
    -- read next stays the same, unless it is not after the safe batch or that has moved back: then it
    -- is the one after it.
    pub refresh-Synced :
        (safe < b.starting_batch_pos)
          ⊎ ((b.starting_batch_pos + length b.batches < safe) ⊎ IsSteady b.streamer l1 origin)
        → Synced b safe (refresh b l1 safe origin).1
    refresh-Synced (inl lt) = back-Synced lt
    refresh-Synced (inr (inl lt)) = beyond-Synced lt
    refresh-Synced (inr (inr steady)) = elim (Bool-cases (ltb safe b.starting_batch_pos)) [
      | inl e ↦ back-Synced (ground (arith, e))
      | inr e ↦ elim (Bool-cases (leb safe (b.starting_batch_pos + length b.batches))) [
        | inl f ↦ within-Synced steady (ground (arith, e)) (ground (arith, f))
        | inr f ↦ beyond-Synced (ground (arith, f))
      ]
    ]
