-- ===== src/Op/Streamer/Fetch/Skip.antt =====
-- `skipPos`: a batch that did not fit is read again.
use espresso_streamers.Base.{
  ℕ, ◌+◌, ◌-◌, ◌^◌, ◌≤◌, ◌≡◌, refl, Bool, true, false, ◌||◌, Option, none, some, List, [], ◌∷◌,
  arith, if◌then◌else◌, Bool-cases, inl, inr, length, min, add64,
}
use espresso_streamers.Op.Buffer.{InsertError, at_capacity, duplicate_batch}
use espresso_streamers.Op.Streamer.Deps.{Deps, Bytes}
use espresso_streamers.Op.Streamer.State.{BatchStreamer}
use espresso_streamers.Op.Streamer.Valid.{IsValid}
use espresso_streamers.Op.Streamer.Fetch.{
  process_espresso_transaction, process_transaction, process_block, process_blocks,
}
use espresso_streamers.Op.Streamer.Fetch.Place.{process_espresso_transaction-Placed}
use espresso_streamers.Op.Streamer.Fetch.Keeps.{process_transaction_keeps, process_block_keeps}

-- `errors.Is(err, ErrAtCapacity)`.
abbrev pub is_full : Option InsertError → Bool
is_full (some at_capacity) = true
is_full (some duplicate_batch) = false
is_full none = false

-- The effect of a range of blocks on `skipPos`.
abbrev pub lowered : ℕ → Option ℕ → ℕ
lowered skip none = skip
lowered skip (some p) = min skip (p - 1)

module _ {d : Deps} where
  -- Whether a transaction of a block did not fit.
  unfoldable pub overflows : BatchStreamer d → ℕ → ℕ → List Bytes → Bool
  overflows s pos stamp [] = false
  overflows s pos stamp (t ∷ ts) =
      is_full (process_espresso_transaction s t stamp).0
      || overflows (process_transaction s pos stamp t) pos stamp ts

  -- The first block of which a transaction did not fit.
  unfoldable pub first_full : BatchStreamer d → ℕ → ℕ → List (List Bytes) → Option ℕ
  unfolding overflows
  first_full s pos stamp [] = none
  first_full s pos stamp (b ∷ bs) =
      if overflows s pos stamp b
      then some pos
      else first_full (process_block s pos stamp b) (add64 pos 1) stamp bs

  skip-transaction :
      (s : BatchStreamer d) (pos stamp : ℕ) (t : Bytes)
      → IsValid s
      → (process_transaction s pos stamp t).skip_pos ≡ (
          if is_full (process_espresso_transaction s t stamp).0
          then min s.skip_pos (pos - 1)
          else s.skip_pos)
  unfolding process_transaction
  skip-transaction s pos stamp t v =
      let p = process_espresso_transaction-Placed s t stamp v in ground (arith, p.same_skip)

  skip-block :
      (s : BatchStreamer d) (pos stamp : ℕ) (ts : List Bytes)
      → IsValid s
      → (process_block s pos stamp ts).skip_pos
        ≡ (if overflows s pos stamp ts then min s.skip_pos (pos - 1) else s.skip_pos)
  unfolding process_block overflows
  skip-block s pos stamp [] v = refl
  skip-block s pos stamp (t ∷ ts) v = ground (
    arith,
    skip-transaction s pos stamp t v,
    skip-block (process_transaction s pos stamp t) pos stamp ts
        (process_transaction_keeps s pos stamp t v).0,
  )

  first_full-ge :
      (s : BatchStreamer d) (pos stamp : ℕ) (bs : List (List Bytes)) (p : ℕ)
      → pos + length bs ≤ 2 ^ 64
      → first_full s pos stamp bs ≡ some p
      → pos ≤ p
  unfolding first_full
  first_full-ge s pos stamp [] p h e = cc
  first_full-ge s pos stamp (b ∷ []) p h e = ground arith
  first_full-ge s pos stamp (b ∷ c ∷ bs) p h e =
      ground (arith, first_full-ge (process_block s pos stamp b) (add64 pos 1) stamp (c ∷ bs) p)

  -- Reading a range of blocks from a valid streamer, where their positions do not wrap, moves
  -- `skipPos` down to one block before the first block of which a transaction did not fit, unless it
  -- is lower already; and leaves it alone if all of them fitted.
  pub skip-process_blocks :
      (s : BatchStreamer d) (pos stamp : ℕ) (bs : List (List Bytes))
      → IsValid s
      → pos + length bs ≤ 2 ^ 64
      → (process_blocks s pos stamp bs).skip_pos ≡ lowered s.skip_pos (first_full s pos stamp bs)
  unfolding process_blocks first_full
  skip-process_blocks s pos stamp [] v h = refl
  skip-process_blocks s pos stamp (b ∷ []) v h = ground (arith, skip-block s pos stamp b v)
  skip-process_blocks s pos stamp (b ∷ c ∷ bs) v h =
      let t = process_block s pos stamp b in
      let now = skip-block s pos stamp b v in
      let w = (process_block_keeps s pos stamp b v).0 in
      let later = skip-process_blocks t (add64 pos 1) stamp (c ∷ bs) w (omega arith) in
      elim (Bool-cases (overflows s pos stamp b)) [
        | inr fits ↦ rw fits (ground (arith, now, later, fits))
        | inl full ↦
            rw full (by_later (first_full t (add64 pos 1) stamp (c ∷ bs)) refl now full later)
      ]
    where
      by_later :
          (o : Option ℕ)
          → first_full (process_block s pos stamp b) (add64 pos 1) stamp (c ∷ bs) ≡ o
          → (process_block s pos stamp b).skip_pos
            ≡ (if overflows s pos stamp b then min s.skip_pos (pos - 1) else s.skip_pos)
          → overflows s pos stamp b ≡ true
          → (process_blocks (process_block s pos stamp b) (add64 pos 1) stamp (c ∷ bs)).skip_pos
            ≡ lowered
                (process_block s pos stamp b).skip_pos
                (first_full (process_block s pos stamp b) (add64 pos 1) stamp (c ∷ bs))
          → (process_blocks (process_block s pos stamp b) (add64 pos 1) stamp (c ∷ bs)).skip_pos
            ≡ min s.skip_pos (pos - 1)
      by_later none e now full later = ground (arith, e, now, full, later)
      by_later (some p) e now full later = ground (
        arith,
        e,
        now,
        full,
        later,
        first_full-ge (process_block s pos stamp b) (add64 pos 1) stamp (c ∷ bs) p,
      )
