-- ===== src/Op/Buffer/Search.antt =====
-- What the binary search of `Insert` finds, on any list of batches, ordered or not.
use espresso_streamers.Base.{
  ℕ, zero, suc, ◌+◌, ◌-◌, ◌/◌, ◌≤◌, ◌<◌, ◌≡◌, ◌≢◌, true, false, List, length, arith, Bool-cases,
  inl, inr, ltb, ltb→lt, ltb_false→le, subst,
}
use espresso_streamers.Op.Batch.{Batch}
use espresso_streamers.Op.Buffer.{is_below, search_loop, position}

module _ (xs : List Batch) (t : Batch) where
  -- The two ends of the loop: what lies just before `i` compares below, what stands at `j` does not.
  pub record IsSplit (i j : ℕ) : Type 0 where
    pub low : i ≢ 0 → is_below xs t (i - 1) ≡ true
    pub high : j < length xs → is_below xs t j ≡ false

  abbrev IsFound : ℕ → Type 0
  IsFound r = IsSplit r r × (r ≤ length xs)

  upper-IsSplit : (i h j : ℕ) → is_below xs t h ≡ true → IsSplit i j → IsSplit (h + 1) j
  upper-IsSplit i h j b s =
      let e : h ≡ h + 1 - 1 = omega arith in
      record { low = λ _. subst (λ k. is_below xs t k ≡ true) e b; high = s.high }

  lower-IsSplit : (i h j : ℕ) → is_below xs t h ≡ false → IsSplit i j → IsSplit i h
  lower-IsSplit i h j b s = record { low = s.low; high = λ _. b }

  search_loop-IsFound :
      (fuel i j : ℕ)
      → j - i ≤ fuel
      → i ≤ j
      → j ≤ length xs
      → IsSplit i j
      → IsFound (search_loop fuel xs t i j)
  unfolding search_loop
  search_loop-IsFound zero i j hf hij hj s =
      let e : j ≡ i = omega arith in
      (
        record {
          low = s.low;
          high = λ h. subst (λ k. k < length xs → is_below xs t k ≡ false) e s.high h;
        },
        omega arith,
      )
  search_loop-IsFound (suc fuel) i j hf hij hj s = elim (Bool-cases (ltb i j)) [
    | inr stop ↦
        let e : j ≡ i = omega (arith, ltb_false→le i j stop) in
        rw stop (
          record {
            low = s.low;
            high = λ h. subst (λ k. k < length xs → is_below xs t k ≡ false) e s.high h;
          },
          omega arith,
        )
    | inl more ↦
        let lt = ltb→lt i j more in
        elim (Bool-cases (is_below xs t ((i + j) / 2))) [
          | inl below ↦
              rw (more, below)
                (search_loop-IsFound fuel ((i + j) / 2 + 1) j (omega arith) (omega arith)
                  (omega arith) (upper-IsSplit i _ j below s))
          | inr above ↦
              rw (more, above)
                (search_loop-IsFound fuel i ((i + j) / 2) (omega arith) (omega arith) (omega arith)
                  (lower-IsSplit i _ j above s))
        ]
  ]

  -- The loop ends, in range, at a place with a batch below just before it and none below at it.
  pub position-IsFound : IsFound (position xs t)
  unfolding position
  position-IsFound =
      search_loop-IsFound (length xs) 0 (length xs) (omega arith) (omega arith) (omega arith)
        (record { low = λ h. absurd (omega arith); high = λ h. absurd (omega arith) })
