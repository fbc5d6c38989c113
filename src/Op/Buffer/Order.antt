-- ===== src/Op/Buffer/Order.antt =====
-- `BatchBuffer` stays in order: `Insert` against insertion into a sorted list.
use espresso_streamers.Base.{
  ℕ, zero, suc, ◌+◌, ◌-◌, ◌≤◌, ◌<◌, ◌≡◌, ◌≢◌, refl, true, false, ◌&&◌, none, some, List, [], ◌∷◌,
  ◌++◌, arith, ltb, leb, if◌then◌else◌, length, get_elem?, take, drop, All, Bool-cases,
  Option-cases, ◌⊎◌, inl, inr, get_elem?_of_lt, leb→le, leb_false→lt, subst,
}
use espresso_streamers.Op.Batch.{Batch}
use espresso_streamers.Op.Buffer.{
  BatchBuffer, at_capacity, duplicate_batch, len, new, is_below, is_equal_at, position, insert,
}
use espresso_streamers.Op.Buffer.Search.{position-IsFound}

-- The reference: a batch goes behind all those whose number is at most its own.
unfoldable pub insert_sorted : Batch → List Batch → List Batch
insert_sorted t [] = t ∷ []
insert_sorted t (x ∷ xs) = if leb x.number t.number then x ∷ insert_sorted t xs else t ∷ x ∷ xs

abbrev pub Sorted : List Batch → Type 0
Sorted [] = Unit {0}
Sorted (x ∷ xs) = All (λ (y : Batch). x.number ≤ y.number) xs × Sorted xs

pub record IsValid (b : BatchBuffer) : Type 0 where
  pub sorted : Sorted b.batches
  pub bounded : length b.batches ≤ b.capacity

-- Some batch of the list has the hash.
abbrev pub HasHash : Batch → List Batch → Type 0
HasHash t [] = ⊥
HasHash t (x ∷ xs) = (x.hash ≡ t.hash) ⊎ HasHash t xs

pub below_at :
    (xs : List Batch) (t : Batch) (k : ℕ)
    → is_below xs t k ≡ true
    → (a : Batch) × (get_elem? xs k ≡ some a) × (a.number ≤ t.number) × (a.hash ≢ t.hash)
unfolding is_below
below_at xs t k h = elim (Option-cases (get_elem? xs k)) [
  | inl e ↦ absurd (ground arith)
  | inr (a, e) ↦ (a, e, ground arith, ground arith)
]

above_at :
    (xs : List Batch) (t : Batch) (k : ℕ)
    → k < length xs
    → is_below xs t k ≡ false
    → is_equal_at xs t k ≡ false
    → (a : Batch) × (get_elem? xs k ≡ some a) × (t.number < a.number)
unfolding is_below is_equal_at
above_at xs t k lt h q = let (a, e) = get_elem?_of_lt xs k lt in (a, e, ground arith)

equal_at-HasHash : (xs : List Batch) (t : Batch) (k : ℕ) → is_equal_at xs t k ≡ true → HasHash t xs
unfolding is_equal_at
equal_at-HasHash [] t k h = absurd (ground arith)
equal_at-HasHash (x ∷ xs) t zero h = inl (ground arith)
equal_at-HasHash (x ∷ xs) t (suc k) h = inr (equal_at-HasHash xs t k h)

-- The head of a sorted list has the least number.
pub head_least :
    (x : Batch) (xs : List Batch) (k : ℕ) (a : Batch)
    → Sorted (x ∷ xs)
    → get_elem? (x ∷ xs) k ≡ some a
    → x.number ≤ a.number
head_least x xs zero a s e = ground arith
head_least x [] (suc k) a s e = cc
head_least x (y ∷ ys) (suc zero) a s e = ground arith
head_least x (y ∷ ys) (suc (suc k)) a ((p, ps), (q, qs)) e = head_least x ys (suc k) a (ps, qs) e

put_in_place :
    (xs : List Batch) (t : Batch) (r : ℕ)
    → Sorted xs
    → r ≤ length xs
    → (r ≢ 0 → (a : Batch) × (get_elem? xs (r - 1) ≡ some a) × (a.number ≤ t.number))
    → (r < length xs → (a : Batch) × (get_elem? xs r ≡ some a) × (t.number < a.number))
    → take r xs ++ (t ∷ drop r xs) ≡ insert_sorted t xs
unfolding insert_sorted
put_in_place [] t zero s h low high = refl
put_in_place [] t (suc r) s h low high = refl
put_in_place (x ∷ xs) t zero s h low high = let (a, e, lt) = high (omega arith) in ground arith
put_in_place (x ∷ xs) t (suc zero) s h low high =
    let (a, e, le) = low (omega arith) in
    ground (
      arith,
      put_in_place xs t zero s.1 (omega arith) (λ n. absurd (n refl)) (λ l. high (omega arith)),
    )
put_in_place (x ∷ xs) t (suc (suc r)) s h low high =
    let (a, e, le) = low (omega arith) in
    let p : suc (suc r) - 1 ≡ suc r = omega arith in
    let e' = subst (λ k. get_elem? (x ∷ xs) k ≡ some a) p e in
    let q : r ≡ suc r - 1 = omega arith in
    ground (
      arith,
      head_least x xs (suc r) a s e',
      put_in_place xs t (suc r) s.1 (omega arith)
          (λ n. (a, subst (λ k. get_elem? xs k ≡ some a) q e', le)) (λ l. high (omega arith)),
    )

-- `slices.Insert` at the position found is insertion in order.
insert_at_position :
    (xs : List Batch) (t : Batch)
    → Sorted xs
    → (position xs t < length xs → is_equal_at xs t (position xs t) ≡ false)
    → take (position xs t) xs ++ (t ∷ drop (position xs t) xs) ≡ insert_sorted t xs
insert_at_position xs t s ne =
    let (split, h) = position-IsFound xs t in
    put_in_place xs t (position xs t) s h
      (λ n. let (a, e, le, d) = below_at xs t _ (split.low n) in (a, e, le))
      (λ l. above_at xs t _ l (split.high l) (ne l))

-- On a buffer in order, `Insert` has three outcomes. At capacity it reports that and changes
-- nothing. Below capacity it either reports a duplicate, and then a batch of the same hash is in
-- the buffer, which stays as it was; or it puts the batch behind all batches whose number is at
-- most its own, and before the others.
pub insert_lem :
    (t : Batch) (b : BatchBuffer)
    → Sorted b.batches
    → (b.capacity ≤ len b) × (insert t b ≡ (some at_capacity, b))
      ⊎ ((len b < b.capacity) × HasHash t b.batches × (insert t b ≡ (some duplicate_batch, b))
          ⊎ (len b < b.capacity)
            × (insert t b ≡ (none, record b { batches = insert_sorted t b.batches })))
unfolding insert
insert_lem t b s = elim (Bool-cases (leb b.capacity (len b))) [
  | inl full ↦ inl (leb→le _ _ full, rw full)
  | inr room ↦
      inr
        (elim (Bool-cases
          (ltb (position b.batches t) (len b) && is_equal_at b.batches t (position b.batches t))) [
            | inl dup ↦ inl (
              leb_false→lt _ _ room,
              equal_at-HasHash b.batches t (position b.batches t) (ground arith),
              rw (room, dup),
            )
            | inr new ↦ inr (
              leb_false→lt _ _ room,
              rw (room, new, insert_at_position b.batches t s (λ l. ground arith)),
            )
          ])
]

All-insert_sorted :
    (n : ℕ) (t : Batch) (xs : List Batch)
    → n ≤ t.number
    → All (λ (y : Batch). n ≤ y.number) xs
    → All (λ (y : Batch). n ≤ y.number) (insert_sorted t xs)
unfolding insert_sorted
All-insert_sorted n t [] h a = (h, tt)
All-insert_sorted n t (x ∷ xs) h (p, ps) = ground (arith, All-insert_sorted n t xs h ps)

All-le_trans :
    (m n : ℕ) (xs : List Batch)
    → m ≤ n
    → All (λ (y : Batch). n ≤ y.number) xs
    → All (λ (y : Batch). m ≤ y.number) xs
All-le_trans m n [] h a = tt
All-le_trans m n (x ∷ xs) h (p, ps) = (omega arith, All-le_trans m n xs h ps)

pub insert_sorted-Sorted : (t : Batch) (xs : List Batch) → Sorted xs → Sorted (insert_sorted t xs)
unfolding insert_sorted
insert_sorted-Sorted t [] s = (tt, tt)
insert_sorted-Sorted t (x ∷ xs) (p, ps) = elim (Bool-cases (leb x.number t.number)) [
  | inl le ↦ rw le (All-insert_sorted x.number t xs (leb→le _ _ le) p, insert_sorted-Sorted t xs ps)
  | inr lt ↦
      let h = leb_false→lt x.number t.number lt in
      rw lt ((omega arith, All-le_trans t.number x.number xs (omega arith) p), (p, ps))
]

pub length-insert_sorted :
    (t : Batch) (xs : List Batch) → length (insert_sorted t xs) ≡ length xs + 1
unfolding insert_sorted
length-insert_sorted t [] = omega arith
length-insert_sorted t (x ∷ xs) = ground (arith, length-insert_sorted t xs)

-- `Insert` keeps the buffer in order and within its capacity, whatever it answers.
pub insert-IsValid : (t : Batch) (b : BatchBuffer) → IsValid b → IsValid (insert t b).1
insert-IsValid t b v = elim (insert_lem t b v.sorted) [
  | inl (full, e) ↦ rw e v
  | inr (inl (room, dup, e)) ↦ rw e v
  | inr (inr (room, e)) ↦ rw e (record {
    sorted = insert_sorted-Sorted t b.batches v.sorted;
    bounded = omega (arith, length-insert_sorted t b.batches);
  })
]
