-- ===== src/Op/Buffer/Duplicates.antt =====
-- When `Insert` sees that a batch is in the buffer already, and when it does not.
use espresso_streamers.Base.{
  ℕ, zero, suc, ◌-◌, ◌≤◌, ◌<◌, ◌≡◌, ◌≢◌, refl, true, false, none, some, List, [], ◌∷◌, arith,
  length, All, inl, inr, lt→ltb, subst, All-get_elem?,
}
use espresso_streamers.Op.Batch.{Batch}
use espresso_streamers.Op.Buffer.{
  BatchBuffer, duplicate_batch, len, is_below, is_equal_at, search_loop, position, insert,
}
use espresso_streamers.Op.Buffer.Search.{position-IsFound}
use espresso_streamers.Op.Buffer.Order.{Sorted, HasHash, below_at, head_least}

-- The batch has a number and a hash of its own: what shares the one shares the other.
abbrev pub Unforked : Batch → Batch → Type 0
Unforked t a = (a.number ≡ t.number → a.hash ≡ t.hash) × (a.hash ≡ t.hash → a.number ≡ t.number)

-- Nothing before a batch that compares below has the hash.
head_differs :
    (x : Batch) (xs : List Batch) (t : Batch) (r : ℕ)
    → Sorted (x ∷ xs)
    → All (Unforked t) (x ∷ xs)
    → is_below (x ∷ xs) t r ≡ true
    → x.hash ≢ t.hash
head_differs x xs t r s u low e =
    let (a, at, le, ne) = below_at (x ∷ xs) t r low in
    let v : Unforked t a = All-get_elem? (Unforked t) (x ∷ xs) r u at in
    let h = head_least x xs r a s at in ne (v.0 (omega (arith, u.0.1 e)))

-- With one batch for each number the search ends at the batch that has the hash.
finds_hash :
    (xs : List Batch) (t : Batch) (r : ℕ)
    → Sorted xs
    → All (Unforked t) xs
    → HasHash t xs
    → (r ≢ 0 → is_below xs t (r - 1) ≡ true)
    → (r < length xs → is_below xs t r ≡ false)
    → (is_equal_at xs t r ≡ true) × (r < length xs)
unfolding is_below is_equal_at
finds_hash [] t r s u m low high = absurd m
finds_hash (x ∷ xs) t zero (p, ps) (u, us) (inl e) low high = (ground arith, omega arith)
finds_hash (x ∷ xs) t zero (p, ps) (u, us) (inr m) low high =
    let le = behind xs p us m in let b = high (omega arith) in (ground arith, omega arith)
  where
    behind :
        (ys : List Batch)
        → All (λ (y : Batch). x.number ≤ y.number) ys
        → All (Unforked t) ys
        → HasHash t ys
        → x.number ≤ t.number
    behind [] a v h = absurd h
    behind (y ∷ ys) (a, as') (v, vs) (inl h) = omega (arith, v.1 h)
    behind (y ∷ ys) (a, as') (v, vs) (inr h) = behind ys as' vs h
finds_hash (x ∷ xs) t (suc r) s u (inl e) low high =
    let q : suc r - 1 ≡ r = omega arith in
    absurd (
      head_differs x xs t r s u
        (subst (λ k. is_below (x ∷ xs) t k ≡ true) q (low (λ z. omega arith))) e)
finds_hash (x ∷ xs) t (suc zero) s u (inr m) low high =
    let (e, h) = finds_hash xs t zero s.1 u.1 m (λ z. absurd (z refl)) (λ l. high (omega arith)) in
    (e, omega arith)
finds_hash (x ∷ xs) t (suc (suc r)) s u (inr m) low high =
    let q : suc (suc r) - 1 ≡ suc (suc r - 1) = omega arith in
    let low' = subst (λ k. is_below (x ∷ xs) t k ≡ true) q (low (λ z. omega arith)) in
    let (e, h) = finds_hash xs t (suc r) s.1 u.1 m (λ z. low') (λ l. high (omega arith)) in
    (e, omega arith)

-- In a buffer in order that holds no other batch with the number or the hash of the new one, and
-- is below capacity, `Insert` reports every batch whose hash is there already, and changes nothing.
pub insert-duplicate :
    (t : Batch) (b : BatchBuffer)
    → Sorted b.batches
    → All (Unforked t) b.batches
    → len b < b.capacity
    → HasHash t b.batches
    → insert t b ≡ (some duplicate_batch, b)
unfolding insert
insert-duplicate t b s u room m =
    let (split, le) = position-IsFound b.batches t in
    let (e, lt) = finds_hash b.batches t (position b.batches t) s u m split.low split.high in
    rw (e, lt→ltb (position b.batches t) (len b) lt) (ground arith)

-- Where a number has forked, the search can miss a batch: a buffer that holds exactly two batches
-- of one number, and has room, takes the first of them again and holds it twice.
pub insert_misses_duplicate :
    (a b : Batch) (c : ℕ)
    → a.number ≡ b.number
    → a.hash ≢ b.hash
    → 2 < c
    → insert a (record { batches = a ∷ b ∷ []; capacity = c })
      ≡ (none, record { batches = a ∷ b ∷ a ∷ []; capacity = c })
unfolding insert search_loop
insert_misses_duplicate a b c e ne h = ground arith
