-- ===== src/Op/Buffer/Ends.antt =====
-- The front of the buffer: `Pop`, `Peek`, `Clear` and the new buffer.
use espresso_streamers.Base.{
  ℕ, ◌≤◌, ◌≡◌, refl, none, some, List, [], ◌∷◌, arith, leb, if◌then◌else◌, length, inl, inr,
}
use espresso_streamers.Op.Batch.{Batch}
use espresso_streamers.Op.Buffer.{BatchBuffer, new, clear, insert, peek, pop}
use espresso_streamers.Op.Buffer.Order.{insert_sorted, Sorted, IsValid, insert_lem}

pub pop-IsValid : (b : BatchBuffer) → IsValid b → IsValid (pop b).1
unfolding pop
pop-IsValid b v = pop_batches b.batches b.capacity v.sorted v.bounded
  where
    pop_batches :
        (xs : List Batch) (c : ℕ)
        → Sorted xs
        → length xs ≤ c
        → IsValid (pop (record { batches = xs; capacity = c })).1
    pop_batches [] c s h = record { sorted = s; bounded = h }
    pop_batches (x ∷ xs) c s h = record { sorted = s.1; bounded = omega arith }

pub clear-IsValid : (b : BatchBuffer) → IsValid (clear b)
unfolding clear
clear-IsValid b = record { sorted = tt; bounded = omega arith }

pub new-IsValid : (c : ℕ) → IsValid (new c)
unfolding new
new-IsValid c = record { sorted = tt; bounded = omega arith }

-- What `Peek` shows after a successful `Insert`: the batch that it showed before, if its number is
-- at most that of the new batch, and the new batch otherwise. So of the batches of one number the
-- one inserted first is shown.
pub peek-insert :
    (t : Batch) (b : BatchBuffer)
    → Sorted b.batches
    → (insert t b).0 ≡ none
    → peek (insert t b).1
      ≡ elim (peek b) [ none ↦ some t | some x ↦ if leb x.number t.number then some x else some t ]
unfolding peek insert_sorted
peek-insert t b s h = elim (insert_lem t b s) [
  | inl (full, e) ↦ absurd (cc)
  | inr (inl (room, dup, e)) ↦ absurd (cc)
  | inr (inr (room, e)) ↦ rw e (head_cases b.batches)
]
  where
    head_cases :
        (xs : List Batch)
        → peek (record b { batches = insert_sorted t xs })
          ≡ elim (peek (record b { batches = xs })) [
            | none ↦ some t
            | some x ↦ if leb x.number t.number then some x else some t
          ]
    head_cases [] = refl
    head_cases (x ∷ xs) = ground arith
