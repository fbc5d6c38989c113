-- ===== src/Op/Buffer.antt =====
-- `BatchBuffer` of op/batch_buffer.go: a bounded list of batches kept in order of their numbers.
pub mod Search
pub mod Order
pub mod Ends
pub mod Duplicates
mod Tests
use Prim.Native.Nat.{Ordering}
use espresso_streamers.Base.{
  ℕ, zero, suc, ◌+◌, ◌/◌, ◌<◌, Bool, true, false, ◌&&◌, Option, none, some, List, [], ◌∷◌, ◌++◌,
  ltb, leb, ◌==◌, if◌then◌else◌, length, get_elem?, take, drop,
}
use espresso_streamers.Op.Batch.{Batch}

-- `ErrAtCapacity` and `ErrDuplicateBatch`; a nil error is `none`.
pub data InsertError : Type 0 where
  at_capacity duplicate_batch : InsertError

pub record BatchBuffer : Type 0 where
  pub batches : List Batch
  pub capacity : ℕ

-- `NewBatchBuffer`.
unfoldable pub new : ℕ → BatchBuffer
new capacity = record { batches = []; capacity = capacity }

abbrev pub len : BatchBuffer → ℕ
len b = length b.batches

unfoldable pub clear : BatchBuffer → BatchBuffer
clear b = record b { batches = [] }

-- The comparison that `Insert` passes to `slices.BinarySearchFunc`; -1, 0, 1 are lt, eq, gt.
unfoldable pub compare_batch : Batch → Batch → Ordering
compare_batch a t =
    if a.hash == t.hash
    then Ordering.eq
    else if ltb a.number t.number
    then Ordering.lt
    else if ltb t.number a.number
    then Ordering.gt
    else Ordering.lt

-- `cmp(x[h], target) < 0` and `cmp(x[i], target) == 0`; an index out of range is in neither.
unfoldable pub is_below : List Batch → Batch → ℕ → Bool
unfolding compare_batch
is_below xs t h = elim (get_elem? xs h) [
  | none ↦ false
  | some a ↦ elim (compare_batch a t) [ Ordering.lt ↦ true | _ ↦ false ]
]

unfoldable pub is_equal_at : List Batch → Batch → ℕ → Bool
unfolding compare_batch
is_equal_at xs t h = elim (get_elem? xs h) [
  | none ↦ false
  | some a ↦ elim (compare_batch a t) [ Ordering.eq ↦ true | _ ↦ false ]
]

-- The loop of `slices.BinarySearchFunc` over `i` and `j`; the fuel bounds `j - i`.
unfoldable pub search_loop : ℕ → List Batch → Batch → ℕ → ℕ → ℕ
search_loop zero xs t i j = i
search_loop (suc fuel) xs t i j =
    let h = (i + j) / 2 in
    let upper = search_loop fuel xs t (h + 1) j in
    let lower = search_loop fuel xs t i h in
    if ltb i j then (if is_below xs t h then upper else lower) else i

unfoldable pub position : List Batch → Batch → ℕ
unfolding search_loop is_below
position xs t = search_loop (length xs) xs t 0 (length xs)

-- `Insert`: the error, and the buffer after the call.
unfoldable pub insert : Batch → BatchBuffer → Option InsertError × BatchBuffer
unfolding position is_equal_at
insert batch b =
    let pos = position b.batches batch in
    if leb b.capacity (len b)
    then (some at_capacity, b)
    else if ltb pos (len b) && is_equal_at b.batches batch pos
    then (some duplicate_batch, b)
    else (none, record b { batches = take pos b.batches ++ (batch ∷ drop pos b.batches) })

-- `Get`; a Go `int` index below 0 is out of range like one past the end.
unfoldable pub get : BatchBuffer → ℕ → Option Batch
get b i = get_elem? b.batches i

unfoldable pub peek : BatchBuffer → Option Batch
peek b = elim b.batches [ [] ↦ none | x ∷ xs ↦ some x ]

unfoldable pub pop : BatchBuffer → Option Batch × BatchBuffer
pop b = elim b.batches [ [] ↦ (none, b) | x ∷ xs ↦ (some x, record b { batches = xs }) ]
