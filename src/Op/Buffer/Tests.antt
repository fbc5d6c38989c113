-- ===== src/Op/Buffer/Tests.antt =====
-- Runs of the batch buffer, and its theorems at concrete inputs.
use espresso_streamers.Base.{ℕ, ◌≤◌, ◌<◌, ◌≡◌, refl, none, some, [], ◌∷◌, arith, ◌⊎◌}
use espresso_streamers.Op.Batch.{Batch}
use espresso_streamers.Op.Buffer.{
  BatchBuffer, at_capacity, duplicate_batch, new, insert, search_loop, pop, get, clear,
}
use espresso_streamers.Op.Buffer.Order.{Sorted, HasHash, insert_sorted, insert_lem}
use espresso_streamers.Op.Buffer.Duplicates.{insert_misses_duplicate}

-- A batch of a number and a hash.
abbrev sample : ℕ → ℕ → Batch
sample n h = record {
  number = n;
  l1_origin = record { hash = 0; number = 0 };
  header = record { parent_hash = 0; number = some n; time = 0 };
  hash = h;
  signer = 1;
}

abbrev two : BatchBuffer
two = record { batches = sample 3 30 ∷ sample 5 50 ∷ []; capacity = 3 }

insert_between :
    insert (sample 4 40) two
    ≡ (none, record two { batches = sample 3 30 ∷ sample 4 40 ∷ sample 5 50 ∷ [] })
unfolding insert search_loop
insert_between = refl

insert_full :
    insert (sample 4 40) (record two { capacity = 2 })
    ≡ (some at_capacity, record two { capacity = 2 })
unfolding insert search_loop
insert_full = refl

insert_again : insert (sample 3 30) two ≡ (some duplicate_batch, two)
unfolding insert search_loop
insert_again = refl

pop_first : pop two ≡ (some (sample 3 30), record two { batches = sample 5 50 ∷ [] })
unfolding pop
pop_first = refl

get_and_clear : (get two 1 ≡ some (sample 5 50)) × (get two 2 ≡ none) × (clear two ≡ new 3)
unfolding get clear new
get_and_clear = (refl, refl, refl)

two-Sorted : Sorted two.batches
two-Sorted = omega arith

insert_lem_example :
    (3 ≤ 2) × (insert (sample 4 40) two ≡ (some at_capacity, two))
    ⊎ ((2 < 3)
          × HasHash (sample 4 40) two.batches
          × (insert (sample 4 40) two ≡ (some duplicate_batch, two))
        ⊎ (2 < 3)
          × (insert (sample 4 40) two
              ≡ (none, record two { batches = insert_sorted (sample 4 40) two.batches })))
insert_lem_example = insert_lem (sample 4 40) two two-Sorted

insert_misses_duplicate_example :
    insert (sample 3 30) (record { batches = sample 3 30 ∷ sample 3 31 ∷ []; capacity = 3 })
    ≡ (none, record { batches = sample 3 30 ∷ sample 3 31 ∷ sample 3 30 ∷ []; capacity = 3 })
insert_misses_duplicate_example =
    insert_misses_duplicate (sample 3 30) (sample 3 31) 3 refl (omega arith) (omega arith)
