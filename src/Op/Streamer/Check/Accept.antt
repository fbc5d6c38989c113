-- ===== src/Op/Streamer/Check/Accept.antt =====
-- What `CheckBatch` accepts, and what it leaves of the streamer as it was.
use espresso_streamers.Base.{
  ◌≤◌, ◌≡◌, ◌≢◌, ◌↔◌, ◌⊎◌, inl, inr, refl, true, false, none, some, List, [], ◌∷◌, ◌==◌, Result, ok,
  err, arith, Bool-cases, Option-cases, ==_iff,
}
use espresso_streamers.Op.Batch.{Batch, BatchValidity, accept, BlockId, Address, zero_address}
use espresso_streamers.Op.Streamer.Deps.{Deps, L1State}
use espresso_streamers.Op.Streamer.State.{BatchStreamer}
use espresso_streamers.Op.Streamer.Check.{
  contains, is_unset, check_l1_state, l1_state_at, check_batch,
}

abbrev pub Member : Address → List Address → Type 0
Member a [] = ⊥
Member a (x ∷ xs) = (x ≡ a) ⊎ Member a xs

contains→Member : (xs : List Address) (a : Address) → contains xs a ≡ true → Member a xs
unfolding contains
contains→Member [] a h = absurd (cc)
contains→Member (x ∷ xs) a h = elim (Bool-cases (x == a)) [
  | inl e ↦ inl ((==_iff x a).0 e)
  | inr ne ↦ inr (contains→Member xs a (ground arith))
]

Member→contains : (xs : List Address) (a : Address) → Member a xs → contains xs a ≡ true
unfolding contains
Member→contains [] a m = absurd m
Member→contains (x ∷ xs) a (inl e) = ground arith
Member→contains (x ∷ xs) a (inr m) = ground (arith, Member→contains xs a m)

-- What an acceptance rests on.
pub record Accepts {d : Deps} (s : BatchStreamer d) (b : Batch) : Type 0 where
  pub due : s.next_batch_pos ≤ b.number
  pub finalized_known : is_unset s.finalized_l1 ≡ false
  pub finalized : b.l1_origin.number ≤ s.finalized_l1.number
  pub state : L1State
  pub known : (l1_state_at s b.l1_origin).0 ≡ ok state
  pub authorized : Member b.signer state.authorized_batchers
  pub canonical : state.hash ≡ b.l1_origin.hash

module _ {d : Deps} (s : BatchStreamer d) (b : Batch) where
  no_early_accept : (l1_state_at s b.l1_origin).0 ≢ err accept
  unfolding l1_state_at
  no_early_accept h = ground arith

  accept→Accepts : (check_batch s b).0 ≡ accept → Accepts s b
  unfolding check_batch check_l1_state
  accept→Accepts h = of_answer (l1_state_at s b.l1_origin).0 refl
    where
      of_answer :
          (r : Result BatchValidity L1State) → (l1_state_at s b.l1_origin).0 ≡ r → Accepts s b
      of_answer (err v) e = absurd (ground (arith, e, no_early_accept))
      of_answer (ok st) e = record {
        due = ground (arith, e);
        finalized_known = ground arith;
        finalized = ground arith;
        state = st;
        known = e;
        authorized = contains→Member st.authorized_batchers b.signer (ground arith);
        canonical = ground arith;
      }

  Accepts→accept : Accepts s b → (check_batch s b).0 ≡ accept
  unfolding check_batch check_l1_state
  Accepts→accept a =
      ground (arith, Member→contains a.state.authorized_batchers b.signer a.authorized)

  -- `CheckBatch` accepts a batch exactly when its number is not behind the one that is due, a
  -- finalized L1 block is known, the batch's L1 origin is not after it, the state of the L1 at that
  -- origin is known from the cache or the clients, its hash is the one that the batch names, and the
  -- signer of the batch is a batcher authorized there.
  pub check_batch-accept_iff : ((check_batch s b).0 ≡ accept) ↔ Accepts s b
  check_batch-accept_iff = (accept→Accepts, Accepts→accept)

-- A state that is not in the cache is believed only if both clients answer: its hash is the L1
-- client's, and its one batcher is the contract's, which is not the zero address.
pub l1_state_at-fresh :
    {d : Deps} (s : BatchStreamer d) (o : BlockId) (st : L1State)
    → (d.cache_get s.finalized_l1_state_cache o.number).0 ≡ none
    → (l1_state_at s o).0 ≡ ok st
    → ((d.header_hash_by_number s.client o.number).0 ≡ some st.hash)
      × (batcher : Address) × (batcher ≢ zero_address)
      × (st.authorized_batchers ≡ batcher ∷ [])
      × ((d.espresso_batcher_at_block
            (d.header_hash_by_number s.client o.number).1
            s.finalized_l1.number
            o.number).0
          ≡ some batcher)
unfolding l1_state_at
l1_state_at-fresh {d} s o st miss h =
    elim (Option-cases (d.header_hash_by_number s.client o.number).0) [
      | inl e ↦ absurd (ground arith)
      | inr (hash, e) ↦
          elim (Option-cases
            (d.espresso_batcher_at_block (d.header_hash_by_number s.client o.number).1
              s.finalized_l1.number o.number).0) [
                | inl f ↦ absurd (ground arith)
                | inr (a, f) ↦ (ground arith, a, ground arith, ground arith, f)
              ]
    ]
