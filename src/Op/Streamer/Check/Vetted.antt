-- ===== src/Op/Streamer/Check/Vetted.antt =====
-- What is known of the L1 states in the cache, and so of the batches that `CheckBatch` accepts.
use espresso_streamers.Base.{
  ℕ, ◌≡◌, ◌≢◌, ◌⊎◌, inl, inr, sym, subst, none, some, [], ◌∷◌, ok, arith, Option-cases, Bool-cases,
  ◌==◌, ltb, ◌||◌,
}
use espresso_streamers.Op.Batch.{Batch, accept, BlockId, zero_address}
use espresso_streamers.Op.Streamer.Deps.{Deps, L1State}
use espresso_streamers.Op.Streamer.State.{BatchStreamer}
use espresso_streamers.Op.Streamer.Check.{is_unset, l1_state_at, check_batch}
use espresso_streamers.Op.Streamer.Check.Accept.{Member, check_batch-accept_iff}
use espresso_streamers.Op.Streamer.Check.Later.{
  Later, same, asked_hash, asked_batcher_at, Later-trans,
}

-- The documented behaviour of `simplelru.LRU`: a new cache is empty, `Get` answers with what is held
-- for the key, and nothing is held that was not added.
pub record Lru (d : Deps) : Type 1 where
  pub Holds : d.Cache → ℕ → L1State → Type 0
  pub new_holds : (size n : ℕ) (st : L1State) → ¬ Holds (d.cache_new size) n st
  pub get_holds :
      (c : d.Cache) (n : ℕ) (st : L1State) → (d.cache_get c n).0 ≡ some st → Holds c n st
  pub holds_get :
      (c : d.Cache) (n m : ℕ) (st : L1State) → Holds (d.cache_get c n).1 m st → Holds c m st
  pub holds_add :
      (c : d.Cache) (n m : ℕ) (new st : L1State)
      → Holds (d.cache_add c n new) m st
      → ((m ≡ n) × (st ≡ new)) ⊎ Holds c m st

-- A fact about the L1 states of the blocks that, from the first state of the clients on, holds of
-- what these answer, and that later calls leave true.
pub record Vetting (d : Deps) : Type 1 where
  pub lru : Lru d
  pub first : d.Client
  pub Fact : d.Client → ℕ → L1State → Type 0
  pub later_fact :
      (k last : d.Client) (n : ℕ) (st : L1State) → Later d k last → Fact k n st → Fact last n st
  pub fresh_fact :
      (s : BatchStreamer d) (o : BlockId) (st : L1State)
      → Later d first s.client
      → (d.cache_get s.finalized_l1_state_cache o.number).0 ≡ none
      → (l1_state_at s o).0 ≡ ok st
      → Fact (l1_state_at s o).1.client o.number st

module _ {d : Deps} where
  l1_state_at-Later :
      (s : BatchStreamer d) (o : BlockId) → Later d s.client (l1_state_at s o).1.client
  unfolding l1_state_at
  l1_state_at-Later s o =
      let asked = d.header_hash_by_number s.client o.number in
      let twice = d.espresso_batcher_at_block asked.1 s.finalized_l1.number o.number in
      elim (Option-cases (d.cache_get s.finalized_l1_state_cache o.number).0) [
        | inr (x, hit) ↦
            let e : (l1_state_at s o).1.client ≡ s.client = ground (arith, hit) in rw e same
        | inl miss ↦ elim (Option-cases asked.0) [
          | inl e ↦
              let r : (l1_state_at s o).1.client ≡ asked.1 = ground (arith, miss, e) in
              rw r (asked_hash o.number same)
          | inr (hash, e) ↦
              let r : (l1_state_at s o).1.client ≡ twice.1 = ground (arith, miss, e) in
              rw r (asked_batcher_at s.finalized_l1.number o.number (asked_hash o.number same))
        ]
      ]

  -- What becomes of the cache.
  cache_cases :
      (s : BatchStreamer d) (o : BlockId)
      → let got = (d.cache_get s.finalized_l1_state_cache o.number).1 in
        ((l1_state_at s o).1.finalized_l1_state_cache ≡ got)
        ⊎ ((st : L1State) × ((l1_state_at s o).0 ≡ ok st)
            × ((l1_state_at s o).1.finalized_l1_state_cache ≡ d.cache_add got o.number st)
            × ((d.cache_get s.finalized_l1_state_cache o.number).0 ≡ none))
  unfolding l1_state_at
  cache_cases s o = elim (Option-cases (d.cache_get s.finalized_l1_state_cache o.number).0) [
    | inr (x, hit) ↦ inl (ground (arith, hit))
    | inl miss ↦ elim (Option-cases (d.header_hash_by_number s.client o.number).0) [
      | inl e ↦ inl (ground (arith, miss, e))
      | inr (hash, e) ↦
          elim (Option-cases
            (d.espresso_batcher_at_block (d.header_hash_by_number s.client o.number).1
              s.finalized_l1.number o.number).0) [
                | inl f ↦ inl (ground (arith, miss, e, f))
                | inr (a, f) ↦ elim (Bool-cases (a == zero_address)) [
                  | inl z ↦ inl (ground (arith, miss, e, f, z))
                  | inr nz ↦ inr (
                    record { hash = hash; authorized_batchers = a ∷ [] },
                    ground (arith, miss, e, f, nz),
                    ground (arith, miss, e, f, nz),
                    miss,
                  )
                ]
              ]
    ]
  ]

  -- `CheckBatch` returns early, without accepting, or with the state that looking up the L1 leaves.
  check_batch-cases :
      (s : BatchStreamer d) (b : Batch)
      → (((check_batch s b).1 ≡ s) × ((check_batch s b).0 ≢ accept))
        ⊎ ((check_batch s b).1 ≡ (l1_state_at s b.l1_origin).1)
  unfolding check_batch
  check_batch-cases s b =
      elim (Bool-cases (
        ltb b.number s.next_batch_pos
        || is_unset s.finalized_l1
        || ltb s.finalized_l1.number b.l1_origin.number)) [
          | inl early ↦ inl (ground (arith, early), λ h. ground (arith, early, h))
          | inr on ↦ inr (ground (arith, on))
        ]

module _ {d : Deps} (vet : Vetting d) where
  -- The clients have come from their first state, and the fact holds of all states in the cache.
  pub record IsSound (k : d.Client) (c : d.Cache) : Type 0 where
    pub reached : Later d vet.first k
    pub sound : (n : ℕ) (st : L1State) → vet.lru.Holds c n st → vet.Fact k n st

  abbrev pub HasSound : BatchStreamer d → Type 0
  HasSound s = IsSound s.client s.finalized_l1_state_cache

  -- The fact holds of a state of the batch's L1 origin that has the hash that the batch names, and
  -- its signer among the batchers.
  pub record IsVetted (k : d.Client) (b : Batch) : Type 0 where
    pub state : L1State
    pub fact : vet.Fact k b.l1_origin.number state
    pub canonical : state.hash ≡ b.l1_origin.hash
    pub authorized : Member b.signer state.authorized_batchers

  pub later-IsSound :
      (k last : d.Client) (c : d.Cache) → Later d k last → IsSound k c → IsSound last c
  later-IsSound k last c x v = record {
    reached = Later-trans vet.first k last v.reached x;
    sound = λ n st h. vet.later_fact k last n st x (v.sound n st h);
  }

  got-IsSound : (k : d.Client) (c : d.Cache) (n : ℕ) → IsSound k c → IsSound k (d.cache_get c n).1
  got-IsSound k c n v = record {
    reached = v.reached;
    sound = λ m st h. v.sound m st (vet.lru.holds_get c n m st h);
  }

  added-IsSound :
      (k : d.Client) (c : d.Cache) (n : ℕ) (st : L1State)
      → IsSound k c
      → vet.Fact k n st
      → IsSound k (d.cache_add c n st)
  added-IsSound k c n st v w = record {
    reached = v.reached;
    sound = λ m x h. elim (vet.lru.holds_add c n m st x h) [
      | inl (e, f) ↦ rw (e, f) w
      | inr h' ↦ v.sound m x h'
    ];
  }

  l1_state_at-HasSound :
      (s : BatchStreamer d) (o : BlockId) → HasSound s → HasSound (l1_state_at s o).1
  l1_state_at-HasSound s o v =
      let k = (l1_state_at s o).1.client in
      let c = (d.cache_get s.finalized_l1_state_cache o.number).1 in
      let got : IsSound k c =
        later-IsSound s.client k c (l1_state_at-Later s o)
          (got-IsSound s.client s.finalized_l1_state_cache o.number v) in
      elim (cache_cases s o) [
        | inl e ↦ subst (λ x. IsSound k x) (sym e) got
        | inr (st, r, e, miss) ↦
            subst (λ x. IsSound k x) (sym e)
              (added-IsSound k c o.number st got (vet.fresh_fact s o st v.reached miss r))
      ]

  l1_state_at-Fact :
      (s : BatchStreamer d) (o : BlockId) (st : L1State)
      → HasSound s
      → (l1_state_at s o).0 ≡ ok st
      → vet.Fact (l1_state_at s o).1.client o.number st
  unfolding l1_state_at
  l1_state_at-Fact s o st v e =
      elim (Option-cases (d.cache_get s.finalized_l1_state_cache o.number).0) [
        | inl miss ↦ vet.fresh_fact s o st v.reached miss e
        | inr (x, hit) ↦
            let eq : x ≡ st = ground (arith, e, hit) in
            vet.later_fact s.client (l1_state_at s o).1.client o.number st (l1_state_at-Later s o) (
              v.sound o.number st (
                vet.lru.get_holds s.finalized_l1_state_cache o.number st (ground (arith, hit, eq))))
      ]

  pub check_batch-HasSound :
      (s : BatchStreamer d) (b : Batch) → HasSound s → HasSound (check_batch s b).1
  check_batch-HasSound s b v = elim (check_batch-cases s b) [
    | inl (e, ne) ↦ subst (λ t. HasSound t) (sym e) v
    | inr e ↦ subst (λ t. HasSound t) (sym e) (l1_state_at-HasSound s b.l1_origin v)
  ]

  -- The fact holds of the state that an acceptance rests on.
  pub check_batch-IsVetted :
      (s : BatchStreamer d) (b : Batch)
      → HasSound s
      → (check_batch s b).0 ≡ accept
      → IsVetted (check_batch s b).1.client b
  check_batch-IsVetted s b v h = elim (check_batch-cases s b) [
    | inl (e, ne) ↦ absurd (ne h)
    | inr e ↦
        let a = (check_batch-accept_iff s b).0 h in
        record {
          state = a.state;
          fact =
              subst (λ t. vet.Fact t.client b.l1_origin.number a.state) (sym e)
                (l1_state_at-Fact s b.l1_origin a.state v a.known);
          canonical = a.canonical;
          authorized = a.authorized;
        }
  ]
