-- ===== src/Op/Streamer/Check/Vouched.antt =====
-- Which answers of the clients an acceptance by `CheckBatch` goes back to.
use espresso_streamers.Base.{
  ℕ, ◌≡◌, ◌≢◌, inl, inr, subst, sym, none, some, [], ◌∷◌, ok, arith, Option-cases,
}
use espresso_streamers.Op.Batch.{Batch, BlockId, Address, zero_address}
use espresso_streamers.Op.Streamer.Deps.{Deps, L1State}
use espresso_streamers.Op.Streamer.State.{BatchStreamer}
use espresso_streamers.Op.Streamer.Check.{l1_state_at}
use espresso_streamers.Op.Streamer.Check.Accept.{Member, l1_state_at-fresh}
use espresso_streamers.Op.Streamer.Check.Later.{
  Later, same, asked_hash, asked_batcher_at, Later-trans,
}
use espresso_streamers.Op.Streamer.Check.Vetted.{Lru, Vetting, IsVetted}

-- On a way of calls from the first state of the clients to the last one, the L1 client was asked for
-- the hash of block `n` and answered with this one, and the contract for the batcher at it and
-- answered with this one, who is not the zero address.
pub record Vouched (d : Deps) (first last : d.Client) (n hash batcher : ℕ) : Type 0 where
  pub l1 : d.Client
  pub l1_reached : Later d first l1
  pub hash_answered : (d.header_hash_by_number l1 n).0 ≡ some hash
  pub l1_left : Later d (d.header_hash_by_number l1 n).1 last
  pub contract : d.Client
  pub contract_reached : Later d first contract
  pub at_block : ℕ
  pub batcher_answered : (d.espresso_batcher_at_block contract at_block n).0 ≡ some batcher
  pub contract_left : Later d (d.espresso_batcher_at_block contract at_block n).1 last
  pub registered : batcher ≢ zero_address

-- A state whose one batcher and hash were answered.
abbrev pub IsAnswered : (d : Deps) → d.Client → d.Client → ℕ → L1State → Type 0
IsAnswered d first k n st =
    (batcher : Address) × (st.authorized_batchers ≡ batcher ∷ [])
    × Vouched d first k n st.hash batcher

module _ {d : Deps} (first : d.Client) where
  pub later-Vouched :
      (k last : d.Client) (n hash batcher : ℕ)
      → Later d k last
      → Vouched d first k n hash batcher
      → Vouched d first last n hash batcher
  later-Vouched k last n hash batcher x v = record {
    l1 = v.l1;
    l1_reached = v.l1_reached;
    hash_answered = v.hash_answered;
    l1_left = Later-trans (d.header_hash_by_number v.l1 n).1 k last v.l1_left x;
    contract = v.contract;
    contract_reached = v.contract_reached;
    at_block = v.at_block;
    batcher_answered = v.batcher_answered;
    contract_left =
        Later-trans (d.espresso_batcher_at_block v.contract v.at_block n).1 k last v.contract_left
          x;
    registered = v.registered;
  }

  fresh-client :
      (s : BatchStreamer d) (o : BlockId) (st : L1State)
      → (d.cache_get s.finalized_l1_state_cache o.number).0 ≡ none
      → (l1_state_at s o).0 ≡ ok st
      → (l1_state_at s o).1.client
        ≡ (d.espresso_batcher_at_block
            (d.header_hash_by_number s.client o.number).1
            s.finalized_l1.number
            o.number).1
  unfolding l1_state_at
  fresh-client s o st miss h = elim (Option-cases (d.header_hash_by_number s.client o.number).0) [
    | inl e ↦ absurd (ground (arith, miss, h, e))
    | inr (hash, e) ↦ ground (arith, miss, e)
  ]

  pub fresh-IsAnswered :
      (s : BatchStreamer d) (o : BlockId) (st : L1State)
      → Later d first s.client
      → (d.cache_get s.finalized_l1_state_cache o.number).0 ≡ none
      → (l1_state_at s o).0 ≡ ok st
      → IsAnswered d first (l1_state_at s o).1.client o.number st
  fresh-IsAnswered s o st reached miss e =
      let (h, a, nz, l, b) = l1_state_at-fresh s o st miss e in
      let asked = (d.header_hash_by_number s.client o.number).1 in
      subst (λ k. IsAnswered d first k o.number st) (sym (fresh-client s o st miss e))
        (
          a,
          l,
          record {
            l1 = s.client;
            l1_reached = reached;
            hash_answered = h;
            l1_left = asked_batcher_at s.finalized_l1.number o.number same;
            contract = asked;
            contract_reached = asked_hash o.number reached;
            at_block = s.finalized_l1.number;
            batcher_answered = b;
            contract_left = same;
            registered = nz;
          },
        )

  abbrev pub answered : Lru d → Vetting d
  answered lru = record {
    lru = lru;
    first = first;
    Fact = IsAnswered d first;
    later_fact =
        λ k last n st x (batcher, l, v). (batcher, l, later-Vouched k last n st.hash batcher x v);
    fresh_fact = fresh-IsAnswered;
  }

  -- What is known of a batch that rests on such a state.
  pub vetted-Vouched :
      (lru : Lru d) (k : d.Client) (b : Batch)
      → IsVetted (answered lru) k b
      → Vouched d first k b.l1_origin.number b.l1_origin.hash b.signer
  vetted-Vouched lru k b v =
      let (batcher, l, w) = v.fact in
      let m : Member b.signer (batcher ∷ []) = rw l at v.authorized in
      let eq : batcher ≡ b.signer = elim m [ inl e ↦ e | inr x ↦ absurd x ] in
      subst (λ hash. Vouched d first k b.l1_origin.number hash b.signer) v.canonical
        (subst (λ x. Vouched d first k b.l1_origin.number v.state.hash x) eq w)
