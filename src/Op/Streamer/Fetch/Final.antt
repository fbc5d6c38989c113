-- ===== src/Op/Streamer/Fetch/Final.antt =====
-- A batch whose L1 origin is final: whatever was read before, `CheckBatch` accepts it.
use espresso_streamers.Base.{
  ℕ, ◌≤◌, ◌≡◌, ◌≢◌, inl, inr, refl, subst, sym, false, none, some, [], ◌∷◌, ok, arith, ◌==◌,
  Option-cases, Bool-cases, ==_iff,
}
use espresso_streamers.Op.Batch.{Batch, BlockId, accept, zero_address}
use espresso_streamers.Op.Streamer.Deps.{Deps, L1State}
use espresso_streamers.Op.Streamer.State.{BatchStreamer}
use espresso_streamers.Op.Streamer.Check.{is_unset, l1_state_at, check_batch}
use espresso_streamers.Op.Streamer.Check.Accept.{check_batch-accept_iff, l1_state_at-fresh}
use espresso_streamers.Op.Streamer.Check.Vetted.{Lru, Vetting, HasSound}

-- What the clients say of a block that is final and that the batch was made for: the L1 client
-- answers with the hash that the batch names, and the contract with its signer.
pub record IsFinal (d : Deps) (b : Batch) : Type 0 where
  pub hash :
      (k : d.Client) → (d.header_hash_by_number k b.l1_origin.number).0 ≡ some b.l1_origin.hash
  pub batcher :
      (k : d.Client) (at_block : ℕ)
      → (d.espresso_batcher_at_block k at_block b.l1_origin.number).0 ≡ some b.signer
  pub registered : b.signer ≢ zero_address

-- The state of the batch's L1 origin that these answers make.
abbrev pub final_state : Batch → L1State
final_state b = record { hash = b.l1_origin.hash; authorized_batchers = b.signer ∷ [] }

-- At the batch's L1 origin the state is this one.
abbrev pub AgreesAt : Batch → ℕ → L1State → Type 0
AgreesAt b n st = n ≡ b.l1_origin.number → st ≡ final_state b

module _ {d : Deps} (lru : Lru d) (b : Batch) (final : IsFinal d b) where
  pub fresh-AgreesAt :
      (s : BatchStreamer d) (o : BlockId) (st : L1State)
      → (d.cache_get s.finalized_l1_state_cache o.number).0 ≡ none
      → (l1_state_at s o).0 ≡ ok st
      → AgreesAt b o.number st
  fresh-AgreesAt s o st miss e n =
      let (h, a, nz, l, f) = l1_state_at-fresh s o st miss e in
      let asked = (d.header_hash_by_number s.client o.number).1 in
      let h' : (d.header_hash_by_number s.client o.number).0 ≡ some b.l1_origin.hash =
        subst (λ m. (d.header_hash_by_number s.client m).0 ≡ some b.l1_origin.hash) (sym n)
          (final.hash s.client) in
      let f' : (d.espresso_batcher_at_block asked s.finalized_l1.number o.number).0
          ≡ some b.signer =
        subst (λ m. (d.espresso_batcher_at_block asked s.finalized_l1.number m).0 ≡ some b.signer)
          (sym n) (final.batcher asked s.finalized_l1.number) in
      ground (arith, h, h', f, f', l)

  abbrev pub settled : d.Client → Vetting d
  settled first = record {
    lru = lru;
    first = first;
    Fact = λ k n st. AgreesAt b n st;
    later_fact = λ k last n st x f. f;
    fresh_fact = λ s o st x miss e. fresh-AgreesAt s o st miss e;
  }

  final-known :
      (s : BatchStreamer d) (first : d.Client)
      → HasSound (settled first) s
      → (l1_state_at s b.l1_origin).0 ≡ ok (final_state b)
  unfolding l1_state_at
  final-known s first v =
      let n = b.l1_origin.number in
      elim (Option-cases (d.cache_get s.finalized_l1_state_cache n).0) [
        | inr (x, hit) ↦
            let agrees = v.sound n x (lru.get_holds s.finalized_l1_state_cache n x hit) refl in
            ground (arith, hit, agrees)
        | inl miss ↦
            let h = final.hash s.client in
            let f = final.batcher (d.header_hash_by_number s.client n).1 s.finalized_l1.number in
            let nz : (b.signer == zero_address) ≡ false =
              elim (Bool-cases (b.signer == zero_address)) [
                | inl z ↦ absurd (final.registered ((==_iff b.signer zero_address).0 z))
                | inr z ↦ z
              ] in
            ground (arith, miss, h, f, nz)
      ]

  -- `CheckBatch` accepts the batch when it is due, with the finalized L1 block known and not before
  -- the batch's L1 origin.
  pub check_batch-final :
      (s : BatchStreamer d) (first : d.Client)
      → HasSound (settled first) s
      → b.number ≡ s.next_batch_pos
      → is_unset s.finalized_l1 ≡ false
      → b.l1_origin.number ≤ s.finalized_l1.number
      → (check_batch s b).0 ≡ accept
  check_batch-final s first v due set le = (check_batch-accept_iff s b).1 (record {
    due = omega (arith, due);
    finalized_known = set;
    finalized = le;
    state = final_state b;
    known = final-known s first v;
    authorized = inl refl;
    canonical = refl;
  })
