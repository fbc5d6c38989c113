-- ===== src/Op/Streamer/Fetch/Turns.antt =====
-- What a transaction does to the head when a batch that is due has no rival.
use espresso_streamers.Base.{ℕ, ◌≡◌, ◌≢◌, inl, inr, refl, Option, none, some, arith, sym, ◌∙◌, ap}
use espresso_streamers.Op.Batch.{Batch, BatchValidity, drop, accept, undecided, past}
use espresso_streamers.Op.Streamer.Deps.{Deps, Bytes}
use espresso_streamers.Op.Streamer.State.{BatchStreamer}
use espresso_streamers.Op.Streamer.Check.{check_batch}
use espresso_streamers.Op.Streamer.Check.Frame.{check_batch-SameBut}
use espresso_streamers.Op.Streamer.Fetch.{
  is_head_duplicate, record_timestamp, buffer_batch, place_batch, process_espresso_transaction,
  process_transaction,
}
use espresso_streamers.Op.Streamer.Fetch.Keeps.{process_transaction-skip}
use espresso_streamers.Op.Streamer.Fetch.Reaches.{HasNoRival, Alike, Ready, Reaches, same-Ready}

module _ {d : Deps} (b : Batch) where
  placed :
      (s : BatchStreamer d) (x : Batch) (at : ℕ)
      → Alike b s (place_batch s x at).1
        × (s.head_batch ≡ some b → (place_batch s x at).1.head_batch ≡ some b)
        × (s.head_batch ≡ none
            → x.number ≢ s.next_batch_pos
            → (place_batch s x at).1.head_batch ≡ none)
        × (s.head_batch ≡ none
            → x.number ≡ s.next_batch_pos
            → (place_batch s x at).1.head_batch ≡ some x)
  unfolding place_batch buffer_batch record_timestamp is_head_duplicate
  placed s x at = (
    (ground arith, ground arith),
    λ h. ground (arith, h),
    λ h ne. ground (arith, h, ne),
    λ h e. ground (arith, h, e),
  )

  unfoldable pub Turns : Bytes → BatchStreamer d → BatchStreamer d → Type 0
  Turns t s u = Reaches b (d.unmarshal_batch t ≡ some b) s u

  -- A transaction that is not `b` and leaves the head.
  passed_over :
      (t : Bytes) (s u : BatchStreamer d)
      → Ready b s
      → Alike b s u
      → u.head_batch ≡ s.head_batch
      → d.unmarshal_batch t ≢ some b
      → Turns t s u
  unfolding Turns
  passed_over t s u r a e ne = record {
    alike = a;
    ready = same-Ready b s u e r;
    stays = λ h. e ∙ h;
    takes = λ h. absurd (ne h);
  }

  placed-Turns :
      (t : Bytes) (s : BatchStreamer d) (x : Batch) (at : ℕ)
      → Ready b s
      → b.number ≡ s.next_batch_pos
      → d.unmarshal_batch t ≡ some x
      → HasNoRival d b t
      → Turns t s (place_batch s x at).1
  unfolding Turns
  placed-Turns t s x at r due e alone =
      let (alike, kept, free, taken) = placed s x at in
      elim r [
        | inr h ↦ record { alike = alike; ready = inr (kept h); stays = kept; takes = λ q. kept h }
        | inl h ↦ elim (alone x e) [
          | inl same ↦
              let head : (place_batch s x at).1.head_batch ≡ some b =
                taken h (ground (arith, same, due)) ∙ ap (λ y. some y) same in
              record { alike = alike; ready = inr head; stays = λ q. head; takes = λ q. head }
          | inr other ↦ record {
            alike = alike;
            ready = inl (free h (λ q. other (q ∙ sym due)));
            stays = λ q. absurd (cc);
            takes = λ q. absurd (other (ground (arith, e, q)));
          }
        ]
      ]

  after_check :
      (t : Bytes) (s c u : BatchStreamer d)
      → Alike b s c
      → c.head_batch ≡ s.head_batch
      → Turns t c u
      → Turns t s u
  unfolding Turns
  after_check t s c u (n, l) h w = record {
    alike = (w.alike.0 ∙ n, w.alike.1 ∙ l);
    ready = w.ready;
    stays = λ q. w.stays (h ∙ q);
    takes = w.takes;
  }

  processed-Turns :
      (s : BatchStreamer d) (t : Bytes) (at : ℕ)
      → Ready b s
      → b.number ≡ s.next_batch_pos
      → HasNoRival d b t
      → (check_batch s b).0 ≡ accept
      → Turns t s (process_espresso_transaction s t at).1
  unfolding process_espresso_transaction
  processed-Turns s t at r due alone ok = by_batch (d.unmarshal_batch t) refl
    where
      checked : Batch → BatchStreamer d
      checked x = (check_batch s x).1

      dropped :
          (x : Batch)
          → d.unmarshal_batch t ≡ some x
          → (check_batch s x).0 ≢ accept
          → Turns t s (checked x)
      dropped x e f =
          let same = check_batch-SameBut s x in
          passed_over t s (checked x) r (ground (arith, same), ground (arith, same))
            (ground (arith, same)) (λ q. f (let y : x ≡ b = ground (arith, e, q) in rw y ok))

      kept : (x : Batch) → d.unmarshal_batch t ≡ some x → Turns t s (place_batch (checked x) x at).1
      kept x e =
          let same = check_batch-SameBut s x in
          let h : (checked x).head_batch ≡ s.head_batch = ground (arith, same) in
          let ready = same-Ready b s (checked x) h r in
          after_check t s (checked x) _ (ground (arith, same), ground (arith, same)) h
            (placed-Turns t (checked x) x at ready (ground (arith, same, due)) e alone)

      by_validity :
          (x : Batch) (w : BatchValidity)
          → d.unmarshal_batch t ≡ some x
          → (check_batch s x).0 ≡ w
          → Turns t s (process_espresso_transaction s t at).1
      by_validity x drop e f = rw (e, f, process_espresso_transaction) (dropped x e (λ q. cc))
      by_validity x past e f = rw (e, f, process_espresso_transaction) (dropped x e (λ q. cc))
      by_validity x accept e f = rw (e, f, process_espresso_transaction) (kept x e)
      by_validity x undecided e f = rw (e, f, process_espresso_transaction) (kept x e)

      by_batch :
          (o : Option Batch)
          → d.unmarshal_batch t ≡ o
          → Turns t s (process_espresso_transaction s t at).1
      by_batch none e =
          rw (e, process_espresso_transaction) (passed_over t s s r (refl, refl) refl (λ q. cc))
      by_batch (some x) e = by_validity x (check_batch s x).0 e refl

  -- One transaction of a block.
  pub transaction-Turns :
      (s : BatchStreamer d) (pos at : ℕ) (t : Bytes)
      → Ready b s
      → b.number ≡ s.next_batch_pos
      → HasNoRival d b t
      → (check_batch s b).0 ≡ accept
      → Turns t s (process_transaction s pos at t)
  unfolding Turns
  transaction-Turns s pos at t r due alone ok =
      let w = processed-Turns s t at r due alone ok in
      let e = process_transaction-skip s pos at t in
      let h : (process_transaction s pos at t).head_batch
          ≡ (process_espresso_transaction s t at).1.head_batch =
        ground (arith, e) in
      let (n, l) = w.alike in
      record {
        alike = (ground (arith, e, n), ground (arith, e, l));
        ready =
            same-Ready b (process_espresso_transaction s t at).1 (process_transaction s pos at t) h
              w.ready;
        stays = λ q. h ∙ w.stays q;
        takes = λ q. h ∙ w.takes q;
      }
