-- ===== src/Op/Streamer/Fetch/Reaches.antt =====
-- A batch in the blocks of a range, and what reading them does to the head.
use espresso_streamers.Base.{◌≡◌, ◌≢◌, ◌⊎◌, inl, inr, none, some, List, [], ◌∷◌, ◌∙◌}
use espresso_streamers.Op.Batch.{Batch}
use espresso_streamers.Op.Streamer.Deps.{Deps, Bytes}
use espresso_streamers.Op.Streamer.State.{BatchStreamer}

module _ (d : Deps) (b : Batch) where
  -- A transaction of the block, or of one of the blocks, is the batch.
  abbrev pub Holds : List Bytes → Type 0
  Holds [] = ⊥
  Holds (t ∷ ts) = (d.unmarshal_batch t ≡ some b) ⊎ Holds ts

  abbrev pub AnyHolds : List (List Bytes) → Type 0
  AnyHolds [] = ⊥
  AnyHolds (ts ∷ bs) = Holds ts ⊎ AnyHolds bs

  -- No other batch of the transaction has the same number.
  abbrev pub HasNoRival : Bytes → Type 0
  HasNoRival t = (x : Batch) → d.unmarshal_batch t ≡ some x → (x ≡ b) ⊎ (x.number ≢ b.number)

module _ {d : Deps} (b : Batch) where
  -- `u` has the position and the finalized block of `s`.
  abbrev pub Alike : BatchStreamer d → BatchStreamer d → Type 0
  Alike s u = (u.next_batch_pos ≡ s.next_batch_pos) × (u.finalized_l1 ≡ s.finalized_l1)

  -- The head is free, or `b`.
  abbrev pub Ready : BatchStreamer d → Type 0
  Ready s = (s.head_batch ≡ none) ⊎ (s.head_batch ≡ some b)

  pub same-Ready : (s u : BatchStreamer d) → u.head_batch ≡ s.head_batch → Ready s → Ready u
  same-Ready s u e (inl h) = inl (e ∙ h)
  same-Ready s u e (inr h) = inr (e ∙ h)

  -- What reading leaves at a head that was free or `b`: one that is free or `b`, and `b` if it was
  -- there or is `held` by what was read.
  pub record Reaches (held : Type 0) (s u : BatchStreamer d) : Type 0 where
    pub alike : Alike s u
    pub ready : Ready u
    pub stays : s.head_batch ≡ some b → u.head_batch ≡ some b
    pub takes : held → u.head_batch ≡ some b

  -- What a block and the rest do, one after the other.
  pub Reaches-trans :
      (first rest : Type 0) (s u w : BatchStreamer d)
      → Reaches first s u
      → Reaches rest u w
      → Reaches (first ⊎ rest) s w
  Reaches-trans first rest s u w p q = record {
    alike = (q.alike.0 ∙ p.alike.0, q.alike.1 ∙ p.alike.1);
    ready = q.ready;
    stays = λ h. q.stays (p.stays h);
    takes = λ h. elim h [ inl x ↦ q.stays (p.takes x) | inr x ↦ q.takes x ];
  }
