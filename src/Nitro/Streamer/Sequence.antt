-- ===== src/Nitro/Streamer/Sequence.antt =====
-- Reading the transactions of a range of HotShot blocks, one after the other.
use espresso_streamers.Base.{
  ℕ, ◌+◌, ◌^◌, ◌<◌, ◌≡◌, inl, inr, refl, Option, some, List, [], ◌∷◌, All, arith, Option-cases,
}
use espresso_streamers.Nitro.Bytes.{Bytes}
use espresso_streamers.Nitro.Codec.{Codec}
use espresso_streamers.Nitro.Streamer.{EspressoClient, NitroStreamer}
use espresso_streamers.Nitro.Streamer.Hotshot.{
  TransactionError, parse_espresso_transaction, parse_transactions, parse_blocks,
}
use espresso_streamers.Nitro.Streamer.Queue.{IsQueue}
use espresso_streamers.Nitro.Streamer.Reading.{
  Kept, Kept-trans, HasBelow, parse_espresso_transaction-Kept, parse_espresso_transaction_returns,
}

module _ {e : EspressoClient} where
  -- What reading a transaction keeps, reading all of them keeps.
  pub parse_transactions_keeps :
      (P : NitroStreamer e → Type 0) (c : Codec) (l1_height : ℕ) (txs : List Bytes)
      (s t : NitroStreamer e)
      → ((u v : NitroStreamer e) (tx : Bytes) (x : Option TransactionError)
          → P u
          → parse_espresso_transaction c u tx l1_height ≡ some (x, v)
          → P v)
      → P s
      → parse_transactions (parse_espresso_transaction c) s l1_height txs ≡ some t
      → P t
  unfolding parse_transactions
  parse_transactions_keeps P c l1_height [] s t keeps p r =
      let same : t ≡ s = ground (arith, r) in rw same p
  parse_transactions_keeps P c l1_height (tx ∷ txs) s t keeps p r =
      elim (Option-cases (parse_espresso_transaction c s tx l1_height)) [
        | inl f ↦ absurd (ground (arith, r, f))
        | inr ((x, u), f) ↦
            parse_transactions_keeps P c l1_height txs u t keeps (keeps s u tx x p f)
              (ground (arith, r, f))
      ]

  pub parse_blocks_keeps :
      (P : NitroStreamer e → Type 0) (c : Codec) (l1_height : ℕ) (blocks : List (List Bytes))
      (s t : NitroStreamer e)
      → ((u v : NitroStreamer e) (tx : Bytes) (x : Option TransactionError)
          → P u
          → parse_espresso_transaction c u tx l1_height ≡ some (x, v)
          → P v)
      → P s
      → parse_blocks (parse_espresso_transaction c) s l1_height blocks ≡ some t
      → P t
  unfolding parse_blocks
  parse_blocks_keeps P c l1_height [] s t keeps p r =
      let same : t ≡ s = ground (arith, r) in rw same p
  parse_blocks_keeps P c l1_height (b ∷ bs) s t keeps p r =
      elim (Option-cases (parse_transactions (parse_espresso_transaction c) s l1_height b)) [
        | inl f ↦ absurd (ground (arith, r, f))
        | inr (u, f) ↦
            parse_blocks_keeps P c l1_height bs u t keeps
              (parse_transactions_keeps P c l1_height b s u keeps p f) (ground (arith, r, f))
      ]

  pub parse_blocks-Kept :
      (c : Codec) (s t : NitroStreamer e) (l1_height : ℕ) (blocks : List (List Bytes))
      → IsQueue s
      → parse_blocks (parse_espresso_transaction c) s l1_height blocks ≡ some t
      → Kept s t
  parse_blocks-Kept c s t l1_height blocks q r =
      parse_blocks_keeps (Kept s) c l1_height blocks s t
        (λ u v tx x k f.
          Kept-trans s u v k (parse_espresso_transaction-Kept c u v tx l1_height x k.queue f))
        (record { queue = q; next = refl; position = refl }) r

  -- With positions below the end of the uint64 range all transactions are read to the end.
  parse_transactions_returns :
      (c : Codec) (s : NitroStreamer e) (l1_height : ℕ) (txs : List Bytes)
      → s.highest_pos + 1 < 2 ^ 64
      → All (HasBelow c) txs
      → (t : NitroStreamer e) × (parse_transactions (parse_espresso_transaction c) s l1_height txs
          ≡ some t)
        × (t.highest_pos + 1 < 2 ^ 64)
  unfolding parse_transactions
  parse_transactions_returns c s l1_height [] high h = (s, refl, high)
  parse_transactions_returns c s l1_height (tx ∷ txs) high (p, h) =
      let (x, u, f, high') = parse_espresso_transaction_returns c s tx l1_height high p in
      let (t, r, top) = parse_transactions_returns c u l1_height txs high' h in
      (t, ground (arith, f, r), top)

  pub parse_blocks_returns :
      (c : Codec) (s : NitroStreamer e) (l1_height : ℕ) (blocks : List (List Bytes))
      → s.highest_pos + 1 < 2 ^ 64
      → All (All (HasBelow c)) blocks
      → (t : NitroStreamer e) × (parse_blocks (parse_espresso_transaction c) s l1_height blocks
          ≡ some t)
        × (t.highest_pos + 1 < 2 ^ 64)
  unfolding parse_blocks
  parse_blocks_returns c s l1_height [] high h = (s, refl, high)
  parse_blocks_returns c s l1_height (b ∷ bs) high (p, h) =
      let (u, f, high') = parse_transactions_returns c s l1_height b high p in
      let (t, r, top) = parse_blocks_returns c u l1_height bs high' h in
      (t, ground (arith, f, r), top)
