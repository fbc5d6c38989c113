-- ===== src/Op/Streamer/Fetch/Keeps.antt =====
-- What reading a block keeps.
use espresso_streamers.Base.{ℕ, ◌≡◌, refl, sym, List, [], ◌∷◌, arith, subst, add64}
use espresso_streamers.Op.Streamer.Deps.{Deps, Bytes}
use espresso_streamers.Op.Streamer.State.{BatchStreamer}
use espresso_streamers.Op.Streamer.Valid.{IsValid}
use espresso_streamers.Op.Streamer.Fetch.{
  process_espresso_transaction, process_transaction, process_block, process_blocks,
}
use espresso_streamers.Op.Streamer.Fetch.Place.{
  KeepsPositions, KeepsPositions-trans, process_espresso_transaction-Placed,
}

module _ {d : Deps} where
  -- A transaction in a block: what `processEspressoTransaction` leaves, and `skipPos` moved down if
  -- the buffer was full.
  pub process_transaction-skip :
      (s : BatchStreamer d) (pos stamp : ℕ) (t : Bytes)
      → process_transaction s pos stamp t ≡ record (process_espresso_transaction s t stamp).1 {
        skip_pos = (process_transaction s pos stamp t).skip_pos;
      }
  unfolding process_transaction
  process_transaction-skip s pos stamp t = ground arith

  pub process_transaction_keeps :
      (s : BatchStreamer d) (pos stamp : ℕ) (t : Bytes)
      → IsValid s
      → IsValid (process_transaction s pos stamp t)
        × KeepsPositions s (process_transaction s pos stamp t)
  process_transaction_keeps s pos stamp t v =
      let p = process_espresso_transaction-Placed s t stamp v in
      let e = process_transaction-skip s pos stamp t in
      (
        subst (λ (u : BatchStreamer d). IsValid u) (sym e)
            (record { buffer = p.valid.buffer; head_due = p.valid.head_due }),
        ground (arith, e, p.kept),
      )

  pub process_block_keeps :
      (s : BatchStreamer d) (pos stamp : ℕ) (ts : List Bytes)
      → IsValid s
      → IsValid (process_block s pos stamp ts) × KeepsPositions s (process_block s pos stamp ts)
  unfolding process_block
  process_block_keeps s pos stamp [] v = (v, refl)
  process_block_keeps s pos stamp (t ∷ ts) v =
      let (w, k) = process_transaction_keeps s pos stamp t v in
      let (x, l) = process_block_keeps (process_transaction s pos stamp t) pos stamp ts w in
      (x, KeepsPositions-trans s _ _ k l)

  pub process_blocks_keeps :
      (s : BatchStreamer d) (pos stamp : ℕ) (bs : List (List Bytes))
      → IsValid s
      → IsValid (process_blocks s pos stamp bs) × KeepsPositions s (process_blocks s pos stamp bs)
  unfolding process_blocks
  process_blocks_keeps s pos stamp [] v = (v, refl)
  process_blocks_keeps s pos stamp (b ∷ bs) v =
      let (w, k) = process_block_keeps s pos stamp b v in
      let (x, l) = process_blocks_keeps (process_block s pos stamp b) (add64 pos 1) stamp bs w in
      (x, KeepsPositions-trans s _ _ k l)
