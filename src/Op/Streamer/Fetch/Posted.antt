-- ===== src/Op/Streamer/Fetch/Posted.antt =====
-- A batch that was posted and is due comes out.
use espresso_streamers.Base.{
  ℕ, ◌≤◌, ◌≡◌, ◌≢◌, inl, false, subst, refl, none, some, List, [], ◌∷◌, All, arith, add64, sym, ◌∙◌,
}
use espresso_streamers.Op.Batch.{Batch, accept}
use espresso_streamers.Op.Streamer.Deps.{Deps, Bytes, L1State}
use espresso_streamers.Op.Streamer.State.{BatchStreamer}
use espresso_streamers.Op.Streamer.Check.{is_unset, check_batch}
use espresso_streamers.Op.Streamer.Check.Frame.{check_batch-SameBut}
use espresso_streamers.Op.Streamer.Head.{check_head, has_next_round, has_next_loop, has_next, next}
use espresso_streamers.Op.Streamer.Fetch.{
  process_transaction, process_block, process_blocks, fetch_hot_shot_range,
}
use espresso_streamers.Op.Streamer.Fetch.Reaches.{
  Holds, AnyHolds, HasNoRival, Alike, Ready, Reaches, Reaches-trans,
}
use espresso_streamers.Op.Streamer.Check.Later.{same}
use espresso_streamers.Op.Streamer.Check.Vetted.{Lru, HasSound}
use espresso_streamers.Op.Streamer.Fetch.Final.{IsFinal, final_state, settled, check_batch-final}
use espresso_streamers.Op.Streamer.Fetch.Sound.{
  process_transaction-HasSound, process_block-HasSound, process_blocks-HasSound,
}
use espresso_streamers.Op.Streamer.Fetch.Turns.{Turns, transaction-Turns}
use espresso_streamers.Op.Streamer.Fetch.Range.{answer, scanning, stamp, fetch-blocks}

module _ {d : Deps} (lru : Lru d) (b : Batch) (final : IsFinal d b) where
  -- The batch is due and its L1 origin is not after the finalized block, which is known.
  record IsDue (s : BatchStreamer d) : Type 0 where
    due : b.number ≡ s.next_batch_pos
    finalized_known : is_unset s.finalized_l1 ≡ false
    finalized : b.l1_origin.number ≤ s.finalized_l1.number

  still-IsDue : (s u : BatchStreamer d) → Alike b s u → IsDue s → IsDue u
  still-IsDue s u (n, l) w = record {
    due = w.due ∙ sym n;
    finalized_known = rw l w.finalized_known;
    finalized = rw l w.finalized;
  }

  module _ (first : d.Client) where
    accepted :
        (s : BatchStreamer d)
        → HasSound (settled lru b final first) s
        → IsDue s
        → (check_batch s b).0 ≡ accept
    accepted s v w = check_batch-final lru b final s first v w.due w.finalized_known w.finalized

    block-Reaches :
        (s : BatchStreamer d) (pos at_time : ℕ) (ts : List Bytes)
        → Ready b s
        → HasSound (settled lru b final first) s
        → IsDue s
        → All (HasNoRival d b) ts
        → Reaches b (Holds d b ts) s (process_block s pos at_time ts)
    unfolding process_block Turns
    block-Reaches s pos at_time [] r v w alone = record {
      alike = (refl, refl);
      ready = r;
      stays = λ h. h;
      takes = λ h. absurd h;
    }
    block-Reaches s pos at_time (t ∷ ts) r v w alone =
        let u = process_transaction s pos at_time t in
        let p = transaction-Turns b s pos at_time t r w.due alone.0 (accepted s v w) in
        let sound = process_transaction-HasSound (settled lru b final first) s pos at_time t v in
        Reaches-trans b _ _ s u _ p
          (block-Reaches u pos at_time ts p.ready sound (still-IsDue s u p.alike w) alone.1)

    blocks-Reaches :
        (s : BatchStreamer d) (pos at_time : ℕ) (bs : List (List Bytes))
        → Ready b s
        → HasSound (settled lru b final first) s
        → IsDue s
        → All (All (HasNoRival d b)) bs
        → Reaches b (AnyHolds d b bs) s (process_blocks s pos at_time bs)
    unfolding process_blocks
    blocks-Reaches s pos at_time [] r v w alone = record {
      alike = (refl, refl);
      ready = r;
      stays = λ h. h;
      takes = λ h. absurd h;
    }
    blocks-Reaches s pos at_time (ts ∷ bs) r v w alone =
        let u = process_block s pos at_time ts in
        let p = block-Reaches s pos at_time ts r v w alone.0 in
        let sound = process_block-HasSound (settled lru b final first) s pos at_time ts v in
        Reaches-trans b _ _ s u _ p (
          blocks-Reaches u (add64 pos 1) at_time bs p.ready sound (still-IsDue s u p.alike w)
            alone.1)

  -- A head that `CheckBatch` accepts is returned.
  next_of_head :
      (s : BatchStreamer d)
      → s.head_batch ≡ some b
      → (check_batch s b).0 ≡ accept
      → (next s).0 ≡ some b
  unfolding next has_next has_next_loop has_next_round check_head
  next_of_head s h ok = let e = check_batch-SameBut s b in ground (arith, h, ok, e)

  -- Let the L1 client and the contract answer for the L1 origin of the batch `b`, whenever they are
  -- asked, with the hash that it names and its signer, and let the cache be an LRU cache that holds,
  -- if anything, the same for this block. Let the number of `b` be due, the head be free, and the
  -- finalized L1 block be known and not before the origin. When the client answers the request for a
  -- range with blocks one of which holds `b`, and no other batch in them has its number, then after
  -- the range has been read, `Next` returns `b`.
  pub posted_is_delivered :
      (s : BatchStreamer d) (start finish : ℕ) (bs : List (List Bytes))
      → ((st : L1State)
          → lru.Holds s.finalized_l1_state_cache b.l1_origin.number st
          → st ≡ final_state b)
      → b.number ≡ s.next_batch_pos
      → is_unset s.finalized_l1 ≡ false
      → b.l1_origin.number ≤ s.finalized_l1.number
      → s.head_batch ≡ none
      → finish ≢ 0
      → (answer s start finish).0 ≡ some bs
      → AnyHolds d b bs
      → All (All (HasNoRival d b)) bs
      → (next (fetch_hot_shot_range s start finish).1).0 ≡ some b
  posted_is_delivered s start finish [] cached due set le h nz a held alone = absurd held
  posted_is_delivered s start finish (ts ∷ bs) cached due set le h nz a held alone =
      let u = scanning s start finish in
      let t = process_blocks u start (stamp s start finish) (ts ∷ bs) in
      let v : HasSound (settled lru b final u.client) u = record {
        reached = same;
        sound = λ n st k e. cached st (subst (λ m. lru.Holds s.finalized_l1_state_cache m st) e k);
      } in
      let w : IsDue u = record { due = due; finalized_known = set; finalized = le } in
      let p = blocks-Reaches u.client u start (stamp s start finish) (ts ∷ bs) (inl h) v w alone in
      let sound =
        process_blocks-HasSound (settled lru b final u.client) u start (stamp s start finish)
          (ts ∷ bs) v in
      rw (fetch-blocks s start finish ts bs nz a)
        (next_of_head t (p.takes held) (accepted u.client t sound (still-IsDue u t p.alike w)))
