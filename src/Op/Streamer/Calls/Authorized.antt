-- ===== src/Op/Streamer/Calls/Authorized.antt =====
-- Who has signed the batches that come out, whatever calls are made.
use espresso_streamers.Base.{
  ℕ, zero, suc, ◌-◌, ◌≡◌, inl, inr, refl, subst, Bool, true, false, Option, none, some, List, [],
  ◌∷◌, arith, ltb, ◌==◌, max_uint64, Bool-cases, Option-cases, ok,
}
use espresso_streamers.Op.Batch.{Batch, BlockId, Address, Hash}
use espresso_streamers.Op.Streamer.Deps.{Deps}
use espresso_streamers.Op.Streamer.State.{
  BatchStreamer, L1BlockRef, new_espresso_streamer, reset, get_batch_finalization_timestamp,
}
use espresso_streamers.Op.Streamer.Check.Later.{
  Later, same, asked_height, asked_batcher, asked_state,
}
use espresso_streamers.Op.Streamer.Check.Vetted.{
  Lru, Vetting, IsSound, HasSound, IsVetted, later-IsSound,
}
use espresso_streamers.Op.Streamer.Check.Vouched.{Vouched, later-Vouched, answered, vetted-Vouched}
use espresso_streamers.Op.Streamer.Refresh.{
  confirm_espresso_block_height, refresh_safe_l1_origin, fetch_espresso_batcher, refresh_batch_pos,
  refresh,
}
use espresso_streamers.Op.Streamer.Head.{has_next, next, set_proper_head}
use espresso_streamers.Op.Streamer.Head.Yields.{
  VettedIfAny, has_next-HasSound, peek-HasSound, next-IsVetted,
}
use espresso_streamers.Op.Streamer.Fetch.{FetchError}
use espresso_streamers.Op.Streamer.Fetch.Sound.{fetch_hot_shot_range-HasSound}
use espresso_streamers.Op.Streamer.Update.{UpdateError, update_loop, update}
use espresso_streamers.Op.Streamer.Update.Ends.{
  stops, first_block, last_block, fetched, loop_stops, loop_goes, round_result,
}
use espresso_streamers.Op.Streamer.Calls.{
  Event, delivered, refreshed, reset_by_caller, origin_refreshed, other, event_of, Call, updates,
  refreshes, refreshes_origin, resets, asks, shows, reads, sets_head, looks_up, Session, done, call,
}

-- Of every batch that was handed out the clients have answered for the origin and the signer, on the
-- way from their first state to their last.
abbrev pub AllAuthorized : (d : Deps) → d.Client → d.Client → List Event → Type 0
AllAuthorized d first last [] = Unit {0}
AllAuthorized d first last (delivered b ∷ es) =
    Vouched d first last b.l1_origin.number b.l1_origin.hash b.signer
    × AllAuthorized d first last es
AllAuthorized d first last (refreshed safe ∷ es) = AllAuthorized d first last es
AllAuthorized d first last (reset_by_caller ∷ es) = AllAuthorized d first last es
AllAuthorized d first last (origin_refreshed ∷ es) = AllAuthorized d first last es
AllAuthorized d first last (other ∷ es) = AllAuthorized d first last es

module _ {d : Deps} where
  fetch_espresso_batcher-client :
      (s : BatchStreamer d) (l1 : L1BlockRef)
      → ((fetch_espresso_batcher s l1).client ≡ (d.espresso_batcher s.client l1.number).1)
        × ((fetch_espresso_batcher s l1).finalized_l1_state_cache ≡ s.finalized_l1_state_cache)
  unfolding fetch_espresso_batcher
  fetch_espresso_batcher-client s l1 = (ground arith, ground arith)

  refresh_safe_l1_origin-client :
      (s : BatchStreamer d) (o : BlockId)
      → ((refresh_safe_l1_origin s o).client ≡ (d.finalized_state s.client o.number).1)
        × ((refresh_safe_l1_origin s o).finalized_l1_state_cache ≡ s.finalized_l1_state_cache)
  unfolding refresh_safe_l1_origin confirm_espresso_block_height reset
  refresh_safe_l1_origin-client s o = (ground arith, ground arith)

  refresh_batch_pos-client :
      (s : BatchStreamer d) (safe : ℕ)
      → ((refresh_batch_pos s safe).client ≡ s.client)
        × ((refresh_batch_pos s safe).finalized_l1_state_cache ≡ s.finalized_l1_state_cache)
  unfolding refresh_batch_pos reset
  refresh_batch_pos-client s safe = (ground arith, ground arith)

  reset-client :
      (s : BatchStreamer d)
      → ((reset s).client ≡ s.client)
        × ((reset s).finalized_l1_state_cache ≡ s.finalized_l1_state_cache)
  unfolding reset
  reset-client s = (refl, refl)

  set_proper_head-client :
      (s : BatchStreamer d) (parent : Hash)
      → ((set_proper_head s parent).client ≡ s.client)
        × ((set_proper_head s parent).finalized_l1_state_cache ≡ s.finalized_l1_state_cache)
  unfolding set_proper_head
  set_proper_head-client s parent = (ground arith, ground arith)

  stamps-client :
      (s : BatchStreamer d) (hash : Hash)
      → ((get_batch_finalization_timestamp s hash).1.client ≡ s.client)
        × ((get_batch_finalization_timestamp s hash).1.finalized_l1_state_cache
            ≡ s.finalized_l1_state_cache)
  unfolding get_batch_finalization_timestamp
  stamps-client s hash = (ground arith, ground arith)

  new-cache :
      (namespace : ℕ) (client : d.Client) (hot_shot batch : ℕ) (address : Address) (track : Bool)
      (s : BatchStreamer d)
      → new_espresso_streamer d namespace client hot_shot batch address track ≡ ok s
      → s.finalized_l1_state_cache ≡ d.cache_new 1000
  unfolding new_espresso_streamer
  new-cache namespace client hot_shot batch address track s e = ground (arith, e)

module _ {d : Deps} (vet : Vetting d) where
  abbrev LeavesSound : Option (Option UpdateError × BatchStreamer d) → Type 0
  LeavesSound none = Unit {0}
  LeavesSound (some r) = HasSound vet r.1

  round-LeavesSound :
      (t : BatchStreamer d) (e : Option FetchError) (x : Bool × BatchStreamer d)
      (rest : Option (Option UpdateError × BatchStreamer d))
      → HasSound vet t
      → HasSound vet x.1
      → LeavesSound rest
      → LeavesSound (round_result e t x rest)
  round-LeavesSound t (some e) (found, u) rest v w r = v
  round-LeavesSound t none (true, u) rest v w r = w
  round-LeavesSound t none (false, u) rest v w r = r

  update_loop-LeavesSound :
      (fuel : ℕ) (again : Bool) (height : ℕ) (s : BatchStreamer d)
      → HasSound vet s
      → LeavesSound (update_loop fuel again height s)
  unfolding update_loop
  update_loop-LeavesSound zero again height s v = tt
  update_loop-LeavesSound (suc fuel) again height s v = elim (Bool-cases (stops again height s)) [
    | inl stop ↦ rw (loop_stops fuel again height s stop) v
    | inr go ↦
        let t = (fetched height s).1 in
        let w =
          fetch_hot_shot_range-HasSound vet s (first_block height s) (last_block height s) v in
        let x = has_next-HasSound vet t w in
        rw (loop_goes fuel again height s go) (
          round-LeavesSound t (fetched height s).0 (has_next t) _ w x
            (update_loop-LeavesSound fuel true height (has_next t).1 x))
  ]

  update-LeavesSound :
      (fuel : ℕ) (s : BatchStreamer d) → HasSound vet s → LeavesSound (update fuel s)
  unfolding update
  update-LeavesSound fuel s v =
      let k = (d.fetch_latest_block_height s.client).1 in
      let w : HasSound vet (record s { client = k }) =
        later-IsSound vet s.client k s.finalized_l1_state_cache (asked_height same) v in
      elim (Option-cases (d.fetch_latest_block_height s.client).0) [
        | inl e ↦ rw (e, update) w
        | inr (latest, e) ↦ elim (Bool-cases (latest == max_uint64)) [
          | inl top ↦ rw (e, top, update) w
          | inr fits ↦ elim (Bool-cases (ltb latest 2)) [
            | inl low ↦ rw (e, fits, low, update) w
            | inr deep ↦
                rw (e, fits, deep, update) (update_loop-LeavesSound fuel false (latest - 2) _ w)
          ]
        ]
      ]

  moved :
      (u : BatchStreamer d) (k : d.Client) (c : d.Cache)
      → (u.client ≡ k) × (u.finalized_l1_state_cache ≡ c)
      → IsSound vet k c
      → HasSound vet u
  moved u k c (e, f) v = rw (e, f) v

  origin-HasSound :
      (s : BatchStreamer d) (o : BlockId)
      → HasSound vet s
      → HasSound vet (refresh_safe_l1_origin s o)
  origin-HasSound s o v =
      moved (refresh_safe_l1_origin s o) _ _ (refresh_safe_l1_origin-client s o)
        (later-IsSound vet s.client _ s.finalized_l1_state_cache (asked_state o.number same) v)

  refresh-HasSound :
      (s : BatchStreamer d) (l1 : L1BlockRef) (safe : ℕ) (o : BlockId)
      → HasSound vet s
      → HasSound vet (refresh s l1 safe o)
  unfolding refresh
  refresh-HasSound s l1 safe o v =
      let t = fetch_espresso_batcher s l1 in
      let w : HasSound vet t = moved t _ _ (fetch_espresso_batcher-client s l1) (
        later-IsSound vet s.client _ s.finalized_l1_state_cache (asked_batcher l1.number same) v) in
      moved (refresh_batch_pos (refresh_safe_l1_origin t o) safe) _ _
        (refresh_batch_pos-client (refresh_safe_l1_origin t o) safe) (origin-HasSound t o w)

  -- A call keeps what is known, and a batch that it hands out is vetted.
  abbrev EventVetted : d.Client → Event → Type 0
  EventVetted k (delivered b) = IsVetted vet k b
  EventVetted k (refreshed safe) = Unit {0}
  EventVetted k reset_by_caller = Unit {0}
  EventVetted k origin_refreshed = Unit {0}
  EventVetted k other = Unit {0}

  EventVetted-event_of :
      (k : d.Client) (o : Option Batch) → VettedIfAny vet k o → EventVetted k (event_of o)
  EventVetted-event_of k none a = tt
  EventVetted-event_of k (some b) a = a

  call-IsVetted :
      {s t : BatchStreamer d} {e : Event}
      → Call s e t
      → HasSound vet s
      → HasSound vet t × EventVetted t.client e
  call-IsVetted {s = s} (updates fuel e r) v =
      (subst LeavesSound r (update-LeavesSound fuel s v), tt)
  call-IsVetted {s = s} (refreshes l1 safe origin) v = (refresh-HasSound s l1 safe origin v, tt)
  call-IsVetted {s = s} (refreshes_origin origin) v = (origin-HasSound s origin v, tt)
  call-IsVetted {s = s} resets v = (moved (reset s) _ _ (reset-client s) v, tt)
  call-IsVetted {s = s} asks v = (has_next-HasSound vet s v, tt)
  call-IsVetted {s = s} shows v = (peek-HasSound vet s v, tt)
  call-IsVetted {s = s} reads v =
      let (w, y) = next-IsVetted vet s v in (w, EventVetted-event_of (next s).1.client (next s).0 y)
  call-IsVetted {s = s} (sets_head parent) v =
      (moved (set_proper_head s parent) _ _ (set_proper_head-client s parent) v, tt)
  call-IsVetted {s = s} (looks_up hash) v =
      (moved (get_batch_finalization_timestamp s hash).1 _ _ (stamps-client s hash) v, tt)

  session-HasSound :
      {s t : BatchStreamer d} {es : List Event} → Session s es t → HasSound vet s → HasSound vet t
  session-HasSound done v = v
  session-HasSound (call c rest) v = session-HasSound rest (call-IsVetted c v).0

module _ {d : Deps} (lru : Lru d) (first : d.Client) where
  -- A fact that says nothing, to follow the clients through the calls.
  abbrev nothing_known : d.Client → Vetting d
  nothing_known k = record {
    lru = lru;
    first = k;
    Fact = λ l n st. Unit {0};
    later_fact = λ l m n st x f. tt;
    fresh_fact = λ s o st x miss e. tt;
  }

  session-Later :
      {s t : BatchStreamer d} {es : List Event} → Session s es t → Later d s.client t.client
  session-Later {s = s} calls =
      (session-HasSound (nothing_known s.client) calls
        (record { reached = same; sound = λ n st h. tt })).reached

  AllAuthorized-cons :
      (k last : d.Client) (e : Event) (es : List Event)
      → Later d k last
      → EventVetted (answered first lru) k e
      → AllAuthorized d first last es
      → AllAuthorized d first last (e ∷ es)
  AllAuthorized-cons k last (delivered b) es x v a = (
    later-Vouched first k last b.l1_origin.number b.l1_origin.hash b.signer x
        (vetted-Vouched first lru k b v),
    a,
  )
  AllAuthorized-cons k last (refreshed safe) es x v a = a
  AllAuthorized-cons k last reset_by_caller es x v a = a
  AllAuthorized-cons k last origin_refreshed es x v a = a
  AllAuthorized-cons k last other es x v a = a

  session-AllAuthorized :
      {s t : BatchStreamer d} {es : List Event}
      → Session s es t
      → HasSound (answered first lru) s
      → AllAuthorized d first t.client es
  session-AllAuthorized done v = tt
  session-AllAuthorized {t = u} (call {t = t} {e = e} {es = es} c rest) v =
      let (w, y) = call-IsVetted (answered first lru) c v in
      AllAuthorized-cons t.client u.client e es (session-Later rest) y
        (session-AllAuthorized rest w)

module _ {d : Deps} (lru : Lru d) where
  -- Whatever methods are called on a streamer of `NewEspressoStreamer`, in whatever order, whatever
  -- the clients answer and whoever posted the transactions: with an LRU cache that holds nothing but
  -- what was added to it, for every batch that `Next` has returned there are, on a way of calls from
  -- the state of the clients at its construction to the one at the end, a call that the L1 client has
  -- answered with the hash of the batch's L1 origin for the number of that block, and on such a way a
  -- call that the contract has answered with the batch's signer for the batcher at that block, who is
  -- not the zero address.
  pub delivered_are_authorized :
      (namespace : ℕ) (client : d.Client) (hot_shot batch : ℕ) (address : Address) (track : Bool)
      {s t : BatchStreamer d} {es : List Event}
      → new_espresso_streamer d namespace client hot_shot batch address track ≡ ok s
      → Session s es t
      → AllAuthorized d s.client t.client es
  delivered_are_authorized namespace client hot_shot batch address track {s = s} e calls =
      session-AllAuthorized lru s.client calls (
        rw (new-cache namespace client hot_shot batch address track s e)
          (record { reached = same; sound = λ n st h. absurd (lru.new_holds 1000 n st h) }))
