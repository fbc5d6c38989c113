-- ===== src/Op/Streamer/Calls/Order.antt =====
-- In which order the batches come out, whatever calls are made.
use espresso_streamers.Base.{Bool, ok, ℕ, ◌≡◌, refl, sym, subst, Option, none, some, List, arith}
use espresso_streamers.Op.Batch.{Address, Batch, Hash}
use espresso_streamers.Op.Streamer.Deps.{Deps}
use espresso_streamers.Op.Streamer.State.{
  BatchStreamer, batch_buffer_capacity, new_espresso_streamer, get_batch_finalization_timestamp,
}
use espresso_streamers.Op.Buffer
use espresso_streamers.Op.Buffer.Ends.{new-IsValid}
use espresso_streamers.Op.Streamer.Valid.{IsValid}
use espresso_streamers.Op.Streamer.Refresh.Positions.{reset-IsValid}
use espresso_streamers.Op.Streamer.Head.{next, peek}
use espresso_streamers.Op.Streamer.Head.Rounds.{has_next-Answer}
use espresso_streamers.Op.Streamer.Head.Next.{NextPost, next_lem}
use espresso_streamers.Op.Streamer.Head.Fork.{set_proper_head_lem, PeekPost, peek_lem}
use espresso_streamers.Op.Streamer.Update.Keeps.{Scans, update-Scans}
use espresso_streamers.Op.Streamer.Calls.Cursor.{
  Cursor, restarted, Moves, Follows, cursor, reset-Moves, origin-Moves, refresh-Moves,
}
use espresso_streamers.Op.Streamer.Calls.{
  Event, event_of, Call, updates, refreshes, refreshes_origin, resets, asks, shows, reads,
  sets_head, looks_up, Session, done, call,
}

module _ {d : Deps} where
  peek-Moves :
      (s : BatchStreamer d) (r : Option Batch × BatchStreamer d)
      → PeekPost s r
      → IsValid r.1 × (cursor r.1 ≡ cursor s)
  peek-Moves s (none, t) (v, k) = (v, ground (arith, k))
  peek-Moves s (some b, t) (v, k, h, due) = (v, ground (arith, k))

  stamps-same :
      (s : BatchStreamer d) (hash : Hash)
      → let t = (get_batch_finalization_timestamp s hash).1 in
        t ≡ record s { batch_timestamps = t.batch_timestamps }
  unfolding get_batch_finalization_timestamp
  stamps-same s hash = ground arith

  next-Moves :
      (s : BatchStreamer d) (r : Option Batch × BatchStreamer d)
      → NextPost s r
      → IsValid r.1 × Moves (cursor s) (event_of r.0) (cursor r.1)
  next-Moves s (none, t) (v, k) = (v, ground (arith, k))
  next-Moves s (some b, t) (v, k) =
      let rest = k.rest in let moved = k.moved in (v, (k.due, ground (arith, rest, moved)))

  pub call-Moves :
      {s t : BatchStreamer d} {e : Event}
      → Call s e t
      → IsValid s
      → IsValid t × Moves (cursor s) e (cursor t)
  call-Moves {s = s} (updates fuel e r) v =
      let (w, k) = subst (Scans s) r (update-Scans fuel s v) in (w, ground (arith, k))
  call-Moves {s = s} (refreshes l1 safe origin) v = refresh-Moves s l1 safe origin v
  call-Moves {s = s} (refreshes_origin origin) v = origin-Moves s origin v
  call-Moves {s = s} resets v = (reset-IsValid s, reset-Moves s)
  call-Moves {s = s} asks v =
      let a = has_next-Answer s v in let k = a.kept in (a.valid, ground (arith, k))
  call-Moves {s = s} shows v = peek-Moves s (peek s) (peek_lem s v)
  call-Moves {s = s} reads v = next-Moves s (next s) (next_lem s v)
  call-Moves {s = s} (sets_head parent) v =
      let (w, h, dr, e, c) = set_proper_head_lem s parent v in (w, ground (arith, e))
  call-Moves {s = s} (looks_up hash) v =
      let same = stamps-same s hash in
      (
        subst (λ (u : BatchStreamer d). IsValid u) (sym same)
            (record { buffer = v.buffer; head_due = v.head_due }),
        ground (arith, same),
      )

  session-Follows :
      {s t : BatchStreamer d} {es : List Event}
      → Session s es t
      → IsValid s
      → IsValid t × Follows (cursor s) es (cursor t)
  session-Follows done v = (v, refl)
  session-Follows (call {t = t} c rest) v =
      let (w, m) = call-Moves c v in let (x, f) = session-Follows rest w in (x, (cursor t, m, f))

  new-Starts :
      (namespace : ℕ) (client : d.Client) (hot_shot batch : ℕ) (address : Address) (track : Bool)
      (s : BatchStreamer d)
      → new_espresso_streamer d namespace client hot_shot batch address track ≡ ok s
      → IsValid s × (cursor s ≡ restarted batch)
  unfolding new_espresso_streamer
  new-Starts namespace client hot_shot batch address track s e =
      let empty : s.batch_buffer ≡ Buffer.new batch_buffer_capacity = ground (arith, e) in
      let head : s.head_batch ≡ none = ground (arith, e) in
      (
        record { buffer = rw empty (new-IsValid batch_buffer_capacity); head_due = rw head tt },
        ground (arith, e),
      )

  -- Whatever methods are called on a streamer of `NewEspressoStreamer`, in whatever order, and
  -- whatever the clients answer: the streamer is valid, and the batches that `Next` returns are those
  -- that a cursor over the batch numbers allows. It starts after the batch origin; `Next` hands out
  -- the number that is due and moves on by one; a reset goes back behind the safe batch; `Refresh`
  -- with a safe batch goes behind that one, or stays where it is, but this only if the safe batch has
  -- not moved, or has moved on and is still behind the number that is due; being told an origin
  -- resets or changes nothing; no other call moves it.
  pub delivers_in_order :
      (namespace : ℕ) (client : d.Client) (hot_shot batch : ℕ) (address : Address) (track : Bool)
      {s t : BatchStreamer d} {es : List Event}
      → new_espresso_streamer d namespace client hot_shot batch address track ≡ ok s
      → Session s es t
      → IsValid t × Follows (restarted batch) es (cursor t)
  delivers_in_order namespace client hot_shot batch address track {s = s} {t = t} {es = es} e
        calls =
      let (v, start) = new-Starts namespace client hot_shot batch address track s e in
      let (w, f) = session-Follows calls v in
      (w, subst (λ (c : Cursor). Follows c es (cursor t)) start f)
