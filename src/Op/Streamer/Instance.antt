-- ===== src/Op/Streamer/Instance.antt =====
-- `BatchStreamer` implements `EspressoStreamer`, and delivers its batches in order.
use espresso_streamers.Base.{ap, ◌≡◌, none, some, subst, arith, add64}
use espresso_streamers.Op.Batch.{Batch, Hash}
use espresso_streamers.Op.Interface.{EspressoStreamer, Lawful}
use espresso_streamers.Op.Streamer.Deps.{Deps}
use espresso_streamers.Op.Streamer.State.{
  BatchStreamer, reset, get_fallback_hotshot_pos, get_batch_finalization_timestamp,
}
use espresso_streamers.Op.Streamer.Valid.{IsValid}
use espresso_streamers.Op.Streamer.Refresh.{refresh, refresh_safe_l1_origin}
use espresso_streamers.Op.Streamer.Head.{has_next, next, peek, set_proper_head}
use espresso_streamers.Op.Streamer.Head.Next.{NextPost, next_lem}
use espresso_streamers.Op.Streamer.Head.Fork.{set_proper_head_lem, PeekPost, peek_lem}
use espresso_streamers.Op.Streamer.Update.{UpdateError, update}
use espresso_streamers.Op.Streamer.Calls.{Call, other, updates, asks, looks_up}
use espresso_streamers.Op.Streamer.Calls.Order.{call-Moves}

abbrev pub batch_streamer : Deps → EspressoStreamer
batch_streamer d = record {
  State = BatchStreamer d;
  Error = UpdateError;
  update = update;
  refresh = λ s l1 safe origin. (none, refresh s l1 safe origin);
  refresh_safe_l1_origin = refresh_safe_l1_origin;
  reset = reset;
  unmarshal_batch = λ s bytes. d.unmarshal_batch bytes;
  has_next = has_next;
  next = next;
  peek = peek;
  set_proper_head = set_proper_head;
  get_fallback_hotshot_pos = get_fallback_hotshot_pos;
  get_batch_finalization_timestamp = get_batch_finalization_timestamp;
}

module _ (d : Deps) where
  pub delivers_none :
      (s t : BatchStreamer d)
      → IsValid s
      → next s ≡ (none, t)
      → IsValid t × (t.next_batch_pos ≡ s.next_batch_pos)
  delivers_none s t v e = let (w, k) = subst (NextPost s) e (next_lem s v) in (w, ground (arith, k))

  pub delivers_some :
      (s t : BatchStreamer d) (b : Batch)
      → IsValid s
      → next s ≡ (some b, t)
      → IsValid t × (b.number ≡ s.next_batch_pos) × (t.next_batch_pos ≡ add64 s.next_batch_pos 1)
  delivers_some s t b v e = let (w, k) = subst (NextPost s) e (next_lem s v) in (w, k.due, k.moved)

  pub shows_none :
      (s t : BatchStreamer d)
      → IsValid s
      → peek s ≡ (none, t)
      → IsValid t × (t.next_batch_pos ≡ s.next_batch_pos)
  shows_none s t v e = let (w, k) = subst (PeekPost s) e (peek_lem s v) in (w, ground (arith, k))

  pub shows_some :
      (s t : BatchStreamer d) (b : Batch)
      → IsValid s
      → peek s ≡ (some b, t)
      → IsValid t × (b.number ≡ s.next_batch_pos) × (t.next_batch_pos ≡ s.next_batch_pos)
  shows_some s t b v e =
      let (w, k, h, due) = subst (PeekPost s) e (peek_lem s v) in
      (w, ground (arith, k, h, due), ground (arith, k))

  pub keeps_position :
      (s : BatchStreamer d) (parent : Hash)
      → IsValid s
      → IsValid (set_proper_head s parent)
        × ((set_proper_head s parent).next_batch_pos ≡ s.next_batch_pos)
  keeps_position s parent v =
      let (w, h, dr, e, c) = set_proper_head_lem s parent v in (w, ground (arith, e))

  pub call_keeps :
      {s t : BatchStreamer d}
      → Call s other t
      → IsValid s
      → IsValid t × (t.next_batch_pos ≡ s.next_batch_pos)
  call_keeps c v = let (w, m) = call-Moves c v in (w, ap (λ x. x.due) m)

-- The laws of the interface hold of every valid `BatchStreamer`, whatever the clients answer.
abbrev pub batch_streamer-Lawful : (d : Deps) → Lawful (batch_streamer d)
batch_streamer-Lawful d = record {
  Valid = λ s. IsValid s;
  position = λ s. s.next_batch_pos;
  next_none = delivers_none d;
  next_some = delivers_some d;
  peek_none = shows_none d;
  peek_some = shows_some d;
  set_proper_head_keeps = keeps_position d;
  update_keeps = λ fuel s t e v r. call_keeps d (updates fuel e r) v;
  has_next_keeps = λ s v. call_keeps d asks v;
  stamps_keep = λ s hash v. call_keeps d (looks_up hash) v;
}
