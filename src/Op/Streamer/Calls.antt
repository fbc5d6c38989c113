-- ===== src/Op/Streamer/Calls.antt =====
-- Calls of the methods of `BatchStreamer`, one after the other.
pub mod Cursor
pub mod Order
pub mod Authorized
mod Tests
mod PostedTests
use espresso_streamers.Base.{ℕ, ◌≡◌, Option, none, some, List, [], ◌∷◌}
use espresso_streamers.Op.Batch.{Batch, BlockId, Hash}
use espresso_streamers.Op.Streamer.Deps.{Deps}
use espresso_streamers.Op.Streamer.State.{
  BatchStreamer, L1BlockRef, reset, get_batch_finalization_timestamp,
}
use espresso_streamers.Op.Streamer.Refresh.{refresh, refresh_safe_l1_origin}
use espresso_streamers.Op.Streamer.Head.{has_next, next, peek, set_proper_head}
use espresso_streamers.Op.Streamer.Update.{UpdateError, update}

-- What the caller sees of a call: `Next` returned a batch, `Refresh` was called with a safe batch,
-- the streamer was reset, or was told an origin at which it may reset itself.
pub data Event : Type 0 where
  delivered : Batch → Event
  refreshed : ℕ → Event
  reset_by_caller : Event
  origin_refreshed : Event
  other : Event

abbrev pub event_of : Option Batch → Event
event_of none = other
event_of (some b) = delivered b

-- A method of the interface was called and returned.
pub data Call {d : Deps} : BatchStreamer d → Event → BatchStreamer d → Type 0 where
  updates :
      {s t : BatchStreamer d} (fuel : ℕ) (e : Option UpdateError)
      → update fuel s ≡ some (e, t)
      → Call s other t
  refreshes :
      {s : BatchStreamer d} (l1 : L1BlockRef) (safe : ℕ) (origin : BlockId)
      → Call s (refreshed safe) (refresh s l1 safe origin)
  refreshes_origin :
      {s : BatchStreamer d} (origin : BlockId)
      → Call s origin_refreshed (refresh_safe_l1_origin s origin)
  resets : {s : BatchStreamer d} → Call s reset_by_caller (reset s)
  asks : {s : BatchStreamer d} → Call s other (has_next s).1
  shows : {s : BatchStreamer d} → Call s other (peek s).1
  reads : {s : BatchStreamer d} → Call s (event_of (next s).0) (next s).1
  sets_head : {s : BatchStreamer d} (parent : Hash) → Call s other (set_proper_head s parent)
  looks_up :
      {s : BatchStreamer d} (hash : Hash) → Call s other (get_batch_finalization_timestamp s hash).1

pub data Session {d : Deps} : BatchStreamer d → List Event → BatchStreamer d → Type 0 where
  done : {s : BatchStreamer d} → Session s [] s
  call :
      {s t u : BatchStreamer d} {e : Event} {es : List Event}
      → Call s e t
      → Session t es u
      → Session s (e ∷ es) u
