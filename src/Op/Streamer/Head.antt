-- ===== src/Op/Streamer/Head.antt =====
-- `HasNext`, `Peek`, `Next` and `SetProperHead`.
pub mod Rounds
pub mod After
pub mod Next
pub mod Fork
pub mod Yields
use espresso_streamers.Base.{
  ℕ, zero, suc, ◌+◌, Bool, true, false, not, Option, none, some, List, [], ◌∷◌, ltb, ◌==◌,
  if◌then◌else◌, is_some, length, add64, max_uint64,
}
use espresso_streamers.Op.Batch.{Batch, BatchValidity, drop, accept, undecided, past, Hash}
use espresso_streamers.Op.Buffer
use espresso_streamers.Op.Buffer.{BatchBuffer}
use espresso_streamers.Op.Streamer.Deps.{Deps}
use espresso_streamers.Op.Streamer.State.{BatchStreamer}
use espresso_streamers.Op.Streamer.Check.{check_batch}

-- How one round of the loop of `HasNext` goes on: it returns, or it goes round again.
pub data Round (d : Deps) : Type 0 where
  return : Bool → BatchStreamer d → Round d
  continue : BatchStreamer d → Round d

-- The loop of `SetProperHead` on the batches of the buffer: pop while the first one has the
-- number that is due and another parent.
unfoldable pub drop_forks : ℕ → Hash → List Batch → List Batch
drop_forks pos parent [] = []
drop_forks pos parent (x ∷ xs) =
    if not (x.number == pos)
    then x ∷ xs
    else if not (x.header.parent_hash == parent)
    then drop_forks pos parent xs
    else x ∷ xs

module _ {d : Deps} where
  -- The second half of a round: the batch at the head is checked.
  unfoldable pub check_head : BatchStreamer d → Batch → Round d
  check_head s head =
      let (validity, s') = check_batch s head in
      elim validity [
        | accept ↦ return true s'
        | undecided ↦ return false s'
        | drop ↦ continue (record s' { head_batch = none })
        | past ↦ continue (record s' { head_batch = none })
      ]

  -- The first half: with no head the first batch of the buffer is looked at.
  unfoldable pub has_next_round : BatchStreamer d → Round d
  unfolding Buffer.peek Buffer.pop
  has_next_round s = elim s.head_batch [
    | some head ↦ check_head s head
    | none ↦ elim (Buffer.peek s.batch_buffer) [
      | none ↦ return false s
      | some next ↦
          let rest = (Buffer.pop s.batch_buffer).1 in
          if ltb next.number s.next_batch_pos
          then continue (record s { batch_buffer = rest })
          else if not (next.number == s.next_batch_pos)
          then return false s
          else check_head (record s { head_batch = some next; batch_buffer = rest }) next
    ]
  ]

  -- The loop on fuel; `none` is that the fuel ran out.
  unfoldable pub has_next_loop : ℕ → BatchStreamer d → Option (Bool × BatchStreamer d)
  has_next_loop zero s = none
  has_next_loop (suc fuel) s = elim (has_next_round s) [
    | return found s' ↦ some (found, s')
    | continue s' ↦ has_next_loop fuel s'
  ]

  -- Each round that goes round again takes a batch from the buffer, or the one at the head.
  unfoldable pub has_next_measure : BatchStreamer d → ℕ
  has_next_measure s = length s.batch_buffer.batches + (if is_some s.head_batch then 1 else 0)

  unfoldable pub has_next : BatchStreamer d → Bool × BatchStreamer d
  unfolding has_next_loop has_next_measure
  has_next s = elim (has_next_loop (suc (has_next_measure s)) s) [
    | none ↦ (false, s)
    | some result ↦ result
  ]

  unfoldable pub peek : BatchStreamer d → Option Batch × BatchStreamer d
  peek s = let (found, s') = has_next s in (if found then s'.head_batch else none, s')

  -- What `Next` does once `HasNext` has said yes.
  unfoldable pub advance : BatchStreamer d → BatchStreamer d
  advance s = record s {
    next_batch_pos = add64 s.next_batch_pos 1;
    head_batch = none;
    hot_shot_pos = if s.skip_pos == max_uint64 then s.hot_shot_pos else s.skip_pos;
    skip_pos = max_uint64;
  }

  unfoldable pub next : BatchStreamer d → Option Batch × BatchStreamer d
  unfolding advance
  next s = let (found, s') = has_next s in if found then (s'.head_batch, advance s') else (none, s')

  unfoldable pub set_proper_head : BatchStreamer d → Hash → BatchStreamer d
  unfolding drop_forks
  set_proper_head s parent =
      let b = s.batch_buffer in
      let drained = record s {
        head_batch = none;
        batch_buffer = record b { batches = drop_forks s.next_batch_pos parent b.batches };
      } in
      elim s.head_batch [
        | none ↦ drained
        | some head ↦ if not (head.number == s.next_batch_pos) then s else drained
      ]
