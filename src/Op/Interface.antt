-- ===== src/Op/Interface.antt =====
-- The interface `EspressoStreamer` of op/interface.go: its methods, and what a client may count on.
use espresso_streamers.Base.{ℕ, ◌≡◌, Bool, Option, none, some, add64}
use espresso_streamers.Op.Batch.{Batch, BlockId, Hash}
use espresso_streamers.Op.Streamer.Deps.{Bytes}
use espresso_streamers.Op.Streamer.State.{L1BlockRef}

-- A method that changes the streamer returns the new state. `Update` need not return, so it takes
-- fuel and answers `none` when that runs out.
pub record EspressoStreamer : Type 1 where
  pub State : Type 0
  pub Error : Type 0
  pub update : ℕ → State → Option (Option Error × State)
  pub refresh : State → L1BlockRef → ℕ → BlockId → Option Error × State
  pub refresh_safe_l1_origin : State → BlockId → State
  pub reset : State → State
  pub unmarshal_batch : State → Bytes → Option Batch
  pub has_next : State → Bool × State
  pub next : State → Option Batch × State
  pub peek : State → Option Batch × State
  pub set_proper_head : State → Hash → State
  pub get_fallback_hotshot_pos : State → ℕ
  pub get_batch_finalization_timestamp : State → Hash → Option ℕ × State

-- The batches come out one number after the other: `position` is the number that is due.
pub record Lawful (i : EspressoStreamer) : Type 1 where
  pub Valid : i.State → Type 0
  pub position : i.State → ℕ
  pub next_none :
      (s t : i.State) → Valid s → i.next s ≡ (none, t) → Valid t × (position t ≡ position s)
  pub next_some :
      (s t : i.State) (b : Batch)
      → Valid s
      → i.next s ≡ (some b, t)
      → Valid t × (b.number ≡ position s) × (position t ≡ add64 (position s) 1)
  pub peek_none :
      (s t : i.State) → Valid s → i.peek s ≡ (none, t) → Valid t × (position t ≡ position s)
  pub peek_some :
      (s t : i.State) (b : Batch)
      → Valid s
      → i.peek s ≡ (some b, t)
      → Valid t × (b.number ≡ position s) × (position t ≡ position s)
  pub set_proper_head_keeps :
      (s : i.State) (parent : Hash)
      → Valid s
      → Valid (i.set_proper_head s parent) × (position (i.set_proper_head s parent) ≡ position s)
  pub update_keeps :
      (fuel : ℕ) (s t : i.State) (e : Option i.Error)
      → Valid s
      → i.update fuel s ≡ some (e, t)
      → Valid t × (position t ≡ position s)
  pub has_next_keeps :
      (s : i.State) → Valid s → Valid (i.has_next s).1 × (position (i.has_next s).1 ≡ position s)
  pub stamps_keep :
      (s : i.State) (hash : Hash)
      → Valid s
      → Valid (i.get_batch_finalization_timestamp s hash).1
        × (position (i.get_batch_finalization_timestamp s hash).1 ≡ position s)
