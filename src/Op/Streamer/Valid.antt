-- ===== src/Op/Streamer/Valid.antt =====
-- The invariant of `BatchStreamer`, and what two states of it may share.
use espresso_streamers.Base.{ℕ, ◌≡◌, Option, none, some, sym, subst, arith}
use espresso_streamers.Op.Batch.{Batch}
use espresso_streamers.Op.Buffer.Order.{IsValid as IsValidBuffer}
use espresso_streamers.Op.Streamer.Deps.{Deps}
use espresso_streamers.Op.Streamer.State.{BatchStreamer}
use espresso_streamers.Op.Streamer.Check.Frame.{SameBut}

-- The batch at the head, if any, is the one that is due.
abbrev pub HeadDue : Option Batch → ℕ → Type 0
HeadDue none pos = Unit {0}
HeadDue (some b) pos = b.number ≡ pos

pub record IsValid {d : Deps} (s : BatchStreamer d) : Type 0 where
  pub buffer : IsValidBuffer s.batch_buffer
  pub head_due : HeadDue s.head_batch s.next_batch_pos

-- `t` is `s` but for the clients, the cache, the head and the buffer.
abbrev pub Keeps : {d : Deps} → BatchStreamer d → BatchStreamer d → Type 0
Keeps s t = t ≡ record s {
  client = t.client;
  finalized_l1_state_cache = t.finalized_l1_state_cache;
  head_batch = t.head_batch;
  batch_buffer = t.batch_buffer;
}

module _ {d : Deps} (s t : BatchStreamer d) (e : SameBut s t) where
  pub SameBut→IsValid : IsValid s → IsValid t
  SameBut→IsValid v =
      subst (λ (u : BatchStreamer d). IsValid u) (sym e)
        (record { buffer = v.buffer; head_due = v.head_due })

  -- Without its head such a state is valid too.
  pub SameBut→IsValid_no_head : IsValid s → IsValid (record t { head_batch = none })
  SameBut→IsValid_no_head v =
      subst (λ (u : BatchStreamer d). IsValid (record u { head_batch = none })) (sym e)
        (record { buffer = v.buffer; head_due = tt })

  pub SameBut→Keeps : Keeps s t
  SameBut→Keeps = ground (arith, e)

  pub SameBut→Keeps_no_head : Keeps s (record t { head_batch = none })
  SameBut→Keeps_no_head = ground (arith, e)

pub Keeps-trans : {d : Deps} (s t u : BatchStreamer d) → Keeps s t → Keeps t u → Keeps s u
Keeps-trans s t u p q = ground arith
