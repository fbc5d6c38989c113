-- ===== src/Op/Streamer/Fetch/Place.antt =====
-- Reading HotShot blocks keeps the streamer valid, and moves no position but `skipPos`.
use espresso_streamers.Base.{
  ℕ, ◌≡◌, refl, sym, Option, none, some, arith, ◌==◌, Bool-cases, Option-cases, inl, inr, ==_iff,
  ◌⊎◌, subst,
}
use espresso_streamers.Op.Batch.{Batch, BatchValidity, drop, accept, undecided, past}
use espresso_streamers.Op.Buffer
use espresso_streamers.Op.Buffer.{InsertError, at_capacity, duplicate_batch, BatchBuffer}
use espresso_streamers.Op.Buffer.Order.{insert-IsValid}
use espresso_streamers.Op.Streamer.Deps.{Deps, Bytes}
use espresso_streamers.Op.Streamer.State.{BatchStreamer}
use espresso_streamers.Op.Streamer.Check.{check_batch}
use espresso_streamers.Op.Streamer.Check.Frame.{check_batch-SameBut}
use espresso_streamers.Op.Streamer.Valid.{IsValid, SameBut→IsValid}
use espresso_streamers.Op.Streamer.Fetch.{
  is_head_duplicate, record_timestamp, buffer_batch, place_batch, process_espresso_transaction,
}

-- `t` is `s` but for the clients, the cache, the head, the buffer, the timestamps and `skipPos`.
abbrev pub KeepsPositions : {d : Deps} → BatchStreamer d → BatchStreamer d → Type 0
KeepsPositions s t = t ≡ record s {
  client = t.client;
  finalized_l1_state_cache = t.finalized_l1_state_cache;
  head_batch = t.head_batch;
  batch_buffer = t.batch_buffer;
  skip_pos = t.skip_pos;
  batch_timestamps = t.batch_timestamps;
}

pub KeepsPositions-trans :
    {d : Deps} (s t u : BatchStreamer d)
    → KeepsPositions s t
    → KeepsPositions t u
    → KeepsPositions s u
KeepsPositions-trans s t u p q = ground arith

-- What processing one transaction leaves: a valid streamer with its positions kept.
pub record Placed {d : Deps} (s t : BatchStreamer d) : Type 0 where
  pub valid : IsValid t
  pub kept : KeepsPositions s t
  pub same_skip : t.skip_pos ≡ s.skip_pos

module _ {d : Deps} where
  record_timestamp-same :
      (s : BatchStreamer d) (b : Batch) (stamp : ℕ)
      → record_timestamp s b stamp
        ≡ record s { batch_timestamps = (record_timestamp s b stamp).batch_timestamps }
  unfolding record_timestamp
  record_timestamp-same s b stamp = ground arith

  stamped-Placed :
      (s t : BatchStreamer d) (b : Batch) (stamp : ℕ)
      → Placed s t
      → Placed s (record_timestamp t b stamp)
  stamped-Placed s t b stamp p = record {
    valid =
        subst (λ (u : BatchStreamer d). IsValid u) (sym (record_timestamp-same t b stamp))
          (record { buffer = p.valid.buffer; head_due = p.valid.head_due });
    kept = ground (arith, record_timestamp-same t b stamp, p.kept);
    same_skip = ground (arith, record_timestamp-same t b stamp, p.same_skip);
  }

  abbrev inserted : BatchStreamer d → Batch → BatchStreamer d
  inserted s b = record s { batch_buffer = (Buffer.insert b s.batch_buffer).1 }

  inserted-Placed : (s : BatchStreamer d) (b : Batch) → IsValid s → Placed s (inserted s b)
  inserted-Placed s b v = record {
    valid = record { buffer = insert-IsValid b s.batch_buffer v.buffer; head_due = v.head_due };
    kept = refl;
    same_skip = refl;
  }

  buffer_batch-Placed :
      (s : BatchStreamer d) (b : Batch) (stamp : ℕ)
      → IsValid s
      → Placed s (buffer_batch s b stamp).1
  unfolding buffer_batch
  buffer_batch-Placed s b stamp v = by_error (Buffer.insert b s.batch_buffer).0 refl
    where
      by_error :
          (e : Option InsertError)
          → (Buffer.insert b s.batch_buffer).0 ≡ e
          → Placed s (buffer_batch s b stamp).1
      by_error none e =
          rw (e, buffer_batch) (stamped-Placed s (inserted s b) b stamp (inserted-Placed s b v))
      by_error (some at_capacity) e = rw (e, buffer_batch) (inserted-Placed s b v)
      by_error (some duplicate_batch) e =
          rw (e, buffer_batch) (stamped-Placed s (inserted s b) b stamp (inserted-Placed s b v))

  here-Placed : (s : BatchStreamer d) → IsValid s → Placed s s
  here-Placed s v = record { valid = v; kept = refl; same_skip = refl }

  headed : BatchStreamer d → Batch → BatchStreamer d
  headed s b = record s { head_batch = some b }

  -- `place_batch` does one of three things, and the head is taken only by the batch that is due.
  place_batch-cases :
      (s : BatchStreamer d) (b : Batch) (stamp : ℕ)
      → (place_batch s b stamp ≡ (none, s))
        ⊎ ((place_batch s b stamp ≡ buffer_batch s b stamp)
            ⊎ (place_batch s b stamp ≡ (none, record_timestamp (headed s b) b stamp))
              × (b.number ≡ s.next_batch_pos))
  unfolding place_batch headed
  place_batch-cases s b stamp = elim (Bool-cases (is_head_duplicate s b)) [
    | inl dup ↦ inl (ground (arith, dup))
    | inr new ↦ elim (Option-cases s.head_batch) [
      | inr (h, e) ↦ inr (inl (ground (arith, new, e)))
      | inl e ↦ elim (Bool-cases (b.number == s.next_batch_pos)) [
        | inl due ↦ inr (inr (ground (arith, new, e, due), (==_iff _ _).0 due))
        | inr early ↦ inr (inl (ground (arith, new, e, early)))
      ]
    ]
  ]

  place_batch-Placed :
      (s : BatchStreamer d) (b : Batch) (stamp : ℕ) → IsValid s → Placed s (place_batch s b stamp).1
  place_batch-Placed s b stamp v = elim (place_batch-cases s b stamp) [
    | inl e ↦ rw e (here-Placed s v)
    | inr (inl e) ↦ rw e (buffer_batch-Placed s b stamp v)
    | inr (inr (e, due)) ↦ rw e (
        stamped-Placed s (headed s b) b stamp (
          unfold headed in
          record {
            valid = record { buffer = v.buffer; head_due = due };
            kept = refl;
            same_skip = refl;
          }))
  ]

  after_check : (s t : BatchStreamer d) (b : Batch) → Placed (check_batch s b).1 t → Placed s t
  after_check s t b p = record {
    valid = p.valid;
    kept = ground (arith, check_batch-SameBut s b, p.kept);
    same_skip = ground (arith, check_batch-SameBut s b, p.same_skip);
  }

  checked-Placed : (s : BatchStreamer d) (b : Batch) → IsValid s → Placed s (check_batch s b).1
  checked-Placed s b v = after_check s (check_batch s b).1 b (
      here-Placed (check_batch s b).1
        (SameBut→IsValid s (check_batch s b).1 (check_batch-SameBut s b) v))

  pub process_espresso_transaction-Placed :
      (s : BatchStreamer d) (t : Bytes) (stamp : ℕ)
      → IsValid s
      → Placed s (process_espresso_transaction s t stamp).1
  unfolding process_espresso_transaction
  process_espresso_transaction-Placed s t stamp v = by_batch (d.unmarshal_batch t) refl
    where
      checked_valid : (b : Batch) → IsValid (check_batch s b).1
      checked_valid b = SameBut→IsValid s (check_batch s b).1 (check_batch-SameBut s b) v

      by_validity :
          (b : Batch) (w : BatchValidity)
          → d.unmarshal_batch t ≡ some b
          → (check_batch s b).0 ≡ w
          → Placed s (process_espresso_transaction s t stamp).1
      by_validity b drop e f = rw (e, f, process_espresso_transaction) (checked-Placed s b v)
      by_validity b past e f = rw (e, f, process_espresso_transaction) (checked-Placed s b v)
      by_validity b accept e f =
          rw (e, f, process_espresso_transaction)
            (after_check s _ b (place_batch-Placed (check_batch s b).1 b stamp (checked_valid b)))
      by_validity b undecided e f =
          rw (e, f, process_espresso_transaction)
            (after_check s _ b (place_batch-Placed (check_batch s b).1 b stamp (checked_valid b)))

      by_batch :
          (o : Option Batch)
          → d.unmarshal_batch t ≡ o
          → Placed s (process_espresso_transaction s t stamp).1
      by_batch none e = rw (e, process_espresso_transaction) (here-Placed s v)
      by_batch (some b) e = by_validity b (check_batch s b).0 e refl
