-- ===== src/Op/Streamer/Fetch/Range.antt =====
-- `fetchHotShotRange`: its outcomes, and that it keeps the streamer valid.
use espresso_streamers.Base.{
  ℕ, ◌-◌, ◌≡◌, ◌≢◌, refl, Option, none, some, List, [], ◌∷◌, arith, ◌==◌, if◌then◌else◌, Bool-cases,
  inl, inr, ==_iff, ◌⊎◌,
}
use espresso_streamers.Op.Streamer.Deps.{Deps, Bytes}
use espresso_streamers.Op.Streamer.State.{BatchStreamer}
use espresso_streamers.Op.Streamer.Valid.{IsValid}
use espresso_streamers.Op.Streamer.Fetch.{
  FetchError, finish_zero, fetch_failed, process_blocks, fetch_hot_shot_range,
}
use espresso_streamers.Op.Streamer.Fetch.Keeps.{process_blocks_keeps}

-- `t` is `s` but for the clients, the cache, the head, the buffer, the timestamps, `skipPos` and
-- the scan position.
abbrev pub KeepsScan : {d : Deps} → BatchStreamer d → BatchStreamer d → Type 0
KeepsScan s t = t ≡ record s {
  client = t.client;
  finalized_l1_state_cache = t.finalized_l1_state_cache;
  head_batch = t.head_batch;
  batch_buffer = t.batch_buffer;
  skip_pos = t.skip_pos;
  batch_timestamps = t.batch_timestamps;
  hot_shot_pos = t.hot_shot_pos;
}

module _ {d : Deps} (s : BatchStreamer d) (start finish : ℕ) where
  abbrev pub answer : Option (List (List Bytes)) × d.Client
  answer = d.fetch_namespace_transactions_in_range s.client start finish s.namespace

  -- The state in which the blocks of a non-empty answer are read, and the timestamp for them.
  abbrev pub scanning : BatchStreamer d
  scanning = record s { client = (d.now answer.1).1; hot_shot_pos = finish - 1 }

  abbrev pub stamp : ℕ
  stamp = if s.track_batch_timestamp then (d.now answer.1).0 else 0

  -- An empty answer is no error, and leaves the scan position where it was.
  pub fetch-empty :
      finish ≢ 0
      → answer.0 ≡ some []
      → fetch_hot_shot_range s start finish ≡ (none, record s { client = answer.1 })
  unfolding fetch_hot_shot_range
  fetch-empty h e = ground (arith, h, e)

  pub fetch-failed :
      finish ≢ 0
      → answer.0 ≡ none
      → fetch_hot_shot_range s start finish ≡ (some fetch_failed, record s { client = answer.1 })
  unfolding fetch_hot_shot_range
  fetch-failed h e = ground (arith, h, e)

  pub fetch-blocks :
      (b : List Bytes) (bs : List (List Bytes))
      → finish ≢ 0
      → answer.0 ≡ some (b ∷ bs)
      → fetch_hot_shot_range s start finish ≡ (none, process_blocks scanning start stamp (b ∷ bs))
  unfolding fetch_hot_shot_range
  fetch-blocks b bs h e = ground (arith, h, e)

  fetch-zero : finish ≡ 0 → fetch_hot_shot_range s start finish ≡ (some finish_zero, s)
  unfolding fetch_hot_shot_range
  fetch-zero h = ground (arith, h)

  -- The scan position after the call.
  pub record Scanned (r : Option FetchError × BatchStreamer d) : Type 0 where
    pub valid : IsValid r.1
    pub kept : KeepsScan s r.1
    pub position :
        (r.1.hot_shot_pos ≡ s.hot_shot_pos)
        ⊎ (r.0 ≡ none) × (r.1.hot_shot_pos ≡ finish - 1) × (finish ≢ 0)

  -- `fetchHotShotRange` keeps the streamer valid and moves, of its positions, only `skipPos` and the
  -- scan position, which either stays or goes to the last block of the range, and that only without
  -- an error.
  pub fetch_hot_shot_range-Scanned : IsValid s → Scanned (fetch_hot_shot_range s start finish)
  fetch_hot_shot_range-Scanned v = elim (Bool-cases (finish == 0)) [
    | inl z ↦
        rw (fetch-zero ((==_iff _ _).0 z)) (record { valid = v; kept = refl; position = inl refl })
    | inr nz ↦ by_answer answer.0 refl (ground arith)
  ]
    where
      by_answer :
          (o : Option (List (List Bytes)))
          → answer.0 ≡ o
          → finish ≢ 0
          → Scanned (fetch_hot_shot_range s start finish)
      by_answer none e h = rw (fetch-failed h e) (record {
        valid = record { buffer = v.buffer; head_due = v.head_due };
        kept = refl;
        position = inl refl;
      })
      by_answer (some []) e h = rw (fetch-empty h e) (record {
        valid = record { buffer = v.buffer; head_due = v.head_due };
        kept = refl;
        position = inl refl;
      })
      by_answer (some (b ∷ bs)) e h =
          let (w, k) =
            process_blocks_keeps scanning start stamp (b ∷ bs)
              (record { buffer = v.buffer; head_due = v.head_due }) in
          rw (fetch-blocks b bs h e) (record {
            valid = w;
            kept = ground (arith, k);
            position = inr (refl, ground (arith, k), h);
          })
