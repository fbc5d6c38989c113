-- ===== src/Op/Streamer/Calls/Tests.antt =====
-- A session with a streamer, and the theorems at it.
use espresso_streamers.Base.{
  ℕ, ◌≡◌, ◌⊎◌, inl, inr, refl, Option, none, some, List, [], ◌∷◌, arith, ◌==◌, ok, if◌then◌else◌,
  Bool-cases, false,
}
use espresso_streamers.Op.Buffer.{
  insert, position, search_loop, is_below, is_equal_at, compare_batch, peek as peek_buffer, pop,
  new,
}
use espresso_streamers.Op.Streamer.Deps.{Deps, L1State}
use espresso_streamers.Op.Streamer.State.{
  BatchStreamer, new_espresso_streamer, batch_buffer_capacity,
}
use espresso_streamers.Op.Streamer.Demo.{demo, demo_batch, demo_l1, unmarshal}
use espresso_streamers.Op.Streamer.Valid.{IsValid}
use espresso_streamers.Op.Streamer.Check.{
  check_batch, l1_state_at, is_unset, check_l1_state, contains,
}
use espresso_streamers.Op.Streamer.Check.Vetted.{Lru}
use espresso_streamers.Op.Streamer.Head.{
  has_next, has_next_loop, has_next_round, check_head, has_next_measure, next,
}
use espresso_streamers.Op.Streamer.Refresh.{
  confirm_espresso_block_height, refresh_safe_l1_origin, fetch_espresso_batcher, refresh_batch_pos,
  refresh,
}
use espresso_streamers.Op.Streamer.Fetch.{
  fetch_hot_shot_range, process_blocks, process_block, process_transaction,
  process_espresso_transaction, place_batch, buffer_batch, is_head_duplicate, record_timestamp,
}
use espresso_streamers.Op.Streamer.Update.{
  update, update_loop, compute_espresso_block_heights_range, range_start,
}
use espresso_streamers.Op.Streamer.Calls.{
  Event, delivered, refreshed, other, Session, done, call, updates, refreshes, reads,
}
use espresso_streamers.Op.Streamer.Calls.Cursor.{Follows, restarted, cursor}
use espresso_streamers.Op.Streamer.Calls.Order.{delivers_in_order}
use espresso_streamers.Op.Streamer.Calls.Authorized.{AllAuthorized, delivered_are_authorized}

pub program : Unit {0}
unfolding insert position search_loop is_below is_equal_at compare_batch peek_buffer pop new
    check_batch l1_state_at is_unset check_l1_state contains has_next has_next_loop has_next_round
    check_head has_next_measure next fetch_hot_shot_range process_blocks process_block
    process_transaction process_espresso_transaction place_batch buffer_batch is_head_duplicate
    record_timestamp update update_loop compute_espresso_block_heights_range range_start
    new_espresso_streamer refresh refresh_batch_pos refresh_safe_l1_origin
    confirm_espresso_block_height fetch_espresso_batcher
program = tt

-- A cache that forgets nothing.
abbrev pub recall : ℕ → List (ℕ × L1State) → Option L1State
recall n [] = none
recall n ((m, st) ∷ xs) = if m == n then some st else recall n xs

abbrev pub caching : Deps
caching = record {
  Client = ℕ;
  Cache = List (ℕ × L1State);
  Stamps = Unit {0};
  bind_authenticator = demo.bind_authenticator;
  header_hash_by_number = demo.header_hash_by_number;
  espresso_batcher = demo.espresso_batcher;
  espresso_batcher_at_block = demo.espresso_batcher_at_block;
  finalized_state = demo.finalized_state;
  fetch_latest_block_height = demo.fetch_latest_block_height;
  fetch_namespace_transactions_in_range = demo.fetch_namespace_transactions_in_range;
  now = demo.now;
  cache_new = λ n. [];
  cache_get = λ c n. (recall n c, c);
  cache_add = λ c n st. (n, st) ∷ c;
  stamps_new = demo.stamps_new;
  stamps_get = demo.stamps_get;
  stamps_add = demo.stamps_add;
  unmarshal_batch = unmarshal;
}

pub recall_added :
    (xs : List (ℕ × L1State)) (n m : ℕ) (new st : L1State)
    → recall m ((n, new) ∷ xs) ≡ some st
    → ((m ≡ n) × (st ≡ new)) ⊎ (recall m xs ≡ some st)
recall_added xs n m new st h = elim (Bool-cases (n == m)) [
  | inl e ↦ inl (ground (arith, h, e), ground (arith, h, e))
  | inr e ↦ inr (ground (arith, h, e))
]

pub none-ne-some : (st : L1State) → ¬ (◌≡◌ {A = Option L1State} none (some st))
none-ne-some st e = cc

abbrev pub caching-Lru : Lru caching
caching-Lru = record {
  Holds = λ c n st. recall n c ≡ some st;
  new_holds = λ size n st. none-ne-some st;
  get_holds = λ c n st h. h;
  holds_get = λ c n m st h. h;
  holds_add = recall_added;
}

-- A new streamer, with the finalized L1 block known, reads and hands out two batches.
abbrev pub begun : BatchStreamer caching
begun = record {
  namespace = 1;
  client = 0;
  next_batch_pos = 2;
  fallback_batch_pos = 1;
  hot_shot_pos = 1;
  fallback_hot_shot_pos = 1;
  origin_hot_shot_pos = 1;
  finalized_l1 = record { hash = 0; number = 0; parent_hash = 0; time = 0 };
  skip_pos = 0xffff_ffff_ffff_ffff;
  head_batch = none;
  batch_buffer = record { batches = []; capacity = batch_buffer_capacity };
  finalized_l1_state_cache = [];
  espresso_batcher = 0;
  track_batch_timestamp = false;
  batch_timestamps = none;
}

begun_is_new : new_espresso_streamer caching 1 0 1 1 5 false ≡ ok begun
unfolding program
begun_is_new = refl

abbrev events : List Event
events = refreshed 1 ∷ other ∷ delivered (demo_batch 2) ∷ delivered (demo_batch 3) ∷ []

session : (t : BatchStreamer caching) × Session begun events t
unfolding program
session = (
  _,
  call (refreshes demo_l1 1 (record { hash = 7; number = 1 }))
      (call (updates 9 none refl) (call reads (call reads done))),
)

delivers_in_order_example : IsValid session.0 × Follows (restarted 1) events (cursor session.0)
delivers_in_order_example = delivers_in_order 1 0 1 1 5 false begun_is_new session.1

delivered_are_authorized_example : AllAuthorized caching begun.client session.0.client events
delivered_are_authorized_example =
    delivered_are_authorized caching-Lru 1 0 1 1 5 false begun_is_new session.1
