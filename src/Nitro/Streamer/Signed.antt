-- ===== src/Nitro/Streamer/Signed.antt =====
-- In every state that the interleaved nitro streamer reaches the messages in its map are signed.
use espresso_streamers.Base.{
  ℕ, ◌-◌, ◌≡◌, inl, inr, refl, List, [], ◌∷◌, leb, ◌==◌, All, arith, Bool-cases, Option-cases, some,
}
use espresso_streamers.Op.Batch.{Address}
use espresso_streamers.Nitro.Bytes.{Bytes}
use espresso_streamers.Nitro.Codec.{Codec}
use espresso_streamers.Nitro.Monitor.{
  BatcherAddrMonitor, AddressValidRangeConfig, new_monitor, is_valid,
}
use espresso_streamers.Nitro.Streamer.{
  EspressoClient, NitroStreamer, delete_range, advance, advance_to, reset, new_espresso_streamer,
}
use espresso_streamers.Nitro.Streamer.Hotshot.{parse_espresso_transaction, fetch_blocks, jump}
use espresso_streamers.Nitro.Streamer.Invariant.{All-delete, delete_range-All}
use espresso_streamers.Nitro.Streamer.Outcome.{
  IsBounded, Outcome, failed, fetched, fetch_blocks-Outcome,
}
use espresso_streamers.Nitro.Streamer.Interleave.{
  Round, idle, fetching, parsing, System, work, Step, works, advances, advances_to, resets, Steps,
  stop, step,
}
use espresso_streamers.Nitro.Streamer.Reach.{started}
use espresso_streamers.Nitro.Streamer.Authentic.{IsAuthentic}
use espresso_streamers.Nitro.Streamer.Guarded.{IsGuarded, parse_espresso_transaction-IsGuarded}

module _ {e : EspressoClient} (c : Codec) (monitor : BatcherAddrMonitor) (namespace : ℕ) where
  IsGuarded-change :
      (s t : NitroStreamer e)
      → IsGuarded c monitor namespace s
      → t.monitor ≡ s.monitor
      → t.namespace ≡ s.namespace
      → All (IsAuthentic c (is_valid monitor) namespace) t.messages
      → IsGuarded c monitor namespace t
  IsGuarded-change s t g m n h = record {
    same_monitor = ground (arith, m, g.same_monitor);
    same_namespace = ground (arith, n, g.same_namespace);
    entries = h;
  }

  advance_to-IsGuarded :
      (s : NitroStreamer e) (to_pos : ℕ)
      → IsGuarded c monitor namespace s
      → IsGuarded c monitor namespace (advance_to s to_pos)
  unfolding advance_to
  advance_to-IsGuarded s to_pos g = elim (Bool-cases (leb to_pos s.current_message_pos)) [
    | inl t ↦ let r : advance_to s to_pos ≡ s = ground (arith, t) in rw r g
    | inr t ↦
        let n = to_pos - s.current_message_pos in
        let r : advance_to s to_pos ≡ record s {
          messages = delete_range s.current_message_pos n s.messages;
          current_message_pos = to_pos;
        } =
          ground (arith, t) in
        rw r (
          IsGuarded-change s _ g refl refl (
            delete_range-All (IsAuthentic c (is_valid monitor) namespace) n s.current_message_pos
              s.messages g.entries))
  ]

  fetch-IsGuarded :
      (s : NitroStreamer e) (start : ℕ) (y : System e)
      → IsGuarded c monitor namespace s
      → Outcome s start (fetch_blocks s start)
      → work c s (fetching start) ≡ some y
      → IsGuarded c monitor namespace y.streamer
  unfolding work
  fetch-IsGuarded s start y g (failed k x r) w =
      let same : y.streamer ≡ record s { espresso_client = k } = ground (arith, w, r) in
      rw same (IsGuarded-change s _ g refl refl g.entries)
  fetch-IsGuarded s start y g (fetched k f b r) w =
      let same : y.streamer ≡ record s { espresso_client = k } = ground (arith, w, r) in
      rw same (IsGuarded-change s _ g refl refl g.entries)

  work-IsGuarded :
      (s : NitroStreamer e) (r : Round) (y : System e)
      → IsBounded e
      → IsGuarded c monitor namespace s
      → work c s r ≡ some y
      → IsGuarded c monitor namespace y.streamer
  unfolding work jump
  work-IsGuarded s idle y bounded g w = let same : y.streamer ≡ s = ground (arith, w) in rw same g
  work-IsGuarded s (fetching start) y bounded g w =
      fetch-IsGuarded s start y g (fetch_blocks-Outcome s start bounded) w
  work-IsGuarded s (parsing start to_block l1_height []) y bounded g w =
      elim (Bool-cases (s.next_hotshot_block_num == start)) [
        | inl t ↦
            let r : y.streamer ≡ record s { next_hotshot_block_num = to_block } =
              ground (arith, w, t) in
            rw r (IsGuarded-change s _ g refl refl g.entries)
        | inr t ↦ let r : y.streamer ≡ s = ground (arith, w, t) in rw r g
      ]
  work-IsGuarded s (parsing start to_block l1_height (tx ∷ txs)) y bounded g w =
      elim (Option-cases (parse_espresso_transaction c s tx l1_height)) [
        | inl f ↦ absurd (ground (arith, w, f))
        | inr ((x, t), f) ↦
            let same : y.streamer ≡ t = ground (arith, w, f) in
            rw same
              (parse_espresso_transaction-IsGuarded c monitor namespace s t tx l1_height x g f)
      ]

  Step-IsGuarded :
      (x : System e) {y : System e}
      → IsBounded e
      → Step c x y
      → IsGuarded c monitor namespace x.streamer
      → IsGuarded c monitor namespace y.streamer
  unfolding advance reset
  Step-IsGuarded x bounded (works {y} w) g = work-IsGuarded x.streamer x.round y bounded g w
  Step-IsGuarded x bounded advances g =
      let s = x.streamer in
      IsGuarded-change s (advance s) g refl refl (
        All-delete (IsAuthentic c (is_valid monitor) namespace) s.current_message_pos s.messages
          g.entries)
  Step-IsGuarded x bounded (advances_to to_pos) g = advance_to-IsGuarded x.streamer to_pos g
  Step-IsGuarded x bounded (resets pos block) g =
      IsGuarded-change x.streamer (reset x.streamer pos block) g refl refl tt

  pub Steps-IsGuarded :
      (x : System e) {y : System e}
      → IsBounded e
      → Steps c x y
      → IsGuarded c monitor namespace x.streamer
      → IsGuarded c monitor namespace y.streamer
  Steps-IsGuarded x bounded stop g = g
  Steps-IsGuarded x bounded (step {y} xs st) g =
      Step-IsGuarded y bounded st (Steps-IsGuarded x bounded xs g)

module _ {e : EspressoClient} where
  pub started-IsGuarded :
      (c : Codec) (hex : Bytes → Address) (namespace next : ℕ) (client : e.Client)
      (ranges : List AddressValidRangeConfig) (start : ℕ)
      → IsGuarded {e = e} c
          (new_monitor hex ranges)
          namespace
          (new_espresso_streamer hex namespace next client ranges start)
  unfolding new_espresso_streamer
  started-IsGuarded c hex namespace next client ranges start = record {
    same_monitor = refl;
    same_namespace = refl;
    entries = tt;
  }

  -- However the goroutine of a new streamer and the calls that advance and reset it interleave, with a
  -- client that reports heights below 2^64 and whatever transactions it returns, every message in the
  -- map is of a transaction of version 0 from whose signature and the hash of whose messages the key
  -- of an address is recovered that the monitor has for valid at some height of the L1, or is of
  -- version 1 and carries such a signature itself.
  pub messages_are_signed :
      (c : Codec) (hex : Bytes → Address) (namespace next : ℕ) (client : e.Client)
      (ranges : List AddressValidRangeConfig) (start : ℕ) (x : System e)
      → IsBounded e
      → Steps c (started hex namespace next client ranges start) x
      → All (IsAuthentic c (is_valid (new_monitor hex ranges)) namespace) x.streamer.messages
  messages_are_signed c hex namespace next client ranges start x bounded xs =
      (Steps-IsGuarded c (new_monitor hex ranges) namespace
        (started hex namespace next client ranges start) bounded xs
        (started-IsGuarded c hex namespace next client ranges start)).entries
