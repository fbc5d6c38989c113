-- ===== src/Nitro/Streamer/Start.antt =====
-- The loop of `Start`: a round and what it logs.
use espresso_streamers.Base.{
  Option-cases, inl, inr, ℕ, ◌*◌, ◌/◌, ◌<◌, ◌≤◌, ◌≡◌, ◌↔◌, subst, Bool, true, Option, none, some,
  List, [], ◌∷◌, ltb, arith,
}
use espresso_streamers.Nitro.Bytes.{Bytes}
use espresso_streamers.Nitro.Codec.{Codec}
use espresso_streamers.Nitro.Debounce.{
  ShouldLogEnum, should_log, should_not_log, ShouldLogAsErrorEnum, should_log_as_error,
  should_not_log_as_error, LogDebouncer, Readings, debounce, reset,
}
use espresso_streamers.Nitro.Streamer.{EspressoClient, NitroStreamer}
use espresso_streamers.Nitro.Streamer.Hotshot.{
  parse_espresso_transaction, parse_transactions, FetchError, failed_to_fetch_transactions,
  queue_messages_from_hotshot,
}
use espresso_streamers.Nitro.Streamer.Interleave.{parsing, System, work, works, Steps, step}

-- What is logged of an error.
pub data Log : Type 0 where
  logged_nothing logged_warning logged_error : Log

abbrev log_of : ShouldLogEnum → ShouldLogAsErrorEnum → Log
log_of should_not_log as_error = logged_nothing
log_of should_log should_log_as_error = logged_error
log_of should_log should_not_log_as_error = logged_warning

-- The debouncer of `Start`, in seconds.
abbrev pub start_debouncer : LogDebouncer
start_debouncer = record { first_seen = none; last_log = none; duration = 180; interval = 60 }

-- The error, if there is one, goes through the debouncer; otherwise this starts anew.
unfoldable pub report : LogDebouncer → Readings → Option FetchError → Log × LogDebouncer
report d r none = (logged_nothing, reset d)
report d r (some failed_to_fetch_transactions) =
    let ((should, as_error), d') = debounce d r in (log_of should as_error, d')

-- The progress is logged for all to see.
unfoldable pub crosses : ℕ → ℕ → Bool
crosses prev next = ltb (prev / 1000) (next / 1000)

-- The progress of a round is logged at the level of information exactly if the round passes or
-- reaches a multiple of 1000.
pub crosses_iff :
    (prev next : ℕ) → (crosses prev next ≡ true) ↔ ((k : ℕ) × (prev < 1000 * k) × (1000 * k ≤ next))
unfolding crosses
crosses_iff prev next = (
  (λ t. (next / 1000, ground (arith, t), ground (arith, t))),
  (λ (k, a, b). ground (arith, a, b)),
)

pub record Loop (e : EspressoClient) : Type 0 where
  pub streamer : NitroStreamer e
  pub debouncer : LogDebouncer

module _ {e : EspressoClient} where
  -- One round of the loop: whether the progress is logged as information, what is logged of an
  -- error, and the state. `none` is a round that does not end.
  unfoldable pub start_round : Codec → Loop e → Readings → Option (Bool × Log × Loop e)
  unfolding crosses report
  start_round c l r = elim (queue_messages_from_hotshot (parse_espresso_transaction c) l.streamer) [
    | none ↦ none
    | some (error, s) ↦
        let (logged, d) = report l.debouncer r error in
        some (
          crosses l.streamer.next_hotshot_block_num s.next_hotshot_block_num,
          logged,
          record { streamer = s; debouncer = d },
        )
  ]

  -- The goroutine parses all that is left of a fetch without an interruption.
  pub parses :
      (c : Codec) (x : System e) (start to_block l1_height : ℕ) (txs : List Bytes)
      (s t : NitroStreamer e)
      → parse_transactions (parse_espresso_transaction c) s l1_height txs ≡ some t
      → Steps c x (record { streamer = s; round = parsing start to_block l1_height txs })
      → Steps c x (record { streamer = t; round = parsing start to_block l1_height [] })
  unfolding work parse_transactions
  parses c x start to_block l1_height [] s t r xs =
      let same : s ≡ t = ground (arith, r) in
      subst (λ u. Steps c x (record { streamer = u; round = parsing start to_block l1_height [] }))
        same xs
  parses c x start to_block l1_height (tx ∷ txs) s t r xs =
      elim (Option-cases (parse_espresso_transaction c s tx l1_height)) [
        | inl f ↦ absurd (ground (arith, r, f))
        | inr ((y, u), f) ↦
            parses c x start to_block l1_height txs u t (ground (arith, r, f))
              (step xs (works (ground (arith, f))))
      ]
