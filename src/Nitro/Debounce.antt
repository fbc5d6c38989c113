-- ===== src/Nitro/Debounce.antt =====
-- `logDebouncer` of nitro/utils.go.
pub mod Streak
mod Tests
use espresso_streamers.Base.{
  ℕ, ◌+◌, ◌-◌, ◌≤◌, ◌<◌, ◌≡◌, ◌↔◌, inl, inr, refl, subst, Bool, true, Option, none, some, List, [],
  ◌∷◌, All, leb, if◌then◌else◌, arith, Bool-cases, Option-cases,
}

pub data ShouldLogEnum : Type 0 where
  should_not_log should_log : ShouldLogEnum

pub data ShouldLogAsErrorEnum : Type 0 where
  should_not_log_as_error should_log_as_error : ShouldLogAsErrorEnum

-- A time is a reading of the clock, the zero time none.
pub record LogDebouncer : Type 0 where
  pub first_seen : Option ℕ
  pub last_log : Option ℕ
  pub duration : ℕ
  pub interval : ℕ

-- The readings of one call: of `time.Now`, and of the two calls of `time.Since`.
pub record Readings : Type 0 where
  pub now : ℕ
  pub since_first : ℕ
  pub since_last : ℕ

unfoldable pub debounce :
    LogDebouncer → Readings → (ShouldLogEnum × ShouldLogAsErrorEnum) × LogDebouncer
debounce e r =
    let first : ℕ = elim e.first_seen [ none ↦ r.now | some t ↦ t ] in
    let e1 = record e { first_seen = some first } in
    if leb e.duration (r.since_first - first)
    then ((should_log, should_log_as_error), e1)
    else let due : Bool = elim e.last_log [
      | none ↦ true
      | some t ↦ leb e.interval (r.since_last - t)
    ] in
      if due
      then ((should_log, should_not_log_as_error), record e1 { last_log = some r.now })
      else ((should_not_log, should_not_log_as_error), e1)

unfoldable pub reset : LogDebouncer → LogDebouncer
reset e = record e { first_seen = none; last_log = none }
