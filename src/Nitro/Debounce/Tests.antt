-- ===== src/Nitro/Debounce/Tests.antt =====
-- The debouncer of the nitro streamer on a streak of four errors.
use espresso_streamers.Base.{◌≡◌, none, [], ◌∷◌, List, All, arith}
use espresso_streamers.Nitro.Debounce.{Readings, debounce, reset, should_log}
use espresso_streamers.Nitro.Debounce.Streak.{answers, IsGraced, AreApart, answers_to_streak}
use espresso_streamers.Nitro.Debounce.{LogDebouncer}

-- A grace duration of three minutes, and a warning each minute at most.
abbrev patient : LogDebouncer
patient = record { first_seen = none; last_log = none; duration = 180; interval = 60 }

-- Calls at 5, 35, 70 and 190 seconds.
abbrev calls : List Readings
calls =
    record { now = 35; since_first = 35; since_last = 35 }
    ∷ record { now = 70; since_first = 70; since_last = 70 }
    ∷ record { now = 190; since_first = 190; since_last = 191 }
    ∷ []

answers_to_streak_example :
    All
      (IsGraced 5 180)
      (answers (reset patient) (record { now = 5; since_first = 5; since_last = 6 } ∷ calls))
    × AreApart 60
        (answers (reset patient) (record { now = 5; since_first = 5; since_last = 6 } ∷ calls))
    × ((debounce (reset patient) (record { now = 5; since_first = 5; since_last = 6 })).0.0
        ≡ should_log)
answers_to_streak_example =
    answers_to_streak patient (record { now = 5; since_first = 5; since_last = 6 }) calls
      (
        omega arith,
        omega arith,
        omega arith,
        (
          omega arith,
          omega arith,
          omega arith,
          (omega arith, omega arith, omega arith, (omega arith, omega arith, omega arith, tt)),
        ),
      )
