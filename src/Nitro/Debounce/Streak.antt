-- ===== src/Nitro/Debounce/Streak.antt =====
-- What the debouncer answers to a streak of errors.
use espresso_streamers.Base.{
  ℕ, ◌+◌, ◌-◌, ◌≤◌, ◌<◌, ◌≡◌, ◌↔◌, inl, inr, refl, subst, Option, none, some, List, [], ◌∷◌, All,
  leb, arith, Bool-cases, Option-cases,
}
use espresso_streamers.Nitro.Debounce.{
  ShouldLogEnum, should_log, should_not_log, ShouldLogAsErrorEnum, should_log_as_error,
  should_not_log_as_error, LogDebouncer, Readings, debounce, reset,
}

-- The answers to the calls of a streak of errors.
abbrev pub Answer : Type 0
Answer = Readings × (ShouldLogEnum × ShouldLogAsErrorEnum)

abbrev pub answers : LogDebouncer → List Readings → List Answer
answers e [] = []
answers e (r ∷ rs) = let (answer, e') = debounce e r in (r, answer) ∷ answers e' rs

-- The clock does not go back, from `t` on.
abbrev pub IsOrdered : ℕ → List Readings → Type 0
IsOrdered t [] = Unit
IsOrdered t (r ∷ rs) =
    (t ≤ r.now)
    × (r.now ≤ r.since_first)
    × (r.since_first ≤ r.since_last)
    × IsOrdered r.since_last rs

-- An error is logged exactly from the end of the grace duration on, which began at `first`.
abbrev pub IsGraced : ℕ → ℕ → Answer → Type 0
IsGraced first duration (r, answer) =
    (answer ≡ (should_log, should_log_as_error)) ↔ (first + duration ≤ r.since_first)

-- A warning that is logged is `interval` behind the time `t`.
abbrev pub IsLater : ℕ → ℕ → Answer → Type 0
IsLater interval t (r, answer) =
    answer ≡ (should_log, should_not_log_as_error) → t + interval ≤ r.since_last

-- Two warnings are at least `interval` apart.
abbrev pub AreApart : ℕ → List Answer → Type 0
AreApart interval [] = Unit
AreApart interval ((r, answer) ∷ xs) =
    (answer ≡ (should_log, should_not_log_as_error) → All (IsLater interval r.now) xs)
    × AreApart interval xs

abbrev error_answer : ShouldLogEnum × ShouldLogAsErrorEnum
error_answer = (should_log, should_log_as_error)

abbrev warning_answer : ShouldLogEnum × ShouldLogAsErrorEnum
warning_answer = (should_log, should_not_log_as_error)

abbrev no_answer : ShouldLogEnum × ShouldLogAsErrorEnum
no_answer = (should_not_log, should_not_log_as_error)

-- The ways that a call goes; the streak began at `first`.
data Call (e : LogDebouncer) (r : Readings) (first : ℕ) : Type 0 where
  late :
      e.duration ≤ r.since_first - first
      → debounce e r ≡ (error_answer, record e { first_seen = some first })
      → Call e r first
  warned :
      r.since_first - first < e.duration
      → ((t : ℕ) → e.last_log ≡ some t → e.interval ≤ r.since_last - t)
      → debounce e r ≡ (warning_answer, record e { first_seen = some first; last_log = some r.now })
      → Call e r first
  quiet :
      r.since_first - first < e.duration
      → (t : ℕ) → e.last_log ≡ some t
      → debounce e r ≡ (no_answer, record e { first_seen = some first })
      → Call e r first

abbrev first_of : LogDebouncer → Readings → ℕ
first_of e r = elim e.first_seen [ none ↦ r.now | some t ↦ t ]

debounce-Call : (e : LogDebouncer) (r : Readings) → Call e r (first_of e r)
unfolding debounce
debounce-Call e r = elim (Bool-cases (leb e.duration (r.since_first - first_of e r))) [
  | inl l ↦ late (ground (arith, l)) (ground (arith, l))
  | inr l ↦ elim (Option-cases e.last_log) [
    | inl f ↦
        warned (ground (arith, l)) (λ t g. absurd (ground (arith, f, g))) (ground (arith, l, f))
    | inr (t, f) ↦ elim (Bool-cases (leb e.interval (r.since_last - t))) [
      | inl d ↦
          warned (ground (arith, l)) (λ u g. ground (arith, f, g, d)) (ground (arith, l, f, d))
      | inr d ↦ quiet (ground (arith, l)) t f (ground (arith, l, f, d))
    ]
  ]
]

-- What holds of the answers `xs` to a streak that began at `first`.
abbrev Spaced : LogDebouncer → ℕ → List Answer → Type 0
Spaced e first xs =
    All (IsGraced first e.duration) xs
    × AreApart e.interval xs
    × ((last : ℕ) → e.last_log ≡ some last → All (IsLater e.interval last) xs)

-- The last log is at most `t`.
abbrev IsOld : LogDebouncer → ℕ → Type 0
IsOld e t = (last : ℕ) → e.last_log ≡ some last → last ≤ t

All-sooner :
    (interval t u : ℕ) (xs : List Answer)
    → t ≤ u
    → All (IsLater interval u) xs
    → All (IsLater interval t) xs
All-sooner interval t u [] le h = tt
All-sooner interval t u ((r, answer) ∷ xs) le (k, h) =
    ((λ w. let v = k w in omega arith), All-sooner interval t u xs le h)

first_call :
    (e : LogDebouncer) (r : Readings) (first : ℕ) (rs : List Readings)
    → Call e r first
    → first ≤ r.since_first
    → IsOld e r.now
    → r.now ≤ r.since_last
    → ((last : Option ℕ)
        → IsOld (record e { first_seen = some first; last_log = last }) r.since_last
        → Spaced
            (record e { first_seen = some first; last_log = last })
            first
            (answers (record e { first_seen = some first; last_log = last }) rs))
    → Spaced e first (answers e (r ∷ rs))
first_call e r first rs (late l g) le old le' ih =
    let (a, b, c) = ih e.last_log (λ last f. let o = old last f in omega arith) in
    rw g (
      (((λ x. omega arith), (λ x. refl)), a),
      ((λ x. absurd (ground (arith, x))), b),
      (λ last f. ((λ x. absurd (ground (arith, x))), c last f)),
    )
first_call e r first rs (warned l d g) le old le' ih =
    let (a, b, c) = ih (some r.now) (λ last f. ground (arith, f, le')) in
    rw g (
      (((λ x. absurd (ground (arith, x))), (λ x. absurd (omega arith))), a),
      ((λ f. c r.now refl), b),
      (λ last f. (
        (λ x. let v = d last f in let o = old last f in omega arith),
        All-sooner e.interval last r.now _ (old last f) (c r.now refl),
      )),
    )
first_call e r first rs (quiet l t f g) le old le' ih =
    let (a, b, c) = ih e.last_log (λ last f. let o = old last f in omega arith) in
    rw g (
      (((λ x. absurd (ground (arith, x))), (λ x. absurd (omega arith))), a),
      ((λ x. absurd (ground (arith, x))), b),
      (λ last f. ((λ x. absurd (ground (arith, x))), c last f)),
    )

first_of_seen :
    (e : LogDebouncer) (r : Readings) (first : ℕ) → e.first_seen ≡ some first → first_of e r ≡ first
first_of_seen e r first h = ground (arith, h)

first_logs : (e : LogDebouncer) (r : Readings) → (debounce (reset e) r).0.0 ≡ should_log
unfolding debounce reset
first_logs e r = ground arith

later_calls :
    (e : LogDebouncer) (first t : ℕ) (rs : List Readings)
    → e.first_seen ≡ some first
    → first ≤ t
    → IsOld e t
    → IsOrdered t rs
    → Spaced e first (answers e rs)
later_calls e first t [] h le old o = (tt, tt, (λ last f. tt))
later_calls e first t (r ∷ rs) h le old (o1, o2, o3, os) =
    let c : Call e r first =
      subst (λ x. Call e r x) (first_of_seen e r first h) (debounce-Call e r) in
    first_call e r first rs c (omega arith) (λ last f. let o = old last f in omega arith)
      (omega arith)
      (λ last old'.
        later_calls (record e { first_seen = some first; last_log = last }) first r.since_last rs
          refl (omega arith) old' os)

-- After a `reset`, over calls between which the clock does not go back, an error is logged exactly
-- from `duration` after the first call on, the first call is logged, and two warnings are at least
-- `interval` apart.
pub answers_to_streak :
    (e : LogDebouncer) (r : Readings) (rs : List Readings)
    → IsOrdered r.now (r ∷ rs)
    → All (IsGraced r.now e.duration) (answers (reset e) (r ∷ rs))
      × AreApart e.interval (answers (reset e) (r ∷ rs))
      × ((debounce (reset e) r).0.0 ≡ should_log)
unfolding reset
answers_to_streak e r rs (o1, o2, o3, os) =
    let (a, b, c) =
      first_call (reset e) r r.now rs (debounce-Call (reset e) r) o2
        (λ last f. absurd (ground (arith, f))) (omega arith)
        (λ last old.
          later_calls (record (reset e) { first_seen = some r.now; last_log = last }) r.now
            r.since_last rs refl (omega arith) old os) in
    (a, b, first_logs e r)
