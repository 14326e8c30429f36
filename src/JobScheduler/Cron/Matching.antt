-- ===== src/JobScheduler/Cron/Matching.antt =====
-- Which minute `nextCronOccurrence` of services/runtime/src/job-scheduler.ts gives.
use mathlib.Core.Path.{subst}
use nova_test.Common.{
  ℕ, zero, suc, ◌+◌, ◌-◌, ◌*◌, ◌/◌, ◌≤◌, ◌==◌, In, ◌<◌, ◌≡◌, refl, ap, true, false, List, [], ◌∷◌,
  String, Option, none, some, ◌⊎◌, inl, inr, arith, Bool-cases, Option-cases, text_dec,
}
use nova_test.JobScheduler.Cron.{
  UtcDate, CronFields, parse_cron_field, parse_parts, split, bounds_of, number_or, all_fields,
  parse_cron, matches, has_value, search_minute, horizon, first_minute, next_cron_occurrence,
}

-- Each of the five fields has the value of the date: the minute, the hour, the day of the month, the
-- month and the day of the week.
pub record IsAt (c : CronFields) (t : UtcDate) : Type 0 where
  pub minute : In t.minutes c.minute
  pub hour : In t.hours c.hour
  pub day : In t.date c.day
  pub month : In t.month c.month
  pub weekday : In t.day c.weekday

has_value-In : (vs : List ℕ) (x : ℕ) → has_value vs x ≡ true → In x vs
has_value-In [] x e = absurd (ground arith)
has_value-In (v ∷ vs) x e = elim (Bool-cases (v == x)) [
  | inl q ↦ inl (ground arith)
  | inr q ↦ inr (has_value-In vs x (ground arith))
]

In-has_value : (vs : List ℕ) (x : ℕ) → In x vs → has_value vs x ≡ true
In-has_value [] x i = absurd i
In-has_value (v ∷ vs) x (inl e) = ground arith
In-has_value (v ∷ vs) x (inr i) = ground (arith, In-has_value vs x i)

matches-IsAt : (c : CronFields) (t : UtcDate) → matches c t ≡ true → IsAt c t
unfolding matches
matches-IsAt c t e = record {
  minute = has_value-In c.minute t.minutes (ground arith);
  hour = has_value-In c.hour t.hours (ground arith);
  day = has_value-In c.day t.date (ground arith);
  month = has_value-In c.month t.month (ground arith);
  weekday = has_value-In c.weekday t.day (ground arith);
}

IsAt-matches : (c : CronFields) (t : UtcDate) → IsAt c t → matches c t ≡ true
unfolding matches
IsAt-matches c t h = ground (
  arith,
  In-has_value c.minute t.minutes h.minute,
  In-has_value c.hour t.hours h.hour,
  In-has_value c.day t.date h.day,
  In-has_value c.month t.month h.month,
  In-has_value c.weekday t.day h.weekday,
)

-- None of the minutes matches.
abbrev Misses : (ℕ → UtcDate) → CronFields → ℕ → ℕ → Type 0
Misses calendar c n start = (j : ℕ) → j < n → matches c (calendar (start + j * 60000)) ≡ false

-- What a search over `n` minutes answers: the first minute that matches, if one does.
abbrev IsFirst : (ℕ → UtcDate) → CronFields → ℕ → ℕ → Option ℕ → Type 0
IsFirst calendar c n start (some t) =
    (k : ℕ) × (k < n)
    × (t ≡ start + k * 60000)
    × (matches c (calendar t) ≡ true)
    × Misses calendar c k start
IsFirst calendar c n start none = Misses calendar c n start

Misses-later :
    (calendar : ℕ → UtcDate) (c : CronFields) (n start : ℕ)
    → matches c (calendar start) ≡ false
    → Misses calendar c n (start + 60000)
    → Misses calendar c (suc n) start
Misses-later calendar c n start e h zero l =
    let q : start ≡ start + 0 * 60000 = omega arith in
    subst (λ t. matches c (calendar t) ≡ false) q e
Misses-later calendar c n start e h (suc j) l =
    let q : start + 60000 + j * 60000 ≡ start + suc j * 60000 = omega arith in
    subst (λ t. matches c (calendar t) ≡ false) q (h j (omega (arith, l)))

IsFirst-later :
    (calendar : ℕ → UtcDate) (c : CronFields) (n start : ℕ) (o : Option ℕ)
    → matches c (calendar start) ≡ false
    → IsFirst calendar c n (start + 60000) o
    → IsFirst calendar c (suc n) start o
IsFirst-later calendar c n start none e h = Misses-later calendar c n start e h
IsFirst-later calendar c n start (some t) e (k, l, p, m, f) =
    (suc k, omega (arith, l), omega (arith, p), m, Misses-later calendar c k start e f)

search_minute-IsFirst :
    (calendar : ℕ → UtcDate) (c : CronFields) (n start : ℕ)
    → IsFirst calendar c n start (search_minute calendar c n start)
unfolding search_minute
search_minute-IsFirst calendar c zero start = λ j l. absurd (omega arith)
search_minute-IsFirst calendar c (suc n) start = elim (Bool-cases (matches c (calendar start))) [
  | inl e ↦ rw (e, search_minute) (0, omega arith, omega arith, e, λ j l. absurd (omega arith))
  | inr e ↦
      rw (e, search_minute)
        (IsFirst-later calendar c n start _ e (search_minute-IsFirst calendar c n (start + 60000)))
]

-- No full minute that is later than `from_ms` and before `bound` is at the fields.
abbrev pub NoneBefore : (ℕ → UtcDate) → CronFields → ℕ → ℕ → Type 0
NoneBefore calendar c from_ms bound =
    (k : ℕ) → from_ms < k * 60000 → k * 60000 < bound → ¬ IsAt c (calendar (k * 60000))

-- The next full minute after `from_ms` that is at the fields, within 366 days.
abbrev pub IsNext : (ℕ → UtcDate) → CronFields → ℕ → Option ℕ → Type 0
IsNext calendar c from_ms (some t) =
    (k : ℕ) × (t ≡ k * 60000)
    × (from_ms < t)
    × (t ≤ from_ms + 366 * 24 * 60 * 60000)
    × IsAt c (calendar t)
    × NoneBefore calendar c from_ms t
IsNext calendar c from_ms none = NoneBefore calendar c from_ms (from_ms + 366 * 24 * 60 * 60000)

Misses-NoneBefore :
    (calendar : ℕ → UtcDate) (c : CronFields) (from_ms n bound : ℕ)
    → bound ≤ first_minute from_ms + n * 60000
    → Misses calendar c n (first_minute from_ms)
    → NoneBefore calendar c from_ms bound
Misses-NoneBefore calendar c from_ms n bound b h k l u at =
    let start = from_ms / 60000 + 1 in
    let j = k - start in
    let e : first_minute from_ms + j * 60000 ≡ k * 60000 = omega (arith, l) in
    let q = h j (omega (arith, l, u, b)) in
    let w = subst (λ x. matches c (calendar x) ≡ false) e q in
    absurd (ground (arith, IsAt-matches c (calendar (k * 60000)) at))

IsFirst-IsNext :
    (calendar : ℕ → UtcDate) (c : CronFields) (from_ms : ℕ) (o : Option ℕ)
    → IsFirst calendar c horizon (first_minute from_ms) o
    → IsNext calendar c from_ms o
IsFirst-IsNext calendar c from_ms none h =
    Misses-NoneBefore calendar c from_ms horizon _ (omega arith) h
IsFirst-IsNext calendar c from_ms (some t) (k, l, e, m, h) = (
  from_ms / 60000 + 1 + k,
  omega (arith, e),
  omega (arith, e),
  omega (arith, e, l),
  matches-IsAt c (calendar t) m,
  Misses-NoneBefore calendar c from_ms k t (omega (arith, e)) h,
)

-- The next occurrence of an expression that can be parsed is a full minute after the given time and at
-- most 366 days later, at which each of the five fields has the value of the date, and no full minute
-- between has this; if there is none, no full minute of the 366 days after the given time has it.
pub next_cron_occurrence-IsFirst :
    (natural_of : String → Option ℕ) (fields : String → List String) (calendar : ℕ → UtcDate)
    (expression : String) (from_ms : ℕ) (c : CronFields)
    → parse_cron natural_of (fields expression) ≡ some c
    → IsNext calendar c from_ms (next_cron_occurrence natural_of fields calendar expression from_ms)
unfolding next_cron_occurrence
next_cron_occurrence-IsFirst natural_of fields calendar expression from_ms c e = rw (e) (
    IsFirst-IsNext calendar c from_ms _
      (search_minute-IsFirst calendar c horizon (first_minute from_ms)))

parse_star : (natural_of : String → Option ℕ) → parse_cron_field natural_of "*" ≡ some (0 ∷ [])
unfolding parse_cron_field parse_parts split bounds_of number_or text_dec
parse_star natural_of = refl

all_fields-some :
    (a b c d e : Option (List ℕ)) (fs : CronFields)
    → all_fields a b c d e ≡ some fs
    → (c ≡ some fs.day) × (d ≡ some fs.month)
all_fields-some (some a) (some b) (some c) (some d) (some e) fs q =
    let made : CronFields = record { minute = a; hour = b; day = c; month = d; weekday = e } in
    let r : made ≡ fs = ground arith in (ap (λ x. some x.day) r, ap (λ x. some x.month) r)
all_fields-some none b c d e fs q = absurd (ground arith)
all_fields-some (some a) none c d e fs q = absurd (ground arith)
all_fields-some (some a) (some b) none d e fs q = absurd (ground arith)
all_fields-some (some a) (some b) (some c) none e fs q = absurd (ground arith)
all_fields-some (some a) (some b) (some c) (some d) none fs q = absurd (ground arith)

has_value-zero : (x : ℕ) → 0 < x → has_value (0 ∷ []) x ≡ false
has_value-zero x l = ground arith

search_minute-none :
    (calendar : ℕ → UtcDate) (c : CronFields)
    → ((t : ℕ) → matches c (calendar t) ≡ false)
    → (n start : ℕ) → search_minute calendar c n start ≡ none
unfolding search_minute
search_minute-none calendar c h zero start = refl
search_minute-none calendar c h (suc n) start =
    rw (h start, search_minute) (search_minute-none calendar c h n (start + 60000))

field_star :
    (natural_of : String → Option ℕ) (text : String) (vs : List ℕ)
    → text ≡ "*"
    → parse_cron_field natural_of text ≡ some vs
    → vs ≡ 0 ∷ []
field_star natural_of text vs e q =
    let r : parse_cron_field natural_of "*" ≡ some vs =
      subst (λ x. parse_cron_field natural_of x ≡ some vs) e q in
    ground (arith, parse_star natural_of)

matches-star :
    (c : CronFields) (t : UtcDate)
    → (c.day ≡ 0 ∷ []) ⊎ (c.month ≡ 0 ∷ [])
    → 0 < t.date
    → 0 < t.month
    → matches c t ≡ false
unfolding matches
matches-star c t (inl e) h k = ground (arith, has_value-zero t.date h)
matches-star c t (inr e) h k = ground (arith, has_value-zero t.month k)

parse_cron-some :
    (natural_of : String → Option ℕ) (a b c d e : String) (fs : CronFields)
    → parse_cron natural_of (a ∷ b ∷ c ∷ d ∷ e ∷ []) ≡ some fs
    → (parse_cron_field natural_of c ≡ some fs.day)
      × (parse_cron_field natural_of d ≡ some fs.month)
unfolding parse_cron
parse_cron-some natural_of a b c d e fs q =
    all_fields-some (parse_cron_field natural_of a) (parse_cron_field natural_of b)
      (parse_cron_field natural_of c) (parse_cron_field natural_of d)
      (parse_cron_field natural_of e) fs q

-- An expression with a star as its day or its month never occurs, at whatever time: the star is read
-- as zero, which is neither a day of a month nor a month.
pub star_never :
    (natural_of : String → Option ℕ) (fields : String → List String) (calendar : ℕ → UtcDate)
    (expression a b c d e : String) (from_ms : ℕ)
    → fields expression ≡ a ∷ b ∷ c ∷ d ∷ e ∷ []
    → (c ≡ "*") ⊎ (d ≡ "*")
    → ((t : ℕ) → (0 < (calendar t).date) × (0 < (calendar t).month))
    → next_cron_occurrence natural_of fields calendar expression from_ms ≡ none
unfolding next_cron_occurrence
star_never natural_of fields calendar expression a b c d e from_ms q s h =
    elim (Option-cases (parse_cron natural_of (fields expression))) [
      | inl r ↦ rw (r) refl
      | inr (fs, r) ↦
          let w : parse_cron natural_of (a ∷ b ∷ c ∷ d ∷ e ∷ []) ≡ some fs =
            subst (λ x. parse_cron natural_of x ≡ some fs) q r in
          let (x, y) = parse_cron-some natural_of a b c d e fs w in
          let z : (fs.day ≡ 0 ∷ []) ⊎ (fs.month ≡ 0 ∷ []) = elim s [
            | inl p ↦ inl (field_star natural_of c fs.day p x)
            | inr p ↦ inr (field_star natural_of d fs.month p y)
          ] in
          rw (r) (
            search_minute-none calendar fs (λ t. matches-star fs (calendar t) z (h t).0 (h t).1)
              horizon (first_minute from_ms))
    ]
