-- ===== src/JobScheduler/Cron.antt =====
-- `parseCronField` and `nextCronOccurrence` of services/runtime/src/job-scheduler.ts. What stands for
-- the platform: `natural_of`, the number that `Number` reads in a text if it is natural, `fields`, the
-- parts of a trimmed text between white space, and `calendar`, the UTC fields of a `Date`.
pub mod Matching
use Prim.Native.Char.{code}
use nova_test.Common.{
  ℕ, zero, suc, ◌+◌, ◌-◌, ◌*◌, ◌/◌, Bool, true, false, List, [], ◌∷◌, ◌++◌, String, Option, none,
  some, same, any, ltb, ◌==◌, ◌&&◌, if◌then◌else◌, is_empty,
}

-- `text.split(c)`
unfoldable pub split : ℕ → String → List String
split c String.[] = "" ∷ []
split c (String.◌∷◌ d s) = elim (split c s) [
  | [] ↦ []
  | part ∷ parts ↦ if code d == c then "" ∷ part ∷ parts else String.◌∷◌ d part ∷ parts
]

unfoldable pub number_or : (String → Option ℕ) → ℕ → String → Option ℕ
number_or natural_of star raw = if same raw "*" then some star else natural_of raw

-- From the parts of a range, of which the third and later ones are not read.
unfoldable pub bounds_of : (String → Option ℕ) → List String → Option ℕ × Option ℕ
unfolding number_or
bounds_of natural_of [] = (none, none)
bounds_of natural_of (a ∷ []) = (number_or natural_of 0 a, number_or natural_of 0 a)
bounds_of natural_of (a ∷ b ∷ _) = (number_or natural_of 0 a, number_or natural_of 59 b)

abbrev pub range : ℕ → ℕ → List ℕ
range start zero = []
range start (suc n) = start ∷ range (suc start) n

abbrev pub values_of : Option ℕ × Option ℕ → Option (List ℕ)
values_of (some start, some end) =
    if ltb end start then none else some (range start (suc (end - start)))
values_of _ = none

abbrev pub append_values : Option (List ℕ) → Option (List ℕ) → Option (List ℕ)
append_values (some vs) (some ws) = some (vs ++ ws)
append_values _ _ = none

unfoldable pub parse_parts : (String → Option ℕ) → List String → Option (List ℕ)
unfolding bounds_of split
parse_parts natural_of [] = some []
parse_parts natural_of (part ∷ parts) =
    append_values (values_of (bounds_of natural_of (split 45 part))) (parse_parts natural_of parts)

abbrev pub not_empty : Option (List ℕ) → Option (List ℕ)
not_empty none = none
not_empty (some vs) = if is_empty vs then none else some vs

-- The set of values as a list. An error is `none`.
unfoldable pub parse_cron_field : (String → Option ℕ) → String → Option (List ℕ)
unfolding parse_parts split
parse_cron_field natural_of value = not_empty (parse_parts natural_of (split 44 value))

pub record UtcDate : Type 0 where
  pub minutes : ℕ
  pub hours : ℕ
  pub date : ℕ
  pub month : ℕ
  pub day : ℕ

pub record CronFields : Type 0 where
  pub minute : List ℕ
  pub hour : List ℕ
  pub day : List ℕ
  pub month : List ℕ
  pub weekday : List ℕ

abbrev pub has_value : List ℕ → ℕ → Bool
has_value vs x = any (λ v. v == x) vs

unfoldable pub matches : CronFields → UtcDate → Bool
matches c t =
    has_value c.minute t.minutes
    && has_value c.hour t.hours
    && has_value c.day t.date
    && has_value c.month t.month
    && has_value c.weekday t.day

-- The loop over the minutes of the horizon.
unfoldable pub search_minute : (ℕ → UtcDate) → CronFields → ℕ → ℕ → Option ℕ
unfolding matches
search_minute calendar c zero t = none
search_minute calendar c (suc fuel) t = elim (matches c (calendar t)) [
  | true ↦ some t
  | false ↦ search_minute calendar c fuel (t + 60000)
]

abbrev pub horizon : ℕ
horizon = 366 * 24 * 60

-- The next full minute.
abbrev pub first_minute : ℕ → ℕ
first_minute from_ms = (from_ms / 60000 + 1) * 60000

abbrev pub all_fields :
    Option (List ℕ)
    → Option (List ℕ)
    → Option (List ℕ)
    → Option (List ℕ)
    → Option (List ℕ)
    → Option CronFields
all_fields (some a) (some b) (some c) (some d) (some e) =
    some (record { minute = a; hour = b; day = c; month = d; weekday = e })
all_fields _ _ _ _ _ = none

unfoldable pub parse_cron : (String → Option ℕ) → List String → Option CronFields
unfolding parse_cron_field
parse_cron natural_of (a ∷ b ∷ c ∷ d ∷ e ∷ []) =
    all_fields (parse_cron_field natural_of a) (parse_cron_field natural_of b)
      (parse_cron_field natural_of c) (parse_cron_field natural_of d)
      (parse_cron_field natural_of e)
parse_cron natural_of _ = none

abbrev pub search_from : (ℕ → UtcDate) → ℕ → Option CronFields → Option ℕ
search_from calendar from_ms none = none
search_from calendar from_ms (some c) = search_minute calendar c horizon (first_minute from_ms)

-- An error is `none`.
unfoldable pub next_cron_occurrence :
    (String → Option ℕ) → (String → List String) → (ℕ → UtcDate) → String → ℕ → Option ℕ
unfolding parse_cron search_minute
next_cron_occurrence natural_of fields calendar expression from_ms =
    search_from calendar from_ms (parse_cron natural_of (fields expression))
