-- ===== src/JobScheduler/Intervals.antt =====
-- `parseInterval` of services/runtime/src/job-scheduler.ts, on the codes of a trimmed text. Exact
-- products stand for those of floating point: both are safe integers in the same cases, and then
-- equal.
use Prim.Native.Char.{code}
use Prim.Native.String.{String}
use Prim.Native.Nat.{◌%◌}
use native.Mathlib.Numerals.{unary_clauses}
use nova_test.Common.{
  ℕ, zero, suc, ◌+◌, ◌-◌, ◌*◌, ◌/◌, ◌≤◌, ◌<◌, ◌≡◌, refl, ap, ◌∙◌, Bool, true, false, List, [], ◌∷◌,
  Option, none, some, ltb, leb, ◌==◌, ◌&&◌, if◌then◌else◌, arith,
}

unfoldable pub codes : String → List ℕ
codes String.[] = []
codes (String.◌∷◌ c s) = code c ∷ codes s

-- The milliseconds of the unit with the code.
unfoldable pub multiplier : ℕ → Option ℕ
multiplier c =
    if c == 115
    then some 1000
    else if c == 109
    then some 60000
    else if c == 104
    then some 3600000
    else if c == 100
    then some 86400000
    else none

-- A unit after at least one digit and before the end.
abbrev pub last_unit : ℕ → Bool → List ℕ → Option ℕ → Option (ℕ × ℕ)
last_unit value true [] (some k) = some (value, k)
last_unit value _ _ _ = none

-- The regular expression: digits, at least one, and then a unit. `value` is that of the digits read.
unfoldable pub match_interval : ℕ → Bool → List ℕ → Option (ℕ × ℕ)
unfolding multiplier
match_interval value digits [] = none
match_interval value digits (c ∷ cs) =
    let more = match_interval (value * 10 + (c - 48)) true cs in
    if leb 48 c && leb c 57 then more else last_unit value digits cs (multiplier c)

abbrev pub max_safe_integer : ℕ
max_safe_integer = 9007199254740991

abbrev pub safe_product : Option (ℕ × ℕ) → Option ℕ
safe_product none = none
safe_product (some (amount, k)) =
    if leb (amount * k) max_safe_integer && ltb 0 (amount * k) then some (amount * k) else none

-- An error is `none`.
unfoldable pub parse_interval : (String → String) → String → Option ℕ
unfolding match_interval codes
parse_interval trim value = safe_product (match_interval 0 false (codes (trim value)))

-- The codes of the decimal digits of a number, before others.
unfoldable pub digits : ℕ → ℕ → List ℕ → List ℕ
digits zero n rest = (48 + n) ∷ rest
digits (suc fuel) n rest =
    let more = digits fuel (n / 10) ((48 + n % 10) ∷ rest) in
    if ltb n 10 then (48 + n) ∷ rest else more

abbrev pub numeral : ℕ → List ℕ → List ℕ
numeral n = digits n n

match_interval-digit :
    (value d : ℕ) (seen : Bool) (rest : List ℕ)
    → d < 10
    → match_interval value seen ((48 + d) ∷ rest) ≡ match_interval (value * 10 + d) true rest
unfolding match_interval
match_interval-digit value d seen rest l = ground arith

match_interval-digits :
    (fuel n : ℕ) (seen : Bool) (rest : List ℕ)
    → n ≤ fuel
    → match_interval 0 seen (digits fuel n rest) ≡ match_interval n true rest
unfolding digits
match_interval-digits zero n seen rest l =
    ground (arith, match_interval-digit 0 n seen rest (omega arith))
match_interval-digits (suc fuel) n seen rest l = ground (
  arith,
  match_interval-digit 0 n seen rest,
  match_interval-digits fuel (n / 10) seen ((48 + n % 10) ∷ rest),
  match_interval-digit (n / 10) (n % 10) true rest,
)

multiplier-some : (unit k : ℕ) → multiplier unit ≡ some k → (57 < unit) × (0 < k)
unfolding multiplier
multiplier-some unit k e = (ground arith, ground arith)

product-pos : (n k : ℕ) → 0 < n → 0 < k → 0 < n * k
product-pos n zero p q = absurd (omega arith)
product-pos n (suc k) p q = simp unary_clauses (omega arith)

match_interval-unit :
    (n unit k : ℕ) → multiplier unit ≡ some k → match_interval n true (unit ∷ []) ≡ some (n, k)
unfolding match_interval
match_interval-unit n unit k e = ground (arith, multiplier-some unit k e)

-- The letters s, m, h and d with the milliseconds of a second, a minute, an hour and a day.
pub data IsUnit : ℕ → ℕ → Type 0 where
  seconds : IsUnit 115 1000
  minutes : IsUnit 109 (60 * 1000)
  hours : IsUnit 104 (60 * 60 * 1000)
  days : IsUnit 100 (24 * 60 * 60 * 1000)

multiplier-IsUnit : {unit k : ℕ} → IsUnit unit k → multiplier unit ≡ some k
unfolding multiplier
multiplier-IsUnit seconds = refl
multiplier-IsUnit minutes = refl
multiplier-IsUnit hours = refl
multiplier-IsUnit days = refl

-- An interval that is written with the digits of a positive number and the letter of seconds,
-- minutes, hours or days is read as that many milliseconds, if their number is a safe integer.
pub parse_interval-numeral :
    (trim : String → String) (value : String) (n unit k : ℕ)
    → IsUnit unit k
    → codes (trim value) ≡ numeral n (unit ∷ [])
    → 0 < n
    → n * k ≤ max_safe_integer
    → parse_interval trim value ≡ some (n * k)
unfolding parse_interval
parse_interval-numeral trim value n unit k u e p l =
    let h = multiplier-IsUnit u in
    let (a, b) = multiplier-some unit k h in
    let m : match_interval 0 false (codes (trim value)) ≡ some (n, k) =
      ap (match_interval 0 false) e
      ∙ match_interval-digits n n false (unit ∷ []) (omega arith)
      ∙ match_interval-unit n unit k h in
    ground (arith, product-pos n k p b)
