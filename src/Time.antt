-- ===== src/Time.antt =====
-- `parse_rfc3339_utc_datetime` of syvert/resource_lifecycle.py and syvert/resource_trace.py, with the
-- part of `datetime.fromisoformat` (Python 3.11 and later) that their patterns leave to it. An
-- instant is the number whose digits, in mixed radix, are year, month, day, hour, minute, second and
-- microsecond, so that instants compare as Python's datetimes do.
use syvert.Common.{
  ◌≡◌, refl, codes, ℕ, zero, suc, ◌+◌, ◌-◌, ◌*◌, ◌%◌, ◌^◌, String, Bool, true, false, not, ◌&&◌,
  ◌||◌, Option, none, some, List, [], ◌∷◌, ltb, leb, eqb, if◌then◌else◌, Error, Result, ok, err,
}

infixl 5 ◌>>=◌ ◌>>◌
abbrev ◌>>=◌ {ℓ κ} : {A : Type ℓ} {B : Type κ} → Option A → (A → Option B) → Option B
none >>= f = none
some a >>= f = f a

abbrev ◌>>◌ {ℓ κ} : {A : Type ℓ} {B : Type κ} → Option A → Option B → Option B
m >> k = m >>= λ _. k

abbrev check : Bool → Option (Unit {0})
check true = some tt
check false = none

is_digit : ℕ → Bool
is_digit c = leb b'0' c && leb c b'9'

-- `\d{n}`
take_number : ℕ → ℕ → List ℕ → Option (ℕ × List ℕ)
unfolding is_digit
take_number zero acc cs = some (acc, cs)
take_number (suc n) acc [] = none
take_number (suc n) acc (c ∷ cs) =
    let rest = take_number n (acc * 10 + (c - 48)) cs in if is_digit c then rest else none

skip : ℕ → List ℕ → Option (List ℕ)
skip c [] = none
skip c (d ∷ cs) = if eqb c d then some cs else none

-- The digits of a fraction: six count, and the others are dropped.
fraction : ℕ → ℕ → List ℕ → ℕ × List ℕ
unfolding is_digit
fraction places acc [] = (acc * 10 ^ places, [])
fraction places acc (c ∷ cs) =
    let rest = fraction (places - 1) (if eqb places 0 then acc else acc * 10 + (c - 48)) cs in
    if is_digit c then rest else (acc * 10 ^ places, c ∷ cs)

after_point : List ℕ → Option (ℕ × List ℕ)
unfolding is_digit fraction
after_point [] = none
after_point (c ∷ cs) = if is_digit c then some (fraction 6 0 (c ∷ cs)) else none

-- `(?:\.\d+)?`
optional_fraction : List ℕ → Option (ℕ × List ℕ)
unfolding after_point
optional_fraction [] = some (0, [])
optional_fraction (c ∷ cs) = if eqb c b'.' then after_point cs else some (0, c ∷ cs)

same_codes : List ℕ → List ℕ → Bool
same_codes [] [] = true
same_codes (c ∷ cs) (d ∷ ds) = eqb c d && same_codes cs ds
same_codes _ _ = false

is_leap : ℕ → Bool
is_leap year = eqb (year % 4) 0 && (not (eqb (year % 100) 0) || eqb (year % 400) 0)

days_in_month : ℕ → ℕ → ℕ
unfolding is_leap
days_in_month year month =
    if eqb month 2
    then (if is_leap year then 29 else 28)
    else if eqb month 4 || eqb month 6 || eqb month 9 || eqb month 11
    then 30
    else 31

instant : ℕ → ℕ → ℕ → ℕ → ℕ → ℕ → ℕ → ℕ
instant year month day hour minute second micro =
    ((((((year * 13 + month) * 32 + day) * 24 + hour) * 60 + minute) * 60 + second) * 1000000)
    + micro

-- The instant of a text whose offset `is_utc` accepts.
parse_datetime : (List ℕ → Bool) → List ℕ → Option ℕ
unfolding take_number skip optional_fraction days_in_month instant
parse_datetime is_utc cs = do
  (year, cs) ← take_number 4 0 cs
  cs ← skip b'-' cs
  (month, cs) ← take_number 2 0 cs
  cs ← skip b'-' cs
  (day, cs) ← take_number 2 0 cs
  cs ← skip b'T' cs
  (hour, cs) ← take_number 2 0 cs
  cs ← skip b':' cs
  (minute, cs) ← take_number 2 0 cs
  cs ← skip b':' cs
  (second, cs) ← take_number 2 0 cs
  (micro, cs) ← optional_fraction cs
  check (is_utc cs)
  check
      (leb 1 year && leb 1 month && leb month 12 && leb 1 day && leb day (days_in_month year month))
  check (ltb hour 24 && ltb minute 60 && ltb second 60)
  some (instant year month day hour minute second micro)

unfoldable pub or_raise : Error → Option ℕ → Result ℕ
or_raise e none = err e
or_raise e (some t) = ok t

-- The lifecycle's pattern takes any offset, of which `+00:00` and `-00:00` are UTC.
is_utc_offset : List ℕ → Bool
unfolding same_codes codes
is_utc_offset cs =
    same_codes cs (codes "Z") || same_codes cs (codes "+00:00") || same_codes cs (codes "-00:00")

-- The trace's pattern takes `Z` and `+00:00`.
is_zulu : List ℕ → Bool
unfolding same_codes codes
is_zulu cs = same_codes cs (codes "Z") || same_codes cs (codes "+00:00")

-- resource_lifecycle.parse_rfc3339_utc_datetime
unfoldable pub parse_lifecycle_time : String → Result ℕ
unfolding parse_datetime is_utc_offset codes or_raise
parse_lifecycle_time value = or_raise Error.contract (parse_datetime is_utc_offset (codes value))

-- resource_trace.parse_rfc3339_utc_datetime
unfoldable pub parse_trace_time : String → Result ℕ
unfolding parse_datetime is_zulu codes or_raise
parse_trace_time value = or_raise Error.trace_contract (parse_datetime is_zulu (codes value))

-- No time is the empty text.
pub parse_lifecycle_time-empty : parse_lifecycle_time "" ≡ err Error.contract
unfolding parse_lifecycle_time
parse_lifecycle_time-empty = refl
