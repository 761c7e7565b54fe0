-- ===== src/Text/Time.antt =====
-- `isoUtc` of the schemas (src/server/execution/onchain-evidence.ts, v4-contracts.ts): the text has
-- the form `YYYY-MM-DDTHH:MM:SS.mmmZ`, and `new Date(value).toISOString() === value`, which holds of
-- that form exactly when it names a day of the calendar and a time of the day.
use edict.Prelude.{
  ℕ, ◌+◌, ◌-◌, ◌*◌, ◌%◌, String, Bool, true, false, not, ◌&&◌, ◌||◌, List, [], ◌∷◌, leb, ◌==◌,
  if◌then◌else◌,
}
use edict.Text.{codes, is_digit}

-- `\d` as a number
abbrev digit : ℕ → ℕ
digit c = c - b'0'

abbrev two : ℕ → ℕ → ℕ
two a b = digit a * 10 + digit b

is_leap : ℕ → Bool
is_leap y = y % 4 == 0 && (not (y % 100 == 0) || y % 400 == 0)

days_in_month : ℕ → ℕ → ℕ
days_in_month y m =
    if m == 2
    then (if is_leap y then 29 else 28)
    else if m == 4 || m == 6 || m == 9 || m == 11
    then 30
    else 31

is_calendar_day : ℕ → ℕ → ℕ → Bool
is_calendar_day y m d = leb 1 m && leb m 12 && leb 1 d && leb d (days_in_month y m)

is_time_of_day : ℕ → ℕ → ℕ → Bool
is_time_of_day h m s = leb h 23 && leb m 59 && leb s 59

all_digits : List ℕ → Bool
all_digits [] = true
all_digits (c ∷ cs) = is_digit c && all_digits cs

iso_codes : List ℕ → Bool
iso_codes
      (y1 ∷ y2 ∷ y3 ∷ y4 ∷ s1 ∷ m1 ∷ m2 ∷ s2 ∷ d1 ∷ d2 ∷ t ∷ h1 ∷ h2 ∷ s3 ∷ n1 ∷ n2 ∷ s4 ∷ c1 ∷ c2
        ∷ s5 ∷ f1 ∷ f2 ∷ f3 ∷ z ∷ []) =
    all_digits
      (y1 ∷ y2 ∷ y3 ∷ y4 ∷ m1 ∷ m2 ∷ d1 ∷ d2 ∷ h1 ∷ h2 ∷ n1 ∷ n2 ∷ c1 ∷ c2 ∷ f1 ∷ f2 ∷ f3 ∷ [])
    && s1 == b'-'
    && s2 == b'-'
    && t == b'T'
    && s3 == b':'
    && s4 == b':'
    && s5 == b'.'
    && z == b'Z'
    && is_calendar_day (two y1 y2 * 100 + two y3 y4) (two m1 m2) (two d1 d2)
    && is_time_of_day (two h1 h2) (two n1 n2) (two c1 c2)
iso_codes _ = false

unfoldable pub is_iso_utc : String → Bool
unfolding iso_codes all_digits is_calendar_day days_in_month is_leap is_time_of_day
is_iso_utc s = iso_codes (codes s)
