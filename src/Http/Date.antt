-- ===== src/Http/Date.antt =====
-- src/http/date.rs: the calendar date of a day since 1970, and the text of an HTTP date.
pub mod Calendar
mod Days
mod Examples
use oxi_serve.Base.{
  ℕ, zero, suc, ◌+◌, ◌-◌, ◌*◌, ◌/◌, ◌%◌, ◌^◌, Bool, true, false, ◌&&◌, List, [], ◌∷◌, ◌++◌, Option,
  none, some,
}
use oxi_serve.Base.{leb, ltb, ◌==◌, if◌then◌else◌, get_elem?, min}
use oxi_serve.Base.Bytes.{Bytes, codes}
use oxi_serve.Base.Opt.{◌>>=◌}

-- The year of the era from March on, the month from March on and the day, of a day of the era.
unfoldable pub year_of_era : ℕ → ℕ
year_of_era doe = (doe - doe / 1460 + doe / 36524 - doe / 146096) / 365

unfoldable pub day_of_year : ℕ → ℕ
unfolding year_of_era
day_of_year doe = let yoe = year_of_era doe in doe - (365 * yoe + yoe / 4 - yoe / 100)

-- The year, the month and the day, of an era and a day of it, before the cast of the year.
unfoldable pub of_era : ℕ → ℕ → ℕ × (ℕ × ℕ)
unfolding year_of_era day_of_year
of_era era doe =
    let y = year_of_era doe + era * 400 in
    let doy = day_of_year doe in
    let mp = (5 * doy + 2) / 153 in
    let d = doy - (153 * mp + 2) / 5 + 1 in
    let m = if ltb mp 10 then mp + 3 else mp - 9 in (y + (if leb m 2 then 1 else 0), (m, d))

unfoldable pub civil : ℕ → ℕ × (ℕ × ℕ)
civil days = of_era ((days + 719468) / 146097) ((days + 719468) % 146097)

-- The cast of the year leaves the 32 bits of an `i32`.
unfoldable pub civil_from_days : ℕ → ℕ × (ℕ × ℕ)
unfolding civil
civil_from_days days = let (y, (m, d)) = civil days in (y % 2 ^ 32, (m, d))

-- Text --------------------------------------------------------------------------------------------
-- `to_string` of a number, least digit last
unfoldable pub digits : ℕ → ℕ → Bytes
digits zero n = []
digits (suc fuel) n =
    let front = digits fuel (n / 10) in
    if ltb n 10 then (48 + n) ∷ [] else front ++ ((48 + n % 10) ∷ [])

-- A `u64` has at most twenty digits.
unfoldable pub itoa : ℕ → Bytes
unfolding digits
itoa n = digits 20 n

unfoldable pub pad2 : ℕ → Bytes
unfolding itoa
pad2 n = if ltb n 10 then 48 ∷ itoa n else itoa n

abbrev pub days_of_week : List Bytes
days_of_week =
    codes "Sun"
    ∷ codes "Mon"
    ∷ codes "Tue"
    ∷ codes "Wed"
    ∷ codes "Thu"
    ∷ codes "Fri"
    ∷ codes "Sat"
    ∷ []

abbrev pub months : List Bytes
months =
    codes "Jan"
    ∷ codes "Feb"
    ∷ codes "Mar"
    ∷ codes "Apr"
    ∷ codes "May"
    ∷ codes "Jun"
    ∷ codes "Jul"
    ∷ codes "Aug"
    ∷ codes "Sep"
    ∷ codes "Oct"
    ∷ codes "Nov"
    ∷ codes "Dec"
    ∷ []

unfoldable pub day_of_week : ℕ → ℕ
day_of_week days = (days + 4) % 7

-- Text of a time in seconds since 1970; none where an index is out of bounds.
unfoldable pub append_http_date_of : ℕ → Bytes → Option Bytes
unfolding civil_from_days day_of_week pad2 itoa
append_http_date_of secs out =
    let days = secs / 86400 in
    let rem = secs % 86400 in
    let (y, (m, d)) = civil_from_days days in
    get_elem? days_of_week (day_of_week days) >>= λ day.
    get_elem? months (min (m - 1) 11) >>= λ month. some (
      out
      ++ day
      ++ codes ", "
      ++ pad2 d
      ++ codes " "
      ++ month
      ++ codes " "
      ++ itoa y
      ++ codes " "
      ++ pad2 (rem / 3600)
      ++ codes ":"
      ++ pad2 (rem % 3600 / 60)
      ++ codes ":"
      ++ pad2 (rem % 60)
      ++ codes " GMT")
