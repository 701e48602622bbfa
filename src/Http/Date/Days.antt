-- ===== src/Http/Date/Days.antt =====
-- src/http/date.rs: the dates of the days since 1970, one after the other.
use oxi_serve.Base.{
  ℕ, ◌+◌, ◌*◌, ◌/◌, ◌%◌, ◌^◌, ◌<◌, ◌≤◌, leb, if◌then◌else◌, ◌≡◌, sym, ap, ◌∙◌, arith,
}
use oxi_serve.Http.Date.{civil_from_days, civil, of_era, year_of_era, day_of_week}
use oxi_serve.Http.Date.Calendar.{next_day, civil-next_day}

year_of_era-le : (doe : ℕ) → doe < 146097 → year_of_era doe ≤ 400
unfolding year_of_era
year_of_era-le doe h = omega arith

first_of_year : (m : ℕ) → (if leb m 2 then 1 else 0) ≤ 1
first_of_year m = ground arith

of_era-le : (era doe : ℕ) → doe < 146097 → (of_era era doe).0 ≤ era * 400 + 401
unfolding of_era
of_era-le era doe h = omega (arith, year_of_era-le doe h, first_of_year ((of_era era doe).1.0))

civil-le : (z : ℕ) → z < 2 ^ 39 → (civil z).0 < 2 ^ 32
unfolding civil
civil-le z h =
    omega (arith, of_era-le ((z + 719468) / 146097) ((z + 719468) % 146097) (omega arith))

civil_from_days-civil : (z : ℕ) → z < 2 ^ 39 → civil_from_days z ≡ civil z
unfolding civil_from_days
civil_from_days-civil z h = ap (λ t. (t, (civil z).1)) (mod_small ((civil z).0) (civil-le z h))
  where
    mod_small : (a : ℕ) → a < 2 ^ 32 → a % 2 ^ 32 ≡ a
    mod_small a lt = omega arith

-- For any number of days since 1970 below 2^39 - 1, the date that `civil_from_days` computes of the
-- next day is the day after in the Gregorian calendar, with its leap years, and the day of the week
-- that `append_http_date_of` takes is the next one.
pub civil_from_days-next_day :
    (z : ℕ)
    → z + 1 < 2 ^ 39
    → (civil_from_days (z + 1) ≡ next_day (civil_from_days z))
      × (day_of_week (z + 1) ≡ (day_of_week z + 1) % 7)
unfolding day_of_week
civil_from_days-next_day z h = (
  civil_from_days-civil (z + 1) h
      ∙ civil-next_day z
      ∙ ap next_day (sym (civil_from_days-civil z (omega arith))),
  omega arith,
)
