-- ===== src/Http/Date/Examples.antt =====
-- src/http/date.rs: runs of the dates and of their text, and the theorem at a concrete input.
use oxi_serve.Base.{◌+◌, ◌%◌, ◌≡◌, refl, [], some, arith}
use oxi_serve.Base.Bytes.{codes}
use oxi_serve.Http.Date.{
  civil_from_days, civil, of_era, year_of_era, day_of_year, day_of_week, digits, itoa, pad2,
  append_http_date_of,
}
use oxi_serve.Http.Date.Calendar.{next_day}
use oxi_serve.Http.Date.Days.{civil_from_days-next_day}

civil_from_days-next_day_example :
    (civil_from_days 11017 ≡ next_day (civil_from_days 11016))
    × (day_of_week 11017 ≡ (day_of_week 11016 + 1) % 7)
civil_from_days-next_day_example = civil_from_days-next_day 11016 (omega arith)

-- The first day, and the last of a February with 29 days.
days_run :
    (civil_from_days 0 ≡ (1970, (1, 1)))
    × ((day_of_week 0 ≡ 4) × (civil_from_days 11016 ≡ (2000, (2, 29))))
unfolding civil_from_days civil of_era year_of_era day_of_year day_of_week
days_run = (refl, (refl, refl))

text_run : append_http_date_of 784111777 [] ≡ some (codes "Sun, 06 Nov 1994 08:49:37 GMT")
unfolding append_http_date_of civil_from_days civil of_era year_of_era day_of_year day_of_week
    digits itoa pad2
text_run = refl
