-- ===== src/Http/Date/Calendar.antt =====
-- src/http/date.rs: `civil` counts the days of the Gregorian calendar.
use oxi_serve.Base.{
  ℕ, zero, suc, ◌+◌, ◌*◌, ◌/◌, ◌%◌, Bool, true, false, ◌&&◌, ◌||◌, not, ◌≡◌, ◌≢◌, refl, sym, ap,
  ◌∙◌, ◌⊎◌, inl, inr, Bool-cases, ◌<◌, arith,
}
use oxi_serve.Base.{ltb, ◌==◌, if◌then◌else◌}
use oxi_serve.Http.Date.{civil, of_era, year_of_era, day_of_year}

unfoldable pub is_leap : ℕ → Bool
is_leap y = (y % 4 == 0) && (not (y % 100 == 0) || (y % 400 == 0))

unfoldable pub days_in_month : ℕ → ℕ → ℕ
unfolding is_leap
days_in_month y m =
    if m == 2
    then if is_leap y then 29 else 28
    else if m == 4
    then 30
    else if m == 6
    then 30
    else if m == 9
    then 30
    else if m == 11
    then 30
    else 31

-- The day after a day of the Gregorian calendar.
unfoldable pub next_day : ℕ × (ℕ × ℕ) → ℕ × (ℕ × ℕ)
unfolding days_in_month
next_day (y, (m, d)) =
    if ltb d (days_in_month y m)
    then (y, (m, d + 1))
    else if ltb m 12
    then (y, (m + 1, 1))
    else (y + 1, (1, 1))

same : ℕ × (ℕ × ℕ) → ℕ × (ℕ × ℕ) → Bool
same (a, (b, c)) (d, (e, f)) = (a == d) && ((b == e) && (c == f))

all_below : (ℕ → Bool) → ℕ → Bool
all_below test zero = true
all_below test (suc n) = let rest = all_below test n in if test n then rest else false

all_below-test : (test : ℕ → Bool) (n i : ℕ) → all_below test n ≡ true → i < n → test i ≡ true
unfolding all_below
all_below-test test zero i h lt = absurd (omega arith)
all_below-test test (suc n) i h lt =
    let ih = all_below-test test n i in
    elim (Bool-cases (test n)) [
      | inl e ↦ elim (last_or_before i n lt) [ inl q ↦ rw q e | inr p ↦ ih (rw e at h) p ]
      | inr e ↦ absurd (false≢true (rw e at h))
    ]
  where
    last_or_before : (i n : ℕ) → i < suc n → (i ≡ n) ⊎ (i < n)
    last_or_before i n h = grind arith

    false≢true : false ≢ true
    false≢true q = ground arith

same-eq : (a b : ℕ × (ℕ × ℕ)) → same a b ≡ true → a ≡ b
unfolding same
same-eq (a, (b, c)) (d, (e, f)) h =
    let p : a ≡ d = ground arith in
    let q : b ≡ e = ground arith in let r : c ≡ f = ground arith in rw (p, q, r) refl

one_day : ℕ → Bool
unfolding same
one_day z = same (civil (z + 1)) (next_day (civil z))

-- The days of four hundred years, in four parts of 96 rows of 383.
row : ℕ → Bool
row r = all_below (λ j. one_day (r * 383 + j)) 383

part : ℕ → Bool
unfolding row
part k = all_below (λ i. row (k * 96 + i)) 96

first_part : part 0 ≡ true
unfolding part row all_below one_day same civil of_era next_day is_leap days_in_month year_of_era
    day_of_year
first_part = refl

second_part : part 1 ≡ true
unfolding part row all_below one_day same civil of_era next_day is_leap days_in_month year_of_era
    day_of_year
second_part = refl

third_part : part 2 ≡ true
unfolding part row all_below one_day same civil of_era next_day is_leap days_in_month year_of_era
    day_of_year
third_part = refl

fourth_part : part 3 ≡ true
unfolding part row all_below one_day same civil of_era next_day is_leap days_in_month year_of_era
    day_of_year
fourth_part = refl

every_part : (k : ℕ) → k < 4 → part k ≡ true
every_part zero h = first_part
every_part (suc zero) h = second_part
every_part (suc (suc zero)) h = third_part
every_part (suc (suc (suc zero))) h = fourth_part
every_part (suc (suc (suc (suc k)))) h = absurd (omega arith)

table-next_day : (z : ℕ) → z < 146097 → civil (z + 1) ≡ next_day (civil z)
unfolding one_day row part
table-next_day z h =
    let k = z / 36768 in
    let i = z / 383 % 96 in
    let days =
      all_below-test (λ i. row (k * 96 + i)) 96 i (every_part k (omega arith)) (omega arith) in
    let day =
      all_below-test (λ j. one_day ((k * 96 + i) * 383 + j)) 383 (z % 383) days (omega arith) in
    same-eq (civil (z + 1)) (next_day (civil z)) (rw (division z) day)
  where
    division : (z : ℕ) → z ≡ (z / 36768 * 96 + z / 383 % 96) * 383 + z % 383
    division z = omega arith

later : ℕ → ℕ × (ℕ × ℕ) → ℕ × (ℕ × ℕ)
later q (y, rest) = (y + q * 400, rest)

of_era_shift : (q era doe : ℕ) → of_era (q + era) doe ≡ later q (of_era era doe)
unfolding of_era later
of_era_shift q era doe = ap (λ t. (t, (of_era era doe).1)) (omega arith)

-- The calendar repeats after four hundred years.
civil_shift : (q z : ℕ) → civil (q * 146097 + z) ≡ later q (civil z)
unfolding civil
civil_shift q z =
    let days : (q * 146097 + z + 719468) / 146097 ≡ q + (z + 719468) / 146097 = omega arith in
    let rest : (q * 146097 + z + 719468) % 146097 ≡ (z + 719468) % 146097 = omega arith in
    rw (days, rest) (of_era_shift q ((z + 719468) / 146097) ((z + 719468) % 146097))

days_in_month_shift : (q y m : ℕ) → days_in_month (y + q * 400) m ≡ days_in_month y m
unfolding days_in_month is_leap
days_in_month_shift q y m =
    let a : (y + q * 400) % 4 ≡ y % 4 = omega arith in
    let b : (y + q * 400) % 100 ≡ y % 100 = omega arith in
    let c : (y + q * 400) % 400 ≡ y % 400 = omega arith in rw (a, b, c) refl

next_day_shift : (q : ℕ) (t : ℕ × (ℕ × ℕ)) → next_day (later q t) ≡ later q (next_day t)
unfolding next_day later
next_day_shift q (y, (m, d)) = elim (Bool-cases (ltb d (days_in_month y m))) [
  | inl e ↦ rw (days_in_month_shift q y m, e) refl
  | inr e ↦ elim (Bool-cases (ltb m 12)) [
    | inl f ↦ rw (days_in_month_shift q y m, e, f) refl
    | inr f ↦ rw (days_in_month_shift q y m, e, f) (ap (λ t. (t, (1, 1))) (omega arith))
  ]
]

pub civil-next_day : (z : ℕ) → civil (z + 1) ≡ next_day (civil z)
civil-next_day z =
    let q = z / 146097 in
    let r = z % 146097 in
    let whole : z ≡ q * 146097 + r = omega arith in
    let after : z + 1 ≡ q * 146097 + (r + 1) = omega arith in
    rw after (civil_shift q (r + 1))
    ∙ ap (later q) (table-next_day r (omega arith))
    ∙ sym (next_day_shift q (civil r))
    ∙ ap next_day (sym (civil_shift q r) ∙ ap civil (sym whole))
