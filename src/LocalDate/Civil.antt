-- ===== src/LocalDate/Civil.antt =====
-- lib/parsers/local_date.js, daysFromCivil: the days of the Gregorian calendar, counted by years and
-- months.
use node_mysql.Prelude.{
  ℕ, zero, suc, ◌+◌, ◌-◌, ◌*◌, ◌/◌, ◌%◌, ◌≤◌, ◌≡◌, refl, ◌∙◌, false, ◌||◌, ◌&&◌, not, List, [], ◌∷◌,
  ℤ, pos, ◌+ℤ◌, ◌-ℤ◌, leb, ◌==◌, if◌then◌else◌, get_or, arith,
}
use node_mysql.LocalDate.{days_from_civil}

-- A leap day, in the years that have one.
abbrev pub leap_day : ℕ → ℕ
leap_day year = if year % 4 == 0 && (not (year % 100 == 0) || (year % 400 == 0)) then 1 else 0

-- The days of the years and months before; 719162 days come before 1970.
abbrev pub days_before_year : ℕ → ℕ
days_before_year year = let n = year - 1 in n * 365 + n / 4 - n / 100 + n / 400

-- The days before each month of a year without a leap day, from 1.
abbrev months : List ℕ
months = 0 ∷ 0 ∷ 31 ∷ 59 ∷ 90 ∷ 120 ∷ 151 ∷ 181 ∷ 212 ∷ 243 ∷ 273 ∷ 304 ∷ 334 ∷ []

abbrev pub days_before_month : ℕ → ℕ → ℕ
days_before_month year month = get_or months month 0 + (if leb month 2 then 0 else leap_day year)

-- The days since 1970-01-01.
abbrev pub civil_day : ℕ → ℕ → ℕ → ℤ
civil_day year month day =
    pos (days_before_year year + days_before_month year month + day) -ℤ pos 719163

abbrev era_days : ℕ → ℕ
era_days y = let r = y - y / 400 * 400 in y / 400 * 146097 + (r * 365 + r / 4 - r / 100)

era_days-eq : (y : ℕ) → era_days y ≡ y * 365 + y / 4 - y / 100 + y / 400
era_days-eq y = omega arith

era_days-leap : (y : ℕ) → 1 ≤ y → era_days y ≡ days_before_year y + 365 + leap_day y
era_days-leap y h = ground arith

-- The months from March, which the code counts by a formula.
march_days :
    (n : ℕ)
    → n ≤ 9
    → get_or months (suc (suc (suc n))) 0 ≡ 59 + (153 * ((suc (suc (suc n)) + 9) % 12) + 2) / 5
march_days zero high = refl
march_days (suc zero) high = refl
march_days (suc (suc zero)) high = refl
march_days (suc (suc (suc zero))) high = refl
march_days (suc (suc (suc (suc zero)))) high = refl
march_days (suc (suc (suc (suc (suc zero))))) high = refl
march_days (suc (suc (suc (suc (suc (suc zero)))))) high = refl
march_days (suc (suc (suc (suc (suc (suc (suc zero))))))) high = refl
march_days (suc (suc (suc (suc (suc (suc (suc (suc zero)))))))) high = refl
march_days (suc (suc (suc (suc (suc (suc (suc (suc (suc zero))))))))) high = refl
march_days (suc (suc (suc (suc (suc (suc (suc (suc (suc (suc n)))))))))) high = omega arith

same_day : (a b m n : ℕ) → a + n ≡ b + m → pos a -ℤ pos m ≡ pos b -ℤ pos n
unfolding ◌-ℤ◌
same_day a b m n e = ground arith

day_count :
    (e r d : ℕ) → pos e +ℤ (pos r +ℤ (pos d -ℤ pos 1)) -ℤ pos 719468 ≡ pos (e + r + d) -ℤ pos 719469
unfolding ◌-ℤ◌ ◌+ℤ◌
day_count e r d = ground arith

-- Each part of the count, of a year that starts in March.
counted :
    (y m day before : ℕ)
    → era_days y + m + day + 719163 ≡ before + 719469
    → pos (y / 400 * 146097)
        +ℤ (pos ((y - y / 400 * 400) * 365 + (y - y / 400 * 400) / 4 - (y - y / 400 * 400) / 100)
            +ℤ (pos (m + day) -ℤ pos 1))
        -ℤ pos 719468
      ≡ pos before -ℤ pos 719163
counted y m day before e =
    day_count (y / 400 * 146097)
      ((y - y / 400 * 400) * 365 + (y - y / 400 * 400) / 4 - (y - y / 400 * 400) / 100) (m + day)
    ∙ same_day
        (y / 400 * 146097
          + ((y - y / 400 * 400) * 365 + (y - y / 400 * 400) / 4 - (y - y / 400 * 400) / 100)
          + (m + day))
        before 719469 719163 (omega arith)

sum :
    (e b l x g day : ℕ)
    → e ≡ b + 365 + l
    → g ≡ 59 + x
    → e + x + day + 719163 ≡ b + (g + l) + day + 719469
sum e b l x g day he hg = omega arith

late : (m : ℕ) → leb (suc (suc (suc m))) 2 ≡ false
late m = ground arith

-- The day that `daysFromCivil` computes from eras of 400 years that start in March is the number of
-- days since 1970-01-01 by the Gregorian calendar's years, months and leap days, for every year from
-- 1 on, every month and every day.
pub days_from_civil_lem :
    (year month day : ℕ)
    → 1 ≤ year
    → 1 ≤ month
    → month ≤ 12
    → days_from_civil year month day ≡ civil_day year month day
unfolding days_from_civil
days_from_civil_lem year zero day h low high = absurd (omega arith)
days_from_civil_lem year (suc zero) day h low high = counted (year - 1) 306 day _ (omega arith)
days_from_civil_lem year (suc (suc zero)) day h low high =
    counted (year - 1) 337 day _ (omega arith)
days_from_civil_lem year (suc (suc (suc m))) day h low high = rw (late m) (
    counted year ((153 * ((suc (suc (suc m)) + 9) % 12) + 2) / 5) day _ (
      sum (era_days year) (days_before_year year) (leap_day year) _ _ day (era_days-leap year h)
        (march_days m (omega arith))))
