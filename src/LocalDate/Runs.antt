-- ===== src/LocalDate/Runs.antt =====
-- lib/parsers/local_date.js, checkTimezone and localDate in sequence, as the row parsers call them.
use node_mysql.Prelude.{
  ℕ, ◌<◌, ◌≡◌, refl, sym, ap, ◌∙◌, Option, none, some, List, [], ◌∷◌, ℤ, pos, ◌+ℤ◌, ◌==◌, if-elim,
  subst, ap₂, ◌||◌, ltb, arith,
}
use node_mysql.LocalDate.{
  Args, Call, Clock, Cache, checking, dating, get_offset, found_offset, ms_per_hour, scale,
  check_timezone, local_date, run, floor_div, wall_time, date_by,
}
use node_mysql.LocalDate.Caching.{year_100, utc_time, Valid}
use node_mysql.LocalDate.Reference.{Dated, IsCovered, ms_to_10000, offset, local_date-construct}

-- The dates that new Date gives, each in the time zone of the last check.
abbrev pub dates : (ℕ → Clock) → List Call → ℕ → List (Option ℤ)
dates clocks [] timezone = []
dates clocks (checking next ∷ calls) timezone = dates clocks calls next
dates clocks (dating a ∷ calls) timezone =
    (clocks timezone).construct a ∷ dates clocks calls timezone

abbrev pub AllCovered : List Call → Type 0
AllCovered [] = Unit
AllCovered (checking next ∷ calls) = AllCovered calls
AllCovered (dating a ∷ calls) = IsCovered a × AllCovered calls

-- The cache is right for the time zone that it is of.
abbrev pub Current : (ℕ → Clock) → Cache → Type 0
Current clocks c = Valid (clocks c.last_timezone) c

check_timezone-Current :
    (clocks : ℕ → Clock) (next : ℕ) (c : Cache)
    → Current clocks c
    → ((check_timezone next c).last_timezone ≡ next) × Current clocks (check_timezone next c)
unfolding check_timezone
check_timezone-Current clocks next c v =
    if-elim (λ (c' : Cache). (c'.last_timezone ≡ next) × Current clocks c')
      (next == c.last_timezone) _ _ (λ e. (ground arith, v)) (λ e. (refl, (tt, omega arith)))

found_offset-last_timezone :
    (clock : Clock) (hour : ℤ) (r : Option (Option ℤ)) (c : Cache)
    → (found_offset clock hour r c).1.last_timezone ≡ c.last_timezone
found_offset-last_timezone clock hour none c = refl
found_offset-last_timezone clock hour (some o) c = refl

local_date-last_timezone :
    (clock : Clock) (a : Args) (c : Cache)
    → (local_date clock a c).1.last_timezone ≡ c.last_timezone
unfolding local_date
local_date-last_timezone clock a c =
    let hour = floor_div (wall_time a) ms_per_hour in
    let f = found_offset clock hour (get_offset c.hour_offsets hour) c in
    if-elim (λ (r : Option ℤ × Cache). r.1.last_timezone ≡ c.last_timezone)
      (ltb a.year 100 || ltb a.month 1 || ltb 12 a.month) (clock.construct a, c)
      (date_by clock a f.0, f.1) (λ e. refl)
      (λ e. found_offset-last_timezone clock hour (get_offset c.hour_offsets hour) c)

module _ (clocks : ℕ → Clock) (zones : ℕ → ℤ → ℤ)
    (constructs : (z : ℕ) (a : Args)
      → Dated a
      → (clocks z).construct a ≡ some (zones z (utc_time a)))
    (fields : (z n : ℕ)
      → n < ms_to_10000
      → Dated ((clocks z).utc_fields (year_100 +ℤ pos n))
        × (utc_time ((clocks z).utc_fields (year_100 +ℤ pos n)) ≡ year_100 +ℤ pos n))
    (steady : (z : ℕ) (hour : ℤ) (k : ℕ) (o : ℤ)
      → k < ms_per_hour
      → offset (zones z) (scale ms_per_hour hour) ≡ o
      → offset (zones z) (scale ms_per_hour hour +ℤ pos 1800000) ≡ o
      → offset (zones z) (scale ms_per_hour hour +ℤ pos 3599999) ≡ o
      → offset (zones z) (scale ms_per_hour hour +ℤ pos k) ≡ o) where
  -- In every sequence of checkTimezone and localDate, from a cache that is right for the time zone it is of, localDate gives each time the value of `new Date` in the time zone of the last check. The arguments are covered where the year is below 100 or the month is not 1 to 12, and else where the day is at least 1 and the wall time lies before the year 10000. The conditions on the Date of JavaScript, in each time zone, for wall times from the year 100 to the year 9999: the constructor turns a wall time into a time by one function of it, and the UTC fields of a wall time give it back. And on each time zone: an offset that is the same at the start, in the middle and at the end of an hour is the one at each millisecond of it. The time zone changes only right before a check.
  pub run-dates :
      (calls : List Call) (c : Cache)
      → AllCovered calls
      → Current clocks c
      → run clocks calls c ≡ dates clocks calls c.last_timezone
  unfolding run
  run-dates [] c d v = refl
  run-dates (checking next ∷ calls) c d v =
      let (e, v') = check_timezone-Current clocks next c v in
      run-dates calls (check_timezone next c) d v' ∙ ap (dates clocks calls) e
  run-dates (dating a ∷ calls) c (d, ds) v =
      let z = c.last_timezone in
      let (h, v') =
        local_date-construct (clocks z) (zones z) (constructs z) (fields z) (steady z) a c d v in
      let c' : Cache = (local_date (clocks z) a c).1 in
      let e : c'.last_timezone ≡ z = local_date-last_timezone (clocks z) a c in
      let rest = run-dates calls c' ds (subst (λ (y : ℕ). Valid (clocks y) c') (sym e) v') in
      ap₂ (λ (t : Option ℤ) (ts : List (Option ℤ)). t ∷ ts) h (rest ∙ ap (dates clocks calls) e)
