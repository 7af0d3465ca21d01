-- ===== src/LocalDate/Tests.antt =====
-- lib/parsers/local_date.js on small inputs, with time zones a number of hours ahead of UTC.
use node_mysql.Prelude.{
  List, ◌*◌, ◌∷◌, ℕ, ◌+◌, ◌/◌, ◌%◌, ◌≡◌, ◌<◌, inr, refl, ◌∙◌, some, [], ℤ, pos, negsuc, pos_part,
  ◌+ℤ◌, ◌-ℤ◌, arith,
}
use node_mysql.LocalDate.{
  Call, checking, dating, run, Args, Clock, Cache, ms_per_day, scale, days_from_civil, floor_div,
  prove_hour_offset, local_date, local_time, offset_at, wall_time,
}
use node_mysql.LocalDate.Civil.{civil_day, days_from_civil_lem}
use node_mysql.LocalDate.Caching.{year_100, utc_time, Valid}
use node_mysql.LocalDate.Runs.{dates, run-dates}
use node_mysql.LocalDate.Reference.{Dated, ms_to_10000, offset, local_date-construct}

days_of_1 : days_from_civil 1 1 1 ≡ negsuc 719161
unfolding days_from_civil ◌+ℤ◌ ◌-ℤ◌
days_of_1 = refl

days_from_civil_lem_example : days_from_civil 2000 2 29 ≡ civil_day 2000 2 29
days_from_civil_lem_example =
    days_from_civil_lem 2000 2 29 (omega arith) (omega arith) (omega arith)

abbrev zones : ℕ → ℤ → ℤ
zones z t = t -ℤ pos (z * 3600000)

-- The fields of a time, of days from the first of January of the year 100.
abbrev fields_of : ℕ → Args
fields_of n = record {
  year = 100;
  month = 1;
  day = n / ms_per_day + 1;
  hours = 0;
  minutes = 0;
  seconds = 0;
  milliseconds = n % ms_per_day;
}

abbrev clocks : ℕ → Clock
clocks z = record {
  construct = λ a. some (zones z (utc_time a));
  utc_fields = λ t. fields_of (pos_part (t -ℤ year_100));
}

since : (n : ℕ) → pos_part (year_100 +ℤ pos n -ℤ year_100) ≡ n
unfolding ◌+ℤ◌ ◌-ℤ◌
since n = ground arith

time_of_fields : (n : ℕ) → utc_time (fields_of n) ≡ year_100 +ℤ pos n
unfolding scale ◌+ℤ◌ ◌-ℤ◌
time_of_fields n = ground arith

fields :
    (z n : ℕ)
    → n < ms_to_10000
    → Dated ((clocks z).utc_fields (year_100 +ℤ pos n))
      × (utc_time ((clocks z).utc_fields (year_100 +ℤ pos n)) ≡ year_100 +ℤ pos n)
fields z n h =
    rw (since n)
      ((omega arith, omega arith, omega arith, omega arith, omega arith), time_of_fields n)

constant : (z : ℕ) (t u : ℤ) → offset (zones z) t ≡ offset (zones z) u
unfolding ◌-ℤ◌
constant z t u = ground arith

abbrev empty : Cache
empty = record { hour_offsets = []; last_timezone = 0 }

abbrev noon : Args
noon = record {
  year = 2024;
  month = 2;
  day = 29;
  hours = 12;
  minutes = 0;
  seconds = 0;
  milliseconds = 5;
}

local_date-construct_example :
    ((local_date (clocks 1) noon empty).0 ≡ (clocks 1).construct noon)
    × Valid (clocks 1) (local_date (clocks 1) noon empty).1
local_date-construct_example =
    local_date-construct (clocks 1) (zones 1) (λ a d. refl) (fields 1)
      (λ hour k o h s m e. constant 1 _ _ ∙ s) noon empty
      (inr (omega arith, omega arith, omega arith, omega arith, omega arith)) (tt, omega arith)

gives_noon : (local_date (clocks 1) noon empty).0 ≡ some (pos 1709204400005)
unfolding local_date scale days_from_civil ◌+ℤ◌ ◌-ℤ◌ floor_div prove_hour_offset local_time
    offset_at wall_time
gives_noon = refl

abbrev two_zones : List Call
two_zones = dating noon ∷ checking 2 ∷ dating noon ∷ []

run-dates_example : run clocks two_zones empty ≡ dates clocks two_zones 0
run-dates_example =
    run-dates clocks zones (λ z a d. refl) fields (λ z hour k o h s m e. constant z _ _ ∙ s)
      two_zones empty
      (
        (inr (omega arith, omega arith, omega arith, omega arith, omega arith)),
        ((inr (omega arith, omega arith, omega arith, omega arith, omega arith)), tt),
      )
      (tt, omega arith)
