-- ===== src/LocalDate.antt =====
-- lib/parsers/local_date.js: the Date of a wall-clock time in the local time zone, by a cache of the
-- offset of each hour. Times are milliseconds since 1970, before or after. The Date of JavaScript and
-- the time zone are the parameter Clock; none is NaN. Milliseconds are truncated already.
pub mod Civil
pub mod Caching
pub mod Reference
pub mod Runs
mod Tests
use node_mysql.Prelude.{
  ℕ, zero, suc, ◌+◌, ◌-◌, ◌*◌, ◌/◌, ◌%◌, Bool, true, false, ◌||◌, ◌&&◌, not, Option, none, some,
  List, [], ◌∷◌, ℤ, pos, negsuc, sub_ℕ, ◌+ℤ◌, ◌-ℤ◌, ltb, leb, ◌==◌, if◌then◌else◌, length,
}

abbrev pub ms_per_hour : ℕ
ms_per_hour = 3600000

abbrev pub ms_per_day : ℕ
ms_per_day = 86400000

abbrev pub max_cached_hours : ℕ
max_cached_hours = 4096

-- The arguments of a Date, with the month from 1.
pub record Args : Type 0 where
  pub year : ℕ
  pub month : ℕ
  pub day : ℕ
  pub hours : ℕ
  pub minutes : ℕ
  pub seconds : ℕ
  pub milliseconds : ℕ

-- `new Date(year, month - 1, …).getTime()`, and the arguments that the `getUTC` methods give of a time.
pub record Clock : Type 0 where
  pub construct : Args → Option ℤ
  pub utc_fields : ℤ → Args

-- A number times an integer, and `Math.floor` of a quotient.
unfoldable pub scale : ℕ → ℤ → ℤ
scale k (pos n) = pos (k * n)
scale k (negsuc n) = sub_ℕ 0 (k * suc n)

unfoldable pub floor_div : ℤ → ℕ → ℤ
floor_div (pos n) k = pos (n / k)
floor_div (negsuc n) k = negsuc (n / k)

abbrev pub eq_ℤ : ℤ → ℤ → Bool
eq_ℤ (pos m) (pos n) = m == n
eq_ℤ (negsuc m) (negsuc n) = m == n
eq_ℤ _ _ = false

-- `daysFromCivil`, of a year from 1 on.
unfoldable pub days_from_civil : ℕ → ℕ → ℕ → ℤ
days_from_civil year month day =
    let y = (if leb month 2 then year - 1 else year) in
    let era = y / 400 in
    let year_of_era = y - era * 400 in
    let day_of_year = pos ((153 * ((month + 9) % 12) + 2) / 5 + day) -ℤ pos 1 in
    let day_of_era = pos (year_of_era * 365 + year_of_era / 4 - year_of_era / 100) +ℤ day_of_year in
    pos (era * 146097) +ℤ day_of_era -ℤ pos 719468

unfoldable pub local_time : Clock → ℤ → Option ℤ
local_time clock wall_time = clock.construct (clock.utc_fields wall_time)

-- `wallTime - localTime(wallTime)`
unfoldable pub offset_at : Clock → ℤ → Option ℤ
unfolding local_time
offset_at clock wall_time = elim (local_time clock wall_time) [
  | none ↦ none
  | some t ↦ some (wall_time -ℤ t)
]

-- Of two offsets; NaN equals nothing.
abbrev pub same_offset : Option ℤ → Option ℤ → Bool
same_offset (some a) (some b) = eq_ℤ a b
same_offset _ _ = false

-- `proveHourOffset`: none is null.
unfoldable pub prove_hour_offset : Clock → ℤ → Option ℤ
unfolding offset_at
prove_hour_offset clock hour =
    let start = scale ms_per_hour hour in
    let offset = offset_at clock start in
    if same_offset offset (offset_at clock (start +ℤ pos 1800000))
      && same_offset offset (offset_at clock (start +ℤ pos 3599999))
    then offset
    else none

-- `hourOffsets`, and the time zone that it belongs to, a number for each text of the variable TZ.
abbrev pub Offsets : Type 0
Offsets = List (ℤ × Option ℤ)

pub record Cache : Type 0 where
  pub hour_offsets : Offsets
  pub last_timezone : ℕ

abbrev pub get_offset : Offsets → ℤ → Option (Option ℤ)
get_offset [] hour = none
get_offset ((h, o) ∷ rest) hour = if eq_ℤ h hour then some o else get_offset rest hour

-- `checkTimezone`, where `process.env.TZ` is the first argument.
unfoldable pub check_timezone : ℕ → Cache → Cache
check_timezone timezone c =
    if timezone == c.last_timezone
    then c
    else record { hour_offsets = []; last_timezone = timezone }

unfoldable pub wall_time : Args → ℤ
unfolding days_from_civil scale
wall_time a =
    scale ms_per_day (days_from_civil a.year a.month a.day)
    +ℤ pos (a.hours * ms_per_hour + a.minutes * 60000 + a.seconds * 1000 + a.milliseconds)

-- The offset of an hour, from the cache or proved and put there.
abbrev pub found_offset : Clock → ℤ → Option (Option ℤ) → Cache → Option ℤ × Cache
found_offset clock hour (some o) c = (o, c)
found_offset clock hour none c =
    let kept = (if leb max_cached_hours (length c.hour_offsets) then [] else c.hour_offsets) in
    let o = prove_hour_offset clock hour in (o, record c { hour_offsets = (hour, o) ∷ kept })

abbrev pub date_by : Clock → Args → Option ℤ → Option ℤ
date_by clock a none = clock.construct a
date_by clock a (some o) = some (wall_time a -ℤ o)

unfoldable pub local_date : Clock → Args → Cache → Option ℤ × Cache
unfolding wall_time floor_div prove_hour_offset
local_date clock a c =
    let hour = floor_div (wall_time a) ms_per_hour in
    let (o, c') = found_offset clock hour (get_offset c.hour_offsets hour) c in
    if ltb a.year 100 || ltb a.month 1 || ltb 12 a.month
    then (clock.construct a, c)
    else (date_by clock a o, c')

-- What a parser of rows calls: checkTimezone before the rows of a result set, with the time zone of
-- then, and localDate for each of its dates.
pub data Call : Type 0 where
  checking : ℕ → Call
  dating : Args → Call

-- The dates of a sequence of calls, where the Date of JavaScript follows the time zone.
unfoldable pub run : (ℕ → Clock) → List Call → Cache → List (Option ℤ)
unfolding check_timezone local_date
run clocks [] c = []
run clocks (checking timezone ∷ calls) c = run clocks calls (check_timezone timezone c)
run clocks (dating a ∷ calls) c =
    let (t, c') = local_date (clocks c.last_timezone) a c in t ∷ run clocks calls c'
