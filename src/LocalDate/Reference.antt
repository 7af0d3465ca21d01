-- ===== src/LocalDate/Reference.antt =====
-- lib/parsers/local_date.js, localDate: the date by the cache against the constructor of Date, for a
-- time zone that is a function of the wall time.
use node_mysql.Prelude.{
  ℕ, ◌+◌, ◌-◌, ◌*◌, ◌/◌, ◌%◌, ◌≤◌, ◌<◌, ◌≡◌, refl, sym, ap, ◌⊎◌, inl, inr, ◌∙◌, Bool, true, false,
  Option, none, some, ℤ, pos, ◌+ℤ◌, ◌-ℤ◌, ltb, ◌&&◌, ◌||◌, if◌then◌else◌, arith,
}
use mathlib.Core.Option.{some-injective}
use node_mysql.LocalDate.{
  ms_per_hour, ms_per_day, Clock, Args, Cache, scale, eq_ℤ, same_offset, offset_at,
  prove_hour_offset, get_offset, wall_time, local_date, date_by, local_time,
}
use node_mysql.LocalDate.Civil.{days_before_year, days_before_month, days_from_civil_lem}
use node_mysql.LocalDate.Caching.{
  year_100, time_of_day, utc_time, hour_of, start-hour_of, in_hour, from_year_100, eq_ℤ_lem,
  days_low, Valid, found_offset-Valid, get_offset-Proved,
}

-- The milliseconds since the year 100.
abbrev pub since_100 : Args → ℕ
since_100 a =
    (days_before_year a.year + days_before_month a.year a.month + a.day - 36160) * ms_per_day
    + time_of_day a

-- The milliseconds from the year 100 to the year 10000.
abbrev pub ms_to_10000 : ℕ
ms_to_10000 = 312413760000000

-- The arguments from the year 100 on, with a month from 1 to 12 and a day from 1 on, whose wall time
-- lies before the year 10000; a day may lie after its month.
abbrev pub Dated : Args → Type 0
Dated a =
    (100 ≤ a.year) × (1 ≤ a.month) × (a.month ≤ 12) × (1 ≤ a.day) × (since_100 a < ms_to_10000)

-- The arguments that localDate hands to the constructor at once.
abbrev pub is_guarded : Args → Bool
is_guarded a = ltb a.year 100 || ltb a.month 1 || ltb 12 a.month

abbrev pub IsCovered : Args → Type 0
IsCovered a = (is_guarded a ≡ true) ⊎ Dated a

at_least : (y m d : ℕ) → 36159 ≤ y → 1 ≤ d → 36160 ≤ y + m + d
at_least y m d h k = omega arith

low :
    (a : Args)
    → 36159 ≤ days_before_year a.year
    → 1 ≤ a.day
    → 36160 ≤ days_before_year a.year + days_before_month a.year a.month + a.day
low a y d = at_least (days_before_year a.year) (days_before_month a.year a.month) a.day y d

pub wall_time_lem : (a : Args) → Dated a → wall_time a ≡ year_100 +ℤ pos (since_100 a)
unfolding wall_time
wall_time_lem a (y, m, n, d, l) = rw (days_from_civil_lem a.year a.month a.day (omega arith) m n) (
    from_year_100 (days_before_year a.year + days_before_month a.year a.month + a.day)
      (time_of_day a) (low a (days_low a.year y) d))

utc_time_lem : (a : Args) → Dated a → utc_time a ≡ wall_time a
unfolding wall_time
utc_time_lem a (y, m, n, d, l) =
    rw (days_from_civil_lem a.year a.month a.day (omega arith) m n) refl

same_of_some :
    (p q : Bool) (x y z o : ℤ)
    → (p ≡ true → x ≡ y)
    → (q ≡ true → x ≡ z)
    → (if p && q then some x else none) ≡ some o
    → (some x ≡ some o) × (some y ≡ some o) × (some z ≡ some o)
same_of_some true true x y z o f g h = (h, ap some (sym (f refl)) ∙ h, ap some (sym (g refl)) ∙ h)
same_of_some true false x y z o f g h = cc
same_of_some false true x y z o f g h = cc
same_of_some false false x y z o f g h = cc

unproved : (p : Bool) (x o : ℤ) → (if p && false then some x else none) ≡ some o → ⊥
unproved true x o h = cc
unproved false x o h = cc

all_same :
    (a b c : Option ℤ) (o : ℤ)
    → (if same_offset a b && same_offset a c then a else none) ≡ some o
    → (a ≡ some o) × (b ≡ some o) × (c ≡ some o)
all_same none b c o h = cc
all_same (some x) none c o h = cc
all_same (some x) (some y) none o h = absurd (unproved (eq_ℤ x y) x o h)
all_same (some x) (some y) (some z) o h =
    same_of_some (eq_ℤ x y) (eq_ℤ x z) x y z o (eq_ℤ_lem x y) (eq_ℤ_lem x z) h

-- An hour's offset is the one at its start, in its middle and at its end.
pub prove_hour_offset_lem :
    (clock : Clock) (hour o : ℤ)
    → prove_hour_offset clock hour ≡ some o
    → (offset_at clock (scale ms_per_hour hour) ≡ some o)
      × (offset_at clock (scale ms_per_hour hour +ℤ pos 1800000) ≡ some o)
      × (offset_at clock (scale ms_per_hour hour +ℤ pos 3599999) ≡ some o)
unfolding prove_hour_offset
prove_hour_offset_lem clock hour o h = all_same _ _ _ o h

shift : (n k : ℕ) → year_100 +ℤ pos n +ℤ pos k ≡ year_100 +ℤ pos (n + k)
unfolding ◌+ℤ◌
shift n k = ground arith

less_offset : (t u o : ℤ) → o ≡ t -ℤ u → t -ℤ o ≡ u
unfolding ◌-ℤ◌
less_offset t u o h = ground arith

-- What the clock changes a wall time by.
abbrev pub offset : (ℤ → ℤ) → ℤ → ℤ
offset zone t = t -ℤ zone t

guard : (y m : ℕ) → 100 ≤ y → 1 ≤ m → m ≤ 12 → (ltb y 100 || ltb m 1 || ltb 12 m) ≡ false
guard y m h k l = ground arith

module _ (clock : Clock) (zone : ℤ → ℤ)
    (constructs : (a : Args) → Dated a → clock.construct a ≡ some (zone (utc_time a)))
    (fields : (n : ℕ)
      → n < ms_to_10000
      → Dated (clock.utc_fields (year_100 +ℤ pos n))
        × (utc_time (clock.utc_fields (year_100 +ℤ pos n)) ≡ year_100 +ℤ pos n))
    (steady : (hour : ℤ) (k : ℕ) (o : ℤ)
      → k < ms_per_hour
      → offset zone (scale ms_per_hour hour) ≡ o
      → offset zone (scale ms_per_hour hour +ℤ pos 1800000) ≡ o
      → offset zone (scale ms_per_hour hour +ℤ pos 3599999) ≡ o
      → offset zone (scale ms_per_hour hour +ℤ pos k) ≡ o) where
  local_time_lem :
      (n : ℕ)
      → n < ms_to_10000
      → local_time clock (year_100 +ℤ pos n) ≡ some (zone (year_100 +ℤ pos n))
  unfolding local_time
  local_time_lem n h =
      constructs (clock.utc_fields (year_100 +ℤ pos n)) (fields n h).0
      ∙ ap (λ (t : ℤ). some (zone t)) (fields n h).1

  offset_at_lem :
      (n : ℕ)
      → n < ms_to_10000
      → offset_at clock (year_100 +ℤ pos n) ≡ some (offset zone (year_100 +ℤ pos n))
  unfolding offset_at
  offset_at_lem n h = rw (local_time_lem n h, offset_at) refl

  offset-some :
      (t : ℤ) (n : ℕ) (o : ℤ)
      → n < ms_to_10000
      → t ≡ year_100 +ℤ pos n
      → offset_at clock t ≡ some o
      → offset zone t ≡ o
  offset-some t n o l e h = some-injective _ _ (
      sym
        (ap (offset_at clock) e ∙ offset_at_lem n l ∙ ap (λ (u : ℤ). some (offset zone u)) (sym e))
      ∙ h)

  -- A proved offset is the one at every wall time of the hour.
  steady_hour :
      (m : ℕ) (o : ℤ)
      → m < ms_to_10000
      → prove_hour_offset clock (hour_of (year_100 +ℤ pos m)) ≡ some o
      → offset zone (year_100 +ℤ pos m) ≡ o
  steady_hour m o l h =
      let e = start-hour_of m in
      let n = m / 3600000 * 3600000 in
      let (s, b, c) = prove_hour_offset_lem clock (hour_of (year_100 +ℤ pos m)) o h in
      sym (ap (offset zone) (ap (λ (t : ℤ). t +ℤ pos (m % 3600000)) e ∙ in_hour m))
      ∙ steady (hour_of (year_100 +ℤ pos m)) (m % 3600000) o (omega arith)
          (offset-some _ n o (omega arith) e s)
          (offset-some _ (n + 1800000) o (omega arith)
            (ap (λ (t : ℤ). t +ℤ pos 1800000) e ∙ shift n 1800000) b)
          (offset-some _ (n + 3599999) o (omega arith)
            (ap (λ (t : ℤ). t +ℤ pos 3599999) e ∙ shift n 3599999) c)

  date_by-construct :
      (a : Args) (o : Option ℤ)
      → Dated a
      → prove_hour_offset clock (hour_of (wall_time a)) ≡ o
      → date_by clock a o ≡ clock.construct a
  date_by-construct a none d h = refl
  date_by-construct a (some o) d h =
      let (y, m, n, k, l) = d in
      let w = wall_time_lem a d in
      let steady_here =
        steady_hour (since_100 a) o l
          (ap (λ (t : ℤ). prove_hour_offset clock (hour_of t)) (sym w) ∙ h) in
      ap some (
        less_offset (wall_time a) (zone (wall_time a)) o
          (sym steady_here ∙ ap (offset zone) (sym w)))
      ∙ ap (λ (t : ℤ). some (zone t)) (sym (utc_time_lem a d))
      ∙ sym (constructs a d)

  -- `localDate` gives the value of `new Date` with the same arguments, whatever hours the cache holds, if each entry is what `proveHourOffset` gives for its hour and there are at most 4096 of them; the cache is again such afterwards. The arguments are covered where the year is below 100 or the month is not 1 to 12, which go to the constructor at once; and else where the day is at least 1 and the wall time lies before the year 10000. The conditions on the Date of JavaScript, for wall times from the year 100 to the year 9999: the constructor turns a wall time into a time by one function of it, and the UTC fields of a wall time give it back. And the condition on the time zone: an offset that is the same at the start, in the middle and at the end of an hour is the one at each millisecond of it.
  pub local_date-construct :
      (a : Args) (c : Cache)
      → IsCovered a
      → Valid clock c
      → ((local_date clock a c).0 ≡ clock.construct a) × Valid clock (local_date clock a c).1
  unfolding local_date
  local_date-construct a c (inl g) v = rw g (refl, v)
  local_date-construct a c (inr (y, m, n, d, l)) v =
      let hour = hour_of (wall_time a) in
      let (f, v') =
        found_offset-Valid clock hour (get_offset c.hour_offsets hour) c
          (get_offset-Proved clock c.hour_offsets hour v.0) v in
      rw (guard a.year a.month y m n) (date_by-construct a _ (y, m, n, d, l) (sym f), v')
