-- ===== src/LocalDate/Caching.antt =====
-- lib/parsers/local_date.js, proveHourOffset and hourOffsets: the wall time of an hour, and what the
-- cache holds.
use node_mysql.Prelude.{
  ℕ, ◌+◌, ◌-◌, ◌*◌, ◌/◌, ◌%◌, ◌≤◌, ◌≡◌, refl, ap, ◌∙◌, true, Option, none, some, [], ◌∷◌, ℤ, pos,
  negsuc, ◌+ℤ◌, ◌-ℤ◌, length, All, if-elim, leb, arith,
}
use node_mysql.LocalDate.{
  ms_per_hour, ms_per_day, max_cached_hours, Clock, Args, Cache, Offsets, scale, floor_div, eq_ℤ,
  prove_hour_offset, get_offset, found_offset,
}
use node_mysql.LocalDate.Civil.{civil_day, days_before_year}

-- The first of January of the year 100.
abbrev pub year_100 : ℤ
year_100 = negsuc 59011459199999

abbrev pub time_of_day : Args → ℕ
time_of_day a = a.hours * ms_per_hour + a.minutes * 60000 + a.seconds * 1000 + a.milliseconds

-- A time from its civil date, as if the wall clock showed UTC.
abbrev pub utc_time : Args → ℤ
utc_time a = scale ms_per_day (civil_day a.year a.month a.day) +ℤ pos (time_of_day a)

abbrev pub hour_of : ℤ → ℤ
hour_of t = floor_div t ms_per_hour

pub start-hour_of :
    (m : ℕ)
    → scale ms_per_hour (hour_of (year_100 +ℤ pos m)) ≡ year_100 +ℤ pos (m / 3600000 * 3600000)
unfolding scale floor_div ◌+ℤ◌
start-hour_of m = ground arith

pub in_hour :
    (m : ℕ) → year_100 +ℤ pos (m / 3600000 * 3600000) +ℤ pos (m % 3600000) ≡ year_100 +ℤ pos m
unfolding ◌+ℤ◌
in_hour m = ground arith

pub eq_ℤ_lem : (a b : ℤ) → eq_ℤ a b ≡ true → a ≡ b
eq_ℤ_lem (pos m) (pos n) h = ground arith
eq_ℤ_lem (pos m) (negsuc n) h = ground arith
eq_ℤ_lem (negsuc m) (pos n) h = ground arith
eq_ℤ_lem (negsuc m) (negsuc n) h = ground arith

pub from_year_100 :
    (d t : ℕ)
    → 36160 ≤ d
    → scale ms_per_day (pos d -ℤ pos 719163) +ℤ pos t
      ≡ year_100 +ℤ pos ((d - 36160) * ms_per_day + t)
unfolding scale ◌+ℤ◌ ◌-ℤ◌
from_year_100 d t h = ground arith

pub days_low : (year : ℕ) → 100 ≤ year → 36159 ≤ days_before_year year
days_low year h = omega arith

-- Each entry is what `proveHourOffset` gives for its hour.
abbrev pub Proved : Clock → Offsets → Type 0
Proved clock = All (λ (e : ℤ × Option ℤ). e.1 ≡ prove_hour_offset clock e.0)

-- What is found for an hour, if anything, is what `proveHourOffset` gives for it.
abbrev pub Answer : Clock → ℤ → Option (Option ℤ) → Type 0
Answer clock hour none = Unit
Answer clock hour (some o) = o ≡ prove_hour_offset clock hour

pub get_offset-Proved :
    (clock : Clock) (kept : Offsets) (hour : ℤ)
    → Proved clock kept
    → Answer clock hour (get_offset kept hour)
get_offset-Proved clock [] hour h = tt
get_offset-Proved clock ((k, q) ∷ rest) hour (p, ps) =
    if-elim (Answer clock hour) (eq_ℤ k hour) _ _
      (λ e. p ∙ ap (prove_hour_offset clock) (eq_ℤ_lem k hour e))
      (λ e. get_offset-Proved clock rest hour ps)

-- The entries are right, and no more than the bound.
abbrev pub Valid : Clock → Cache → Type 0
Valid clock c = Proved clock c.hour_offsets × (length c.hour_offsets ≤ max_cached_hours)

pub found_offset-Valid :
    (clock : Clock) (hour : ℤ) (r : Option (Option ℤ)) (c : Cache)
    → Answer clock hour r
    → Valid clock c
    → ((found_offset clock hour r c).0 ≡ prove_hour_offset clock hour)
      × Valid clock (found_offset clock hour r c).1
found_offset-Valid clock hour (some o) c h v = (h, v)
found_offset-Valid clock hour none c h (ps, n) = (
  refl,
  if-elim
      (λ (kept : Offsets).
        Valid clock (record c { hour_offsets = (hour, prove_hour_offset clock hour) ∷ kept }))
      (leb max_cached_hours (length c.hour_offsets)) _ _ (λ e. ((refl, tt), omega arith))
      (λ e. ((refl, ps), ground arith)),
)
