-- ===== src/Packet/Values.antt =====
-- The writes of numbers, dates and times of lib/packets/packet.js.
use node_mysql.Prelude.{
  ℕ, zero, suc, ◌*◌, ◌/◌, ◌%◌, ◌^◌, Bool, ◌&&◌, [], ◌∷◌, ℤ, pos, negsuc, ltb, ◌==◌, if◌then◌else◌,
}
use node_mysql.Packet.{Bytes, M, pure, throw, ◌>>◌, put, write_int8, write_int16, write_int32}

-- The bytes of a number, the lowest first.
abbrev pub le_bytes : ℕ → ℕ → Bytes
le_bytes zero v = []
le_bytes (suc k) v = (v % 256) ∷ le_bytes k (v / 256)

-- `writeUIntLE(n, bytes)`: a number that needs more bytes is refused.
unfoldable pub write_uint_le : ℕ → ℕ → M (Unit {0})
unfolding put
write_uint_le n bytes = if ltb n (256 ^ bytes) then put (le_bytes bytes n) else throw

pub record TimeParts : Type 0 where
  pub negative : Bool
  pub days : ℕ
  pub hours : ℕ
  pub minutes : ℕ
  pub seconds : ℕ
  pub microseconds : ℕ

abbrev pub is_zero : TimeParts → Bool
is_zero t =
    (t.days == 0) && (t.hours == 0) && (t.minutes == 0) && (t.seconds == 0) && (t.microseconds == 0)

unfoldable pub time_length : TimeParts → ℕ
time_length t = if is_zero t then 1 else if t.microseconds == 0 then 9 else 13

unfoldable pub write_time : TimeParts → M (Unit {0})
unfolding write_int8 write_int32
write_time t = if is_zero t then write_int8 0 else (do
  write_int8 (if t.microseconds == 0 then 8 else 12)
  write_int8 (if t.negative then 1 else 0)
  write_int32 t.days
  write_int8 t.hours
  write_int8 t.minutes
  write_int8 t.seconds
  (if t.microseconds == 0 then pure tt else write_int32 t.microseconds))

-- The fields of a Date, in a time zone; the month counts from 1. Of an invalid date they are NaN,
-- which is written as 0.
pub record DateFields : Type 0 where
  pub year : ℤ
  pub month : ℕ
  pub day : ℕ
  pub hours : ℕ
  pub minutes : ℕ
  pub seconds : ℕ
  pub milliseconds : ℕ

unfoldable pub write_year : ℤ → M (Unit {0})
unfolding write_int16
write_year (pos y) = write_int16 y
write_year (negsuc y) = throw

-- The writes of `writeDate` follow one another; the position goes on behind the last of them.
unfoldable pub write_date_fields : DateFields → M (Unit {0})
unfolding write_int8 write_year write_int32
write_date_fields d = do
  write_int8 11
  write_year d.year
  write_int8 d.month
  write_int8 d.day
  write_int8 d.hours
  write_int8 d.minutes
  write_int8 d.seconds
  write_int32 (d.milliseconds * 1000)
