-- ===== src/Packet/LengthCoded.antt =====
-- The length coded numbers, strings and buffers of lib/packets/packet.js.
use node_mysql.Prelude.{
  ℕ, ◌+◌, ◌*◌, ◌/◌, ◌%◌, ◌^◌, Bool, true, false, ◌||◌, not, Option, none, some, ltb, ◌==◌,
  if◌then◌else◌, length,
}
use node_mysql.Packet.{
  Bytes, M, pure, throw, ◌>>=◌, ◌>>◌, read_int8, read_int32, read_buffer, put, write_int8,
  write_int16, write_int24, write_int32, write_buffer,
}

-- `new Long(low, high, unsigned)` of the package `long`.
pub record Long : Type 0 where
  pub low : ℕ
  pub high : ℕ
  pub unsigned : Bool

pub data LengthCoded : Type 0 where
  null : LengthCoded
  number : ℕ → LengthCoded
  to_number to_string : Long → LengthCoded

-- A length that comes from `long` is 2 ^ 53 at least, more than a Buffer holds: `none` stands for
-- what `readBuffer` makes of it.
unfoldable pub buffer_of : LengthCoded → M (Option Bytes)
unfolding read_buffer
buffer_of null = pure none
buffer_of (number n) = do b ← read_buffer n; pure (some b)
buffer_of (to_number l) = throw
buffer_of (to_string l) = throw

-- `isSafeInteger(l.toNumber())` is the library's.
module _ (is_safe : Long → Bool) where
  unfoldable pub read_length_coded_number_ext : ℕ → Bool → Bool → M LengthCoded
  unfolding read_int8 read_int32
  read_length_coded_number_ext tag big_number_strings signed =
      if tag == 0xfb
      then pure null
      else if tag == 0xfc
      then (do b0 ← read_int8; b1 ← read_int8; pure (number (b0 + b1 * 2 ^ 8)))
      else if tag == 0xfd
      then (do
        b0 ← read_int8
        b1 ← read_int8
        b2 ← read_int8
        pure (number (b0 + b1 * 2 ^ 8 + b2 * 2 ^ 16)))
      else if tag == 0xfe
      then (do
        word0 ← read_int32
        word1 ← read_int32
        let res : Long = record { low = word0; high = word1; unsigned = not signed }
        (if word1 == 0
            then pure (number word0)
            else if ltb word1 2097152
            then pure (number (word1 * 2 ^ 32 + word0))
            else if big_number_strings || not (is_safe res)
            then pure (to_string res)
            else pure (to_number res)))
      else throw

  unfoldable pub read_length_coded_number : Bool → Bool → M LengthCoded
  unfolding read_int8 read_length_coded_number_ext
  read_length_coded_number big_number_strings signed = do
    byte1 ← read_int8
    (if ltb byte1 251
        then pure (number byte1)
        else read_length_coded_number_ext byte1 big_number_strings signed)

  unfoldable pub read_length_coded_buffer : M (Option Bytes)
  unfolding read_length_coded_number read_buffer buffer_of
  read_length_coded_buffer = do len ← read_length_coded_number false false; buffer_of len

-- In a comparison or a sum `null` counts as 0.
abbrev as_number : Option ℕ → ℕ
as_number none = 0
as_number (some n) = n

abbrev is_null : Option ℕ → Bool
is_null none = true
is_null (some n) = false

-- `n >>> 0` is the number modulo 2 ^ 32.
unfoldable pub write_length_coded_number : Option ℕ → M (Unit {0})
unfolding write_int8 write_int16 write_int24 put
write_length_coded_number n =
    let v = as_number n in
    if ltb v 0xfb
    then write_int8 v
    else if ltb v 0xffff
    then (do write_int8 0xfc; write_int16 v)
    else if ltb v 0xffffff
    then (do write_int8 0xfd; write_int24 v)
    else if is_null n
    then write_int8 0xfb
    else (do write_int8 0xfe; write_int32 (v % 2 ^ 32); write_int32 (v / 2 ^ 32))

unfoldable pub length_coded_number_length : ℕ → ℕ
length_coded_number_length n =
    if ltb n 0xfb then 1 else if ltb n 0xffff then 3 else if ltb n 0xffffff then 4 else 9

unfoldable pub write_length_coded_buffer : Bytes → M (Unit {0})
unfolding write_length_coded_number write_buffer
write_length_coded_buffer b = do write_length_coded_number (some (length b)); write_buffer b
