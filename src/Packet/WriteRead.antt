-- ===== src/Packet/WriteRead.antt =====
-- Writing and then reading with lib/packets/packet.js at one position of one buffer.
use node_mysql.Prelude.{
  ℕ, ◌+◌, ◌^◌, ◌≤◌, ◌<◌, ◌≡◌, refl, Bool, false, none, some, [], ◌∷◌, ◌++◌, arith, length,
  length-append, drop,
}
use node_mysql.Packet.{Bytes, Packet, M, ◌>>=◌, write_buffer}
use node_mysql.Packet.Bytes.{
  ahead, forward, ahead-put, after_put, Writes, Writes->>, write_int8-Writes, write_buffer-Writes,
  Reads, Reads->>=, read_int8-Reads, read_buffer-Reads,
}
use node_mysql.Packet.LengthCoded.{
  Long, null, number, buffer_of, read_length_coded_number, read_length_coded_buffer,
  write_length_coded_number, write_length_coded_buffer, length_coded_number_length,
}
use node_mysql.Packet.RoundTrip.{
  encoded, length-encoded, write_length_coded_number-Writes, read_length_coded_number-Reads,
}

-- The packet with its position set back to `offset`.
abbrev pub back : ℕ → Packet → Packet
back offset p = record p { offset = offset }

-- What `m` writes where it fits `r` reads back, and it stops behind what was written.
abbrev pub RoundTrips : {A : Type 0} → M (Unit {0}) → M A → A → ℕ → Packet → Type 0
RoundTrips write read a size p =
    (q : Packet) × (write p ≡ some (tt, q))
    × (q.offset ≡ p.offset + size)
    × (read (back p.offset q) ≡ some (a, q))

round_trip :
    {A : Type 0} (write : M (Unit {0})) (read : M A) (a : A) (bs : Bytes) (size : ℕ) (p : Packet)
    → Writes write bs
    → Reads read bs a
    → length bs ≡ size
    → p.offset + size ≤ length p.buffer
    → RoundTrips write read a size p
round_trip write read a bs size p hw hr e h = (
  after_put bs p,
  hw p (omega arith),
  omega arith,
  hr (back p.offset (after_put bs p)) (drop (p.offset + length bs) p.buffer)
      (ahead-put p bs (omega arith)),
)

-- A number below 2 ^ 53 that `writeLengthCodedNumber` writes where the buffer has room takes as
-- many bytes as `lengthCodedNumberLength` says, and `readLengthCodedNumber` reads it back, whatever
-- its two options are.
pub length_coded_number_round_trip :
    (is_safe : Long → Bool) (big_number_strings signed : Bool) (v : ℕ) (p : Packet)
    → v < 2 ^ 53
    → p.offset + length_coded_number_length v ≤ length p.buffer
    → RoundTrips
        (write_length_coded_number (some v))
        (read_length_coded_number is_safe big_number_strings signed)
        (number v)
        (length_coded_number_length v)
        p
length_coded_number_round_trip is_safe big_number_strings signed v p h k =
    round_trip _ _ (number v) (encoded v) (length_coded_number_length v) p
      (write_length_coded_number-Writes v (omega arith))
      (read_length_coded_number-Reads is_safe big_number_strings signed v h) (length-encoded v) k

buffer_of-Reads : (bs : Bytes) → Reads (buffer_of (number (length bs))) bs (some bs)
unfolding buffer_of
buffer_of-Reads bs p rest h = ground (arith, read_buffer-Reads bs p rest h)

-- A buffer of less than 2 ^ 53 bytes that `writeLengthCodedBuffer` writes where there is room
-- `readLengthCodedBuffer` reads back.
pub length_coded_buffer_round_trip :
    (is_safe : Long → Bool) (bs : Bytes) (p : Packet)
    → length bs < 2 ^ 53
    → p.offset + (length_coded_number_length (length bs) + length bs) ≤ length p.buffer
    → RoundTrips
        (write_length_coded_buffer bs)
        (read_length_coded_buffer is_safe)
        (some bs)
        (length_coded_number_length (length bs) + length bs)
        p
unfolding write_length_coded_buffer read_length_coded_buffer
length_coded_buffer_round_trip is_safe bs p h k =
    let n = length bs in
    round_trip _ _ (some bs) (encoded n ++ bs) (length_coded_number_length n + n) p
      (Writes->> (write_length_coded_number (some n)) (write_buffer bs) (encoded n) bs
        (write_length_coded_number-Writes n (omega arith)) (write_buffer-Writes bs))
      (Reads->>= (read_length_coded_number is_safe false false) buffer_of (encoded n) bs (number n)
        (some bs) (read_length_coded_number-Reads is_safe false false n h) (buffer_of-Reads bs))
      (omega (arith, length-append (encoded n) bs, length-encoded n)) k

null-Writes : Writes (write_length_coded_number none) (0 ∷ [])
unfolding write_length_coded_number
null-Writes = write_int8-Writes 0 (omega arith)

-- `writeLengthCodedNumber(null)` where the buffer has room does not write the mark of a null: what
-- `readLengthCodedNumber` reads there is the number 0.
pub write_length_coded_number-null :
    (is_safe : Long → Bool) (big_number_strings signed : Bool) (p : Packet)
    → p.offset + 1 ≤ length p.buffer
    → RoundTrips
        (write_length_coded_number none)
        (read_length_coded_number is_safe big_number_strings signed)
        (number 0)
        1
        p
write_length_coded_number-null is_safe big_number_strings signed p k =
    round_trip _ _ (number 0) (0 ∷ []) 1 p null-Writes
      (read_length_coded_number-Reads is_safe big_number_strings signed 0 (omega arith)) refl k

-- The byte 0xfb reads as null.
pub read_length_coded_number-null :
    (is_safe : Long → Bool) (big_number_strings signed : Bool) (p : Packet) (rest : Bytes)
    → ahead p ≡ 0xfb ∷ rest
    → read_length_coded_number is_safe big_number_strings signed p ≡ some (null, forward 1 p)
unfolding read_length_coded_number
read_length_coded_number-null is_safe big_number_strings signed p rest h =
    rw (read_int8-Reads 0xfb p rest h, ◌>>=◌)
