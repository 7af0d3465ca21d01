-- ===== src/Packet.antt =====
-- lib/packets/packet.js: a packet is a window of a Buffer with a read and write position.
-- A Buffer is the list of its bytes.
pub mod LengthCoded
pub mod Values
pub mod Fills
pub mod Bytes
pub mod RoundTrip
pub mod WriteRead
mod Tests
use node_mysql.Prelude.{
  ℕ, ◌+◌, ◌-◌, ◌*◌, ◌/◌, ◌%◌, ◌^◌, ◌<◌, Bool, true, false, ◌&&◌, ◌||◌, not, Option, none, some,
  List, [], ◌∷◌, ◌++◌, ltb, leb, ◌==◌, if◌then◌else◌, length, get_elem?, get_or, drop, slice,
  overlay,
}

abbrev pub Bytes : Type 0
Bytes = List ℕ

pub record Packet : Type 0 where
  pub sequence_id : ℕ
  pub num_packets : ℕ
  pub buffer : Bytes
  pub start : ℕ
  pub offset : ℕ
  pub end : ℕ

-- `new Packet(id, buffer, start, end)`
unfoldable pub new_packet : ℕ → Bytes → ℕ → ℕ → Packet
new_packet id buffer start end = record {
  sequence_id = id;
  num_packets = 1;
  buffer = buffer;
  start = start;
  offset = start + 4;
  end = end;
}

unfoldable pub clone : Packet → Packet
unfolding new_packet
clone p = new_packet p.sequence_id p.buffer p.start p.end

unfoldable pub packet_length : Packet → ℕ
packet_length p = p.end - p.start

-- A method that reads or writes: `none` is the RangeError of Node.js on an access beyond the
-- buffer, or whatever JavaScript makes of a byte beyond it: `undefined`, NaN, or a number in which a
-- shift takes the byte for 0 (readInt24, readLengthCodedNumberExt). Such numbers are not modelled.
abbrev pub M : Type 0 → Type 0
M A = Packet → Option (A × Packet)

abbrev pub pure : {A : Type 0} → A → M A
pure a p = some (a, p)

abbrev pub throw : {A : Type 0} → M A
throw p = none

infixl 5 ◌>>=◌ ◌>>◌
abbrev pub ◌>>=◌ : {A B : Type 0} → M A → (A → M B) → M B
◌>>=◌ m f p = elim (m p) [ none ↦ none | some (a, p') ↦ f a p' ]

abbrev pub ◌>>◌ : {B : Type 0} → M (Unit {0}) → M B → M B
m >> k = m >>= λ _. k

unfoldable pub read_int8 : M ℕ
read_int8 p =
    if ltb p.offset (length p.buffer)
    then some (get_or p.buffer p.offset 0, record p { offset = p.offset + 1 })
    else none

unfoldable pub read_int16 : M ℕ
read_int16 p =
    if leb (p.offset + 2) (length p.buffer)
    then some (
      get_or p.buffer p.offset 0 + get_or p.buffer (p.offset + 1) 0 * 2 ^ 8,
      record p { offset = p.offset + 2 },
    )
    else none

unfoldable pub read_int24 : M ℕ
unfolding read_int8 read_int16
read_int24 = do low ← read_int16; high ← read_int8; pure (low + high * 2 ^ 16)

unfoldable pub read_int32 : M ℕ
read_int32 p =
    if leb (p.offset + 4) (length p.buffer)
    then some (
      get_or p.buffer p.offset 0
          + get_or p.buffer (p.offset + 1) 0 * 2 ^ 8
          + get_or p.buffer (p.offset + 2) 0 * 2 ^ 16
          + get_or p.buffer (p.offset + 3) 0 * 2 ^ 24,
      record p { offset = p.offset + 4 },
    )
    else none

-- Exact below 2 ^ 53, as the sum of two numbers of which one is a multiple of 2 ^ 32.
unfoldable pub read_int64_js_number : M ℕ
unfolding read_int32
read_int64_js_number = do word0 ← read_int32; word1 ← read_int32; pure (word0 + 2 ^ 32 * word1)

-- `readBuffer(len)` and `readBuffer()`: the slice ends where the buffer ends.
unfoldable pub read_buffer : ℕ → M Bytes
read_buffer len p =
    some (slice p.buffer p.offset (p.offset + len), record p { offset = p.offset + len })

unfoldable pub read_buffer_rest : M Bytes
unfolding read_buffer
read_buffer_rest p = read_buffer (p.end - p.offset) p

-- What `writeUInt8`, `writeUInt16LE` and `writeUInt32LE` do: the bytes are put at the position, if
-- they fit, and the position goes on behind them.
unfoldable pub put : Bytes → M (Unit {0})
put bs p =
    if leb (p.offset + length bs) (length p.buffer)
    then some
        (tt, record p { buffer = overlay p.buffer p.offset bs; offset = p.offset + length bs })
    else none

-- A number that does not fit is refused as well.
unfoldable pub write_int8 : ℕ → M (Unit {0})
unfolding put
write_int8 n = if ltb n (2 ^ 8) then put (n ∷ []) else throw

unfoldable pub write_int16 : ℕ → M (Unit {0})
unfolding put
write_int16 n = if ltb n (2 ^ 16) then put ((n % 2 ^ 8) ∷ (n / 2 ^ 8) ∷ []) else throw

unfoldable pub write_int24 : ℕ → M (Unit {0})
unfolding write_int8 write_int16
write_int24 n = do write_int8 (n % 2 ^ 8); write_int16 (n / 2 ^ 8)

unfoldable pub write_int32 : ℕ → M (Unit {0})
unfolding put
write_int32 n =
    if ltb n (2 ^ 32)
    then put ((n % 2 ^ 8) ∷ (n / 2 ^ 8 % 2 ^ 8) ∷ (n / 2 ^ 16 % 2 ^ 8) ∷ (n / 2 ^ 24) ∷ [])
    else throw

-- `b.copy(this.buffer, this.offset)`: what does not fit is cut off, and the position goes on.
unfoldable pub write_buffer : Bytes → M (Unit {0})
write_buffer b p =
    some (tt, record p { buffer = overlay p.buffer p.offset b; offset = p.offset + length b })

abbrev pub set_offset : ℕ → Option (Unit {0} × Packet) → Option (Unit {0} × Packet)
set_offset offset none = none
set_offset offset (some (u, p)) = some (u, record p { offset = offset })

-- `writeHeader(sequenceId)`: the length of the payload and the sequence id go to the front.
unfoldable pub write_header : ℕ → M (Unit {0})
unfolding write_int24 write_int8
write_header sequence_id p =
    set_offset p.offset
      ((write_int24 (length p.buffer - 4) >> write_int8 sequence_id) (record p { offset = 0 }))

unfoldable pub peek_byte : Packet → Option ℕ
peek_byte p = get_elem? p.buffer p.offset

abbrev is_byte : Option ℕ → ℕ → Bool
is_byte none b = false
is_byte (some a) b = a == b

unfoldable pub is_eof : Packet → Bool
unfolding peek_byte packet_length
is_eof p = is_byte (peek_byte p) 0xfe && ltb (packet_length p) 13

unfoldable pub is_alt : Packet → Bool
unfolding peek_byte
is_alt p = is_byte (peek_byte p) 0xfe

unfoldable pub is_error : Packet → Bool
unfolding peek_byte
is_error p = is_byte (peek_byte p) 0xff

unfoldable pub have_more_data : Packet → Bool
have_more_data p = ltb p.offset p.end

unfoldable pub skip : ℕ → Packet → Packet
skip num p = record p { offset = p.offset + num }

unfoldable pub reset : Packet → Packet
reset p = record p { offset = p.start + 4 }
