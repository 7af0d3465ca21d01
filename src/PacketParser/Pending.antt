-- ===== src/PacketParser/Pending.antt =====
-- The bytes that a parser of lib/packet_parser.js has taken in and not yet handed over, as its
-- fields hold them in each of the four methods that `this.execute` may be.
use mathlib.Core.List.{flatten}
use node_mysql.Prelude.{
  ℕ, ◌+◌, ◌/◌, ◌%◌, ◌^◌, ◌<◌, ◌≤◌, ◌≡◌, refl, ap, [], ◌∷◌, ◌++◌, arith, length, get_or, drop, All,
  get_or-drop,
}
use node_mysql.Packet.{Bytes}
use node_mysql.PacketParser.{
  PacketParser, Execute, execute_start, execute_payload, execute_header2, execute_header3,
  new_parser, read_packet_length,
}
use node_mysql.PacketParser.Frames.{frame_length}

abbrev pub IsBytes : Bytes → Type 0
IsBytes = All (λ b. b < 256)

-- Three bytes, the lowest first.
abbrev pub three_bytes : ℕ → Bytes
three_bytes n = (n % 256) ∷ (n / 256 % 256) ∷ (n / 65536) ∷ []

abbrev pub kept : Execute → PacketParser → Bytes
kept execute_start p = []
kept execute_header2 p = p.payload_length ∷ []
kept execute_header3 p = (p.payload_length % 256) ∷ (p.payload_length / 256) ∷ []
kept execute_payload p = three_bytes p.payload_length ++ flatten p.buffer

abbrev pub pending : PacketParser → Bytes
pending p = kept p.execute p

-- No chunk of a payload is kept.
abbrev pub IsClear : PacketParser → Type 0
IsClear p = (p.buffer ≡ []) × (p.buffer_length ≡ 0)

abbrev pub Holds : Execute → PacketParser → Type 0
Holds execute_start p = IsClear p
Holds execute_header2 p = IsClear p × (p.payload_length < 256)
Holds execute_header3 p = IsClear p × (p.payload_length < 65536)
Holds execute_payload p =
    (p.payload_length < 2 ^ 24)
    × (p.buffer_length ≡ length (flatten p.buffer))
    × (p.buffer_length + 3 < p.payload_length + p.packet_header_length)

pub record IsValid (h : ℕ) (p : PacketParser) : Type 0 where
  pub header : p.packet_header_length ≡ h
  pub holds : Holds p.execute p

pub new_parser-IsValid : (h : ℕ) → IsValid h (new_parser h)
unfolding new_parser
new_parser-IsValid h = record { header = refl; holds = (refl, refl) }

pub byte-lt : (bs : Bytes) (i : ℕ) → IsBytes bs → get_or bs i 0 < 256
byte-lt [] i h = omega arith
byte-lt (b ∷ bs) ℕ.zero h = h.0
byte-lt (b ∷ bs) (ℕ.suc i) h = byte-lt bs i h.1

pub one_byte : (bs : Bytes) → length bs ≡ 1 → bs ≡ get_or bs 0 0 ∷ []
one_byte [] h = absurd (omega arith)
one_byte (b ∷ []) h = refl
one_byte (b ∷ c ∷ bs) h = absurd (omega arith)

pub two_bytes : (bs : Bytes) → length bs ≡ 2 → bs ≡ get_or bs 0 0 ∷ get_or bs 1 0 ∷ []
two_bytes [] h = absurd (omega arith)
two_bytes (b ∷ []) h = absurd (omega arith)
two_bytes (b ∷ c ∷ []) h = refl
two_bytes (b ∷ c ∷ d ∷ bs) h = absurd (omega arith)

pub frame_length-lt : (bs : Bytes) → IsBytes bs → frame_length bs < 2 ^ 24
unfolding frame_length
frame_length-lt bs h = omega (arith, byte-lt bs 0 h, byte-lt bs 1 h, byte-lt bs 2 h)

pub three_bytes-frame_length :
    (bs : Bytes) → IsBytes bs → 3 ≤ length bs → three_bytes (frame_length bs) ++ drop 3 bs ≡ bs
unfolding frame_length
three_bytes-frame_length [] h k = absurd (omega arith)
three_bytes-frame_length (a ∷ []) h k = absurd (omega arith)
three_bytes-frame_length (a ∷ b ∷ []) h k = absurd (omega arith)
three_bytes-frame_length (a ∷ b ∷ c ∷ bs) h k = ground arith

pub frame_length-three_bytes : (n : ℕ) (bs : Bytes) → frame_length (three_bytes n ++ bs) ≡ n
unfolding frame_length
frame_length-three_bytes n bs = omega arith

-- `readPacketLength` reads the length of the frame that begins at `off`.
pub read_packet_length-drop :
    (b : Bytes) (off : ℕ) → read_packet_length b off ≡ frame_length (drop off b)
unfolding read_packet_length frame_length
read_packet_length-drop b off = ground (
  arith,
  get_or-drop off 0 b 0,
  get_or-drop off 1 b 0,
  get_or-drop off 2 b 0,
  ap (λ (k : ℕ). get_or b k 0) {x = off + 0} {y = off} (omega arith),
)
