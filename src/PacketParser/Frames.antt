-- ===== src/PacketParser/Frames.antt =====
-- What a stream of packets says, with no chunks: lib/packet_parser.js is held to this description.
-- A frame is a header (three bytes of length, a sequence id, and with compression three more bytes)
-- and a payload. A frame of 16777215 bytes is continued by the next one.
use node_mysql.Prelude.{
  ℕ, ◌+◌, ◌*◌, ◌≡◌, ◌⊎◌, ◌&&◌, Option, none, some, List, [], ◌∷◌, ◌++◌, ltb, leb, if◌then◌else◌,
  length, get_or, drop, slice, replicate,
}
use mathlib.Core.List.{flatten}
use node_mysql.Packet.{Bytes, Packet}
use node_mysql.PacketParser.{PacketParser, max_packet_length, is_empty}

pub record Frame : Type 0 where
  pub sequence_id : ℕ
  pub extra : Bytes
  pub payload : Bytes

unfoldable pub frame_length : Bytes → ℕ
frame_length bs = get_or bs 0 0 + get_or bs 1 0 * 256 + get_or bs 2 0 * 65536

-- The frame at the head of the stream, where the bytes hold it in full.
unfoldable pub frame_at : ℕ → Bytes → Frame
frame_at h bs = record {
  sequence_id = get_or bs 3 0;
  extra = slice bs 4 h;
  payload = slice bs h (h + frame_length bs);
}

-- That frame and what follows it.
unfoldable pub next_frame : ℕ → Bytes → Option (Frame × Bytes)
next_frame h bs =
    if leb 3 (length bs) && leb (frame_length bs + h) (length bs)
    then some (frame_at h bs, drop (frame_length bs + h) bs)
    else none

-- The parts of an unfinished large packet, with the sequence id of its first frame.
pub record Assembly : Type 0 where
  pub parts : List Bytes
  pub first : ℕ

-- What a client reads of a packet: its bytes from the fifth on.
pub record Delivery : Type 0 where
  pub sequence_id : ℕ
  pub num_packets : ℕ
  pub body : Bytes

-- The extra header bytes of a large packet are lost: zeros stand in their place.
unfoldable pub assemble : ℕ → Assembly → Frame → Assembly × List Delivery
assemble h a f =
    let small = ltb (length f.payload) max_packet_length in
    let first = (if is_empty a.parts then f.sequence_id else a.first) in
    let parts = a.parts ++ (f.payload ∷ []) in
    if small && is_empty a.parts
    then (
      a,
      record { sequence_id = f.sequence_id; num_packets = 1; body = f.extra ++ f.payload } ∷ [],
    )
    else (if small
        then (
          record { parts = []; first = first },
          record {
            sequence_id = first;
            num_packets = length parts;
            body = slice (replicate h 0) 4 h ++ flatten parts;
          }
              ∷ [],
        )
        else (record { parts = parts; first = first }, []))

-- `Deframes h a bs b rest out`: from assembly `a` the stream `bs` delivers `out`, and leaves the
-- assembly `b` and the bytes `rest` of a frame that is not complete.
pub data Deframes (h : ℕ) : Assembly → Bytes → Assembly → Bytes → List Delivery → Type 0 where
  rest :
      {a b : Assembly} {bs rs : Bytes} {out : List Delivery}
      → next_frame h bs ≡ none
      → b ≡ a
      → rs ≡ bs
      → out ≡ []
      → Deframes h a bs b rs out
  frame :
      {a b : Assembly} {bs rs : Bytes} {out : List Delivery} (f : Frame) (more : Bytes)
      (outs : List Delivery)
      → next_frame h bs ≡ some (f, more)
      → Deframes h (assemble h a f).0 more b rs outs
      → out ≡ (assemble h a f).1 ++ outs
      → Deframes h a bs b rs out

abbrev pub IsHeaderLength : ℕ → Type 0
IsHeaderLength h = (h ≡ 4) ⊎ (h ≡ 7)

abbrev pub view : Packet → Delivery
view p = record {
  sequence_id = p.sequence_id;
  num_packets = p.num_packets;
  body = slice p.buffer p.offset p.end;
}

abbrev pub assembly : PacketParser → Assembly
assembly p = record { parts = p.large_packet_parts; first = p.first_packet_sequence_id }
