-- ===== src/PacketParser/Complete.antt =====
-- Handing over one whole frame (lib/packet_parser.js, the shared branches of `executeStart` and
-- `executePayload`) is one step of `assemble`.
use mathlib.Core.List.{flatten}
use node_mysql.Prelude.{
  ℕ, ◌+◌, ◌-◌, ◌≤◌, ◌≡◌, sym, ap, ap₂, ◌∙◌, take-append-drop, take-take, drop-take, take_all, [],
  ◌∷◌, ◌++◌, arith, inl, inr, length, take, drop, slice, map, length-take, length-drop, drop-drop,
  replicate,
}
use node_mysql.Packet.{Bytes}
use node_mysql.PacketParser.{PacketParser, flush_large_packet, complete}
use node_mysql.PacketParser.Frames.{Frame, assemble, IsHeaderLength, view, assembly}

pub slice-split :
    (bs : Bytes) (i j k : ℕ)
    → i ≤ j
    → j ≤ k
    → k ≤ length bs
    → slice bs i k ≡ slice bs i j ++ slice bs j k
slice-split bs i j k p q r =
    sym (take-append-drop (j - i) (slice bs i k))
    ∙ ap₂ ◌++◌ (take-take (j - i) (k - i) (drop i bs) (omega arith)) (
        drop-take (j - i) (k - i) (drop i bs)
        ∙ ap₂ take {x = k - i - (j - i)} {y = k - j} (omega arith)
            (drop-drop (j - i) i bs ∙ ap (λ m. drop m bs) {x = i + (j - i)} {y = j} (omega arith)))

pub length-slice : (bs : Bytes) (i k : ℕ) → i ≤ k → k ≤ length bs → length (slice bs i k) ≡ k - i
length-slice bs i k p q = omega (arith, length-take (k - i) (drop i bs), length-drop i bs)

pub slice-drop : (bs : Bytes) (s i k : ℕ) → slice (drop s bs) i k ≡ slice bs (s + i) (s + k)
slice-drop bs s i k = ap₂ take {x = k - i} {y = s + k - (s + i)} (omega arith) (drop-drop i s bs)

-- The frame at `start` of the buffer.
abbrev pub frame_of : PacketParser → ℕ → Bytes → ℕ → Frame
frame_of p sequence_id buffer start = record {
  sequence_id = sequence_id;
  extra = slice buffer (start + 4) (start + p.packet_header_length);
  payload =
      slice buffer (start + p.packet_header_length)
        (start + p.packet_header_length + p.payload_length);
}

skip_zeros :
    (h : ℕ) (bs : Bytes)
    → IsHeaderLength h
    → slice (replicate h 0 ++ bs) 4 (length (replicate h 0 ++ bs)) ≡ slice (replicate h 0) 4 h ++ bs
skip_zeros h bs (inl e) = rw e (take_all _ bs (omega arith))
skip_zeros h bs (inr e) = rw e (take_all _ (0 ∷ 0 ∷ 0 ∷ bs) (omega arith))

pub complete-assemble :
    (p : PacketParser) (sequence_id : ℕ) (buffer : Bytes) (start h : ℕ)
    → IsHeaderLength h
    → p.packet_header_length ≡ h
    → start + h + p.payload_length ≤ length buffer
    → let (q, out) = complete p sequence_id buffer start in
      let (a, outs) = assemble h (assembly p) (frame_of p sequence_id buffer start) in
      (assembly q ≡ a) × (map view out ≡ outs)
unfolding complete flush_large_packet assemble
complete-assemble p sequence_id buffer start h hh e k = ground (
  arith,
  slice-split buffer (start + 4) (start + h) (start + h + p.payload_length),
  length-slice buffer (start + h) (start + h + p.payload_length),
  skip_zeros h
      (flatten
        (p.large_packet_parts ++ (slice buffer (start + h) (start + h + p.payload_length) ∷ [])))
      hh,
)

-- It leaves the other fields alone.
pub record Same (p q : PacketParser) : Type 0 where
  pub header : q.packet_header_length ≡ p.packet_header_length
  pub mode : q.execute ≡ p.execute
  pub chunks : q.buffer ≡ p.buffer
  pub size : q.buffer_length ≡ p.buffer_length

pub complete-Same :
    (p : PacketParser) (sequence_id : ℕ) (buffer : Bytes) (start : ℕ)
    → Same p (complete p sequence_id buffer start).0
unfolding complete flush_large_packet
complete-Same p sequence_id buffer start = ground arith
