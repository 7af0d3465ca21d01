-- ===== src/Connection/Wire.antt =====
-- One frame as lib/base/connection.js puts it on the wire, as lib/packet_parser.js reads it.
use mathlib.Core.List.{flatten}
use node_mysql.Prelude.{
  ℕ, suc, ◌+◌, ◌/◌, ◌%◌, ◌^◌, ◌≤◌, ◌≡◌, refl, ap, ap₂, sym, ◌∙◌, some, List, [], ◌∷◌, ◌++◌, arith,
  inl, length, length-append, drop, take_exact, drop_exact, append_assoc, flatten-append,
  flatten-singleton, append-nil,
}
use node_mysql.Packet.{Bytes}
use node_mysql.PacketParser.{max_packet_length}
use node_mysql.PacketParser.Frames.{
  Frame, Assembly, Delivery, Deframes, rest, frame, next_frame, frame_at, frame_length, assemble,
}
use node_mysql.PacketParser.Framing.{next_frame_of_le}
use node_mysql.PacketParser.Refine.{next_frame-none}
use node_mysql.Connection.{Connection, write, chunk_header}

abbrev pub stream : Connection → Bytes
stream c = flatten c.written

pub stream-write : (b : Bytes) (c : Connection) → stream (write b c) ≡ stream c ++ b
unfolding write
stream-write b c = flatten-append c.written (b ∷ []) ∙ ap (◌++◌ (stream c)) (flatten-singleton b)

-- The frame of a chunk.
abbrev pub frame_with : ℕ → Bytes → Frame
frame_with sequence_id chunk = record { sequence_id = sequence_id; extra = []; payload = chunk }

-- The header bytes of a chunk: its length, the lowest byte first, and the sequence id.
abbrev pub header_bytes : Bytes → ℕ → Bytes
header_bytes chunk sequence_id =
    (length chunk % 2 ^ 8)
    ∷ (length chunk / 2 ^ 8 % 2 ^ 8)
    ∷ (length chunk / 2 ^ 16 % 2 ^ 8)
    ∷ sequence_id
    ∷ []

pub chunk_header-header_bytes :
    (chunk : Bytes) (sequence_id : ℕ)
    → chunk_header chunk sequence_id ≡ header_bytes chunk sequence_id
unfolding chunk_header
chunk_header-header_bytes chunk sequence_id = ground arith

header_length :
    (chunk more : Bytes) (sequence_id : ℕ)
    → length chunk ≤ max_packet_length
    → frame_length (header_bytes chunk sequence_id ++ more) ≡ length chunk
unfolding frame_length
header_length chunk more sequence_id h = omega arith

four_more : (n a b c d : ℕ) (xs : Bytes) → drop (n + 4) (a ∷ b ∷ c ∷ d ∷ xs) ≡ drop n xs
four_more n a b c d xs =
    ap (λ k. drop k (a ∷ b ∷ c ∷ d ∷ xs)) {x = n + 4} {y = suc (suc (suc (suc n)))} (omega arith)

header-frame_at :
    (sequence_id : ℕ) (chunk more : Bytes)
    → length chunk ≤ max_packet_length
    → frame_at 4 (header_bytes chunk sequence_id ++ (chunk ++ more)) ≡ frame_with sequence_id chunk
unfolding frame_at
header-frame_at sequence_id chunk more h =
    ap (frame_with sequence_id)
      (take_exact _ chunk more (omega (arith, header_length chunk (chunk ++ more) sequence_id)))

pub next_frame-header_bytes :
    (sequence_id : ℕ) (chunk more : Bytes)
    → length chunk ≤ max_packet_length
    → next_frame 4 (header_bytes chunk sequence_id ++ (chunk ++ more))
      ≡ some (frame_with sequence_id chunk, more)
next_frame-header_bytes sequence_id chunk more h =
    let bs = header_bytes chunk sequence_id ++ (chunk ++ more) in
    let size = header_length chunk (chunk ++ more) sequence_id h in
    let behind : drop (frame_length bs + 4) bs ≡ more =
      four_more (frame_length bs) _ _ _ _ (chunk ++ more)
      ∙ drop_exact (frame_length bs) chunk more size in
    next_frame_of_le 4 bs (omega arith) (omega (arith, length-append chunk more))
    ∙ ap₂ (λ f xs. some (f, xs)) (header-frame_at sequence_id chunk more h) behind

-- What a chunk's frame adds to the stream.
pub record Sends (c c' : Connection) (a a' : Assembly) (out : List Delivery) : Type 0 where
  pub wire : Bytes
  pub sent : stream c' ≡ stream c ++ wire
  pub deframes : Deframes 4 a wire a' [] out

pub Sends-nothing : (c : Connection) (a : Assembly) → Sends c c a a []
Sends-nothing c a = record {
  wire = [];
  sent = sym (append-nil (stream c));
  deframes = rest (next_frame-none 4 [] (inl (omega arith))) refl refl refl;
}

pub Sends-chunk :
    (c d c' : Connection) (a a' : Assembly) (chunk : Bytes) (outs : List Delivery)
    → length chunk ≤ max_packet_length
    → stream d ≡ stream c ++ (header_bytes chunk c.sequence_id ++ chunk)
    → let (b, out) = assemble 4 a (frame_with c.sequence_id chunk) in
      Sends d c' b a' outs → Sends c c' a a' (out ++ outs)
Sends-chunk c d c' a a' chunk outs h e s = record {
  wire = header_bytes chunk c.sequence_id ++ (chunk ++ s.wire);
  sent =
      s.sent
      ∙ ap (λ xs. xs ++ s.wire) e
      ∙ append_assoc (stream c) (header_bytes chunk c.sequence_id ++ chunk) s.wire;
  deframes =
      frame (frame_with c.sequence_id chunk) s.wire outs
        (next_frame-header_bytes c.sequence_id chunk s.wire h) s.deframes refl;
}
