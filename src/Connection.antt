-- ===== src/Connection.antt =====
-- lib/base/connection.js: sequence numbers and the framing of what a connection sends.
-- `written` is what `write` was given, in order: with the socket's own buffering left out, the
-- stream that the server reads is all of it.
pub mod Wire
pub mod Chunks
pub mod Deliver
mod Tests
use mathlib.Core.List.{flatten}
use node_mysql.Prelude.{
  ℕ, zero, suc, ◌+◌, ◌-◌, ◌*◌, ◌/◌, ◌%◌, ◌^◌, Option, none, some, List, [], ◌∷◌, ◌++◌, ltb, ◌==◌,
  if◌then◌else◌, length, slice,
}
use node_mysql.Packet.{Bytes, Packet, packet_length, write_header}
use node_mysql.PacketParser.{max_packet_length}

pub record Connection : Type 0 where
  pub sequence_id : ℕ
  pub compressed_sequence_id : ℕ
  pub written : List Bytes

unfoldable pub reset_sequence_id : Connection → Connection
reset_sequence_id c = record c { sequence_id = 0; compressed_sequence_id = 0 }

unfoldable pub bump_compressed_sequence_id : ℕ → Connection → Connection
bump_compressed_sequence_id num_packets c = record c {
  compressed_sequence_id = (c.compressed_sequence_id + num_packets) % 256;
}

unfoldable pub bump_sequence_id : ℕ → Connection → Connection
bump_sequence_id num_packets c = record c { sequence_id = (c.sequence_id + num_packets) % 256 }

unfoldable pub write : Bytes → Connection → Connection
write buffer c = record c { written = c.written ++ (buffer ∷ []) }

-- The header of one chunk of a large packet.
unfoldable pub chunk_header : Bytes → ℕ → Bytes
chunk_header chunk sequence_id =
    if length chunk == max_packet_length
    then 0xff ∷ 0xff ∷ 0xff ∷ sequence_id ∷ []
    else (length chunk % 2 ^ 8)
      ∷ (length chunk / 2 ^ 8 % 2 ^ 8)
      ∷ (length chunk / 2 ^ 16 % 2 ^ 8)
      ∷ sequence_id
      ∷ []

-- The loop over the chunks, from `offset` on: each round moves `offset` by 16777215.
unfoldable pub write_chunks : ℕ → Bytes → ℕ → ℕ → Connection → Connection
unfolding chunk_header bump_sequence_id write
write_chunks zero buffer offset length c = c
write_chunks (suc fuel) buffer offset length c =
    let chunk = slice buffer offset (offset + max_packet_length) in
    let header = chunk_header chunk c.sequence_id in
    let rest =
      write_chunks fuel buffer (offset + max_packet_length) length
        (write chunk (write header (bump_sequence_id 1 c))) in
    if ltb offset (4 + length) then rest else c

-- `writePacket(packet)`; `none` is an exception of `writeHeader`. A round is made for each 16777215
-- bytes begun, so one more than the length is fuel enough.
unfoldable pub write_packet : Packet → Connection → Option Connection
write_packet packet c =
    let length = packet_length packet in
    if ltb length max_packet_length
    then elim (write_header c.sequence_id packet) [
      | none ↦ none
      | some (u, headed) ↦ some (write headed.buffer (bump_sequence_id 1 c))
    ]
    else some (write_chunks (suc length) packet.buffer 4 length c)
