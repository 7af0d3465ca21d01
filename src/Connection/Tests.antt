-- ===== src/Connection/Tests.antt =====
-- Runs of the model of lib/base/connection.js.
use mathlib.Core.List.{flatten}
use node_mysql.Prelude.{
  ◌≡◌, refl, some, List, [], ◌∷◌, ◌%◌, ◌+◌, arith, length-replicate, replicate, map,
}
use node_mysql.Packet.{
  Bytes, Packet, packet_length, write_header, write_int24, write_int16, write_int8, put,
}
use node_mysql.PacketParser.{Allocator, new_parser, execute_all}
use node_mysql.PacketParser.Frames.{view}
use node_mysql.PacketParser.Pending.{pending}
use node_mysql.PacketParser.Chunks.{empty_assembly}
use node_mysql.Connection.{Connection, write_packet, write, bump_sequence_id}
use node_mysql.Connection.Chunks.{Arrives}
use node_mysql.Connection.Deliver.{
  IsOutgoing, arriving, frames_sent, write_packet-Arrives, write_packet-execute_all,
}

abbrev zeros : Allocator
zeros = record {
  alloc_unsafe = λ n. replicate n 0;
  length-alloc_unsafe = λ n. length-replicate n 0;
}

abbrev ping : Packet
ping = record {
  sequence_id = 0;
  num_packets = 1;
  buffer = 0 ∷ 0 ∷ 0 ∷ 0 ∷ 14 ∷ [];
  start = 0;
  offset = 5;
  end = 5;
}

ping-IsOutgoing : IsOutgoing ping (14 ∷ [])
ping-IsOutgoing = record { start = refl; end = refl; room = omega arith; content = refl }

abbrev before : Connection
before = record { sequence_id = 255; compressed_sequence_id = 0; written = [] }

abbrev after : Connection
after = record {
  sequence_id = 0;
  compressed_sequence_id = 0;
  written = (1 ∷ 0 ∷ 0 ∷ 255 ∷ 14 ∷ []) ∷ [];
}

write_packet_run : write_packet ping before ≡ some after
unfolding write_packet packet_length write_header write_int24 write_int16 write_int8 put write
    bump_sequence_id
write_packet_run = refl

write_packet-Arrives_example :
    (d : Connection) × (write_packet ping before ≡ some d)
    × Arrives before d empty_assembly (arriving 255 (14 ∷ []))
    × (d.sequence_id ≡ (255 + frames_sent 1) % 256)
write_packet-Arrives_example =
    write_packet-Arrives before ping (14 ∷ []) ping-IsOutgoing (omega arith)

abbrev two_chunks : List Bytes
two_chunks = (1 ∷ 0 ∷ []) ∷ (0 ∷ 255 ∷ 14 ∷ []) ∷ []

write_packet-execute_all_example :
    let (q, out) = execute_all zeros (new_parser 4) two_chunks in
    (map view out ≡ arriving 255 (14 ∷ [])) × (pending q ≡ [])
unfolding flatten
write_packet-execute_all_example =
    write_packet-execute_all zeros before after ping (14 ∷ []) two_chunks ping-IsOutgoing
      (omega arith) refl write_packet_run (ground arith) refl
