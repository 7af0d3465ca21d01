-- ===== src/PacketParser/Tests.antt =====
-- Runs of the model of lib/packet_parser.js.
use mathlib.Core.List.{flatten}
use node_mysql.Prelude.{◌≡◌, refl, inl, List, [], ◌∷◌, arith, length-replicate, replicate, map}
use node_mysql.Packet.{Bytes}
use node_mysql.PacketParser.{
  Allocator, read_packet_length, new_parser, execute, execute_all, execute_with, run_start,
  start_loop, run_payload, run_header2, run_header3, complete, keep_header, copy_all,
}
use node_mysql.PacketParser.Frames.{Delivery, Deframes, view, assembly}
use node_mysql.PacketParser.Pending.{IsValid, new_parser-IsValid, pending}
use node_mysql.PacketParser.Refine.{Advances}
use node_mysql.PacketParser.Chunks.{
  empty_assembly, execute-Advances, execute_all-Deframes, execute_all-chunks,
}

abbrev zeros : Allocator
zeros = record {
  alloc_unsafe = λ n. replicate n 0;
  length-alloc_unsafe = λ n. length-replicate n 0;
}

abbrev ones : Allocator
ones = record { alloc_unsafe = λ n. replicate n 1; length-alloc_unsafe = λ n. length-replicate n 1 }

-- A packet of two bytes, an empty one, and the first byte of a third.
abbrev one_chunk : List Bytes
one_chunk = (2 ∷ 0 ∷ 0 ∷ 7 ∷ 41 ∷ 42 ∷ 0 ∷ 0 ∷ 0 ∷ 8 ∷ 5 ∷ []) ∷ []

abbrev four_chunks : List Bytes
four_chunks = (2 ∷ []) ∷ (0 ∷ 0 ∷ 7 ∷ 41 ∷ []) ∷ (42 ∷ 0 ∷ 0 ∷ []) ∷ (0 ∷ 8 ∷ 5 ∷ []) ∷ []

two_packets : List Delivery
two_packets =
    record { sequence_id = 7; num_packets = 1; body = 41 ∷ 42 ∷ [] }
    ∷ record { sequence_id = 8; num_packets = 1; body = [] }
    ∷ []

one_chunk_run : map view (execute_all zeros (new_parser 4) one_chunk).1 ≡ two_packets
unfolding execute_all execute execute_with run_start start_loop complete keep_header new_parser
    read_packet_length two_packets
one_chunk_run = refl

four_chunks_run : map view (execute_all ones (new_parser 4) four_chunks).1 ≡ two_packets
unfolding execute_all execute execute_with run_start start_loop complete keep_header new_parser
    read_packet_length run_payload run_header2 run_header3 copy_all two_packets
four_chunks_run = refl

execute_all-chunks_example :
    let (p, out) = execute_all zeros (new_parser 4) one_chunk in
    let (p', out') = execute_all ones (new_parser 4) four_chunks in
    (map view out ≡ map view out') × (pending p ≡ pending p') × (assembly p ≡ assembly p')
unfolding flatten
execute_all-chunks_example =
    execute_all-chunks zeros ones 4 one_chunk four_chunks (inl refl) (ground arith) (ground arith)
      refl

execute_all-Deframes_example :
    let (p, out) = execute_all ones (new_parser 4) four_chunks in
    IsValid 4 p
    × Deframes 4 empty_assembly (flatten four_chunks) (assembly p) (pending p) (map view out)
execute_all-Deframes_example = execute_all-Deframes ones 4 four_chunks (inl refl) (ground arith)

execute-Advances_example :
    Advances 4 empty_assembly
      (1 ∷ 0 ∷ 0 ∷ 7 ∷ 41 ∷ [])
      (execute ones (new_parser 4) (1 ∷ 0 ∷ 0 ∷ 7 ∷ 41 ∷ []))
unfolding new_parser
execute-Advances_example =
    execute-Advances ones 4 (inl refl) (new_parser 4) (1 ∷ 0 ∷ 0 ∷ 7 ∷ 41 ∷ []) (ground arith)
      (new_parser-IsValid 4)
