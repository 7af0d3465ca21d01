-- ===== src/Compression/Tests.antt =====
-- Runs of the model of lib/compressed_protocol.js.
use mathlib.Core.List.{flatten}
use node_mysql.Prelude.{
  ℕ, ◌≡◌, refl, ap, subst, Bool, Bool-cases, true, ◌&&◌, some, List, [], ◌∷◌, ◌++◌, map, ◌==◌,
  if◌then◌else◌, inl, inr, length, replicate, length-replicate, arith,
}
use node_mysql.Packet.{Bytes, Packet}
use node_mysql.PacketParser
use node_mysql.PacketParser.{
  Allocator, new_parser, execute_all, execute, execute_with, run_start, start_loop, keep_header,
  read_packet_length, run_payload, run_header2, run_header3, copy_all,
}
use node_mysql.TaskQueue.{push, next}
use node_mysql.TaskQueue.Serial.{waiting}
use node_mysql.TaskQueue.Pipe.{new_pipe, tick, complete}
use node_mysql.TaskQueue.Pipe.Drain.{turns}
use node_mysql.Compression.{
  Zlib, Inflated, new_writer, write_compressed, deflate_task, frame_bytes, handle_compressed_packet,
}
use node_mysql.Compression.Writing.{
  Input, write, next_tick, run, all_pieces, content, meant, numbered, IsInverse, run-numbered,
}
use node_mysql.Compression.Draining.{IsTotal, turns-numbered}
use node_mysql.Compression.Receiving.{
  Arrival, arrive, next_arrival_tick, arrivals, packets_of, buffers, arrivals-buffers,
}

-- A compression that knows only zeros: many of them are squeezed into nothing.
abbrev zeros : Bytes → Bool
zeros [] = true
zeros (b ∷ bs) = (b == 0) && zeros bs

abbrev squeeze : Bytes → Bytes
squeeze b = if zeros b then [] else b

abbrev stretch : ℕ → Bytes → Bytes
stretch n c = if length c == n then c else replicate n 0

abbrev zlib : Zlib
zlib = record { deflate = λ b. some (squeeze b); inflate = λ n c. some (stretch n c) }

zeros-replicate : (b : Bytes) → zeros b ≡ true → replicate (length b) 0 ≡ b
zeros-replicate [] h = refl
zeros-replicate (x ∷ b) h = ground (arith, zeros-replicate b)

stretch-squeeze : (b : Bytes) → stretch (length b) (squeeze b) ≡ b
stretch-squeeze [] = refl
stretch-squeeze (x ∷ b) = elim (Bool-cases (zeros (x ∷ b))) [
  | inl e ↦ ground (arith, zeros-replicate (x ∷ b) e)
  | inr e ↦ ground arith
]

zlib-IsInverse : IsInverse zlib
zlib-IsInverse b c e =
    let same : squeeze b ≡ c = cc in
    subst (λ x. some (stretch (length b) x) ≡ some b) same (ap some (stretch-squeeze b))

zlib-IsTotal : IsTotal zlib
zlib-IsTotal b = (squeeze b, refl)

-- A large packet that goes to the thread pool, and a small one that waits for it.
abbrev calls : List Input
calls = write (replicate 4100 0) ∷ write (1 ∷ 2 ∷ []) ∷ next_tick ∷ []

run-numbered_example :
    map (content zlib) (run zlib calls new_writer).pipe.out
      ++ map meant (waiting (run zlib calls new_writer).pipe.tasks)
    ≡ map meant (numbered 0 (all_pieces zlib calls))
unfolding new_writer write_compressed tick next push
run-numbered_example = run-numbered zlib calls zlib-IsInverse refl

turns-numbered_example :
    let p = (run zlib calls new_writer).pipe in
    map (content zlib) (turns (deflate_task zlib) (length (waiting p.tasks)) p).out
    ≡ map meant (numbered 0 (all_pieces zlib calls))
turns-numbered_example = turns-numbered zlib calls zlib-IsInverse zlib-IsTotal

abbrev node : Allocator
node = record { alloc_unsafe = λ n. replicate n 0; length-alloc_unsafe = λ n. length-replicate n 0 }

-- The bytes of two frames, cut in the header of the second.
abbrev chunks : List Bytes
chunks = (0 ∷ 0 ∷ 0 ∷ 0 ∷ 4 ∷ 16 ∷ 0 ∷ 2 ∷ 0 ∷ []) ∷ (0 ∷ 1 ∷ 0 ∷ 0 ∷ 0 ∷ 1 ∷ 2 ∷ []) ∷ []

abbrev with_ticks : List Packet → List Arrival
with_ticks [] = []
with_ticks (p ∷ ps) = arrive p ∷ next_arrival_tick ∷ with_ticks ps

packets_of-with_ticks : (ps : List Packet) → packets_of (with_ticks ps) ≡ ps
packets_of-with_ticks [] = refl
packets_of-with_ticks (p ∷ ps) = ap (p ∷◌) (packets_of-with_ticks ps)

abbrev arriving : List Arrival
arriving = with_ticks (execute_all node (new_parser 7) chunks).1

arrivals-buffers_example :
    flatten (map (λ (i : Inflated). i.bytes) (arrivals zlib arriving new_pipe).out)
    ≡ flatten (buffers calls)
unfolding new_writer write_compressed tick next push complete handle_compressed_packet new_pipe
    frame_bytes execute_all execute execute_with run_start start_loop keep_header new_parser
    read_packet_length run_payload run_header2 run_header3 copy_all PacketParser.complete flatten
arrivals-buffers_example =
    arrivals-buffers zlib node calls chunks arriving zlib-IsInverse zlib-IsTotal (ground arith) refl
      (packets_of-with_ticks _) refl refl
