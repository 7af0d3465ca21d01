-- ===== src/Packet/Tests.antt =====
-- Runs of the model of lib/packets/packet.js.
use node_mysql.Prelude.{Bool, false, none, some, [], ◌∷◌, replicate, arith}
use node_mysql.Packet.{Packet, new_packet}
use node_mysql.Packet.LengthCoded.{
  Long, number, length_coded_number_length, read_length_coded_number, read_length_coded_buffer,
  write_length_coded_number, write_length_coded_buffer,
}
use node_mysql.Packet.WriteRead.{
  RoundTrips, length_coded_number_round_trip, length_coded_buffer_round_trip,
  write_length_coded_number-null,
}

abbrev room : Packet
room = new_packet 0 (replicate 16 0) 0 16

abbrev never_safe : Long → Bool
never_safe l = false

length_coded_number_round_trip_example :
    RoundTrips
      (write_length_coded_number (some 70000))
      (read_length_coded_number never_safe false false)
      (number 70000)
      4
      room
unfolding new_packet length_coded_number_length
length_coded_number_round_trip_example =
    length_coded_number_round_trip never_safe false false 70000 room (omega arith) (omega arith)

length_coded_buffer_round_trip_example :
    RoundTrips
      (write_length_coded_buffer (7 ∷ 8 ∷ 9 ∷ []))
      (read_length_coded_buffer never_safe)
      (some (7 ∷ 8 ∷ 9 ∷ []))
      4
      room
unfolding new_packet length_coded_number_length
length_coded_buffer_round_trip_example =
    length_coded_buffer_round_trip never_safe (7 ∷ 8 ∷ 9 ∷ []) room (omega arith) (omega arith)

write_length_coded_number-null_example :
    RoundTrips
      (write_length_coded_number none)
      (read_length_coded_number never_safe false false)
      (number 0)
      1
      room
unfolding new_packet
write_length_coded_number-null_example =
    write_length_coded_number-null never_safe false false room (omega arith)
