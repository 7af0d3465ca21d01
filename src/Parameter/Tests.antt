-- ===== src/Parameter/Tests.antt =====
-- Runs of the model of lib/packets/typed_parameter.js.
use node_mysql.Prelude.{
  ◌+◌, ◌*◌, ◌<◌, ◌≡◌, ◌⊎◌, ◌↔◌, refl, true, false, pos, negsuc, pos_part, neg_part, length, none,
}
use node_mysql.Packet.{Bytes, M}
use node_mysql.Packet.Bytes.{Writes}
use node_mysql.Parameter.{
  ok, range_error, big_int, integer_bytes, checked_integer, hint_upgradable, integer_hint,
}
use node_mysql.Parameter.Encode.{integer_encoder, time_of_integer}
use node_mysql.Parameter.Integers.{InRange, decoded, integer_encoder_lem, time_of_integer_lem}
use node_mysql.Parameter.Plain.{plain}
use node_mysql.Parameter.Types

integer_encoder_lem_example :
    (InRange 2 false (negsuc 1)
      × ((bs : Bytes) × (w : M (Unit {0})) × (integer_encoder plain 2 (big_int (negsuc 1)) false
            ≡ ok (2, w))
          × Writes w bs
          × (length bs ≡ 2)
          × (decoded false bs ≡ negsuc 1)))
    ⊎ ((¬ InRange 2 false (negsuc 1))
        × (integer_encoder plain 2 (big_int (negsuc 1)) false ≡ range_error))
unfolding integer_bytes
integer_encoder_lem_example = integer_encoder_lem plain Types.short 2 false (negsuc 1) refl

time_of_integer_lem_example :
    let t = time_of_integer (negsuc 90061000) in
    (t.hours < 24)
    × (t.minutes < 60)
    × (t.seconds < 60)
    × (t.microseconds < 1000000)
    × ((((t.days * 24 + t.hours) * 60 + t.minutes) * 60 + t.seconds) * 1000000 + t.microseconds
        ≡ 1000 * (pos_part (negsuc 90061000) + neg_part (negsuc 90061000)))
    × ((t.negative ≡ true) ↔ (0 < neg_part (negsuc 90061000)))
time_of_integer_lem_example = time_of_integer_lem (negsuc 90061000)

too_large : checked_integer plain (big_int (pos 128)) 1 false ≡ range_error
unfolding checked_integer
too_large = refl

smallest : checked_integer plain (big_int (negsuc 127)) 1 false ≡ ok (negsuc 127)
unfolding checked_integer
smallest = refl

not_upgraded : integer_hint plain (big_int (pos 300)) Types.tiny true ≡ none
unfolding integer_hint hint_upgradable integer_bytes
not_upgraded = refl
