-- ===== src/Execute/Tests.antt =====
-- Runs of the model of lib/packets/execute.js.
use node_mysql.Prelude.{
  ℕ, ◌+◌, ◌/◌, ◌≡◌, refl, Bool, true, false, some, List, [], ◌∷◌, negsuc, length, replicate,
  length-replicate, get_elem?,
}
use node_mysql.Packet.{Bytes}
use node_mysql.Packet.Bytes.{Writes}
use node_mysql.PacketParser.{Allocator}
use node_mysql.Parameter.{number, null, boolean, big_int, text, typed}
use node_mysql.Parameter.Encoded.{IsBuffer}
use node_mysql.Parameter.Plain.{plain}
use node_mysql.Parameter.Types
use node_mysql.Execute.{Execute, to_packet, write_bitmap}
use node_mysql.Execute.Outcomes.{Settled, IsSendable, to_packet_lem}
use node_mysql.Execute.Bitmap.{write_bitmap_lem, null_bit, bit_of}

plain-IsBuffer : IsBuffer plain
plain-IsBuffer = record { length-double_bytes = λ x. refl; length-float_bytes = λ x. refl }

abbrev zeros : Allocator
zeros = record {
  alloc_unsafe = λ n. replicate n 0;
  length-alloc_unsafe = λ n. length-replicate n 0;
}

abbrev call : Execute ℕ Bytes ℕ ℕ
call = record {
  id = 7;
  parameters =
      number 5 ∷ null ∷ text (65 ∷ 66 ∷ []) ∷ typed Types.short (big_int (negsuc 1)) false ∷ [];
  attributes = (88 ∷ [], boolean true) ∷ [];
  use_query_attributes = true;
  json_as_string = false;
  definitions = some (Types.tiny, 32) ∷ [];
}

to_packet_lem_example : Settled (¬ IsSendable plain call) (λ node. to_packet plain node call)
to_packet_lem_example = to_packet_lem plain plain-IsBuffer call

abbrev nulls : List Bool
nulls = false ∷ true ∷ false ∷ false ∷ false ∷ false ∷ false ∷ true ∷ true ∷ []

write_bitmap_lem_example :
    (bs : Bytes) × Writes (write_bitmap nulls 0 1) bs
    × (length bs ≡ (length nulls + 7) / 8)
    × ((i : ℕ) (n : Bool) → get_elem? nulls i ≡ some n → null_bit bs i ≡ bit_of n)
write_bitmap_lem_example = write_bitmap_lem nulls
