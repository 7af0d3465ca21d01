-- ===== src/Execute.antt =====
-- lib/packets/execute.js: the packet that runs a prepared statement with its parameters
-- (COM_STMT_EXECUTE). The memory of Buffer.allocUnsafe is a parameter.
pub mod Bitmap
pub mod Length
pub mod Outcomes
mod Tests
use Prim.Native.Nat.{bit_or}
use node_mysql.Prelude.{
  ℕ, zero, suc, ◌+◌, ◌-◌, ◌*◌, ◌/◌, ◌%◌, ◌^◌, Bool, true, false, not, ◌&&◌, Option, none, some,
  List, [], ◌∷◌, ◌++◌, map, ltb, ◌==◌, if◌then◌else◌, length,
}
use node_mysql.Packet.{Bytes, Packet, M, pure, ◌>>=◌, ◌>>◌, new_packet, write_int8, write_int32}
use node_mysql.Packet.LengthCoded.{
  write_length_coded_number, write_length_coded_buffer, length_coded_number_length,
}
use node_mysql.PacketParser.{Allocator}
use node_mysql.Parameter.{Result, ok, type_error, range_error, Value, Runtime, Parameter}
use node_mysql.Parameter.Encode.{to_parameter}

-- `attributes` are none where the server does not take them; a name is the bytes that it is encoded to.
-- `definitions` are the types and flags that the server gave for the parameters.
pub record Execute (Num Text Date Object : Type 0) : Type 0 where
  pub id : ℕ
  pub parameters : List (Value Num Text Date Object)
  pub attributes : List (Bytes × Value Num Text Date Object)
  pub use_query_attributes : Bool
  pub json_as_string : Bool
  pub definitions : List (Option (ℕ × ℕ))

-- A parameter that is bound has no name, an attribute has one.
abbrev pub Named : Type 0
Named = Parameter × Option Bytes

pub data Outcome : Type 0 where
  packet : Packet → Outcome
  throws : Outcome
  internal_error : Outcome

abbrev pub stmt_execute : ℕ
stmt_execute = 0x17

abbrev pub parameter_count_available : ℕ
parameter_count_available = 8

-- The loop over the parameters that collects their null bits into bytes.
unfoldable pub write_bitmap : List Bool → ℕ → ℕ → M (Unit {0})
unfolding write_int8
write_bitmap [] bitmap bit_value = if bit_value == 1 then pure tt else write_int8 bitmap
write_bitmap (null ∷ nulls) bitmap bit_value =
    let bits = (if null then bit_or bitmap bit_value else bitmap) in
    let full : M (Unit {0}) = write_int8 bits >> write_bitmap nulls 0 1 in
    let more : M (Unit {0}) = write_bitmap nulls bits (bit_value * 2) in
    if bit_value * 2 == 256 then full else more

unfoldable pub write_name : Bool → Option Bytes → M (Unit {0})
unfolding write_int8 write_length_coded_buffer
write_name false name = pure tt
write_name true none = write_int8 0
write_name true (some name) = write_length_coded_buffer name

unfoldable pub write_types : Bool → List Named → M (Unit {0})
unfolding write_int8 write_name
write_types with_names [] = pure tt
write_types with_names ((p, name) ∷ ps) = do
  write_int8 p.type
  write_int8 (if p.unsigned then 0x80 else 0)
  write_name with_names name
  write_types with_names ps

unfoldable pub write_values : List Named → M (Unit {0})
write_values [] = pure tt
write_values ((p, name) ∷ ps) = (if p.is_null then pure tt else p.writer) >> write_values ps

-- What the name and the value of a parameter add to the length.
unfoldable pub name_length : Bool → Option Bytes → ℕ
name_length false name = 0
name_length true none = 1
name_length true (some name) = length_coded_number_length (length name) + length name

abbrev pub value_length : Parameter → ℕ
value_length p = if p.is_null then 0 else p.length

unfoldable pub names_length : Bool → List Named → ℕ
unfolding name_length
names_length with_names [] = 0
names_length with_names ((p, name) ∷ ps) = name_length with_names name + names_length with_names ps

unfoldable pub values_length : List Named → ℕ
values_length [] = 0
values_length ((p, name) ∷ ps) = value_length p + values_length ps

abbrev pub null_bits : List Named → List Bool
null_bits [] = []
null_bits ((p, name) ∷ ps) = p.is_null ∷ null_bits ps

-- The length of the packet, its header included.
unfoldable pub packet_size : Bool → List Named → ℕ
unfolding names_length values_length
packet_size with_names ps =
    let total = length ps in
    14
    + (if with_names then length_coded_number_length total else 0)
    + (if total == 0
        then 0
        else (total + 7) / 8 + 1 + total * 2 + names_length with_names ps + values_length ps)

unfoldable pub write_parameters : Bool → List Named → M (Unit {0})
unfolding write_bitmap write_types write_values write_int8
write_parameters with_names ps = do
  write_bitmap (null_bits ps) 0 1
  write_int8 1
  write_types with_names ps
  write_values ps

unfoldable pub write_execute : ℕ → Bool → List Named → M (Unit {0})
unfolding write_int8 write_int32 write_length_coded_number write_parameters
write_execute id with_names ps = do
  write_int8 stmt_execute
  write_int32 id
  write_int8 (if with_names then parameter_count_available else 0)
  write_int32 1
  (if with_names then write_length_coded_number (some (length ps)) else pure tt)
  (if length ps == 0 then pure tt else write_parameters with_names ps)

-- The position behind the last byte is compared with the length.
abbrev pub check_length : ℕ → Option (Unit {0} × Packet) → Outcome
check_length size none = throws
check_length size (some (u, p)) = if p.offset == size then packet p else internal_error

-- The packet is allocated and written.
unfoldable pub serialize : Allocator → ℕ → Bool → List Named → Outcome
unfolding packet_size new_packet
serialize node id with_names ps =
    let size = packet_size with_names ps in
    check_length size
      (write_execute id with_names ps (new_packet 0 (node.alloc_unsafe size) 0 size))

abbrev pub serialize_all : Allocator → ℕ → Bool → Result (List Named) → Outcome
serialize_all node id with_names (ok ps) = serialize node id with_names ps
serialize_all node id with_names type_error = throws
serialize_all node id with_names range_error = throws

abbrev pub cons_result : Result Parameter → Option Bytes → Result (List Named) → Result (List Named)
cons_result (ok p) name (ok ps) = ok ((p, name) ∷ ps)
cons_result (ok p) name type_error = type_error
cons_result (ok p) name range_error = range_error
cons_result type_error name r = type_error
cons_result range_error name r = range_error

abbrev pub definition_at : List (Option (ℕ × ℕ)) → Option (ℕ × ℕ)
definition_at [] = none
definition_at (d ∷ ds) = d

abbrev pub definitions_behind : List (Option (ℕ × ℕ)) → List (Option (ℕ × ℕ))
definitions_behind [] = []
definitions_behind (d ∷ ds) = ds

module _ {Num Text Date Object : Type 0} (js : Runtime Num Text Date Object) where
  unfoldable pub attribute_parameters :
      List (Bytes × Value Num Text Date Object) → Result (List Named)
  unfolding to_parameter
  attribute_parameters [] = ok []
  attribute_parameters ((name, v) ∷ rest) =
      cons_result (to_parameter js v false none) (some name) (attribute_parameters rest)

  -- `allParams`: the parameters with what is known of them, then the attributes.
  unfoldable pub all_parameters :
      Bool
      → List (Value Num Text Date Object)
      → List (Option (ℕ × ℕ))
      → Result (List Named)
      → Result (List Named)
  unfolding to_parameter
  all_parameters json_as_string [] ds attributes = attributes
  all_parameters json_as_string (v ∷ vs) ds attributes =
      cons_result (to_parameter js v json_as_string (definition_at ds)) none
        (all_parameters json_as_string vs (definitions_behind ds) attributes)

  unfoldable pub to_packet : Allocator → Execute Num Text Date Object → Outcome
  unfolding all_parameters attribute_parameters serialize
  to_packet node e =
      let attributes = attribute_parameters (if e.use_query_attributes then e.attributes else []) in
      serialize_all node e.id e.use_query_attributes
        (all_parameters e.json_as_string e.parameters e.definitions attributes)
