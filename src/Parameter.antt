-- ===== src/Parameter.antt =====
-- lib/packets/typed_parameter.js and lib/packets/encode_parameter.js: how a value that is bound to a
-- prepared statement is encoded. What a value of JavaScript, of Buffer and of iconv-lite is or gives
-- is the parameter Runtime. The text of a date's time zone is the offset that it stands for.
pub mod Types
pub mod Encode
pub mod Encoded
pub mod Integers
pub mod Plain
mod Tests
use Prim.Native.Nat.{bit_and}
use node_mysql.Prelude.{
  ℕ, zero, suc, ◌+◌, ◌-◌, ◌*◌, ◌^◌, ◌≡◌, Bool, true, false, not, ◌&&◌, ◌||◌, Option, none, some,
  List, [], ◌∷◌, ℤ, pos, negsuc, ltb, ltb_ℤ, sub_ℕ, as_uint, ◌==◌, if◌then◌else◌, length,
}
use node_mysql.Packet.{Bytes, M, pure, put, write_int8}
use node_mysql.Packet.LengthCoded.{write_length_coded_buffer, length_coded_number_length}
use node_mysql.Packet.Values.{
  write_uint_le, TimeParts, time_length, write_time, DateFields, write_date_fields,
}
use node_mysql.Parameter.Types

-- A result, or the error that is thrown.
pub data Result {ℓ} (A : Type ℓ) : Type ℓ where
  ok : A → Result A
  type_error range_error : Result A

infixl 5 ◌>>=◌
abbrev pub ◌>>=◌ {ℓ κ} : {A : Type ℓ} {B : Type κ} → Result A → (A → Result B) → Result B
ok a >>= f = f a
type_error >>= f = type_error
range_error >>= f = range_error

-- A value of JavaScript. `json` is an array, a plain object or one with `toJSON`; `object` any other
-- object; `opaque` a function or a symbol. `typed` is an instance of TypedParameter.
pub data Value (Num Text Date Object : Type 0) : Type 0 where
  undefined null : Value Num Text Date Object
  number : Num → Value Num Text Date Object
  boolean : Bool → Value Num Text Date Object
  big_int : ℤ → Value Num Text Date Object
  text : Text → Value Num Text Date Object
  date : Date → Value Num Text Date Object
  buffer : Bytes → Value Num Text Date Object
  json object opaque : Object → Value Num Text Date Object
  typed : ℕ → Value Num Text Date Object → Bool → Value Num Text Date Object

-- `safe_integer` is Number.isSafeInteger with BigInt of it; `to_number`, `to_date`, `to_text` are
-- Number, new Date (none where it is invalid) and String of a value; `big_int_of` is BigInt of a trimmed
-- text, `encode` is StringParser.encode in the statement's encoding, `coerce` the same of an object;
-- `date_fields` reads a date in the statement's time zone. None of them throws: values on which JSON,
-- Number or String throw (a circular object, a symbol, a BigInt in JSON) are left out.
pub record Runtime (Num Text Date Object : Type 0) : Type 0 where
  pub is_integer : Num → Bool
  pub safe_integer : Num → Option ℤ
  pub to_number : Value Num Text Date Object → Num
  pub to_date : Value Num Text Date Object → Option Date
  pub to_text : Value Num Text Date Object → Text
  pub stringify : Value Num Text Date Object → Text
  pub big_int_of : Text → Option ℤ
  pub time_of_number : Num → TimeParts
  pub time_of_text : Text → Option TimeParts
  pub encode : Text → Bytes
  pub coerce : Object → Bytes
  pub date_fields : Date → DateFields
  pub double_bytes : Num → Bytes
  pub float_bytes : Num → Bytes

-- What `toParameter` returns: `value` and `writer` are the method that writes the value.
pub record Parameter : Type 0 where
  pub type : ℕ
  pub length : ℕ
  pub writer : M (Unit {0})
  pub unsigned : Bool
  pub is_null : Bool

-- `INTEGER_BYTES[type]`
unfoldable pub integer_bytes : ℕ → Option ℕ
integer_bytes type =
    if type == Types.tiny
    then some 1
    else if (type == Types.short) || (type == Types.year)
    then some 2
    else if (type == Types.int24) || (type == Types.long)
    then some 4
    else if type == Types.longlong
    then some 8
    else none

unfoldable pub hint_upgradable : ℕ → Bool
hint_upgradable type =
    (type == Types.tiny)
    || (type == Types.short)
    || (type == Types.long)
    || (type == Types.longlong)

unfoldable pub is_temporal : ℕ → Bool
is_temporal type = (type == Types.date) || (type == Types.datetime) || (type == Types.timestamp)

unfoldable pub is_length_coded : ℕ → Bool
is_length_coded type =
    (type == Types.decimal)
    || (type == Types.newdecimal)
    || (type == Types.varchar)
    || (type == Types.var_string)
    || (type == Types.string)
    || (type == Types.enum)
    || (type == Types.set)
    || (type == Types.json)
    || (type == Types.vector)
    || (type == Types.tiny_blob)
    || (type == Types.medium_blob)
    || (type == Types.long_blob)
    || (type == Types.blob)

-- `wireType(type, jsonAsString)`
unfoldable pub wire_type : ℕ → Bool → ℕ
wire_type type json_as_string =
    if (type == Types.json) && json_as_string
    then Types.var_string
    else if type == Types.int24
    then Types.long
    else if type == Types.year
    then Types.short
    else if (type == Types.enum) || (type == Types.set)
    then Types.string
    else if type == Types.vector
    then Types.blob
    else type

-- The range of an integer of that many bytes, from `min` to `max`.
abbrev pub min_integer : ℕ → Bool → ℤ
min_integer bytes unsigned = if unsigned then pos 0 else sub_ℕ 0 (2 ^ (bytes * 8 - 1))

abbrev pub max_integer : ℕ → Bool → ℤ
max_integer bytes unsigned =
    if unsigned then pos (2 ^ (bytes * 8) - 1) else pos (2 ^ (bytes * 8 - 1) - 1)

unfoldable pub out_of_range : ℕ → Bool → ℤ → Bool
out_of_range bytes unsigned n =
    ltb_ℤ n (min_integer bytes unsigned) || ltb_ℤ (max_integer bytes unsigned) n

module _ {Num Text Date Object : Type 0} (js : Runtime Num Text Date Object) where
  unfoldable pub to_integer : Value Num Text Date Object → Result ℤ
  to_integer (big_int n) = ok n
  to_integer (boolean b) = ok (pos (if b then 1 else 0))
  to_integer (number x) =
      if not (js.is_integer x)
      then type_error
      else (elim (js.safe_integer x) [ none ↦ range_error | some n ↦ ok n ])
  to_integer (text t) = elim (js.big_int_of t) [ none ↦ type_error | some n ↦ ok n ]
  to_integer _ = type_error

  unfoldable pub checked_integer : Value Num Text Date Object → ℕ → Bool → Result ℤ
  unfolding to_integer out_of_range
  checked_integer v bytes unsigned = do
    n ← to_integer v
    (if out_of_range bytes unsigned n then range_error else ok n)

  -- `integerHint`: the integer that is sent by the type of the hint, if the value is one that fits.
  unfoldable pub hinted_integer : Value Num Text Date Object → Option ℤ
  hinted_integer (big_int n) = some n
  hinted_integer (boolean b) = some (pos (if b then 1 else 0))
  hinted_integer (number x) = js.safe_integer x
  hinted_integer _ = none

  unfoldable pub integer_hint : Value Num Text Date Object → ℕ → Bool → Option ℤ
  unfolding hinted_integer out_of_range
  integer_hint v type unsigned =
      let fits = λ (bytes : ℕ) (n : ℤ). if out_of_range bytes unsigned n then none else some n in
      let chosen : Option ℤ = elim (integer_bytes type) [
        | none ↦ none
        | some bytes ↦ elim (hinted_integer v) [ none ↦ none | some n ↦ fits bytes n ]
      ] in
      if hint_upgradable type then chosen else none
