-- ===== src/Parameter/Encode.antt =====
-- lib/packets/typed_parameter.js (encodeTypedParameter and the encoders) and
-- lib/packets/encode_parameter.js (toParameter). The branches that write UTF-8 straight into the packet
-- are the others with the same bytes, and are written as those.
use Prim.Native.Nat.{bit_and}
use node_mysql.Prelude.{
  ℕ, ◌+◌, ◌*◌, ◌/◌, ◌%◌, ◌^◌, Bool, true, false, not, ◌||◌, Option, none, some, ℤ, pos_part,
  neg_part, as_uint, ◌==◌, if◌then◌else◌, length,
}
use node_mysql.Packet.{Bytes, M, pure, put, write_int8}
use node_mysql.Packet.LengthCoded.{write_length_coded_buffer, length_coded_number_length}
use node_mysql.Packet.Values.{write_uint_le, TimeParts, time_length, write_time, write_date_fields}
use node_mysql.Parameter.{
  Result, ok, type_error, ◌>>=◌, Value, undefined, null, number, boolean, big_int, text, date,
  buffer, json, object, typed, Runtime, Parameter, integer_bytes, is_temporal, is_length_coded,
  wire_type, checked_integer, integer_hint,
}
use node_mysql.Parameter.Types

-- The length of what is written, and the method that writes it.
abbrev pub Encoded : Type 0
Encoded = ℕ × M (Unit {0})

unfoldable pub length_coded : Bytes → Encoded
unfolding length_coded_number_length write_length_coded_buffer
length_coded b = (length_coded_number_length (length b) + length b, write_length_coded_buffer b)

-- `toTimeParts` of a number of milliseconds that is an integer.
unfoldable pub time_of_integer : ℤ → TimeParts
time_of_integer n =
    let value = pos_part n + neg_part n in
    let rest = value / 1000 in
    let total_hours = rest / 3600 in
    record {
      negative = not (neg_part n == 0);
      days = total_hours / 24;
      hours = total_hours % 24;
      minutes = rest / 60 % 60;
      seconds = rest % 60;
      microseconds = value % 1000 * 1000;
    }

-- A typed parameter, sent by the type that every server accepts.
unfoldable pub sent_as : ℕ → Bool → Bool → Bool → Encoded → Parameter
unfolding wire_type
sent_as type json_as_string unsigned is_null e = record {
  type = wire_type type json_as_string;
  length = e.0;
  writer = e.1;
  unsigned = unsigned;
  is_null = is_null;
}

module _ {Num Text Date Object : Type 0} (js : Runtime Num Text Date Object) where
  unfoldable pub integer_encoder : ℕ → Value Num Text Date Object → Bool → Result Encoded
  unfolding checked_integer as_uint write_uint_le
  integer_encoder bytes v unsigned = do
    n ← checked_integer js v bytes unsigned
    ok (bytes, write_uint_le (as_uint (2 ^ (bytes * 8)) n) bytes)

  unfoldable pub temporal_encoder : Value Num Text Date Object → Result Encoded
  temporal_encoder v = elim (js.to_date v) [
    | none ↦ type_error
    | some d ↦ ok (12, write_date_fields (js.date_fields d))
  ]

  unfoldable pub to_time_parts : Value Num Text Date Object → Result TimeParts
  unfolding time_of_integer
  to_time_parts (number x) = elim (js.safe_integer x) [
    | none ↦ ok (js.time_of_number x)
    | some n ↦ ok (time_of_integer n)
  ]
  to_time_parts v = elim (js.time_of_text (js.to_text v)) [ none ↦ type_error | some t ↦ ok t ]

  unfoldable pub time_encoder : Value Num Text Date Object → Result Encoded
  unfolding to_time_parts time_length write_time
  time_encoder v = do t ← to_time_parts v; ok (time_length t, write_time t)

  unfoldable pub length_coded_encoder : Value Num Text Date Object → Encoded
  unfolding length_coded
  length_coded_encoder (buffer b) = length_coded b
  length_coded_encoder (text t) = length_coded (js.encode t)
  length_coded_encoder v = length_coded (js.encode (js.to_text v))

  unfoldable pub json_encoder : Value Num Text Date Object → Encoded
  unfolding length_coded length_coded_encoder
  json_encoder (buffer b) = length_coded_encoder (buffer b)
  json_encoder (text t) = length_coded_encoder (text t)
  json_encoder v = length_coded (js.encode (js.stringify v))

  -- `encoderFor(type, encoding, timezone)` of the value: an integer's encoder if the type has bytes.
  unfoldable pub other_encoder : ℕ → Value Num Text Date Object → Result Encoded
  unfolding temporal_encoder time_encoder json_encoder length_coded_encoder is_temporal
      is_length_coded
  other_encoder type v =
      if type == Types.double
      then ok (8, put (js.double_bytes (js.to_number v)))
      else if type == Types.float
      then ok (4, put (js.float_bytes (js.to_number v)))
      else if is_temporal type
      then temporal_encoder v
      else if type == Types.time
      then time_encoder v
      else if type == Types.json
      then ok (json_encoder v)
      else if is_length_coded type
      then ok (length_coded_encoder v)
      else type_error

  unfoldable pub encoder_for : ℕ → Value Num Text Date Object → Bool → Result Encoded
  unfolding integer_bytes integer_encoder other_encoder
  encoder_for type v unsigned = elim (integer_bytes type) [
    | none ↦ other_encoder type v
    | some bytes ↦ integer_encoder bytes v unsigned
  ]

  abbrev pub is_null_value : Value Num Text Date Object → Bool
  is_null_value null = true
  is_null_value _ = false

  unfoldable pub encode_typed_parameter :
      ℕ → Value Num Text Date Object → Bool → Bool → Result Parameter
  unfolding encoder_for sent_as
  encode_typed_parameter type v unsigned json_as_string =
      let encoded : Result Parameter = (do
        e ← encoder_for type v unsigned
        ok (sent_as type json_as_string unsigned false e)) in
      if is_null_value v || (type == Types.null)
      then ok (sent_as type json_as_string unsigned true (0, pure tt))
      else encoded

  -- A value whose type is inferred.
  abbrev pub inferred : ℕ → Encoded → Parameter
  inferred type e = record {
    type = type;
    length = e.0;
    writer = e.1;
    unsigned = false;
    is_null = type == Types.null;
  }

  unfoldable pub infer : Value Num Text Date Object → Bool → Result Parameter
  unfolding length_coded
  infer undefined json_as_string = type_error
  infer null json_as_string = ok (inferred Types.null (0, pure tt))
  infer (number x) json_as_string = ok (inferred Types.double (8, put (js.double_bytes x)))
  infer (boolean b) json_as_string = ok (inferred Types.tiny (1, write_int8 (if b then 1 else 0)))
  infer (date d) json_as_string =
      ok (inferred Types.datetime (12, write_date_fields (js.date_fields d)))
  infer (json o) json_as_string = ok (
      inferred (if json_as_string then Types.var_string else Types.json)
        (length_coded (js.encode (js.stringify (json o)))))
  infer (buffer b) json_as_string = ok (inferred Types.blob (length_coded b))
  infer (object o) json_as_string = ok (inferred Types.var_string (length_coded (js.coerce o)))
  infer (text t) json_as_string = ok (inferred Types.var_string (length_coded (js.encode t)))
  infer v json_as_string = ok (inferred Types.var_string (length_coded (js.encode (js.to_text v))))

  -- What the server said of the parameter: its type and its flags.
  unfoldable pub with_hint : Option (ℕ × ℕ) → Value Num Text Date Object → Bool → Result Parameter
  unfolding infer encode_typed_parameter integer_hint
  with_hint none v json_as_string = infer v json_as_string
  with_hint (some (type, flags)) v json_as_string =
      let unsigned = not (bit_and flags 32 == 0) in
      elim (integer_hint js v type unsigned) [
        | none ↦ infer v json_as_string
        | some n ↦ encode_typed_parameter type (big_int n) unsigned json_as_string
      ]

  unfoldable pub to_parameter :
      Value Num Text Date Object → Bool → Option (ℕ × ℕ) → Result Parameter
  unfolding with_hint encode_typed_parameter
  to_parameter (typed type v unsigned) json_as_string hint =
      encode_typed_parameter type v unsigned json_as_string
  to_parameter v json_as_string hint = with_hint hint v json_as_string
