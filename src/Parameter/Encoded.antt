-- ===== src/Parameter/Encoded.antt =====
-- lib/packets/encode_parameter.js and lib/packets/typed_parameter.js: the length that is computed for
-- a parameter is the number of the bytes that its writer writes.
use node_mysql.Prelude.{
  ℕ, ◌≡◌, Bool, false, ◌||◌, Option, none, some, ◌==◌, inl, if◌then◌else◌, if-elim, option-elim,
  length,
}
use node_mysql.Packet.{Bytes, put}
use node_mysql.Packet.Fills.{
  Fills, Fills-pure, write_int8-Fills, write_uint_le-Fills, write_time-Fills,
  write_date_fields-Fills, write_length_coded_buffer-Fills, put-Writes,
}
use node_mysql.Parameter.{
  Result, ok, type_error, range_error, Value, undefined, null, number, boolean, big_int, text, date,
  buffer, json, object, typed, Runtime, Parameter, integer_bytes, is_temporal, is_length_coded,
  checked_integer, integer_hint, ◌>>=◌,
}
use node_mysql.Parameter.Types
use node_mysql.Parameter.Encode.{
  Encoded, length_coded, integer_encoder, temporal_encoder, to_time_parts, time_encoder,
  length_coded_encoder, json_encoder, other_encoder, encoder_for, encode_typed_parameter, infer,
  with_hint, to_parameter, is_null_value, sent_as,
}

abbrev pub FillsOf : Encoded → Type 0
FillsOf e = Fills e.1 e.0

abbrev pub IsEncoded : Result Encoded → Type 0
IsEncoded (ok e) = FillsOf e
IsEncoded type_error = Unit
IsEncoded range_error = Unit

-- A parameter that is written fills the bytes that are counted for it, or throws.
abbrev pub IsSized : Result Parameter → Type 0
IsSized (ok p) = Fills p.writer p.length
IsSized type_error = Unit
IsSized range_error = Unit

-- `writeDoubleLE` and `writeFloatLE` of a Buffer write eight bytes and four.
pub record IsBuffer {Num Text Date Object : Type 0} (js : Runtime Num Text Date Object)
    : Type 0 where
  pub length-double_bytes : (x : Num) → length (js.double_bytes x) ≡ 8
  pub length-float_bytes : (x : Num) → length (js.float_bytes x) ≡ 4

length_coded-FillsOf : (b : Bytes) → FillsOf (length_coded b)
unfolding length_coded
length_coded-FillsOf b = write_length_coded_buffer-Fills b

put-FillsOf : (bs : Bytes) (n : ℕ) → length bs ≡ n → FillsOf (n, put bs)
put-FillsOf bs n e = inl (bs, e, put-Writes bs)

-- What holds of the errors, and of what follows each value, holds of a chain.
bind-elim {ℓ κ μ} :
    {A : Type ℓ} {B : Type κ} (P : Result B → Type μ) (m : Result A) (f : A → Result B)
    → P type_error
    → P range_error
    → ((a : A) → P (f a))
    → P (m >>= f)
bind-elim P (ok a) f t r h = h a
bind-elim P type_error f t r h = t
bind-elim P range_error f t r h = r

sized :
    (type : ℕ) (json_as_string unsigned : Bool) (r : Result Encoded)
    → IsEncoded r
    → IsSized (r >>= λ e. ok (sent_as type json_as_string unsigned false e))
unfolding sent_as
sized type s u (ok e) h = h
sized type s u type_error h = tt
sized type s u range_error h = tt

module _ {Num Text Date Object : Type 0} (js : Runtime Num Text Date Object)
    (node : IsBuffer js) where
  integer-IsEncoded :
      (bytes : ℕ) (v : Value Num Text Date Object) (unsigned : Bool)
      → IsEncoded (integer_encoder js bytes v unsigned)
  unfolding integer_encoder
  integer-IsEncoded bytes v unsigned =
      bind-elim IsEncoded (checked_integer js v bytes unsigned) _ tt tt
        (λ n. write_uint_le-Fills _ bytes)

  coded-FillsOf : (v : Value Num Text Date Object) → FillsOf (length_coded_encoder js v)
  unfolding length_coded_encoder
  coded-FillsOf (buffer b) = length_coded-FillsOf b
  coded-FillsOf (text t) = length_coded-FillsOf (js.encode t)
  coded-FillsOf v = length_coded-FillsOf (js.encode (js.to_text v))

  json-FillsOf : (v : Value Num Text Date Object) → FillsOf (json_encoder js v)
  unfolding json_encoder
  json-FillsOf (buffer b) = coded-FillsOf (buffer b)
  json-FillsOf (text t) = coded-FillsOf (text t)
  json-FillsOf v = length_coded-FillsOf (js.encode (js.stringify v))

  temporal-IsEncoded : (v : Value Num Text Date Object) → IsEncoded (temporal_encoder js v)
  unfolding temporal_encoder
  temporal-IsEncoded v =
      option-elim IsEncoded (js.to_date v) _ _ (λ e. tt)
        (λ d e. write_date_fields-Fills (js.date_fields d))

  time-IsEncoded : (v : Value Num Text Date Object) → IsEncoded (time_encoder js v)
  unfolding time_encoder
  time-IsEncoded v = bind-elim IsEncoded (to_time_parts js v) _ tt tt (λ t. write_time-Fills t)

  other-IsEncoded :
      (type : ℕ) (v : Value Num Text Date Object) → IsEncoded (other_encoder js type v)
  unfolding other_encoder
  other-IsEncoded type v =
      if-elim IsEncoded (type == Types.double) _ _
        (λ e. put-FillsOf _ 8 (node.length-double_bytes _))
        λ e.
          if-elim IsEncoded (type == Types.float) _ _
            (λ e. put-FillsOf _ 4 (node.length-float_bytes _))
            λ e.
              if-elim IsEncoded (is_temporal type) _ _ (λ e. temporal-IsEncoded v)
                λ e.
                  if-elim IsEncoded (type == Types.time) _ _ (λ e. time-IsEncoded v)
                    λ e.
                      if-elim IsEncoded (type == Types.json) _ _ (λ e. json-FillsOf v)
                        λ e.
                          if-elim IsEncoded (is_length_coded type) _ _ (λ e. coded-FillsOf v)
                            (λ e. tt)

  encoder_for-IsEncoded :
      (type : ℕ) (v : Value Num Text Date Object) (unsigned : Bool)
      → IsEncoded (encoder_for js type v unsigned)
  unfolding encoder_for
  encoder_for-IsEncoded type v unsigned =
      option-elim IsEncoded (integer_bytes type) _ _ (λ e. other-IsEncoded type v)
        (λ bytes e. integer-IsEncoded bytes v unsigned)

  typed-IsSized :
      (type : ℕ) (v : Value Num Text Date Object) (unsigned json_as_string : Bool)
      → IsSized (encode_typed_parameter js type v unsigned json_as_string)
  unfolding encode_typed_parameter
  typed-IsSized type v unsigned json_as_string =
      if-elim IsSized (is_null_value js v || (type == Types.null)) _ _ (λ e. Fills-pure)
        (λ e.
          sized type json_as_string unsigned (encoder_for js type v unsigned)
            (encoder_for-IsEncoded type v unsigned))

  infer-IsSized :
      (v : Value Num Text Date Object) (json_as_string : Bool) → IsSized (infer js v json_as_string)
  unfolding infer
  infer-IsSized undefined s = tt
  infer-IsSized null s = Fills-pure
  infer-IsSized (number x) s = put-FillsOf _ 8 (node.length-double_bytes x)
  infer-IsSized (boolean b) s = write_int8-Fills (if b then 1 else 0)
  infer-IsSized (date d) s = write_date_fields-Fills (js.date_fields d)
  infer-IsSized (json o) s = length_coded-FillsOf (js.encode (js.stringify (json o)))
  infer-IsSized (buffer b) s = length_coded-FillsOf b
  infer-IsSized (object o) s = length_coded-FillsOf (js.coerce o)
  infer-IsSized (text t) s = length_coded-FillsOf (js.encode t)
  infer-IsSized v s = length_coded-FillsOf (js.encode (js.to_text v))

  hint-IsSized :
      (hint : Option (ℕ × ℕ)) (v : Value Num Text Date Object) (json_as_string : Bool)
      → IsSized (with_hint js hint v json_as_string)
  unfolding with_hint
  hint-IsSized none v s = infer-IsSized v s
  hint-IsSized (some (type, flags)) v s =
      option-elim IsSized (integer_hint js v type _) _ _ (λ e. infer-IsSized v s)
        (λ n e. typed-IsSized type (big_int n) _ s)

  pub to_parameter-IsSized :
      (v : Value Num Text Date Object) (json_as_string : Bool) (hint : Option (ℕ × ℕ))
      → IsSized (to_parameter js v json_as_string hint)
  unfolding to_parameter
  to_parameter-IsSized (typed type v unsigned) s hint = typed-IsSized type v unsigned s
  to_parameter-IsSized v s hint = hint-IsSized hint v s
