-- ===== src/Parameter/Plain.antt =====
-- A small runtime for the tests: every number is a natural number, and a text is its bytes.
use node_mysql.Prelude.{ℕ, true, false, none, some, [], pos, replicate}
use node_mysql.Packet.{Bytes}
use node_mysql.Packet.Values.{TimeParts, DateFields}
use node_mysql.Parameter.{Runtime}

abbrev pub no_time : TimeParts
no_time = record {
  negative = false;
  days = 0;
  hours = 0;
  minutes = 0;
  seconds = 0;
  microseconds = 0;
}

abbrev pub no_date : DateFields
no_date = record {
  year = pos 0;
  month = 0;
  day = 0;
  hours = 0;
  minutes = 0;
  seconds = 0;
  milliseconds = 0;
}

abbrev pub plain : Runtime ℕ Bytes ℕ ℕ
plain = record {
  is_integer = λ n. true;
  safe_integer = λ n. some (pos n);
  to_number = λ v. 0;
  to_date = λ v. none;
  to_text = λ v. [];
  stringify = λ v. [];
  big_int_of = λ t. none;
  time_of_number = λ n. no_time;
  time_of_text = λ t. none;
  encode = λ t. t;
  coerce = λ o. [];
  date_fields = λ d. no_date;
  double_bytes = λ n. replicate 8 0;
  float_bytes = λ n. replicate 4 0;
}
