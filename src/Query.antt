-- ===== src/Query.antt =====
-- lib/commands/query.js: the command of a text query, a state machine over the packets of the answer.
-- What the packets hold, column definitions, rows and the header of a result set, is read by other
-- files: `Parsers` stands for them, with `none` where they throw. `log` is what the command does to
-- the outside, in order. An array that a field of the command shares with `_rows` or `_fields` is the
-- place of it there.
pub mod Lists
pub mod Answer
pub mod Run
pub mod Sets
pub mod Whole
pub mod Timeout
pub mod Alone
pub mod Once
pub mod Failure
mod Tests
use Prim.Native.Nat.{bit_and}
use node_mysql.Prelude.{
  ℕ, zero, suc, ◌+◌, ◌*◌, ◌^◌, Bool, true, false, not, ◌&&◌, Option, none, some, List, [], ◌∷◌,
  ◌++◌, leb, ◌==◌, if◌then◌else◌, length, get_elem?, get_or,
}
use node_mysql.Packet.{Bytes, Packet, is_eof}
use node_mysql.Dispatch.{Step, go_on, finished, thrown}
use node_mysql.Query.Lists.{update_at}

pub data State : Type 0 where
  resultset_header read_field fields_eof row infile_ok : State

-- What `_rows` holds for a result set: the rows, or the header of one that has none.
pub data Rows (R H : Type 0) : Type 0 where
  table : List R → Rows R H
  header : H → Rows R H

-- `listing` has the rows and fields of the only result set, `listings` those of all.
pub data Event (F R H : Type 0) : Type 0 where
  sent_query sent_empty : Event F R H
  sent_data : Bytes → Event F R H
  emit_fields : Option (List F) → Event F R H
  emit_row : R → ℕ → Event F R H
  emit_header : H → Event F R H
  call_error : Option H → Event F R H
  emit_error protocol_error : Event F R H
  call_listing : Option (Rows R H) → Option (List F) → Event F R H
  call_listings : List (Rows R H) → List (Option (List F)) → Event F R H

-- `row_parser` is made of the fields it holds; `timer` where `queryTimeout` is set; `unpipe` where
-- `_unpipeStream` takes the listeners of a local stream away.
pub record Query (F R H : Type 0) : Type 0 where
  pub has_callback : Bool
  pub has_timeout : Bool
  pub timer : Bool
  pub field_count : ℕ
  pub row_parser : List F
  pub fields : List (Option (List F))
  pub rows : List (Rows R H)
  pub current_rows : ℕ
  pub received_fields : ℕ
  pub result_index : ℕ
  pub stream_factory : Bool
  pub local_stream_error : Bool
  pub unpipe : Bool
  pub log : List (Event F R H)

-- `field_count` of a header is none where the server asks for a local file; its status is 0 where it
-- has none. A row is read by the fields of its result set.
pub record Parsers (F R H : Type 0) : Type 0 where
  pub column : Packet → Option F
  pub row : List F → Packet → Option R
  pub header : Packet → Option H
  pub field_count : H → Option ℕ
  pub server_status : H → ℕ

abbrev pub server_more_results_exists : ℕ
server_more_results_exists = 8

abbrev pub has_more : ℕ → Bool
has_more status = not (bit_and status server_more_results_exists == 0)

-- `this.buffer.readInt16LE(this.offset + 3)`, as 16 bits: only their bit 3 is read.
unfoldable pub eof_status_flags : Packet → Option ℕ
eof_status_flags p =
    if leb (p.offset + 5) (length p.buffer)
    then some (get_or p.buffer (p.offset + 3) 0 + get_or p.buffer (p.offset + 4) 0 * 2 ^ 8)
    else none

-- The reference to a list of fields: `undefined` for a result set that has none.
abbrev pub fields_at : {F : Type 0} → List (Option (List F)) → ℕ → Option (List F)
fields_at fs i = elim (get_elem? fs i) [ none ↦ none | some f ↦ f ]

abbrev pub push_field : {F : Type 0} → F → Option (List F) → Option (List F)
push_field f none = none
push_field f (some fs) = some (fs ++ (f ∷ []))

abbrev pub push_row : {R H : Type 0} → R → Rows R H → Rows R H
push_row r (table rs) = table (rs ++ (r ∷ []))
push_row r (header h) = header h

abbrev pub fields_full : {F : Type 0} → Option (List F) → ℕ → Bool
fields_full none n = false
fields_full (some fs) n = length fs == n

abbrev pub Turn : Type 0 → Type 0 → Type 0 → Type 0
Turn F R H = Step State × Query F R H

module _ {F R H : Type 0} where
  unfoldable pub new_query : Bool → Bool → Bool → Query F R H
  new_query has_callback has_timeout stream_factory = record {
    has_callback = has_callback;
    has_timeout = has_timeout;
    timer = false;
    field_count = 0;
    row_parser = [];
    fields = [];
    rows = [];
    current_rows = 0;
    received_fields = 0;
    result_index = 0;
    stream_factory = stream_factory;
    local_stream_error = false;
    unpipe = false;
    log = [];
  }

  abbrev pub say : Event F R H → Query F R H → Query F R H
  say e q = record q { log = q.log ++ (e ∷ []) }

  unfoldable pub start : Query F R H → Turn F R H
  start q = (go_on resultset_header, say sent_query (record q { timer = q.has_timeout }))

  -- What the callback is called with, on the next tick.
  unfoldable pub answer : Query F R H → Event F R H
  answer q =
      if q.result_index == 0
      then call_listing (get_elem? q.rows 0) (fields_at q.fields 0)
      else call_listings q.rows q.fields

  unfoldable pub done : Query F R H → Turn F R H
  unfolding answer
  done q =
      let q1 = record q { unpipe = false } in
      let q2 = record q1 { timer = false } in
      if q.has_timeout && not q.timer
      then (finished, q1)
      else (finished, if q.has_callback then say (answer q2) q2 else q2)

  unfoldable pub done_insert : Option (H × ℕ) → Query F R H → Turn F R H
  unfolding done
  done_insert none q =
      (finished, if q.has_callback then say (call_error none) q else say emit_error q)
  done_insert (some (h, status)) q =
      let q1 = record q {
        rows = q.rows ++ (header h ∷ []);
        fields = q.fields ++ (none ∷ []);
        log = q.log ++ (emit_fields none ∷ emit_header h ∷ []);
      } in
      if q.local_stream_error
      then (finished, if q.has_callback then say (call_error (some h)) q else say emit_error q)
      else if has_more status
      then (go_on resultset_header, record q1 { result_index = q.result_index + 1 })
      else done q1

  -- Without a factory of streams the error waits until the server has answered an empty packet.
  unfoldable pub stream_local_infile : Query F R H → Turn F R H
  stream_local_infile q =
      if q.stream_factory
      then (go_on infile_ok, record q { unpipe = true })
      else (go_on infile_ok, say sent_empty (record q { local_stream_error = true }))

  -- The handlers of the local stream, and of the connection's `error`, while they are set.
  unfoldable pub on_data : Bytes → Query F R H → Query F R H
  on_data bytes q = if q.unpipe then say (sent_data bytes) q else q

  unfoldable pub on_end : Query F R H → Query F R H
  on_end q = if q.unpipe then say sent_empty q else q

  unfoldable pub on_error : Query F R H → Query F R H
  on_error q = if q.unpipe then say sent_empty (record q { local_stream_error = true }) else q

  unfoldable pub handle_timeout_error : Query F R H → Query F R H
  handle_timeout_error q =
      let q1 = record q { timer = false } in
      if q.has_callback then say (call_error none) q1 else say emit_error q1

  -- The last lines of `readField`: with all the fields there, the rows can be read.
  unfoldable pub field_received : Query F R H → Turn F R H
  field_received q =
      let fs = fields_at q.fields q.result_index in
      if q.received_fields == q.field_count
      then (
        go_on fields_eof,
        record (say (emit_fields fs) q) { row_parser = elim fs [ none ↦ [] | some l ↦ l ] },
      )
      else (go_on read_field, q)

  -- `protocolError` returns nothing, so the command is done.
  unfoldable pub on_fields_eof : Packet → Query F R H → Turn F R H
  on_fields_eof p q = if is_eof p then (go_on row, q) else (finished, say protocol_error q)

  module _ (ps : Parsers F R H) where
    unfoldable pub open_result : Option ℕ → H → Query F R H → Turn F R H
    unfolding done_insert stream_local_infile
    open_result none h q = stream_local_infile (record q { field_count = 0 })
    open_result (some n) h q =
        if n == 0
        then done_insert (some (h, ps.server_status h)) (record q { field_count = 0 })
        else (
          go_on read_field,
          record q {
            field_count = n;
            received_fields = 0;
            current_rows = length q.rows;
            rows = q.rows ++ (table [] ∷ []);
            fields = q.fields ++ (some [] ∷ []);
          },
        )

    unfoldable pub on_resultset_header : Packet → Query F R H → Turn F R H
    unfolding open_result
    on_resultset_header p q = elim (ps.header p) [
      | none ↦ (thrown, q)
      | some h ↦ open_result (ps.field_count h) h q
    ]

    unfoldable pub on_infile_ok : Packet → Query F R H → Turn F R H
    unfolding done_insert
    on_infile_ok p q = elim (ps.header p) [
      | none ↦ (thrown, q)
      | some h ↦ done_insert (some (h, ps.server_status h)) q
    ]

    unfoldable pub on_read_field : Packet → Query F R H → Turn F R H
    unfolding field_received
    on_read_field p q =
        let q1 = record q { received_fields = q.received_fields + 1 } in
        let added : Turn F R H = elim (ps.column p) [
          | none ↦ (thrown, q1)
          | some f ↦
              field_received
                (record q1 { fields = update_at (push_field f) q.result_index q.fields })
        ] in
        if fields_full (fields_at q.fields q.result_index) q.field_count
        then field_received q1
        else added

    unfoldable pub on_row : Packet → Query F R H → Turn F R H
    unfolding done done_insert
    on_row p q =
        let at_end : Turn F R H = elim (eof_status_flags p) [
          | none ↦ (thrown, q)
          | some status ↦
              if has_more status
              then (go_on resultset_header, record q { result_index = q.result_index + 1 })
              else done q
        ] in
        let read : Turn F R H = elim (ps.row q.row_parser p) [
          | none ↦ done_insert none (record q { local_stream_error = true })
          | some r ↦ (
            go_on row,
            if q.has_callback
                then record q { rows = update_at (push_row r) q.current_rows q.rows }
                else say (emit_row r q.result_index) q,
          )
        ] in
        if is_eof p then at_end else read

    -- `this.next(packet, connection)`
    unfoldable pub step : State → Packet → Query F R H → Turn F R H
    unfolding on_resultset_header on_read_field on_fields_eof on_row on_infile_ok
    step resultset_header p q = on_resultset_header p q
    step read_field p q = on_read_field p q
    step fields_eof p q = on_fields_eof p q
    step row p q = on_row p q
    step infile_ok p q = on_infile_ok p q
