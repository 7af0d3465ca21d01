-- ===== src/Query/Timeout.antt =====
-- lib/commands/query.js with its timer: packets, the timer and the events of a local stream in any
-- order, and how often the callback is called.
use node_mysql.Prelude.{
  ℕ, ◌+◌, ◌≡◌, refl, ◌⊎◌, inl, inr, true, false, Option, none, some, List, [], ◌∷◌, ◌++◌,
  if◌then◌else◌, ◌==◌, arith, if-elim, option-elim,
}
use node_mysql.Query.Lists.{update_at}
use node_mysql.Packet.{Bytes, Packet, is_eof}
use node_mysql.Dispatch.{go_on, finished, thrown}
use node_mysql.Query.{
  State, resultset_header, read_field, fields_eof, row, infile_ok, Query, Event, emit_fields,
  emit_row, emit_header, call_error, emit_error, protocol_error, call_listing, call_listings,
  Parsers, Turn, step, answer, done, done_insert, open_result, on_read_field, field_received,
  on_row, fields_at, fields_full, has_more, header, eof_status_flags, push_field,
  handle_timeout_error, on_data, on_end,
}

pub data Input : Type 0 where
  packet : Packet → Input
  timer_fires stream_ends : Input
  stream_data : Bytes → Input

-- The state of a command, none when it is done, and the command, whose timer runs on by itself.
abbrev pub Life : Type 0 → Type 0 → Type 0 → Type 0
Life F R H = Option State × Query F R H

unread :
    {R : Type 0} (p : Packet) {o : Option R}
    → (is_eof p ≡ true) ⊎ ((r : R) × (o ≡ some r))
    → is_eof p ≡ false
    → o ≡ none
    → ⊥
unread p (inl t) e n = cc
unread p (inr (r, s)) e n = cc

module _ {F R H : Type 0} where
  abbrev pub left : Turn F R H → Life F R H
  left (go_on s, q) = (some s, q)
  left (finished, q) = (none, q)
  left (thrown, q) = (none, q)

  -- A timer that has been cleared or has run off does not fire.
  abbrev pub live : Parsers F R H → Input → Life F R H → Life F R H
  live ps (packet p) (none, q) = (none, q)
  live ps (packet p) (some s, q) = left (step ps s p q)
  live ps timer_fires (s, q) = (s, if q.timer then handle_timeout_error q else q)
  live ps stream_ends (s, q) = (s, on_end q)
  live ps (stream_data b) (s, q) = (s, on_data b q)

  abbrev pub live_all : Parsers F R H → List Input → Life F R H → Life F R H
  live_all ps [] l = l
  live_all ps (i ∷ is) l = live_all ps is (live ps i l)

  -- How often the callback is called, or an error is emitted where there is none.
  abbrev pub is_call : Event F R H → ℕ
  is_call (call_error h) = 1
  is_call (call_listing r f) = 1
  is_call (call_listings r f) = 1
  is_call emit_error = 1
  is_call _ = 0

  abbrev pub calls : List (Event F R H) → ℕ
  calls [] = 0
  calls (e ∷ es) = is_call e + calls es

  pub calls-append : (es es' : List (Event F R H)) → calls (es ++ es') ≡ calls es + calls es'
  calls-append [] es' = omega arith
  calls-append (e ∷ es) es' = omega (arith, calls-append es es')

  -- Before the end: the callback waits and its timer runs, or the timer has run off.
  pub record IsWaiting (q : Query F R H) : Type 0 where
    pub calm : q.local_stream_error ≡ false
    pub factory : q.stream_factory ≡ true
    pub waits :
        ((calls q.log ≡ 0) × (q.timer ≡ q.has_timeout))
        ⊎ ((calls q.log ≡ 1) × (q.timer ≡ false) × (q.has_timeout ≡ true))

  abbrev pub IsClosed : Query F R H → Type 0
  IsClosed q = (calls q.log ≡ 0) ⊎ ((calls q.log ≡ 1) × (q.timer ≡ false))

  abbrev pub IsFine : Turn F R H → Type 0
  IsFine (go_on s, q) = IsWaiting q
  IsFine (finished, q) = IsClosed q
  IsFine (thrown, q) = IsClosed q

  IsWaiting-IsClosed : (q : Query F R H) → IsWaiting q → IsClosed q
  IsWaiting-IsClosed q w = ground arith

  answer-is_call : (q : Query F R H) → is_call (answer q) ≡ 1
  unfolding answer
  answer-is_call q = ground arith

  done-IsFine : (q : Query F R H) → IsWaiting q → IsFine (done q)
  unfolding done
  done-IsFine q w = ground (
    arith,
    calls-append q.log (answer (record q { unpipe = false; timer = false }) ∷ []),
    answer-is_call (record q { unpipe = false; timer = false }),
  )

  -- What changes neither the calls nor the timer.
  pub Same-IsWaiting :
      (q q' : Query F R H)
      → IsWaiting q
      → q'.local_stream_error ≡ q.local_stream_error
      → q'.stream_factory ≡ q.stream_factory
      → calls q'.log ≡ calls q.log
      → q'.timer ≡ q.timer
      → q'.has_timeout ≡ q.has_timeout
      → IsWaiting q'
  Same-IsWaiting q q' w a b c d e = ground arith

  pub quiet : (es es' : List (Event F R H)) → calls es' ≡ 0 → calls (es ++ es') ≡ calls es
  quiet es es' h = omega (arith, calls-append es es')

  done_insert-IsFine :
      (h : H) (n : ℕ) (q : Query F R H) → IsWaiting q → IsFine (done_insert (some (h, n)) q)
  unfolding done_insert
  done_insert-IsFine h n q w =
      let q1 = record q {
        rows = q.rows ++ (header h ∷ []);
        fields = q.fields ++ (none ∷ []);
        log = q.log ++ (emit_fields none ∷ emit_header h ∷ []);
      } in
      let same = quiet q.log (emit_fields none ∷ emit_header h ∷ []) refl in
      if-elim IsFine q.local_stream_error _ _ (λ e. absurd (ground arith))
        (λ e.
          if-elim IsFine (has_more n) _ _
            (λ m.
              Same-IsWaiting q (record q1 { result_index = q.result_index + 1 }) w refl refl same
                refl refl)
            (λ m. done-IsFine q1 (Same-IsWaiting q q1 w refl refl same refl refl)))

  open_result-IsFine :
      (ps : Parsers F R H) (n : Option ℕ) (h : H) (q : Query F R H)
      → IsWaiting q
      → IsFine (open_result ps n h q)
  unfolding open_result
  open_result-IsFine ps none h q w =
      let q1 = record q { field_count = 0 } in
      if-elim IsFine q.stream_factory _ _
        (λ e. Same-IsWaiting q (record q1 { unpipe = true }) w refl refl refl refl refl)
        (λ e. absurd (ground arith))
  open_result-IsFine ps (some n) h q w =
      let q1 = record q { field_count = 0 } in
      if-elim IsFine (n == 0) _ _
        (λ e.
          done_insert-IsFine h (ps.server_status h) q1
            (Same-IsWaiting q q1 w refl refl refl refl refl))
        (λ e. Same-IsWaiting q _ w refl refl refl refl refl)

  field_received-IsFine : (q : Query F R H) → IsWaiting q → IsFine (field_received q)
  unfolding field_received
  field_received-IsFine q w =
      let e = emit_fields (fields_at q.fields q.result_index) in
      if-elim IsFine (q.received_fields == q.field_count) _ _
        (λ h. Same-IsWaiting q _ w refl refl (quiet q.log (e ∷ []) refl) refl refl) (λ h. w)

  read_field-IsFine :
      (ps : Parsers F R H) (p : Packet) (q : Query F R H)
      → IsWaiting q
      → IsFine (on_read_field ps p q)
  unfolding on_read_field
  read_field-IsFine ps p q w =
      let q1 = record q { received_fields = q.received_fields + 1 } in
      let w1 = Same-IsWaiting q q1 w refl refl refl refl refl in
      if-elim IsFine (fields_full (fields_at q.fields q.result_index) q.field_count) _ _
        (λ e. field_received-IsFine q1 w1)
        (λ e.
          option-elim IsFine (ps.column p) _ _ (λ n. IsWaiting-IsClosed q1 w1)
            (λ f c.
              let q2 = record q1 { fields = update_at (push_field f) q.result_index q.fields } in
              field_received-IsFine q2 (Same-IsWaiting q1 q2 w1 refl refl refl refl refl)))

  -- A packet that is taken for a row parses.
  abbrev pub IsRead : Parsers F R H → Input → Life F R H → Type 0
  IsRead ps (packet p) (some row, q) =
      (is_eof p ≡ true) ⊎ ((r : R) × (ps.row q.row_parser p ≡ some r))
  IsRead ps (packet p) (some resultset_header, q) = Unit
  IsRead ps (packet p) (some read_field, q) = Unit
  IsRead ps (packet p) (some fields_eof, q) = Unit
  IsRead ps (packet p) (some infile_ok, q) = Unit
  IsRead ps (packet p) (none, q) = Unit
  IsRead ps timer_fires l = Unit
  IsRead ps stream_ends l = Unit
  IsRead ps (stream_data b) l = Unit

  -- Each packet that is taken for a row in the course of the inputs parses.
  abbrev pub AreRead : Parsers F R H → List Input → Life F R H → Type 0
  AreRead ps [] l = Unit
  AreRead ps (i ∷ is) l = IsRead ps i l × AreRead ps is (live ps i l)

  row-IsFine :
      (ps : Parsers F R H) (p : Packet) (q : Query F R H)
      → IsRead ps (packet p) (some row, q)
      → IsWaiting q
      → IsFine (on_row ps p q)
  unfolding on_row
  row-IsFine ps p q parses w =
      if-elim IsFine (is_eof p) _ _
        (λ e.
          option-elim IsFine (eof_status_flags p) _ _ (λ n. IsWaiting-IsClosed q w)
            (λ status c.
              if-elim IsFine (has_more status) _ _
                (λ m. Same-IsWaiting q _ w refl refl refl refl refl) (λ m. done-IsFine q w)))
        (λ e.
          option-elim IsFine (ps.row q.row_parser p) _ _ (λ n. absurd (unread p parses e n))
            (λ r c.
              if-elim IsWaiting q.has_callback _ _
                (λ k. Same-IsWaiting q _ w refl refl refl refl refl)
                (λ k.
                  Same-IsWaiting q _ w refl refl (quiet q.log (emit_row r q.result_index ∷ []) refl)
                    refl refl)))

  pub step-IsFine :
      (ps : Parsers F R H) (s : State) (p : Packet) (q : Query F R H)
      → IsRead ps (packet p) (some s, q)
      → IsWaiting q
      → IsFine (step ps s p q)
  unfolding step
  step-IsFine ps resultset_header p q parses w =
      option-elim IsFine (ps.header p) _ _ (λ n. IsWaiting-IsClosed q w)
        (λ h e. open_result-IsFine ps (ps.field_count h) h q w)
  step-IsFine ps read_field p q parses w = read_field-IsFine ps p q w
  step-IsFine ps fields_eof p q parses w =
      if-elim IsFine (is_eof p) _ _ (λ e. w)
        (λ e.
          IsWaiting-IsClosed (record q { log = q.log ++ (protocol_error ∷ []) })
            (Same-IsWaiting q _ w refl refl (quiet q.log (protocol_error ∷ []) refl) refl refl))
  step-IsFine ps row p q parses w = row-IsFine ps p q parses w
  step-IsFine ps infile_ok p q parses w =
      option-elim IsFine (ps.header p) _ _ (λ n. IsWaiting-IsClosed q w)
        (λ h e. done_insert-IsFine h (ps.server_status h) q w)
