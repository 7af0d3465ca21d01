-- ===== src/Query/Sets.antt =====
-- lib/commands/query.js over one result set, and over all of an answer.
use node_mysql.Prelude.{
  ℕ, suc, ◌+◌, ◌≡◌, refl, sym, ap, ◌∙◌, Bool, true, false, Option, none, some, List, [], ◌∷◌, ◌++◌,
  map, append-nil, append_assoc, ◌==◌, length, length-append, arith,
}
use node_mysql.Packet.{Packet, is_eof}
use node_mysql.Dispatch.{go_on}
use node_mysql.Query.{
  resultset_header, read_field, fields_eof, row, Query, emit_fields, emit_header, Rows, table,
  header, Parsers, Turn, step, has_more, done, eof_status_flags, open_result, on_resultset_header,
}
use node_mysql.Query.Answer.{
  ResultSet, ok, set, Carries, ok_packet, table_packets, Response, final, followed, rows_of,
  fields_of, events_of, all_events, row_events,
}
use node_mysql.Query.Run.{
  resume, run, run-step, run-resume, reading, all_read, read_all_fields, served, serve_all,
}

module _ {F R H : Type 0} where
  abbrev settle : Bool → Query F R H → Turn F R H
  settle true q = (go_on resultset_header, record q { result_index = q.result_index + 1 })
  settle false q = done q

  abbrev opened : Query F R H → List (Rows R H) → Query F R H
  opened q before = record q { rows = before ++ (table [] ∷ []); current_rows = length before }

  -- The command behind a result set.
  abbrev after : Bool → ResultSet F R H → Query F R H → Query F R H
  after kept (ok h) q = record q {
    field_count = 0;
    rows = q.rows ++ (header h ∷ []);
    fields = q.fields ++ (none ∷ []);
    log = q.log ++ (emit_fields none ∷ emit_header h ∷ []);
  }
  after kept (set h f fs rs) q =
      served kept (all_read (opened q q.rows) q.fields (f ∷ fs)) q.rows rs

  serve_start :
      (kept : Bool) (q : Query F R H) (before : List (Rows R H))
      → q.has_callback ≡ kept
      → opened q before ≡ served kept q before []
  serve_start true q before e = ap (λ b. record (opened q before) { has_callback = b }) e
  serve_start false q before e =
      ap (λ b. record (opened q before) { has_callback = b }) e
      ∙ ap (λ l. record (opened q before) { has_callback = false; log = l })
          (sym (append-nil q.log))

  insert-settle :
      (ps : Parsers F R H) (h : H) (goes kept : Bool) (q : Query F R H)
      → has_more (ps.server_status h) ≡ goes
      → q.local_stream_error ≡ false
      → open_result ps (some 0) h q ≡ settle goes (after kept (ok h) q)
  unfolding open_result
  insert-settle ps h true kept q m l = rw l (rw m refl)
  insert-settle ps h false kept q m l = rw l (rw m refl)

  table-opened :
      (ps : Parsers F R H) (h : H) (n : ℕ) (q : Query F R H)
      → q.result_index ≡ length q.fields
      → open_result ps (some (suc n)) h q
        ≡ (go_on read_field, reading (opened q q.rows) q.fields [] (suc n))
  unfolding open_result
  table-opened ps h n q e =
      let some_fields : (suc n == 0) ≡ false = ground arith in
      let at =
        λ (i : ℕ). record (reading (opened q q.rows) q.fields [] (suc n)) { result_index = i } in
      rw some_fields (ap (λ i. (go_on read_field, at i)) e)

  eof-row :
      (ps : Parsers F R H) (p : Packet) (q : Query F R H)
      → is_eof p ≡ true
      → step ps fields_eof p q ≡ (go_on row, q)
  unfolding step
  eof-row ps p q e = rw e refl

  header-open_result :
      (ps : Parsers F R H) (p : Packet) (h : H) (n : Option ℕ) (q : Query F R H)
      → ps.header p ≡ some h
      → ps.field_count h ≡ n
      → step ps resultset_header p q ≡ open_result ps n h q
  unfolding step
  header-open_result ps p h n q e c = rw (e, on_resultset_header) (ap (λ n. open_result ps n h q) c)

  eof-settle :
      (ps : Parsers F R H) (p : Packet) (status : ℕ) (goes : Bool) (q : Query F R H)
      → is_eof p ≡ true
      → eof_status_flags p ≡ some status
      → has_more status ≡ goes
      → step ps row p q ≡ settle goes q
  unfolding step
  eof-settle ps p status true q e s m = rw e (rw s (rw m refl))
  eof-settle ps p status false q e s m = rw e (rw s (rw m refl))

  -- The packets of one result set, in the state `resultset_header`.
  one_set :
      (ps : Parsers F R H) (goes : Bool) (s : ResultSet F R H) (pks rest : List Packet)
      (kept : Bool) (q : Query F R H)
      → Carries ps goes s pks
      → q.result_index ≡ length q.fields
      → q.local_stream_error ≡ false
      → q.has_callback ≡ kept
      → run ps (pks ++ rest) resultset_header q
        ≡ resume (settle goes (after kept s q)) (λ s' q'. run ps rest s' q') rest
  one_set ps goes s pks rest kept q (ok_packet p h e c m) index calm cb =
      run-resume ps p rest resultset_header q
      ∙ ap (λ t. resume t (λ s' q'. run ps rest s' q') rest)
          (header-open_result ps p h (some 0) q e c ∙ insert-settle ps h goes kept q m calm)
  one_set ps goes s pks rest kept q
        (table_packets p eof eof2 h f fs rs cs rows status e c columns is_end listed is_end2 st m)
        index calm cb =
      let q1 = opened q q.rows in
      let q2 = all_read q1 q.fields (f ∷ fs) in
      let tail = eof ∷ (rows ++ eof2 ∷ []) ++ rest in
      run-step ps p ((cs ++ eof ∷ (rows ++ eof2 ∷ [])) ++ rest) resultset_header read_field q
        (reading q1 q.fields [] (suc (length fs)))
        (header-open_result ps p h (some (suc (length fs))) q e c
          ∙ table-opened ps h (length fs) q index)
      ∙ ap (λ l. run ps l read_field (reading q1 q.fields [] (suc (length fs))))
          (append_assoc cs (eof ∷ (rows ++ eof2 ∷ [])) rest)
      ∙ read_all_fields ps f fs cs tail q1 q.fields [] (suc (length fs)) columns refl
      ∙ run-step ps eof ((rows ++ eof2 ∷ []) ++ rest) fields_eof row q2 q2
          (eof-row ps eof q2 is_end)
      ∙ ap (λ l. run ps l row q2) (append_assoc rows (eof2 ∷ []) rest)
      ∙ ap (run ps (rows ++ eof2 ∷ rest) row) (serve_start kept q2 q.rows cb)
      ∙ serve_all ps rows rs (eof2 ∷ rest) kept q2 q.rows [] listed
      ∙ run-resume ps eof2 rest row (served kept q2 q.rows rs)
      ∙ ap (λ t. resume t (λ s' q'. run ps rest s' q') rest)
          (eof-settle ps eof2 status goes (served kept q2 q.rows rs) is_end2 st m)

  -- What a result set leaves in the command.
  record Left (kept : Bool) (s : ResultSet F R H) (q q' : Query F R H) : Type 0 where
    rows : q'.rows ≡ q.rows ++ (rows_of kept s ∷ [])
    fields : q'.fields ≡ q.fields ++ (fields_of s ∷ [])
    log : q'.log ≡ q.log ++ events_of kept q.result_index s
    index : q'.result_index ≡ q.result_index
    calm : q'.local_stream_error ≡ q.local_stream_error
    has_callback : q'.has_callback ≡ q.has_callback
    has_timeout : q'.has_timeout ≡ q.has_timeout
    timer : q'.timer ≡ q.timer

  after-Left :
      (kept : Bool) (s : ResultSet F R H) (q : Query F R H)
      → q.result_index ≡ length q.fields
      → q.has_callback ≡ kept
      → Left kept s q (after kept s q)
  after-Left kept (ok h) q e cb = record {
    rows = refl;
    fields = refl;
    log = refl;
    index = refl;
    calm = refl;
    has_callback = refl;
    has_timeout = refl;
    timer = refl;
  }
  after-Left true (set h f fs rs) q e cb = record {
    rows = refl;
    fields = refl;
    log = refl;
    index = sym e;
    calm = refl;
    has_callback = sym cb;
    has_timeout = refl;
    timer = refl;
  }
  after-Left false (set h f fs rs) q e cb = record {
    rows = refl;
    fields = refl;
    log =
        append_assoc q.log (emit_fields (some (f ∷ fs)) ∷ []) (row_events (length q.fields) rs)
        ∙ ap (λ i. q.log ++ emit_fields (some (f ∷ fs)) ∷ row_events i rs) (sym e);
    index = sym e;
    calm = refl;
    has_callback = sym cb;
    has_timeout = refl;
    timer = refl;
  }

  -- The command when the last result set is read, before `done`.
  pub record Collected (kept : Bool) (ss : List (ResultSet F R H)) (q q' : Query F R H)
      : Type 0 where
    pub rows : q'.rows ≡ q.rows ++ map (rows_of kept) ss
    pub fields : q'.fields ≡ q.fields ++ map fields_of ss
    pub log : q'.log ≡ q.log ++ all_events kept q.result_index ss
    pub index : q'.result_index + 1 ≡ q.result_index + length ss
    pub has_callback : q'.has_callback ≡ q.has_callback
    pub has_timeout : q'.has_timeout ≡ q.has_timeout
    pub timer : q'.timer ≡ q.timer

  Left-Collected :
      (kept : Bool) (s : ResultSet F R H) (q q' : Query F R H)
      → Left kept s q q'
      → Collected kept (s ∷ []) q q'
  Left-Collected kept s q q' l = record {
    rows = l.rows;
    fields = l.fields;
    log = l.log ∙ ap (q.log ++◌) (sym (append-nil (events_of kept q.result_index s)));
    index = omega (arith, l.index);
    has_callback = l.has_callback;
    has_timeout = l.has_timeout;
    timer = l.timer;
  }

  Left-cons :
      (kept : Bool) (s : ResultSet F R H) (ss : List (ResultSet F R H)) (q q1 q' : Query F R H)
      → Left kept s q q1
      → Collected kept ss (record q1 { result_index = q1.result_index + 1 }) q'
      → Collected kept (s ∷ ss) q q'
  Left-cons kept s ss q q1 q' l c = record {
    rows =
        c.rows
        ∙ ap (◌++ map (rows_of kept) ss) l.rows
        ∙ append_assoc q.rows (rows_of kept s ∷ []) (map (rows_of kept) ss);
    fields =
        c.fields
        ∙ ap (◌++ map fields_of ss) l.fields
        ∙ append_assoc q.fields (fields_of s ∷ []) (map fields_of ss);
    log =
        c.log
        ∙ ap (λ i. q1.log ++ all_events kept i ss) {x = q1.result_index + 1}
            {y = suc q.result_index} (omega (arith, l.index))
        ∙ ap (◌++ all_events kept (suc q.result_index) ss) l.log
        ∙ append_assoc q.log (events_of kept q.result_index s)
            (all_events kept (suc q.result_index) ss);
    index = omega (arith, c.index, l.index);
    has_callback = c.has_callback ∙ l.has_callback;
    has_timeout = c.has_timeout ∙ l.has_timeout;
    timer = c.timer ∙ l.timer;
  }

  pub all_sets :
      (ps : Parsers F R H) {s : ResultSet F R H} {ss : List (ResultSet F R H)} {pks : List Packet}
      (rest : List Packet) (kept : Bool) (q : Query F R H)
      → Response ps s ss pks
      → q.result_index ≡ length q.fields
      → q.local_stream_error ≡ false
      → q.has_callback ≡ kept
      → (q' : Query F R H) × (run ps (pks ++ rest) resultset_header q
          ≡ resume (done q') (λ s' q'. run ps rest s' q') rest)
        × Collected kept (s ∷ ss) q q'
  all_sets ps {s} rest kept q (final {ps = pks} c) index calm cb = (
    after kept s q,
    one_set ps false s pks rest kept q c index calm cb,
    Left-Collected kept s q (after kept s q) (after-Left kept s q index cb),
  )
  all_sets ps {s} rest kept q (followed {t = t} {ss = ss} {ps = pks} {qs = qs} c r) index calm cb =
      let q1 = after kept s q in
      let l = after-Left kept s q index cb in
      let grown : q1.result_index + 1 ≡ length q1.fields = omega (
        arith,
        index,
        l.index,
        ap length l.fields,
        length-append {0} q.fields (fields_of s ∷ []),
      ) in
      let (q', runs, collected) =
        all_sets ps rest kept (record q1 { result_index = q1.result_index + 1 }) r grown
          (l.calm ∙ calm) (l.has_callback ∙ cb) in
      (
        q',
        ap (λ x. run ps x resultset_header q) (append_assoc pks qs rest)
            ∙ one_set ps true s pks (qs ++ rest) kept q c index calm cb
            ∙ runs,
        Left-cons kept s (t ∷ ss) q q1 q' l collected,
      )
