-- ===== src/Query/Run.antt =====
-- lib/commands/query.js over whole answers: what it makes of the packets.
use node_mysql.Prelude.{
  ℕ, ◌<◌, ◌≡◌, refl, sym, ap, ◌∙◌, Bool, true, false, Option, some, List, [], ◌∷◌, ◌++◌, append-nil,
  append_assoc, ◌==◌, length, length-append, arith, ==_iff,
}
use node_mysql.Packet.{Packet, is_eof}
use node_mysql.Dispatch.{go_on, finished, thrown}
use node_mysql.Query.{
  State, read_field, fields_eof, row, Query, emit_fields, emit_row, Rows, table, Parsers, Turn,
  step, fields_at, push_row, push_field, field_received, say,
}
use node_mysql.Query.Lists.{update_at-last, get_elem?-last}
use node_mysql.Query.Answer.{Columns, RowsOf, row_events}

fields_at-last :
    {F : Type 0} (before : List (Option (List F))) (fs : List F)
    → fields_at (before ++ (some fs ∷ [])) (length before) ≡ some fs
fields_at-last before fs = rw (get_elem?-last before (some fs), fields_at) refl

==_refl : (n : ℕ) → (n == n) ≡ true
==_refl n = (==_iff n n).1 refl

==_lt : (m n : ℕ) → m < n → (m == n) ≡ false
==_lt m n h = ground arith

module _ {F R H : Type 0} where
  abbrev pub resume :
      Turn F R H
      → (State → Query F R H → Turn F R H × List Packet)
      → List Packet
      → Turn F R H × List Packet
  resume (go_on s, q) k ps = k s q
  resume (finished, q) k ps = ((finished, q), ps)
  resume (thrown, q) k ps = ((thrown, q), ps)

  -- The packets are handed to the command until it is done; the rest is left.
  unfoldable pub run : Parsers F R H → List Packet → State → Query F R H → Turn F R H × List Packet
  run ps [] s q = ((go_on s, q), [])
  run ps (p ∷ rest) s q = resume (step ps s p q) (λ s' q'. run ps rest s' q') rest

  pub run-resume :
      (ps : Parsers F R H) (p : Packet) (rest : List Packet) (s : State) (q : Query F R H)
      → run ps (p ∷ rest) s q ≡ resume (step ps s p q) (λ s' q'. run ps rest s' q') rest
  unfolding run
  run-resume ps p rest s q = refl

  pub run-step :
      (ps : Parsers F R H) (p : Packet) (rest : List Packet) (s s' : State) (q q' : Query F R H)
      → step ps s p q ≡ (go_on s', q')
      → run ps (p ∷ rest) s q ≡ run ps rest s' q'
  unfolding run
  run-step ps p rest s s' q q' e = ap (λ t. resume t (λ s q. run ps rest s q) rest) e

  -- In the middle of the column definitions of the last result set.
  abbrev pub reading : Query F R H → List (Option (List F)) → List F → ℕ → Query F R H
  reading q before fs n = record q {
    field_count = n;
    received_fields = length fs;
    result_index = length before;
    fields = before ++ (some fs ∷ []);
  }

  abbrev pub all_read : Query F R H → List (Option (List F)) → List F → Query F R H
  all_read q before fs = record (say (emit_fields (some fs)) (reading q before fs (length fs))) {
    row_parser = fs;
  }

  all_received :
      (q : Query F R H) (before : List (Option (List F))) (fs : List F)
      → field_received (reading q before fs (length fs)) ≡ (go_on fields_eof, all_read q before fs)
  unfolding field_received
  all_received q before fs = rw (fields_at-last before fs) (rw (==_refl (length fs)) refl)

  some_received :
      (q : Query F R H) (before : List (Option (List F))) (fs : List F) (n : ℕ)
      → length fs < n
      → field_received (reading q before fs n) ≡ (go_on read_field, reading q before fs n)
  unfolding field_received
  some_received q before fs n h = rw (==_lt (length fs) n h) refl

  read_one :
      (ps : Parsers F R H) (c : Packet) (f : F) (q : Query F R H) (before : List (Option (List F)))
      (fs : List F) (n : ℕ)
      → ps.column c ≡ some f
      → length fs < n
      → step ps read_field c (reading q before fs n)
        ≡ field_received (reading q before (fs ++ (f ∷ [])) n)
  unfolding step
  read_one ps c f q before fs n e h = rw (fields_at-last before fs) (
      rw (==_lt (length fs) n h) (
        rw e rw (update_at-last (push_field f) before (some fs), length-append {0} fs (f ∷ []))
          refl))

  -- The column definitions that are left, up to the last one.
  pub read_all_fields :
      (ps : Parsers F R H) (f : F) (fs : List F) (cs rest : List Packet) (q : Query F R H)
      (before : List (Option (List F))) (fs0 : List F) (n : ℕ)
      → Columns ps (f ∷ fs) cs
      → n ≡ length (fs0 ++ (f ∷ fs))
      → run ps (cs ++ rest) read_field (reading q before fs0 n)
        ≡ run ps rest fields_eof (all_read q before (fs0 ++ (f ∷ fs)))
  read_all_fields ps f fs [] rest q before fs0 n h e = absurd h
  read_all_fields ps f [] (c ∷ []) rest q before fs0 n h e =
      run-step ps c rest read_field fields_eof (reading q before fs0 n)
        (all_read q before (fs0 ++ (f ∷ [])))
        (read_one ps c f q before fs0 n h.0 (omega (arith, e, length-append {0} fs0 (f ∷ [])))
          ∙ ap (λ m. field_received (reading q before (fs0 ++ (f ∷ [])) m)) e
          ∙ all_received q before (fs0 ++ (f ∷ [])))
  read_all_fields ps f [] (c ∷ d ∷ cs) rest q before fs0 n h e = absurd h.1
  read_all_fields ps f (g ∷ fs) (c ∷ cs) rest q before fs0 n h e =
      let longer : length (fs0 ++ (f ∷ [])) < n =
        omega (arith, e, length-append {0} fs0 (f ∷ []), length-append {0} fs0 (f ∷ g ∷ fs)) in
      run-step ps c (cs ++ rest) read_field read_field (reading q before fs0 n)
        (reading q before (fs0 ++ (f ∷ [])) n)
        (read_one ps c f q before fs0 n h.0 (omega (arith, longer, length-append {0} fs0 (f ∷ [])))
          ∙ some_received q before (fs0 ++ (f ∷ [])) n longer)
      ∙ read_all_fields ps g fs cs rest q before (fs0 ++ (f ∷ [])) n h.1
          (e ∙ ap length (sym (append_assoc fs0 (f ∷ []) (g ∷ fs))))
      ∙ ap (λ l. run ps rest fields_eof (all_read q before l)) (append_assoc fs0 (f ∷ []) (g ∷ fs))

  row_events-append :
      (i : ℕ) (rs : List R) (r : R)
      → row_events {F = F} {H = H} i (rs ++ (r ∷ [])) ≡ row_events i rs ++ (emit_row r i ∷ [])
  row_events-append i [] r = refl
  row_events-append i (x ∷ rs) r = ap (emit_row x i ∷◌) (row_events-append i rs r)

  -- Some rows of the last result set are read: kept for the callback, or told at once.
  abbrev pub served : Bool → Query F R H → List (Rows R H) → List R → Query F R H
  served true q before rs = record q {
    has_callback = true;
    rows = before ++ (table rs ∷ []);
    current_rows = length before;
  }
  served false q before rs = record q {
    has_callback = false;
    rows = before ++ (table [] ∷ []);
    current_rows = length before;
    log = q.log ++ row_events q.result_index rs;
  }

  serve_one :
      (ps : Parsers F R H) (p : Packet) (r : R) (kept : Bool) (q : Query F R H)
      (before : List (Rows R H)) (rs : List R)
      → is_eof p ≡ false
      → ps.row q.row_parser p ≡ some r
      → step ps row p (served kept q before rs) ≡ (go_on row, served kept q before (rs ++ (r ∷ [])))
  unfolding step
  serve_one ps p r true q before rs e h =
      rw e (rw h (rw (update_at-last (push_row r) before (table rs)) refl))
  serve_one ps p r false q before rs e h = rw e (
      rw h (
        ap (λ l. (go_on row, record (served false q before rs) { log = l }))
          (append_assoc q.log (row_events q.result_index rs) (emit_row r q.result_index ∷ [])
            ∙ ap (q.log ++◌) (sym (row_events-append q.result_index rs r)))))

  pub serve_all :
      (ps : Parsers F R H) (rows : List Packet) (rs : List R) (rest : List Packet) (kept : Bool)
      (q : Query F R H) (before : List (Rows R H)) (rs0 : List R)
      → RowsOf ps q.row_parser rs rows
      → run ps (rows ++ rest) row (served kept q before rs0)
        ≡ run ps rest row (served kept q before (rs0 ++ rs))
  serve_all ps [] [] rest kept q before rs0 h =
      ap (λ l. run ps rest row (served kept q before l)) (sym (append-nil rs0))
  serve_all ps [] (r ∷ rs) rest kept q before rs0 h = absurd h
  serve_all ps (p ∷ rows) [] rest kept q before rs0 h = absurd h
  serve_all ps (p ∷ rows) (r ∷ rs) rest kept q before rs0 h =
      run-step ps p (rows ++ rest) row row (served kept q before rs0)
        (served kept q before (rs0 ++ (r ∷ []))) (serve_one ps p r kept q before rs0 h.0.0 h.0.1)
      ∙ serve_all ps rows rs rest kept q before (rs0 ++ (r ∷ [])) h.1
      ∙ ap (λ l. run ps rest row (served kept q before l)) (append_assoc rs0 (r ∷ []) rs)
