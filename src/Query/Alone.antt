-- ===== src/Query/Alone.antt =====
-- lib/commands/query.js: what a query reads does not depend on its timer.
use node_mysql.Prelude.{
  ℕ, ◌+◌, ◌≡◌, refl, sym, ap, ◌∙◌, Bool, true, false, ◌&&◌, not, Option, none, some, List, [], ◌∷◌,
  ◌++◌, ◌==◌, if◌then◌else◌, if-elim,
}
use node_mysql.Query.Lists.{update_at}
use node_mysql.Packet.{Bytes, Packet, is_eof}
use node_mysql.Dispatch.{go_on, finished, thrown}
use node_mysql.Query.{
  State, header, emit_fields, emit_header, call_error, emit_error, resultset_header, read_field,
  fields_eof, row, infile_ok, Query, Parsers, Turn, step, answer, say, done, done_insert,
  open_result, stream_local_infile, on_resultset_header, on_read_field, field_received, on_row,
  on_infile_ok, on_fields_eof, fields_at, fields_full, has_more, eof_status_flags, push_field,
  handle_timeout_error, on_data, on_end,
}
use node_mysql.Query.Timeout.{
  Input, packet, timer_fires, stream_ends, stream_data, Life, left, live, live_all,
}

-- The packets of a sequence.
abbrev pub packets_alone : List Input → List Input
packets_alone [] = []
packets_alone (packet p ∷ is) = packet p ∷ packets_alone is
packets_alone (timer_fires ∷ is) = packets_alone is
packets_alone (stream_ends ∷ is) = packets_alone is
packets_alone (stream_data b ∷ is) = packets_alone is

module _ {F R H : Type 0} where
  -- A command without its timer and its log.
  abbrev pub core : Query F R H → Query F R H
  core q = record q { timer = false; log = [] }

  abbrev core_turn : Turn F R H → Turn F R H
  core_turn t = (t.0, core t.1)

  abbrev pub core_life : Life F R H → Life F R H
  core_life l = (l.0, core l.1)

  if-core_turn :
      (b : Bool) (x y x' y' : Turn F R H)
      → core_turn x ≡ core_turn x'
      → core_turn y ≡ core_turn y'
      → core_turn (if b then x else y) ≡ core_turn (if b then x' else y')
  if-core_turn true x y x' y' h k = h
  if-core_turn false x y x' y' h k = k

  both-core :
      (b : Bool) (x y x' y' : Query F R H)
      → core x ≡ core x'
      → core y ≡ core y'
      → core (if b then x else y) ≡ core (if b then x' else y')
  both-core true x y x' y' h k = h
  both-core false x y x' y' h k = k

  if-core :
      (b : Bool) (x y z : Query F R H)
      → core x ≡ core z
      → core y ≡ core z
      → core (if b then x else y) ≡ core z
  if-core true x y z h k = h
  if-core false x y z h k = k

  done-core :
      (q : Query F R H) → core_turn (done q) ≡ (finished, core (record q { unpipe = false }))
  unfolding done
  done-core q =
      let q2 = record q { unpipe = false; timer = false } in
      if-elim (λ (t : Turn F R H). core_turn t ≡ (finished, core (record q { unpipe = false })))
        (q.has_timeout && not q.timer) _ _ (λ e. refl)
        (λ e.
          ap (λ (c : Query F R H). (finished, c))
            (if-core q.has_callback (say (answer q2) q2) q2 q2 refl refl))

  error-core :
      (b : Bool) (x y z x' y' : Query F R H)
      → core x ≡ core z
      → core y ≡ core z
      → core x' ≡ core z
      → core y' ≡ core z
      → core_turn (finished, if b then x else y) ≡ core_turn (finished, if b then x' else y')
  error-core b x y z x' y' h k h' k' =
      ap (λ (c : Query F R H). (finished, c)) (if-core b x y z h k ∙ sym (if-core b x' y' z h' k'))

  done_insert-core :
      (rs : Option (H × ℕ)) (q : Query F R H)
      → core_turn (done_insert rs q) ≡ core_turn (done_insert rs (core q))
  unfolding done_insert
  done_insert-core none q = error-core q.has_callback _ _ q _ _ refl refl refl refl
  done_insert-core (some (h, n)) q =
      let pushed : Query F R H → Query F R H = λ q. record q {
        rows = q.rows ++ (header h ∷ []);
        fields = q.fields ++ (none ∷ []);
        log = q.log ++ (emit_fields none ∷ emit_header h ∷ []);
      } in
      let more : Query F R H → Query F R H =
        λ q. record (pushed q) { result_index = q.result_index + 1 } in
      let told : Query F R H → Query F R H =
        λ q. if q.has_callback then say (call_error (some h)) q else say emit_error q in
      let next : Query F R H → Turn F R H =
        λ q. if has_more n then (go_on resultset_header, more q) else done (pushed q) in
      if-core_turn q.local_stream_error (finished, told q) (next q) (finished, told (core q))
        (next (core q)) (error-core q.has_callback _ _ q _ _ refl refl refl refl)
        (if-core_turn (has_more n) (go_on resultset_header, more q) (done (pushed q))
          (go_on resultset_header, more (core q)) (done (pushed (core q))) refl
          (done-core (pushed q) ∙ sym (done-core (pushed (core q)))))

  open_result-core :
      (ps : Parsers F R H) (n : Option ℕ) (h : H) (q : Query F R H)
      → core_turn (open_result ps n h q) ≡ core_turn (open_result ps n h (core q))
  unfolding open_result stream_local_infile
  open_result-core ps none h q = if-core_turn q.stream_factory _ _ _ _ refl refl
  open_result-core ps (some n) h q =
      if-core_turn (n == 0) _ _ _ _
        (done_insert-core (some (h, ps.server_status h)) (record q { field_count = 0 })) refl

  field_received-core :
      (q : Query F R H) → core_turn (field_received q) ≡ core_turn (field_received (core q))
  unfolding field_received
  field_received-core q = if-core_turn (q.received_fields == q.field_count) _ _ _ _ refl refl

  read_field-core :
      (ps : Parsers F R H) (p : Packet) (c : Option F) (q : Query F R H)
      → ps.column p ≡ c
      → core_turn (on_read_field ps p q) ≡ core_turn (on_read_field ps p (core q))
  unfolding on_read_field
  read_field-core ps p none q e = rw e (
      if-core_turn (fields_full (fields_at q.fields q.result_index) q.field_count) _ _ _ _
        (field_received-core (record q { received_fields = q.received_fields + 1 })) refl)
  read_field-core ps p (some f) q e =
      let q1 = record q { received_fields = q.received_fields + 1 } in
      let q2 = record q1 { fields = update_at (push_field f) q.result_index q.fields } in
      rw e (
        if-core_turn (fields_full (fields_at q.fields q.result_index) q.field_count)
          (field_received q1) (field_received q2) (field_received (core q1))
          (field_received (core q2)) (field_received-core q1) (field_received-core q2))

  row_end-core :
      (o : Option ℕ) (q : Query F R H)
      → (let at_end : Turn F R H = elim o [
        | none ↦ (thrown, q)
        | some status ↦
            if has_more status
            then (go_on resultset_header, record q { result_index = q.result_index + 1 })
            else done q
      ] in
          let alone : Turn F R H = elim o [
            | none ↦ (thrown, core q)
            | some status ↦
                if has_more status
                then (go_on resultset_header, record (core q) { result_index = q.result_index + 1 })
                else done (core q)
          ] in
          core_turn at_end ≡ core_turn alone)
  row_end-core none q = refl
  row_end-core (some status) q =
      if-core_turn (has_more status) _ (done q) _ (done (core q)) refl
        (done-core q ∙ sym (done-core (core q)))

  row-core :
      (ps : Parsers F R H) (p : Packet) (r : Option R) (q : Query F R H)
      → ps.row q.row_parser p ≡ r
      → core_turn (on_row ps p q) ≡ core_turn (on_row ps p (core q))
  unfolding on_row
  row-core ps p none q e = rw e (
      if-core_turn (is_eof p) _ _ _ _ (row_end-core (eof_status_flags p) q)
        (done_insert-core none (record q { local_stream_error = true })))
  row-core ps p (some r) q e = rw e (
      if-core_turn (is_eof p) _ _ _ _ (row_end-core (eof_status_flags p) q)
        (ap (λ (c : Query F R H). (go_on row, c)) (both-core q.has_callback _ _ _ _ refl refl)))

  header-core :
      (ps : Parsers F R H) (p : Packet) (h : Option H) (q : Query F R H)
      → ps.header p ≡ h
      → core_turn (on_resultset_header ps p q) ≡ core_turn (on_resultset_header ps p (core q))
  unfolding on_resultset_header
  header-core ps p none q e = rw (e, on_resultset_header) refl
  header-core ps p (some h) q e =
      rw (e, on_resultset_header) (open_result-core ps (ps.field_count h) h q)

  infile_ok-core :
      (ps : Parsers F R H) (p : Packet) (h : Option H) (q : Query F R H)
      → ps.header p ≡ h
      → core_turn (on_infile_ok ps p q) ≡ core_turn (on_infile_ok ps p (core q))
  unfolding on_infile_ok
  infile_ok-core ps p none q e = rw (e, on_infile_ok) refl
  infile_ok-core ps p (some h) q e =
      rw (e, on_infile_ok) (done_insert-core (some (h, ps.server_status h)) q)

  step-core :
      (ps : Parsers F R H) (s : State) (p : Packet) (q : Query F R H)
      → core_turn (step ps s p q) ≡ core_turn (step ps s p (core q))
  unfolding step on_fields_eof
  step-core ps resultset_header p q = header-core ps p (ps.header p) q refl
  step-core ps read_field p q = read_field-core ps p (ps.column p) q refl
  step-core ps fields_eof p q = if-core_turn (is_eof p) _ _ _ _ refl refl
  step-core ps row p q = row-core ps p (ps.row q.row_parser p) q refl
  step-core ps infile_ok p q = infile_ok-core ps p (ps.header p) q refl

  left-core : (t : Turn F R H) → core_life (left t) ≡ left (core_turn t)
  left-core (go_on s, q) = refl
  left-core (finished, q) = refl
  left-core (thrown, q) = refl

  live-core :
      (ps : Parsers F R H) (p : Packet) (l : Life F R H)
      → core_life (live ps (packet p) l) ≡ core_life (live ps (packet p) (core_life l))
  live-core ps p (none, q) = refl
  live-core ps p (some s, q) =
      left-core (step ps s p q)
      ∙ ap left (step-core ps s p q)
      ∙ sym (left-core (step ps s p (core q)))

  timeout-core : (q : Query F R H) → core (handle_timeout_error q) ≡ core q
  unfolding handle_timeout_error
  timeout-core q = if-core q.has_callback _ _ q refl refl

  end-core : (q : Query F R H) → core (on_end q) ≡ core q
  unfolding on_end
  end-core q = if-core q.unpipe _ q q refl refl

  data-core : (b : Bytes) (q : Query F R H) → core (on_data b q) ≡ core q
  unfolding on_data
  data-core b q = if-core q.unpipe _ q q refl refl

  pub live_all-core :
      (ps : Parsers F R H) (is : List Input) (l l' : Life F R H)
      → core_life l ≡ core_life l'
      → core_life (live_all ps is l) ≡ core_life (live_all ps (packets_alone is) l')
  live_all-core ps [] l l' h = h
  live_all-core ps (packet p ∷ is) l l' h =
      live_all-core ps is (live ps (packet p) l) (live ps (packet p) l') (
        live-core ps p l
        ∙ ap (λ (k : Life F R H). core_life (live ps (packet p) k)) h
        ∙ sym (live-core ps p l'))
  live_all-core ps (timer_fires ∷ is) (s, q) l' h = live_all-core ps is _ l' (
      ap (λ (c : Query F R H). (s, c))
        (if-core q.timer (handle_timeout_error q) q q (timeout-core q) refl)
      ∙ h)
  live_all-core ps (stream_ends ∷ is) (s, q) l' h =
      live_all-core ps is (s, on_end q) l' (ap (λ (c : Query F R H). (s, c)) (end-core q) ∙ h)
  live_all-core ps (stream_data b ∷ is) (s, q) l' h =
      live_all-core ps is (s, on_data b q) l' (ap (λ (c : Query F R H). (s, c)) (data-core b q) ∙ h)
