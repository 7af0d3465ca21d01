-- ===== src/Query/Whole.antt =====
-- lib/commands/query.js from its start to the callback, for every answer that goes well.
use node_mysql.Prelude.{
  ◌≡◌, refl, sym, ap, ap₂, ◌∙◌, Bool, true, false, List, [], ◌∷◌, ◌++◌, map, append-nil,
  if◌then◌else◌, ◌==◌, ==_iff, length, arith, get_elem?,
}
use node_mysql.Packet.{Packet}
use node_mysql.Dispatch.{finished}
use node_mysql.Query.{
  resultset_header, Query, Parsers, call_listing, call_listings, sent_query, fields_at, done, start,
  new_query, answer, say,
}
use node_mysql.Query.Answer.{ResultSet, Response, rows_of, fields_of, all_events, reply}
use node_mysql.Query.Run.{run, resume}
use node_mysql.Query.Sets.{all_sets}

module _ {F R H : Type 0} where
  answer-reply :
      (s : ResultSet F R H) (ss : List (ResultSet F R H)) (q : Query F R H)
      → q.rows ≡ map (rows_of true) (s ∷ ss)
      → q.fields ≡ map fields_of (s ∷ ss)
      → q.result_index ≡ length ss
      → answer q ≡ reply s ss
  unfolding answer
  answer-reply s [] q r f i =
      rw ((==_iff q.result_index 0).1 i)
        (ap₂ (λ rs fs. call_listing (get_elem? rs 0) (fields_at fs 0)) r f)
  answer-reply s (t ∷ ss) q r f i =
      let several : (q.result_index == 0) ≡ false = ground arith in
      rw several (ap₂ (λ rs fs. call_listings rs fs) r f)

  -- What `done` adds, where the timer has not run off.
  abbrev answered : Query F R H → Query F R H
  answered q =
      let q2 = record q { unpipe = false; timer = false } in
      if q.has_callback then say (answer q2) q2 else q2

  done-answered :
      (b : Bool) (q : Query F R H)
      → q.has_timeout ≡ b
      → q.timer ≡ b
      → done q ≡ (finished, answered q)
  unfolding done
  done-answered true q t r = rw t (rw r refl)
  done-answered false q t r = rw t refl

  answered-log :
      (kept : Bool) (s : ResultSet F R H) (ss : List (ResultSet F R H)) (q : Query F R H)
      → q.has_callback ≡ kept
      → q.rows ≡ map (rows_of kept) (s ∷ ss)
      → q.fields ≡ map fields_of (s ∷ ss)
      → q.result_index ≡ length ss
      → ((answered q).rows ≡ q.rows)
        × ((answered q).fields ≡ q.fields)
        × ((answered q).timer ≡ false)
        × ((answered q).log ≡ q.log ++ (if kept then reply s ss ∷ [] else []))
  unfolding answer
  answered-log true s ss q cb r f i = rw cb (
    refl,
    refl,
    refl,
    ap (λ e. q.log ++ (e ∷ []))
        (answer-reply s ss (record q { unpipe = false; timer = false }) r f i),
  )
  answered-log false s ss q cb r f i = rw cb (refl, refl, refl, sym (append-nil q.log))

  -- A query that is answered by a list of result sets, each with its columns and its rows or by a header alone, is done with the last packet of them and leaves those that follow alone. It has kept the rows where it has a callback and has emitted each of them with the index of its result set where it has none, has emitted the fields of each result set, and calls the callback once, with the rows and fields of a single result set as they are, of several as lists. Its timer is cleared.
  pub run-Response :
      (ps : Parsers F R H) (kept timed factory : Bool) (s : ResultSet F R H)
      (ss : List (ResultSet F R H)) (pks rest : List Packet)
      → Response ps s ss pks
      → (q : Query F R H) × (run ps
            (pks ++ rest)
            resultset_header
            (start (new_query kept timed factory)).1
          ≡ ((finished, q), rest))
        × (q.rows ≡ map (rows_of kept) (s ∷ ss))
        × (q.fields ≡ map fields_of (s ∷ ss))
        × (q.log
            ≡ sent_query ∷ (all_events kept 0 (s ∷ ss) ++ (if kept then reply s ss ∷ [] else [])))
        × (q.timer ≡ false)
  unfolding start new_query
  run-Response ps kept timed factory s ss pks rest h =
      let (q, runs, c) =
        all_sets ps rest kept (start (new_query kept timed factory)).1 h refl refl refl in
      let (rows, fields, timer, log) =
        answered-log kept s ss q c.has_callback c.rows c.fields (omega (arith, c.index)) in
      (
        answered q,
        runs
            ∙ ap (λ t. resume t (λ s' q'. run ps rest s' q') rest)
                (done-answered timed q c.has_timeout c.timer),
        rows ∙ c.rows,
        fields ∙ c.fields,
        log ∙ ap (λ l. l ++ (if kept then reply s ss ∷ [] else [])) c.log,
        timer,
      )
