-- ===== src/Query/Failure.antt =====
-- lib/commands/query.js where a row cannot be read.
use node_mysql.Prelude.{
  ◌++◌, append_assoc, ◌≡◌, refl, ap, ◌∙◌, Bool, true, false, if◌then◌else◌, none, List, [], ◌∷◌,
  arith,
}
use node_mysql.Packet.{Packet, is_eof}
use node_mysql.Dispatch.{finished}
use node_mysql.Query.{row, Query, call_error, emit_error, Parsers, step, say, handle_timeout_error}
use node_mysql.Query.Run.{run, run-resume, resume}

module _ {F R H : Type 0} where
  failed_turn :
      (ps : Parsers F R H) (p : Packet) (q : Query F R H)
      → is_eof p ≡ false
      → ps.row q.row_parser p ≡ none
      → q.has_callback ≡ true
      → step ps row p q ≡ (finished, say (call_error none) (record q { local_stream_error = true }))
  unfolding step
  failed_turn ps p q e n cb = rw e (rw n (ap (λ (b : Bool). (finished, pick b)) cb))
    where
      pick : Bool → Query F R H
      pick b =
          if b
          then say (call_error none) (record q { local_stream_error = true })
          else say emit_error (record q { local_stream_error = true })

  timed_out :
      (q : Query F R H)
      → q.has_callback ≡ true
      → (handle_timeout_error q).log ≡ q.log ++ (call_error none ∷ [])
  unfolding handle_timeout_error
  timed_out q cb = ground arith

  -- The command of a query with a callback that gets a row which does not parse: it is done at once, and what it does to the outside is one call of the callback with an error and no result, nothing else. The packets behind, the rest of the result set, are left for the next command. Its timer is as before: when it runs off, it calls the callback with an error a second time.
  pub row_fails :
      (ps : Parsers F R H) (p : Packet) (rest : List Packet) (q : Query F R H)
      → is_eof p ≡ false
      → ps.row q.row_parser p ≡ none
      → q.has_callback ≡ true
      → (q' : Query F R H) × (run ps (p ∷ rest) row q ≡ ((finished, q'), rest))
        × (q'.log ≡ q.log ++ (call_error none ∷ []))
        × (q'.timer ≡ q.timer)
        × ((handle_timeout_error q').log ≡ q.log ++ (call_error none ∷ call_error none ∷ []))
  row_fails ps p rest q e n cb =
      let q' = say (call_error none) (record q { local_stream_error = true }) in
      (
        q',
        run-resume ps p rest row q
            ∙ ap (λ t. resume t (λ s q. run ps rest s q) rest) (failed_turn ps p q e n cb),
        refl,
        refl,
        timed_out q' cb ∙ append_assoc q.log (call_error none ∷ []) (call_error none ∷ []),
      )
