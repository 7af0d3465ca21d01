-- ===== src/Query/Tests.antt =====
-- Runs of the model of lib/commands/query.js.
use node_mysql.Prelude.{
  ℕ, ◌+◌, ◌≡◌, refl, true, false, none, some, List, [], ◌∷◌, ◌++◌, map, if◌then◌else◌, get_elem?,
  length,
}
use node_mysql.Packet.{Bytes, Packet, new_packet, is_eof}
use node_mysql.Dispatch.{finished}
use node_mysql.Query.{
  resultset_header, row, Query, table, header, sent_query, emit_fields, emit_header, call_listings,
  Parsers, start, new_query, handle_timeout_error, step, eof_status_flags, call_error,
}
use node_mysql.Query.Answer.{
  ResultSet, ok, set, ok_packet, table_packets, Response, final, followed, rows_of, fields_of,
  all_events, reply,
}
use node_mysql.Query.Run.{run}
use node_mysql.Query.Whole.{run-Response}
use node_mysql.Query.Timeout.{Input, packet, timer_fires, live_all}
use node_mysql.Query.Once.{started}
use node_mysql.Query.Failure.{row_fails}

-- A column and a row are a byte. The first byte of a header is the number of the columns.
abbrev bytes : Parsers ℕ ℕ ℕ
bytes = record {
  column = λ p. get_elem? p.buffer 4;
  row = λ fs p. get_elem? p.buffer 5;
  header = λ p. get_elem? p.buffer 4;
  field_count = λ h. some h;
  server_status = λ h. 0;
}

abbrev carry : Bytes → Packet
carry b = new_packet 0 (0 ∷ 0 ∷ 0 ∷ 0 ∷ b) 0 (4 + length b)

abbrev eof : ℕ → Packet
eof status = carry (0xfe ∷ 0 ∷ 0 ∷ status ∷ 0 ∷ [])

abbrev row_packets : List Packet
row_packets = carry (1 ∷ 5 ∷ []) ∷ carry (1 ∷ 6 ∷ []) ∷ []

abbrev answer_packets : List Packet
answer_packets =
    (carry (1 ∷ []) ∷ ((carry (9 ∷ []) ∷ []) ++ eof 0 ∷ (row_packets ++ eof 8 ∷ [])))
    ++ (carry (0 ∷ []) ∷ [])

abbrev first : ResultSet ℕ ℕ ℕ
first = set 1 9 [] (5 ∷ 6 ∷ [])

abbrev second : ResultSet ℕ ℕ ℕ
second = ok 0

answer_packets-Response : Response bytes first (second ∷ []) answer_packets
unfolding new_packet is_eof eof_status_flags
answer_packets-Response =
    followed
      (table_packets (carry (1 ∷ [])) (eof 0) (eof 8) 1 9 [] (5 ∷ 6 ∷ []) (carry (9 ∷ []) ∷ [])
        row_packets 8 refl refl (refl, tt) refl ((refl, refl), ((refl, refl), tt)) refl refl refl)
      (final (ok_packet (carry (0 ∷ [])) 0 refl refl refl))

run-Response_example :
    (q : Query ℕ ℕ ℕ) × (run bytes
        (answer_packets ++ (eof 0 ∷ []))
        resultset_header
        (start (new_query true true false)).1
      ≡ ((finished, q), eof 0 ∷ []))
    × (q.rows ≡ map (rows_of true) (first ∷ second ∷ []))
    × (q.fields ≡ map fields_of (first ∷ second ∷ []))
    × (q.log
        ≡ sent_query
          ∷ (all_events true 0 (first ∷ second ∷ [])
              ++ (if true then reply first (second ∷ []) ∷ [] else [])))
    × (q.timer ≡ false)
run-Response_example =
    run-Response bytes true true false first (second ∷ []) answer_packets (eof 0 ∷ [])
      answer_packets-Response

run_answer :
    (run bytes answer_packets resultset_header (start (new_query true true false)).1).0.1.log
    ≡ sent_query
      ∷ emit_fields (some (9 ∷ []))
      ∷ emit_fields none
      ∷ emit_header 0
      ∷ call_listings (table (5 ∷ 6 ∷ []) ∷ header 0 ∷ []) (some (9 ∷ []) ∷ none ∷ [])
      ∷ []
unfolding run step start new_query new_packet is_eof eof_status_flags
run_answer = refl

abbrev late : List Input
late =
    packet (carry (1 ∷ []))
    ∷ packet (carry (9 ∷ []))
    ∷ timer_fires
    ∷ packet (eof 0)
    ∷ packet (carry (1 ∷ 5 ∷ []))
    ∷ packet (eof 0)
    ∷ timer_fires
    ∷ []

late_log :
    (live_all bytes late (started true true)).1.log
    ≡ sent_query ∷ emit_fields (some (9 ∷ [])) ∷ call_error none ∷ []
unfolding step start new_query new_packet is_eof eof_status_flags handle_timeout_error
late_log = refl

abbrev reading_rows : Query ℕ ℕ ℕ
reading_rows = record (new_query true true false) { timer = true }

row_fails_example :
    (q' : Query ℕ ℕ ℕ) × (run bytes (carry (1 ∷ []) ∷ eof 0 ∷ []) row reading_rows
      ≡ ((finished, q'), eof 0 ∷ []))
    × (q'.log ≡ reading_rows.log ++ (call_error none ∷ []))
    × (q'.timer ≡ reading_rows.timer)
    × ((handle_timeout_error q').log ≡ reading_rows.log ++ (call_error none ∷ call_error none ∷ []))
unfolding new_packet is_eof new_query
row_fails_example = row_fails bytes (carry (1 ∷ [])) (eof 0 ∷ []) reading_rows refl refl refl
