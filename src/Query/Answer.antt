-- ===== src/Query/Answer.antt =====
-- The answer of a server to a text query, as the packets that carry a list of result sets, and what
-- the command makes of it. It describes lib/commands/query.js from outside.
use node_mysql.Prelude.{
  ℕ, suc, ◌≡◌, Bool, true, false, Option, none, some, List, [], ◌∷◌, ◌++◌, map, if◌then◌else◌,
  length,
}
use node_mysql.Packet.{Packet, is_eof}
use node_mysql.Query.{
  Event, emit_fields, emit_header, emit_row, call_listing, call_listings, Rows, table, header,
  Parsers, has_more, eof_status_flags,
}

-- A result set: the header alone, or the header, a column at least, and the rows.
pub data ResultSet (F R H : Type 0) : Type 0 where
  ok : H → ResultSet F R H
  set : H → F → List F → List R → ResultSet F R H

module _ {F R H : Type 0} (ps : Parsers F R H) where
  -- Each packet holds the column, or the row, of its place.
  abbrev pub Columns : List F → List Packet → Type 0
  Columns [] [] = Unit
  Columns (f ∷ fs) (c ∷ cs) = (ps.column c ≡ some f) × Columns fs cs
  Columns _ _ = ⊥

  abbrev pub RowsOf : List F → List R → List Packet → Type 0
  RowsOf fs [] [] = Unit
  RowsOf fs (r ∷ rs) (p ∷ rows) = ((is_eof p ≡ false) × (ps.row fs p ≡ some r)) × RowsOf fs rs rows
  RowsOf fs _ _ = ⊥

  -- The packets carry the result set, the last of them with the word that more follow or not.
  pub data Carries (more : Bool) : ResultSet F R H → List Packet → Type 0 where
    ok_packet :
        (p : Packet) (h : H)
        → ps.header p ≡ some h
        → ps.field_count h ≡ some 0
        → has_more (ps.server_status h) ≡ more
        → Carries more (ok h) (p ∷ [])
    table_packets :
        (p eof eof2 : Packet) (h : H) (f : F) (fs : List F) (rs : List R) (cs rows : List Packet)
        (status : ℕ)
        → ps.header p ≡ some h
        → ps.field_count h ≡ some (suc (length fs))
        → Columns (f ∷ fs) cs
        → is_eof eof ≡ true
        → RowsOf (f ∷ fs) rs rows
        → is_eof eof2 ≡ true
        → eof_status_flags eof2 ≡ some status
        → has_more status ≡ more
        → Carries more (set h f fs rs) (p ∷ (cs ++ eof ∷ (rows ++ eof2 ∷ [])))

  pub data Response : ResultSet F R H → List (ResultSet F R H) → List Packet → Type 0 where
    final : {s : ResultSet F R H} {ps : List Packet} → Carries false s ps → Response s [] ps
    followed :
        {s t : ResultSet F R H} {ss : List (ResultSet F R H)} {ps qs : List Packet}
        → Carries true s ps
        → Response t ss qs
        → Response s (t ∷ ss) (ps ++ qs)

module _ {F R H : Type 0} where
  -- What is kept of a result set, where there is a callback and where there is none.
  abbrev pub rows_of : Bool → ResultSet F R H → Rows R H
  rows_of kept (ok h) = header h
  rows_of kept (set h f fs rs) = table (if kept then rs else [])

  abbrev pub fields_of : ResultSet F R H → Option (List F)
  fields_of (ok h) = none
  fields_of (set h f fs rs) = some (f ∷ fs)

  -- The events of a result set, at its index.
  abbrev pub row_events : ℕ → List R → List (Event F R H)
  row_events i [] = []
  row_events i (r ∷ rs) = emit_row r i ∷ row_events i rs

  abbrev pub events_of : Bool → ℕ → ResultSet F R H → List (Event F R H)
  events_of kept i (ok h) = emit_fields none ∷ emit_header h ∷ []
  events_of kept i (set h f fs rs) =
      emit_fields (some (f ∷ fs)) ∷ (if kept then [] else row_events i rs)

  abbrev pub all_events : Bool → ℕ → List (ResultSet F R H) → List (Event F R H)
  all_events kept i [] = []
  all_events kept i (s ∷ ss) = events_of kept i s ++ all_events kept (suc i) ss

  -- The callback gets the rows and fields of a single result set as they are, of several as lists.
  abbrev pub reply : ResultSet F R H → List (ResultSet F R H) → Event F R H
  reply s [] = call_listing (some (rows_of true s)) (fields_of s)
  reply s (t ∷ ss) = call_listings (map (rows_of true) (s ∷ t ∷ ss)) (map fields_of (s ∷ t ∷ ss))
