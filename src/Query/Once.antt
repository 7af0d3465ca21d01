-- ===== src/Query/Once.antt =====
-- lib/commands/query.js: the callback of a query is called once at most.
use node_mysql.Prelude.{Bool, true, none, some}
use node_mysql.Query.{resultset_header, Query, start, new_query}
use node_mysql.Query.Timeout.{Life, IsWaiting, IsClosed}

module _ {F R H : Type 0} where
  abbrev IsAlive : Life F R H → Type 0
  IsAlive (some s, q) = IsWaiting q
  IsAlive (none, q) = IsClosed q

  -- The command of a new query, on its way.
  abbrev pub started : Bool → Bool → Life F R H
  started kept timed = (some resultset_header, (start (new_query kept timed true)).1)
