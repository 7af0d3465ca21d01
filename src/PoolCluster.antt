-- ===== src/PoolCluster.antt =====
-- lib/pool_cluster.js: the nodes of a cluster, their error counts, and the search for nodes by a
-- pattern with its cache. An id and a pattern are numbers; whether an id matches a pattern is a
-- parameter, `matches`, for the regular expression of JavaScript. The pools of the nodes and the
-- events are left out; `ended` lists the nodes whose pool is ended.
pub mod Caches
mod Tests
use node_mysql.Prelude.{
  ℕ, suc, ◌+◌, ◌-◌, ◌%◌, min, Bool, true, false, Option, none, some, List, [], ◌∷◌, ◌++◌, ltb, leb,
  ◌==◌, if◌then◌else◌, length, get_or,
}

pub record Node : Type 0 where
  pub id : ℕ
  pub error_count : ℕ
  pub offline_until : ℕ

pub record Cluster : Type 0 where
  pub remove_node_error_count : ℕ
  pub restore_node_timeout : ℕ
  pub nodes : List Node
  pub serviceable_node_ids : List ℕ
  pub find_caches : List (ℕ × List ℕ)
  pub ended : List ℕ

abbrev pub filter : (ℕ → Bool) → List ℕ → List ℕ
filter f [] = []
filter f (x ∷ xs) = if f x then x ∷ filter f xs else filter f xs

unfoldable pub get_node : ℕ → List Node → Option Node
get_node id [] = none
get_node id (n ∷ ns) = if n.id == id then some n else get_node id ns

-- `delete this._nodes[id]`
unfoldable pub delete_node : ℕ → List Node → List Node
delete_node id [] = []
delete_node id (n ∷ ns) = if n.id == id then ns else n ∷ delete_node id ns

-- A change of the object of a node, which is in `nodes` under its id. The source also changes an object
-- that has been removed; where another node has been added under the id since, that one is not meant.
unfoldable pub put_node : Node → List Node → List Node
put_node node [] = []
put_node node (n ∷ ns) = if n.id == node.id then node ∷ ns else n ∷ put_node node ns

-- `indexOf` and `splice(index, 1)`: the ids without the first occurrence, if there is one.
unfoldable pub splice_id : ℕ → List ℕ → Option (List ℕ)
splice_id id [] = none
splice_id id (i ∷ is) =
    if i == id then some is else elim (splice_id id is) [ none ↦ none | some js ↦ some (i ∷ js) ]

abbrev pub clear_find_caches : Cluster → Cluster
clear_find_caches c = record c { find_caches = [] }

-- `add(id, config)`
unfoldable pub add : ℕ → Cluster → Cluster
add id c = elim (get_node id c.nodes) [
  | some n ↦ c
  | none ↦ clear_find_caches (record c {
    nodes = c.nodes ++ (record { id = id; error_count = 0; offline_until = 0 } ∷ []);
    serviceable_node_ids = c.serviceable_node_ids ++ (id ∷ []);
  })
]

unfoldable pub remove_node : Node → Cluster → Cluster
remove_node node c = elim (splice_id node.id c.serviceable_node_ids) [
  | none ↦ c
  | some ids ↦ clear_find_caches (record c {
    serviceable_node_ids = ids;
    nodes = delete_node node.id c.nodes;
    ended = c.ended ++ (node.id ∷ []);
  })
]

-- `now` is the monotonic clock.
unfoldable pub increase_error_count : ℕ → Node → Cluster → Cluster
increase_error_count now node c =
    let counted = record node { error_count = suc node.error_count } in
    let c1 = record c { nodes = put_node counted c.nodes } in
    if ltb counted.error_count c.remove_node_error_count
    then c1
    else if ltb 0 c.restore_node_timeout
    then record c {
      nodes = put_node (record counted { offline_until = now + c.restore_node_timeout }) c.nodes;
    }
    else remove_node counted c1

-- The count comes down by one, from the limit at most and from one at least.
unfoldable pub decrease_error_count : Node → Cluster → Cluster
decrease_error_count node c =
    let capped =
      (if ltb c.remove_node_error_count node.error_count
        then c.remove_node_error_count
        else node.error_count) in
    let raised = (if ltb capped 1 then 1 else capped) in
    record c {
      nodes = put_node (record node { error_count = raised - 1; offline_until = 0 }) c.nodes;
    }

unfoldable pub cached : ℕ → List (ℕ × List ℕ) → Option (List ℕ)
cached pattern [] = none
cached pattern ((p, ids) ∷ rest) = if p == pattern then some ids else cached pattern rest

-- A node that is not offline, or not any more. An id that is found has its node.
unfoldable pub is_online : ℕ → List Node → ℕ → Bool
is_online now nodes id = elim (get_node id nodes) [
  | none ↦ false
  | some n ↦ if n.offline_until == 0 then true else leb n.offline_until now
]

module _ (matches : ℕ → ℕ → Bool) where
  unfoldable pub found_node_ids : ℕ → Cluster → List ℕ
  found_node_ids pattern c = elim (cached pattern c.find_caches) [
    | some ids ↦ ids
    | none ↦ filter (matches pattern) c.serviceable_node_ids
  ]

  -- `_findNodeIds(pattern, includeOffline)`
  unfoldable pub find_node_ids : ℕ → ℕ → Bool → Cluster → Cluster × List ℕ
  find_node_ids now pattern include_offline c =
      let ids = found_node_ids pattern c in
      let c1 = record c { find_caches = (pattern, ids) ∷ c.find_caches } in
      if include_offline then (c1, ids) else (c1, filter (is_online now c.nodes) ids)

  -- The loop of `remove(pattern)` over the ids that were found.
  unfoldable pub remove_all : List ℕ → Cluster → Cluster
  remove_all [] c = c
  remove_all (id ∷ ids) c = elim (get_node id c.nodes) [
    | none ↦ remove_all ids c
    | some n ↦ remove_all ids (remove_node n c)
  ]

  -- `remove(pattern)`
  unfoldable pub remove_matching : ℕ → Cluster → Cluster
  remove_matching pattern c = let (c1, ids) = find_node_ids 0 pattern true c in remove_all ids c1
