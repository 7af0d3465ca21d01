-- ===== src/PoolCluster/Tests.antt =====
-- Runs of the model of lib/pool_cluster.js.
use node_mysql.Prelude.{◌≡◌, refl, true, false, List, [], ◌∷◌, leb}
use node_mysql.PoolCluster.{
  Node, Cluster, filter, is_online, find_node_ids, found_node_ids, cached, add, remove_node,
  increase_error_count, get_node, put_node, delete_node, splice_id,
}
use node_mysql.PoolCluster.Caches.{
  Request, add_request, find_request, failed_request, serve, serve_all, find_node_ids-filter,
}

abbrev empty : Cluster
empty = record {
  remove_node_error_count = 1;
  restore_node_timeout = 0;
  nodes = [];
  serviceable_node_ids = [];
  find_caches = [];
  ended = [];
}

-- A pattern matches the ids from it on.
abbrev node_7 : Node
node_7 = record { id = 7; error_count = 0; offline_until = 0 }

abbrev requests : List Request
requests =
    add_request 3
    ∷ add_request 7
    ∷ add_request 9
    ∷ find_request 0 5 true
    ∷ failed_request 0 node_7
    ∷ []

serve_all-requests : (find_node_ids leb 0 5 true (serve_all leb requests empty)).1 ≡ 9 ∷ []
unfolding serve_all serve add find_node_ids found_node_ids cached increase_error_count remove_node
    get_node put_node delete_node splice_id
serve_all-requests = refl

find_node_ids-filter_example :
    let d = serve_all leb requests empty in
    (find_node_ids leb 0 5 false d).1
    ≡ filter (is_online 0 d.nodes) (filter (leb 5) d.serviceable_node_ids)
find_node_ids-filter_example = find_node_ids-filter leb requests empty 0 5 false refl
