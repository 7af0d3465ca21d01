-- ===== src/Pool/Tests.antt =====
-- Runs of the model of lib/base/pool.js.
use node_mysql.Prelude.{◌≡◌, ◌≤◌, refl, true, false, [], ◌∷◌, length, arith}
use node_mysql.Pool.{
  Config, Pool, new_pool, get_connection, create_connection, release, release_connection, hand_over,
  retry_waiting, remove_from_pool, splice_connection, end, give, retry, refuse, pool_closed,
  Reaches, here, after, gets, releases,
}
use node_mysql.Pool.Sound.{IsSound}
use node_mysql.Pool.Steps.{Reaches-IsSound}
use node_mysql.Pool.Limit.{all_connections-le}

abbrev single : Config
single = record {
  connection_limit = 1;
  queue_limit = 0;
  wait_for_connections = true;
  reset_on_release = false;
}

-- A connection for 5; 6 waits; the connection is given back, and goes to 6.
abbrev lent : Pool
lent = release single 0 (get_connection single 6 (get_connection single 5 new_pool))

lent-Reaches : Reaches single new_pool lent
lent-Reaches =
    after
      (after (after (here new_pool) (gets 5 new_pool)) (gets 6 (get_connection single 5 new_pool)))
      (releases 0 (get_connection single 6 (get_connection single 5 new_pool)))

lent-tasks : lent.tasks ≡ give 6 0 ∷ []
unfolding release release_connection hand_over get_connection create_connection new_pool
lent-tasks = refl

-- The connection breaks, and 6 tries again.
removed-tasks :
    (remove_from_pool single 0 (get_connection single 6 (get_connection single 5 new_pool))).tasks
    ≡ retry 6 ∷ []
unfolding remove_from_pool release_connection retry_waiting splice_connection get_connection
    create_connection new_pool
removed-tasks = refl

end-tasks :
    (end (get_connection single 6 (get_connection single 5 new_pool))).tasks
    ≡ refuse 6 pool_closed ∷ []
unfolding end get_connection create_connection new_pool
end-tasks = refl

Reaches-IsSound_example : IsSound lent
Reaches-IsSound_example = Reaches-IsSound single lent lent-Reaches

all_connections-le_example : length lent.all_connections ≤ 1
all_connections-le_example = all_connections-le single lent lent-Reaches (omega arith)
