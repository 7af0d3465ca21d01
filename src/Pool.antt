-- ===== src/Pool.antt =====
-- lib/base/pool.js and lib/pool_connection.js: connections are lent, given back and removed.
-- A connection and a callback are numbers. `tasks` is what `process.nextTick` has been given and
-- `connecting` and `resetting` are the calls of `connect` and `reset` that have not answered; `answers`
-- is what the callbacks of `getConnection` were called with. `attached` says of a connection that its
-- `_pool` is set, `released` is its `_released`. The queues are the lists that they stand for.
pub mod Sound
pub mod Steps
pub mod Limit
mod Tests
use node_mysql.Prelude.{
  ℕ, suc, ◌+◌, ◌-◌, Bool, true, false, not, ◌&&◌, ◌||◌, List, [], ◌∷◌, ◌++◌, ltb, leb, ◌==◌,
  if◌then◌else◌, length, get_or, take, map,
}

pub record Config : Type 0 where
  pub connection_limit : ℕ
  pub queue_limit : ℕ
  pub wait_for_connections : Bool
  pub reset_on_release : Bool

pub data Reason : Type 0 where
  pool_closed no_connections queue_limit_reached connect_failed : Reason

pub data Task : Type 0 where
  give : ℕ → ℕ → Task
  retry : ℕ → Task
  refuse : ℕ → Reason → Task

pub data Answer : Type 0 where
  granted : ℕ → ℕ → Answer
  refused : ℕ → Reason → Answer

pub record Pool : Type 0 where
  pub all_connections : List ℕ
  pub free_connections : List ℕ
  pub connection_queue : List ℕ
  pub closed : Bool
  pub created : ℕ
  pub attached : ℕ → Bool
  pub released : ℕ → Bool
  pub tasks : List Task
  pub connecting : List (ℕ × ℕ)
  pub resetting : List ℕ
  pub ending : List ℕ
  pub answers : List Answer

abbrev pub update : (ℕ → Bool) → ℕ → Bool → ℕ → Bool
update f k v x = if x == k then v else f x

unfoldable pub new_pool : Pool
new_pool = record {
  all_connections = [];
  free_connections = [];
  connection_queue = [];
  closed = false;
  created = 0;
  attached = λ c. false;
  released = λ c. false;
  tasks = [];
  connecting = [];
  resetting = [];
  ending = [];
  answers = [];
}

-- `spliceConnection(queue, connection)` takes the first occurrence out.
unfoldable pub splice_connection : List ℕ → ℕ → List ℕ
splice_connection [] connection = []
splice_connection (c ∷ cs) connection =
    if c == connection then cs else c ∷ splice_connection cs connection

abbrev pub next_tick : Task → Pool → Pool
next_tick t p = record p { tasks = p.tasks ++ (t ∷ []) }

abbrev pub answer : Answer → Pool → Pool
answer a p = record p { answers = p.answers ++ (a ∷ []) }

-- A connection that is new, with a call of its `connect`.
unfoldable pub create_connection : ℕ → Pool → Pool
create_connection cb p = record p {
  created = suc p.created;
  attached = update p.attached p.created true;
  released = update p.released p.created false;
  all_connections = p.all_connections ++ (p.created ∷ []);
  connecting = p.connecting ++ ((cb, p.created) ∷ []);
}

unfoldable pub get_connection : Config → ℕ → Pool → Pool
get_connection config cb p =
    let free = length p.free_connections in
    if p.closed
    then next_tick (refuse cb pool_closed) p
    else if ltb 0 free
    then next_tick (give cb (get_or p.free_connections (free - 1) 0))
        (record p { free_connections = take (free - 1) p.free_connections })
    else if (config.connection_limit == 0) || ltb (length p.all_connections) config.connection_limit
    then create_connection cb p
    else if not config.wait_for_connections
    then next_tick (refuse cb no_connections) p
    else if not (config.queue_limit == 0) && leb config.queue_limit (length p.connection_queue)
    then answer (refused cb queue_limit_reached) p
    else record p { connection_queue = p.connection_queue ++ (cb ∷ []) }

-- What the callback of `connect` does.
unfoldable pub connected : ℕ → ℕ → Bool → Pool → Pool
connected cb connection failed p =
    if p.closed
    then answer (refused cb pool_closed) p
    else if failed
    then answer (refused cb connect_failed) p
    else answer (granted cb connection) p

-- The first callback that waits calls `getConnection` once more.
unfoldable pub retry_waiting : List ℕ → Pool → Pool
retry_waiting [] p = p
retry_waiting (cb ∷ cbs) p = next_tick (retry cb) (record p { connection_queue = cbs })

unfoldable pub hand_over : List ℕ → ℕ → Pool → Pool
hand_over [] connection p = record p { free_connections = p.free_connections ++ (connection ∷ []) }
hand_over (cb ∷ cbs) connection p =
    next_tick (give cb connection) (record p { connection_queue = cbs })

-- `_handleSuccessfulRelease(connection)`
abbrev pub handle_successful_release : ℕ → Pool → Pool
handle_successful_release connection p = hand_over p.connection_queue connection p

unfoldable pub release_connection : Config → ℕ → Pool → Pool
release_connection config connection p =
    if not (p.attached connection)
    then retry_waiting p.connection_queue p
    else if config.reset_on_release
    then record p { resetting = p.resetting ++ (connection ∷ []) }
    else handle_successful_release connection p

-- What the callback of `reset` does.
unfoldable pub reset_done : ℕ → Bool → Pool → Pool
reset_done connection failed p =
    if failed
    then retry_waiting p.connection_queue (record p {
      attached = update p.attached connection false;
      all_connections = splice_connection p.all_connections connection;
    })
    else handle_successful_release connection p

-- `connection.release()`
unfoldable pub release : Config → ℕ → Pool → Pool
release config connection p =
    if p.released connection
    then p
    else if not (p.attached connection) || p.closed
    then p
    else release_connection config connection
        (record p { released = update p.released connection true })

-- `connection._removeFromPool()`, which `destroy` and the events `end` and `error` call.
unfoldable pub remove_from_pool : Config → ℕ → Pool → Pool
remove_from_pool config connection p =
    if not (p.attached connection) || p.closed
    then p
    else release_connection config connection (record p {
      attached = update p.attached connection false;
      all_connections = splice_connection p.all_connections connection;
      free_connections = splice_connection p.free_connections connection;
    })

-- `end()` refuses all callbacks that wait and ends all connections.
unfoldable pub end : Pool → Pool
end p = record p {
  closed = true;
  connection_queue = [];
  tasks = p.tasks ++ map (λ cb. refuse cb pool_closed) p.connection_queue;
  ending = p.ending ++ p.all_connections;
}

unfoldable pub run_task : Config → Task → Pool → Pool
run_task config (give cb connection) p =
    answer (granted cb connection) (record p { released = update p.released connection false })
run_task config (retry cb) p = get_connection config cb p
run_task config (refuse cb reason) p = answer (refused cb reason) p

-- What can happen next: a call of the user, the first task of `process.nextTick`, or an answer to
-- `connect` or `reset`.
pub data Happens (config : Config) : Pool → Pool → Type 0 where
  gets : (cb : ℕ) (p : Pool) → Happens config p (get_connection config cb p)
  releases : (connection : ℕ) (p : Pool) → Happens config p (release config connection p)
  removes : (connection : ℕ) (p : Pool) → Happens config p (remove_from_pool config connection p)
  ends : (p : Pool) → Happens config p (end p)
  ticks :
      (t : Task) (ts : List Task) (p : Pool)
      → Happens config (record p { tasks = t ∷ ts }) (run_task config t (record p { tasks = ts }))
  connects :
      (cb connection : ℕ) (failed : Bool) (before behind : List (ℕ × ℕ)) (p : Pool)
      → Happens config
          (record p { connecting = before ++ ((cb, connection) ∷ behind) })
          (connected cb connection failed (record p { connecting = before ++ behind }))
  resets :
      (connection : ℕ) (failed : Bool) (before behind : List ℕ) (p : Pool)
      → Happens config
          (record p { resetting = before ++ (connection ∷ behind) })
          (reset_done connection failed (record p { resetting = before ++ behind }))

pub data Reaches (config : Config) : Pool → Pool → Type 0 where
  here : (p : Pool) → Reaches config p p
  after : {p q r : Pool} → Reaches config p q → Happens config q r → Reaches config p r
