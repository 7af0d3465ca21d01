-- ===== src/Pool/Limit.antt =====
-- The pool of lib/base/pool.js never has more connections than its limit.
use node_mysql.Prelude.{
  ℕ, suc, ◌≤◌, ◌<◌, ◌≡◌, Bool, true, false, not, ◌||◌, ◌&&◌, List, [], ◌∷◌, ◌++◌, arith, ltb, leb,
  ◌==◌, if-elim, length, length-append,
}
use node_mysql.Pool.{
  Config, Task, give, retry, refuse, Pool, update, new_pool, splice_connection, create_connection,
  get_connection, connected, retry_waiting, hand_over, release_connection, reset_done, release,
  remove_from_pool, end, run_task, Happens, gets, releases, removes, ends, ticks, connects, resets,
  Reaches, here, after,
}

-- A limit of 0 is none.
abbrev pub IsWithin : Config → Pool → Type 0
IsWithin config p = 0 < config.connection_limit → length p.all_connections ≤ config.connection_limit

length-splice_connection : (cs : List ℕ) (c : ℕ) → length (splice_connection cs c) ≤ length cs
unfolding splice_connection
length-splice_connection [] c = omega arith
length-splice_connection (d ∷ ds) c =
    if-elim (λ es. length es ≤ suc (length ds)) (d == c) ds (d ∷ splice_connection ds c)
      (λ y. omega arith) (λ n. omega (arith, length-splice_connection ds c))

module _ (config : Config) where
  fewer :
      (p q : Pool)
      → length q.all_connections ≤ length p.all_connections
      → IsWithin config p
      → IsWithin config q
  fewer p q h v l = omega (arith, v l)

  create_connection-IsWithin :
      (cb : ℕ) (p : Pool)
      → (config.connection_limit == 0) || ltb (length p.all_connections) config.connection_limit
        ≡ true
      → IsWithin config (create_connection cb p)
  unfolding create_connection
  create_connection-IsWithin cb p h l =
      let room : length p.all_connections < config.connection_limit = ground arith in
      omega (arith, length-append p.all_connections (p.created ∷ []))

  get_connection-IsWithin :
      (cb : ℕ) (p : Pool) → IsWithin config p → IsWithin config (get_connection config cb p)
  unfolding get_connection
  get_connection-IsWithin cb p v =
      let free = length p.free_connections in
      if-elim (IsWithin config) p.closed _ _ (λ y. v)
        (λ n.
          if-elim (IsWithin config) (ltb 0 free) _ _ (λ y. v)
            (λ n.
              if-elim (IsWithin config)
                ((config.connection_limit == 0)
                  || ltb (length p.all_connections) config.connection_limit)
                _ _ (λ y. create_connection-IsWithin cb p y)
                (λ n.
                  if-elim (IsWithin config) (not config.wait_for_connections) _ _ (λ y. v)
                    (λ n.
                      if-elim (IsWithin config)
                        (not (config.queue_limit == 0)
                          && leb config.queue_limit (length p.connection_queue))
                        _ _ (λ y. v) (λ n. v)))))

  retry_waiting-IsWithin :
      (cbs : List ℕ) (p : Pool) → IsWithin config p → IsWithin config (retry_waiting cbs p)
  unfolding retry_waiting
  retry_waiting-IsWithin [] p v = v
  retry_waiting-IsWithin (cb ∷ cbs) p v = v

  hand_over-IsWithin :
      (cbs : List ℕ) (c : ℕ) (p : Pool) → IsWithin config p → IsWithin config (hand_over cbs c p)
  unfolding hand_over
  hand_over-IsWithin [] c p v = v
  hand_over-IsWithin (cb ∷ cbs) c p v = v

  release_connection-IsWithin :
      (c : ℕ) (p : Pool) → IsWithin config p → IsWithin config (release_connection config c p)
  unfolding release_connection
  release_connection-IsWithin c p v =
      if-elim (IsWithin config) (not (p.attached c)) _ _
        (λ y. retry_waiting-IsWithin p.connection_queue p v)
        (λ n.
          if-elim (IsWithin config) config.reset_on_release _ _ (λ y. v)
            (λ n. hand_over-IsWithin p.connection_queue c p v))

  release-IsWithin : (c : ℕ) (p : Pool) → IsWithin config p → IsWithin config (release config c p)
  unfolding release
  release-IsWithin c p v =
      if-elim (IsWithin config) (p.released c) _ _ (λ y. v)
        (λ n.
          if-elim (IsWithin config) (not (p.attached c) || p.closed) _ _ (λ y. v)
            (λ n.
              release_connection-IsWithin c (record p { released = update p.released c true }) v))

  remove_from_pool-IsWithin :
      (c : ℕ) (p : Pool) → IsWithin config p → IsWithin config (remove_from_pool config c p)
  unfolding remove_from_pool
  remove_from_pool-IsWithin c p v =
      if-elim (IsWithin config) (not (p.attached c) || p.closed) _ _ (λ y. v)
        (λ n. release_connection-IsWithin c _ (
          fewer p
            (record p {
              attached = update p.attached c false;
              all_connections = splice_connection p.all_connections c;
              free_connections = splice_connection p.free_connections c;
            })
            (length-splice_connection p.all_connections c) v))

  reset_done-IsWithin :
      (c : ℕ) (failed : Bool) (p : Pool)
      → IsWithin config p
      → IsWithin config (reset_done c failed p)
  unfolding reset_done
  reset_done-IsWithin c failed p v =
      if-elim (IsWithin config) failed _ _
        (λ y. retry_waiting-IsWithin p.connection_queue _ (
          fewer p
            (record p {
              attached = update p.attached c false;
              all_connections = splice_connection p.all_connections c;
            })
            (length-splice_connection p.all_connections c) v))
        (λ n. hand_over-IsWithin p.connection_queue c p v)

  connected-IsWithin :
      (cb c : ℕ) (failed : Bool) (p : Pool)
      → IsWithin config p
      → IsWithin config (connected cb c failed p)
  unfolding connected
  connected-IsWithin cb c failed p v =
      if-elim (IsWithin config) p.closed _ _ (λ y. v)
        (λ n. if-elim (IsWithin config) failed _ _ (λ y. v) (λ n. v))

  run_task-IsWithin :
      (t : Task) (p : Pool) → IsWithin config p → IsWithin config (run_task config t p)
  unfolding run_task
  run_task-IsWithin (give cb c) p v = v
  run_task-IsWithin (retry cb) p v = get_connection-IsWithin cb p v
  run_task-IsWithin (refuse cb reason) p v = v

  Happens-IsWithin : (a b : Pool) → Happens config a b → IsWithin config a → IsWithin config b
  unfolding end
  Happens-IsWithin a b (gets cb p) v = get_connection-IsWithin cb p v
  Happens-IsWithin a b (releases c p) v = release-IsWithin c p v
  Happens-IsWithin a b (removes c p) v = remove_from_pool-IsWithin c p v
  Happens-IsWithin a b (ends p) v = v
  Happens-IsWithin a b (ticks t ts p) v = run_task-IsWithin t (record p { tasks = ts }) v
  Happens-IsWithin a b (connects cb c failed before behind p) v =
      connected-IsWithin cb c failed (record p { connecting = before ++ behind }) v
  Happens-IsWithin a b (resets c failed before behind p) v =
      reset_done-IsWithin c failed (record p { resetting = before ++ behind }) v

  Reaches-go : (a b : Pool) → Reaches config a b → IsWithin config a → IsWithin config b
  Reaches-go a b (here p) v = v
  Reaches-go a b (after r h) v = Happens-IsWithin _ _ h (Reaches-go _ _ r v)

  -- In every state that a new pool reaches, by calls of getConnection, release, destroy and end, by
  -- tasks of the event loop and answers of the server in any order, the pool has at most as many
  -- connections as its limit, if the limit is not 0.
  pub all_connections-le :
      (p : Pool)
      → Reaches config new_pool p
      → 0 < config.connection_limit
      → length p.all_connections ≤ config.connection_limit
  unfolding new_pool
  all_connections-le p r l = Reaches-go new_pool p r (λ l. omega arith) l
