-- ===== src/Pool/Steps.antt =====
-- Every step of lib/base/pool.js keeps a connection out of two hands.
use node_mysql.Prelude.{
  ℕ, ◌+◌, ◌≤◌, ◌≡◌, refl, sym, ap, ◌∙◌, Bool, true, false, not, ◌||◌, List, [], ◌∷◌, ◌++◌, arith,
  ◌==◌, ==_iff, if-elim, map,
}
use node_mysql.Pool.{
  Config, pool_closed, connect_failed, Task, give, retry, refuse, granted, refused, Pool, update,
  new_pool, splice_connection, connected, release_connection, reset_done, release, remove_from_pool,
  end, run_task, Happens, gets, releases, removes, ends, ticks, connects, resets, Reaches, here,
  after,
}
use node_mysql.Pool.Sound.{
  hit, occurrences-append, giving-append, giving-refuse, occurrences-splice_connection, one, hands,
  IsSound, true-false, one-update-false, new_pool-IsSound, same_hands, answer-IsSound,
  get_connection-IsSound, retry_waiting-IsSound, hand_over-TakesIn, marked-IsSound,
}

not_or : (a b : Bool) → not a || b ≡ false → a ≡ true
not_or true b h = refl
not_or false b h = absurd (true-false h)

release-IsSound : (config : Config) (c : ℕ) (p : Pool) → IsSound p → IsSound (release config c p)
unfolding release release_connection
release-IsSound config c p v =
    if-elim IsSound (p.released c) _ _ (λ y. v)
      (λ free.
        if-elim IsSound (not (p.attached c) || p.closed) _ _ (λ y. v)
          (λ n.
            let held = not_or (p.attached c) p.closed n in
            let p1 : Pool = record p { released = update p.released c true } in
            if-elim IsSound (not (p.attached c)) _ _
              (λ y. absurd (true-false (sym y ∙ ap not held)))
              (λ n.
                if-elim IsSound config.reset_on_release _ _
                  (λ y. marked-IsSound p _ c v free held record {
                    hands_more = λ x. omega (arith, occurrences-append x p.resetting (c ∷ []));
                    same_released = refl;
                    same_attached = refl;
                    same_created = refl;
                  })
                  (λ n.
                    marked-IsSound p _ c v free held (hand_over-TakesIn p.connection_queue c p1)))))

-- A connection that is no longer attached.
detached-IsSound :
    (c : ℕ) (p q : Pool)
    → IsSound p
    → ((x : ℕ) → hands q x ≤ hands p x)
    → q.released ≡ p.released
    → q.attached ≡ update p.attached c false
    → q.created ≡ p.created
    → IsSound q
detached-IsSound c p q v h r a e = record {
  once = λ x. omega (arith, v.once x, h x, ap (λ f. one (f x)) r);
  fresh = λ x l.
      let (d, f) = v.fresh x (omega arith) in
      (
        ap (λ g. g x) a
            ∙ if-elim (λ b. b ≡ false) (x == c) false (p.attached x) (λ y. refl) (λ n. d),
        ap (λ g. g x) r ∙ f,
      );
}

remove_from_pool-IsSound :
    (config : Config) (c : ℕ) (p : Pool) → IsSound p → IsSound (remove_from_pool config c p)
unfolding remove_from_pool release_connection
remove_from_pool-IsSound config c p v =
    if-elim IsSound (not (p.attached c) || p.closed) _ _ (λ y. v)
      (λ n.
        let p1 : Pool = record p {
          attached = update p.attached c false;
          all_connections = splice_connection p.all_connections c;
          free_connections = splice_connection p.free_connections c;
        } in
        let v1 : IsSound p1 =
          detached-IsSound c p p1 v
            (λ x. omega (arith, occurrences-splice_connection x c p.free_connections)) refl refl
            refl in
        let off : update p.attached c false c ≡ false =
          if-elim (λ b. b ≡ false) (c == c) false (p.attached c) (λ y. refl)
            (λ n. absurd (true-false (sym ((==_iff c c).1 refl) ∙ n))) in
        if-elim IsSound (not (update p.attached c false c)) _ _
          (λ y. retry_waiting-IsSound p.connection_queue p1 v1)
          (λ n. absurd (true-false (sym (ap not off) ∙ n))))

reset_done-IsSound :
    (c : ℕ) (failed : Bool) (before behind : List ℕ) (p : Pool)
    → IsSound (record p { resetting = before ++ (c ∷ behind) })
    → IsSound (reset_done c failed (record p { resetting = before ++ behind }))
unfolding reset_done
reset_done-IsSound c failed before behind p v =
    let p0 : Pool = record p { resetting = before ++ (c ∷ behind) } in
    let p1 : Pool = record p { resetting = before ++ behind } in
    let more : (x : ℕ) → hands p1 x + hit c x ≡ hands p0 x = λ x.
      omega (arith, occurrences-append x before (c ∷ behind), occurrences-append x before behind) in
    if-elim IsSound failed _ _
      (λ y.
        retry_waiting-IsSound p.connection_queue _
          (detached-IsSound c p0 _ v (λ x. omega (arith, more x)) refl refl refl))
      (λ n.
        let t = hand_over-TakesIn p.connection_queue c p1 in
        same_hands p0 _ v (λ x. omega (arith, t.hands_more x, more x)) t.same_released
          t.same_attached t.same_created)

end-IsSound : (p : Pool) → IsSound p → IsSound (end p)
unfolding end
end-IsSound p v =
    same_hands p (end p) v
      (λ x. omega (
        arith,
        giving-append x p.tasks (map (λ cb. refuse cb pool_closed) p.connection_queue),
        giving-refuse x p.connection_queue,
      ))
      refl refl refl

connected-IsSound :
    (cb c : ℕ) (failed : Bool) (p : Pool) → IsSound p → IsSound (connected cb c failed p)
unfolding connected
connected-IsSound cb c failed p v =
    if-elim IsSound p.closed _ _ (λ y. answer-IsSound (refused cb pool_closed) p v)
      (λ n.
        if-elim IsSound failed _ _ (λ y. answer-IsSound (refused cb connect_failed) p v)
          (λ n. answer-IsSound (granted cb c) p v))

run_task-IsSound :
    (config : Config) (t : Task) (ts : List Task) (p : Pool)
    → IsSound (record p { tasks = t ∷ ts })
    → IsSound (run_task config t (record p { tasks = ts }))
unfolding run_task
run_task-IsSound config (give cb c) ts p v = record {
  once = λ x.
      one-update-false p.released c x (hands (record p { tasks = ts }) x) (omega (arith, v.once x));
  fresh = λ x l.
      let (d, f) = v.fresh x l in
      (d, if-elim (λ b. b ≡ false) (x == c) false (p.released x) (λ y. refl) (λ n. f));
}
run_task-IsSound config (retry cb) ts p v =
    get_connection-IsSound config cb (record p { tasks = ts })
      (same_hands (record p { tasks = retry cb ∷ ts }) (record p { tasks = ts }) v
        (λ x. omega arith) refl refl refl)
run_task-IsSound config (refuse cb reason) ts p v =
    answer-IsSound (refused cb reason) (record p { tasks = ts })
      (same_hands (record p { tasks = refuse cb reason ∷ ts }) (record p { tasks = ts }) v
        (λ x. omega arith) refl refl refl)

Happens-IsSound : (config : Config) (a b : Pool) → Happens config a b → IsSound a → IsSound b
Happens-IsSound config a b (gets cb p) v = get_connection-IsSound config cb p v
Happens-IsSound config a b (releases c p) v = release-IsSound config c p v
Happens-IsSound config a b (removes c p) v = remove_from_pool-IsSound config c p v
Happens-IsSound config a b (ends p) v = end-IsSound p v
Happens-IsSound config a b (ticks t ts p) v = run_task-IsSound config t ts p v
Happens-IsSound config a b (connects cb c failed before behind p) v =
    connected-IsSound cb c failed _ (same_hands _ _ v (λ x. omega arith) refl refl refl)
Happens-IsSound config a b (resets c failed before behind p) v =
    reset_done-IsSound c failed before behind p v

-- In every state that a new pool reaches, by calls of getConnection, release, destroy and end, by
-- tasks of the event loop and answers of the server in any order: a connection that is released is
-- at most once free, on its way to a callback or being reset, and one that is not, so that a user
-- may have it, is in none of these places.
pub Reaches-IsSound : (config : Config) (p : Pool) → Reaches config new_pool p → IsSound p
Reaches-IsSound config p r = go new_pool p r new_pool-IsSound
  where
    go : (a b : Pool) → Reaches config a b → IsSound a → IsSound b
    go a b (here p) v = v
    go a b (after r h) v = Happens-IsSound config _ _ h (go _ _ r v)
