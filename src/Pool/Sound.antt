-- ===== src/Pool/Sound.antt =====
-- No connection of lib/base/pool.js is in two hands at once.
use node_mysql.Prelude.{
  ℕ, suc, ◌+◌, ◌-◌, ◌≤◌, ◌<◌, ◌≡◌, refl, sym, ap, ◌∙◌, Bool, true, false, not, ◌||◌, ◌&&◌, inl, inr,
  Bool-cases, List, [], ◌∷◌, ◌++◌, arith, ltb, leb, ◌==◌, ==_iff, if◌then◌else◌, if-elim, length,
  get_or, take, map,
}
use node_mysql.Pool.{
  Config, pool_closed, no_connections, queue_limit_reached, Task, give, retry, refuse, Answer,
  refused, Pool, update, new_pool, splice_connection, next_tick, answer, create_connection,
  get_connection, retry_waiting, hand_over,
}

-- The occurrences of a connection in a list, and in the tasks that give one.
abbrev pub hit : ℕ → ℕ → ℕ
hit c x = if x == c then 1 else 0

abbrev pub occurrences : ℕ → List ℕ → ℕ
occurrences x [] = 0
occurrences x (c ∷ cs) = hit c x + occurrences x cs

abbrev pub giving : ℕ → List Task → ℕ
giving x [] = 0
giving x (give cb c ∷ ts) = hit c x + giving x ts
giving x (retry cb ∷ ts) = giving x ts
giving x (refuse cb reason ∷ ts) = giving x ts

pub occurrences-append :
    (x : ℕ) (cs ds : List ℕ) → occurrences x (cs ++ ds) ≡ occurrences x cs + occurrences x ds
occurrences-append x [] ds = omega arith
occurrences-append x (c ∷ cs) ds = omega (arith, occurrences-append x cs ds)

pub giving-append : (x : ℕ) (ts us : List Task) → giving x (ts ++ us) ≡ giving x ts + giving x us
giving-append x [] us = omega arith
giving-append x (give cb c ∷ ts) us = omega (arith, giving-append x ts us)
giving-append x (retry cb ∷ ts) us = giving-append x ts us
giving-append x (refuse cb reason ∷ ts) us = giving-append x ts us

pub giving-refuse : (x : ℕ) (cbs : List ℕ) → giving x (map (λ cb. refuse cb pool_closed) cbs) ≡ 0
giving-refuse x [] = refl
giving-refuse x (cb ∷ cbs) = giving-refuse x cbs

pub occurrences-splice_connection :
    (x c : ℕ) (cs : List ℕ) → occurrences x (splice_connection cs c) ≤ occurrences x cs
unfolding splice_connection
occurrences-splice_connection x c [] = omega arith
occurrences-splice_connection x c (d ∷ ds) =
    if-elim (λ es. occurrences x es ≤ hit d x + occurrences x ds) (d == c) ds
      (d ∷ splice_connection ds c) (λ y. omega arith)
      (λ n. omega (arith, occurrences-splice_connection x c ds))

-- The last connection of a list and those before it.
occurrences-take :
    (x : ℕ) (cs : List ℕ)
    → 0 < length cs
    → occurrences x (take (length cs - 1) cs) + hit (get_or cs (length cs - 1) 0) x
      ≡ occurrences x cs
occurrences-take x [] h = absurd (omega arith)
occurrences-take x (c ∷ []) h = omega arith
occurrences-take x (c ∷ d ∷ ds) h =
    let next : length (c ∷ d ∷ ds) - 1 ≡ suc (length (d ∷ ds) - 1) = omega arith in
    ap (λ n. occurrences x (take n (c ∷ d ∷ ds)) + hit (get_or (c ∷ d ∷ ds) n 0) x) next
    ∙ omega (arith, occurrences-take x (d ∷ ds) (omega arith))

abbrev pub one : Bool → ℕ
one b = if b then 1 else 0

-- The hands of the pool that hold a connection: it is free, about to be given, or being reset.
abbrev pub hands : Pool → ℕ → ℕ
hands p x = occurrences x p.free_connections + giving x p.tasks + occurrences x p.resetting

-- A connection that is not released, so that a user may have it, is in no hand of the pool; one that
-- is released is in one at most. A number that is not yet given to a connection is not in use.
pub record IsSound (p : Pool) : Type 0 where
  pub once : (x : ℕ) → hands p x ≤ one (p.released x)
  pub fresh : (x : ℕ) → p.created ≤ x → (p.attached x ≡ false) × (p.released x ≡ false)

pub true-false : true ≡ false → ⊥
true-false e = cc

one-update-true :
    (f : ℕ → Bool) (c x n : ℕ) → n ≤ one (f x) → f c ≡ false → n + hit c x ≤ one (update f c true x)
one-update-true f c x n h e = elim (Bool-cases (x == c)) [
  | inl y ↦ let same = ap f ((==_iff x c).0 y) ∙ e in rw y (omega (arith, ap one same))
  | inr other ↦ rw other (omega arith)
]

one-le : (b : Bool) → one b ≤ 1
one-le true = omega arith
one-le false = omega arith

pub one-update-false :
    (f : ℕ → Bool) (c x n : ℕ) → hit c x + n ≤ one (f x) → n ≤ one (update f c false x)
one-update-false f c x n h = elim (Bool-cases (x == c)) [
  | inl y ↦ let hits : hit c x ≡ 1 = ap one y in rw y (omega (arith, one-le (f x), hits))
  | inr other ↦ rw other (omega arith)
]

one-update_fresh :
    (f : ℕ → Bool) (c x n : ℕ) → n ≤ one (f x) → f c ≡ false → n ≤ one (update f c false x)
one-update_fresh f c x n h e = elim (Bool-cases (x == c)) [
  | inl y ↦ let same = ap f ((==_iff x c).0 y) ∙ e in rw y (omega (arith, ap one same))
  | inr other ↦ rw other (omega arith)
]

pub new_pool-IsSound : IsSound new_pool
unfolding new_pool
new_pool-IsSound = record { once = λ x. omega arith; fresh = λ x h. (refl, refl) }

-- A pool that differs in no hand and in no mark of a connection.
pub same_hands :
    (p q : Pool)
    → IsSound p
    → ((x : ℕ) → hands q x ≤ hands p x)
    → q.released ≡ p.released
    → q.attached ≡ p.attached
    → q.created ≡ p.created
    → IsSound q
same_hands p q v h r a c = record {
  once = λ x. omega (arith, v.once x, h x, ap (λ f. one (f x)) r);
  fresh = λ x l. let (e, f) = v.fresh x (omega arith) in (ap (λ f. f x) a ∙ e, ap (λ f. f x) r ∙ f);
}

-- A task that gives no connection.
pub next_tick-IsSound :
    (t : Task) (p : Pool) → ((x : ℕ) → giving x (t ∷ []) ≡ 0) → IsSound p → IsSound (next_tick t p)
next_tick-IsSound t p h v =
    same_hands p (next_tick t p) v (λ x. omega (arith, giving-append x p.tasks (t ∷ []), h x)) refl
      refl refl

pub answer-IsSound : (a : Answer) (p : Pool) → IsSound p → IsSound (answer a p)
answer-IsSound a p v = same_hands p (answer a p) v (λ x. omega arith) refl refl refl

create_connection-IsSound : (cb : ℕ) (p : Pool) → IsSound p → IsSound (create_connection cb p)
unfolding create_connection
create_connection-IsSound cb p v = record {
  once = λ x.
      one-update_fresh p.released p.created x (hands p x) (v.once x)
        (v.fresh p.created (omega arith)).1;
  fresh = λ x l.
      let (e, f) = v.fresh x (omega arith) in
      let other : (x == p.created) ≡ false = ground arith in
      (
        ap (λ b. if b then true else p.attached x) other ∙ e,
        ap (λ b. if b then false else p.released x) other ∙ f,
      );
}

-- The last free connection is on its way to a callback.
pop_given-IsSound :
    (cb : ℕ) (p : Pool)
    → 0 < length p.free_connections
    → IsSound p
    → let free = length p.free_connections in
      IsSound (
        next_tick
          (give cb (get_or p.free_connections (free - 1) 0))
          (record p { free_connections = take (free - 1) p.free_connections }))
pop_given-IsSound cb p h v =
    let c = get_or p.free_connections (length p.free_connections - 1) 0 in
    same_hands p _ v
      (λ x.
        omega (
          arith,
          occurrences-take x p.free_connections h,
          giving-append x p.tasks (give cb c ∷ []),
        ))
      refl refl refl

pub get_connection-IsSound :
    (config : Config) (cb : ℕ) (p : Pool) → IsSound p → IsSound (get_connection config cb p)
unfolding get_connection
get_connection-IsSound config cb p v =
    let free = length p.free_connections in
    if-elim IsSound p.closed _ _ (λ y. next_tick-IsSound (refuse cb pool_closed) p (λ x. refl) v)
      (λ n.
        if-elim IsSound (ltb 0 free) _ _ (λ y. pop_given-IsSound cb p (ground arith) v)
          (λ n.
            if-elim IsSound
              ((config.connection_limit == 0)
                || ltb (length p.all_connections) config.connection_limit)
              _ _ (λ y. create_connection-IsSound cb p v)
              (λ n.
                if-elim IsSound (not config.wait_for_connections) _ _
                  (λ y. next_tick-IsSound (refuse cb no_connections) p (λ x. refl) v)
                  (λ n.
                    if-elim IsSound
                      (not (config.queue_limit == 0)
                        && leb config.queue_limit (length p.connection_queue))
                      _ _ (λ y. answer-IsSound (refused cb queue_limit_reached) p v)
                      (λ n. same_hands p _ v (λ x. omega arith) refl refl refl)))))

pub retry_waiting-IsSound : (cbs : List ℕ) (p : Pool) → IsSound p → IsSound (retry_waiting cbs p)
unfolding retry_waiting
retry_waiting-IsSound [] p v = v
retry_waiting-IsSound (cb ∷ cbs) p v =
    next_tick-IsSound (retry cb) (record p { connection_queue = cbs }) (λ x. refl)
      (same_hands p (record p { connection_queue = cbs }) v (λ x. omega arith) refl refl refl)

-- A connection that comes into a hand: `p` is the pool without it.
pub record TakesIn (p q : Pool) (c : ℕ) : Type 0 where
  pub hands_more : (x : ℕ) → hands q x ≤ hands p x + hit c x
  pub same_released : q.released ≡ p.released
  pub same_attached : q.attached ≡ p.attached
  pub same_created : q.created ≡ p.created

pub hand_over-TakesIn : (cbs : List ℕ) (c : ℕ) (p : Pool) → TakesIn p (hand_over cbs c p) c
unfolding hand_over
hand_over-TakesIn [] c p = record {
  hands_more = λ x. omega (arith, occurrences-append x p.free_connections (c ∷ []));
  same_released = refl;
  same_attached = refl;
  same_created = refl;
}
hand_over-TakesIn (cb ∷ cbs) c p = record {
  hands_more = λ x. omega (arith, giving-append x p.tasks (give cb c ∷ []));
  same_released = refl;
  same_attached = refl;
  same_created = refl;
}

-- The connection is marked as it comes in.
pub marked-IsSound :
    (p q : Pool) (c : ℕ)
    → IsSound p
    → p.released c ≡ false
    → p.attached c ≡ true
    → TakesIn (record p { released = update p.released c true }) q c
    → IsSound q
marked-IsSound p q c v e a t = record {
  once = λ x. omega (
    arith,
    t.hands_more x,
    one-update-true p.released c x (hands p x) (v.once x) e,
    ap (λ f. one (f x)) t.same_released,
  );
  fresh = λ x l.
      let (d, f) = v.fresh x (omega (arith, t.same_created)) in
      let other : (x == c) ≡ false = elim (Bool-cases (x == c)) [
        | inl y ↦ absurd (true-false (sym a ∙ ap p.attached (sym ((==_iff x c).0 y)) ∙ d))
        | inr n ↦ n
      ] in
      (
        ap (λ g. g x) t.same_attached ∙ d,
        ap (λ g. g x) t.same_released ∙ ap (λ b. if b then true else p.released x) other ∙ f,
      );
}
