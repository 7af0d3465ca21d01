-- ===== src/RingQueue/Gap.antt =====
-- The loops of `removeOne` in lib/ring_queue.js, which close the gap from the nearer end.
use node_mysql.Prelude.{
  ℕ, zero, suc, ◌+◌, ◌-◌, ◌≤◌, ◌<◌, ◌≡◌, refl, ap, ap₂, sym, ◌∙◌, Option, none, List, ◌++◌, [], ◌∷◌,
  arith, length, replicate, power, wrap, set, get_or, take, drop, append-nil, append_assoc,
  length-append, length-set, length-take, length-drop, and_add, and_add-wrap, and_sub, and_sub-wrap,
  subst, take-append_left, drop-append_left,
}
use node_mysql.RingQueue.{move_up, move_down}
use node_mysql.RingQueue.Rotate.{rotate, rotate-set, get_or-rotate, set-middle, take-set_behind}
use node_mysql.RingQueue.Holds.{Ring}

-- A list without the element at a place.
abbrev pub without {ℓ} : {A : Type ℓ} → ℕ → List A → List A
without i xs = take i xs ++ drop (suc i) xs

module _ {ℓ} {A : Type ℓ} where
  -- The moves, seen from the head.
  up : ℕ → List (Option A) → List (Option A)
  up zero r = r
  up (suc k) r = up k (set r (suc k) (get_or r k none))

  down : ℕ → ℕ → List (Option A) → List (Option A)
  down zero i r = r
  down (suc n) i r = down n (suc i) (set r i (get_or r (suc i) none))

  length-up : (k : ℕ) (r : List (Option A)) → length (up k r) ≡ length r
  unfolding up
  length-up zero r = refl
  length-up (suc k) r =
      length-up k (set r (suc k) (get_or r k none)) ∙ length-set r (suc k) (get_or r k none)

  pub take-step :
      (k : ℕ) (r : List (Option A))
      → k < length r
      → take (suc k) r ≡ take k r ++ (get_or r k none ∷ [])
  take-step k [] h = absurd (omega arith)
  take-step zero (x ∷ r) h = refl
  take-step (suc k) (x ∷ r) h = ap (x ∷◌) (take-step k r (omega arith))

  drop-set_self :
      (n : ℕ) (r : List (Option A)) (v : Option A)
      → n < length r
      → drop n (set r n v) ≡ v ∷ drop (suc n) r
  drop-set_self n [] v h = absurd (omega arith)
  drop-set_self zero (x ∷ r) v h = refl
  drop-set_self (suc n) (x ∷ r) v h = drop-set_self n r v (omega arith)

  get_or-second :
      (a c : List (Option A)) (x y : Option A) → get_or (a ++ (x ∷ y ∷ c)) (suc (length a)) none ≡ y
  get_or-second [] c x y = refl
  get_or-second (b ∷ a) c x y = get_or-second a c x y

  -- All elements before the gap have moved up one place.
  drop-up : (k : ℕ) (r : List (Option A)) → k < length r → drop 1 (up k r) ≡ without k r
  unfolding up
  drop-up zero [] h = absurd (omega arith)
  drop-up zero (x ∷ r) h = refl
  drop-up (suc k) r h =
      let v = get_or r k none in
      let r1 = set r (suc k) v in
      let at_gap : drop (suc k) r1 ≡ v ∷ drop (suc (suc k)) r =
        drop-set_self (suc k) r v (omega arith) in
      drop-up k r1 (omega (arith, length-set r (suc k) v))
      ∙ ap₂ (◌++◌) (take-set_behind k (suc k) r v (omega arith)) at_gap
      ∙ sym (append_assoc (take k r) (v ∷ []) (drop (suc (suc k)) r))
      ∙ ap (λ ys. ys ++ drop (suc (suc k)) r) (sym (take-step k r (omega arith)))

  -- All elements behind the gap have moved down one place.
  down-append :
      (a : List (Option A)) (x : Option A) (b c : List (Option A))
      → (z : Option A) × (down (length b) (length a) (a ++ (x ∷ (b ++ c)))
          ≡ ((a ++ b) ++ (z ∷ [])) ++ c)
  unfolding down
  down-append a x [] c =
      (x, sym (append_assoc a (x ∷ []) c) ∙ ap (λ ys. (ys ++ (x ∷ [])) ++ c) (sym (append-nil a)))
  down-append a x (y ∷ b) c =
      let next : suc (length a) ≡ length (a ++ (y ∷ [])) =
        omega (arith, length-append a (y ∷ [])) in
      let (z, e) = down-append (a ++ (y ∷ [])) y b c in
      (
        z,
        ap (λ v. down (length b) (suc (length a)) (set (a ++ (x ∷ y ∷ (b ++ c))) (length a) v))
              (get_or-second a (b ++ c) x y)
            ∙ ap (down (length b) (suc (length a))) (set-middle a (y ∷ (b ++ c)) x y)
            ∙ ap₂ (down (length b)) next (sym (append_assoc a (y ∷ []) (y ∷ (b ++ c))))
            ∙ e
            ∙ ap (λ ys. (ys ++ (z ∷ [])) ++ c) (append_assoc a (y ∷ []) b),
      )

module _ {ℓ} {A : Type ℓ} (k : ℕ) (head : ℕ) (bound : k ≤ 30) (inside : head < power k) where
  -- The loops do in the array what the moves do from the head on.
  move_up-up :
      (moves : ℕ) (list : List (Option A))
      → length list ≡ power k
      → moves < power k
      → let (list', slot) = move_up moves list (wrap (power k) (head + moves)) (power k - 1) in
        (length list' ≡ power k) × (slot ≡ head) × (rotate list' head ≡ up moves (rotate list head))
  unfolding move_up up
  move_up-up zero list c h = (c, ground arith, refl)
  move_up-up (suc moves) list c h =
      let slot = wrap (power k) (head + suc moves) in
      let previous : and_sub slot 1 (power k - 1) ≡ wrap (power k) (head + moves) =
        and_sub-wrap k bound slot 1 (ground arith) (omega arith) ∙ ground arith in
      let value : get_or list (wrap (power k) (head + moves)) none
          ≡ get_or (rotate list head) moves none =
        ap (λ n. get_or list (wrap n (head + moves)) none) (sym c)
        ∙ get_or-rotate list head moves (omega arith) (omega arith) none in
      let v = get_or list (wrap (power k) (head + moves)) none in
      let list1 = set list slot v in
      let write : rotate list1 head
          ≡ set (rotate list head) (suc moves) (get_or (rotate list head) moves none) =
        ap (λ n. rotate (set list (wrap n (head + suc moves)) v) head) (sym c)
        ∙ rotate-set list head (suc moves) (omega arith) (omega arith) v
        ∙ ap (set (rotate list head) (suc moves)) value in
      let (c', s', e') = move_up-up moves list1 (length-set list slot v ∙ c) (omega arith) in
      subst
        (λ p.
          let (list', last) = move_up moves (set list slot (get_or list p none)) p (power k - 1) in
          (length list' ≡ power k)
          × (last ≡ head)
          × (rotate list' head ≡ up (suc moves) (rotate list head)))
        (sym previous) (c', s', e' ∙ ap (up moves) write)

  move_down-down :
      (moves i : ℕ) (list : List (Option A))
      → length list ≡ power k
      → i + moves < power k
      → let (list', slot) = move_down moves list (wrap (power k) (head + i)) (power k - 1) in
        (length list' ≡ power k)
        × (slot ≡ wrap (power k) (head + (i + moves)))
        × (rotate list' head ≡ down moves i (rotate list head))
  unfolding move_down down
  move_down-down zero i list c h = (c, ap (λ n. wrap (power k) (head + n)) (omega arith), refl)
  move_down-down (suc moves) i list c h =
      let slot = wrap (power k) (head + i) in
      let next : and_add slot 1 (power k - 1) ≡ wrap (power k) (head + suc i) =
        and_add-wrap k bound slot 1 (ground arith) ∙ ground arith in
      let value : get_or list (wrap (power k) (head + suc i)) none
          ≡ get_or (rotate list head) (suc i) none =
        ap (λ n. get_or list (wrap n (head + suc i)) none) (sym c)
        ∙ get_or-rotate list head (suc i) (omega arith) (omega arith) none in
      let v = get_or list (wrap (power k) (head + suc i)) none in
      let list1 = set list slot v in
      let write : rotate list1 head
          ≡ set (rotate list head) i (get_or (rotate list head) (suc i) none) =
        ap (λ n. rotate (set list (wrap n (head + i)) v) head) (sym c)
        ∙ rotate-set list head i (omega arith) (omega arith) v
        ∙ ap (set (rotate list head) i) value in
      let (c', s', e') =
        move_down-down moves (suc i) list1 (length-set list slot v ∙ c) (omega arith) in
      subst
        (λ p.
          let (list', last) =
            move_down moves (set list slot (get_or list p none)) p (power k - 1) in
          (length list' ≡ power k)
          × (last ≡ wrap (power k) (head + (i + suc moves)))
          × (rotate list' head ≡ down (suc moves) i (rotate list head)))
        (sym next)
        (
          c',
          s'
              ∙ ap (λ n. wrap (power k) (head + n)) {x = suc i + moves} {y = i + suc moves}
                  (omega arith),
          e' ∙ ap (down moves (suc i)) write,
        )

module _ {ℓ} {A : Type ℓ} where
  pub split_at :
      (i : ℕ) (xs : List (Option A))
      → i < length xs
      → xs ≡ take i xs ++ (get_or xs i none ∷ drop (suc i) xs)
  split_at i [] h = absurd (omega arith)
  split_at zero (x ∷ xs) h = refl
  split_at (suc i) (x ∷ xs) h = ap (x ∷◌) (split_at i xs (omega arith))

  cons-of-drop :
      (r ys : List (Option A)) → 0 < length r → drop 1 r ≡ ys → (z : Option A) × (r ≡ z ∷ ys)
  cons-of-drop [] ys h e = absurd (omega arith)
  cons-of-drop (z ∷ r) ys h e = (z, ap (z ∷◌) e)

  pub length-without :
      (i : ℕ) (xs : List (Option A)) → i < length xs → suc (length (without i xs)) ≡ length xs
  length-without i xs h =
      omega (
        arith,
        length-append (take i xs) (drop (suc i) xs),
        length-take i xs,
        length-drop (suc i) xs,
      )

  -- After the moves up the first slot is the one to give back.
  pub Ring-up :
      (k : ℕ) (list : List (Option A)) (head : ℕ) (xs : List (Option A)) (i : ℕ)
      → Ring k list head xs
      → i < length xs
      → let (list', slot) = move_up i list (wrap (power k) (head + i)) (power k - 1) in
        (slot ≡ head) × (z : Option A) × Ring k list' head (z ∷ without i xs)
  Ring-up k list head xs i r l =
      let c = r.capacity in
      let f = r.fits in
      let m = power k - length xs in
      let (c', s, e) = move_up-up k head r.bound r.inside i list c (omega arith) in
      let full : up i (rotate list head) ≡ up i (xs ++ replicate m none) = ap (up i) r.slots in
      let tail : drop 1 (up i (xs ++ replicate m none)) ≡ without i xs ++ replicate m none =
        drop-up i (xs ++ replicate m none) (omega (arith, length-append xs (replicate m none)))
        ∙ ap₂ (◌++◌) (take-append_left i xs (replicate m none) (omega arith))
            (drop-append_left (suc i) xs (replicate m none) (omega arith))
        ∙ sym (append_assoc (take i xs) (drop (suc i) xs) (replicate m none)) in
      let (z, ez) =
        cons-of-drop (up i (xs ++ replicate m none)) (without i xs ++ replicate m none)
          (omega (arith, length-up i (xs ++ replicate m none), length-append xs (replicate m none)))
          tail in
      let n = length-without i xs l in
      (
        s,
        z,
        record {
          bound = r.bound;
          capacity = c';
          inside = r.inside;
          fits = omega arith;
          slots =
              e
              ∙ full
              ∙ ez
              ∙ ap (λ n. z ∷ (without i xs ++ replicate n none)) {x = m}
                  {y = power k - length (z ∷ without i xs)} (omega arith);
        },
      )

  -- After the moves down the last slot with an element is the one to give back.
  pub Ring-down :
      (k : ℕ) (list : List (Option A)) (head : ℕ) (xs : List (Option A)) (i : ℕ)
      → Ring k list head xs
      → i < length xs
      → let (list', slot) =
          move_down (length xs - 1 - i) list (wrap (power k) (head + i)) (power k - 1) in
        (slot ≡ wrap (power k) (head + length (without i xs)))
        × (z : Option A) × Ring k list' head (without i xs ++ (z ∷ []))
  Ring-down k list head xs i r l =
      let c = r.capacity in
      let f = r.fits in
      let m = power k - length xs in
      let n = length-without i xs l in
      let b = drop (suc i) xs in
      let size-b : length xs - 1 - i ≡ length b = omega (arith, length-drop (suc i) xs) in
      let size-a : i ≡ length (take i xs) = omega (arith, length-take i xs) in
      let (c', s, e) =
        move_down-down k head r.bound r.inside (length xs - 1 - i) i list c (omega arith) in
      let (z, moved) = down-append (take i xs) (get_or xs i none) b (replicate m none) in
      let start : rotate list head ≡ take i xs ++ (get_or xs i none ∷ (b ++ replicate m none)) =
        r.slots
        ∙ ap (λ ys. ys ++ replicate m none) (split_at i xs l)
        ∙ append_assoc (take i xs) (get_or xs i none ∷ b) (replicate m none) in
      (
        s ∙ ap (λ n. wrap (power k) (head + n)) (omega arith),
        z,
        record {
          bound = r.bound;
          capacity = c';
          inside = r.inside;
          fits = omega (arith, length-append (without i xs) (z ∷ []));
          slots =
              e
              ∙ ap (down (length xs - 1 - i) i) start
              ∙ ap₂ (λ n j. down n j (take i xs ++ (get_or xs i none ∷ (b ++ replicate m none))))
                  size-b size-a
              ∙ moved
              ∙ ap (λ n. (without i xs ++ (z ∷ [])) ++ replicate n none) {x = m}
                  {y = power k - length (without i xs ++ (z ∷ []))}
                  (omega (arith, length-append (without i xs) (z ∷ [])));
        },
      )
