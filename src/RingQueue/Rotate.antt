-- ===== src/RingQueue/Rotate.antt =====
-- The array of lib/ring_queue.js turned so that it begins at the head.
use node_mysql.Prelude.{
  ℕ, zero, suc, ◌+◌, ◌-◌, ◌≤◌, ◌<◌, ◌≡◌, refl, sym, ap, ap₂, ◌∙◌, inl, inr, List, [], ◌∷◌, ◌++◌,
  arith, ltb, ltb→lt, ltb_false→le, Bool-cases, length, get_or, set, take, drop, length-append,
  length-take, length-drop, append-nil, append_assoc, wrap, drop_all, take_all, get_or-drop,
  get_or-append_left, replicate,
}

module _ {ℓ} {A : Type ℓ} where
  abbrev pub rotate : List A → ℕ → List A
  rotate xs n = drop n xs ++ take n xs

  pub length-rotate : (xs : List A) (n : ℕ) → length (rotate xs n) ≡ length xs
  length-rotate xs n =
      omega (arith, length-append (drop n xs) (take n xs), length-drop n xs, length-take n xs)

  set-append_left :
      (xs ys : List A) (i : ℕ) (v : A) → i < length xs → set (xs ++ ys) i v ≡ set xs i v ++ ys
  set-append_left [] ys i v h = absurd (omega arith)
  set-append_left (x ∷ xs) ys zero v h = refl
  set-append_left (x ∷ xs) ys (suc i) v h = ap (x ∷◌) (set-append_left xs ys i v (omega arith))

  set-append_right :
      (xs ys : List A) (i : ℕ) (v : A)
      → length xs ≤ i
      → set (xs ++ ys) i v ≡ xs ++ set ys (i - length xs) v
  set-append_right [] ys i v h = ap (λ k. set ys k v) (omega arith)
  set-append_right (x ∷ xs) ys zero v h = absurd (omega arith)
  set-append_right (x ∷ xs) ys (suc i) v h =
      ap (x ∷◌)
        (set-append_right xs ys i v (omega arith) ∙ ap (λ k. xs ++ set ys k v) (omega arith))

  get_or-append_right :
      (xs ys : List A) (i : ℕ) (d : A)
      → length xs ≤ i
      → get_or (xs ++ ys) i d ≡ get_or ys (i - length xs) d
  get_or-append_right [] ys i d h = ap (λ k. get_or ys k d) (omega arith)
  get_or-append_right (x ∷ xs) ys zero d h = absurd (omega arith)
  get_or-append_right (x ∷ xs) ys (suc i) d h =
      get_or-append_right xs ys i d (omega arith) ∙ ap (λ k. get_or ys k d) (omega arith)

  pub drop-set_behind :
      (n i : ℕ) (xs : List A) (v : A) → drop n (set xs (n + i) v) ≡ set (drop n xs) i v
  drop-set_behind zero i xs v = ap (λ k. set xs k v) (omega arith)
  drop-set_behind (suc n) i [] v = refl
  drop-set_behind (suc n) i (x ∷ xs) v =
      ap (λ k. drop (suc n) (set (x ∷ xs) k v)) {x = suc n + i} {y = suc (n + i)} (omega arith)
      ∙ drop-set_behind n i xs v

  pub take-set_behind : (n i : ℕ) (xs : List A) (v : A) → n ≤ i → take n (set xs i v) ≡ take n xs
  take-set_behind zero i xs v h = refl
  take-set_behind (suc n) i [] v h = refl
  take-set_behind (suc n) zero (x ∷ xs) v h = absurd (omega arith)
  take-set_behind (suc n) (suc i) (x ∷ xs) v h = ap (x ∷◌) (take-set_behind n i xs v (omega arith))

  drop-set_before : (n i : ℕ) (xs : List A) (v : A) → i < n → drop n (set xs i v) ≡ drop n xs
  drop-set_before zero i xs v h = absurd (omega arith)
  drop-set_before (suc n) i [] v h = refl
  drop-set_before (suc n) zero (x ∷ xs) v h = refl
  drop-set_before (suc n) (suc i) (x ∷ xs) v h = drop-set_before n i xs v (omega arith)

  take-set_before :
      (n i : ℕ) (xs : List A) (v : A) → i < n → take n (set xs i v) ≡ set (take n xs) i v
  take-set_before zero i xs v h = absurd (omega arith)
  take-set_before (suc n) i [] v h = refl
  take-set_before (suc n) zero (x ∷ xs) v h = refl
  take-set_before (suc n) (suc i) (x ∷ xs) v h = ap (x ∷◌) (take-set_before n i xs v (omega arith))

  get_or-take : (n i : ℕ) (xs : List A) (d : A) → i < n → get_or (take n xs) i d ≡ get_or xs i d
  get_or-take zero i xs d h = absurd (omega arith)
  get_or-take (suc n) i [] d h = refl
  get_or-take (suc n) zero (x ∷ xs) d h = refl
  get_or-take (suc n) (suc i) (x ∷ xs) d h = get_or-take n i xs d (omega arith)

  module _ (xs : List A) (n i : ℕ) (hn : n ≤ length xs) (hi : i < length xs) where
    -- A write to a slot, seen from the head.
    pub rotate-set :
        (v : A) → rotate (set xs (wrap (length xs) (n + i)) v) n ≡ set (rotate xs n) i v
    rotate-set v = elim (Bool-cases (ltb (n + i) (length xs))) [
      | inl t ↦
          let l = ltb→lt (n + i) (length xs) t in
          rw t (
            ap₂ (◌++◌) (drop-set_behind n i xs v) (take-set_behind n (n + i) xs v (omega arith))
            ∙ sym (set-append_left (drop n xs) (take n xs) i v (omega (arith, length-drop n xs))))
      | inr t ↦
          let l = ltb_false→le (n + i) (length xs) t in
          rw t (
            ap₂ (◌++◌) (drop-set_before n (n + i - length xs) xs v (omega arith))
              (take-set_before n (n + i - length xs) xs v (omega arith))
            ∙ ap (λ k. drop n xs ++ set (take n xs) k v) (omega (arith, length-drop n xs))
            ∙ sym (set-append_right (drop n xs) (take n xs) i v (omega (arith, length-drop n xs))))
    ]

    -- A read of a slot, seen from the head.
    pub get_or-rotate : (d : A) → get_or xs (wrap (length xs) (n + i)) d ≡ get_or (rotate xs n) i d
    get_or-rotate d = elim (Bool-cases (ltb (n + i) (length xs))) [
      | inl t ↦
          let l = ltb→lt (n + i) (length xs) t in
          rw t (
            sym (get_or-drop n i xs d)
            ∙ sym
                (get_or-append_left i (drop n xs) (take n xs) d (omega (arith, length-drop n xs))))
      | inr t ↦
          let l = ltb_false→le (n + i) (length xs) t in
          rw t (
            sym (get_or-take n (n + i - length xs) xs d (omega arith))
            ∙ ap (λ k. get_or (take n xs) k d) (omega (arith, length-drop n xs))
            ∙ sym
                (get_or-append_right (drop n xs) (take n xs) i d (omega (arith, length-drop n xs))))
    ]

  pub drop-step :
      (n : ℕ) (xs : List A)
      → n < length xs
      → (x : A) × (drop n xs ≡ x ∷ drop (suc n) xs) × (take (suc n) xs ≡ take n xs ++ (x ∷ []))
  drop-step n [] h = absurd (omega arith)
  drop-step zero (x ∷ xs) h = (x, refl, refl)
  drop-step (suc n) (x ∷ xs) h = let (y, d, t) = drop-step n xs (omega arith) in (y, d, ap (x ∷◌) t)

  -- One step of the head takes the first element to the end.
  pub rotate-suc :
      (xs : List A) (n : ℕ)
      → n < length xs
      → (x : A) × (ys : List A) × (rotate xs n ≡ x ∷ ys)
        × (rotate xs (wrap (length xs) (n + 1)) ≡ ys ++ (x ∷ []))
  rotate-suc xs n h =
      let (x, d, t) = drop-step n xs h in
      let next : n + 1 ≡ suc n = omega arith in
      (
        x,
        drop (suc n) xs ++ take n xs,
        ap (λ ys. ys ++ take n xs) d,
        elim (Bool-cases (ltb (n + 1) (length xs))) [
          | inl l ↦ rw l (
              ap (rotate xs) next
              ∙ ap (λ ys. drop (suc n) xs ++ ys) t
              ∙ sym (append_assoc (drop (suc n) xs) (take n xs) (x ∷ [])))
          | inr l ↦
              let g = ltb_false→le (n + 1) (length xs) l in
              let gone : n + 1 - length xs ≡ 0 = omega arith in
              rw l (
                ap (rotate xs) gone
                ∙ append-nil xs
                ∙ sym (take_all (suc n) xs (omega arith))
                ∙ t
                ∙ sym
                    (ap (λ ys. (ys ++ take n xs) ++ (x ∷ [])) (drop_all (suc n) xs (omega arith))))
        ],
      )

module _ {ℓ} {A : Type ℓ} where
  pub set-middle : (xs ys : List A) (x v : A) → set (xs ++ (x ∷ ys)) (length xs) v ≡ xs ++ (v ∷ ys)
  set-middle [] ys x v = refl
  set-middle (z ∷ xs) ys x v = ap (z ∷◌) (set-middle xs ys x v)

  pub get_or-middle : (xs ys : List A) (x d : A) → get_or (xs ++ (x ∷ ys)) (length xs) d ≡ x
  get_or-middle [] ys x d = refl
  get_or-middle (z ∷ xs) ys x d = get_or-middle xs ys x d

  pub replicate-snoc : (n : ℕ) (a : A) → replicate n a ++ (a ∷ []) ≡ a ∷ replicate n a
  replicate-snoc zero a = refl
  replicate-snoc (suc n) a = ap (a ∷◌) (replicate-snoc n a)

  pub snoc-left : (xs ys : List A) (x y : A) → xs ++ (x ∷ []) ≡ ys ++ (y ∷ []) → xs ≡ ys
  snoc-left [] [] x y e = refl
  snoc-left [] (b ∷ ys) x y e = absurd (omega (arith, ap length e, length-append ys (y ∷ [])))
  snoc-left (a ∷ xs) [] x y e = absurd (omega (arith, ap length e, length-append xs (x ∷ [])))
  snoc-left (a ∷ xs) (b ∷ ys) x y e =
      let heads : a ≡ b = cc in ap₂ (λ c cs. c ∷ cs) heads (snoc-left xs ys x y cc)
