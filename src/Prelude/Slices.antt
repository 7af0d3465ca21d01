-- ===== src/Prelude/Slices.antt =====
-- Laws of `take`, `drop` and `overlay` on appended lists: what `Buffer.slice` and `Buffer.copy` do.
use Prim.Native.Nat.{ℕ, zero, suc, ◌+◌, ◌-◌, ◌≤◌, ◌<◌}
use mathlib.Core.Path.{◌≡◌, refl, ap, sym, ◌∙◌}
use mathlib.Core.List.{List, [], ◌∷◌, ◌++◌, append-nil, append_assoc, flatten}
use native.Mathlib.Omega.{arith}
use node_mysql.Prelude.Lists.{length, get_or, take, drop, overlay, replicate}

module _ {ℓ} {A : Type ℓ} where
  -- `buffer.slice(from, to)`
  abbrev pub slice : List A → ℕ → ℕ → List A
  slice xs from to = take (to - from) (drop from xs)

  drop-nil : (k : ℕ) → drop {A = A} k [] ≡ []
  drop-nil zero = refl
  drop-nil (suc k) = refl

  pub take-nil : (k : ℕ) → take {A = A} k [] ≡ []
  take-nil zero = refl
  take-nil (suc k) = refl

  pub drop-drop : (m n : ℕ) (xs : List A) → drop m (drop n xs) ≡ drop (n + m) xs
  drop-drop m zero xs = ap (λ k. drop k xs) {x = m} {y = zero + m} (omega arith)
  drop-drop zero (suc n) [] = sym (drop-nil (suc n + zero))
  drop-drop (suc m) (suc n) [] = sym (drop-nil (suc n + suc m))
  drop-drop m (suc n) (x ∷ xs) =
      drop-drop m n xs ∙ ap (λ k. drop k (x ∷ xs)) {x = suc (n + m)} {y = suc n + m} (omega arith)

  pub take_all : (n : ℕ) (xs : List A) → length xs ≤ n → take n xs ≡ xs
  take_all zero [] h = refl
  take_all zero (x ∷ xs) h = absurd (omega arith)
  take_all (suc n) [] h = refl
  take_all (suc n) (x ∷ xs) h = ap (x ∷◌) (take_all n xs (omega arith))

  pub drop_all : (n : ℕ) (xs : List A) → length xs ≤ n → drop n xs ≡ []
  drop_all zero [] h = refl
  drop_all zero (x ∷ xs) h = absurd (omega arith)
  drop_all (suc n) [] h = refl
  drop_all (suc n) (x ∷ xs) h = drop_all n xs (omega arith)

  pub take-append_left : (n : ℕ) (xs ys : List A) → n ≤ length xs → take n (xs ++ ys) ≡ take n xs
  take-append_left zero xs ys h = refl
  take-append_left (suc n) [] ys h = absurd (omega arith)
  take-append_left (suc n) (x ∷ xs) ys h = ap (x ∷◌) (take-append_left n xs ys (omega arith))

  pub drop-append_left :
      (n : ℕ) (xs ys : List A) → n ≤ length xs → drop n (xs ++ ys) ≡ drop n xs ++ ys
  drop-append_left zero xs ys h = refl
  drop-append_left (suc n) [] ys h = absurd (omega arith)
  drop-append_left (suc n) (x ∷ xs) ys h = drop-append_left n xs ys (omega arith)

  pub take-append_right :
      (n : ℕ) (xs ys : List A) → length xs ≤ n → take n (xs ++ ys) ≡ xs ++ take (n - length xs) ys
  take-append_right n [] ys h = ap (λ k. take k ys) (omega arith)
  take-append_right zero (x ∷ xs) ys h = absurd (omega arith)
  take-append_right (suc n) (x ∷ xs) ys h =
      ap (x ∷◌) (take-append_right n xs ys (omega arith) ∙ ap (λ k. xs ++ take k ys) (omega arith))

  pub drop-append_right :
      (n : ℕ) (xs ys : List A) → length xs ≤ n → drop n (xs ++ ys) ≡ drop (n - length xs) ys
  drop-append_right n [] ys h = ap (λ k. drop k ys) (omega arith)
  drop-append_right zero (x ∷ xs) ys h = absurd (omega arith)
  drop-append_right (suc n) (x ∷ xs) ys h =
      drop-append_right n xs ys (omega arith) ∙ ap (λ k. drop k ys) (omega arith)

  pub take_exact : (n : ℕ) (xs ys : List A) → n ≡ length xs → take n (xs ++ ys) ≡ xs
  take_exact zero [] ys e = refl
  take_exact (suc n) [] ys e = absurd (omega arith)
  take_exact zero (x ∷ xs) ys e = absurd (omega arith)
  take_exact (suc n) (x ∷ xs) ys e = ap (x ∷◌) (take_exact n xs ys (omega arith))

  pub drop_exact : (n : ℕ) (xs ys : List A) → n ≡ length xs → drop n (xs ++ ys) ≡ ys
  drop_exact zero [] ys e = refl
  drop_exact (suc n) [] ys e = absurd (omega arith)
  drop_exact zero (x ∷ xs) ys e = absurd (omega arith)
  drop_exact (suc n) (x ∷ xs) ys e = drop_exact n xs ys (omega arith)

  pub take-take : (m n : ℕ) (xs : List A) → m ≤ n → take m (take n xs) ≡ take m xs
  take-take zero n xs h = refl
  take-take (suc m) zero xs h = absurd (omega arith)
  take-take (suc m) (suc n) [] h = refl
  take-take (suc m) (suc n) (x ∷ xs) h = ap (x ∷◌) (take-take m n xs (omega arith))

  pub drop-take : (m n : ℕ) (xs : List A) → drop m (take n xs) ≡ take (n - m) (drop m xs)
  drop-take zero n xs = ap (λ k. take k xs) {x = n} {y = n - zero} (omega arith)
  drop-take (suc m) zero [] = sym (take-nil (zero - suc m))
  drop-take (suc m) zero (x ∷ xs) =
      ap (λ k. take k (drop m xs)) {x = zero} {y = zero - suc m} (omega arith)
  drop-take (suc m) (suc n) [] = sym (take-nil (suc n - suc m))
  drop-take (suc m) (suc n) (x ∷ xs) =
      drop-take m n xs ∙ ap (λ k. take k (drop m xs)) {x = n - m} {y = suc n - suc m} (omega arith)

  pub get_or-drop : (n i : ℕ) (xs : List A) (d : A) → get_or (drop n xs) i d ≡ get_or xs (n + i) d
  get_or-drop zero i xs d = ap (λ k. get_or xs k d) (omega arith)
  get_or-drop (suc n) i [] d = refl
  get_or-drop (suc n) i (x ∷ xs) d =
      get_or-drop n i xs d
      ∙ ap (λ k. get_or (x ∷ xs) k d) {x = suc (n + i)} {y = suc n + i} (omega arith)

  pub get_or-append_left :
      (i : ℕ) (xs ys : List A) (d : A) → i < length xs → get_or (xs ++ ys) i d ≡ get_or xs i d
  get_or-append_left i [] ys d h = absurd (omega arith)
  get_or-append_left zero (x ∷ xs) ys d h = refl
  get_or-append_left (suc i) (x ∷ xs) ys d h = get_or-append_left i xs ys d (omega arith)

  pub overlay-nil : (xs : List A) (o : ℕ) → overlay xs o [] ≡ xs
  overlay-nil [] o = refl
  overlay-nil (x ∷ xs) zero = refl
  overlay-nil (x ∷ xs) (suc o) = ap (x ∷◌) (overlay-nil xs o)

  -- Copies one behind the other are one copy.
  pub overlay-append :
      (xs : List A) (o n : ℕ) (ys zs : List A)
      → n ≡ o + length ys
      → overlay (overlay xs o ys) n zs ≡ overlay xs o (ys ++ zs)
  overlay-append [] o n ys zs e = refl
  overlay-append (x ∷ xs) (suc o) zero ys zs e = absurd (omega arith)
  overlay-append (x ∷ xs) (suc o) (suc n) ys zs e =
      ap (x ∷◌) (overlay-append xs o n ys zs (omega arith))
  overlay-append (x ∷ xs) zero zero [] zs e = refl
  overlay-append (x ∷ xs) zero (suc n) [] zs e = absurd (omega arith)
  overlay-append (x ∷ xs) zero zero (y ∷ ys) zs e = absurd (omega arith)
  overlay-append (x ∷ xs) zero (suc n) (y ∷ ys) zs e =
      ap (y ∷◌) (overlay-append xs zero n ys zs (omega arith))

  -- A copy of the buffer's own length replaces all of it.
  pub overlay_all : (xs ys : List A) → length xs ≡ length ys → overlay xs zero ys ≡ ys
  overlay_all [] [] e = refl
  overlay_all [] (y ∷ ys) e = absurd (omega arith)
  overlay_all (x ∷ xs) [] e = absurd (omega arith)
  overlay_all (x ∷ xs) (y ∷ ys) e = ap (y ∷◌) (overlay_all xs ys (omega arith))

  pub overlay_front :
      (xs ys : List A) → length ys ≤ length xs → overlay xs zero ys ≡ ys ++ drop (length ys) xs
  overlay_front [] [] h = refl
  overlay_front [] (y ∷ ys) h = absurd (omega arith)
  overlay_front (x ∷ xs) [] h = refl
  overlay_front (x ∷ xs) (y ∷ ys) h = ap (y ∷◌) (overlay_front xs ys (omega arith))

  pub drop-replicate : (k n : ℕ) (a : A) → drop k (replicate n a) ≡ replicate (n - k) a
  drop-replicate zero n a = ap (λ m. replicate m a) {x = n} {y = n - zero} (omega arith)
  drop-replicate (suc k) zero a =
      ap (λ m. replicate m a) {x = zero} {y = zero - suc k} (omega arith)
  drop-replicate (suc k) (suc n) a =
      drop-replicate k n a ∙ ap (λ m. replicate m a) {x = n - k} {y = suc n - suc k} (omega arith)

  pub flatten-singleton : (xs : List A) → flatten (xs ∷ []) ≡ xs
  unfolding flatten
  flatten-singleton xs = append-nil xs

  pub flatten-append : (xss yss : List (List A)) → flatten (xss ++ yss) ≡ flatten xss ++ flatten yss
  unfolding flatten
  flatten-append [] yss = refl
  flatten-append (xs ∷ xss) yss =
      ap (◌++◌ xs) (flatten-append xss yss) ∙ sym (append_assoc xs (flatten xss) (flatten yss))
