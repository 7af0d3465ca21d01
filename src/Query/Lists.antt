-- ===== src/Query/Lists.antt =====
-- A change of one place of an array.
use node_mysql.Prelude.{ℕ, zero, suc, ◌≡◌, refl, ap, List, [], ◌∷◌, ◌++◌, some, length, get_elem?}

module _ {ℓ} {A : Type ℓ} where
  abbrev pub update_at : (A → A) → ℕ → List A → List A
  update_at f i [] = []
  update_at f zero (x ∷ xs) = f x ∷ xs
  update_at f (suc i) (x ∷ xs) = x ∷ update_at f i xs

  pub update_at-last :
      (f : A → A) (xs : List A) (x : A)
      → update_at f (length xs) (xs ++ (x ∷ [])) ≡ xs ++ (f x ∷ [])
  update_at-last f [] x = refl
  update_at-last f (y ∷ xs) x = ap (y ∷◌) (update_at-last f xs x)

  pub get_elem?-last : (xs : List A) (x : A) → get_elem? (xs ++ (x ∷ [])) (length xs) ≡ some x
  get_elem?-last [] x = refl
  get_elem?-last (y ∷ xs) x = get_elem?-last xs x
