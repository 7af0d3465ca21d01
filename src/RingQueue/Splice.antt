-- ===== src/RingQueue/Splice.antt =====
-- `splice` of lib/ring_queue.js does to the queue what it does to a list.
use node_mysql.Prelude.{
  ℕ, zero, suc, ◌+◌, ◌-◌, ◌^◌, ◌≤◌, ◌<◌, ◌≡◌, refl, ap, ap₂, sym, ◌∙◌, true, false, not, ◌&&◌,
  Option, none, some, List, ◌++◌, [], ◌∷◌, arith, leb, ◌==◌, if◌then◌else◌, length, take, drop,
  take_all, drop_all, append-nil, length-append, inl, inr, Bool-cases, subst, ℤ, pos, negsuc,
}
use node_mysql.RingQueue.{
  RingQueue, rebuild, splice, splice_at, splice_count, is_int32, is_behind, from_start,
}
use node_mysql.RingQueue.Holds.{Holds, size-Holds}
use node_mysql.RingQueue.Copy.{to_array-Holds}
use node_mysql.RingQueue.Cut.{
  cut, removed, amount, length-cut, length-removed, rebuild-Holds, remove-Holds,
}

-- The items go in at the place; an item behind the end is not cut, and nothing is returned.
abbrev pub put_in {ℓ} : {A : Type ℓ} → ℕ → ℕ → List A → List A → List A × Option (List A)
put_in i n new_items xs =
    if leb (length xs) i && not (n == 0) then (xs ++ new_items, none) else cut i n new_items xs

-- What `splice(index, count, ...new_items)` with new items means for a list, from an index that is
-- counted from the start.
abbrev pub spliced {ℓ} : {A : Type ℓ} → ℤ → Option ℤ → List A → List A → List A × Option (List A)
spliced (negsuc i) count new_items xs = (xs, none)
spliced (pos i) (some (negsuc n)) new_items xs = (xs, none)
spliced (pos i) (some (pos n)) new_items xs = put_in i n new_items xs
spliced (pos i) none new_items xs = put_in i 1 new_items xs

is_int32-from_start :
    (n : ℕ) (index : ℤ) → n < 2 ^ 30 → is_int32 index ≡ true → is_int32 (from_start n index) ≡ true
is_int32-from_start n (pos i) h w = w
is_int32-from_start n (negsuc i) h w = elim (Bool-cases (leb (suc i) n)) [
  | inl near ↦ rw near (ground arith)
  | inr far ↦ rw far (ground arith)
]

module _ {ℓ} {A : Type ℓ} where
  insert_end :
      (i : ℕ) (new_items xs : List (Option A))
      → i ≡ length xs
      → (cut i 0 new_items xs).0 ≡ xs ++ new_items
  insert_end i new_items xs e =
      ap₂ (λ ys zs. ys ++ (new_items ++ zs)) (take_all i xs (omega arith))
        (drop_all (i + 0) xs (omega arith))
      ∙ ap (λ ys. xs ++ ys) (append-nil new_items)

  splice_count-Holds :
      (i n : ℕ) (new_items : List (Option A)) (q : RingQueue A) (xs : List (Option A))
      → Holds q xs
      → length new_items + length xs < 2 ^ 30
      → i ≤ length xs
      → is_int32 (pos n) ≡ true
      → Holds (splice_count (pos n) i new_items q).0 (spliced (pos i) (some (pos n)) new_items xs).0
        × ((splice_count (pos n) i new_items q).1 ≡ (spliced (pos i) (some (pos n)) new_items xs).1)
  unfolding splice_count
  splice_count-Holds i zero new_items q xs h b l c =
      let none_cut : (leb (length xs) i && not (zero == 0)) ≡ false = ground arith in
      let nothing : i + 0 - i ≡ 0 = omega arith in
      rw (none_cut, to_array-Holds h)
        (
          rebuild-Holds (cut i 0 new_items xs).0 q xs h
              (omega (arith, length-cut i 0 new_items xs)),
          ap (λ n. some (take n (drop i xs))) (sym nothing),
        )
  splice_count-Holds i (suc n) new_items q xs h b l c = elim (Bool-cases (leb (length xs) i)) [
    | inl end ↦
        let at_end : (leb (length xs) i && not (suc n == 0)) ≡ true = ground arith in
        rw (c, at_end, to_array-Holds h, size-Holds h, end)
          (
            subst (Holds (rebuild (cut i 0 new_items xs).0 q))
                (insert_end i new_items xs (ground arith))
                (rebuild-Holds (cut i 0 new_items xs).0 q xs h
                  (omega (arith, length-cut i 0 new_items xs))),
            refl,
          )
    | inr inside ↦
        let before : (leb (length xs) i && not (suc n == 0)) ≡ false = ground arith in
        rw (c, before, to_array-Holds h, size-Holds h, inside)
          (
            rebuild-Holds (cut i (suc n) new_items xs).0 q xs h
                (omega (arith, length-cut i (suc n) new_items xs)),
            refl,
          )
  ]

  -- What `splice(index, count, ...new_items)` means for a list: what is left, and what is returned.
  abbrev pub splice_list :
      ℤ → Option ℤ → List (Option A) → List (Option A) → List (Option A) × Option (List (Option A))
  splice_list index count [] xs =
      let i = from_start (length xs) index in
      if is_behind (length xs) i then (xs, none) else removed i count xs
  splice_list index count (y ∷ ys) xs =
      let i = from_start (length xs) index in
      if is_behind (length xs) i then (xs, none) else spliced i count (y ∷ ys) xs

  splice_at-Holds :
      (i : ℤ) (count : Option ℤ) (y : Option A) (ys : List (Option A)) (q : RingQueue A)
      (xs : List (Option A))
      → Holds q xs
      → length (y ∷ ys) + length xs < 2 ^ 30
      → is_behind (length xs) i ≡ false
      → is_int32 (pos (amount count)) ≡ true
      → Holds (splice_at i count (y ∷ ys) q).0 (spliced i count (y ∷ ys) xs).0
        × ((splice_at i count (y ∷ ys) q).1 ≡ (spliced i count (y ∷ ys) xs).1)
  unfolding splice_at splice_count
  splice_at-Holds (negsuc i) count y ys q xs h b e c = (h, refl)
  splice_at-Holds (pos i) (some (negsuc n)) y ys q xs h b e c = (h, refl)
  splice_at-Holds (pos i) (some (pos n)) y ys q xs h b e c =
      splice_count-Holds i n (y ∷ ys) q xs h b (ground arith) c
  splice_at-Holds (pos i) none y ys q xs h b e c =
      splice_count-Holds i 1 (y ∷ ys) q xs h b (ground arith) c

  -- `splice(index, count, ...new_items)`, for whole numbers of 32 bits, cuts elements out, puts the
  -- new items in their place and returns the elements cut, as `splice_list` says, for a queue that
  -- has less than 2 ^ 30 elements with the new items.
  pub splice-Holds :
      (index : ℤ) (count : Option ℤ) (new_items : List (Option A)) (q : RingQueue A)
      (xs : List (Option A))
      → Holds q xs
      → length new_items + length xs < 2 ^ 30
      → is_int32 index ≡ true
      → is_int32 (pos (amount count)) ≡ true
      → Holds (splice index count new_items q).0 (splice_list index count new_items xs).0
        × ((splice index count new_items q).1 ≡ (splice_list index count new_items xs).1)
  unfolding splice splice_at
  splice-Holds index count [] q xs h b w c =
      rw (w, size-Holds h)
        (elim (Bool-cases (is_behind (length xs) (from_start (length xs) index))) [
          | inl behind ↦ rw behind (h, refl)
          | inr inside ↦ rw inside (
              remove-Holds (from_start (length xs) index) count q xs h (omega arith)
                (is_int32-from_start (length xs) index (omega arith) w) c)
        ])
  splice-Holds index count (y ∷ ys) q xs h b w c =
      rw (w, size-Holds h)
        (elim (Bool-cases (is_behind (length xs) (from_start (length xs) index))) [
          | inl behind ↦ rw behind (h, refl)
          | inr inside ↦
              rw inside
                (splice_at-Holds (from_start (length xs) index) count y ys q xs h b inside c)
        ])

  length-put_in :
      (i n : ℕ) (new_items xs : List (Option A))
      → length (put_in i n new_items xs).0 ≤ length new_items + length xs
  length-put_in i n new_items xs = elim (Bool-cases (leb (length xs) i && not (n == 0))) [
    | inl end ↦ rw end (omega (arith, length-append xs new_items))
    | inr inside ↦ rw inside (length-cut i n new_items xs)
  ]

  length-spliced :
      (i : ℤ) (count : Option ℤ) (new_items xs : List (Option A))
      → length (spliced i count new_items xs).0 ≤ length new_items + length xs
  length-spliced (negsuc i) count new_items xs = omega arith
  length-spliced (pos i) (some (negsuc n)) new_items xs = omega arith
  length-spliced (pos i) (some (pos n)) new_items xs = length-put_in i n new_items xs
  length-spliced (pos i) none new_items xs = length-put_in i 1 new_items xs

  pub length-splice_list :
      (index : ℤ) (count : Option ℤ) (new_items xs : List (Option A))
      → length (splice_list index count new_items xs).0 ≤ length new_items + length xs
  length-splice_list index count [] xs =
      elim (Bool-cases (is_behind (length xs) (from_start (length xs) index))) [
        | inl out ↦ rw out (omega arith)
        | inr in_ ↦ rw in_ (omega (arith, length-removed (from_start (length xs) index) count xs))
      ]
  length-splice_list index count (y ∷ ys) xs =
      elim (Bool-cases (is_behind (length xs) (from_start (length xs) index))) [
        | inl out ↦ rw out (omega arith)
        | inr in_ ↦ rw in_ (length-spliced (from_start (length xs) index) count (y ∷ ys) xs)
      ]
