-- ===== src/RingQueue/Cut.antt =====
-- `remove` of lib/ring_queue.js, which rebuilds the array, cuts a part out of a list.
use node_mysql.Prelude.{
  ℕ, zero, suc, ◌+◌, ◌-◌, ◌*◌, ◌%◌, ◌^◌, ◌≤◌, ◌<◌, ◌≡◌, refl, ap, ap₂, sym, ◌∙◌, true, false, ◌||◌,
  Option, none, some, List, ◌++◌, [], ◌∷◌, arith, ltb, leb, leb→le, ◌==◌, if◌then◌else◌, length,
  replicate, power, power-pos, power-small, get_or, take, drop, slice, overlay, overlay_front,
  drop-replicate, take_all, drop_all, append-nil, length-append, length-replicate, length-take,
  length-drop, inl, inr, Bool-cases, subst, exponent-small, ℤ, pos, negsuc,
}
use node_mysql.RingQueue.{
  RingQueue, rebuild, enough, copy_slots, remove_many, remove_count, remove, remove_one, is_int32,
  is_outside, place,
}
use node_mysql.RingQueue.Rotate.{drop-step}
use node_mysql.RingQueue.Holds.{Holds, size-Holds, meets-Holds}
use node_mysql.RingQueue.Copy.{first-drop, copy_slots-overlay, to_array-Holds}
use node_mysql.RingQueue.Remove.{remove_one-Holds, place-lt}

-- The loop ends at a power of two that is large enough.
enough-power :
    (fuel n k : ℕ)
    → n < 2 ^ 30
    → k ≤ 30
    → 30 < k + fuel
    → (j : ℕ) × (j ≤ 30) × (enough fuel n (power k) ≡ power j) × (n < power j)
unfolding enough
enough-power zero n k h b f = absurd (omega arith)
enough-power (suc fuel) n k h b f = elim (Bool-cases (leb (power k) n)) [
  | inl more ↦
      let le = leb→le (power k) n more in
      let less = exponent-small k b (omega arith) in
      let twice : power k * 2 % 2 ^ 32 ≡ power (suc k) = omega (arith, power-small k b) in
      let (j, bound, e, l) = enough-power fuel n (suc k) h (omega arith) (omega arith) in
      (j, bound, rw more (ap (enough fuel n) twice ∙ e), l)
  | inr stop ↦ (k, b, rw stop refl, ground arith)
]

-- A list of elements that is cut at a place, with what takes the place of the elements cut out.
abbrev pub cut {ℓ} : {A : Type ℓ} → ℕ → ℕ → List A → List A → List A × Option (List A)
cut i n new_items xs = (take i xs ++ (new_items ++ drop (i + n) xs), some (slice xs i (i + n)))

module _ {ℓ} {A : Type ℓ} where
  pub rebuild-Holds :
      (items : List (Option A)) (q : RingQueue A) (xs : List (Option A))
      → Holds q xs
      → length items < 2 ^ 30
      → Holds (rebuild items q) items
  unfolding rebuild
  rebuild-Holds items q xs h l =
      let (j, bound, e, room) =
        enough-power 32 (length items) h.exponent l h.ring.bound (omega arith) in
      let capacity = enough 32 (length items) (length q.list) in
      let size : capacity ≡ power j = ap (enough 32 (length items)) h.ring.capacity ∙ e in
      let blanks = replicate {A = Option A} capacity none in
      let copied : (copy_slots (length items) items 0 blanks 0).0
          ≡ items ++ replicate (power j - length items) none =
        ap (λ r. r.0) (copy_slots-overlay (length items) items 0 blanks 0 (omega arith))
        ∙ ap (λ ys. overlay blanks 0 ys) (take_all (length items) items (omega arith))
        ∙ overlay_front blanks items (omega (arith, length-replicate {A = Option A} capacity none))
        ∙ ap (λ ys. items ++ ys) (drop-replicate (length items) capacity none)
        ∙ ap (λ n. items ++ replicate (n - length items) none) size in
      record {
        exponent = j;
        ring = record {
          bound = bound;
          capacity = omega (
            arith,
            ap length copied,
            length-append items (replicate (power j - length items) none),
            length-replicate {A = Option A} (power j - length items) none,
          );
          inside = power-pos j;
          fits = omega arith;
          slots = append-nil (copy_slots (length items) items 0 blanks 0).0 ∙ copied;
        };
        mask = ap (λ n. n - 1) size;
        free = room;
        tail = ground arith;
      }

  pub length-cut :
      (i n : ℕ) (new_items xs : List (Option A))
      → length (cut i n new_items xs).0 ≤ length new_items + length xs
  length-cut i n new_items xs = omega (
    arith,
    length-append (take i xs) (new_items ++ drop (i + n) xs),
    length-append new_items (drop (i + n) xs),
    length-take i xs,
    length-drop (i + n) xs,
  )

  -- A count beyond the end cuts as much as there is.
  cut_clamped :
      (i n : ℕ) (xs : List (Option A))
      → i < length xs
      → length xs < i + n
      → cut i (length xs - i) [] xs ≡ cut i n [] xs
  cut_clamped i n xs h l =
      ap₂ (λ ys zs. (take i xs ++ ys, some zs))
        (drop_all (i + (length xs - i)) xs (omega arith) ∙ sym (drop_all (i + n) xs (omega arith)))
        (take_all (i + (length xs - i) - i) (drop i xs) (omega (arith, length-drop i xs))
          ∙ sym (take_all (i + n - i) (drop i xs) (omega (arith, length-drop i xs))))

  remove_many-Holds :
      (i n : ℕ) (q : RingQueue A) (xs : List (Option A))
      → Holds q xs
      → length xs < 2 ^ 30
      → i < length xs
      → Holds (remove_many i n q).0 (cut i n [] xs).0 × ((remove_many i n q).1 ≡ (cut i n [] xs).1)
  unfolding remove_many
  remove_many-Holds i n q xs h b l =
      let all = length-cut i in
      rw (size-Holds h, to_array-Holds h)
        (elim (Bool-cases (ltb (length xs) (i + n))) [
          | inl over ↦
              let m = length xs - i in
              let same = cut_clamped i n xs l (ground arith) in
              rw over (
                subst (λ ys. Holds (rebuild (cut i m [] xs).0 q) ys) (ap (λ r. r.0) same)
                    (rebuild-Holds (cut i m [] xs).0 q xs h (omega (arith, length-cut i m [] xs))),
                ap (λ r. r.1) same,
              )
          | inr inside ↦
              rw inside
                (rebuild-Holds (cut i n [] xs).0 q xs h (omega (arith, length-cut i n [] xs)), refl)
        ])

  slice_one :
      (p : ℕ) (xs : List (Option A)) → p < length xs → slice xs p (p + 1) ≡ get_or xs p none ∷ []
  slice_one p xs h =
      let (x, d, _) = drop-step p xs h in
      let n : p + 1 - p ≡ 1 = omega arith in
      let value : get_or xs p none ≡ x = first-drop p xs (drop (suc p) xs) x d in
      ap₂ take n d ∙ ap (λ y. y ∷ []) (sym value)

  removed_one :
      (p : ℕ) (q : RingQueue A) (xs : List (Option A))
      → Holds q xs
      → length xs < 2 ^ 30
      → p < length xs
      → let (q1, item) = remove_one (pos p) q in
        Holds q1 (cut p 1 [] xs).0 × (some (item ∷ []) ≡ (cut p 1 [] xs).1)
  removed_one p q xs h b l =
      let inside : is_outside (length xs) (pos p) ≡ false = ground arith in
      let (holds, item) = remove_one-Holds (pos p) q xs h (ground arith) in
      let next : suc p ≡ p + 1 = omega arith in
      (
        subst (Holds (remove_one (pos p) q).0) (rw inside (ap (λ n. take p xs ++ drop n xs) next))
            holds,
        ap (λ y. some (y ∷ [])) (item ∙ rw inside refl) ∙ ap some (sym (slice_one p xs l)),
      )

-- Every index is outside of an empty queue.
outside_of_empty : (n : ℕ) (index : ℤ) → ((n == 0) || is_outside n index) ≡ is_outside n index
outside_of_empty n (pos i) = ground arith
outside_of_empty n (negsuc i) = ground arith

-- The count that `remove` goes by: one if none is given.
abbrev pub amount : Option ℤ → ℕ
amount none = 1
amount (some (pos n)) = n
amount (some (negsuc n)) = 0

-- What `remove(index, count)` means for a list: what is left of it, and what is returned.
abbrev pub removed {ℓ} : {A : Type ℓ} → ℤ → Option ℤ → List A → List A × Option (List A)
removed index count xs =
    if is_outside (length xs) index || (amount count == 0)
    then (xs, none)
    else cut (place (length xs) index) (amount count) [] xs

module _ {ℓ} {A : Type ℓ} where
  remove_count-Holds :
      (index : ℤ) (count : Option ℤ) (q : RingQueue A) (xs : List (Option A))
      → Holds q xs
      → length xs < 2 ^ 30
      → is_outside (length xs) index ≡ false
      → is_int32 (pos (amount count)) ≡ true
      → Holds (remove_count count index q).0 (removed index count xs).0
        × ((remove_count count index q).1 ≡ (removed index count xs).1)
  unfolding remove_count
  remove_count-Holds index none q xs h b i c =
      rw (size-Holds h, i)
        (removed_one (place (length xs) index) q xs h b (place-lt (length xs) index i))
  remove_count-Holds index (some (negsuc n)) q xs h b i c = rw i (h, refl)
  remove_count-Holds index (some (pos zero)) q xs h b i c = rw i (h, refl)
  remove_count-Holds index (some (pos (suc zero))) q xs h b i c =
      rw (size-Holds h, i)
        (removed_one (place (length xs) index) q xs h b (place-lt (length xs) index i))
  remove_count-Holds index (some (pos (suc (suc n)))) q xs h b i c =
      let some_cut : (suc (suc n) == 0) ≡ false = ground arith in
      rw (size-Holds h, i, c, some_cut)
        (remove_many-Holds (place (length xs) index) (suc (suc n)) q xs h b
          (place-lt (length xs) index i))

  -- `remove(index, count)`, for whole numbers of 32 bits and a queue of less than 2 ^ 30 elements,
  -- cuts as many elements as there are from the index on, and returns them; out of range or for a
  -- count below one it changes nothing and returns `undefined`.
  pub remove-Holds :
      (index : ℤ) (count : Option ℤ) (q : RingQueue A) (xs : List (Option A))
      → Holds q xs
      → length xs < 2 ^ 30
      → is_int32 index ≡ true
      → is_int32 (pos (amount count)) ≡ true
      → Holds (remove index count q).0 (removed index count xs).0
        × ((remove index count q).1 ≡ (removed index count xs).1)
  unfolding remove
  remove-Holds index count q xs h b w c =
      rw (w, meets-Holds h, size-Holds h, outside_of_empty (length xs) index)
        (elim (Bool-cases (is_outside (length xs) index)) [
          | inl out ↦ rw out (h, refl)
          | inr inside ↦
              subst
                (λ o.
                  Holds (if o then (q, none) else remove_count count index q).0
                    (removed index count xs).0
                  × ((if o then (q, none) else remove_count count index q).1
                      ≡ (removed index count xs).1))
                (sym inside) (remove_count-Holds index count q xs h b inside c)
        ])

  pub length-removed :
      (index : ℤ) (count : Option ℤ) (xs : List (Option A))
      → length (removed index count xs).0 ≤ length xs
  length-removed index count xs =
      elim (Bool-cases (is_outside (length xs) index || (amount count == 0))) [
        | inl out ↦ rw out (omega arith)
        | inr in_ ↦
            rw in_ (omega (arith, length-cut (place (length xs) index) (amount count) [] xs))
      ]
