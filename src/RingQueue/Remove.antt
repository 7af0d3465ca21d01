-- ===== src/RingQueue/Remove.antt =====
-- `removeOne` of lib/ring_queue.js takes an element out of a list.
use node_mysql.Prelude.{
  ℕ, ◌+◌, ◌-◌, ◌*◌, ◌<◌, ◌≡◌, refl, ap, sym, ◌∙◌, true, false, Option, none, List, ◌++◌, [], ◌∷◌,
  arith, ltb, if◌then◌else◌, length, power, wrap, set, get_or, inl, inr, Bool-cases, and_add,
  and_sub, and_sub-wrap, subst, ℤ, pos, negsuc,
}
use node_mysql.RingQueue.{
  RingQueue, move_up, move_down, remove_at, remove_one, is_int32, is_outside, place,
}
use node_mysql.RingQueue.Holds.{Ring, Holds, size-Holds, mask_add, Ring-get_or}
use node_mysql.RingQueue.Extract.{Ring-rest, Ring-init}
use node_mysql.RingQueue.Peek.{element}
use node_mysql.RingQueue.Gap.{without, length-without, Ring-up, Ring-down}

pub place-lt : (n : ℕ) (index : ℤ) → is_outside n index ≡ false → place n index < n
place-lt n (pos i) h = ground arith
place-lt n (negsuc i) h = ground arith

module _ {ℓ} {A : Type ℓ} where
  remove_at-Holds :
      (i : ℕ) (q : RingQueue A) (xs : List (Option A))
      → Holds q xs
      → i < length xs
      → Holds (remove_at i q).0 (without i xs) × ((remove_at i q).1 ≡ get_or xs i none)
  unfolding remove_at
  remove_at-Holds i q xs h l =
      let f = h.free in
      let c = h.ring.inside in
      let e = h.tail in
      let m = h.mask in
      let k = h.exponent in
      let n = length-without i xs l in
      let item = Ring-get_or k q.list q.head xs i h.ring l in
      rw (mask_add h i (omega arith), size-Holds h)
        (elim (Bool-cases (ltb (i * 2) (length xs))) [
          | inl near ↦
              let (first, z, ring) =
                subst
                  (λ mask.
                    let (list, slot) = move_up i q.list (wrap (power k) (q.head + i)) mask in
                    (slot ≡ q.head) × (z : Option A) × Ring k list q.head (z ∷ without i xs))
                  (sym m) (Ring-up k q.list q.head xs i h.ring l) in
              let (up, slot) = move_up i q.list (wrap (power k) (q.head + i)) q.mask in
              let next = mask_add h 1 (omega arith) in
              rw near (
                record {
                  exponent = k;
                  ring =
                      subst (λ s. Ring k (set up s none) (and_add q.head 1 q.mask) (without i xs))
                        (sym first)
                        (subst (λ n. Ring k (set up q.head none) n (without i xs)) (sym next)
                          (Ring-rest k up q.head z (without i xs) ring));
                  mask = m;
                  free = omega arith;
                  tail = ground arith;
                },
                item,
              )
          | inr far ↦
              let (last, z, ring) =
                subst
                  (λ mask.
                    let (list, slot) =
                      move_down (length xs - 1 - i) q.list (wrap (power k) (q.head + i)) mask in
                    (slot ≡ wrap (power k) (q.head + length (without i xs)))
                    × (z : Option A) × Ring k list q.head (without i xs ++ (z ∷ [])))
                  (sym m) (Ring-down k q.list q.head xs i h.ring l) in
              let (down, slot) =
                move_down (length xs - 1 - i) q.list (wrap (power k) (q.head + i)) q.mask in
              let back : and_sub q.tail 1 q.mask ≡ wrap (power k) (q.head + length (without i xs)) =
                ap (and_sub q.tail 1) m
                ∙ and_sub-wrap k h.ring.bound q.tail 1 (ground arith) (omega arith)
                ∙ ground arith in
              rw far (
                record {
                  exponent = k;
                  ring =
                      subst (λ s. Ring k (set down s none) q.head (without i xs)) (sym last)
                        (Ring-init k down q.head z (without i xs) ring);
                  mask = m;
                  free = omega arith;
                  tail = back;
                },
                item,
              )
        ])

  element-place :
      (xs : List (Option A)) (index : ℤ)
      → is_outside (length xs) index ≡ false
      → get_or xs (place (length xs) index) none ≡ element xs index
  element-place xs (pos i) h = refl
  element-place xs (negsuc i) h = rw h refl

  -- `removeOne(index)`, for a whole number of 32 bits, takes the element at the index out and returns
  -- it, counted from the end if the index is negative; out of range it changes nothing and returns
  -- `undefined`.
  pub remove_one-Holds :
      (index : ℤ) (q : RingQueue A) (xs : List (Option A))
      → Holds q xs
      → is_int32 index ≡ true
      → Holds
          (remove_one index q).0
          (if is_outside (length xs) index then xs else without (place (length xs) index) xs)
        × ((remove_one index q).1
            ≡ (if is_outside (length xs) index then none else element xs index))
  unfolding remove_one
  remove_one-Holds index q xs h w =
      rw (w, size-Holds h)
        (elim (Bool-cases (is_outside (length xs) index)) [
          | inl out ↦ rw out (h, refl)
          | inr in_ ↦
              let (holds, item) =
                remove_at-Holds (place (length xs) index) q xs h (place-lt (length xs) index in_) in
              rw in_ (holds, item ∙ element-place xs index in_)
        ])
