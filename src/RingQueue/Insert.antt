-- ===== src/RingQueue/Insert.antt =====
-- `push` and `unshift` of lib/ring_queue.js put an item at the ends of a list.
use node_mysql.Prelude.{
  exponent-small, ℕ, suc, ◌+◌, ◌-◌, ◌^◌, ◌<◌, ◌≡◌, ap, sym, ◌∙◌, Option, none, List, ◌++◌, [], ◌∷◌,
  arith, ltb, ◌==◌, if◌then◌else◌, length, replicate, power, wrap, set, append_assoc, length-append,
  length-set, inl, inr, Bool-cases, ==_iff, and_add, and_add-wrap, and_sub, and_sub-wrap, subst,
}
use node_mysql.RingQueue.{RingQueue, push, unshift, grow}
use node_mysql.RingQueue.Rotate.{
  rotate, rotate-set, rotate-suc, set-middle, replicate-snoc, snoc-left,
}
use node_mysql.RingQueue.Holds.{Ring, Holds, size-Holds}
use node_mysql.RingQueue.Copy.{grow-Holds}

module _ {ℓ} {A : Type ℓ} where
  -- A write to the first free slot.
  Ring-append :
      (k : ℕ) (list : List (Option A)) (head : ℕ) (xs : List (Option A)) (v : Option A)
      → Ring k list head xs
      → length xs < power k
      → Ring k (set list (wrap (power k) (head + length xs)) v) head (xs ++ (v ∷ []))
  Ring-append k list head xs v r h =
      let c = r.capacity in
      let i = r.inside in
      let more : power k - length xs ≡ suc (power k - suc (length xs)) = omega arith in
      let rest : power k - suc (length xs) ≡ power k - length (xs ++ (v ∷ [])) =
        omega (arith, length-append xs (v ∷ [])) in
      record {
        bound = r.bound;
        capacity = length-set list (wrap (power k) (head + length xs)) v ∙ c;
        inside = i;
        fits = omega (arith, length-append xs (v ∷ []));
        slots =
            ap (λ n. rotate (set list (wrap n (head + length xs)) v) head) (sym c)
            ∙ rotate-set list head (length xs) (omega arith) (omega arith) v
            ∙ ap (λ ys. set ys (length xs) v) (r.slots ∙ ap (λ n. xs ++ replicate n none) more)
            ∙ set-middle xs (replicate (power k - suc (length xs)) none) none v
            ∙ sym (append_assoc xs (v ∷ []) (replicate (power k - suc (length xs)) none))
            ∙ ap (λ n. (xs ++ (v ∷ [])) ++ replicate n none) rest;
      }

  -- A write to the slot before the head.
  Ring-prepend :
      (k : ℕ) (list : List (Option A)) (head previous : ℕ) (xs : List (Option A)) (v : Option A)
      → Ring k list head xs
      → length xs < power k
      → previous < power k
      → wrap (power k) (previous + 1) ≡ head
      → Ring k (set list previous v) previous (v ∷ xs)
  Ring-prepend k list head previous xs v r h l e =
      let c = r.capacity in
      let m = power k - suc (length xs) in
      let (x, ys, at_previous, at_head) = rotate-suc list previous (omega arith) in
      let more : power k - length xs ≡ suc m = omega arith in
      let front : ys ≡ xs ++ replicate m none = snoc-left ys (xs ++ replicate m none) x none (
        sym at_head
        ∙ ap (λ n. rotate list (wrap n (previous + 1))) c
        ∙ ap (rotate list) e
        ∙ r.slots
        ∙ ap (λ n. xs ++ replicate n none) more
        ∙ ap (λ zs. xs ++ zs) (sym (replicate-snoc m none))
        ∙ sym (append_assoc xs (replicate m none) (none ∷ []))) in
      let first : previous ≡ wrap (length list) (previous + 0) = ground arith in
      record {
        bound = r.bound;
        capacity = length-set list previous v ∙ c;
        inside = l;
        fits = omega arith;
        slots =
            ap (λ i. rotate (set list i v) previous) first
            ∙ rotate-set list previous 0 (omega arith) (omega arith) v
            ∙ ap (λ ys. set ys 0 v) at_previous
            ∙ ap (v ∷◌) front;
      }

  -- Where an element has come in, the ring grows if it is full.
  settled-Holds :
      (k : ℕ) (q : RingQueue A) (xs : List (Option A))
      → Ring k q.list q.head xs
      → q.mask ≡ power k - 1
      → q.tail ≡ wrap (power k) (q.head + length xs)
      → 0 < length xs
      → length xs < 2 ^ 30
      → Holds (if q.tail == q.head then grow q else q) xs
  settled-Holds k q xs r m t some_in few =
      let i = r.inside in
      let f = r.fits in
      elim (Bool-cases (q.tail == q.head)) [
        | inl e ↦
            let same = (==_iff q.tail q.head).0 e in
            let full : length xs ≡ power k = ground arith in
            rw e (grow-Holds k q xs r full (exponent-small k r.bound (omega arith)) m same)
        | inr e ↦ rw e (record { exponent = k; ring = r; mask = m; free = ground arith; tail = t })
      ]

  -- `push(item)` appends the item, and returns the new length, for a queue that then has less than
  -- 2 ^ 30 elements.
  pub push-Holds :
      (item : Option A) (q : RingQueue A) (xs : List (Option A))
      → Holds q xs
      → suc (length xs) < 2 ^ 30
      → Holds (push item q).0 (xs ++ (item ∷ [])) × ((push item q).1 ≡ suc (length xs))
  unfolding push
  push-Holds item q xs h b =
      let n = length-append xs (item ∷ []) in
      let i = h.ring.inside in
      let f = h.free in
      let e = h.tail in
      let tail : and_add q.tail 1 q.mask
          ≡ wrap (power h.exponent) (q.head + length (xs ++ (item ∷ []))) =
        ap (and_add q.tail 1) h.mask
        ∙ and_add-wrap h.exponent h.ring.bound q.tail 1 (ground arith)
        ∙ ground arith in
      let ring =
        subst (λ t. Ring h.exponent (set q.list t item) q.head (xs ++ (item ∷ []))) (sym e)
          (Ring-append h.exponent q.list q.head xs item h.ring f) in
      let q1 = record q { list = set q.list q.tail item; tail = and_add q.tail 1 q.mask } in
      let done =
        settled-Holds h.exponent q1 (xs ++ (item ∷ [])) ring h.mask tail (omega arith)
          (omega arith) in
      (done, size-Holds done ∙ omega arith)

  -- `unshift(item)` puts the item in front, and returns the new length, for a queue that then has
  -- less than 2 ^ 30 elements.
  pub unshift-Holds :
      (item : Option A) (q : RingQueue A) (xs : List (Option A))
      → Holds q xs
      → suc (length xs) < 2 ^ 30
      → Holds (unshift item q).0 (item ∷ xs) × ((unshift item q).1 ≡ suc (length xs))
  unfolding unshift
  unshift-Holds item q xs h b =
      let i = h.ring.inside in
      let f = h.free in
      let e = h.tail in
      let head = and_sub q.head 1 q.mask in
      let before : head ≡ (
          if ltb q.head 1
          then q.head + power h.exponent - 1
          else wrap (power h.exponent) (q.head - 1)) =
        ap (and_sub q.head 1) h.mask
        ∙ and_sub-wrap h.exponent h.ring.bound q.head 1 (omega arith) (omega arith) in
      let inside : head < power h.exponent = ground arith in
      let tail : q.tail ≡ wrap (power h.exponent) (head + length (item ∷ xs)) = ground arith in
      let ring =
        Ring-prepend h.exponent q.list q.head head xs item h.ring f inside (ground arith) in
      let q1 = record q { head = head; list = set q.list head item } in
      let done =
        settled-Holds h.exponent q1 (item ∷ xs) ring h.mask tail (omega arith) (omega arith) in
      (done, size-Holds done)
