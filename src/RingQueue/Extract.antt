-- ===== src/RingQueue/Extract.antt =====
-- `shift` and `pop` of lib/ring_queue.js do what they do to a list.
use node_mysql.Prelude.{
  ℕ, zero, suc, ◌+◌, ◌-◌, ◌/◌, ◌≤◌, ◌<◌, ◌≡◌, refl, ap, ap₂, sym, ◌∙◌, true, false, ◌&&◌, Option,
  none, List, ◌++◌, [], ◌∷◌, arith, ltb, leb, ◌==◌, if◌then◌else◌, length, replicate, power,
  power-pos, wrap, set, get_or, take, drop, append_assoc, length-append, length-set, length-take,
  length-drop, inl, inr, Bool-cases, ==_iff, and_add, and_sub, and_sub-wrap, subst,
  take-append_left, take-append_right, drop_exact, drop-append_right, drop-take, drop-replicate,
  take-take,
}
use node_mysql.RingQueue.{RingQueue, shift, pop, shrink, min_shrink_tail}
use node_mysql.RingQueue.Rotate.{
  rotate, rotate-set, rotate-suc, set-middle, get_or-middle, replicate-snoc,
}
use node_mysql.RingQueue.Holds.{Ring, Holds, meets-Holds, mask_add, Ring-get_or}

module _ {ℓ} {A : Type ℓ} where
  take-replicate : (n m : ℕ) (a : A) → n ≤ m → take n (replicate m a) ≡ replicate n a
  take-replicate zero m a h = refl
  take-replicate (suc n) zero a h = absurd (omega arith)
  take-replicate (suc n) (suc m) a h = ap (a ∷◌) (take-replicate n m a (omega arith))

  replicate-add : (m n : ℕ) (a : A) → replicate m a ++ replicate n a ≡ replicate (m + n) a
  replicate-add zero n a = ap (λ k. replicate k a) {x = n} {y = zero + n} (omega arith)
  replicate-add (suc m) n a =
      ap (a ∷◌) (replicate-add m n a)
      ∙ ap (λ k. replicate k a) {x = suc (m + n)} {y = suc m + n} (omega arith)

module _ {ℓ} {A : Type ℓ} where
  -- An upper half without elements can go.
  Ring-shrink :
      (k : ℕ) (list : List (Option A)) (head : ℕ) (xs : List (Option A))
      → Ring (suc k) list head xs
      → head + length xs ≤ power k
      → head < power k
      → Ring k (take (length list / 2) list) head xs
  Ring-shrink k list head xs r h l =
      let c = r.capacity in
      let half : length list / 2 ≡ power k = omega arith in
      let m = power k + power k - length xs in
      let d = drop head list in
      let size-d : length d ≡ power k + power k - head = omega (arith, length-drop head list) in
      let front : take (power k - head) d ≡ xs ++ replicate (power k - head - length xs) none =
        sym (take-append_left (power k - head) d (take head list) (omega arith))
        ∙ ap (take (power k - head)) r.slots
        ∙ take-append_right (power k - head) xs (replicate m none) (omega arith)
        ∙ ap (λ ys. xs ++ ys) (take-replicate (power k - head - length xs) m none (omega arith)) in
      let back : take head list ≡ replicate head none =
        sym (drop_exact (power k + power k - head) d (take head list) (omega arith))
        ∙ ap (drop (power k + power k - head)) r.slots
        ∙ drop-append_right (power k + power k - head) xs (replicate m none) (omega arith)
        ∙ drop-replicate (power k + power k - head - length xs) m none
        ∙ ap (λ n. replicate n none) (omega arith) in
      record {
        bound = omega (arith, r.bound);
        capacity = length-take (length list / 2) list ∙ omega arith;
        inside = l;
        fits = omega arith;
        slots =
            ap (λ n. rotate (take n list) head) half
            ∙ ap₂ (◌++◌) (drop-take head (power k) list ∙ front)
                (take-take head (power k) list (omega arith) ∙ back)
            ∙ append_assoc xs (replicate (power k - head - length xs) none) (replicate head none)
            ∙ ap (λ ys. xs ++ ys)
                (replicate-add (power k - head - length xs) head none
                  ∙ ap (λ n. replicate n none) (omega arith));
      }

  -- Where an element has gone out, the ring may shrink.
  shrunk-Holds :
      (k : ℕ) (q : RingQueue A) (xs : List (Option A))
      → Ring k q.list q.head xs
      → q.mask ≡ power k - 1
      → length xs < power k
      → q.tail ≡ wrap (power k) (q.head + length xs)
      → q.head ≤ 2
      → min_shrink_tail ≤ q.tail
      → q.tail ≤ length q.list / 4
      → Holds (shrink q) xs
  unfolding shrink
  shrunk-Holds zero q xs r m f t a b c = absurd (omega (arith, r.capacity))
  shrunk-Holds (suc k) q xs r m f t a b c =
      let i = r.inside in
      let cap = r.capacity in
      let whole : q.tail ≡ q.head + length xs = ground arith in
      record {
        exponent = k;
        ring = Ring-shrink k q.list q.head xs r (omega arith) (omega arith);
        mask = omega (arith, power-pos k);
        free = omega arith;
        tail = ground arith;
      }

  -- `shift` and `pop` shrink the ring on the same condition.
  settled-Holds :
      (head tail capacity : ℕ) (q : RingQueue A) (xs : List (Option A))
      → Holds q xs
      → q.head ≤ head + 1
      → (min_shrink_tail < tail → (q.tail ≤ tail) × (tail ≤ q.tail + 1))
      → length q.list ≡ capacity
      → Holds
          (if ltb head 2 && (ltb min_shrink_tail tail && leb tail (capacity / 4))
            then shrink q
            else q)
          xs
  settled-Holds head tail capacity q xs h a b e =
      elim (Bool-cases (ltb head 2 && (ltb min_shrink_tail tail && leb tail (capacity / 4)))) [
        | inl y ↦
            let (close, near) = b (ground arith) in
            rw y (
              shrunk-Holds h.exponent q xs h.ring h.mask h.free h.tail (ground arith) (ground arith)
                (ground arith))
        | inr n ↦ rw n h
      ]

  -- The first slot, given back.
  pub Ring-rest :
      (k : ℕ) (list : List (Option A)) (head : ℕ) (x : Option A) (xs : List (Option A))
      → Ring k list head (x ∷ xs)
      → Ring k (set list head none) (wrap (power k) (head + 1)) xs
  Ring-rest k list head x xs r =
      let c = r.capacity in
      let i = r.inside in
      let f = r.fits in
      let m = power k - suc (length xs) in
      let same : length (set list head none) ≡ length list = length-set list head none in
      let first : head ≡ wrap (length list) (head + 0) = ground arith in
      let cleared : rotate (set list head none) head ≡ none ∷ (xs ++ replicate m none) =
        ap (λ i. rotate (set list i none) head) first
        ∙ rotate-set list head 0 (omega arith) (omega arith) none
        ∙ ap (λ ys. set ys 0 none) r.slots in
      let (y, ys, at_head, at_next) = rotate-suc (set list head none) head (omega arith) in
      let blank : y ≡ none = cc in
      let others : ys ≡ xs ++ replicate m none = cc in
      record {
        bound = r.bound;
        capacity = same ∙ c;
        inside = ground arith;
        fits = omega arith;
        slots =
            ap (λ n. rotate (set list head none) (wrap n (head + 1))) (sym c ∙ sym same)
            ∙ at_next
            ∙ ap₂ (λ zs z. zs ++ (z ∷ [])) others blank
            ∙ append_assoc xs (replicate m none) (none ∷ [])
            ∙ ap (λ zs. xs ++ zs) (replicate-snoc m none)
            ∙ ap (λ n. xs ++ replicate n none) {x = suc m} {y = power k - length xs} (omega arith);
      }

  -- The last slot with an element, given back.
  pub Ring-init :
      (k : ℕ) (list : List (Option A)) (head : ℕ) (x : Option A) (xs : List (Option A))
      → Ring k list head (xs ++ (x ∷ []))
      → Ring k (set list (wrap (power k) (head + length xs)) none) head xs
  Ring-init k list head x xs r =
      let c = r.capacity in
      let i = r.inside in
      let f = r.fits in
      let n = length-append xs (x ∷ []) in
      let blanks = replicate (power k - length (xs ++ (x ∷ []))) none in
      record {
        bound = r.bound;
        capacity = length-set list (wrap (power k) (head + length xs)) none ∙ c;
        inside = i;
        fits = omega arith;
        slots =
            ap (λ n. rotate (set list (wrap n (head + length xs)) none) head) (sym c)
            ∙ rotate-set list head (length xs) (omega arith) (omega arith) none
            ∙ ap (λ ys. set ys (length xs) none) (r.slots ∙ append_assoc xs (x ∷ []) blanks)
            ∙ set-middle xs blanks x none
            ∙ ap (λ n. xs ++ replicate n none) {x = suc (power k - length (xs ++ (x ∷ [])))}
                {y = power k - length xs} (omega arith);
      }

  -- `shift()` of an empty queue changes nothing and returns `undefined`.
  pub shift-nil : (q : RingQueue A) → Holds q [] → shift q ≡ (q, none)
  unfolding shift
  shift-nil q h = rw (meets-Holds h) refl

  -- `shift()` takes the first element off and returns it.
  pub shift-Holds :
      (q : RingQueue A) (x : Option A) (xs : List (Option A))
      → Holds q (x ∷ xs)
      → Holds (shift q).0 xs × ((shift q).1 ≡ x)
  unfolding shift
  shift-Holds q x xs h =
      let i = h.ring.inside in
      let f = h.free in
      let c = h.ring.capacity in
      let e = h.tail in
      let next : and_add q.head 1 q.mask ≡ wrap (power h.exponent) (q.head + 1) =
        mask_add h 1 (omega arith) in
      let q1 : RingQueue A = record q {
        list = set q.list q.head none;
        head = and_add q.head 1 q.mask;
      } in
      let rest : Holds q1 xs = record {
        exponent = h.exponent;
        ring =
            subst (λ n. Ring h.exponent (set q.list q.head none) n xs) (sym next)
              (Ring-rest h.exponent q.list q.head x xs h.ring);
        mask = h.mask;
        free = omega arith;
        tail = ground arith;
      } in
      let busy : (q.head == q.tail) ≡ false = meets-Holds h ∙ ground arith in
      let at_head : q.head ≡ wrap (power h.exponent) (q.head + 0) = ground arith in
      let item : get_or q.list q.head none ≡ x =
        ap (λ n. get_or q.list n none) at_head
        ∙ Ring-get_or h.exponent q.list q.head (x ∷ xs) 0 h.ring (omega arith) in
      rw busy (
        settled-Holds q.head q.tail (length (set q.list q.head none)) q1 xs rest (ground arith)
            (λ _. (omega arith, omega arith)) refl,
        item,
      )

  -- `pop()` of an empty queue changes nothing and returns `undefined`.
  pub pop-nil : (q : RingQueue A) → Holds q [] → pop q ≡ (q, none)
  unfolding pop
  pop-nil q h =
      let meets : (q.tail == q.head) ≡ true =
        (==_iff q.tail q.head).1 (sym ((==_iff q.head q.tail).0 (meets-Holds h))) in
      rw meets refl

  -- `pop()` takes the last element off and returns it.
  pub pop-Holds :
      (q : RingQueue A) (x : Option A) (xs : List (Option A))
      → Holds q (xs ++ (x ∷ []))
      → Holds (pop q).0 xs × ((pop q).1 ≡ x)
  unfolding pop
  pop-Holds q x xs h =
      let n = length-append xs (x ∷ []) in
      let i = h.ring.inside in
      let f = h.free in
      let c = h.ring.capacity in
      let e = h.tail in
      let last : and_sub q.tail 1 q.mask ≡ wrap (power h.exponent) (q.head + length xs) =
        ap (and_sub q.tail 1) h.mask
        ∙ and_sub-wrap h.exponent h.ring.bound q.tail 1 (ground arith) (omega arith)
        ∙ ground arith in
      let q1 : RingQueue A = record q {
        tail = and_sub q.tail 1 q.mask;
        list = set q.list (and_sub q.tail 1 q.mask) none;
      } in
      let rest : Holds q1 xs = record {
        exponent = h.exponent;
        ring =
            subst (λ n. Ring h.exponent (set q.list n none) q.head xs) (sym last)
              (Ring-init h.exponent q.list q.head x xs h.ring);
        mask = h.mask;
        free = omega arith;
        tail = last;
      } in
      let busy : (q.tail == q.head) ≡ false = ground arith in
      let item : get_or q.list (and_sub q.tail 1 q.mask) none ≡ x =
        ap (λ n. get_or q.list n none) last
        ∙ Ring-get_or h.exponent q.list q.head (xs ++ (x ∷ [])) (length xs) h.ring (omega arith)
        ∙ get_or-middle xs [] x none in
      rw busy (
        settled-Holds q.head q.tail (length q.list) q1 xs rest (omega arith)
            (λ big. (ground arith, ground arith))
            (length-set q.list (and_sub q.tail 1 q.mask) none),
        item,
      )
