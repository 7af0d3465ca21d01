-- ===== src/RingQueue/Copy.antt =====
-- The copying loops of lib/ring_queue.js: `toArray` and `_grow`.
use node_mysql.Prelude.{
  ℕ, zero, suc, ◌+◌, ◌-◌, ◌*◌, ◌%◌, ◌^◌, ◌≤◌, ◌<◌, ◌≡◌, refl, ap, ap₂, sym, ◌∙◌, Option, none, List,
  ◌++◌, [], ◌∷◌, arith, leb, ◌==◌, if◌then◌else◌, length, replicate, power, shift_left_1_or_1_lem,
  power-small, set, get_or, take, drop, overlay, overlay-nil, overlay-append, overlay_front,
  overlay_all, drop-replicate, append-nil, take_exact, take_all, length-drop, length-take,
  length-append, length-replicate, take-append_left, take-take, power-pos, shift_left_1_or_1,
  take-append_right, inl, inr, Bool-cases, leb→le, ==_iff, subst,
}
use node_mysql.RingQueue.{RingQueue, size, copy_slots, unroll, to_array, grow}
use node_mysql.RingQueue.Rotate.{rotate, drop-step}
use node_mysql.RingQueue.Holds.{Ring, Holds, size-Holds}

module _ {ℓ} {A : Type ℓ} where
  set-overlay : (xs : List (Option A)) (i : ℕ) (v : Option A) → set xs i v ≡ overlay xs i (v ∷ [])
  set-overlay [] i v = refl
  set-overlay (x ∷ xs) zero v = ap (v ∷◌) (sym (overlay-nil xs zero))
  set-overlay (x ∷ xs) (suc i) v = ap (x ∷◌) (set-overlay xs i v)

  pub first-drop :
      (n : ℕ) (xs ys : List (Option A)) (x : Option A) → drop n xs ≡ x ∷ ys → get_or xs n none ≡ x
  first-drop n [] ys x e = absurd (omega (arith, ap length e, length-drop {A = Option A} n []))
  first-drop zero (x ∷ xs) ys y e = cc
  first-drop (suc n) (x ∷ xs) ys y e = first-drop n xs ys y e

  -- The slots one after the other are copied as one block.
  pub copy_slots-overlay :
      (n : ℕ) (list : List (Option A)) (slot : ℕ) (to : List (Option A)) (count : ℕ)
      → slot + n ≤ length list
      → copy_slots n list slot to count ≡ (overlay to count (take n (drop slot list)), count + n)
  unfolding copy_slots
  copy_slots-overlay zero list slot to count h =
      ap₂ (λ xs n. (xs, n)) (sym (overlay-nil to count)) (omega arith)
  copy_slots-overlay (suc n) list slot to count h =
      let (x, d, _) = drop-step slot list (omega arith) in
      let value = first-drop slot list (drop (suc slot) list) x d in
      let next : drop (slot + 1) list ≡ drop (suc slot) list =
        ap (λ k. drop k list) {y = suc slot} (omega arith) in
      let rest = take n (drop (suc slot) list) in
      copy_slots-overlay n list (slot + 1) (set to count (get_or list slot none)) (count + 1)
        (omega arith)
      ∙ ap₂ (λ xs n. (xs, n))
          (ap₂ (λ ys tail. overlay ys (count + 1) (take n tail))
              (ap (set to count) value ∙ set-overlay to count x) next
            ∙ overlay-append to count (count + 1) (x ∷ []) rest refl
            ∙ ap (λ ys. overlay to count (take (suc n) ys)) (sym d))
          (omega arith)

  -- Both loops copy the slots from the head on, and then those before the tail.
  unroll-overlay :
      (q : RingQueue A) (to : List (Option A))
      → q.head ≤ length q.list
      → q.tail ≤ length q.list
      → unroll q to ≡ overlay to 0 (drop q.head q.list ++ take q.tail q.list)
  unfolding unroll
  unroll-overlay q to h k =
      let n = length q.list - q.head in
      let whole : take n (drop q.head q.list) ≡ drop q.head q.list =
        take_all n (drop q.head q.list) (omega (arith, length-drop q.head q.list)) in
      let size : 0 + n ≡ 0 + length (drop q.head q.list) =
        omega (arith, length-drop q.head q.list) in
      ap (λ r. (copy_slots q.tail q.list 0 r.0 r.1).0)
        (copy_slots-overlay n q.list q.head to 0 (omega arith))
      ∙ ap (λ r. r.0) (copy_slots-overlay q.tail q.list 0 _ (0 + n) (omega arith))
      ∙ ap (λ xs. overlay (overlay to 0 xs) (0 + n) (take q.tail q.list)) whole
      ∙ overlay-append to 0 (0 + n) (drop q.head q.list) (take q.tail q.list) size

  to_array-parts :
      (q : RingQueue A)
      → q.head < length q.list
      → q.tail < length q.list
      → size q ≡ (if leb q.head q.tail then q.tail - q.head else q.tail + length q.list - q.head)
      → to_array q ≡ take (size q) (rotate q.list q.head)
  unfolding to_array
  to_array-parts q h k e = elim (Bool-cases (leb q.head q.tail)) [
    | inl l ↦
        let le = leb→le q.head q.tail l in
        let n : q.tail - q.head ≡ size q = ground arith in
        rw l (
          ap (λ n. take n (drop q.head q.list)) n
          ∙ sym (
              take-append_left (size q) (drop q.head q.list) (take q.head q.list)
                (omega (arith, length-drop q.head q.list))))
    | inr l ↦
        let n : size q ≡ q.tail + length q.list - q.head = ground arith in
        let part = drop q.head q.list ++ take q.tail q.list in
        let room : length (replicate {A = Option A} (size q) none) ≡ length part = omega (
          arith,
          length-replicate {A = Option A} (size q) none,
          length-append (drop q.head q.list) (take q.tail q.list),
          length-drop q.head q.list,
          length-take q.tail q.list,
        ) in
        rw l (
          unroll-overlay q (replicate (size q) none) (omega arith) (omega arith)
          ∙ overlay_all (replicate (size q) none) part room
          ∙ ap (λ xs. drop q.head q.list ++ xs)
              (sym (take-take q.tail q.head q.list (ground arith))
                ∙ ap (λ n. take n (take q.head q.list)) (omega (arith, length-drop q.head q.list)))
          ∙ sym (
              take-append_right (size q) (drop q.head q.list) (take q.head q.list)
                (omega (arith, length-drop q.head q.list))))
  ]

  size-parts :
      (q : RingQueue A) (xs : List (Option A)) (h : Holds q xs)
      → size q ≡ (if leb q.head q.tail then q.tail - q.head else q.tail + length q.list - q.head)
  size-parts q xs h =
      let t = h.tail in
      let f = h.free in
      let i = h.ring.inside in let c = h.ring.capacity in size-Holds h ∙ ground arith

  pub to_array-Holds : {q : RingQueue A} {xs : List (Option A)} → Holds q xs → to_array q ≡ xs
  to_array-Holds {q} {xs} h =
      let t = h.tail in
      let f = h.free in
      let i = h.ring.inside in
      let c = h.ring.capacity in
      to_array-parts q (omega arith) (ground arith) (size-parts q xs h)
      ∙ ap₂ take (size-Holds h) h.ring.slots
      ∙ take_exact (length xs) xs (replicate (power h.exponent - length xs) none) refl

  -- A full ring gets twice the slots, and its elements begin at the first one.
  module _ (k : ℕ) (q : RingQueue A) (xs : List (Option A)) (r : Ring k q.list q.head xs)
      (full : length xs ≡ power k) (small : k < 30) (m : q.mask ≡ power k - 1)
      (t : q.tail ≡ q.head) where
    doubled : length q.list * 2 % 2 ^ 32 ≡ power k + power k
    doubled = omega (arith, power-small k r.bound, r.capacity)

    elements : rotate q.list q.head ≡ xs
    elements =
        let none_left : power k - length xs ≡ 0 = omega arith in
        r.slots ∙ ap (λ n. xs ++ replicate n none) none_left ∙ append-nil xs

    grown-Holds :
        (list : List (Option A))
        → list ≡ xs ++ replicate (power k) none
        → Holds
            (record q {
              list = list;
              head = 0;
              tail = length q.list;
              mask = shift_left_1_or_1 q.mask;
            })
            xs
    grown-Holds list e =
        let p = power-pos k in
        record {
          exponent = suc k;
          ring = record {
            bound = omega arith;
            capacity = omega (
              arith,
              ap length e,
              length-append xs (replicate (power k) none),
              length-replicate {A = Option A} (power k) none,
            );
            inside = omega arith;
            fits = omega arith;
            slots =
                append-nil list
                ∙ e
                ∙ ap (λ n. xs ++ replicate n none) {x = power k} {y = power k + power k - length xs}
                    (omega arith);
          };
          mask = shift_left_1_or_1_lem q.mask (omega (arith, power-small k r.bound)) ∙ omega arith;
          free = omega arith;
          tail = r.capacity ∙ ground arith;
        }

    unrolled :
        unroll q (replicate (length q.list * 2 % 2 ^ 32) none) ≡ xs ++ replicate (power k) none
    unrolled =
        let to = replicate {A = Option A} (power k + power k) none in
        let i = r.inside in
        let c = r.capacity in
        ap (λ n. unroll q (replicate n none)) doubled
        ∙ unroll-overlay q to (omega arith) (omega arith)
        ∙ ap (λ n. overlay to 0 (drop q.head q.list ++ take n q.list)) t
        ∙ ap (overlay to 0) elements
        ∙ overlay_front to xs
            (omega (arith, length-replicate {A = Option A} (power k + power k) none))
        ∙ ap (λ ys. xs ++ ys) (drop-replicate (length xs) (power k + power k) none)
        ∙ ap (λ n. xs ++ replicate n none) {x = power k + power k - length xs} {y = power k}
            (omega arith)

    pub grow-Holds : Holds (grow q) xs
    unfolding grow
    grow-Holds = elim (Bool-cases (q.head == 0)) [
      | inl z ↦
          let at_start : q.head ≡ 0 = (==_iff q.head 0).0 z in
          let list : q.list ≡ xs =
            sym (append-nil q.list) ∙ ap (rotate q.list) (sym at_start) ∙ elements in
          let more : length q.list * 2 % 2 ^ 32 - length q.list ≡ power k =
            omega (arith, doubled, r.capacity) in
          rw z (
            subst
              (λ h.
                Holds
                  (record {
                    list = q.list ++ replicate (length q.list * 2 % 2 ^ 32 - length q.list) none;
                    mask = shift_left_1_or_1 q.mask;
                    head = h;
                    tail = length q.list;
                  })
                  xs)
              (sym at_start) (grown-Holds _ (ap₂ (λ ys n. ys ++ replicate n none) list more)))
      | inr n ↦ rw n (grown-Holds _ unrolled)
    ]
