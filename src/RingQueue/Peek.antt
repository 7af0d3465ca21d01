-- ===== src/RingQueue/Peek.antt =====
-- The peeks and `clear` of lib/ring_queue.js do what they do to a list.
use node_mysql.Prelude.{
  ℕ, zero, suc, ◌+◌, ◌-◌, ◌≤◌, ◌<◌, ◌≡◌, refl, ap, sym, ◌∙◌, true, false, Option, none, List, [],
  ◌∷◌, arith, ltb, leb, ◌==◌, if◌then◌else◌, length, replicate, power, power-pos, wrap, get_or,
  append-nil, length-replicate, inl, inr, Bool-cases, and_add, ℤ, pos, negsuc,
}
use node_mysql.RingQueue.{RingQueue, peek, peek_at, clear, is_int32}
use node_mysql.RingQueue.Holds.{Holds, size-Holds, meets-Holds, mask_add, Ring-get_or}

module _ {ℓ} {A : Type ℓ} where
  -- `peek()` returns the first element, or `undefined` if there is none.
  pub peek-Holds : (q : RingQueue A) (xs : List (Option A)) → Holds q xs → peek q ≡ get_or xs 0 none
  unfolding peek
  peek-Holds q [] h = rw (meets-Holds h) refl
  peek-Holds q (x ∷ xs) h =
      let i = h.ring.inside in
      let busy : (q.head == q.tail) ≡ false = meets-Holds h ∙ ground arith in
      let at_head : q.head ≡ wrap (power h.exponent) (q.head + 0) = ground arith in
      rw busy (
        ap (λ n. get_or q.list n none) at_head
        ∙ Ring-get_or h.exponent q.list q.head (x ∷ xs) 0 h.ring (omega arith))

  -- An element by its index, from the front or from the back; out of range there is none.
  abbrev pub element : List (Option A) → ℤ → Option A
  element xs (pos i) = get_or xs i none
  element xs (negsuc i) =
      if ltb (length xs) (suc i) then none else get_or xs (length xs - suc i) none

  get_or-outside : (xs : List (Option A)) (i : ℕ) → length xs ≤ i → get_or xs i none ≡ none
  get_or-outside [] i h = refl
  get_or-outside (x ∷ xs) zero h = absurd (omega arith)
  get_or-outside (x ∷ xs) (suc i) h = get_or-outside xs i (omega arith)

  read_at :
      (q : RingQueue A) (xs : List (Option A)) (i : ℕ)
      → Holds q xs
      → i < length xs
      → get_or q.list (and_add q.head i q.mask) none ≡ get_or xs i none
  read_at q xs i h l =
      let f = h.free in
      ap (λ n. get_or q.list n none) (mask_add h i (omega arith))
      ∙ Ring-get_or h.exponent q.list q.head xs i h.ring l

  -- `peekAt(index)` returns the element of a whole number of 32 bits, counted from the end if it is
  -- negative, and `undefined` out of range.
  pub peek_at-Holds :
      (index : ℤ) (q : RingQueue A) (xs : List (Option A))
      → Holds q xs
      → is_int32 index ≡ true
      → peek_at index q ≡ element xs index
  unfolding peek_at
  peek_at-Holds (pos i) q xs h w =
      let s = size-Holds h in
      rw w (elim (Bool-cases (leb (length xs) i)) [
        | inl out ↦ rw (s, out) (sym (get_or-outside xs i (ground arith)))
        | inr in_ ↦ rw (s, in_) (read_at q xs i h (ground arith))
      ])
  peek_at-Holds (negsuc i) q xs h w =
      let s = size-Holds h in
      rw w (elim (Bool-cases (ltb (length xs) (suc i))) [
        | inl out ↦ rw (s, out) refl
        | inr in_ ↦ rw (s, in_) (read_at q xs (length xs - suc i) h (ground arith))
      ])

  -- `clear()` leaves no element.
  pub clear-Holds : (q : RingQueue A) (xs : List (Option A)) → Holds q xs → Holds (clear q) []
  unfolding clear
  clear-Holds q xs h =
      let c = h.ring.capacity in
      let p = power-pos h.exponent in
      record {
        exponent = h.exponent;
        ring = record {
          bound = h.ring.bound;
          capacity = length-replicate (length q.list) none ∙ c;
          inside = p;
          fits = omega arith;
          slots =
              append-nil (replicate (length q.list) none)
              ∙ ap (λ n. replicate n none) (omega arith);
        };
        mask = h.mask;
        free = p;
        tail = ground arith;
      }
