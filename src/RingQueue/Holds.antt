-- ===== src/RingQueue/Holds.antt =====
-- What the fields of a queue of lib/ring_queue.js say of its elements, and its size.
use node_mysql.Prelude.{
  ℕ, ◌+◌, ◌-◌, ◌≤◌, ◌<◌, ◌≡◌, refl, ap, ap₂, sym, ◌∙◌, Option, none, List, ◌++◌, [], arith, ◌==◌,
  length, replicate, power, wrap, and_sub-wrap, and_sub, and_add, and_add-wrap, get_or,
  get_or-append_left,
}
use node_mysql.RingQueue.{RingQueue, size, new_queue}
use node_mysql.RingQueue.Rotate.{rotate, get_or-rotate}

-- From the head on the array, of 2 ^ k slots, holds `xs`, and then no element: a slot that is given
-- back is cleared.
pub record Ring {ℓ} {A : Type ℓ} (k : ℕ) (list : List (Option A)) (head : ℕ) (xs : List (Option A))
    : Type ℓ where
  pub bound : k ≤ 30
  pub capacity : length list ≡ power k
  pub inside : head < power k
  pub fits : length xs ≤ power k
  pub slots : rotate list head ≡ xs ++ replicate (power k - length xs) none

-- Between two calls one slot at least is free.
pub record Holds {ℓ} {A : Type ℓ} (q : RingQueue A) (xs : List (Option A)) : Type ℓ where
  pub exponent : ℕ
  pub ring : Ring exponent q.list q.head xs
  pub mask : q.mask ≡ power exponent - 1
  pub free : length xs < power exponent
  pub tail : q.tail ≡ wrap (power exponent) (q.head + length xs)

-- The size by the tail and the head, which the array's end may part.
size_between :
    (k head n : ℕ)
    → k ≤ 30
    → head < power k
    → n < power k
    → and_sub (wrap (power k) (head + n)) head (power k - 1) ≡ n
size_between k head n b h l =
    and_sub-wrap k b (wrap (power k) (head + n)) head (ground arith) (omega arith) ∙ ground arith

module _ {ℓ} {A : Type ℓ} where
  pub new_queue-Holds : Holds (new_queue {A = A}) []
  unfolding new_queue
  new_queue-Holds = record {
    exponent = 2;
    ring = record {
      bound = omega arith;
      capacity = refl;
      inside = omega arith;
      fits = omega arith;
      slots = refl;
    };
    mask = refl;
    free = omega arith;
    tail = refl;
  }

  pub size-Holds : {q : RingQueue A} {xs : List (Option A)} → Holds q xs → size q ≡ length xs
  unfolding size
  size-Holds {q} {xs} h =
      ap₂ (λ tail mask. and_sub tail q.head mask) h.tail h.mask
      ∙ size_between h.exponent q.head (length xs) h.ring.bound h.ring.inside h.free

  -- The head and the tail meet where the queue is empty.
  pub meets-Holds :
      {q : RingQueue A} {xs : List (Option A)} → Holds q xs → (q.head == q.tail) ≡ (length xs == 0)
  meets-Holds {q} {xs} h = let e = h.tail in let f = h.free in let i = h.ring.inside in ground arith

  pub mask_add :
      {q : RingQueue A} {xs : List (Option A)} (h : Holds q xs) (i : ℕ)
      → i < power h.exponent
      → and_add q.head i q.mask ≡ wrap (power h.exponent) (q.head + i)
  mask_add {q} h i l =
      ap (and_add q.head i) h.mask
      ∙ and_add-wrap h.exponent h.ring.bound q.head i (omega (arith, h.ring.inside))

  -- The element at a place of the list.
  pub Ring-get_or :
      (k : ℕ) (list : List (Option A)) (head : ℕ) (xs : List (Option A)) (i : ℕ)
      → Ring k list head xs
      → i < length xs
      → get_or list (wrap (power k) (head + i)) none ≡ get_or xs i none
  Ring-get_or k list head xs i r l =
      let c = r.capacity in
      let f = r.fits in
      let h = r.inside in
      ap (λ n. get_or list (wrap n (head + i)) none) (sym c)
      ∙ get_or-rotate list head i (omega arith) (omega arith) none
      ∙ ap (λ ys. get_or ys i none) r.slots
      ∙ get_or-append_left i xs (replicate (power k - length xs) none) none l
