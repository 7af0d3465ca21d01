-- ===== src/RingQueue/Refine.antt =====
-- lib/ring_queue.js as a whole: a sequence of calls on a queue answers what it answers on a list.
use node_mysql.Prelude.{
  ℕ, suc, ◌+◌, ◌-◌, ◌^◌, ◌≤◌, ◌<◌, ◌≡◌, refl, ap, ap₂, sym, subst, ◌∙◌, true, Option, none, some,
  List, ◌++◌, [], ◌∷◌, arith, length, All, take, drop, get_or, length-append, length-take,
  length-drop, drop_all, if◌then◌else◌, inl, inr, Bool-cases, ℤ, pos,
}
use node_mysql.RingQueue.{
  RingQueue, size, push, unshift, shift, pop, peek, peek_at, remove_one, remove, splice, clear,
  to_array, is_int32, is_outside, place,
}
use node_mysql.RingQueue.Holds.{Holds, size-Holds}
use node_mysql.RingQueue.Copy.{to_array-Holds}
use node_mysql.RingQueue.Insert.{push-Holds, unshift-Holds}
use node_mysql.RingQueue.Extract.{shift-nil, shift-Holds, pop-nil, pop-Holds}
use node_mysql.RingQueue.Peek.{element, peek-Holds, peek_at-Holds, clear-Holds}
use node_mysql.RingQueue.Gap.{without, split_at, length-without}
use node_mysql.RingQueue.Remove.{remove_one-Holds, place-lt}
use node_mysql.RingQueue.Cut.{removed, amount, length-removed, remove-Holds}
use node_mysql.RingQueue.Splice.{splice_list, splice-Holds, length-splice_list}

pub data Call {ℓ} (A : Type ℓ) : Type ℓ where
  push_call unshift_call : Option A → Call A
  shift_call pop_call peek_call clear_call to_array_call size_call : Call A
  peek_at_call remove_one_call : ℤ → Call A
  remove_call : ℤ → Option ℤ → Call A
  splice_call : ℤ → Option ℤ → List (Option A) → Call A

pub data Reply {ℓ} (A : Type ℓ) : Type ℓ where
  nothing : Reply A
  count : ℕ → Reply A
  item : Option A → Reply A
  items : Option (List (Option A)) → Reply A

module _ {ℓ} {A : Type ℓ} where
  -- One call of a queue.
  unfoldable pub answer : Call A → RingQueue A → RingQueue A × Reply A
  answer (push_call x) q = ((push x q).0, count (push x q).1)
  answer (unshift_call x) q = ((unshift x q).0, count (unshift x q).1)
  answer shift_call q = ((shift q).0, item (shift q).1)
  answer pop_call q = ((pop q).0, item (pop q).1)
  answer peek_call q = (q, item (peek q))
  answer clear_call q = (clear q, nothing)
  answer to_array_call q = (q, items (some (to_array q)))
  answer size_call q = (q, count (size q))
  answer (peek_at_call i) q = (q, item (peek_at i q))
  answer (remove_one_call i) q = ((remove_one i q).0, item (remove_one i q).1)
  answer (remove_call i n) q = ((remove i n q).0, items (remove i n q).1)
  answer (splice_call i n new_items) q =
      ((splice i n new_items q).0, items (splice i n new_items q).1)

  unfoldable pub run : List (Call A) → RingQueue A → RingQueue A × List (Reply A)
  run [] q = (q, [])
  run (c ∷ cs) q =
      let (q1, reply) = answer c q in let (q2, replies) = run cs q1 in (q2, reply ∷ replies)

  -- The same calls of a list.
  unfoldable pub list_answer : Call A → List (Option A) → List (Option A) × Reply A
  list_answer (push_call x) xs = (xs ++ (x ∷ []), count (suc (length xs)))
  list_answer (unshift_call x) xs = (x ∷ xs, count (suc (length xs)))
  list_answer shift_call xs = (drop 1 xs, item (get_or xs 0 none))
  list_answer pop_call xs = (take (length xs - 1) xs, item (get_or xs (length xs - 1) none))
  list_answer peek_call xs = (xs, item (get_or xs 0 none))
  list_answer clear_call xs = ([], nothing)
  list_answer to_array_call xs = (xs, items (some xs))
  list_answer size_call xs = (xs, count (length xs))
  list_answer (peek_at_call i) xs = (xs, item (element xs i))
  list_answer (remove_one_call i) xs = (
    if is_outside (length xs) i then xs else without (place (length xs) i) xs,
    item (if is_outside (length xs) i then none else element xs i),
  )
  list_answer (remove_call i n) xs = ((removed i n xs).0, items (removed i n xs).1)
  list_answer (splice_call i n new_items) xs =
      ((splice_list i n new_items xs).0, items (splice_list i n new_items xs).1)

  unfoldable pub list_run : List (Call A) → List (Option A) → List (Option A) × List (Reply A)
  list_run [] xs = (xs, [])
  list_run (c ∷ cs) xs =
      let (ys, reply) = list_answer c xs in
      let (zs, replies) = list_run cs ys in (zs, reply ∷ replies)

  -- The elements that a call may add.
  abbrev pub added : Call A → ℕ
  added (push_call x) = 1
  added (unshift_call x) = 1
  added (splice_call i n new_items) = length new_items
  added _ = 0

  abbrev pub added_by : List (Call A) → ℕ
  added_by [] = 0
  added_by (c ∷ cs) = added c + added_by cs

  -- The indices and counts of a call are whole numbers of 32 bits.
  abbrev pub IsCall : Call A → Type 0
  IsCall (peek_at_call i) = is_int32 i ≡ true
  IsCall (remove_one_call i) = is_int32 i ≡ true
  IsCall (remove_call i n) = (is_int32 i ≡ true) × (is_int32 (pos (amount n)) ≡ true)
  IsCall (splice_call i n new_items) = (is_int32 i ≡ true) × (is_int32 (pos (amount n)) ≡ true)
  IsCall _ = Unit

  pop-list :
      (q : RingQueue A) (xs : List (Option A))
      → Holds q xs
      → Holds (pop q).0 (take (length xs - 1) xs) × ((pop q).1 ≡ get_or xs (length xs - 1) none)
  pop-list q [] h = (subst (λ r. Holds r.0 []) (sym (pop-nil q h)) h, ap (λ r. r.1) (pop-nil q h))
  pop-list q (x ∷ xs) h =
      let n = length (x ∷ xs) - 1 in
      let behind : drop (suc n) (x ∷ xs) ≡ [] = drop_all (suc n) (x ∷ xs) (omega arith) in
      let last : x ∷ xs ≡ take n (x ∷ xs) ++ (get_or (x ∷ xs) n none ∷ []) =
        split_at n (x ∷ xs) (omega arith)
        ∙ ap (λ ys. take n (x ∷ xs) ++ (get_or (x ∷ xs) n none ∷ ys)) behind in
      pop-Holds q (get_or (x ∷ xs) n none) (take n (x ∷ xs)) (subst (Holds q) last h)

  shift-list :
      (q : RingQueue A) (xs : List (Option A))
      → Holds q xs
      → Holds (shift q).0 (drop 1 xs) × ((shift q).1 ≡ get_or xs 0 none)
  shift-list q [] h =
      (subst (λ r. Holds r.0 []) (sym (shift-nil q h)) h, ap (λ r. r.1) (shift-nil q h))
  shift-list q (x ∷ xs) h = shift-Holds q x xs h

  answer-list :
      (c : Call A) (q : RingQueue A) (xs : List (Option A))
      → Holds q xs
      → IsCall c
      → added c + length xs < 2 ^ 30
      → Holds (answer c q).0 (list_answer c xs).0 × ((answer c q).1 ≡ (list_answer c xs).1)
  unfolding answer list_answer
  answer-list (push_call x) q xs h v b =
      let (holds, n) = push-Holds x q xs h (omega arith) in (holds, ap count n)
  answer-list (unshift_call x) q xs h v b =
      let (holds, n) = unshift-Holds x q xs h (omega arith) in (holds, ap count n)
  answer-list shift_call q xs h v b = let (holds, e) = shift-list q xs h in (holds, ap item e)
  answer-list pop_call q xs h v b = let (holds, e) = pop-list q xs h in (holds, ap item e)
  answer-list peek_call q xs h v b = (h, ap item (peek-Holds q xs h))
  answer-list clear_call q xs h v b = (clear-Holds q xs h, refl)
  answer-list to_array_call q xs h v b = (h, ap (λ ys. items (some ys)) (to_array-Holds h))
  answer-list size_call q xs h v b = (h, ap count (size-Holds h))
  answer-list (peek_at_call i) q xs h v b = (h, ap item (peek_at-Holds i q xs h v))
  answer-list (remove_one_call i) q xs h v b =
      let (holds, e) = remove_one-Holds i q xs h v in (holds, ap item e)
  answer-list (remove_call i n) q xs h (v, w) b =
      let (holds, e) = remove-Holds i n q xs h (omega arith) v w in (holds, ap items e)
  answer-list (splice_call i n new_items) q xs h (v, w) b =
      let (holds, e) = splice-Holds i n new_items q xs h b v w in (holds, ap items e)

  length-list_answer :
      (c : Call A) (xs : List (Option A)) → length (list_answer c xs).0 ≤ added c + length xs
  unfolding list_answer
  length-list_answer (push_call x) xs = omega (arith, length-append xs (x ∷ []))
  length-list_answer (unshift_call x) xs = omega arith
  length-list_answer shift_call xs = omega (arith, length-drop 1 xs)
  length-list_answer pop_call xs = omega (arith, length-take (length xs - 1) xs)
  length-list_answer peek_call xs = omega arith
  length-list_answer clear_call xs = omega arith
  length-list_answer to_array_call xs = omega arith
  length-list_answer size_call xs = omega arith
  length-list_answer (peek_at_call i) xs = omega arith
  length-list_answer (remove_one_call i) xs = elim (Bool-cases (is_outside (length xs) i)) [
    | inl out ↦ rw out (omega arith)
    | inr inside ↦
        rw inside
          (omega (arith, length-without (place (length xs) i) xs (place-lt (length xs) i inside)))
  ]
  length-list_answer (remove_call i n) xs = omega (arith, length-removed i n xs)
  length-list_answer (splice_call i n new_items) xs = length-splice_list i n new_items xs

  -- A queue that holds a list, with room for what the calls add (less than 2 ^ 30 elements in all),
  -- answers every sequence of calls as the list does, and then holds what the list has become.
  pub run-list_run :
      (cs : List (Call A)) (q : RingQueue A) (xs : List (Option A))
      → Holds q xs
      → All IsCall cs
      → added_by cs + length xs < 2 ^ 30
      → Holds (run cs q).0 (list_run cs xs).0 × ((run cs q).1 ≡ (list_run cs xs).1)
  unfolding run list_run
  run-list_run [] q xs h v b = (h, refl)
  run-list_run (c ∷ cs) q xs h (v, vs) b =
      let (holds, reply) = answer-list c q xs h v (omega arith) in
      let (last, replies) =
        run-list_run cs (answer c q).0 (list_answer c xs).0 holds vs
          (omega (arith, length-list_answer c xs)) in
      (last, ap₂ (λ r rs. r ∷ rs) reply replies)
