-- ===== src/RingQueue/Tests.antt =====
-- Runs of the model of lib/ring_queue.js.
use node_mysql.Prelude.{ℕ, ◌≡◌, refl, Option, none, some, List, [], ◌∷◌, ◌++◌, arith, pos, negsuc}
use node_mysql.RingQueue.{
  RingQueue, new_queue, size, push, unshift, shift, pop, peek_at, remove_one, remove_at, remove,
  splice, splice_at, splice_count, grow, to_array, unroll, copy_slots, rebuild, enough, move_up,
  move_down, shrink,
}
use node_mysql.RingQueue.Holds.{Holds, new_queue-Holds}
use node_mysql.RingQueue.Insert.{push-Holds, unshift-Holds}
use node_mysql.RingQueue.Extract.{shift-Holds, pop-Holds}
use node_mysql.RingQueue.Peek.{peek_at-Holds}
use node_mysql.RingQueue.Remove.{remove_one-Holds}
use node_mysql.RingQueue.Cut.{remove-Holds}
use node_mysql.RingQueue.Splice.{splice-Holds}
use node_mysql.RingQueue.Refine.{
  Call, push_call, unshift_call, shift_call, pop_call, peek_at_call, remove_one_call, splice_call,
  to_array_call, Reply, count, item, items, run, list_run, answer, run-list_run,
}

abbrev start : RingQueue ℕ
start = record { list = none ∷ none ∷ none ∷ none ∷ []; mask = 3; head = 0; tail = 0 }

start-Holds : Holds start []
unfolding new_queue
start-Holds = new_queue-Holds

-- 7, 8 and 9 round the end of the array.
abbrev three : RingQueue ℕ
three = record { list = some 9 ∷ none ∷ some 7 ∷ some 8 ∷ []; mask = 3; head = 2; tail = 1 }

abbrev numbers : List (Option ℕ)
numbers = some 7 ∷ some 8 ∷ some 9 ∷ []

three-Holds : Holds three numbers
three-Holds = record {
  exponent = 2;
  ring = record {
    bound = omega arith;
    capacity = refl;
    inside = omega arith;
    fits = omega arith;
    slots = refl;
  };
  mask = refl;
  free = omega arith;
  tail = refl;
}

abbrev calls : List (Call ℕ)
calls =
    push_call (some 1)
    ∷ push_call (some 2)
    ∷ unshift_call (some 0)
    ∷ unshift_call (some 5)
    ∷ push_call (some 3)
    ∷ peek_at_call (negsuc 0)
    ∷ remove_one_call (pos 1)
    ∷ shift_call
    ∷ pop_call
    ∷ splice_call (pos 1) (some (pos 1)) (some 6 ∷ some 7 ∷ [])
    ∷ to_array_call
    ∷ []

abbrev replies : List (Reply ℕ)
replies =
    count 1
    ∷ count 2
    ∷ count 3
    ∷ count 4
    ∷ count 5
    ∷ item (some 3)
    ∷ item (some 0)
    ∷ item (some 5)
    ∷ item (some 3)
    ∷ items (some (some 2 ∷ []))
    ∷ items (some (some 1 ∷ some 6 ∷ some 7 ∷ []))
    ∷ []

run-calls : (run calls start).1 ≡ replies
unfolding run answer size push unshift shift pop peek_at remove_one remove_at splice splice_at
    splice_count grow to_array unroll copy_slots rebuild enough move_up move_down shrink
run-calls = refl

run-list_run_example :
    Holds (run calls start).0 (list_run calls []).0 × ((run calls start).1 ≡ (list_run calls []).1)
run-list_run_example = run-list_run calls start [] start-Holds (ground arith) (omega arith)

push-Holds_example :
    Holds (push (some 10) three).0 (numbers ++ (some 10 ∷ [])) × ((push (some 10) three).1 ≡ 4)
push-Holds_example = push-Holds (some 10) three numbers three-Holds (omega arith)

unshift-Holds_example :
    Holds (unshift (some 6) three).0 (some 6 ∷ numbers) × ((unshift (some 6) three).1 ≡ 4)
unshift-Holds_example = unshift-Holds (some 6) three numbers three-Holds (omega arith)

shift-Holds_example : Holds (shift three).0 (some 8 ∷ some 9 ∷ []) × ((shift three).1 ≡ some 7)
shift-Holds_example = shift-Holds three (some 7) (some 8 ∷ some 9 ∷ []) three-Holds

pop-Holds_example : Holds (pop three).0 (some 7 ∷ some 8 ∷ []) × ((pop three).1 ≡ some 9)
pop-Holds_example = pop-Holds three (some 9) (some 7 ∷ some 8 ∷ []) three-Holds

peek_at-Holds_example : peek_at (negsuc 0) three ≡ some 9
peek_at-Holds_example = peek_at-Holds (negsuc 0) three numbers three-Holds refl

remove_one-Holds_example :
    Holds (remove_one (pos 1) three).0 (some 7 ∷ some 9 ∷ [])
    × ((remove_one (pos 1) three).1 ≡ some 8)
remove_one-Holds_example = remove_one-Holds (pos 1) three numbers three-Holds refl

remove-Holds_example :
    Holds (remove (negsuc 1) (some (pos 5)) three).0 (some 7 ∷ [])
    × ((remove (negsuc 1) (some (pos 5)) three).1 ≡ some (some 8 ∷ some 9 ∷ []))
remove-Holds_example =
    remove-Holds (negsuc 1) (some (pos 5)) three numbers three-Holds (omega arith) refl refl

splice-Holds_example :
    Holds
      (splice (pos 1) none (some 3 ∷ some 4 ∷ []) three).0
      (some 7 ∷ some 3 ∷ some 4 ∷ some 9 ∷ [])
    × ((splice (pos 1) none (some 3 ∷ some 4 ∷ []) three).1 ≡ some (some 8 ∷ []))
splice-Holds_example =
    splice-Holds (pos 1) none (some 3 ∷ some 4 ∷ []) three numbers three-Holds (omega arith) refl
      refl
