-- ===== src/RingQueue.antt =====
-- lib/ring_queue.js: a queue in an array that is a ring. A slot or an element is `none` where it is
-- `undefined`. The numbers given as an index or a count are whole numbers.
pub mod Rotate
pub mod Holds
pub mod Copy
pub mod Insert
pub mod Extract
pub mod Peek
pub mod Gap
pub mod Remove
pub mod Cut
pub mod Splice
pub mod Refine
mod Tests
use node_mysql.Prelude.{
  ℕ, zero, suc, ◌+◌, ◌-◌, ◌*◌, ◌/◌, ◌^◌, Bool, true, false, not, ◌&&◌, ◌||◌, Option, none, some,
  List, [], ◌∷◌, ◌++◌, ltb, leb, ◌==◌, if◌then◌else◌, length, get_or, set, take, drop, slice,
  replicate, ℤ, pos, negsuc, and_add, and_sub, shift_left_1, shift_left_1_or_1,
}

abbrev pub min_shrink_tail : ℕ
min_shrink_tail = 10000

pub record RingQueue {ℓ} (A : Type ℓ) : Type ℓ where
  pub list : List (Option A)
  pub mask : ℕ
  pub head : ℕ
  pub tail : ℕ

-- `x === (x | 0)` for a whole number.
abbrev pub is_int32 : ℤ → Bool
is_int32 (pos n) = ltb n (2 ^ 31)
is_int32 (negsuc n) = ltb n (2 ^ 31)

-- `index >= size || index < -size`
abbrev pub is_outside : ℕ → ℤ → Bool
is_outside size (pos i) = leb size i
is_outside size (negsuc i) = ltb size (suc i)

-- `if (index < 0) index += size`
abbrev pub from_start : ℕ → ℤ → ℤ
from_start size (pos i) = pos i
from_start size (negsuc i) = if leb (suc i) size then pos (size - suc i) else negsuc (i - size)

-- The index of an element that is not outside.
abbrev pub place : ℕ → ℤ → ℕ
place size (pos i) = i
place size (negsuc i) = size - suc i

-- `index > size`
abbrev is_behind : ℕ → ℤ → Bool
is_behind n (pos i) = ltb n i
is_behind n (negsuc i) = false

-- `while (items.length >= capacity) capacity <<= 1`
unfoldable pub enough : ℕ → ℕ → ℕ → ℕ
enough zero items capacity = capacity
enough (suc fuel) items capacity =
    let more = enough fuel items (shift_left_1 capacity) in
    if leb capacity items then more else capacity

module _ {ℓ} {A : Type ℓ} where
  unfoldable pub new_queue : RingQueue A
  new_queue = record { list = replicate 4 none; mask = 3; head = 0; tail = 0 }

  -- `length`, `size()`
  unfoldable pub size : RingQueue A → ℕ
  size q = and_sub q.tail q.head q.mask

  unfoldable pub is_empty : RingQueue A → Bool
  is_empty q = q.head == q.tail

  -- `to[count++] = list[slot]` for a number of slots one after the other: the array, and the count.
  unfoldable pub copy_slots : ℕ → List (Option A) → ℕ → List (Option A) → ℕ → List (Option A) × ℕ
  copy_slots zero list slot to count = (to, count)
  copy_slots (suc n) list slot to count =
      copy_slots n list (slot + 1) (set to count (get_or list slot none)) (count + 1)

  -- The two loops that `toArray` and `_grow` have: the slots from the head on, then those before the tail.
  unfoldable pub unroll : RingQueue A → List (Option A) → List (Option A)
  unroll q to =
      let (first, count) = copy_slots (length q.list - q.head) q.list q.head to 0 in
      (copy_slots q.tail q.list 0 first count).0

  unfoldable pub to_array : RingQueue A → List (Option A)
  to_array q =
      if leb q.head q.tail then slice q.list q.head q.tail else unroll q (replicate (size q) none)

  unfoldable pub grow : RingQueue A → RingQueue A
  grow q =
      let capacity = length q.list in
      let doubled = shift_left_1 capacity in
      if q.head == 0
      then record q {
        tail = capacity;
        list = q.list ++ replicate (doubled - capacity) none;
        mask = shift_left_1_or_1 q.mask;
      }
      else record q {
        list = unroll q (replicate doubled none);
        head = 0;
        tail = capacity;
        mask = shift_left_1_or_1 q.mask;
      }

  unfoldable pub shrink : RingQueue A → RingQueue A
  shrink q = record q { list = take (length q.list / 2) q.list; mask = q.mask / 2 }

  unfoldable pub push : Option A → RingQueue A → RingQueue A × ℕ
  push item q =
      let q1 = record q { list = set q.list q.tail item; tail = and_add q.tail 1 q.mask } in
      let q2 = (if q1.tail == q1.head then grow q1 else q1) in (q2, size q2)

  unfoldable pub unshift : Option A → RingQueue A → RingQueue A × ℕ
  unshift item q =
      let head = and_sub q.head 1 q.mask in
      let q1 = record q { head = head; list = set q.list head item } in
      let q2 = (if q1.tail == q1.head then grow q1 else q1) in (q2, size q2)

  unfoldable pub shift : RingQueue A → RingQueue A × Option A
  shift q =
      let item = get_or q.list q.head none in
      let q1 = record q { list = set q.list q.head none; head = and_add q.head 1 q.mask } in
      let q2 =
        (if ltb q.head 2 && (ltb min_shrink_tail q.tail && leb q.tail (length q1.list / 4))
          then shrink q1
          else q1) in
      if q.head == q.tail then (q, none) else (q2, item)

  unfoldable pub pop : RingQueue A → RingQueue A × Option A
  pop q =
      let capacity = length q.list in
      let tail = and_sub q.tail 1 q.mask in
      let item = get_or q.list tail none in
      let q1 = record q { tail = tail; list = set q.list tail none } in
      let q2 =
        (if ltb q.head 2 && (ltb min_shrink_tail q.tail && leb q.tail (capacity / 4))
          then shrink q1
          else q1) in
      if q.tail == q.head then (q, none) else (q2, item)

  peek_inside : ℤ → RingQueue A → Option A
  peek_inside (pos i) q =
      if leb (size q) i then none else get_or q.list (and_add q.head i q.mask) none
  peek_inside (negsuc i) q =
      if ltb (size q) (suc i)
      then none
      else get_or q.list (and_add q.head (size q - suc i) q.mask) none

  -- `peekAt(index)`, `get(index)`
  unfoldable pub peek_at : ℤ → RingQueue A → Option A
  unfolding peek_inside
  peek_at index q = if not (is_int32 index) then none else peek_inside index q

  -- `peek()`, `peekFront()`
  unfoldable pub peek : RingQueue A → Option A
  peek q = if q.head == q.tail then none else get_or q.list q.head none

  unfoldable pub peek_back : RingQueue A → Option A
  peek_back q = peek_at (negsuc 0) q

  -- The loops of `removeOne`: the slots before the hole move up, or those behind it move down.
  unfoldable pub move_up : ℕ → List (Option A) → ℕ → ℕ → List (Option A) × ℕ
  move_up zero list slot mask = (list, slot)
  move_up (suc moves) list slot mask =
      let previous = and_sub slot 1 mask in
      move_up moves (set list slot (get_or list previous none)) previous mask

  unfoldable pub move_down : ℕ → List (Option A) → ℕ → ℕ → List (Option A) × ℕ
  move_down zero list slot mask = (list, slot)
  move_down (suc moves) list slot mask =
      let next = and_add slot 1 mask in
      move_down moves (set list slot (get_or list next none)) next mask

  unfoldable pub remove_at : ℕ → RingQueue A → RingQueue A × Option A
  remove_at index q =
      let slot = and_add q.head index q.mask in
      let item = get_or q.list slot none in
      let (up, first) = move_up index q.list slot q.mask in
      let (down, last) = move_down (size q - 1 - index) q.list slot q.mask in
      if ltb (index * 2) (size q)
      then (record q { list = set up first none; head = and_add q.head 1 q.mask }, item)
      else (record q { list = set down last none; tail = and_sub q.tail 1 q.mask }, item)

  unfoldable pub remove_one : ℤ → RingQueue A → RingQueue A × Option A
  remove_one index q =
      if not (is_int32 index) || is_outside (size q) index
      then (q, none)
      else remove_at (place (size q) index) q

  unfoldable pub clear : RingQueue A → RingQueue A
  clear q = record q { list = replicate (length q.list) none; head = 0; tail = 0 }

  -- A capacity doubles at most 31 times.
  unfoldable pub rebuild : List (Option A) → RingQueue A → RingQueue A
  rebuild items q =
      let capacity = enough 32 (length items) (length q.list) in
      record q {
        list = (copy_slots (length items) items 0 (replicate capacity none) 0).0;
        mask = capacity - 1;
        head = 0;
        tail = length items;
      }

  -- `items.splice(index, count, ...new_items)` of an array: what is left, and what was removed.
  abbrev pub splice_array :
      List (Option A) → ℕ → ℕ → List (Option A) → List (Option A) × List (Option A)
  splice_array items index count new_items = (
    take index items ++ (new_items ++ drop (index + count) items),
    slice items index (index + count),
  )

  unfoldable pub remove_many : ℕ → ℕ → RingQueue A → RingQueue A × Option (List (Option A))
  remove_many index count q =
      let n = (if ltb (size q) (index + count) then size q - index else count) in
      let (items, removed) = splice_array (to_array q) index n [] in (rebuild items q, some removed)

  unfoldable pub remove_count : Option ℤ → ℤ → RingQueue A → RingQueue A × Option (List (Option A))
  remove_count (some (negsuc n)) index q = (q, none)
  remove_count (some (pos zero)) index q = (q, none)
  remove_count (some (pos (suc zero))) index q =
      let (q1, item) = remove_one (pos (place (size q) index)) q in (q1, some (item ∷ []))
  remove_count (some (pos (suc (suc n)))) index q =
      if not (is_int32 (pos (suc (suc n))))
      then (q, none)
      else remove_many (place (size q) index) (suc (suc n)) q
  remove_count none index q =
      let (q1, item) = remove_one (pos (place (size q) index)) q in (q1, some (item ∷ []))

  -- `remove(index, count)`
  unfoldable pub remove : ℤ → Option ℤ → RingQueue A → RingQueue A × Option (List (Option A))
  remove index count q =
      if not (is_int32 index) || ((q.head == q.tail) || is_outside (size q) index)
      then (q, none)
      else remove_count count index q

  unfoldable pub splice_count :
      ℤ → ℕ → List (Option A) → RingQueue A → RingQueue A × Option (List (Option A))
  splice_count (negsuc n) index new_items q = (q, none)
  splice_count (pos zero) index new_items q =
      (rebuild (splice_array (to_array q) index 0 new_items).0 q, some [])
  splice_count (pos (suc n)) index new_items q =
      if not (is_int32 (pos (suc n)))
      then (q, none)
      else if leb (size q) index
      then (rebuild (splice_array (to_array q) index 0 new_items).0 q, none)
      else let (items, removed) = splice_array (to_array q) index (suc n) new_items in
        (rebuild items q, some removed)

  unfoldable pub splice_at :
      ℤ → Option ℤ → List (Option A) → RingQueue A → RingQueue A × Option (List (Option A))
  splice_at index count [] q = remove index count q
  splice_at (negsuc i) count (x ∷ xs) q = (q, none)
  splice_at (pos i) none (x ∷ xs) q = splice_count (pos 1) i (x ∷ xs) q
  splice_at (pos i) (some n) (x ∷ xs) q = splice_count n i (x ∷ xs) q

  -- `splice(index, count, ...new_items)`
  unfoldable pub splice :
      ℤ → Option ℤ → List (Option A) → RingQueue A → RingQueue A × Option (List (Option A))
  splice index count new_items q =
      let i = from_start (size q) index in
      if not (is_int32 index) || is_behind (size q) i
      then (q, none)
      else splice_at i count new_items q
