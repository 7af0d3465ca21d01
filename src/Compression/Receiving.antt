-- ===== src/Compression/Receiving.antt =====
-- lib/compressed_protocol.js: what is received of the frames that are written.
use mathlib.Core.List.{flatten}
use node_mysql.Prelude.{
  ℕ, ◌+◌, ◌%◌, ◌≡◌, refl, sym, ap, ap₂, subst, ◌∙◌, false, Option, none, some, List, [], ◌∷◌, ◌++◌,
  map, append-nil, append_assoc, leb, ◌==◌, if◌then◌else◌, if-elim, flatten-append, All, arith,
}
use node_mysql.Packet.{Bytes, Packet}
use node_mysql.TaskQueue.Serial.{waiting}
use node_mysql.TaskQueue.Pipe.{Pipe, new_pipe, submit, tick, complete}
use node_mysql.TaskQueue.Pipe.Order.{
  IsOrdered, new_pipe-IsOrdered, submit-IsOrdered, tick-IsOrdered, complete-IsOrdered,
}
use node_mysql.Compression.{
  Zlib, Frame, Received, Inflated, frame_bytes, inflate_task, inflate_inline, receive,
  handle_compressed_packet, max_sync_inflate_length,
}
use node_mysql.Compression.Slices.{pieces, flatten-pieces}
use node_mysql.PacketParser.{Allocator, new_parser, execute_all}
use node_mysql.PacketParser.Frames.{view}
use node_mysql.PacketParser.Chunks.{IsChunk}
use node_mysql.Compression.Frames.{
  IsSmall, delivery, received_of, read_received-delivery, execute_all-frame_bytes,
}
use node_mysql.Compression.Sizes.{frames_written, frames_written-IsSmall}
use node_mysql.Compression.Writing.{
  Input, write, next_tick, deflated, all_pieces, content, meant, numbered, IsInverse,
}
use node_mysql.Compression.Draining.{IsTotal, turns-numbered}

-- The packet of a frame, a call of `_next`, or the callback of zlib.
pub data Arrival : Type 0 where
  arrive : Packet → Arrival
  next_arrival_tick inflated : Arrival

module _ (zlib : Zlib) where
  abbrev pub arrival : Arrival → Pipe Received Inflated → Pipe Received Inflated
  arrival (arrive q) p = handle_compressed_packet zlib q p
  arrival next_arrival_tick p = tick p
  arrival inflated p = complete (inflate_task zlib) p

  abbrev pub arrivals : List Arrival → Pipe Received Inflated → Pipe Received Inflated
  arrivals [] p = p
  arrivals (a ∷ as') p = arrivals as' (arrival a p)

-- The packets that arrive.
abbrev pub packets_of : List Arrival → List Packet
packets_of [] = []
packets_of (arrive q ∷ as') = q ∷ packets_of as'
packets_of (next_arrival_tick ∷ as') = packets_of as'
packets_of (inflated ∷ as') = packets_of as'

abbrev plain_bytes : Zlib → Received → Option Bytes
plain_bytes zlib r =
    if r.deflated_length == 0 then some r.body else zlib.inflate r.deflated_length r.body

abbrev got : Inflated → Option Bytes
got i = some i.bytes

module _ (zlib : Zlib) where
  inflate_task-got :
      (r : Received) (i : Inflated) → inflate_task zlib r ≡ some i → got i ≡ plain_bytes zlib r
  unfolding inflate_task
  inflate_task-got r i h = ground arith

  inflate_inline-got :
      (r : Received) (i : Inflated)
      → inflate_inline zlib r ≡ some (some i)
      → got i ≡ plain_bytes zlib r
  unfolding inflate_inline
  inflate_inline-got r i =
      if-elim (λ o. o ≡ some (some i) → got i ≡ plain_bytes zlib r) (r.deflated_length == 0) _ _
        (λ e h. inflate_task-got r i (cc))
        (λ e.
          if-elim (λ o. o ≡ some (some i) → got i ≡ plain_bytes zlib r)
            (leb r.deflated_length max_sync_inflate_length) _ _ (λ l h. inflate_task-got r i (cc))
            (λ l h. cc))

  handle-submit :
      (q : Packet) (f : Frame) (p : Pipe Received Inflated)
      → IsSmall f
      → view q ≡ delivery f
      → handle_compressed_packet zlib q p
        ≡ submit (inflate_inline zlib (received_of f)) (received_of f) p
  unfolding handle_compressed_packet
  handle-submit q f p h v =
      let (q', e) = read_received-delivery q f h v in
      ap (λ (o : Option (Received × Packet)). receive zlib o p) e

  abbrev IsReceived : Pipe Received Inflated → List Received → Type 0
  IsReceived = IsOrdered got (plain_bytes zlib)

  arrivals-IsReceived :
      (as' : List Arrival) (fs : List Frame) (p : Pipe Received Inflated) (sent : List Received)
      → All IsSmall fs
      → map view (packets_of as') ≡ map delivery fs
      → IsReceived p sent
      → IsReceived (arrivals zlib as' p) (sent ++ map received_of fs)
  arrivals-IsReceived [] [] p sent small v h = subst (IsReceived p) (sym (append-nil sent)) h
  arrivals-IsReceived [] (f ∷ fs) p sent small v h = cc
  arrivals-IsReceived (arrive q ∷ as') [] p sent small v h = cc
  arrivals-IsReceived (arrive q ∷ as') (f ∷ fs) p sent small v h =
      let r = received_of f in
      let one : view q ≡ delivery f = cc in
      let later : map view (packets_of as') ≡ map delivery fs = cc in
      subst (IsReceived _) (append_assoc sent (r ∷ []) (map received_of fs)) (
        arrivals-IsReceived as' fs (handle_compressed_packet zlib q p) (sent ++ (r ∷ [])) small.1
          later
          (subst (λ k. IsReceived k (sent ++ (r ∷ []))) (sym (handle-submit q f p small.0 one))
            (submit-IsOrdered got (plain_bytes zlib) (inflate_inline zlib r) r p sent
              (λ i. inflate_inline-got r i) h)))
  arrivals-IsReceived (next_arrival_tick ∷ as') fs p sent small v h =
      arrivals-IsReceived as' fs (tick p) sent small v
        (tick-IsOrdered got (plain_bytes zlib) p sent h)
  arrivals-IsReceived (inflated ∷ as') fs p sent small v h =
      arrivals-IsReceived as' fs (complete (inflate_task zlib) p) sent small v
        (complete-IsOrdered got (plain_bytes zlib) (inflate_task zlib) p sent inflate_task-got h)

  tasks-content :
      (fs : List Frame)
      → map (plain_bytes zlib) (map received_of fs)
        ≡ map (λ (c : ℕ × Option Bytes). c.1) (map (content zlib) fs)
  tasks-content [] = refl
  tasks-content (f ∷ fs) = ap ((content zlib f).1 ∷◌) (tasks-content fs)

meant-numbered :
    (id : ℕ) (bs : List Bytes)
    → map (λ (c : ℕ × Option Bytes). c.1) (map meant (numbered id bs)) ≡ map some bs
meant-numbered id [] = refl
meant-numbered id (b ∷ bs) = ap (some b ∷◌) (meant-numbered ((id + 1) % 256) bs)

abbrev or_nothing : Option Bytes → Bytes
or_nothing none = []
or_nothing (some b) = b

map-or_nothing : (bs : List Bytes) → map or_nothing (map some bs) ≡ bs
map-or_nothing [] = refl
map-or_nothing (b ∷ bs) = ap (b ∷◌) (map-or_nothing bs)

bytes-got : (is : List Inflated) → map or_nothing (map got is) ≡ map (λ (i : Inflated). i.bytes) is
bytes-got [] = refl
bytes-got (i ∷ is) = ap (i.bytes ∷◌) (bytes-got is)

-- The buffers that the writer is given.
abbrev pub buffers : List Input → List Bytes
buffers [] = []
buffers (write b ∷ is) = b ∷ buffers is
buffers (next_tick ∷ is) = buffers is
buffers (deflated ∷ is) = buffers is

flatten-all_pieces :
    (zlib : Zlib) (is : List Input) → flatten (all_pieces zlib is) ≡ flatten (buffers is)
unfolding flatten
flatten-all_pieces zlib [] = refl
flatten-all_pieces zlib (write b ∷ is) =
    flatten-append (pieces b) (all_pieces zlib is)
    ∙ ap₂ (λ x y. x ++ y) (flatten-pieces b) (flatten-all_pieces zlib is)
flatten-all_pieces zlib (next_tick ∷ is) = flatten-all_pieces zlib is
flatten-all_pieces zlib (deflated ∷ is) = flatten-all_pieces zlib is

-- Two ends of a connection with compression. One has been given buffers to write, by any calls with callbacks of the event loop and of zlib between them, and has then written what waited. The bytes of its frames come to a new parser of compressed packets at the other end in any chunks of at least one byte; each packet of that parser is handled, again with callbacks anywhere between them, until nothing waits there. Where zlib does not fail and inflates what it has deflated, the bytes that the other end hands to its parser of inflated packets are the bytes that were given, in order.
pub arrivals-buffers :
    (zlib : Zlib) (node : Allocator) (is : List Input) (chunks : List Bytes) (as' : List Arrival)
    → IsInverse zlib
    → IsTotal zlib
    → All IsChunk chunks
    → flatten chunks ≡ flatten (map frame_bytes (frames_written zlib is))
    → packets_of as' ≡ (execute_all node (new_parser 7) chunks).1
    → (arrivals zlib as' new_pipe).failed ≡ false
    → waiting (arrivals zlib as' new_pipe).tasks ≡ []
    → flatten (map (λ (i : Inflated). i.bytes) (arrivals zlib as' new_pipe).out)
      ≡ flatten (buffers is)
arrivals-buffers zlib node is chunks as' inverse total hc wire same ok empty =
    let r = arrivals zlib as' new_pipe in
    let fs = frames_written zlib is in
    let small = frames_written-IsSmall zlib is total in
    let cut = ap (map view) same ∙ execute_all-frame_bytes node chunks fs small hc wire in
    let ordered =
      (arrivals-IsReceived zlib as' fs new_pipe [] small cut
          (new_pipe-IsOrdered got (plain_bytes zlib))).order
        ok in
    let received : map got r.out ≡ map some (all_pieces zlib is) =
      sym (append-nil (map got r.out))
      ∙ sym (ap (λ l. map got r.out ++ map (plain_bytes zlib) l) empty)
      ∙ ordered
      ∙ tasks-content zlib fs
      ∙ ap (map (λ (c : ℕ × Option Bytes). c.1)) (turns-numbered zlib is inverse total)
      ∙ meant-numbered 0 (all_pieces zlib is) in
    ap flatten
      (sym (bytes-got r.out) ∙ ap (map or_nothing) received ∙ map-or_nothing (all_pieces zlib is))
    ∙ flatten-all_pieces zlib is
