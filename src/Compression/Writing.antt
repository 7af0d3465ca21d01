-- ===== src/Compression/Writing.antt =====
-- lib/compressed_protocol.js: what is written, in which order.
use node_mysql.Prelude.{
  ℕ, zero, suc, ◌+◌, ◌%◌, ◌≡◌, refl, sym, ap, subst, ◌∙◌, false, Bool-cases, inl, inr, Option, some,
  List, [], ◌∷◌, ◌++◌, map, append-nil, append_assoc, ltb, leb, ◌==◌, if◌then◌else◌, if-elim,
  option-elim, length, slice, arith,
}
use node_mysql.Packet.{Bytes}
use node_mysql.TaskQueue.Serial.{waiting}
use node_mysql.TaskQueue.Pipe.{submit, tick, complete}
use node_mysql.TaskQueue.Pipe.Order.{
  IsOrdered, new_pipe-IsOrdered, submit-IsOrdered, tick-IsOrdered, complete-IsOrdered,
}
use node_mysql.Compression.{
  Zlib, Frame, WriteTask, Writer, new_writer, plain_frame, smaller_frame, deflate_task,
  write_inline, write_one, write_slices, write_compressed, max_compressed_length,
  min_compress_length, max_sync_deflate_length,
}
use node_mysql.Compression.Slices.{pieces, pieces_from}

-- What the other side makes of a frame: its sequence id and its bytes, inflated where they are compressed.
abbrev pub content : Zlib → Frame → ℕ × Option Bytes
content zlib f =
    (f.seq_id, if f.packet_len == 0 then some f.body else zlib.inflate f.packet_len f.body)

abbrev pub meant : WriteTask → ℕ × Option Bytes
meant (seq_id, buffer) = (seq_id, some buffer)

-- zlib inflates what it has deflated, given the length that it had.
abbrev pub IsInverse : Zlib → Type 0
IsInverse zlib = (b c : Bytes) → zlib.deflate b ≡ some c → zlib.inflate (length b) c ≡ some b

-- The buffers with their sequence ids, which count on by one, modulo 256.
abbrev pub numbered : ℕ → List Bytes → List WriteTask
numbered id [] = []
numbered id (b ∷ bs) = (id, b) ∷ numbered ((id + 1) % 256) bs

abbrev pub id_after : ℕ → List Bytes → ℕ
id_after id [] = id
id_after id (b ∷ bs) = id_after ((id + 1) % 256) bs

numbered-append :
    (id : ℕ) (bs cs : List Bytes)
    → numbered id (bs ++ cs) ≡ numbered id bs ++ numbered (id_after id bs) cs
numbered-append id [] cs = refl
numbered-append id (b ∷ bs) cs = ap ((id, b) ∷◌) (numbered-append ((id + 1) % 256) bs cs)

id_after-append :
    (id : ℕ) (bs cs : List Bytes) → id_after id (bs ++ cs) ≡ id_after (id_after id bs) cs
id_after-append id [] cs = refl
id_after-append id (b ∷ bs) cs = id_after-append ((id + 1) % 256) bs cs

-- A call of `writeCompressed`, of `_next`, or of the callback of zlib.
pub data Input : Type 0 where
  write : Bytes → Input
  next_tick deflated : Input

module _ (zlib : Zlib) where
  abbrev pub step : Input → Writer → Writer
  step (write b) w = write_compressed zlib b w
  step next_tick w = record w { pipe = tick w.pipe }
  step deflated w = record w { pipe = complete (deflate_task zlib) w.pipe }

  abbrev pub run : List Input → Writer → Writer
  run [] w = w
  run (i ∷ is) w = run is (step i w)

  abbrev pub pieces_of : Input → List Bytes
  pieces_of (write b) = pieces b
  pieces_of next_tick = []
  pieces_of deflated = []

  abbrev pub all_pieces : List Input → List Bytes
  all_pieces [] = []
  all_pieces (i ∷ is) = pieces_of i ++ all_pieces is

  module _ (inverse : IsInverse zlib) where
    smaller-content :
        (id : ℕ) (b c : Bytes)
        → zlib.deflate b ≡ some c
        → content zlib (smaller_frame id b c) ≡ meant (id, b)
    unfolding smaller_frame plain_frame
    smaller-content id b c e = elim (Bool-cases (ltb (length c) (length b))) [
      | inl less ↦
          let some_bytes : (length b == 0) ≡ false = ground arith in
          rw less (rw some_bytes (ap (λ o. (id, o)) (inverse b c e)))
      | inr more ↦ rw more refl
    ]

    pub deflate_task-content :
        (a : WriteTask) (f : Frame) → deflate_task zlib a ≡ some f → content zlib f ≡ meant a
    unfolding deflate_task
    deflate_task-content (id, b) f =
        option-elim (λ o. o ≡ some f → content zlib f ≡ meant (id, b)) (zlib.deflate b) _ _
          (λ e h. cc)
          (λ c e h. subst (λ g. content zlib g ≡ meant (id, b)) (cc) (smaller-content id b c e))

  -- `seen` is what is read of a frame, `value` what a buffer is to be.
  module _ {C : Type 0} (seen : Frame → C) (value : WriteTask → C) where
    -- The writer has been given `sent`, from the sequence id 0 on.
    pub record HasSent (w : Writer) (sent : List Bytes) : Type 0 where
      pub ordered : IsOrdered seen value w.pipe (numbered 0 sent)
      pub id : w.compressed_sequence_id ≡ id_after 0 sent

    module _
        (on_deflate : (a : WriteTask) (f : Frame) → deflate_task zlib a ≡ some f → seen f ≡ value a)
        (on_plain : (id : ℕ) (b : Bytes) → seen (plain_frame id b) ≡ value (id, b)) where
      write_inline-value :
          (a : WriteTask) (f : Frame) → write_inline zlib a ≡ some (some f) → seen f ≡ value a
      unfolding write_inline
      write_inline-value (id, b) f =
          if-elim (λ o. o ≡ some (some f) → seen f ≡ value (id, b))
            (ltb (length b) min_compress_length) _ _
            (λ s h. subst (λ g. seen g ≡ value (id, b)) {x = plain_frame id b} (cc) (on_plain id b))
            (λ s.
              if-elim (λ o. o ≡ some (some f) → seen f ≡ value (id, b))
                (leb (length b) max_sync_deflate_length) _ _ (λ m h. on_deflate (id, b) f (cc))
                (λ m h. cc))

      write_one-HasSent :
          (b : Bytes) (w : Writer) (sent : List Bytes)
          → HasSent w sent
          → HasSent (write_one zlib b w) (sent ++ (b ∷ []))
      unfolding write_one
      write_one-HasSent b w sent h =
          let task : WriteTask = (w.compressed_sequence_id, b) in
          record {
            ordered =
                subst (IsOrdered seen value (submit (write_inline zlib task) task w.pipe))
                  (ap (λ i. numbered 0 sent ++ ((i, b) ∷ [])) h.id
                    ∙ sym (numbered-append 0 sent (b ∷ [])))
                  (submit-IsOrdered seen value (write_inline zlib task) task w.pipe
                    (numbered 0 sent) (λ f. write_inline-value task f) h.ordered);
            id = ap (λ i. (i + 1) % 256) h.id ∙ sym (id_after-append 0 sent (b ∷ []));
          }

      slices-HasSent :
          (fuel start : ℕ) (b : Bytes) (w : Writer) (sent : List Bytes)
          → HasSent w sent
          → HasSent (write_slices zlib fuel start b w) (sent ++ pieces_from fuel start b)
      unfolding write_slices pieces_from
      slices-HasSent zero start b w sent h = subst (HasSent w) (sym (append-nil sent)) h
      slices-HasSent (suc fuel) start b w sent h =
          let p = slice b start (start + max_compressed_length) in
          let behind = pieces_from fuel (start + max_compressed_length) b in
          elim (Bool-cases (ltb start (length b))) [
            | inl e ↦ rw e (
                subst (HasSent _) (append_assoc sent (p ∷ []) behind) (
                  slices-HasSent fuel (start + max_compressed_length) b (write_one zlib p w)
                    (sent ++ (p ∷ [])) (write_one-HasSent p w sent h)))
            | inr e ↦ rw e (subst (HasSent w) (sym (append-nil sent)) h)
          ]

      write_compressed-HasSent :
          (b : Bytes) (w : Writer) (sent : List Bytes)
          → HasSent w sent
          → HasSent (write_compressed zlib b w) (sent ++ pieces b)
      unfolding write_compressed pieces
      write_compressed-HasSent b w sent h =
          elim (Bool-cases (ltb max_compressed_length (length b))) [
            | inl e ↦ rw e (slices-HasSent (length b) 0 b w sent h)
            | inr e ↦ rw e (write_one-HasSent b w sent h)
          ]

      step-HasSent :
          (i : Input) (w : Writer) (sent : List Bytes)
          → HasSent w sent
          → HasSent (step i w) (sent ++ pieces_of i)
      step-HasSent (write b) w sent h = write_compressed-HasSent b w sent h
      step-HasSent next_tick w sent h = subst (HasSent _) (sym (append-nil sent)) (record {
        ordered = tick-IsOrdered seen value w.pipe (numbered 0 sent) h.ordered;
        id = h.id;
      })
      step-HasSent deflated w sent h = subst (HasSent _) (sym (append-nil sent)) (record {
        ordered =
            complete-IsOrdered seen value (deflate_task zlib) w.pipe (numbered 0 sent) on_deflate
              h.ordered;
        id = h.id;
      })

      pub run-HasSent :
          (is : List Input) (w : Writer) (sent : List Bytes)
          → HasSent w sent
          → HasSent (run is w) (sent ++ all_pieces is)
      run-HasSent [] w sent h = subst (HasSent w) (sym (append-nil sent)) h
      run-HasSent (i ∷ is) w sent h =
          subst (HasSent _) (append_assoc sent (pieces_of i) (all_pieces is))
            (run-HasSent is (step i w) (sent ++ pieces_of i) (step-HasSent i w sent h))

pub new_writer-HasSent :
    (zlib : Zlib) {C : Type 0} (seen : Frame → C) (value : WriteTask → C)
    → HasSent zlib seen value new_writer []
unfolding new_writer
new_writer-HasSent zlib seen value = record { ordered = new_pipe-IsOrdered seen value; id = refl }

plain-content : (zlib : Zlib) (id : ℕ) (b : Bytes) → content zlib (plain_frame id b) ≡ meant (id, b)
unfolding plain_frame
plain-content zlib id b = refl

pub run-content :
    (zlib : Zlib) (is : List Input)
    → IsInverse zlib
    → HasSent zlib (content zlib) meant (run zlib is new_writer) (all_pieces zlib is)
run-content zlib is inverse =
    run-HasSent zlib (content zlib) meant (deflate_task-content zlib inverse) (plain-content zlib)
      is new_writer [] (new_writer-HasSent zlib (content zlib) meant)

-- Any calls of `writeCompressed` on a connection, with the callbacks of the event loop and of zlib anywhere between them, where zlib inflates what it has deflated and has given no error: the frames that are written, read by the other side, followed by the buffers that still wait, are the pieces of the buffers in the order in which they were given, with sequence ids that count on from 0 modulo 256. A small packet never overtakes a large one that is still being deflated.
pub run-numbered :
    (zlib : Zlib) (is : List Input)
    → IsInverse zlib
    → (run zlib is new_writer).pipe.failed ≡ false
    → map (content zlib) (run zlib is new_writer).pipe.out
        ++ map meant (waiting (run zlib is new_writer).pipe.tasks)
      ≡ map meant (numbered 0 (all_pieces zlib is))
run-numbered zlib is inverse ok = (run-content zlib is inverse).ordered.order ok
