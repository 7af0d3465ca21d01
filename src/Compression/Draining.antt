-- ===== src/Compression/Draining.antt =====
-- lib/compressed_protocol.js: what waits is written in the end.
use node_mysql.Prelude.{
  ℕ, zero, suc, ◌+◌, ◌≡◌, ◌≢◌, refl, sym, ap, ◌∙◌, none, some, List, [], ◌∷◌, ◌++◌, map, append-nil,
  ltb, leb, if-elim, length, slice, arith,
}
use node_mysql.Packet.{Bytes}
use node_mysql.TaskQueue.Serial.{waiting}
use node_mysql.TaskQueue.Pipe.{Pipe, tick}
use node_mysql.TaskQueue.Pipe.Order.{IsOrdered, tick-IsOrdered, complete-IsOrdered}
use node_mysql.TaskQueue.Pipe.Drain.{
  IsGoing, turn, turns, turns-waiting, submit-IsGoing, tick-IsGoing, complete-IsGoing,
}
use node_mysql.Compression.{
  Zlib, Frame, WriteTask, Writer, new_writer, deflate_task, write_inline, write_one, write_slices,
  write_compressed, max_compressed_length, min_compress_length, max_sync_deflate_length,
  smaller_frame,
}
use node_mysql.Compression.Writing.{
  Input, write, next_tick, deflated, step, run, all_pieces, content, meant, numbered, IsInverse,
  HasSent, run-content, deflate_task-content,
}

-- zlib never fails to deflate.
abbrev pub IsTotal : Zlib → Type 0
IsTotal zlib = (b : Bytes) → (c : Bytes) × (zlib.deflate b ≡ some c)

module _ (zlib : Zlib) (total : IsTotal zlib) where
  deflate_task-total : (a : WriteTask) → (f : Frame) × (deflate_task zlib a ≡ some f)
  unfolding deflate_task
  deflate_task-total (id, b) =
      let (c, e) = total b in (smaller_frame id b c, rw (e, deflate_task) refl)

  write_inline-ne : (a : WriteTask) → write_inline zlib a ≢ some none
  unfolding write_inline
  write_inline-ne (id, b) =
      if-elim (λ o. o ≢ some none) (ltb (length b) min_compress_length) _ _ (λ s h. cc)
        (λ s.
          if-elim (λ o. o ≢ some none) (leb (length b) max_sync_deflate_length) _ _
            (λ m h. let (f, e) = deflate_task-total (id, b) in cc) (λ m h. cc))

  write_one-IsGoing :
      (b : Bytes) (w : Writer)
      → IsGoing (deflate_task zlib) w.pipe
      → IsGoing (deflate_task zlib) (write_one zlib b w).pipe
  unfolding write_one
  write_one-IsGoing b w g =
      let task : WriteTask = (w.compressed_sequence_id, b) in
      submit-IsGoing (deflate_task zlib) (write_inline zlib task) task w.pipe (write_inline-ne task)
        g

  slices-IsGoing :
      (fuel start : ℕ) (b : Bytes) (w : Writer)
      → IsGoing (deflate_task zlib) w.pipe
      → IsGoing (deflate_task zlib) (write_slices zlib fuel start b w).pipe
  unfolding write_slices
  slices-IsGoing zero start b w g = g
  slices-IsGoing (suc fuel) start b w g =
      let p = slice b start (start + max_compressed_length) in
      if-elim (λ (v : Writer). IsGoing (deflate_task zlib) v.pipe) (ltb start (length b)) _ _
        (λ e.
          slices-IsGoing fuel (start + max_compressed_length) b (write_one zlib p w)
            (write_one-IsGoing p w g))
        (λ e. g)

  step-IsGoing :
      (i : Input) (w : Writer)
      → IsGoing (deflate_task zlib) w.pipe
      → IsGoing (deflate_task zlib) (step zlib i w).pipe
  unfolding write_compressed
  step-IsGoing (write b) w g =
      if-elim (λ (v : Writer). IsGoing (deflate_task zlib) v.pipe)
        (ltb max_compressed_length (length b)) _ _ (λ e. slices-IsGoing (length b) 0 b w g)
        (λ e. write_one-IsGoing b w g)
  step-IsGoing next_tick w g = tick-IsGoing (deflate_task zlib) w.pipe g
  step-IsGoing deflated w g = complete-IsGoing (deflate_task zlib) w.pipe deflate_task-total g

  run-IsGoing :
      (is : List Input) (w : Writer)
      → IsGoing (deflate_task zlib) w.pipe
      → IsGoing (deflate_task zlib) (run zlib is w).pipe
  run-IsGoing [] w g = g
  run-IsGoing (i ∷ is) w g = run-IsGoing is (step zlib i w) (step-IsGoing i w g)

  turns-IsOrdered :
      {C : Type 0} (seen : Frame → C) (value : WriteTask → C) (n : ℕ) (p : Pipe WriteTask Frame)
      (sent : List WriteTask)
      → ((a : WriteTask) (f : Frame) → deflate_task zlib a ≡ some f → seen f ≡ value a)
      → IsOrdered seen value p sent
      → IsOrdered seen value (turns (deflate_task zlib) n p) sent
  turns-IsOrdered seen value zero p sent on_deflate h = h
  turns-IsOrdered seen value (suc n) p sent on_deflate h =
      turns-IsOrdered seen value n (turn (deflate_task zlib) p) sent on_deflate (
        complete-IsOrdered seen value (deflate_task zlib) (tick p) sent on_deflate
          (tick-IsOrdered seen value p sent h))

new_writer-IsGoing : (zlib : Zlib) → IsGoing (deflate_task zlib) new_writer.pipe
unfolding new_writer
new_writer-IsGoing zlib = record { moving = tt; served = λ e. refl; sound = refl }

-- What is seen of all frames in the end, where it is what each buffer is to be.
pub turns-value :
    (zlib : Zlib) {C : Type 0} (seen : Frame → C) (value : WriteTask → C) (is : List Input)
    → IsTotal zlib
    → ((a : WriteTask) (f : Frame) → deflate_task zlib a ≡ some f → seen f ≡ value a)
    → HasSent zlib seen value (run zlib is new_writer) (all_pieces zlib is)
    → let p = (run zlib is new_writer).pipe in
      map seen (turns (deflate_task zlib) (length (waiting p.tasks)) p).out
      ≡ map value (numbered 0 (all_pieces zlib is))
turns-value zlib seen value is total on_deflate sent =
    let w = run zlib is new_writer in
    let n = length (waiting w.pipe.tasks) in
    let p = turns (deflate_task zlib) n w.pipe in
    let h = turns-IsOrdered zlib total seen value n w.pipe _ on_deflate sent.ordered in
    let (empty, going) =
      turns-waiting (deflate_task zlib) n w.pipe (deflate_task-total zlib total) (omega arith)
        (run-IsGoing zlib total is new_writer (new_writer-IsGoing zlib)) in
    sym (append-nil (map seen p.out))
    ∙ sym (ap (λ l. map seen p.out ++ map value l) empty)
    ∙ h.order going.sound

-- After any calls of `writeCompressed` and callbacks between them, where zlib does not fail: as many turns of the event loop as there are buffers that wait are enough to write all of them, and what the other side then reads of all frames is exactly the pieces of the buffers that were given, each once and in order.
pub turns-numbered :
    (zlib : Zlib) (is : List Input)
    → IsInverse zlib
    → IsTotal zlib
    → let p = (run zlib is new_writer).pipe in
      map (content zlib) (turns (deflate_task zlib) (length (waiting p.tasks)) p).out
      ≡ map meant (numbered 0 (all_pieces zlib is))
turns-numbered zlib is inverse total =
    turns-value zlib (content zlib) meant is total (deflate_task-content zlib inverse)
      (run-content zlib is inverse)
