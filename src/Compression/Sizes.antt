-- ===== src/Compression/Sizes.antt =====
-- lib/compressed_protocol.js: three bytes count what a frame is made of.
use node_mysql.Prelude.{
  ℕ, ◌+◌, ◌%◌, ◌≤◌, ◌≡◌, ap, subst, Bool, true, some, List, [], ◌∷◌, map, leb, ◌==◌, if◌then◌else◌,
  option-elim, length, All, All-append, arith,
}
use node_mysql.Packet.{Bytes}
use node_mysql.TaskQueue.Serial.{waiting}
use node_mysql.TaskQueue.Pipe.Drain.{turns}
use node_mysql.Compression.{
  Zlib, Frame, WriteTask, new_writer, plain_frame, smaller_frame, deflate_task,
  max_compressed_length,
}
use node_mysql.Compression.Slices.{Fits, pieces-Fits}
use node_mysql.Compression.Frames.{IsSmall}
use node_mysql.Compression.Writing.{
  Input, write, next_tick, deflated, run, all_pieces, numbered, run-HasSent, new_writer-HasSent,
}
use node_mysql.Compression.Draining.{IsTotal, turns-value}

-- The frames of a writer that has written what waited.
abbrev pub frames_written : Zlib → List Input → List Frame
frames_written zlib is =
    let p = (run zlib is new_writer).pipe in
    (turns (deflate_task zlib) (length (waiting p.tasks)) p).out

-- The length of the buffer of a frame, and whether the body is no longer.
abbrev size : Frame → ℕ × Bool
size f =
    let n = (if f.packet_len == 0 then length f.body else f.packet_len) in
    (n, leb (length f.body) n)

abbrev buffer_size : WriteTask → ℕ × Bool
buffer_size (id, b) = (length b, true)

plain_frame-size : (id : ℕ) (b : Bytes) → size (plain_frame id b) ≡ buffer_size (id, b)
unfolding plain_frame
plain_frame-size id b = ground arith

smaller_frame-size : (id : ℕ) (b c : Bytes) → size (smaller_frame id b c) ≡ buffer_size (id, b)
unfolding smaller_frame plain_frame
smaller_frame-size id b c = ground arith

deflate_task-size :
    (zlib : Zlib) (a : WriteTask) (f : Frame)
    → deflate_task zlib a ≡ some f
    → size f ≡ buffer_size a
unfolding deflate_task
deflate_task-size zlib (id, b) f =
    option-elim (λ o. o ≡ some f → size f ≡ buffer_size (id, b)) (zlib.deflate b) _ _ (λ e h. cc)
      (λ c e h.
        subst (λ (g : Frame). size g ≡ buffer_size (id, b)) {x = smaller_frame id b c} {y = f} (cc)
          (smaller_frame-size id b c))

all_pieces-Fits : (zlib : Zlib) (is : List Input) → All Fits (all_pieces zlib is)
all_pieces-Fits zlib [] = tt
all_pieces-Fits zlib (write b ∷ is) =
    All-append Fits _ (all_pieces zlib is) (pieces-Fits b) (all_pieces-Fits zlib is)
all_pieces-Fits zlib (next_tick ∷ is) = all_pieces-Fits zlib is
all_pieces-Fits zlib (deflated ∷ is) = all_pieces-Fits zlib is

one-IsSmall : (f : Frame) (n : ℕ) → size f ≡ (n, true) → n ≤ max_compressed_length → IsSmall f
one-IsSmall f n e h =
    let m = (if f.packet_len == 0 then length f.body else f.packet_len) in
    let same : m ≡ n = ap (λ (r : ℕ × Bool). r.0) e in
    let within : leb (length f.body) m ≡ true = ap (λ (r : ℕ × Bool). r.1) e in ground arith

numbered-IsSmall :
    (fs : List Frame) (id : ℕ) (bs : List Bytes)
    → map size fs ≡ map buffer_size (numbered id bs)
    → All Fits bs
    → All IsSmall fs
numbered-IsSmall [] id bs e h = tt
numbered-IsSmall (f ∷ fs) id [] e h = cc
numbered-IsSmall (f ∷ fs) id (b ∷ bs) e (h, hs) =
    (one-IsSmall f (length b) (cc) h, numbered-IsSmall fs ((id + 1) % 256) bs (cc) hs)

-- No frame is larger than three bytes can count.
pub frames_written-IsSmall :
    (zlib : Zlib) (is : List Input) → IsTotal zlib → All IsSmall (frames_written zlib is)
frames_written-IsSmall zlib is total =
    numbered-IsSmall (frames_written zlib is) 0 (all_pieces zlib is)
      (turns-value zlib size buffer_size is total (deflate_task-size zlib) (
        run-HasSent zlib size buffer_size (deflate_task-size zlib) plain_frame-size is new_writer []
          (new_writer-HasSent zlib size buffer_size)))
      (all_pieces-Fits zlib is)
