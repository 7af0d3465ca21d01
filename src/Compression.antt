-- ===== src/Compression.antt =====
-- lib/compressed_protocol.js: packets of the compressed protocol, written and received. zlib is a
-- parameter: none is an error. Callbacks of the event loop and of zlib are steps of their own, so that
-- other calls may come between.
pub mod Slices
pub mod Frames
pub mod Writing
pub mod Draining
pub mod Sizes
pub mod Receiving
mod Tests
use node_mysql.Prelude.{
  ℕ, zero, suc, ◌+◌, ◌*◌, ◌/◌, ◌%◌, ◌^◌, Bool, true, false, Option, none, some, List, [], ◌∷◌, ◌++◌,
  ltb, leb, ◌==◌, if◌then◌else◌, length, slice,
}
use node_mysql.Packet.{Bytes, Packet, M, pure, ◌>>=◌, read_int24, read_buffer_rest}
use node_mysql.TaskQueue.Pipe.{Pipe, new_pipe, submit, tick, complete}

-- `deflate(buffer)` and `inflate(buffer, { maxOutputLength })`, inline or on the thread pool.
pub record Zlib : Type 0 where
  pub deflate : Bytes → Option Bytes
  pub inflate : ℕ → Bytes → Option Bytes

abbrev pub min_compress_length : ℕ
min_compress_length = 50

abbrev pub max_sync_inflate_length : ℕ
max_sync_inflate_length = 16384

abbrev pub max_sync_deflate_length : ℕ
max_sync_deflate_length = 4096

abbrev pub max_compressed_length : ℕ
max_compressed_length = 16777210

-- What `writeCompressedFrame` writes: the sequence id, the length before compression, 0 for a body that
-- is not compressed, and the body.
pub record Frame : Type 0 where
  pub seq_id : ℕ
  pub packet_len : ℕ
  pub body : Bytes

unfoldable pub plain_frame : ℕ → Bytes → Frame
plain_frame seq_id buffer = record { seq_id = seq_id; packet_len = 0; body = buffer }

-- The compressed bytes are sent where they are fewer.
unfoldable pub smaller_frame : ℕ → Bytes → Bytes → Frame
unfolding plain_frame
smaller_frame seq_id buffer compressed =
    if ltb (length compressed) (length buffer)
    then record { seq_id = seq_id; packet_len = length buffer; body = compressed }
    else plain_frame seq_id buffer

abbrev pub three_bytes : ℕ → Bytes → Bytes
three_bytes n rest = (n % 2 ^ 8) ∷ (n / 2 ^ 8 % 2 ^ 8) ∷ (n / 2 ^ 16) ∷ rest

unfoldable pub frame_bytes : Frame → Bytes
frame_bytes f = three_bytes (length f.body) ((f.seq_id % 2 ^ 8) ∷ three_bytes f.packet_len f.body)

-- A packet to be written waits with its sequence id; what is received, with the length before
-- compression, its frames and its body.
abbrev pub WriteTask : Type 0
WriteTask = ℕ × Bytes

pub record Received : Type 0 where
  pub num_packets : ℕ
  pub deflated_length : ℕ
  pub body : Bytes

-- The sequence id is counted on, and the bytes are handed to the parser of inflated packets.
pub record Inflated : Type 0 where
  pub num_packets : ℕ
  pub bytes : Bytes

pub record Writer : Type 0 where
  pub compressed_sequence_id : ℕ
  pub pipe : Pipe WriteTask Frame

unfoldable pub new_writer : Writer
unfolding new_pipe
new_writer = record { compressed_sequence_id = 0; pipe = new_pipe }

-- The lengths and the body are read off the packet at once.
unfoldable pub read_received : ℕ → M Received
unfolding read_int24 read_buffer_rest
read_received num_packets = do
  deflated_length ← read_int24
  body ← read_buffer_rest
  pure (record { num_packets = num_packets; deflated_length = deflated_length; body = body })

module _ (zlib : Zlib) where
  -- The callback of `zlib.deflate`, and of `zlib.inflate`.
  unfoldable pub deflate_task : WriteTask → Option Frame
  unfolding smaller_frame
  deflate_task (seq_id, buffer) = elim (zlib.deflate buffer) [
    | none ↦ none
    | some compressed ↦ some (smaller_frame seq_id buffer compressed)
  ]

  -- What is written at once while nothing is being deflated.
  unfoldable pub write_inline : WriteTask → Option (Option Frame)
  unfolding plain_frame deflate_task
  write_inline (seq_id, buffer) =
      if ltb (length buffer) min_compress_length
      then some (some (plain_frame seq_id buffer))
      else if leb (length buffer) max_sync_deflate_length
      then some (deflate_task (seq_id, buffer))
      else none

  -- `writeCompressed` of a buffer that is small enough. The connection's other changes of the sequence
  -- id, a reset for each command and the count of received packets, are left out.
  unfoldable pub write_one : Bytes → Writer → Writer
  unfolding write_inline submit
  write_one buffer w =
      let task : WriteTask = (w.compressed_sequence_id, buffer) in
      record {
        compressed_sequence_id = (w.compressed_sequence_id + 1) % 256;
        pipe = submit (write_inline task) task w.pipe;
      }

  -- The loop that writes a large buffer piece by piece.
  unfoldable pub write_slices : ℕ → ℕ → Bytes → Writer → Writer
  unfolding write_one
  write_slices zero start buffer w = w
  write_slices (suc fuel) start buffer w =
      let piece = slice buffer start (start + max_compressed_length) in
      let rest = write_slices fuel (start + max_compressed_length) buffer (write_one piece w) in
      if ltb start (length buffer) then rest else w

  unfoldable pub write_compressed : Bytes → Writer → Writer
  unfolding write_one write_slices
  write_compressed buffer w =
      if ltb max_compressed_length (length buffer)
      then write_slices (length buffer) 0 buffer w
      else write_one buffer w

  unfoldable pub inflate_task : Received → Option Inflated
  inflate_task r =
      if r.deflated_length == 0
      then some (record { num_packets = r.num_packets; bytes = r.body })
      else (elim (zlib.inflate r.deflated_length r.body) [
        | none ↦ none
        | some bytes ↦ some (record { num_packets = r.num_packets; bytes = bytes })
      ])

  unfoldable pub inflate_inline : Received → Option (Option Inflated)
  unfolding inflate_task
  inflate_inline r =
      if (r.deflated_length == 0)
      then some (inflate_task r)
      else if leb r.deflated_length max_sync_inflate_length
      then some (inflate_task r)
      else none

  -- A packet too short for its lengths changes nothing here; the source throws a RangeError.
  abbrev pub receive : Option (Received × Packet) → Pipe Received Inflated → Pipe Received Inflated
  receive none p = p
  receive (some (r, q)) p = submit (inflate_inline r) r p

  unfoldable pub handle_compressed_packet : Packet → Pipe Received Inflated → Pipe Received Inflated
  unfolding read_received inflate_inline submit
  handle_compressed_packet packet p = receive (read_received packet.num_packets packet) p
