-- ===== src/PacketParser.antt =====
-- lib/packet_parser.js: the bytes of a socket, in whatever chunks they arrive, are cut into packets.
-- A Buffer is the list of its bytes. `this.execute`, the method that takes the next chunk, is a
-- field of the state; the packets handed to `onPacket` are the second part of a result, in order,
-- each as the callback sees it (the source reuses one Packet object for all of them).
pub mod Frames
pub mod Framing
pub mod Pending
pub mod Complete
pub mod Refine
pub mod Payload
pub mod Chunks
mod Tests
use node_mysql.Prelude.{
  ℕ, zero, suc, ◌+◌, ◌-◌, ◌*◌, ◌^◌, Bool, ◌&&◌, List, [], ◌∷◌, ◌++◌, ltb, leb, ◌==◌, ◌≡◌,
  if◌then◌else◌, length, get_or, drop, slice, overlay, replicate,
}
use mathlib.Core.List.{flatten}
use node_mysql.Packet.{Bytes, Packet}

abbrev pub max_packet_length : ℕ
max_packet_length = 16777215

pub data Execute : Type 0 where
  execute_start execute_payload execute_header2 execute_header3 : Execute

pub record PacketParser : Type 0 where
  pub buffer : List Bytes
  pub buffer_length : ℕ
  pub packet_header_length : ℕ
  pub header_len : ℕ
  pub payload_length : ℕ
  pub large_packet_parts : List Bytes
  pub first_packet_sequence_id : ℕ
  pub execute : Execute

abbrev pub is_empty {ℓ} : {A : Type ℓ} → List A → Bool
is_empty xs = length xs == 0

-- A byte read out of range is `undefined`, which a shift takes for 0. Where a sum of two such
-- bytes is tested against 0 the test fails, and the sum below has the same value.
unfoldable pub read_packet_length : Bytes → ℕ → ℕ
read_packet_length b off =
    let b0 = get_or b off 0 in
    let b1 = get_or b (off + 1) 0 in
    let b2 = get_or b (off + 2) 0 in if b1 + b2 == 0 then b0 else b0 + b1 * 2 ^ 8 + b2 * 2 ^ 16

unfoldable pub new_parser : ℕ → PacketParser
new_parser packet_header_length = record {
  buffer = [];
  buffer_length = 0;
  packet_header_length = packet_header_length;
  header_len = 0;
  payload_length = 0;
  large_packet_parts = [];
  first_packet_sequence_id = 0;
  execute = execute_start;
}

-- `_flushLargePacket4` and `_flushLargePacket7`, of which the constructor chooses one.
unfoldable pub flush_large_packet : PacketParser → PacketParser × List Packet
flush_large_packet p =
    let header = (if p.packet_header_length == 7 then replicate 7 0 else replicate 4 0) in
    let body = header ++ flatten p.large_packet_parts in
    (
      record p { large_packet_parts = [] },
      record {
        sequence_id = p.first_packet_sequence_id;
        num_packets = length p.large_packet_parts;
        buffer = body;
        start = 0;
        offset = 4;
        end = length body;
      }
          ∷ [],
    )

-- The branches that `executeStart` and `executePayload` share: a frame whose header begins at
-- `start` of `buffer` is there in full. It is handed over, or it joins the parts of a large packet.
unfoldable pub complete : PacketParser → ℕ → Bytes → ℕ → PacketParser × List Packet
unfolding flush_large_packet
complete p sequence_id buffer start =
    if ltb p.payload_length max_packet_length && is_empty p.large_packet_parts
    then (
      p,
      record {
        sequence_id = sequence_id;
        num_packets = 1;
        buffer = buffer;
        start = start;
        offset = start + 4;
        end = start + p.packet_header_length + p.payload_length;
      }
          ∷ [],
    )
    else let p1 =
        (if is_empty p.large_packet_parts
          then record p { first_packet_sequence_id = sequence_id }
          else p) in
      let part =
        slice buffer (start + p.packet_header_length)
          (start + p.packet_header_length + p.payload_length) in
      let p2 = record p1 { large_packet_parts = p.large_packet_parts ++ (part ∷ []) } in
      if ltb p.payload_length max_packet_length then flush_large_packet p2 else (p2, [])

-- What `executeStart` does with the bytes from `start` on when no whole frame is left.
unfoldable pub keep_header : PacketParser → Bytes → ℕ → PacketParser
keep_header p chunk start =
    let left = length chunk - start in
    if left == 0
    then p
    else if left == 2
    then record p {
      header_len = left;
      payload_length = get_or chunk start 0 + get_or chunk (start + 1) 0 * 2 ^ 8;
      execute = execute_header3;
    }
    else record p {
      header_len = left;
      payload_length = get_or chunk start 0;
      execute = execute_header2;
    }

unfoldable pub keep_payload : PacketParser → Bytes → ℕ → PacketParser
keep_payload p chunk start = record p {
  buffer = slice chunk (start + 3) (length chunk) ∷ [];
  buffer_length = length chunk - start - 3;
  execute = execute_payload;
}

-- The loop of `executeStart`, from `start` on. Each round takes a header at least.
unfoldable pub start_loop : ℕ → PacketParser → Bytes → ℕ → PacketParser × List Packet
unfolding keep_header keep_payload
start_loop zero p chunk start = (p, [])
start_loop (suc fuel) p chunk start =
    let left = length chunk - start in
    let p1 = record p { payload_length = read_packet_length chunk start } in
    let next : PacketParser × List Packet =
      (let (p2, out) = complete p1 (get_or chunk (start + 3) 0) chunk start in
        let (p3, outs) =
          start_loop fuel p2 chunk (start + (p1.packet_header_length + p1.payload_length)) in
        (p3, out ++ outs)) in
    if leb 3 left
    then (if leb (p1.payload_length + p1.packet_header_length) left
        then next
        else (keep_payload p1 chunk start, []))
    else (keep_header p chunk start, [])

unfoldable pub run_start : PacketParser → Bytes → PacketParser × List Packet
run_start p chunk = start_loop (suc (length chunk)) p chunk 0

-- `this.buffer[i].copy(payload, offset)` for each kept chunk: the payload, and the last offset.
unfoldable pub copy_all : List Bytes → Bytes → ℕ → Bytes × ℕ
copy_all [] payload offset = (payload, offset)
copy_all (b ∷ bs) payload offset = copy_all bs (overlay payload offset b) (offset + length b)

-- `Buffer.allocUnsafe` of Node.js gives that many bytes, with any content.
pub record Allocator : Type 0 where
  pub alloc_unsafe : ℕ → Bytes
  pub length-alloc_unsafe : (n : ℕ) → length (alloc_unsafe n) ≡ n

module _ (node : Allocator) where
  unfoldable pub run_payload : PacketParser → Bytes → PacketParser × List Packet
  run_payload p chunk =
      let remaining = p.payload_length + p.packet_header_length - 3 - p.buffer_length in
      let payload0 = node.alloc_unsafe (p.payload_length + p.packet_header_length) in
      let (payload1, offset) = copy_all p.buffer payload0 3 in
      let payload = overlay payload1 offset (slice chunk 0 remaining) in
      let (p1, out) = complete p (get_or payload 3 0) payload 0 in
      let p2 = record p1 { buffer = []; buffer_length = 0; execute = execute_start } in
      let (p3, outs) = run_start p2 (slice chunk remaining (length chunk)) in
      if leb remaining (length chunk)
      then (if ltb remaining (length chunk) then (p3, out ++ outs) else (p2, out))
      else (
        record p {
          buffer = p.buffer ++ (chunk ∷ []);
          buffer_length = p.buffer_length + length chunk;
        },
        [],
      )

  unfoldable pub run_header2 : PacketParser → Bytes → PacketParser × List Packet
  run_header2 p chunk =
      let p1 = record p { payload_length = p.payload_length + get_or chunk 0 0 * 2 ^ 8 } in
      if ltb 1 (length chunk)
      then run_payload
          (record p1 {
            payload_length = p1.payload_length + get_or chunk 1 0 * 2 ^ 16;
            execute = execute_payload;
          })
          (drop 2 chunk)
      else (record p1 { execute = execute_header3 }, [])

  unfoldable pub run_header3 : PacketParser → Bytes → PacketParser × List Packet
  run_header3 p chunk =
      run_payload
        (record p {
          payload_length = p.payload_length + get_or chunk 0 0 * 2 ^ 16;
          execute = execute_payload;
        })
        (drop 1 chunk)

  unfoldable pub execute_with : Execute → PacketParser → Bytes → PacketParser × List Packet
  execute_with execute_start p chunk = run_start p chunk
  execute_with execute_payload p chunk = run_payload p chunk
  execute_with execute_header2 p chunk = run_header2 p chunk
  execute_with execute_header3 p chunk = run_header3 p chunk

  -- `parser.execute(chunk)`: the socket's `data` handler.
  unfoldable pub execute : PacketParser → Bytes → PacketParser × List Packet
  unfolding execute_with
  execute p chunk = execute_with p.execute p chunk

  -- The chunks of a socket, one after the other.
  unfoldable pub execute_all : PacketParser → List Bytes → PacketParser × List Packet
  execute_all p [] = (p, [])
  execute_all p (c ∷ cs) =
      let (p1, out) = execute p c in let (p2, outs) = execute_all p1 cs in (p2, out ++ outs)
