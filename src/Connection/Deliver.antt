-- ===== src/Connection/Deliver.antt =====
-- `writePacket` of lib/base/connection.js and the parser of lib/packet_parser.js at the other end.
use mathlib.Core.List.{flatten}
use node_mysql.Prelude.{
  ℕ, zero, suc, ◌+◌, ◌-◌, ◌/◌, ◌%◌, ◌^◌, ◌≤◌, ◌<◌, ◌≡◌, refl, ap, ap₂, ◌∙◌, Bool-cases, some, List,
  [], ◌∷◌, ◌++◌, arith, inl, inr, ltb, ltb→lt, ltb_false→le, lt→ltb, le→ltb_false, length,
  length-drop, drop, slice, overlay_front, map, All, subst,
}
use node_mysql.Packet.{
  Bytes, Packet, packet_length, write_header, set_offset, write_int24, write_int8,
}
use node_mysql.Packet.Bytes.{Writes->>, write_int8-Writes, write_int24-Writes}
use node_mysql.PacketParser.{Allocator, max_packet_length, execute_all, new_parser}
use node_mysql.PacketParser.Frames.{Delivery, Deframes, view, assembly}
use node_mysql.PacketParser.Framing.{Deframes-unique}
use node_mysql.PacketParser.Pending.{pending}
use node_mysql.PacketParser.Chunks.{IsChunk, empty_assembly, execute_all-Deframes}
use node_mysql.Connection.{Connection, write, bump_sequence_id, write_chunks, write_packet}
use node_mysql.Connection.Wire.{stream, stream-write, header_bytes, Sends-nothing, Sends-chunk}
use node_mysql.Connection.Chunks.{
  round, sequence_id-round, write_chunks_go, write_chunks_stop, joined, surplus, Arrives,
  Arrives-eq, assemble-last, write_chunks-Arrives,
}

-- A packet that a command has built: `body` behind four bytes of room for the header.
pub record IsOutgoing (p : Packet) (body : Bytes) : Type 0 where
  pub start : p.start ≡ 0
  pub end : p.end ≡ length p.buffer
  pub room : 4 ≤ length p.buffer
  pub content : drop 4 p.buffer ≡ body

headed : Packet → Bytes → ℕ → Packet
headed p body sequence_id = record p { buffer = header_bytes body sequence_id ++ body }

abbrev header_of : ℕ → ℕ → Bytes
header_of n sequence_id = (n % 2 ^ 8) ∷ (n / 2 ^ 8 % 2 ^ 8) ∷ (n / 2 ^ 8 / 2 ^ 8) ∷ sequence_id ∷ []

header_of-header_bytes :
    (body : Bytes) (sequence_id : ℕ)
    → length body < 2 ^ 24
    → header_of (length body) sequence_id ≡ header_bytes body sequence_id
header_of-header_bytes body sequence_id h = ground arith

write_header-headed :
    (p : Packet) (body : Bytes) (sequence_id : ℕ)
    → IsOutgoing p body
    → sequence_id < 256
    → length body < 2 ^ 24
    → write_header sequence_id p ≡ some (tt, headed p body sequence_id)
unfolding write_header headed
write_header-headed p body sequence_id v h k =
    let n = length p.buffer - 4 in
    let size : n ≡ length body = omega (arith, ap length v.content, length-drop 4 p.buffer) in
    let written =
      Writes->> (write_int24 n) (write_int8 sequence_id)
        ((n % 2 ^ 8) ∷ (n / 2 ^ 8 % 2 ^ 8) ∷ (n / 2 ^ 8 / 2 ^ 8) ∷ []) (sequence_id ∷ [])
        (write_int24-Writes n (omega arith)) (write_int8-Writes sequence_id h)
        (record p { offset = 0 }) (omega arith) in
    let bs = header_of n sequence_id in
    ap (set_offset p.offset) written
    ∙ ap (λ b. some (tt, record p { buffer = b }))
        (overlay_front p.buffer bs v.room
          ∙ ap₂ (λ m xs. header_of m sequence_id ++ xs) size v.content
          ∙ ap (λ h. h ++ body) (header_of-header_bytes body sequence_id k))

-- What arrives of one packet: it, and the surplus frame of the bodies that have one.
abbrev pub arriving : ℕ → Bytes → List Delivery
arriving sequence_id body = joined empty_assembly sequence_id body ∷ surplus sequence_id body

small-Arrives :
    (c : Connection) (p : Packet) (body : Bytes)
    → length body + 4 < max_packet_length
    → Arrives c
        (write (header_bytes body c.sequence_id ++ body) (bump_sequence_id 1 c))
        empty_assembly
        (arriving c.sequence_id body)
small-Arrives c p body h =
    let d = write (header_bytes body c.sequence_id ++ body) (bump_sequence_id 1 c) in
    Arrives-eq refl (ground (arith, assemble-last empty_assembly c.sequence_id body (omega arith)))
      (
        _,
        Sends-chunk c d d empty_assembly _ body [] (omega arith)
            (stream-write _ (bump_sequence_id 1 c)
              ∙ ap (λ s. s ++ (header_bytes body c.sequence_id ++ body))
                  (unfold bump_sequence_id in refl))
            (Sends-nothing d _),
      )

-- The number of frames that `writePacket` makes of a body of `size` bytes.
abbrev pub frames_sent : ℕ → ℕ
frames_sent size = (size + 3) / max_packet_length + 1

write_chunks-sequence_id :
    (fuel : ℕ) (buffer : Bytes) (offset len : ℕ) (c : Connection)
    → 4 + len - offset ≤ fuel
    → c.sequence_id < 256
    → (write_chunks fuel buffer offset len c).sequence_id
      ≡ (c.sequence_id + (4 + len - offset + (max_packet_length - 1)) / max_packet_length) % 256
unfolding write_chunks
write_chunks-sequence_id zero buffer offset len c h k = omega arith
write_chunks-sequence_id (suc fuel) buffer offset len c h k =
    let chunk = slice buffer offset (offset + max_packet_length) in
    let next = offset + max_packet_length in
    elim (Bool-cases (ltb offset (4 + len))) [
      | inl more ↦
          let inside = ltb→lt offset (4 + len) more in
          let bumped = sequence_id-round chunk c in
          let later =
            write_chunks-sequence_id fuel buffer next len (round chunk c) (omega arith)
              (omega arith) in
          ap (λ d. d.sequence_id) (write_chunks_go fuel buffer chunk offset len c inside refl)
          ∙ later
          ∙ omega arith
      | inr stop ↦
          ap (λ d. d.sequence_id)
            (write_chunks_stop (suc fuel) buffer offset len c (ltb_false→le offset (4 + len) stop))
          ∙ omega (arith, ltb_false→le offset (4 + len) stop)
    ]

module _ (c : Connection) (p : Packet) (body : Bytes) (v : IsOutgoing p body) where
  size-buffer : length p.buffer ≡ length body + 4
  size-buffer = omega (arith, ap length v.content, length-drop 4 p.buffer, v.room)

  write_packet_small :
      c.sequence_id < 256
      → length p.buffer < max_packet_length
      → write_packet p c
        ≡ some (write (header_bytes body c.sequence_id ++ body) (bump_sequence_id 1 c))
  unfolding write_packet packet_length headed
  write_packet_small h k = rw (
    lt→ltb (p.end - p.start) max_packet_length (omega arith),
    write_header-headed p body c.sequence_id v h (omega (arith, size-buffer)),
  )

  write_packet_large :
      max_packet_length ≤ length p.buffer
      → write_packet p c
        ≡ some (write_chunks (suc (length p.buffer)) p.buffer 4 (length p.buffer) c)
  unfolding write_packet packet_length
  write_packet_large k =
      let size : p.end - p.start ≡ length p.buffer = omega arith in
      rw (le→ltb_false (p.end - p.start) max_packet_length (omega arith))
        (ap (λ n. some (write_chunks (suc n) p.buffer 4 n c)) size)

  sequence_id-small :
      length p.buffer < max_packet_length
      → (write (header_bytes body c.sequence_id ++ body) (bump_sequence_id 1 c)).sequence_id
        ≡ (c.sequence_id + frames_sent (length body)) % 256
  unfolding write bump_sequence_id
  sequence_id-small k = omega (arith, size-buffer)

  -- For a packet of any size that a command has built, and a sequence id that is a byte, `writePacket`
  -- succeeds; it adds bytes to the stream that read as the packet, under the connection's sequence
  -- id, and as one packet with no bytes if the length of the body leaves the remainder 16777212,
  -- 16777213 or 16777214 by 16777215; and it counts the sequence id on by the frames sent.
  pub write_packet-Arrives :
      c.sequence_id < 256
      → (d : Connection) × (write_packet p c ≡ some d)
        × Arrives c d empty_assembly (arriving c.sequence_id body)
        × (d.sequence_id ≡ (c.sequence_id + frames_sent (length body)) % 256)
  write_packet-Arrives h = elim (Bool-cases (ltb (length p.buffer) max_packet_length)) [
    | inl small ↦
        let fits = ltb→lt (length p.buffer) max_packet_length small in
        (
          _,
          write_packet_small h fits,
          small-Arrives c p body (omega (arith, size-buffer)),
          sequence_id-small fits,
        )
    | inr large ↦
        let big = ltb_false→le (length p.buffer) max_packet_length large in
        (
          _,
          write_packet_large big,
          subst
              (λ b.
                Arrives c (write_chunks (suc (length p.buffer)) p.buffer 4 (length p.buffer) c)
                  empty_assembly (arriving c.sequence_id b))
              v.content
              (write_chunks-Arrives (suc (length p.buffer)) p.buffer 4 c empty_assembly v.room
                (omega (arith, v.room))),
          write_chunks-sequence_id (suc (length p.buffer)) p.buffer 4 (length p.buffer) c
                (omega arith) h
              ∙ omega (arith, size-buffer),
        )
  ]

-- What a connection with nothing on the wire sends with `writePacket` of a packet that a command
-- has built arrives: a new parser that is fed the stream in any chunks of at least one byte delivers
-- the packet with its body, under the sequence id at which it was sent, and then nothing but one
-- packet with no bytes if the length of the body leaves the remainder 16777212, 16777213 or 16777214
-- by 16777215; and it keeps no byte.
pub write_packet-execute_all :
    (node : Allocator) (c d : Connection) (p : Packet) (body : Bytes) (chunks : List Bytes)
    → IsOutgoing p body
    → c.sequence_id < 256
    → c.written ≡ []
    → write_packet p c ≡ some d
    → All IsChunk chunks
    → flatten chunks ≡ stream d
    → let (q, out) = execute_all node (new_parser 4) chunks in
      (map view out ≡ arriving c.sequence_id body) × (pending q ≡ [])
write_packet-execute_all node c d p body chunks v h e s hc ec =
    let (d', s', (b, sends), _) = write_packet-Arrives c p body v h in
    let same : d ≡ d' = cc in
    let wire : flatten chunks ≡ sends.wire =
      ec
      ∙ ap stream same
      ∙ sends.sent
      ∙ ap (λ w. flatten w ++ sends.wire) e
      ∙ (unfold flatten in refl) in
    let (q, out) = execute_all node (new_parser 4) chunks in
    let run = (execute_all-Deframes node 4 chunks (inl refl) hc).1 in
    let read =
      subst (λ bs. Deframes 4 empty_assembly bs (assembly q) (pending q) (map view out)) wire run in
    let (_, rest, deliveries) = Deframes-unique read sends.deframes in (deliveries, rest)
