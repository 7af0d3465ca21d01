-- ===== src/Connection/Chunks.antt =====
-- The loop of `writePacket` in lib/base/connection.js over a large packet, and what arrives.
use mathlib.Core.List.{flatten}
use node_mysql.Prelude.{
  ℕ, zero, suc, ◌+◌, ◌-◌, ◌/◌, ◌%◌, ◌≤◌, ◌<◌, ◌≡◌, refl, ap, ap₂, sym, ◌∙◌, Bool-cases, List, [],
  ◌∷◌, ◌++◌, arith, inl, inr, ltb, ltb→lt, ltb_false→le, lt→ltb, if◌then◌else◌, length,
  length-append, length-drop, length-take, take, drop, slice, take_all, drop-drop, drop_all,
  take-nil, take-append-drop, append_assoc, flatten-append, flatten-singleton, subst,
}
use node_mysql.Packet.{Bytes}
use node_mysql.PacketParser.{max_packet_length, is_empty}
use node_mysql.PacketParser.Frames.{Assembly, Delivery, assemble}
use node_mysql.Connection.{Connection, write, bump_sequence_id, chunk_header, write_chunks}
use node_mysql.Connection.Wire.{
  stream, stream-write, frame_with, header_bytes, chunk_header-header_bytes, Sends, Sends-nothing,
  Sends-chunk,
}

-- The packet that ends with `bytes`, after the parts that have been sent.
abbrev pub joined : Assembly → ℕ → Bytes → Delivery
joined a sequence_id bytes = record {
  sequence_id = if is_empty a.parts then sequence_id else a.first;
  num_packets = length a.parts + (length bytes / max_packet_length + 1);
  body = flatten a.parts ++ bytes;
}

-- The loop compares the offset with a length that counts the four header bytes once more. If the
-- last chunk leaves less than four bytes of room, one more frame is sent, with no bytes.
abbrev pub surplus : ℕ → Bytes → List Delivery
surplus sequence_id bytes =
    if ltb (length bytes % max_packet_length) (max_packet_length - 3)
    then []
    else record {
      sequence_id = (sequence_id + (length bytes / max_packet_length + 1)) % 256;
      num_packets = 1;
      body = [];
    }
      ∷ []

abbrev pub round : Bytes → Connection → Connection
round chunk c = write chunk (write (chunk_header chunk c.sequence_id) (bump_sequence_id 1 c))

stream-round :
    (chunk : Bytes) (c : Connection)
    → stream (round chunk c) ≡ stream c ++ (header_bytes chunk c.sequence_id ++ chunk)
stream-round chunk c =
    let header = chunk_header chunk c.sequence_id in
    stream-write chunk (write header (bump_sequence_id 1 c))
    ∙ ap (λ xs. xs ++ chunk) (stream-write header (bump_sequence_id 1 c))
    ∙ append_assoc (stream (bump_sequence_id 1 c)) header chunk
    ∙ ap₂ (λ s h. s ++ (h ++ chunk)) (unfold bump_sequence_id in refl)
        (chunk_header-header_bytes chunk c.sequence_id)

pub sequence_id-round :
    (chunk : Bytes) (c : Connection) → (round chunk c).sequence_id ≡ (c.sequence_id + 1) % 256
unfolding write bump_sequence_id
sequence_id-round chunk c = refl

no_parts : (parts : List Bytes) → length parts ≡ 0 → flatten parts ≡ []
unfolding flatten
no_parts [] h = refl
no_parts (p ∷ parts) h = absurd (omega arith)

none_of_length : (parts : List Bytes) → length parts ≡ 0 → parts ≡ []
none_of_length [] h = refl
none_of_length (p ∷ parts) h = absurd (omega arith)

pub assemble-last :
    (a : Assembly) (sequence_id : ℕ) (bytes : Bytes)
    → length bytes < max_packet_length
    → (assemble 4 a (frame_with sequence_id bytes)).1 ≡ joined a sequence_id bytes ∷ []
unfolding assemble
assemble-last a sequence_id bytes h = ground (
  arith,
  no_parts a.parts,
  flatten-append a.parts (bytes ∷ []),
  flatten-singleton bytes,
  length-append a.parts (bytes ∷ []),
)

assemble-last_parts :
    (a : Assembly) (sequence_id : ℕ) (bytes : Bytes)
    → length bytes < max_packet_length
    → (assemble 4 a (frame_with sequence_id bytes)).0.parts ≡ []
unfolding assemble
assemble-last_parts a sequence_id bytes h = ground (arith, none_of_length a.parts)

assemble-part :
    (a : Assembly) (sequence_id : ℕ) (bytes : Bytes)
    → length bytes ≡ max_packet_length
    → let (b, out) = assemble 4 a (frame_with sequence_id bytes) in
      (b ≡ record {
        parts = a.parts ++ (bytes ∷ []);
        first = if is_empty a.parts then sequence_id else a.first;
      })
      × (out ≡ [])
unfolding assemble
assemble-part a sequence_id bytes h = ground arith

pub write_chunks_stop :
    (fuel : ℕ) (buffer : Bytes) (offset len : ℕ) (c : Connection)
    → 4 + len ≤ offset
    → write_chunks fuel buffer offset len c ≡ c
unfolding write_chunks
write_chunks_stop zero buffer offset len c h = refl
write_chunks_stop (suc fuel) buffer offset len c h = ground arith

pub write_chunks_go :
    (fuel : ℕ) (buffer chunk : Bytes) (offset len : ℕ) (c : Connection)
    → offset < 4 + len
    → slice buffer offset (offset + max_packet_length) ≡ chunk
    → write_chunks (suc fuel) buffer offset len c
      ≡ write_chunks fuel buffer (offset + max_packet_length) len (round chunk c)
unfolding write_chunks
write_chunks_go fuel buffer chunk offset len c h e = rw (lt→ltb offset (4 + len) h, e)

abbrev pub Arrives : Connection → Connection → Assembly → List Delivery → Type 0
Arrives c c' a out = (b : Assembly) × Sends c c' a b out

Arrives-chunk :
    (c c' : Connection) (a : Assembly) (chunk : Bytes) (outs : List Delivery)
    → length chunk ≤ max_packet_length
    → let (b, out) = assemble 4 a (frame_with c.sequence_id chunk) in
      Arrives (round chunk c) c' b outs → Arrives c c' a (out ++ outs)
Arrives-chunk c c' a chunk outs h (b, s) =
    (b, Sends-chunk c (round chunk c) c' a b chunk outs h (stream-round chunk c) s)

pub Arrives-eq :
    {c c' c'' : Connection} {a : Assembly} {out out' : List Delivery}
    → c'' ≡ c'
    → out ≡ out'
    → Arrives c c' a out
    → Arrives c c'' a out'
Arrives-eq {c} {c'' = c''} {a = a} {out = out} p q s =
    subst (Arrives c c'' a) q (subst (λ d. Arrives c d a out) (sym p) s)

abbrev empty_packet : ℕ → Delivery
empty_packet sequence_id = record { sequence_id = sequence_id; num_packets = 1; body = [] }

-- The round after the last chunk, if there is one.
surplus-Arrives :
    (fuel : ℕ) (buffer : Bytes) (offset : ℕ) (c : Connection) (a : Assembly)
    → a.parts ≡ []
    → length buffer ≤ offset
    → Arrives c
        (write_chunks (suc fuel) buffer offset (length buffer) c)
        a
        (if ltb offset (4 + length buffer) then empty_packet c.sequence_id ∷ [] else [])
surplus-Arrives fuel buffer offset c a e h =
    let len = length buffer in
    let nothing : slice buffer offset (offset + max_packet_length) ≡ [] =
      ap (take (offset + max_packet_length - offset)) (drop_all offset buffer h)
      ∙ take-nil (offset + max_packet_length - offset) in
    let last = assemble-last a c.sequence_id [] (omega arith) in
    elim (Bool-cases (ltb offset (4 + len))) [
      | inl more ↦ rw more (
          Arrives-eq
            (write_chunks_go fuel buffer [] offset len c (ltb→lt offset (4 + len) more) nothing
              ∙ write_chunks_stop fuel buffer (offset + max_packet_length) len (round [] c)
                  (omega arith))
            (ground (arith, last, no_parts a.parts (ap length e)))
            (Arrives-chunk c (round [] c) a [] [] (omega arith) (_, Sends-nothing (round [] c) _)))
      | inr stop ↦
          rw (stop, write_chunks_stop (suc fuel) buffer offset len c (ground arith))
            (a, Sends-nothing c a)
    ]

-- The last chunk, and what follows it.
last-Arrives :
    (fuel : ℕ) (buffer : Bytes) (offset : ℕ) (c : Connection) (a : Assembly)
    → offset ≤ length buffer
    → length buffer - offset < max_packet_length
    → Arrives c
        (write_chunks (suc (suc fuel)) buffer offset (length buffer) c)
        a
        (joined a c.sequence_id (drop offset buffer) ∷ surplus c.sequence_id (drop offset buffer))
last-Arrives fuel buffer offset c a h k =
    let bytes = drop offset buffer in
    let size = length-drop offset buffer in
    let len = length buffer in
    let whole : slice buffer offset (offset + max_packet_length) ≡ bytes =
      take_all (offset + max_packet_length - offset) bytes (omega arith) in
    let b = (assemble 4 a (frame_with c.sequence_id bytes)).0 in
    Arrives-eq (write_chunks_go (suc fuel) buffer bytes offset len c (omega arith) whole)
      (ground (arith, size, assemble-last a c.sequence_id bytes, sequence_id-round bytes c))
      (Arrives-chunk c _ a bytes _ (omega arith) (
        surplus-Arrives fuel buffer (offset + max_packet_length) (round bytes c) b
          (assemble-last_parts a c.sequence_id bytes (omega arith)) (omega arith)))

-- A full chunk goes before what the rest delivers.
joined-part :
    (a : Assembly) (sequence_id sequence_id' : ℕ) (chunk more : Bytes)
    → length chunk ≡ max_packet_length
    → joined
        (record {
          parts = a.parts ++ (chunk ∷ []);
          first = if is_empty a.parts then sequence_id else a.first;
        })
        sequence_id'
        more
      ≡ joined a sequence_id (chunk ++ more)
joined-part a sequence_id sequence_id' chunk more h = ground (
  arith,
  length-append a.parts (chunk ∷ []),
  length-append chunk more,
  flatten-append a.parts (chunk ∷ []),
  flatten-singleton chunk,
  append_assoc (flatten a.parts) chunk more,
)

surplus-part :
    (sequence_id sequence_id' : ℕ) (chunk more : Bytes)
    → length chunk ≡ max_packet_length
    → sequence_id' ≡ (sequence_id + 1) % 256
    → surplus sequence_id' more ≡ surplus sequence_id (chunk ++ more)
surplus-part sequence_id sequence_id' chunk more h e = ground (arith, length-append chunk more)

part-deliveries :
    (a b : Assembly) (sequence_id sequence_id' : ℕ) (chunk more bytes : Bytes) (out : List Delivery)
    → length chunk ≡ max_packet_length
    → chunk ++ more ≡ bytes
    → sequence_id' ≡ (sequence_id + 1) % 256
    → b ≡ record {
      parts = a.parts ++ (chunk ∷ []);
      first = if is_empty a.parts then sequence_id else a.first;
    }
    → out ≡ []
    → out ++ (joined b sequence_id' more ∷ surplus sequence_id' more)
      ≡ joined a sequence_id bytes ∷ surplus sequence_id bytes
part-deliveries a b sequence_id sequence_id' chunk more bytes out h e es eb eo =
    ap₂ (λ o d. o ++ (joined d sequence_id' more ∷ surplus sequence_id' more)) eo eb
    ∙ ap₂ ◌∷◌ (joined-part a sequence_id sequence_id' chunk more h)
        (surplus-part sequence_id sequence_id' chunk more h es)
    ∙ ap (λ xs. joined a sequence_id xs ∷ surplus sequence_id xs) e

pub write_chunks-Arrives :
    (fuel : ℕ) (buffer : Bytes) (offset : ℕ) (c : Connection) (a : Assembly)
    → offset ≤ length buffer
    → length buffer - offset + 2 ≤ fuel
    → Arrives c
        (write_chunks fuel buffer offset (length buffer) c)
        a
        (joined a c.sequence_id (drop offset buffer) ∷ surplus c.sequence_id (drop offset buffer))
write_chunks-Arrives zero buffer offset c a h k = absurd (omega arith)
write_chunks-Arrives (suc zero) buffer offset c a h k = absurd (omega arith)
write_chunks-Arrives (suc (suc fuel)) buffer offset c a h k =
    let bytes = drop offset buffer in
    let size = length-drop offset buffer in
    let len = length buffer in
    elim (Bool-cases (ltb (len - offset) max_packet_length)) [
      | inl last ↦
          last-Arrives fuel buffer offset c a h (ltb→lt (len - offset) max_packet_length last)
      | inr large ↦
          let big = ltb_false→le (len - offset) max_packet_length large in
          let chunk = take max_packet_length bytes in
          let whole : slice buffer offset (offset + max_packet_length) ≡ chunk =
            ap (λ n. take n bytes) {x = offset + max_packet_length - offset} {y = max_packet_length}
              (omega arith) in
          let full : length chunk ≡ max_packet_length =
            omega (arith, length-take max_packet_length bytes) in
          let (eb, eo) = assemble-part a c.sequence_id chunk full in
          let later =
            write_chunks-Arrives (suc fuel) buffer (offset + max_packet_length) (round chunk c)
              (assemble 4 a (frame_with c.sequence_id chunk)).0 (omega arith) (omega arith) in
          Arrives-eq (write_chunks_go (suc fuel) buffer chunk offset len c (omega arith) whole)
            (part-deliveries a _ c.sequence_id _ chunk (drop (offset + max_packet_length) buffer)
              bytes _ full
              (ap (◌++◌ chunk) (sym (drop-drop max_packet_length offset buffer))
                ∙ take-append-drop max_packet_length bytes)
              (sequence_id-round chunk c) eb eo)
            (Arrives-chunk c _ a chunk _ (omega arith) later)
    ]
