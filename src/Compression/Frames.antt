-- ===== src/Compression/Frames.antt =====
-- lib/compressed_protocol.js and lib/packet_parser.js: the parser of a compressed connection cuts the
-- bytes into the frames that were written, and a frame is read as it was written.
use mathlib.Core.List.{flatten}
use node_mysql.Prelude.{
  ℕ, zero, suc, ◌+◌, ◌-◌, ◌*◌, ◌/◌, ◌%◌, ◌^◌, ◌<◌, ◌≡◌, refl, sym, ap, ap₂, ◌∙◌, inl, inr, Option,
  none, some, List, [], ◌∷◌, ◌++◌, map, length, length-append, take, drop, drop-drop, take_exact,
  drop_exact, All, subst, lt→ltb, arith,
}
use node_mysql.Packet.{Bytes, Packet, read_int24, read_buffer_rest, ◌>>=◌}
use node_mysql.Packet.Bytes.{forward, ahead, read_int24-Reads}
use node_mysql.PacketParser.{Allocator, new_parser, execute_all}
use node_mysql.PacketParser.Frames.{
  Assembly, Delivery, Deframes, rest, frame, view, frame_at, frame_length, assemble, next_frame,
  assembly,
}
use node_mysql.PacketParser.Framing.{next_frame_of_le, Deframes-unique}
use node_mysql.PacketParser.Refine.{next_frame-none}
use node_mysql.PacketParser.Pending.{pending}
use node_mysql.PacketParser.Chunks.{IsChunk, empty_assembly, execute_all-Deframes}
use node_mysql.Compression.{Frame, frame_bytes, three_bytes, Received, read_received}

-- A frame whose lengths fit into three bytes, and which no other one continues.
abbrev pub IsSmall : Frame → Type 0
IsSmall f = (f.packet_len < 2 ^ 24) × (length f.body < 16777215)

-- What the handler of compressed packets reads of a frame: the length before compression and the body.
abbrev pub delivery : Frame → Delivery
delivery f = record {
  sequence_id = f.seq_id % 2 ^ 8;
  num_packets = 1;
  body = three_bytes f.packet_len f.body;
}

frame_length-frame_bytes :
    (f : Frame) (more : Bytes) → IsSmall f → frame_length (frame_bytes f ++ more) ≡ length f.body
unfolding frame_length frame_bytes
frame_length-frame_bytes f more (h, k) = omega arith

seven_more :
    (n a b c d e f g : ℕ) (xs : Bytes) → drop (n + 7) (a ∷ b ∷ c ∷ d ∷ e ∷ f ∷ g ∷ xs) ≡ drop n xs
seven_more n a b c d e f g xs =
    ap (λ k. drop k (a ∷ b ∷ c ∷ d ∷ e ∷ f ∷ g ∷ xs)) {x = n + 7}
      {y = suc (suc (suc (suc (suc (suc (suc n))))))} (omega arith)

next_frame-frame_bytes :
    (f : Frame) (more : Bytes)
    → IsSmall f
    → next_frame 7 (frame_bytes f ++ more) ≡ some (frame_at 7 (frame_bytes f ++ more), more)
unfolding frame_bytes
next_frame-frame_bytes f more h =
    let bs = frame_bytes f ++ more in
    let size = frame_length-frame_bytes f more h in
    next_frame_of_le 7 bs (omega arith) (omega (arith, size, length-append f.body more))
    ∙ ap (λ xs. some (frame_at 7 bs, xs))
        (seven_more (frame_length bs) _ _ _ _ _ _ _ (f.body ++ more)
          ∙ drop_exact (frame_length bs) f.body more size)

payload-frame_bytes :
    (f : Frame) (more : Bytes)
    → IsSmall f
    → take (7 + frame_length (frame_bytes f ++ more) - 7) (f.body ++ more) ≡ f.body
payload-frame_bytes f more h =
    take_exact _ f.body more (omega (arith, frame_length-frame_bytes f more h))

assemble-frame_bytes :
    (f : Frame) (more : Bytes)
    → IsSmall f
    → assemble 7 empty_assembly (frame_at 7 (frame_bytes f ++ more))
      ≡ (empty_assembly, delivery f ∷ [])
unfolding assemble frame_at frame_bytes
assemble-frame_bytes f more h =
    rw (payload-frame_bytes f more h, lt→ltb (length f.body) 16777215 h.1, assemble, frame_at) refl

frames-Deframes :
    (fs : List Frame)
    → All IsSmall fs
    → Deframes 7 empty_assembly (flatten (map frame_bytes fs)) empty_assembly [] (map delivery fs)
unfolding flatten
frames-Deframes [] h = rest (next_frame-none 7 [] (inl (omega arith))) refl refl refl
frames-Deframes (f ∷ fs) (h, hs) =
    let bs = frame_bytes f ++ flatten (map frame_bytes fs) in
    let cut = assemble-frame_bytes f (flatten (map frame_bytes fs)) h in
    frame (frame_at 7 bs) (flatten (map frame_bytes fs)) (map delivery fs)
      (next_frame-frame_bytes f (flatten (map frame_bytes fs)) h)
      (subst
        (λ (a : Assembly).
          Deframes 7 a (flatten (map frame_bytes fs)) empty_assembly [] (map delivery fs))
        (sym (ap (λ (r : Assembly × List Delivery). r.0) cut)) (frames-Deframes fs hs))
      (ap (λ (r : Assembly × List Delivery). r.1 ++ map delivery fs) (sym cut))

take-cons :
    (n a : ℕ) (xs ys : Bytes)
    → take n xs ≡ a ∷ ys
    → (tail : Bytes) × (xs ≡ a ∷ tail) × (take (n - 1) tail ≡ ys)
take-cons zero a xs ys h = cc
take-cons (suc n) a [] ys h = cc
take-cons (suc n) a (x ∷ xs) ys h =
    let same : x ≡ a = cc in
    (xs, ap (λ y. y ∷ xs) same, ap (λ k. take k xs) {x = suc n - 1} {y = n} (omega arith) ∙ cc)

cut_three :
    (n a b c : ℕ) (xs body : Bytes)
    → take n xs ≡ a ∷ b ∷ c ∷ body
    → (tail : Bytes) × (xs ≡ a ∷ b ∷ c ∷ tail) × (take (n - 3) tail ≡ body)
cut_three n a b c xs body h =
    let (t, e, h1) = take-cons n a xs _ h in
    let (u, e1, h2) = take-cons (n - 1) b t _ h1 in
    let (v, e2, h3) = take-cons (n - 1 - 1) c u body h2 in
    (
      v,
      e ∙ ap (λ xs. a ∷ xs) (e1 ∙ ap (λ xs. b ∷ xs) e2),
      ap (λ k. take k v) {x = n - 3} {y = n - 1 - 1 - 1} (omega arith) ∙ h3,
    )

abbrev pub received_of : Frame → Received
received_of f = record { num_packets = 1; deflated_length = f.packet_len; body = f.body }

abbrev with_body : ℕ → ℕ → Option (Bytes × Packet) → Option (Received × Packet)
with_body num_packets n none = none
with_body num_packets n (some (b, q)) =
    some (record { num_packets = num_packets; deflated_length = n; body = b }, q)

-- A packet that holds a frame is read as the frame.
pub read_received-delivery :
    (p : Packet) (f : Frame)
    → IsSmall f
    → view p ≡ delivery f
    → (q : Packet) × (read_received p.num_packets p ≡ some (received_of f, q))
unfolding read_received read_buffer_rest
read_received-delivery p f (h, k) e =
    let n = f.packet_len in
    let low = n % 2 ^ 8 in
    let middle = n / 2 ^ 8 % 2 ^ 8 in
    let high = n / 2 ^ 16 in
    let (tail, t, body) =
      cut_three (p.end - p.offset) low middle high (ahead p) f.body (ap (λ d. d.body) e) in
    let number : read_int24 p ≡ some (n, forward 3 p) =
      read_int24-Reads low middle high p tail t
      ∙ ap (λ k. some (k, forward 3 p)) {x = low + middle * 2 ^ 8 + high * 2 ^ 16} {y = n}
          (omega arith) in
    let left = p.end - (p.offset + 3) in
    let read : take (p.offset + 3 + left - (p.offset + 3)) (drop (p.offset + 3) p.buffer) ≡ f.body =
      ap₂ take {x = p.offset + 3 + left - (p.offset + 3)} {y = p.end - p.offset - 3} (omega arith)
        (sym (drop-drop 3 p.offset p.buffer) ∙ ap (drop 3) t)
      ∙ body in
    (
      record p { offset = p.offset + 3 + left },
      rw (number, ◌>>=◌)
          (ap
              (λ b. some (
                record { num_packets = p.num_packets; deflated_length = n; body = b },
                record p { offset = p.offset + 3 + left },
              ))
              read
            ∙ ap
                (λ d. some (
                  record { num_packets = d; deflated_length = n; body = f.body },
                  record p { offset = p.offset + 3 + left },
                ))
                (ap (λ d. d.num_packets) e)),
    )

-- A new parser for compressed packets that is fed the bytes of frames, in any chunks of at least one
-- byte, hands over the frames in order and keeps no byte.
pub execute_all-frame_bytes :
    (node : Allocator) (chunks : List Bytes) (fs : List Frame)
    → All IsSmall fs
    → All IsChunk chunks
    → flatten chunks ≡ flatten (map frame_bytes fs)
    → map view (execute_all node (new_parser 7) chunks).1 ≡ map delivery fs
execute_all-frame_bytes node chunks fs h hc e =
    let (p, out) = execute_all node (new_parser 7) chunks in
    let run = (execute_all-Deframes node 7 chunks (inr refl) hc).1 in
    let read =
      subst (λ bs. Deframes 7 empty_assembly bs (assembly p) (pending p) (map view out)) e run in
    let (_, _, deliveries) = Deframes-unique read (frames-Deframes fs h) in deliveries
