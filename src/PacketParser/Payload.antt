-- ===== src/PacketParser/Payload.antt =====
-- `executePayload`, `executeHeader2` and `executeHeader3` of lib/packet_parser.js: the chunks that
-- came before are copied into one buffer, behind three bytes of whatever `allocUnsafe` left there.
use mathlib.Core.List.{flatten}
use node_mysql.Prelude.{
  ℕ, ◌+◌, ◌-◌, ◌≤◌, ◌<◌, ◌≡◌, refl, sym, ap, ap₂, ◌∙◌, subst, List, [], ◌∷◌, ◌++◌, arith, inl, inr,
  some, leb, ltb, Bool-cases, length, take, drop, slice, map, length-drop, length-take, get_or,
  take_all, take-nil, drop_all, append-nil, All-drop, All-take, overlay, overlay-append,
  overlay_all, length-append, append_assoc, take-append-drop, overlay-nil, flatten-append,
  flatten-singleton,
}
use node_mysql.Packet.{Bytes, Packet}
use node_mysql.PacketParser.{
  PacketParser, Allocator, complete, copy_all, execute_start, execute_payload, run_start,
  start_loop, keep_header, run_payload,
}
use node_mysql.PacketParser.Frames.{
  next_frame, assemble, IsHeaderLength, view, assembly, frame_at, frame_length,
}
use node_mysql.PacketParser.Framing.{next_frame_of_le, next_frame-append}
use node_mysql.PacketParser.Pending.{IsBytes, Holds, three_bytes, frame_length-three_bytes}
use node_mysql.PacketParser.Complete.{complete-assemble, complete-Same, frame_of}
use node_mysql.PacketParser.Refine.{
  Advances, next_frame-none, stop-Advances, step-Advances, run_start-Advances,
}

copy_all-overlay :
    (bs : List Bytes) (xs : Bytes) (o : ℕ) → (copy_all bs xs o).0 ≡ overlay xs o (flatten bs)
unfolding copy_all flatten
copy_all-overlay [] xs o = sym (overlay-nil xs o)
copy_all-overlay (b ∷ bs) xs o =
    copy_all-overlay bs (overlay xs o b) (o + length b)
    ∙ overlay-append xs o (o + length b) b (flatten bs) refl

copy_all-offset :
    (bs : List Bytes) (xs : Bytes) (o : ℕ) → (copy_all bs xs o).1 ≡ o + length (flatten bs)
unfolding copy_all flatten
copy_all-offset [] xs o = omega arith
copy_all-offset (b ∷ bs) xs o =
    omega (arith, copy_all-offset bs (overlay xs o b) (o + length b), length-append b (flatten bs))

overlay_three : (xs ys : Bytes) → length xs ≡ 3 + length ys → overlay xs 3 ys ≡ take 3 xs ++ ys
overlay_three [] ys e = absurd (omega arith)
overlay_three (a ∷ []) ys e = absurd (omega arith)
overlay_three (a ∷ b ∷ []) ys e = absurd (omega arith)
overlay_three (a ∷ b ∷ c ∷ xs) ys e = ap (λ t. a ∷ b ∷ c ∷ t) (overlay_all xs ys (omega arith))

-- Only the three length bytes tell the assembled buffer from the stream.
frame_of-payload :
    (p : PacketParser) (junk t : Bytes) (h : ℕ)
    → IsHeaderLength h
    → p.packet_header_length ≡ h
    → length junk ≡ 3
    → frame_of p (get_or (junk ++ t) 3 0) (junk ++ t) 0
      ≡ frame_at h (three_bytes p.payload_length ++ t)
unfolding frame_at
frame_of-payload p [] t h hh e k = absurd (omega arith)
frame_of-payload p (a ∷ []) t h hh e k = absurd (omega arith)
frame_of-payload p (a ∷ b ∷ []) t h hh e k = absurd (omega arith)
frame_of-payload p (a ∷ b ∷ c ∷ []) t h (inl four) e k =
    ground (arith, frame_length-three_bytes p.payload_length t)
frame_of-payload p (a ∷ b ∷ c ∷ []) t h (inr seven) e k =
    ground (arith, frame_length-three_bytes p.payload_length t)
frame_of-payload p (a ∷ b ∷ c ∷ d ∷ js) t h hh e k = absurd (omega arith)

module _ (node : Allocator) (p : PacketParser) (chunk : Bytes) where
  abbrev remaining : ℕ
  remaining = p.payload_length + p.packet_header_length - 3 - p.buffer_length

  abbrev alloc : Bytes
  alloc = node.alloc_unsafe (p.payload_length + p.packet_header_length)

  abbrev payload : Bytes
  payload =
      overlay (copy_all p.buffer alloc 3).0 (copy_all p.buffer alloc 3).1 (slice chunk 0 remaining)

  abbrev known : Bytes
  known = flatten p.buffer ++ slice chunk 0 remaining

  module _ (mode : Holds execute_payload p) where
    payload-known :
        remaining ≤ length chunk
        → (payload ≡ take 3 alloc ++ known)
          × (length (take 3 alloc) ≡ 3)
          × (length known + 3 ≡ p.payload_length + p.packet_header_length)
    payload-known k =
        let part = slice chunk 0 remaining in
        let size : length known + 3 ≡ p.payload_length + p.packet_header_length =
          omega (arith, length-append (flatten p.buffer) part, length-take (remaining - 0) chunk) in
        let room = node.length-alloc_unsafe (p.payload_length + p.packet_header_length) in
        (
          ap₂ (λ xs o. overlay xs o part) (copy_all-overlay p.buffer alloc 3)
                (copy_all-offset p.buffer alloc 3)
              ∙ overlay-append alloc 3 (3 + length (flatten p.buffer)) (flatten p.buffer) part refl
              ∙ overlay_three alloc known (omega arith),
          omega (arith, length-take 3 alloc),
          size,
        )

    wait-Advances :
        (h : ℕ)
        → p.packet_header_length ≡ h
        → p.execute ≡ execute_payload
        → length chunk < remaining
        → Advances h (assembly p) (three_bytes p.payload_length ++ (flatten p.buffer ++ chunk)) (
          record p {
            buffer = p.buffer ++ (chunk ∷ []);
            buffer_length = p.buffer_length + length chunk;
          },
          [],
        )
    wait-Advances h e m k =
        stop-Advances _
          (next_frame-none h _ (
            inr (
              omega (
                arith,
                frame_length-three_bytes p.payload_length (flatten p.buffer ++ chunk),
                length-append (flatten p.buffer) chunk,
              ))))
          (ground (
            arith,
            flatten-append p.buffer (chunk ∷ []),
            flatten-singleton chunk,
            length-append (flatten p.buffer) chunk,
          ))

    abbrev whole : Bytes
    whole = three_bytes p.payload_length ++ known

    abbrev more : Bytes
    more = slice chunk remaining (length chunk)

    stream-split : flatten p.buffer ++ chunk ≡ known ++ more
    stream-split =
        ap (◌++◌ (flatten p.buffer)) (
          sym (take-append-drop (remaining - 0) chunk)
          ∙ ap (◌++◌ (take (remaining - 0) chunk)) (
              ap (λ n. drop n chunk) {x = remaining - 0} {y = remaining} (omega arith)
              ∙ sym (
                  take_all (length chunk - remaining) (drop remaining chunk)
                    (omega (arith, length-drop remaining chunk)))))
        ∙ sym (append_assoc (flatten p.buffer) (slice chunk 0 remaining) more)

    whole-next_frame :
        (h : ℕ)
        → IsHeaderLength h
        → p.packet_header_length ≡ h
        → remaining ≤ length chunk
        → next_frame h (three_bytes p.payload_length ++ (flatten p.buffer ++ chunk))
          ≡ some (frame_at h whole, more)
    whole-next_frame h hh e k =
        let (eq, junk, size) = payload-known k in
        let len = frame_length-three_bytes p.payload_length known in
        let four : 4 ≤ h = omega arith in
        let none_left : drop (frame_length whole + h) whole ≡ [] =
          drop_all (frame_length whole + h) whole (omega arith) in
        ap (λ xs. next_frame h (three_bytes p.payload_length ++ xs)) stream-split
        ∙ next_frame-append h whole more (frame_at h whole) [] four (
            next_frame_of_le h whole (omega arith) (omega arith)
            ∙ ap (λ xs. some (frame_at h whole, xs)) none_left)

    whole-assemble :
        (h : ℕ)
        → IsHeaderLength h
        → p.packet_header_length ≡ h
        → remaining ≤ length chunk
        → let (q, out) = complete p (get_or payload 3 0) payload 0 in
          let (a, outs) = assemble h (assembly p) (frame_at h whole) in
          (assembly q ≡ a) × (map view out ≡ outs)
    whole-assemble h hh e k =
        let (eq, junk, size) = payload-known k in
        let same : frame_of p (get_or payload 3 0) payload 0 ≡ frame_at h whole =
          ap (λ xs. frame_of p (get_or xs 3 0) xs 0) eq
          ∙ frame_of-payload p (take 3 alloc) known h hh e junk in
        rw same at (
          complete-assemble p (get_or payload 3 0) payload 0 h hh e
            (omega (arith, ap length eq, length-append (take 3 alloc) known)))

    -- The last chunk of a frame: the rest of it goes to `executeStart`.
    finish-Advances :
        (h : ℕ)
        → IsHeaderLength h
        → IsBytes chunk
        → p.packet_header_length ≡ h
        → remaining ≤ length chunk
        → let (p1, out) = complete p (get_or payload 3 0) payload 0 in
          let p2 : PacketParser = record p1 {
            buffer = [];
            buffer_length = 0;
            execute = execute_start;
          } in
          let (p3, outs) = run_start p2 (slice chunk remaining (length chunk)) in
          Advances h
            (assembly p)
            (three_bytes p.payload_length ++ (flatten p.buffer ++ chunk))
            (p3, out ++ outs)
    finish-Advances h hh hb e k =
        let (p1, out) = complete p (get_or payload 3 0) payload 0 in
        let p2 : PacketParser = record p1 {
          buffer = [];
          buffer_length = 0;
          execute = execute_start;
        } in
        let kept = complete-Same p (get_or payload 3 0) payload 0 in
        step-Advances (frame_at h whole) p2 out (run_start p2 more) (whole-next_frame h hh e k)
          (whole-assemble h hh e k)
          (run_start-Advances p2 more h hh
            (All-take (λ b. b < 256) (length chunk - remaining) (drop remaining chunk)
              (All-drop (λ b. b < 256) remaining chunk hb))
            (kept.header ∙ e) refl (refl, refl))

run_start_nothing : (p : PacketParser) (chunk : Bytes) → chunk ≡ [] → run_start p chunk ≡ (p, [])
unfolding run_start start_loop keep_header
run_start_nothing p [] e = refl
run_start_nothing p (c ∷ chunk) e = cc

-- A chunk that ends with the frame leaves nothing for `executeStart`.
nothing_left :
    (node : Allocator) (p : PacketParser) (chunk : Bytes)
    → length chunk ≤ remaining node p chunk
    → let (p1, out) = complete p (get_or (payload node p chunk) 3 0) (payload node p chunk) 0 in
      let p2 : PacketParser = record p1 {
        buffer = [];
        buffer_length = 0;
        execute = execute_start;
      } in
      let (p3, outs) = run_start p2 (slice chunk (remaining node p chunk) (length chunk)) in
      ◌≡◌ {A = PacketParser × List Packet} (p3, out ++ outs) (p2, out)
nothing_left node p chunk k =
    let (p1, out) = complete p (get_or (payload node p chunk) 3 0) (payload node p chunk) 0 in
    let p2 : PacketParser = record p1 { buffer = []; buffer_length = 0; execute = execute_start } in
    let left = slice chunk (remaining node p chunk) (length chunk) in
    let nil : left ≡ [] =
      ap (take (length chunk - remaining node p chunk)) (drop_all (remaining node p chunk) chunk k)
      ∙ take-nil (length chunk - remaining node p chunk) in
    let same = run_start_nothing p2 left nil in
    ap {B = PacketParser × List Packet} (λ r. (r.0, out ++ r.1)) same
    ∙ ap {B = PacketParser × List Packet} (λ o. (p2, o)) (append-nil out)

pub run_payload-Advances :
    (node : Allocator) (p : PacketParser) (chunk : Bytes) (h : ℕ)
    → IsHeaderLength h
    → IsBytes chunk
    → p.packet_header_length ≡ h
    → p.execute ≡ execute_payload
    → Holds execute_payload p
    → Advances h
        (assembly p)
        (three_bytes p.payload_length ++ (flatten p.buffer ++ chunk))
        (run_payload node p chunk)
unfolding run_payload
run_payload-Advances node p chunk h hh hb e m mode =
    elim (Bool-cases (leb (remaining node p chunk) (length chunk))) [
      | inr short ↦ rw short (wait-Advances node p chunk mode h e m (ground arith))
      | inl last ↦ elim (Bool-cases (ltb (remaining node p chunk) (length chunk))) [
        | inl more ↦ rw (last, more) (finish-Advances node p chunk mode h hh hb e (ground arith))
        | inr exact ↦
            rw (last, exact)
              (subst (Advances h (assembly p) _) (nothing_left node p chunk (ground arith))
                (finish-Advances node p chunk mode h hh hb e (ground arith)))
      ]
    ]
