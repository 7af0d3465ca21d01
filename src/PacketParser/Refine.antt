-- ===== src/PacketParser/Refine.antt =====
-- `PacketParser.execute` of lib/packet_parser.js, one method at a time, against the stream
-- description: each call delivers what the bytes kept so far and the new chunk say together.
use mathlib.Core.List.{map-append}
use node_mysql.Prelude.{
  ℕ, zero, suc, ◌+◌, ◌-◌, ◌≤◌, ◌<◌, ◌≡◌, refl, sym, ap, ◌∙◌, subst, List, [], ◌∷◌, ◌++◌, arith, inl,
  inr, ◌⊎◌, none, some, leb, Bool-cases, length, drop, slice, map, length-drop, get_or, get_or-drop,
  take_all, drop-drop, All-drop, flatten-singleton,
}
use node_mysql.Packet.{Bytes, Packet}
use node_mysql.PacketParser.{
  PacketParser, complete, execute_start, keep_header, keep_payload, start_loop, run_start,
  read_packet_length,
}
use node_mysql.PacketParser.Frames.{
  Frame, Assembly, Deframes, rest, frame, next_frame, assemble, IsHeaderLength, view, assembly,
  frame_at, frame_length,
}
use node_mysql.PacketParser.Framing.{next_frame_of_le}
use node_mysql.PacketParser.Pending.{
  IsBytes, IsClear, IsValid, pending, one_byte, two_bytes, read_packet_length-drop,
  three_bytes-frame_length, frame_length-lt, byte-lt,
}
use node_mysql.PacketParser.Complete.{complete-assemble, complete-Same, slice-drop, frame_of}

-- From assembly `a` the bytes `bs` lead to the state and the packets of `r`.
pub record Advances (h : ℕ) (a : Assembly) (bs : Bytes) (r : PacketParser × List Packet)
    : Type 0 where
  pub valid : IsValid h r.0
  pub deframes : Deframes h a bs (assembly r.0) (pending r.0) (map view r.1)

pub next_frame-none :
    (h : ℕ) (bs : Bytes)
    → (length bs < 3) ⊎ (length bs < frame_length bs + h)
    → next_frame h bs ≡ none
unfolding next_frame
next_frame-none h bs e = ground arith

no_byte : (bs : Bytes) → length bs ≡ 0 → bs ≡ []
no_byte [] h = refl
no_byte (b ∷ bs) h = absurd (omega arith)

get_or-start : (chunk : Bytes) (start : ℕ) → get_or chunk start 0 ≡ get_or (drop start chunk) 0 0
get_or-start chunk start =
    ap (λ k. get_or chunk k 0) {x = start} {y = start + 0} (omega arith)
    ∙ sym (get_or-drop start 0 chunk 0)

keep_header-pending :
    (p : PacketParser) (chunk : Bytes) (start h : ℕ)
    → IsBytes chunk
    → p.packet_header_length ≡ h
    → p.execute ≡ execute_start
    → IsClear p
    → length chunk - start < 3
    → IsValid h (keep_header p chunk start)
      × (pending (keep_header p chunk start) ≡ drop start chunk)
      × (assembly (keep_header p chunk start) ≡ assembly p)
unfolding keep_header
keep_header-pending p chunk start h hb e m c k =
    let xs = drop start chunk in
    ground (
      arith,
      length-drop start chunk,
      no_byte xs,
      one_byte xs,
      two_bytes xs,
      get_or-start chunk start,
      get_or-drop start 1 chunk 0,
      byte-lt xs 0 (All-drop (λ b. b < 256) start chunk hb),
      byte-lt xs 1 (All-drop (λ b. b < 256) start chunk hb),
    )

keep_payload-pending :
    (p : PacketParser) (chunk : Bytes) (start h : ℕ)
    → IsBytes chunk
    → p.packet_header_length ≡ h
    → p.payload_length ≡ frame_length (drop start chunk)
    → 3 ≤ length chunk - start
    → length chunk - start < p.payload_length + h
    → IsValid h (keep_payload p chunk start)
      × (pending (keep_payload p chunk start) ≡ drop start chunk)
      × (assembly (keep_payload p chunk start) ≡ assembly p)
unfolding keep_payload
keep_payload-pending p chunk start h hb e m k l =
    let xs = drop start chunk in
    let hx = All-drop (λ b. b < 256) start chunk hb in
    let kept = slice chunk (start + 3) (length chunk) in
    ground (
      arith,
      length-drop start chunk,
      length-drop (start + 3) chunk,
      flatten-singleton kept,
      drop-drop 3 start chunk,
      take_all (length chunk - (start + 3)) (drop (start + 3) chunk),
      frame_length-lt xs hx,
      three_bytes-frame_length xs hx,
    )

frame_of-frame_at :
    (p : PacketParser) (chunk : Bytes) (start h : ℕ)
    → p.packet_header_length ≡ h
    → p.payload_length ≡ frame_length (drop start chunk)
    → frame_of p (get_or chunk (start + 3) 0) chunk start ≡ frame_at h (drop start chunk)
unfolding frame_at
frame_of-frame_at p chunk start h e m = ground (
  arith,
  get_or-drop start 3 chunk 0,
  slice-drop chunk start 4 h,
  slice-drop chunk start h (h + frame_length (drop start chunk)),
)

-- The two ways to go on: the bytes wait for more, or one frame is taken off them.
pub stop-Advances :
    {h : ℕ} {a : Assembly} {bs : Bytes} (q : PacketParser)
    → next_frame h bs ≡ none
    → IsValid h q × (pending q ≡ bs) × (assembly q ≡ a)
    → Advances h a bs (q, [])
stop-Advances q e (v, p, s) = record { valid = v; deframes = rest e s p refl }

pub step-Advances :
    {h : ℕ} {a : Assembly} {bs more : Bytes} (f : Frame) (q : PacketParser) (out : List Packet)
    (r : PacketParser × List Packet)
    → next_frame h bs ≡ some (f, more)
    → (assembly q ≡ (assemble h a f).0) × (map view out ≡ (assemble h a f).1)
    → Advances h (assembly q) more r
    → Advances h a bs (r.0, out ++ r.1)
step-Advances {h} {more = more} f q out r e (ea, eo) d = record {
  valid = d.valid;
  deframes =
      frame f more (map view r.1) e
        (subst (λ x. Deframes h x more (assembly r.0) (pending r.0) (map view r.1)) ea d.deframes)
        (map-append view out r.1 ∙ ap (λ x. x ++ map view r.1) eo);
}

-- One whole frame at `start`, with its length read.
complete-step :
    (p : PacketParser) (chunk : Bytes) (start h : ℕ)
    → IsHeaderLength h
    → p.packet_header_length ≡ h
    → p.payload_length ≡ frame_length (drop start chunk)
    → frame_length (drop start chunk) + h + start ≤ length chunk
    → let (q, out) = complete p (get_or chunk (start + 3) 0) chunk start in
      let (a, outs) = assemble h (assembly p) (frame_at h (drop start chunk)) in
      (assembly q ≡ a) × (map view out ≡ outs)
complete-step p chunk start h hh e m k =
    rw (frame_of-frame_at p chunk start h e m) at
      (complete-assemble p (get_or chunk (start + 3) 0) chunk start h hh e (omega arith))

shift :
    (chunk : Bytes) (start next n : ℕ)
    → next ≡ start + n
    → drop next chunk ≡ drop n (drop start chunk)
shift chunk start next n e = ap (λ k. drop k chunk) e ∙ sym (drop-drop n start chunk)

start_loop-Advances :
    (fuel : ℕ) (p : PacketParser) (chunk : Bytes) (start h : ℕ)
    → IsHeaderLength h
    → IsBytes chunk
    → p.packet_header_length ≡ h
    → p.execute ≡ execute_start
    → IsClear p
    → start ≤ length chunk
    → length chunk - start < fuel
    → Advances h (assembly p) (drop start chunk) (start_loop fuel p chunk start)
unfolding start_loop
start_loop-Advances zero p chunk start h hh hb e m c i k = absurd (omega arith)
start_loop-Advances (suc fuel) p chunk start h hh hb e m c i k =
    let xs = drop start chunk in
    let size = length-drop start chunk in
    let len = read_packet_length chunk start in
    let len_xs = read_packet_length-drop chunk start in
    let p1 : PacketParser = record p { payload_length = len } in
    elim (Bool-cases (leb 3 (length chunk - start))) [
      | inr short ↦ rw short (
          stop-Advances (keep_header p chunk start) (next_frame-none h xs (inl (ground arith)))
            (keep_header-pending p chunk start h hb e m c (ground arith)))
      | inl three ↦ elim (Bool-cases (leb (len + p.packet_header_length) (length chunk - start))) [
        | inr part ↦
            rw (three, part)
              (stop-Advances (keep_payload p1 chunk start)
                (next_frame-none h xs (inr (ground arith)))
                (keep_payload-pending p1 chunk start h hb e len_xs (ground arith) (ground arith)))
        | inl whole ↦
            let (q, out) = complete p1 (get_or chunk (start + 3) 0) chunk start in
            let same = complete-Same p1 (get_or chunk (start + 3) 0) chunk start in
            let next = start + (p.packet_header_length + len) in
            rw (three, whole)
              (step-Advances (frame_at h xs) q out (start_loop fuel q chunk next)
                (next_frame_of_le h xs (ground arith) (ground arith))
                (complete-step p1 chunk start h hh e len_xs (ground arith))
                (subst (λ b. Advances h (assembly q) b (start_loop fuel q chunk next))
                  (shift chunk start next (frame_length xs + h) (omega (arith, len_xs)))
                  (start_loop-Advances fuel q chunk next h hh hb (same.header ∙ e) (same.mode ∙ m)
                    (same.chunks ∙ c.0, same.size ∙ c.1) (ground arith) (ground arith))))
      ]
    ]

-- `executeStart` on a whole chunk.
pub run_start-Advances :
    (p : PacketParser) (chunk : Bytes) (h : ℕ)
    → IsHeaderLength h
    → IsBytes chunk
    → p.packet_header_length ≡ h
    → p.execute ≡ execute_start
    → IsClear p
    → Advances h (assembly p) chunk (run_start p chunk)
unfolding run_start
run_start-Advances p chunk h hh hb e m c =
    start_loop-Advances (suc (length chunk)) p chunk 0 h hh hb e m c (omega arith) (omega arith)
