-- ===== src/PacketParser/Framing.antt =====
-- The stream description is deterministic, and it may be cut anywhere.
use node_mysql.Prelude.{
  ℕ, ◌+◌, ◌-◌, ◌≤◌, ◌≡◌, sym, subst, ap, ◌∙◌, some, List, ◌++◌, append_assoc, arith, length,
  length-append, drop, slice, take-append_left, drop-append_left, get_or-append_left, length-drop,
}
use node_mysql.Packet.{Bytes}
use node_mysql.Packet.{Bytes}
use node_mysql.PacketParser.Frames.{
  Frame, Assembly, Delivery, Deframes, rest, frame, next_frame, frame_length, frame_at, assemble,
}

pub next_frame_of_le :
    (h : ℕ) (bs : Bytes)
    → 3 ≤ h
    → frame_length bs + h ≤ length bs
    → next_frame h bs ≡ some (frame_at h bs, drop (frame_length bs + h) bs)
unfolding next_frame
next_frame_of_le h bs hh e = ground arith

pub next_frame-some_inv :
    (h : ℕ) (bs : Bytes) (f : Frame) (more : Bytes)
    → next_frame h bs ≡ some (f, more)
    → (frame_length bs + h ≤ length bs)
      × (f ≡ frame_at h bs)
      × (more ≡ drop (frame_length bs + h) bs)
unfolding next_frame
next_frame-some_inv h bs f more e = ground arith

-- Three bytes give the length of a frame, whatever follows.
pub frame_length-append :
    (xs ys : Bytes) → 3 ≤ length xs → frame_length (xs ++ ys) ≡ frame_length xs
unfolding frame_length
frame_length-append xs ys h = rw (
  get_or-append_left 0 xs ys 0 (omega arith),
  get_or-append_left 1 xs ys 0 (omega arith),
  get_or-append_left 2 xs ys 0 (omega arith),
)

slice-append_left :
    (xs ys : Bytes) (from to : ℕ)
    → from ≤ to
    → to ≤ length xs
    → slice (xs ++ ys) from to ≡ slice xs from to
slice-append_left xs ys from to h k =
    rw (drop-append_left from xs ys (omega arith))
      (take-append_left (to - from) (drop from xs) ys (omega (arith, length-drop from xs)))

frame_at-append :
    (h : ℕ) (xs ys : Bytes)
    → 4 ≤ h
    → frame_length xs + h ≤ length xs
    → frame_at h (xs ++ ys) ≡ frame_at h xs
unfolding frame_at
frame_at-append h xs ys hh k = rw (
  frame_length-append xs ys (omega arith),
  get_or-append_left 3 xs ys 0 (omega arith),
  slice-append_left xs ys 4 h (omega arith) (omega arith),
  slice-append_left xs ys h (h + frame_length xs) (omega arith) (omega arith),
)

-- A complete frame stays the first one, whatever follows.
pub next_frame-append :
    (h : ℕ) (xs ys : Bytes) (f : Frame) (more : Bytes)
    → 4 ≤ h
    → next_frame h xs ≡ some (f, more)
    → next_frame h (xs ++ ys) ≡ some (f, more ++ ys)
next_frame-append h xs ys f more hh e =
    let (k, ef, em) = next_frame-some_inv h xs f more e in
    let same = frame_length-append xs ys (omega arith) in
    next_frame_of_le h (xs ++ ys) (omega arith) (omega (arith, same, length-append xs ys))
    ∙ rw
        (same, frame_at-append h xs ys hh k, drop-append_left (frame_length xs + h) xs ys k, ef, em)

-- Two runs over one stream end alike.
pub Deframes-unique :
    {h : ℕ} {a b b' : Assembly} {bs rs rs' : Bytes} {out out' : List Delivery}
    → Deframes h a bs b rs out
    → Deframes h a bs b' rs' out'
    → (b ≡ b') × (rs ≡ rs') × (out ≡ out')
Deframes-unique (rest n p q r) (rest n' p' q' r') = (p ∙ sym p', q ∙ sym q', r ∙ sym r')
Deframes-unique (rest n p q r) (frame f' m' o' e' d' r') = cc
Deframes-unique (frame f m o e d r) (rest n' p' q' r') = cc
Deframes-unique {h} {a} {b' = b'} {rs' = rs'} (frame f m o e d r) (frame f' m' o' e' d' r') =
    let same : f' ≡ f = cc in
    let same_rest : m' ≡ m = cc in
    let d'' =
      subst (λ k. Deframes h (assemble h a f).0 k b' rs' o') same_rest
        (subst (λ k. Deframes h (assemble h a k).0 m' b' rs' o') same d') in
    let (p, q, s) = Deframes-unique d d'' in
    (p, q, r ∙ ap (◌++◌ (assemble h a f).1) s ∙ rw (← same) (sym r'))

pub Deframes-append :
    {h : ℕ} {a b c : Assembly} {xs rs qs : Bytes} {out outs : List Delivery} (ys : Bytes)
    → 4 ≤ h
    → Deframes h a xs b rs out
    → Deframes h b (rs ++ ys) c qs outs
    → Deframes h a (xs ++ ys) c qs (out ++ outs)
Deframes-append {h} {b = b} {c = c} {xs = xs} {rs = rs} {qs = qs} {out = out} {outs = outs} ys hh
      (rest n p q r) d =
    subst (λ k. Deframes h k (xs ++ ys) c qs (out ++ outs)) p
      (subst (λ k. Deframes h b (k ++ ys) c qs (out ++ outs)) q
        (subst (λ k. Deframes h b (rs ++ ys) c qs (k ++ outs)) (sym r) d))
Deframes-append {h} {xs = xs} {outs = outs} ys hh (frame f m o e d r) d' =
    frame f (m ++ ys) (o ++ outs) (next_frame-append h xs ys f m hh e) (Deframes-append ys hh d d')
      (rw r (append_assoc _ o outs))
