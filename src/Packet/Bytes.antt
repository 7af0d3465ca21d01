-- ===== src/Packet/Bytes.antt =====
-- Reading what stands at the position, and what a write leaves there.
use node_mysql.Prelude.{
  ℕ, zero, suc, ◌+◌, ◌-◌, ◌*◌, ◌/◌, ◌%◌, ◌^◌, ◌≤◌, ◌<◌, ◌≡◌, refl, ap, ap₂, sym, ◌∙◌, Bool, true,
  false, if◌then◌else◌, some, [], ◌∷◌, ◌++◌, lt→ltb, arith, append_assoc, overlay-append,
  length-append, length, length-overlay, get_or, get_or-drop, drop, drop-drop, drop-append_right,
  length-drop, overlay, take, take-append_left, take_all,
}
use node_mysql.Packet.{
  Bytes, Packet, M, ◌>>=◌, ◌>>◌, read_int8, read_int16, read_int24, read_int32, read_buffer, put,
  write_buffer, write_int8, write_int16, write_int24, write_int32, pure,
}

-- The bytes from the position on.
abbrev pub ahead : Packet → Bytes
ahead p = drop p.offset p.buffer

abbrev pub forward : ℕ → Packet → Packet
forward n p = record p { offset = p.offset + n }

drop-overlay :
    (xs : Bytes) (o : ℕ) (ys : Bytes)
    → o + length ys ≤ length xs
    → drop o (overlay xs o ys) ≡ ys ++ drop (o + length ys) xs
drop-overlay [] zero [] h = refl
drop-overlay [] zero (y ∷ ys) h = absurd (omega arith)
drop-overlay [] (suc o) ys h = absurd (omega arith)
drop-overlay (x ∷ xs) (suc o) ys h =
    drop-overlay xs o ys (omega arith)
    ∙ ap (λ k. ys ++ drop k (x ∷ xs)) {x = suc (o + length ys)} {y = suc o + length ys}
        (omega arith)
drop-overlay (x ∷ xs) zero [] h = refl
drop-overlay (x ∷ xs) zero (y ∷ ys) h = ap (y ∷◌) (
    drop-overlay xs zero ys (omega arith)
    ∙ ap (λ k. ys ++ drop k (x ∷ xs)) {x = suc (zero + length ys)} {y = zero + suc (length ys)}
        (omega arith))

-- What a write puts in place is what a read finds there.
pub ahead-put :
    (p : Packet) (bs : Bytes)
    → p.offset + length bs ≤ length p.buffer
    → ahead (record p { buffer = overlay p.buffer p.offset bs })
      ≡ bs ++ drop (p.offset + length bs) p.buffer
ahead-put p bs h = drop-overlay p.buffer p.offset bs h

-- The packet after a write.
abbrev pub after_put : Bytes → Packet → Packet
after_put bs p = record p { buffer = overlay p.buffer p.offset bs; offset = p.offset + length bs }

pub put_fits :
    (bs : Bytes) (p : Packet)
    → p.offset + length bs ≤ length p.buffer
    → put bs p ≡ some (tt, after_put bs p)
unfolding put
put_fits bs p h = ground arith

-- `m` writes the bytes `bs`, wherever they fit.
abbrev pub Writes : M (Unit {0}) → Bytes → Type 0
Writes m bs =
    (p : Packet) → p.offset + length bs ≤ length p.buffer → m p ≡ some (tt, after_put bs p)

-- Two writes are one write of all their bytes.
pub Writes->> :
    (m k : M (Unit {0})) (a b : Bytes) → Writes m a → Writes k b → Writes (m >> k) (a ++ b)
Writes->> m k a b hm hk p h =
    let size = length-append a b in
    rw (hm p (omega arith), ◌>>◌, ◌>>=◌)
      (hk (after_put a p) (omega (arith, length-overlay p.buffer p.offset a))
        ∙ ap (λ q. some (tt, q))
            (ground (arith, size, overlay-append p.buffer p.offset (p.offset + length a) a b refl)))

pub Writes-if :
    (c : Bool) (m k : M (Unit {0})) (a b : Bytes)
    → (c ≡ true → Writes m a)
    → (c ≡ false → Writes k b)
    → Writes (if c then m else k) (if c then a else b)
Writes-if true m k a b hm hk = hm refl
Writes-if false m k a b hm hk = hk refl

pub write_int8-Writes : (n : ℕ) → n < 2 ^ 8 → Writes (write_int8 n) (n ∷ [])
unfolding write_int8
write_int8-Writes n h p k = rw (lt→ltb n (2 ^ 8) h) (put_fits (n ∷ []) p k)

pub write_int16-Writes :
    (n : ℕ) → n < 2 ^ 16 → Writes (write_int16 n) ((n % 2 ^ 8) ∷ (n / 2 ^ 8) ∷ [])
unfolding write_int16
write_int16-Writes n h p k = rw (lt→ltb n (2 ^ 16) h) (put_fits _ p k)

pub write_int24-Writes :
    (n : ℕ)
    → n < 2 ^ 24
    → Writes (write_int24 n) ((n % 2 ^ 8) ∷ (n / 2 ^ 8 % 2 ^ 8) ∷ (n / 2 ^ 8 / 2 ^ 8) ∷ [])
unfolding write_int24
write_int24-Writes n h =
    Writes->> (write_int8 (n % 2 ^ 8)) (write_int16 (n / 2 ^ 8)) ((n % 2 ^ 8) ∷ [])
      ((n / 2 ^ 8 % 2 ^ 8) ∷ (n / 2 ^ 8 / 2 ^ 8) ∷ []) (write_int8-Writes (n % 2 ^ 8) (omega arith))
      (write_int16-Writes (n / 2 ^ 8) (omega arith))

abbrev pub four_bytes : ℕ → Bytes
four_bytes n = (n % 2 ^ 8) ∷ (n / 2 ^ 8 % 2 ^ 8) ∷ (n / 2 ^ 16 % 2 ^ 8) ∷ (n / 2 ^ 24) ∷ []

pub write_int32-Writes : (n : ℕ) → n < 2 ^ 32 → Writes (write_int32 n) (four_bytes n)
unfolding write_int32
write_int32-Writes n h p k = rw (lt→ltb n (2 ^ 32) h) (put_fits _ p k)

-- `m` reads the value `a` off the bytes `bs`, whatever follows them.
abbrev pub Reads : {A : Type 0} → M A → Bytes → A → Type 0
Reads m bs a =
    (p : Packet) (rest : Bytes) → ahead p ≡ bs ++ rest → m p ≡ some (a, forward (length bs) p)

first : (bs : Bytes) (o : ℕ) → get_or bs o 0 ≡ get_or (drop o bs) 0 0
first bs o = ap (λ k. get_or bs k 0) {x = o} {y = o + 0} (omega arith) ∙ sym (get_or-drop o 0 bs 0)

pub ahead-forward :
    (p : Packet) (bs rest : Bytes) → ahead p ≡ bs ++ rest → ahead (forward (length bs) p) ≡ rest
ahead-forward p bs rest h =
    sym (drop-drop (length bs) p.offset p.buffer)
    ∙ ap (drop (length bs)) h
    ∙ drop-append_right (length bs) bs rest (omega arith)
    ∙ ap (λ k. drop k rest) {x = length bs - length bs} {y = zero} (omega arith)

pub Reads-pure : {A : Type 0} (a : A) → Reads (pure a) [] a
Reads-pure a p rest h =
    ap (λ o. some (a, record p { offset = o })) {x = p.offset} {y = p.offset + 0} (omega arith)

pub Reads->>= :
    {A B : Type 0} (m : M A) (f : A → M B) (xs bs : Bytes) (a : A) (b : B)
    → Reads m xs a
    → Reads (f a) bs b
    → Reads (m >>= f) (xs ++ bs) b
Reads->>= m f xs bs a b hm hf p rest h =
    let e = h ∙ append_assoc xs bs rest in
    rw (hm p (bs ++ rest) e, ◌>>=◌)
      (hf (forward (length xs) p) rest (ahead-forward p xs (bs ++ rest) e)
        ∙ ap (λ o. some (b, record p { offset = o })) {x = p.offset + length xs + length bs}
            {y = p.offset + length (xs ++ bs)} (omega (arith, length-append xs bs)))

pub read_int8-Reads : (b : ℕ) → Reads read_int8 (b ∷ []) b
unfolding read_int8
read_int8-Reads b p rest h = ground (
  arith,
  ap length h,
  length-drop p.offset p.buffer,
  first p.buffer p.offset,
  ap (λ (bs : Bytes). get_or bs 0 0) h,
)

pub read_int16-Reads : (a b : ℕ) → Reads read_int16 (a ∷ b ∷ []) (a + b * 2 ^ 8)
unfolding read_int16
read_int16-Reads a b p rest h = ground (
  arith,
  ap length h,
  length-drop p.offset p.buffer,
  first p.buffer p.offset,
  get_or-drop p.offset 1 p.buffer 0,
  ap (λ (bs : Bytes). get_or bs 0 0) h,
  ap (λ (bs : Bytes). get_or bs 1 0) h,
)

pub read_int24-Reads : (a b c : ℕ) → Reads read_int24 (a ∷ b ∷ c ∷ []) (a + b * 2 ^ 8 + c * 2 ^ 16)
unfolding read_int24
read_int24-Reads a b c =
    Reads->>= read_int16 (λ low. read_int8 >>= λ high. pure (low + high * 2 ^ 16)) (a ∷ b ∷ [])
      (c ∷ []) (a + b * 2 ^ 8) (a + b * 2 ^ 8 + c * 2 ^ 16) (read_int16-Reads a b)
      (Reads->>= read_int8 (λ high. pure (a + b * 2 ^ 8 + high * 2 ^ 16)) (c ∷ []) [] c
        (a + b * 2 ^ 8 + c * 2 ^ 16) (read_int8-Reads c) (Reads-pure (a + b * 2 ^ 8 + c * 2 ^ 16)))

pub read_int32-Reads :
    (a b c d : ℕ) → Reads read_int32 (a ∷ b ∷ c ∷ d ∷ []) (a + b * 2 ^ 8 + c * 2 ^ 16 + d * 2 ^ 24)
unfolding read_int32
read_int32-Reads a b c d p rest h = ground (
  arith,
  ap length h,
  length-drop p.offset p.buffer,
  first p.buffer p.offset,
  get_or-drop p.offset 1 p.buffer 0,
  get_or-drop p.offset 2 p.buffer 0,
  get_or-drop p.offset 3 p.buffer 0,
  ap (λ (bs : Bytes). get_or bs 0 0) h,
  ap (λ (bs : Bytes). get_or bs 1 0) h,
  ap (λ (bs : Bytes). get_or bs 2 0) h,
  ap (λ (bs : Bytes). get_or bs 3 0) h,
)

pub read_int32-four_bytes : (n : ℕ) → Reads read_int32 (four_bytes n) n
read_int32-four_bytes n p rest h =
    read_int32-Reads (n % 2 ^ 8) (n / 2 ^ 8 % 2 ^ 8) (n / 2 ^ 16 % 2 ^ 8) (n / 2 ^ 24) p rest h
    ∙ ap (λ k. some (k, forward 4 p)) (omega arith)

pub read_buffer-Reads : (bs : Bytes) → Reads (read_buffer (length bs)) bs bs
unfolding read_buffer
read_buffer-Reads bs p rest h =
    ap (λ xs. some (xs, forward (length bs) p))
      (ap₂ take {x = p.offset + length bs - p.offset} {y = length bs} (omega arith) h
        ∙ take-append_left (length bs) bs rest (omega arith)
        ∙ take_all (length bs) bs (omega arith))

-- `writeBuffer` cuts off nothing where the buffer has room.
pub write_buffer-Writes : (bs : Bytes) → Writes (write_buffer bs) bs
unfolding write_buffer
write_buffer-Writes bs p h = refl
