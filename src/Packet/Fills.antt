-- ===== src/Packet/Fills.antt =====
-- Writes of lib/packets/packet.js that fill a number of bytes that is known beforehand, or throw.
use node_mysql.Prelude.{
  ℕ, zero, suc, ◌+◌, ◌*◌, ◌/◌, ◌%◌, ◌^◌, ◌≡◌, refl, ap, sym, subst, ◌≤◌, overlay, overlay-nil, ℤ,
  ◌∙◌, ◌⊎◌, inl, inr, Bool, true, false, Bool-cases, Option-cases, none, some, [], ◌∷◌, ◌++◌, pos,
  negsuc, ltb, ltb→lt, ltb_false→le, le→ltb_false, ◌==◌, if◌then◌else◌, length, length-append,
  arith,
}
use node_mysql.Packet.{
  Bytes, Packet, M, pure, ◌>>=◌, ◌>>◌, put, write_int8, write_int16, write_int32, write_buffer,
}
use node_mysql.Packet.Bytes.{
  Writes, Writes->>, write_int8-Writes, write_int16-Writes, write_int32-Writes, write_buffer-Writes,
  four_bytes, put_fits,
}
use node_mysql.Packet.LengthCoded.{
  write_length_coded_number, write_length_coded_buffer, length_coded_number_length,
}
use node_mysql.Packet.RoundTrip.{encoded, length-encoded, write_length_coded_number-Writes}
use node_mysql.Packet.Values.{
  le_bytes, write_uint_le, TimeParts, time_length, write_time, is_zero, DateFields, write_year,
  write_date_fields,
}

-- The method throws, wherever it stands.
abbrev pub Throws : M (Unit {0}) → Type 0
Throws m = (p : Packet) → m p ≡ none

-- It writes `n` bytes, or throws.
abbrev pub Fills : M (Unit {0}) → ℕ → Type 0
Fills m n = ((bs : Bytes) × (length bs ≡ n) × Writes m bs) ⊎ Throws m

pub Fills-Throws->> : (m k : M (Unit {0})) → Throws m → Throws (m >> k)
Fills-Throws->> m k h p = rw (h p, ◌>>◌, ◌>>=◌) refl

pub Throws->> : (m k : M (Unit {0})) → Throws k → Throws (m >> k)
Throws->> m k h p = elim (Option-cases (m p)) [
  | inl e ↦ rw (e, ◌>>◌, ◌>>=◌) refl
  | inr (a, e) ↦ rw (e, ◌>>◌, ◌>>=◌) (h a.1)
]

pub Fills->> : (m k : M (Unit {0})) (a b : ℕ) → Fills m a → Fills k b → Fills (m >> k) (a + b)
Fills->> m k a b (inr t) hk = inr (Fills-Throws->> m k t)
Fills->> m k a b (inl w) (inr t) = inr (Throws->> m k t)
Fills->> m k a b (inl (bs, l, w)) (inl (cs, l', w')) =
    inl (bs ++ cs, omega (arith, length-append {0} bs cs), Writes->> m k bs cs w w')

pub pure-Writes : Writes (pure tt) []
pure-Writes p h =
    ap (λ b. some (tt, record p { buffer = b })) (sym (overlay-nil p.buffer p.offset))
    ∙ ap (λ o. some (tt, record p { buffer = overlay p.buffer p.offset []; offset = o }))
        {x = p.offset} {y = p.offset + 0} (omega arith)

pub Fills-pure : Fills (pure tt) 0
Fills-pure = inl ([], refl, pure-Writes)

pub Fills-if :
    (c : Bool) (m k : M (Unit {0})) (a b : ℕ)
    → (c ≡ true → Fills m a)
    → (c ≡ false → Fills k b)
    → Fills (if c then m else k) (if c then a else b)
Fills-if true m k a b hm hk = hm refl
Fills-if false m k a b hm hk = hk refl

pub write_int8-Fills : (n : ℕ) → Fills (write_int8 n) 1
unfolding write_int8
write_int8-Fills n = elim (Bool-cases (ltb n (2 ^ 8))) [
  | inl e ↦ inl (n ∷ [], refl, write_int8-Writes n (ltb→lt _ _ e))
  | inr e ↦ inr (λ p. rw e refl)
]

pub write_int16-Fills : (n : ℕ) → Fills (write_int16 n) 2
unfolding write_int16
write_int16-Fills n = elim (Bool-cases (ltb n (2 ^ 16))) [
  | inl e ↦ inl ((n % 2 ^ 8) ∷ (n / 2 ^ 8) ∷ [], refl, write_int16-Writes n (ltb→lt _ _ e))
  | inr e ↦ inr (λ p. rw e refl)
]

pub write_int32-Fills : (n : ℕ) → Fills (write_int32 n) 4
unfolding write_int32
write_int32-Fills n = elim (Bool-cases (ltb n (2 ^ 32))) [
  | inl e ↦ inl (four_bytes n, refl, write_int32-Writes n (ltb→lt _ _ e))
  | inr e ↦ inr (λ p. rw e refl)
]

pub length-le_bytes : (k v : ℕ) → length (le_bytes k v) ≡ k
length-le_bytes zero v = refl
length-le_bytes (suc k) v = ap suc (length-le_bytes k (v / 256))

pub put-Writes : (bs : Bytes) → Writes (put bs) bs
put-Writes bs p h = put_fits bs p h

pub write_uint_le-Fills : (n bytes : ℕ) → Fills (write_uint_le n bytes) bytes
unfolding write_uint_le
write_uint_le-Fills n bytes = elim (Bool-cases (ltb n (256 ^ bytes))) [
  | inl e ↦
      inl
        (le_bytes bytes n, length-le_bytes bytes n, λ p h. rw e (put-Writes (le_bytes bytes n) p h))
  | inr e ↦ inr (λ p. rw e refl)
]

pub write_time-Fills : (t : TimeParts) → Fills (write_time t) (time_length t)
unfolding write_time time_length
write_time-Fills t =
    Fills-if (is_zero t) _ _ _ _ (λ z. write_int8-Fills 0)
      λ z.
        subst (Fills _)
          {x = 1 + (1 + (4 + (1 + (1 + (1 + (if t.microseconds == 0 then 0 else 4))))))}
          {y = if t.microseconds == 0 then 9 else 13} (ground arith)
          (Fills->> _ _ _ _ (write_int8-Fills _) (
            Fills->> _ _ _ _ (write_int8-Fills _) (
              Fills->> _ _ _ _ (write_int32-Fills t.days) (
                Fills->> _ _ _ _ (write_int8-Fills t.hours) (
                  Fills->> _ _ _ _ (write_int8-Fills t.minutes) (
                    Fills->> _ _ _ _ (write_int8-Fills t.seconds) (
                      Fills-if (t.microseconds == 0) (pure tt) (write_int32 t.microseconds) 0 4
                        (λ u. Fills-pure) (λ u. write_int32-Fills t.microseconds))))))))

write_year-Fills : (y : ℤ) → Fills (write_year y) 2
unfolding write_year
write_year-Fills (pos y) = write_int16-Fills y
write_year-Fills (negsuc y) = inr (λ p. refl)

pub write_date_fields-Fills : (d : DateFields) → Fills (write_date_fields d) 12
unfolding write_date_fields
write_date_fields-Fills d = Fills->> _ _ 1 11 (write_int8-Fills 11) (
    Fills->> _ _ 2 9 (write_year-Fills d.year) (
      Fills->> _ _ 1 8 (write_int8-Fills d.month) (
        Fills->> _ _ 1 7 (write_int8-Fills d.day) (
          Fills->> _ _ 1 6 (write_int8-Fills d.hours) (
            Fills->> _ _ 1 5 (write_int8-Fills d.minutes) (
              Fills->> _ _ 1 4 (write_int8-Fills d.seconds)
                (write_int32-Fills (d.milliseconds * 1000))))))))

-- A number of 64 bits and more is refused.
write_length_coded_number-Throws :
    (v : ℕ) → 2 ^ 64 ≤ v → Throws (write_length_coded_number (some v))
unfolding write_length_coded_number write_int32
write_length_coded_number-Throws v h = rw (le→ltb_false v 0xfb (omega arith)) (
    rw (le→ltb_false v 0xffff (omega arith)) (
      rw (le→ltb_false v 0xffffff (omega arith)) (
        Throws->> (write_int8 0xfe) (write_int32 (v % 2 ^ 32) >> write_int32 (v / 2 ^ 32)) (
          Throws->> (write_int32 (v % 2 ^ 32)) (write_int32 (v / 2 ^ 32))
            (λ p. rw (le→ltb_false (v / 2 ^ 32) (2 ^ 32) (omega arith)) refl)))))

pub write_length_coded_number-Fills :
    (v : ℕ) → Fills (write_length_coded_number (some v)) (length_coded_number_length v)
write_length_coded_number-Fills v = elim (Bool-cases (ltb v (2 ^ 64))) [
  | inl e ↦ inl (encoded v, length-encoded v, write_length_coded_number-Writes v (ltb→lt _ _ e))
  | inr e ↦ inr (write_length_coded_number-Throws v (ltb_false→le _ _ e))
]

pub write_length_coded_buffer-Fills :
    (b : Bytes)
    → Fills (write_length_coded_buffer b) (length_coded_number_length (length b) + length b)
unfolding write_length_coded_buffer
write_length_coded_buffer-Fills b =
    Fills->> (write_length_coded_number (some (length b))) (write_buffer b) _ _
      (write_length_coded_number-Fills (length b)) (inl (b, refl, write_buffer-Writes b))
