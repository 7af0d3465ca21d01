-- ===== src/Parameter/Integers.antt =====
-- lib/packets/typed_parameter.js: the integers that a type accepts, and what a server reads of them.
use native.Mathlib.Omega.{pow_step}
use native.Mathlib.Nat.{mod-eq_of_lt}
use node_mysql.Prelude.{
  ℕ, zero, suc, ◌+◌, ◌-◌, ◌*◌, ◌/◌, ◌^◌, ◌≤◌, ◌<◌, ◌≡◌, refl, ap, sym, subst, ◌∙◌, ◌⊎◌, ◌↔◌, inl,
  inr, Bool, Bool-cases, true, false, some, [], ◌∷◌, ℤ, pos, negsuc, pos_part, neg_part, as_uint,
  as_int, lt→ltb, length, arith,
}
use node_mysql.Packet.{Bytes, M}
use node_mysql.Packet.Bytes.{Writes}
use node_mysql.Packet.Values.{le_bytes, write_uint_le}
use node_mysql.Packet.Fills.{length-le_bytes, put-Writes}
use node_mysql.Parameter.{ok, range_error, big_int, Runtime, integer_bytes, out_of_range}
use node_mysql.Parameter.Encode.{integer_encoder, time_of_integer}

-- The number that bytes are, the lowest first.
abbrev pub le_value : Bytes → ℕ
le_value [] = 0
le_value (b ∷ bs) = b + 256 * le_value bs

-- What the server reads: the number, or for a signed type its two's complement.
abbrev pub decoded : Bool → Bytes → ℤ
decoded true bs = pos (le_value bs)
decoded false bs = as_int (256 ^ length bs) (le_value bs)

-- The integers of that many bytes.
abbrev pub InRange : ℕ → Bool → ℤ → Type 0
InRange bytes true n = (neg_part n ≡ 0) × (pos_part n < 2 ^ (bytes * 8))
InRange bytes false n = (pos_part n < 2 ^ (bytes * 8 - 1)) × (neg_part n ≤ 2 ^ (bytes * 8 - 1))

le_value-le_bytes : (k v : ℕ) → v < 256 ^ k → le_value (le_bytes k v) ≡ v
le_value-le_bytes zero v h = omega arith
le_value-le_bytes (suc k) v h =
    omega (arith, pow_step 256 k, le_value-le_bytes k (v / 256) (omega (arith, pow_step 256 k)))

abbrev IsWidth : ℕ → Type 0
IsWidth b = (b ≡ 1) ⊎ (b ≡ 2) ⊎ (b ≡ 4) ⊎ (b ≡ 8)

integer_bytes-IsWidth : (type bytes : ℕ) → integer_bytes type ≡ some bytes → IsWidth bytes
unfolding integer_bytes
integer_bytes-IsWidth type bytes h = ground arith

abbrev Halves : ℕ → Type 0
Halves b = (2 ^ (b * 8) ≡ 2 * 2 ^ (b * 8 - 1)) × (0 < 2 ^ (b * 8 - 1)) × (256 ^ b ≡ 2 ^ (b * 8))

IsWidth-Halves : (b : ℕ) → IsWidth b → Halves b
IsWidth-Halves b (inl e) = subst Halves (sym e) (refl, omega arith, refl)
IsWidth-Halves b (inr (inl e)) = subst Halves (sym e) (refl, omega arith, refl)
IsWidth-Halves b (inr (inr (inl e))) = subst Halves (sym e) (refl, omega arith, refl)
IsWidth-Halves b (inr (inr (inr e))) = subst Halves (sym e) (refl, omega arith, refl)

out_of_range-InRange :
    (b : ℕ) (unsigned : Bool) (n : ℤ)
    → Halves b
    → out_of_range b unsigned n ≡ false
    → InRange b unsigned n
unfolding out_of_range
out_of_range-InRange b true n w h = ground arith
out_of_range-InRange b false n w h = ground arith

out_of_range-not_InRange :
    (b : ℕ) (unsigned : Bool) (n : ℤ)
    → Halves b
    → out_of_range b unsigned n ≡ true
    → ¬ InRange b unsigned n
unfolding out_of_range
out_of_range-not_InRange b true n w h r = ground arith
out_of_range-not_InRange b false n w h r = ground arith

-- The number whose bytes are written.
abbrev wire : ℕ → ℤ → ℕ
wire m (pos n) = n
wire m (negsuc n) = m - 1 - n

as_uint-wire :
    (b : ℕ) (unsigned : Bool) (n : ℤ)
    → Halves b
    → InRange b unsigned n
    → as_uint (2 ^ (b * 8)) n ≡ wire (2 ^ (b * 8)) n
unfolding as_uint
as_uint-wire b true (pos n) w r = mod-eq_of_lt (omega arith)
as_uint-wire b true (negsuc n) w r = absurd (omega arith)
as_uint-wire b false (pos n) w r = mod-eq_of_lt (omega arith)
as_uint-wire b false (negsuc n) w r = ap (λ k. 2 ^ (b * 8) - 1 - k) (mod-eq_of_lt (omega arith))

wire-lt :
    (b : ℕ) (unsigned : Bool) (n : ℤ)
    → Halves b
    → InRange b unsigned n
    → wire (2 ^ (b * 8)) n < 256 ^ b
wire-lt b true (pos n) w r = omega arith
wire-lt b true (negsuc n) w r = omega arith
wire-lt b false (pos n) w r = omega arith
wire-lt b false (negsuc n) w r = omega arith

as_int-wire :
    (b : ℕ) (n : ℤ) → Halves b → InRange b false n → as_int (256 ^ b) (wire (2 ^ (b * 8)) n) ≡ n
unfolding as_int
as_int-wire b n w r = ground arith

decoded-wire :
    (b : ℕ) (unsigned : Bool) (n : ℤ)
    → Halves b
    → InRange b unsigned n
    → decoded unsigned (le_bytes b (wire (2 ^ (b * 8)) n)) ≡ n
decoded-wire b true (pos n) w r = ap pos (le_value-le_bytes b n (wire-lt b true (pos n) w r))
decoded-wire b true (negsuc n) w r = absurd (omega arith)
decoded-wire b false n w r =
    ap (λ l. as_int (256 ^ l) (le_value (le_bytes b (wire (2 ^ (b * 8)) n))))
      (length-le_bytes b (wire (2 ^ (b * 8)) n))
    ∙ ap (as_int (256 ^ b)) (le_value-le_bytes b _ (wire-lt b false n w r))
    ∙ as_int-wire b n w r

module _ {Num Text Date Object : Type 0} (js : Runtime Num Text Date Object) where
  -- A BigInt that is sent as an integer of one of the types TINY to LONGLONG, signed or not: if it lies in the range of the type, exactly the bytes of the type are written, and read by the server, in two's complement where the type is signed, they are the integer. If it does not, a RangeError is thrown.
  pub integer_encoder_lem :
      (type bytes : ℕ) (unsigned : Bool) (n : ℤ)
      → integer_bytes type ≡ some bytes
      → (InRange bytes unsigned n
          × ((bs : Bytes) × (w : M (Unit {0})) × (integer_encoder js bytes (big_int n) unsigned
                ≡ ok (bytes, w))
              × Writes w bs
              × (length bs ≡ bytes)
              × (decoded unsigned bs ≡ n)))
        ⊎ ((¬ InRange bytes unsigned n)
            × (integer_encoder js bytes (big_int n) unsigned ≡ range_error))
  unfolding integer_encoder write_uint_le
  integer_encoder_lem type bytes unsigned n h =
      let w = IsWidth-Halves bytes (integer_bytes-IsWidth type bytes h) in
      elim (Bool-cases (out_of_range bytes unsigned n)) [
        | inl e ↦ inr (out_of_range-not_InRange bytes unsigned n w e, rw e refl)
        | inr e ↦
            let r = out_of_range-InRange bytes unsigned n w e in
            let u = wire (2 ^ (bytes * 8)) n in
            inl (
              r,
              (
                le_bytes bytes u,
                write_uint_le u bytes,
                rw e (
                    ap (λ k. ok (bytes, write_uint_le k bytes))
                      (as_uint-wire bytes unsigned n w r)),
                λ p fits.
                    rw (lt→ltb u (256 ^ bytes) (wire-lt bytes unsigned n w r))
                      (put-Writes (le_bytes bytes u) p fits),
                length-le_bytes bytes u,
                decoded-wire bytes unsigned n w r,
              ),
            )
      ]

-- A whole number of milliseconds that is sent as a TIME: the hours, minutes, seconds and microseconds are in their ranges, together with the days they make the number up, and the sign is that of the number.
pub time_of_integer_lem :
    (n : ℤ)
    → let t = time_of_integer n in
      (t.hours < 24)
      × (t.minutes < 60)
      × (t.seconds < 60)
      × (t.microseconds < 1000000)
      × ((((t.days * 24 + t.hours) * 60 + t.minutes) * 60 + t.seconds) * 1000000 + t.microseconds
          ≡ 1000 * (pos_part n + neg_part n))
      × ((t.negative ≡ true) ↔ (0 < neg_part n))
unfolding time_of_integer
time_of_integer_lem n =
    (omega arith, omega arith, omega arith, omega arith, omega arith, ground arith)
