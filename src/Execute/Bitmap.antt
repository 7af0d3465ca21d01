-- ===== src/Execute/Bitmap.antt =====
-- lib/packets/execute.js: the bits that say which parameters are null.
use Prim.Native.Nat.{bit_or}
use native.Mathlib.Nat.{mod-eq_of_lt}
use native.Mathlib.Omega.{pow_step}
use node_mysql.Prelude.{
  ℕ, zero, suc, ◌+◌, ◌*◌, ◌/◌, ◌%◌, ◌^◌, ◌<◌, ◌≤◌, ◌≡◌, refl, ap, ap₂, sym, subst, ◌∙◌, Bool, true,
  false, some, List, [], ◌∷◌, ◌==◌, ==_iff, Bool-cases, inl, inr, if◌then◌else◌, length, get_elem?,
  get_or, power, bit_or-power, arith,
}
use node_mysql.Packet.{Bytes, write_int8}
use node_mysql.Packet.Bytes.{Writes, Writes->>, write_int8-Writes}
use node_mysql.Packet.Fills.{pure-Writes}
use node_mysql.Execute.{write_bitmap}
use node_mysql.Execute.Length.{doubled}

-- Bit `i` of a bitmap, as the protocol counts them: the lowest bit of the first byte is bit 0.
abbrev pub null_bit : Bytes → ℕ → ℕ
null_bit bs i = get_or bs (i / 8) 0 / 2 ^ (i % 8) % 2

abbrev pub bit_of : Bool → ℕ
bit_of b = if b then 1 else 0

power-eq : (k : ℕ) → k < 8 → power k ≡ 2 ^ k
power-eq zero h = refl
power-eq (suc k) h = omega (arith, pow_step 2 k, power-eq k (omega arith))

-- What a byte holds up to a bit, from what it holds up to the next.
low_bits :
    (k f b n : ℕ)
    → k < 8
    → b < 2 ^ k
    → n < 2
    → f % 2 ^ suc k ≡ b + n * 2 ^ k
    → (f % 2 ^ k ≡ b) × (f / 2 ^ k % 2 ≡ n)
low_bits zero f b n h l m e = omega arith
low_bits (suc zero) f b n h l m e = omega arith
low_bits (suc (suc zero)) f b n h l m e = omega arith
low_bits (suc (suc (suc zero))) f b n h l m e = omega arith
low_bits (suc (suc (suc (suc zero)))) f b n h l m e = omega arith
low_bits (suc (suc (suc (suc (suc zero))))) f b n h l m e = omega arith
low_bits (suc (suc (suc (suc (suc (suc zero)))))) f b n h l m e = omega arith
low_bits (suc (suc (suc (suc (suc (suc (suc zero))))))) f b n h l m e = omega arith
low_bits (suc (suc (suc (suc (suc (suc (suc (suc k)))))))) f b n h l m e = absurd (omega arith)

-- The bits that the loop has collected when it comes to a parameter.
collect :
    (k b : ℕ) (n : Bool)
    → k < 8
    → b < 2 ^ k
    → (if n then bit_or b (2 ^ k) else b) ≡ b + bit_of n * 2 ^ k
collect k b true h l =
    ap (bit_or b) (sym (power-eq k h))
    ∙ bit_or-power k b (omega (arith, power-eq k h))
    ∙ omega (arith, power-eq k h)
collect k b false h l = omega arith

-- What the loop writes, with `k` bits of the byte `b` collected.
power_top : (k : ℕ) → k < 8 → 2 ^ k ≤ 128
power_top zero h = omega arith
power_top (suc zero) h = omega arith
power_top (suc (suc zero)) h = omega arith
power_top (suc (suc (suc zero))) h = omega arith
power_top (suc (suc (suc (suc zero)))) h = omega arith
power_top (suc (suc (suc (suc (suc zero))))) h = omega arith
power_top (suc (suc (suc (suc (suc (suc zero)))))) h = omega arith
power_top (suc (suc (suc (suc (suc (suc (suc zero))))))) h = omega arith
power_top (suc (suc (suc (suc (suc (suc (suc (suc k)))))))) h = absurd (omega arith)

bit_of-lt : (b : Bool) → bit_of b < 2
bit_of-lt true = omega arith
bit_of-lt false = omega arith

bit_of-mul : (b : Bool) (x : ℕ) → bit_of b * x ≤ x
bit_of-mul true x = omega arith
bit_of-mul false x = omega arith

some_eq : (a b : Bool) → some a ≡ some b → bit_of a ≡ bit_of b
some_eq a b e = ap bit_of (cc)

-- The bits behind a byte, and those of a byte that is not full.
null_bit-cons : (x : ℕ) (bs : Bytes) (i : ℕ) → null_bit (x ∷ bs) (7 + suc i) ≡ null_bit bs (0 + i)
null_bit-cons x bs i =
    ap₂ (λ a b. get_or (x ∷ bs) a 0 / 2 ^ b % 2) {x = (7 + suc i) / 8} {y = suc ((0 + i) / 8)}
      {u = (7 + suc i) % 8} {v = (0 + i) % 8} (omega arith) (omega arith)

null_bit-first : (bs : Bytes) (k : ℕ) → k < 8 → null_bit bs (k + 0) ≡ get_or bs 0 0 / 2 ^ k % 2
null_bit-first bs k h =
    ap₂ (λ a b. get_or bs a 0 / 2 ^ b % 2) {x = (k + 0) / 8} {y = 0} {u = (k + 0) % 8} {v = k}
      (omega arith) (omega arith)

record Collected (nulls : List Bool) (k b : ℕ) : Type 0 where
  bytes : Bytes
  writes : Writes (write_bitmap nulls b (2 ^ k)) bytes
  size : length bytes ≡ (k + length nulls + 7) / 8
  low : get_or bytes 0 0 % 2 ^ k ≡ b
  bits : (i : ℕ) (n : Bool) → get_elem? nulls i ≡ some n → null_bit bytes (k + i) ≡ bit_of n

Collected-nil : (k b : ℕ) → k < 8 → b < 2 ^ k → Collected [] k b
unfolding write_bitmap
Collected-nil zero b h l = record {
  bytes = [];
  writes = pure-Writes;
  size = refl;
  low = omega arith;
  bits = λ i n e. cc;
}
Collected-nil (suc k) b h l =
    let several : (2 ^ suc k == 1) ≡ false = ground (arith, pow_step 2 k) in
    let small : b < 256 = omega (arith, power-eq (suc k) h, power_top (suc k) h) in
    record {
      bytes = b ∷ [];
      writes = λ p fits. rw several (write_int8-Writes b small p fits);
      size = omega arith;
      low = mod-eq_of_lt l;
      bits = λ i n e. cc;
    }

full_bits :
    (n : Bool) (nulls : List Bool) (byte : ℕ) (bs : Bytes)
    → byte / 128 % 2 ≡ bit_of n
    → ((i : ℕ) (m : Bool) → get_elem? nulls i ≡ some m → null_bit bs (0 + i) ≡ bit_of m)
    → (i : ℕ) (m : Bool) → get_elem? (n ∷ nulls) i ≡ some m
    → null_bit (byte ∷ bs) (7 + i) ≡ bit_of m
full_bits n nulls byte bs b h zero m e = b ∙ some_eq n m e
full_bits n nulls byte bs b h (suc i) m e = null_bit-cons byte bs i ∙ h i m e

-- The byte is full and is written.
Collected-full :
    (n : Bool) (nulls : List Bool) (b : ℕ)
    → b < 128
    → Collected nulls 0 0
    → Collected (n ∷ nulls) 7 b
unfolding write_bitmap
Collected-full n nulls b l c =
    let byte = (if n then bit_or b 128 else b) in
    let value = collect 7 b n (omega arith) l in
    let bit = bit_of-lt n in
    record {
      bytes = byte ∷ c.bytes;
      writes =
          Writes->> (write_int8 byte) (write_bitmap nulls 0 1) (byte ∷ []) c.bytes
            (write_int8-Writes byte (omega (arith, value, bit))) c.writes;
      size = omega (arith, c.size);
      low = omega (arith, value, bit);
      bits = full_bits n nulls byte c.bytes (omega (arith, value, bit)) c.bits;
    }

more_bits :
    (n : Bool) (nulls : List Bool) (k : ℕ) (bs : Bytes)
    → k < 8
    → get_or bs 0 0 / 2 ^ k % 2 ≡ bit_of n
    → ((i : ℕ) (m : Bool) → get_elem? nulls i ≡ some m → null_bit bs (suc k + i) ≡ bit_of m)
    → (i : ℕ) (m : Bool) → get_elem? (n ∷ nulls) i ≡ some m
    → null_bit bs (k + i) ≡ bit_of m
more_bits n nulls k bs h b hs zero m e = null_bit-first bs k h ∙ b ∙ some_eq n m e
more_bits n nulls k bs h b hs (suc i) m e =
    ap (null_bit bs) {x = k + suc i} {y = suc k + i} (omega arith) ∙ hs i m e

Collected-more :
    (n : Bool) (nulls : List Bool) (k b : ℕ)
    → suc k < 8
    → b < 2 ^ k
    → Collected nulls (suc k) (if n then bit_or b (2 ^ k) else b)
    → Collected (n ∷ nulls) k b
unfolding write_bitmap
Collected-more n nulls k b h l c =
    let value = collect k b n (omega arith) l in
    let (low, bit) =
      low_bits k (get_or c.bytes 0 0) b (bit_of n) (omega arith) l (bit_of-lt n) (c.low ∙ value) in
    let room : (2 ^ k * 2 == 256) ≡ false = doubled k (omega arith) ∙ ground arith in
    let next : 2 ^ k * 2 ≡ 2 ^ suc k = omega (arith, pow_step 2 k) in
    record {
      bytes = c.bytes;
      writes = λ p fits. rw room (rw next (c.writes p fits));
      size = omega (arith, c.size);
      low = low;
      bits = more_bits n nulls k c.bytes (omega arith) bit c.bits;
    }

write_bitmap-Collected : (nulls : List Bool) (k b : ℕ) → k < 8 → b < 2 ^ k → Collected nulls k b
write_bitmap-Collected [] k b h l = Collected-nil k b h l
write_bitmap-Collected (n ∷ nulls) k b h l =
    let later = write_bitmap-Collected nulls in
    elim (Bool-cases (k == 7)) [
      | inl e ↦
          let seven = (==_iff k 7).0 e in
          subst (λ (j : ℕ). Collected (n ∷ nulls) j b) (sym seven)
            (Collected-full n nulls b (omega (arith, power_top k h))
              (later 0 0 (omega arith) (omega arith)))
      | inr e ↦
          let next : suc k < 8 = ground arith in
          Collected-more n nulls k b next l (
            later (suc k) (if n then bit_or b (2 ^ k) else b) next
              (omega (arith, collect k b n h l, bit_of-mul n (2 ^ k), pow_step 2 k)))
    ]

-- The bitmap of any number of parameters: the loop writes one bit for each, rounded up to whole bytes, and bit number i, counted from the lowest bit of the first byte, is 1 exactly where parameter i is null.
pub write_bitmap_lem :
    (nulls : List Bool)
    → (bs : Bytes) × Writes (write_bitmap nulls 0 1) bs
      × (length bs ≡ (length nulls + 7) / 8)
      × ((i : ℕ) (n : Bool) → get_elem? nulls i ≡ some n → null_bit bs i ≡ bit_of n)
write_bitmap_lem nulls =
    let c = write_bitmap-Collected nulls 0 0 (omega arith) (omega arith) in
    (
      c.bytes,
      c.writes,
      omega (arith, c.size),
      λ i n e. ap (null_bit c.bytes) {x = i} {y = 0 + i} (omega arith) ∙ c.bits i n e,
    )
