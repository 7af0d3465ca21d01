-- ===== src/Prelude/Words.antt =====
-- The integers, and the bit operations of JavaScript that the program uses on masks of ones, and what they come to.
use Prim.Native.Nat.{
  ℕ, zero, suc, ◌+◌, ◌-◌, ◌*◌, ◌/◌, ◌%◌, ◌^◌, ◌≤◌, ◌<◌, min, max, bit_and, bit_or, digits, bitwise,
  bit_and-bitwise, bit_or-bitwise,
}
use mathlib.Core.Path.{◌≡◌, refl, ap, ap₂, sym, ◌∙◌}
use native.Mathlib.Omega.{arith}
use mathlib.Core.Logic.{inl, inr}
use node_mysql.Prelude.Tests.{ltb, ltb→lt, ltb_false→le, ◌==◌, ==_iff, Bool-cases, if◌then◌else◌}

-- The integers; `negsuc n` is minus `suc n`.
pub data ℤ : Type 0 where
  pos negsuc : ℕ → ℤ

-- `(a + b) & mask` and `(a - b) & mask`: the operand becomes a 32-bit integer first, a negative one
-- in two's complement.
abbrev pub and_add : ℕ → ℕ → ℕ → ℕ
and_add a b mask = bit_and ((a + b) % 2 ^ 32) mask

abbrev pub and_sub : ℕ → ℕ → ℕ → ℕ
and_sub a b mask = bit_and ((2 ^ 32 + a - b) % 2 ^ 32) mask

-- `n << 1` and `(n << 1) | 1`, as bits of 32 without a sign: JavaScript's value below 2 ^ 30.
abbrev pub shift_left_1 : ℕ → ℕ
shift_left_1 n = n * 2 % 2 ^ 32

abbrev pub shift_left_1_or_1 : ℕ → ℕ
shift_left_1_or_1 n = bit_or (shift_left_1 n) 1

-- The powers of two, by sums.
abbrev pub power : ℕ → ℕ
power zero = 1
power (suc k) = power k + power k

-- A place counted on from the end to the start again.
abbrev pub wrap : ℕ → ℕ → ℕ
wrap n i = if ltb i n then i else i - n

module _ (z : ℕ → ℕ) (f : ℕ → ℕ → ℕ) (hz : (b : ℕ) → z b ≡ z (b / 2) * 2 + f 0 (b % 2)) where
  digits_fuel : (n m a b : ℕ) → a ≤ n → a ≤ m → digits z f n a b ≡ digits z f m a b
  digits_fuel zero zero a b h k = refl
  digits_fuel zero (suc m) zero b h k = refl
  digits_fuel (suc n) zero zero b h k = refl
  digits_fuel (suc n) (suc m) zero b h k = refl
  digits_fuel zero (suc m) (suc a) b h k = absurd (omega arith)
  digits_fuel (suc n) zero (suc a) b h k = absurd (omega arith)
  digits_fuel (suc n) (suc m) (suc a) b h k =
      ap (λ x. x * 2 + f (suc a % 2) (b % 2))
        (digits_fuel n m (suc a / 2) (b / 2) (omega arith) (omega arith))

  halve : (a b : ℕ) → bitwise z f a b ≡ bitwise z f (a / 2) (b / 2) * 2 + f (a % 2) (b % 2)
  halve zero b = hz b
  halve (suc a) b =
      ap (λ x. x * 2 + f (suc a % 2) (b % 2))
        (digits_fuel a (suc a / 2) (suc a / 2) (b / 2) (omega arith) (omega arith))

halve_and : (a b : ℕ) → bit_and a b ≡ bit_and (a / 2) (b / 2) * 2 + min (a % 2) (b % 2)
halve_and a b =
    bit_and-bitwise a b
    ∙ halve (λ b. zero) min (λ b. omega arith) a b
    ∙ ap (λ x. x * 2 + min (a % 2) (b % 2)) (sym (bit_and-bitwise (a / 2) (b / 2)))

halve_or : (a b : ℕ) → bit_or a b ≡ bit_or (a / 2) (b / 2) * 2 + max (a % 2) (b % 2)
halve_or a b =
    bit_or-bitwise a b
    ∙ halve (λ b. b) max (λ b. omega arith) a b
    ∙ ap (λ x. x * 2 + max (a % 2) (b % 2)) (sym (bit_or-bitwise (a / 2) (b / 2)))

pub power-pos : (k : ℕ) → 0 < power k
power-pos zero = omega arith
power-pos (suc k) = omega (arith, power-pos k)

power-suc_add : (k j : ℕ) → power (suc k + j) ≡ power (k + j) + power (k + j)
power-suc_add k j = ap power {x = suc k + j} {y = suc (k + j)} (omega arith)

power_mono : (k j : ℕ) → power k ≤ power (k + j)
power_mono zero j = omega (arith, power-pos (zero + j))
power_mono (suc k) j = omega (arith, power_mono k j, power-suc_add k j)

and_none : (n a : ℕ) → a ≤ n → bit_and a 0 ≡ 0
and_none n zero h = refl
and_none zero (suc a) h = absurd (omega arith)
and_none (suc n) (suc a) h =
    omega (arith, halve_and (suc a) 0, and_none n (suc a / 2) (omega arith))

-- A mask of ones wraps once.
bit_and-wrap : (k a : ℕ) → a < power k + power k → bit_and a (power k - 1) ≡ wrap (power k) a
bit_and-wrap zero a h = ground (arith, and_none a a (omega arith))
bit_and-wrap (suc k) a h =
    let half : (power k + power k - 1) / 2 ≡ power k - 1 = omega (arith, power-pos k) in
    let odd : (power k + power k - 1) % 2 ≡ 1 = omega (arith, power-pos k) in
    let rest = bit_and-wrap k (a / 2) (omega arith) in
    halve_and a (power k + power k - 1)
    ∙ ap (λ m. bit_and (a / 2) m * 2 + min (a % 2) ((power k + power k - 1) % 2)) half
    ∙ ground (arith, odd, rest)

-- The mask of a negative number.
bit_and-negative :
    (k j d : ℕ) → 0 < d → d ≤ power k → bit_and (power (k + j) - d) (power k - 1) ≡ power k - d
bit_and-negative zero j d h l =
    and_none (power (zero + j) - d) (power (zero + j) - d) (omega arith) ∙ omega arith
bit_and-negative (suc k) j d h l =
    let big = power (k + j) in
    let half : (power k + power k - 1) / 2 ≡ power k - 1 = omega (arith, power-pos k) in
    let odd : (power k + power k - 1) % 2 ≡ 1 = omega (arith, power-pos k) in
    let fits : power k ≤ big = power_mono k j in
    let down : (big + big - d) / 2 ≡ big - (d + 1) / 2 = omega arith in
    let rest = bit_and-negative k j ((d + 1) / 2) (omega arith) (omega arith) in
    ap (λ x. bit_and (x - d) (power k + power k - 1)) (power-suc_add k j)
    ∙ halve_and (big + big - d) (power k + power k - 1)
    ∙ ap₂ (λ x m. bit_and x m * 2 + min ((big + big - d) % 2) ((power k + power k - 1) % 2)) down
        half
    ∙ omega (arith, odd, rest)

or_none : (n a : ℕ) → a ≤ n → bit_or a 0 ≡ a
or_none n zero h = refl
or_none zero (suc a) h = absurd (omega arith)
or_none (suc n) (suc a) h = omega (arith, halve_or (suc a) 0, or_none n (suc a / 2) (omega arith))

pub shift_left_1_or_1_lem : (n : ℕ) → n < 2 ^ 31 → shift_left_1_or_1 n ≡ n * 2 + 1
shift_left_1_or_1_lem n h =
    let even : n * 2 % 2 ^ 32 ≡ n * 2 = omega arith in
    let back : n * 2 / 2 ≡ n = omega arith in
    ap (λ m. bit_or m 1) even
    ∙ halve_or (n * 2) 1
    ∙ ap (λ m. bit_or m 0 * 2 + max (n * 2 % 2) 1) back
    ∙ omega (arith, or_none n n (omega arith))

-- A bit above the others is added.
pub bit_or-power : (k a : ℕ) → a < power k → bit_or a (power k) ≡ a + power k
bit_or-power zero zero h = refl
bit_or-power zero (suc a) h = absurd (omega arith)
bit_or-power (suc k) a h =
    let half : (power k + power k) / 2 ≡ power k = omega arith in
    halve_or a (power k + power k)
    ∙ ap (λ m. bit_or (a / 2) m * 2 + max (a % 2) ((power k + power k) % 2)) half
    ∙ omega (arith, bit_or-power k (a / 2) (omega arith))

module _ (k : ℕ) (h : k ≤ 30) where
  pub power-small : power k ≤ 2 ^ 30
  power-small =
      let e : k + (30 - k) ≡ 30 = omega arith in omega (arith, power_mono k (30 - k), ap power e)

  pub and_add-wrap :
      (a b : ℕ) → a + b < power k + power k → and_add a b (power k - 1) ≡ wrap (power k) (a + b)
  and_add-wrap a b l =
      let fits : (a + b) % 2 ^ 32 ≡ a + b = omega (arith, power-small) in
      ap (λ x. bit_and x (power k - 1)) fits ∙ bit_and-wrap k (a + b) l

  -- A difference wraps backwards.
  pub and_sub-wrap :
      (a b : ℕ)
      → a < power k + power k
      → b ≤ power k
      → and_sub a b (power k - 1) ≡ (if ltb a b then a + power k - b else wrap (power k) (a - b))
  and_sub-wrap a b l m = elim (Bool-cases (ltb a b)) [
    | inl less ↦
        let below = ltb→lt a b less in
        let e : k + (32 - k) ≡ 32 = omega arith in
        let top : (2 ^ 32 + a - b) % 2 ^ 32 ≡ power (k + (32 - k)) - (b - a) =
          omega (arith, power-small, ap power e) in
        rw less (
          ap (λ x. bit_and x (power k - 1)) top
          ∙ bit_and-negative k (32 - k) (b - a) (omega arith) (omega arith)
          ∙ omega arith)
    | inr more ↦
        let above = ltb_false→le a b more in
        let top : (2 ^ 32 + a - b) % 2 ^ 32 ≡ a - b = omega (arith, power-small) in
        rw more (ap (λ x. bit_and x (power k - 1)) top ∙ bit_and-wrap k (a - b) (omega arith))
  ]

pub exponent-small : (k : ℕ) → k ≤ 30 → power k < 2 ^ 30 → k < 30
exponent-small k h l = elim (Bool-cases (k == 30)) [
  | inl e ↦ let same = (==_iff k 30).0 e in absurd (omega (arith, ap power same))
  | inr e ↦ ground arith
]
