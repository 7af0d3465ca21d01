-- ===== src/Packet/RoundTrip.antt =====
-- What lib/packets/packet.js writes as a length coded number or buffer it reads back.
use node_mysql.Prelude.{
  ℕ, ◌+◌, ◌*◌, ◌/◌, ◌%◌, ◌^◌, ◌<◌, ◌≡◌, refl, ap, Bool, Bool-cases, false, inl, inr, some, [], ◌∷◌,
  ◌++◌, ltb, lt→ltb, arith, if◌then◌else◌, ◌==◌, ◌||◌, not, length, subst,
}
use node_mysql.Packet.{
  Bytes, M, ◌>>=◌, ◌>>◌, pure, read_int8, read_int32, write_int8, write_int16, write_int24,
  write_int32,
}
use node_mysql.Packet.Bytes.{
  Writes, Writes->>, Writes-if, write_int8-Writes, write_int16-Writes, write_int24-Writes,
  write_int32-Writes, four_bytes, Reads, Reads-pure, Reads->>=, read_int8-Reads,
  read_int32-four_bytes,
}
use node_mysql.Packet.LengthCoded.{
  Long, LengthCoded, number, to_number, to_string, read_length_coded_number,
  read_length_coded_number_ext, write_length_coded_number, length_coded_number_length,
}

abbrev two_bytes : ℕ → Bytes
two_bytes n = (n % 2 ^ 8) ∷ (n / 2 ^ 8) ∷ []

abbrev three_bytes : ℕ → Bytes
three_bytes n = (n % 2 ^ 8) ∷ (n / 2 ^ 8 % 2 ^ 8) ∷ (n / 2 ^ 8 / 2 ^ 8) ∷ []

-- The bytes of a length coded number, as the protocol describes them.
abbrev pub encoded : ℕ → Bytes
encoded v =
    if ltb v 0xfb
    then v ∷ []
    else if ltb v 0xffff
    then 0xfc ∷ two_bytes v
    else if ltb v 0xffffff
    then 0xfd ∷ three_bytes v
    else 0xfe ∷ (four_bytes (v % 2 ^ 32) ++ four_bytes (v / 2 ^ 32))

pub length-encoded : (v : ℕ) → length (encoded v) ≡ length_coded_number_length v
unfolding length_coded_number_length
length-encoded v = ground arith

pub write_length_coded_number-Writes :
    (v : ℕ) → v < 2 ^ 64 → Writes (write_length_coded_number (some v)) (encoded v)
unfolding write_length_coded_number
write_length_coded_number-Writes v h =
    Writes-if (ltb v 0xfb) _ _ _ _ (λ a. write_int8-Writes v (ground arith))
      λ a.
        Writes-if (ltb v 0xffff) _ _ _ _
          (λ b.
            Writes->> (write_int8 0xfc) (write_int16 v) (0xfc ∷ []) (two_bytes v)
              (write_int8-Writes 0xfc (omega arith)) (write_int16-Writes v (ground arith)))
          λ b.
            Writes-if (ltb v 0xffffff) _ _ _ _
              (λ c.
                Writes->> (write_int8 0xfd) (write_int24 v) (0xfd ∷ []) (three_bytes v)
                  (write_int8-Writes 0xfd (omega arith)) (write_int24-Writes v (ground arith)))
              λ c.
                Writes->> (write_int8 0xfe) (write_int32 (v % 2 ^ 32) >> write_int32 (v / 2 ^ 32))
                  (0xfe ∷ []) (four_bytes (v % 2 ^ 32) ++ four_bytes (v / 2 ^ 32))
                  (write_int8-Writes 0xfe (omega arith))
                  (Writes->> (write_int32 (v % 2 ^ 32)) (write_int32 (v / 2 ^ 32))
                    (four_bytes (v % 2 ^ 32)) (four_bytes (v / 2 ^ 32))
                    (write_int32-Writes (v % 2 ^ 32) (omega arith))
                    (write_int32-Writes (v / 2 ^ 32) (omega arith)))

pub Reads-value :
    {A : Type 0} (m : M A) (bs : Bytes) {a b : A} → a ≡ b → Reads m bs a → Reads m bs b
Reads-value m bs e r = subst (Reads m bs) e r

module _ (is_safe : Long → Bool) (big_number_strings signed : Bool) where
  -- The bytes behind the tags 0xfc, 0xfd and 0xfe.
  two-Reads :
      (v : ℕ)
      → Reads
          (read_length_coded_number_ext is_safe 0xfc big_number_strings signed)
          (two_bytes v)
          (number v)
  unfolding read_length_coded_number_ext
  two-Reads v =
      let value = λ (b0 b1 : ℕ). b0 + b1 * 2 ^ 8 in
      let lo = v % 2 ^ 8 in
      let hi = v / 2 ^ 8 in
      Reads-value _ (two_bytes v) (ap number (omega arith)) (
        Reads->>= read_int8 (λ b0. read_int8 >>= λ b1. pure (number (value b0 b1))) (lo ∷ [])
          (hi ∷ []) lo (number (value lo hi)) (read_int8-Reads lo)
          (Reads->>= read_int8 (λ b1. pure (number (value lo b1))) (hi ∷ []) [] hi
            (number (value lo hi)) (read_int8-Reads hi) (Reads-pure (number (value lo hi)))))

  three-Reads :
      (v : ℕ)
      → Reads
          (read_length_coded_number_ext is_safe 0xfd big_number_strings signed)
          (three_bytes v)
          (number v)
  unfolding read_length_coded_number_ext
  three-Reads v =
      let value = λ (b0 b1 b2 : ℕ). b0 + b1 * 2 ^ 8 + b2 * 2 ^ 16 in
      let lo = v % 2 ^ 8 in
      let mid = v / 2 ^ 8 % 2 ^ 8 in
      let hi = v / 2 ^ 8 / 2 ^ 8 in
      let all = number (value lo mid hi) in
      Reads-value _ (three_bytes v) (ap number (omega arith)) (
        Reads->>= read_int8
          (λ b0. read_int8 >>= λ b1. read_int8 >>= λ b2. pure (number (value b0 b1 b2))) (lo ∷ [])
          (mid ∷ hi ∷ []) lo all (read_int8-Reads lo)
          (Reads->>= read_int8 (λ b1. read_int8 >>= λ b2. pure (number (value lo b1 b2))) (mid ∷ [])
            (hi ∷ []) mid all (read_int8-Reads mid)
            (Reads->>= read_int8 (λ b2. pure (number (value lo mid b2))) (hi ∷ []) [] hi all
              (read_int8-Reads hi) (Reads-pure all))))

  -- The two words of a number below 2 ^ 53 need no `Long`.
  words : ℕ → ℕ → M LengthCoded
  words word0 word1 =
      let res : Long = record { low = word0; high = word1; unsigned = not signed } in
      if word1 == 0
      then pure (number word0)
      else if ltb word1 2097152
      then pure (number (word1 * 2 ^ 32 + word0))
      else if big_number_strings || not (is_safe res)
      then pure (to_string res)
      else pure (to_number res)

  words-Reads : (v : ℕ) → v < 2 ^ 53 → Reads (words (v % 2 ^ 32) (v / 2 ^ 32)) [] (number v)
  unfolding words
  words-Reads v h p rest e = elim (Bool-cases (v / 2 ^ 32 == 0)) [
    | inl a ↦
        rw a
          (Reads-value _ [] (ap number (ground arith)) (Reads-pure (number (v % 2 ^ 32))) p rest e)
    | inr a ↦
        rw (a, lt→ltb (v / 2 ^ 32) 2097152 (omega arith))
          (Reads-value _ [] (ap number (omega arith))
            (Reads-pure (number (v / 2 ^ 32 * 2 ^ 32 + v % 2 ^ 32))) p rest e)
  ]

  eight-Reads :
      (v : ℕ)
      → v < 2 ^ 53
      → Reads
          (read_length_coded_number_ext is_safe 0xfe big_number_strings signed)
          (four_bytes (v % 2 ^ 32) ++ four_bytes (v / 2 ^ 32))
          (number v)
  unfolding read_length_coded_number_ext words
  eight-Reads v h =
      let lo = v % 2 ^ 32 in
      let hi = v / 2 ^ 32 in
      Reads->>= read_int32 (λ word0. read_int32 >>= words word0) (four_bytes lo) (four_bytes hi) lo
        (number v) (read_int32-four_bytes lo)
        (Reads->>= read_int32 (words lo) (four_bytes hi) [] hi (number v) (read_int32-four_bytes hi)
          (words-Reads v h))

  tag-Reads :
      (tag : ℕ) (bs : Bytes) (x : LengthCoded)
      → ltb tag 251 ≡ false
      → Reads (read_length_coded_number_ext is_safe tag big_number_strings signed) bs x
      → Reads (read_length_coded_number is_safe big_number_strings signed) (tag ∷ bs) x
  unfolding read_length_coded_number
  tag-Reads tag bs x h r =
      Reads->>= read_int8
        (λ byte1.
          if ltb byte1 251
          then pure (number byte1)
          else read_length_coded_number_ext is_safe byte1 big_number_strings signed)
        (tag ∷ []) bs tag x (read_int8-Reads tag) (rw h r)

  pub read_length_coded_number-Reads :
      (v : ℕ)
      → v < 2 ^ 53
      → Reads (read_length_coded_number is_safe big_number_strings signed) (encoded v) (number v)
  unfolding read_length_coded_number
  read_length_coded_number-Reads v h = elim (Bool-cases (ltb v 0xfb)) [
    | inl a ↦ rw a (
        Reads->>= read_int8
          (λ byte1.
            if ltb byte1 251
            then pure (number byte1)
            else read_length_coded_number_ext is_safe byte1 big_number_strings signed)
          (v ∷ []) [] v (number v) (read_int8-Reads v) (rw a (Reads-pure (number v))))
    | inr a ↦ elim (Bool-cases (ltb v 0xffff)) [
      | inl b ↦ rw (a, b) (tag-Reads 0xfc (two_bytes v) (number v) refl (two-Reads v))
      | inr b ↦ elim (Bool-cases (ltb v 0xffffff)) [
        | inl c ↦ rw (a, b, c) (tag-Reads 0xfd (three_bytes v) (number v) refl (three-Reads v))
        | inr c ↦
            rw (a, b, c)
              (tag-Reads 0xfe (four_bytes (v % 2 ^ 32) ++ four_bytes (v / 2 ^ 32)) (number v) refl
                (eight-Reads v h))
      ]
    ]
  ]
