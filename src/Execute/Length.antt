-- ===== src/Execute/Length.antt =====
-- lib/packets/execute.js: the length that is computed beforehand is the length that is written.
use Prim.Native.Nat.{bit_or}
use native.Mathlib.Omega.{pow_step}
use node_mysql.Prelude.{
  ==_iff, ℕ, zero, suc, ◌+◌, ◌-◌, ◌*◌, ◌/◌, ◌^◌, ◌<◌, ◌≡◌, refl, ap, sym, subst, ◌∙◌, Bool, true,
  false, Option, none, some, List, [], ◌∷◌, ◌==◌, if◌then◌else◌, if-elim, length, All, arith,
}
use node_mysql.Packet.{Bytes, pure, ◌>>◌, write_int8}
use node_mysql.Packet.LengthCoded.{length_coded_number_length}
use node_mysql.Packet.Fills.{
  Fills, Fills->>, Fills-pure, Fills-if, write_int8-Fills, write_int32-Fills,
  write_length_coded_number-Fills, write_length_coded_buffer-Fills,
}
use node_mysql.Parameter.{Result, ok, type_error, range_error, Value, Runtime, Parameter}
use node_mysql.Parameter.Encode.{to_parameter}
use node_mysql.Parameter.Encoded.{IsSized, IsBuffer, to_parameter-IsSized}
use node_mysql.Execute.{
  Execute, Named, write_bitmap, write_name, write_types, write_values, name_length, names_length,
  values_length, null_bits, packet_size, write_parameters, write_execute, stmt_execute,
  parameter_count_available, definition_at, definitions_behind, cons_result, attribute_parameters,
  all_parameters,
}

-- Eight bits make a byte.
pub doubled : (k : ℕ) → k < 8 → (2 ^ k * 2 == 256) ≡ (k == 7)
doubled zero h = refl
doubled (suc zero) h = refl
doubled (suc (suc zero)) h = refl
doubled (suc (suc (suc zero))) h = refl
doubled (suc (suc (suc (suc zero)))) h = refl
doubled (suc (suc (suc (suc (suc zero))))) h = refl
doubled (suc (suc (suc (suc (suc (suc zero)))))) h = refl
doubled (suc (suc (suc (suc (suc (suc (suc zero))))))) h = refl
doubled (suc (suc (suc (suc (suc (suc (suc (suc k)))))))) h = absurd (omega arith)

write_bitmap-Fills :
    (nulls : List Bool) (k b : ℕ)
    → k < 8
    → Fills (write_bitmap nulls b (2 ^ k)) ((k + length nulls + 7) / 8)
unfolding write_bitmap
write_bitmap-Fills [] zero b h = Fills-pure
write_bitmap-Fills [] (suc k) b h =
    let several : (2 ^ suc k == 1) ≡ false = ground (arith, pow_step 2 k) in
    rw several (
      subst (Fills (write_int8 b)) {x = 1} {y = (suc k + 0 + 7) / 8} (omega arith)
        (write_int8-Fills b))
write_bitmap-Fills (n ∷ nulls) k b h =
    let bits = (if n then bit_or b (2 ^ k) else b) in
    if-elim (λ m. Fills m ((k + suc (length nulls) + 7) / 8)) (2 ^ k * 2 == 256) _ _
      (λ full.
        let last = (==_iff k 7).0 (sym (doubled k h) ∙ full) in
        subst (Fills (write_int8 bits >> write_bitmap nulls 0 1))
          {x = 1 + (0 + length nulls + 7) / 8} {y = (k + suc (length nulls) + 7) / 8} (omega arith)
          (Fills->> (write_int8 bits) (write_bitmap nulls 0 1) 1 ((0 + length nulls + 7) / 8)
            (write_int8-Fills bits) (write_bitmap-Fills nulls zero 0 (omega arith))))
      (λ more.
        let next : suc k < 8 = ground (arith, doubled k h) in
        subst (λ v. Fills (write_bitmap nulls bits v) ((k + suc (length nulls) + 7) / 8))
          {x = 2 ^ suc k} {y = 2 ^ k * 2} (omega (arith, pow_step 2 k))
          (subst (Fills (write_bitmap nulls bits (2 ^ suc k))) {x = (suc k + length nulls + 7) / 8}
            {y = (k + suc (length nulls) + 7) / 8} (omega arith)
            (write_bitmap-Fills nulls (suc k) bits next)))

write_name-Fills :
    (with_names : Bool) (name : Option Bytes)
    → Fills (write_name with_names name) (name_length with_names name)
unfolding write_name name_length
write_name-Fills false name = Fills-pure
write_name-Fills true none = write_int8-Fills 0
write_name-Fills true (some name) = write_length_coded_buffer-Fills name

write_types-Fills :
    (with_names : Bool) (ps : List Named)
    → Fills (write_types with_names ps) (length ps * 2 + names_length with_names ps)
unfolding write_types names_length
write_types-Fills with_names [] = Fills-pure
write_types-Fills with_names ((p, name) ∷ ps) =
    subst (Fills _)
      {x = 1 + (1 + (name_length with_names name + (length ps * 2 + names_length with_names ps)))}
      {y = suc (length ps) * 2 + (name_length with_names name + names_length with_names ps)}
      (omega arith)
      (Fills->> _ _ _ _ (write_int8-Fills p.type) (
        Fills->> _ _ _ _ (write_int8-Fills (if p.unsigned then 0x80 else 0))
          (Fills->> _ _ _ _ (write_name-Fills with_names name) (write_types-Fills with_names ps))))

abbrev pub AreSized : List Named → Type 0
AreSized = All (λ n. Fills n.0.writer n.0.length)

write_values-Fills : (ps : List Named) → AreSized ps → Fills (write_values ps) (values_length ps)
unfolding write_values values_length
write_values-Fills [] h = Fills-pure
write_values-Fills ((p, name) ∷ ps) (h, hs) =
    Fills->> _ _ _ _ (Fills-if p.is_null (pure tt) p.writer 0 p.length (λ e. Fills-pure) (λ e. h))
      (write_values-Fills ps hs)

length-null_bits : (ps : List Named) → length (null_bits ps) ≡ length ps
length-null_bits [] = refl
length-null_bits ((p, name) ∷ ps) = ap suc (length-null_bits ps)

write_parameters-Fills :
    (with_names : Bool) (ps : List Named)
    → AreSized ps
    → Fills
        (write_parameters with_names ps)
        ((length ps + 7) / 8 + 1 + length ps * 2 + names_length with_names ps + values_length ps)
unfolding write_parameters
write_parameters-Fills with_names ps h =
    subst (Fills _)
      {x = (0 + length (null_bits ps) + 7) / 8
        + (1 + ((length ps * 2 + names_length with_names ps) + values_length ps))}
      {y = (length ps + 7) / 8 + 1 + length ps * 2 + names_length with_names ps + values_length ps}
      (omega (arith, length-null_bits ps))
      (Fills->> _ _ _ _ (write_bitmap-Fills (null_bits ps) zero 0 (omega arith)) (
        Fills->> _ _ _ _ (write_int8-Fills 1)
          (Fills->> _ _ _ _ (write_types-Fills with_names ps) (write_values-Fills ps h))))

pub write_execute-Fills :
    (id : ℕ) (with_names : Bool) (ps : List Named)
    → AreSized ps
    → Fills (write_execute id with_names ps) (packet_size with_names ps - 4)
unfolding write_execute packet_size
write_execute-Fills id with_names ps h =
    let names = (if with_names then length_coded_number_length (length ps) else 0) in
    let rest =
      (length ps + 7) / 8 + 1 + length ps * 2 + names_length with_names ps + values_length ps in
    subst (Fills _) {x = 1 + (4 + (1 + (4 + (names + (if length ps == 0 then 0 else rest)))))}
      {y = 14 + names + (if length ps == 0 then 0 else rest) - 4} (omega arith)
      (Fills->> _ _ _ _ (write_int8-Fills stmt_execute) (
        Fills->> _ _ _ _ (write_int32-Fills id) (
          Fills->> _ _ _ _ (write_int8-Fills (if with_names then parameter_count_available else 0))
            (Fills->> _ _ _ _ (write_int32-Fills 1) (
              Fills->> _ _ _ _
                (Fills-if with_names _ _ _ _ (λ e. write_length_coded_number-Fills (length ps))
                  (λ e. Fills-pure))
                (Fills-if (length ps == 0) _ _ _ _ (λ e. Fills-pure)
                  (λ e. write_parameters-Fills with_names ps h)))))))

abbrev pub AllSized : Result (List Named) → Type 0
AllSized (ok ps) = AreSized ps
AllSized type_error = Unit
AllSized range_error = Unit

cons_result-All :
    (r : Result Parameter) (name : Option Bytes) (rs : Result (List Named))
    → IsSized r
    → AllSized rs
    → AllSized (cons_result r name rs)
cons_result-All (ok p) name (ok ps) h hs = (h, hs)
cons_result-All (ok p) name type_error h hs = tt
cons_result-All (ok p) name range_error h hs = tt
cons_result-All type_error name rs h hs = tt
cons_result-All range_error name rs h hs = tt

module _ {Num Text Date Object : Type 0} (js : Runtime Num Text Date Object)
    (laws : IsBuffer js) where
  attributes-AllSized :
      (attributes : List (Bytes × Value Num Text Date Object))
      → AllSized (attribute_parameters js attributes)
  unfolding attribute_parameters
  attributes-AllSized [] = tt
  attributes-AllSized ((name, v) ∷ rest) =
      cons_result-All (to_parameter js v false none) (some name) (attribute_parameters js rest)
        (to_parameter-IsSized js laws v false none) (attributes-AllSized rest)

  all-AllSized :
      (json_as_string : Bool) (vs : List (Value Num Text Date Object)) (ds : List (Option (ℕ × ℕ)))
      (attributes : Result (List Named))
      → AllSized attributes
      → AllSized (all_parameters js json_as_string vs ds attributes)
  unfolding all_parameters
  all-AllSized json_as_string [] ds attributes h = h
  all-AllSized json_as_string (v ∷ vs) ds attributes h =
      cons_result-All (to_parameter js v json_as_string (definition_at ds)) none
        (all_parameters js json_as_string vs (definitions_behind ds) attributes)
        (to_parameter-IsSized js laws v json_as_string (definition_at ds))
        (all-AllSized json_as_string vs (definitions_behind ds) attributes h)

  pub parameters-AllSized :
      (e : Execute Num Text Date Object)
      → AllSized (
          all_parameters js e.json_as_string e.parameters e.definitions
            (attribute_parameters js (if e.use_query_attributes then e.attributes else [])))
  parameters-AllSized e =
      all-AllSized e.json_as_string e.parameters e.definitions _
        (attributes-AllSized (if e.use_query_attributes then e.attributes else []))
