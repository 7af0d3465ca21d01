-- ===== src/Execute/Outcomes.antt =====
-- lib/packets/execute.js: what toPacket returns, and when it throws.
use node_mysql.Prelude.{
  ℕ, ◌+◌, ◌^◌, ◌≤◌, ◌<◌, ◌≡◌, refl, ap, sym, subst, ◌∙◌, ◌⊎◌, inl, inr, Bool, true, false, Option,
  none, some, List, [], ◌∷◌, ◌++◌, ◌==◌, ==_iff, if◌then◌else◌, if-elim, length, drop, overlay,
  overlay_all, replicate, length-replicate, length-overlay, All, arith,
}
use node_mysql.Packet.{Bytes, Packet, M, pure, ◌>>◌, write_int8, new_packet}
use node_mysql.Packet.Bytes.{
  Writes, Writes->>, write_int8-Writes, write_int32-Writes, write_buffer-Writes, four_bytes,
  after_put,
}
use node_mysql.Packet.LengthCoded.{write_length_coded_buffer}
use node_mysql.Packet.RoundTrip.{encoded, write_length_coded_number-Writes}
use node_mysql.Packet.Fills.{Throws, pure-Writes}
use node_mysql.PacketParser.{Allocator}
use node_mysql.Parameter.{Result, ok, type_error, range_error, Runtime}
use node_mysql.Parameter.Encoded.{IsBuffer}
use node_mysql.Execute.{
  Execute, Named, Outcome, packet, throws, internal_error, write_name, write_types, write_values,
  null_bits, packet_size, write_parameters, write_execute, serialize, serialize_all, check_length,
  stmt_execute, parameter_count_available, attribute_parameters, all_parameters, to_packet,
}
use node_mysql.Execute.Length.{AreSized, AllSized, write_execute-Fills, parameters-AllSized}
use node_mysql.Execute.Bitmap.{write_bitmap_lem}

-- It writes some bytes, wherever they fit.
abbrev pub Succeeds : M (Unit {0}) → Type 0
Succeeds m = (bs : Bytes) × Writes m bs

Succeeds->> : (m k : M (Unit {0})) → Succeeds m → Succeeds k → Succeeds (m >> k)
Succeeds->> m k (a, h) (b, h') = (a ++ b, Writes->> m k a b h h')

Succeeds-if :
    (c : Bool) (m k : M (Unit {0}))
    → (c ≡ true → Succeeds m)
    → (c ≡ false → Succeeds k)
    → Succeeds (if c then m else k)
Succeeds-if c m k f g = if-elim Succeeds c m k f g

Succeeds-pure : Succeeds (pure tt)
Succeeds-pure = ([], pure-Writes)

byte-Succeeds : (n : ℕ) → n < 256 → Succeeds (write_int8 n)
byte-Succeeds n h = (n ∷ [], write_int8-Writes n h)

Succeeds-Throws : (m : M (Unit {0})) → Succeeds m → Throws m → ⊥
Succeeds-Throws m (bs, w) t =
    let p = new_packet 0 (replicate (length bs) 0) 0 0 in
    cc (
      sym (t (record p { offset = 0 }))
      ∙ w (record p { offset = 0 })
          (unfold new_packet in omega (arith, length-replicate {A = ℕ} (length bs) 0)))

-- A parameter that the packet can hold: its type is a byte, and it is null or its writer does not throw.
abbrev pub IsWritable : Named → Type 0
IsWritable n = (n.0.type < 256) × (n.0.is_null ≡ false → Succeeds n.0.writer)

abbrev IsName : Option Bytes → Type 0
IsName none = Unit
IsName (some name) = length name < 2 ^ 64

write_name-Succeeds :
    (with_names : Bool) (name : Option Bytes) → IsName name → Succeeds (write_name with_names name)
unfolding write_name write_length_coded_buffer
write_name-Succeeds false name h = Succeeds-pure
write_name-Succeeds true none h = byte-Succeeds 0 (omega arith)
write_name-Succeeds true (some name) h =
    Succeeds->> _ _ (encoded (length name), write_length_coded_number-Writes (length name) h)
      (name, write_buffer-Writes name)

abbrev pub AreWritable : List Named → Type 0
AreWritable = All (λ n. IsWritable n × IsName n.1)

write_types-Succeeds :
    (with_names : Bool) (ps : List Named) → AreWritable ps → Succeeds (write_types with_names ps)
unfolding write_types
write_types-Succeeds with_names [] h = Succeeds-pure
write_types-Succeeds with_names ((p, name) ∷ ps) (((t, w), n), hs) =
    Succeeds->> _ _ (byte-Succeeds p.type t) (
      Succeeds->> _ _ (byte-Succeeds (if p.unsigned then 0x80 else 0) (ground arith)) (
        Succeeds->> _ _ (write_name-Succeeds with_names name n)
          (write_types-Succeeds with_names ps hs)))

write_values-Succeeds : (ps : List Named) → AreWritable ps → Succeeds (write_values ps)
unfolding write_values
write_values-Succeeds [] h = Succeeds-pure
write_values-Succeeds ((p, name) ∷ ps) (((t, w), n), hs) =
    Succeeds->> _ _ (Succeeds-if p.is_null (pure tt) p.writer (λ e. Succeeds-pure) w)
      (write_values-Succeeds ps hs)

write_parameters-Succeeds :
    (with_names : Bool) (ps : List Named)
    → AreWritable ps
    → Succeeds (write_parameters with_names ps)
unfolding write_parameters
write_parameters-Succeeds with_names ps h =
    let (bitmap, w, _, _) = write_bitmap_lem (null_bits ps) in
    Succeeds->> _ _ (bitmap, w)
      (Succeeds->> _ _ (byte-Succeeds 1 (omega arith))
        (Succeeds->> _ _ (write_types-Succeeds with_names ps h) (write_values-Succeeds ps h)))

write_execute-Succeeds :
    (id : ℕ) (with_names : Bool) (ps : List Named)
    → id < 2 ^ 32
    → length ps < 2 ^ 64
    → AreWritable ps
    → Succeeds (write_execute id with_names ps)
unfolding write_execute
write_execute-Succeeds id with_names ps hi hn h =
    Succeeds->> _ _ (byte-Succeeds stmt_execute (omega arith)) (
      Succeeds->> _ _ (four_bytes id, write_int32-Writes id hi)
        (Succeeds->> _ _
          (byte-Succeeds (if with_names then parameter_count_available else 0) (ground arith))
          (Succeeds->> _ _ (four_bytes 1, write_int32-Writes 1 (omega arith))
            (Succeeds->> _ _
              (Succeeds-if with_names _ _
                (λ e. (encoded (length ps), write_length_coded_number-Writes (length ps) hn))
                (λ e. Succeeds-pure))
              (Succeeds-if (length ps == 0) _ _ (λ e. Succeeds-pure)
                (λ e. write_parameters-Succeeds with_names ps h))))))

drop-overlay : (xs ys : Bytes) → 4 + length ys ≡ length xs → drop 4 (overlay xs 4 ys) ≡ ys
drop-overlay (a ∷ b ∷ c ∷ d ∷ xs) ys h = overlay_all xs ys (omega arith)
drop-overlay (a ∷ b ∷ c ∷ []) ys h = absurd (omega arith)
drop-overlay (a ∷ b ∷ []) ys h = absurd (omega arith)
drop-overlay (a ∷ []) ys h = absurd (omega arith)
drop-overlay [] ys h = absurd (omega arith)

-- A packet that is written to its end, with `bs` behind the room for the header.
abbrev pub IsPacked : Bytes → Outcome → Type 0
IsPacked bs o =
    (p : Packet) × (o ≡ packet p)
    × (p.offset ≡ length p.buffer)
    × (p.end ≡ length p.buffer)
    × (drop 4 p.buffer ≡ bs)

settled :
    (m : M (Unit {0})) (p : Packet) (size : ℕ) (bs : Bytes)
    → p.offset ≡ 4
    → p.end ≡ size
    → length p.buffer ≡ size
    → 4 + length bs ≡ size
    → Writes m bs
    → IsPacked bs (check_length size (m p))
settled m p size bs o e l n w =
    let q = after_put bs p in
    (
      q,
      ap (check_length size) (w p (omega arith))
          ∙ ap (λ (b : Bool). if b then packet q else internal_error) {x = q.offset == size}
              {y = true} ((==_iff q.offset size).1 (omega arith)),
      omega (arith, length-overlay p.buffer p.offset bs),
      omega (arith, length-overlay p.buffer p.offset bs),
      ap (λ k. drop 4 (overlay p.buffer k bs)) o ∙ drop-overlay p.buffer bs (omega arith),
    )

four-le-size : (with_names : Bool) (ps : List Named) → 4 ≤ packet_size with_names ps
unfolding packet_size
four-le-size with_names ps = omega arith

-- `throws` with `C` as its reason, or the same bytes in whatever memory.
abbrev pub Settled : Type 0 → (Allocator → Outcome) → Type 0
Settled C o =
    (C × ((node : Allocator) → o node ≡ throws))
    ⊎ ((bs : Bytes) × ((node : Allocator) → IsPacked bs (o node)))

serialize_lem :
    (id : ℕ) (with_names : Bool) (ps : List Named)
    → AreSized ps
    → Settled (Throws (write_execute id with_names ps)) (λ node. serialize node id with_names ps)
unfolding serialize new_packet
serialize_lem id with_names ps h =
    let size = packet_size with_names ps in
    elim (write_execute-Fills id with_names ps h) [
      | inr t ↦
          inl (t, λ node. ap (check_length size) (t (new_packet 0 (node.alloc_unsafe size) 0 size)))
      | inl (bs, n, w) ↦ inr (
        bs,
        λ node.
            settled (write_execute id with_names ps) (new_packet 0 (node.alloc_unsafe size) 0 size)
              size bs refl refl (node.length-alloc_unsafe size)
              (omega (arith, n, four-le-size with_names ps)) w,
      )
    ]

module _ {Num Text Date Object : Type 0} (js : Runtime Num Text Date Object) where
  -- The parameters and attributes of a packet, as they are encoded.
  abbrev pub encoded_parameters : Execute Num Text Date Object → Result (List Named)
  encoded_parameters e =
      all_parameters js e.json_as_string e.parameters e.definitions
        (attribute_parameters js (if e.use_query_attributes then e.attributes else []))

  -- All of them are encoded and can be written, and the numbers of the packet fit.
  abbrev pub IsSendable : Execute Num Text Date Object → Type 0
  IsSendable e =
      (ps : List Named) × (encoded_parameters e ≡ ok ps)
      × (e.id < 2 ^ 32)
      × (length ps < 2 ^ 64)
      × AreWritable ps

  IsSendable-Throws :
      (e : Execute Num Text Date Object) (ps : List Named)
      → encoded_parameters e ≡ ok ps
      → Throws (write_execute e.id e.use_query_attributes ps)
      → ¬ IsSendable e
  IsSendable-Throws e ps h t (ps', h', i, n, w) =
      let same : ps ≡ ps' = cc in
      Succeeds-Throws _ (write_execute-Succeeds e.id e.use_query_attributes ps' i n w)
        (subst (λ l. Throws (write_execute e.id e.use_query_attributes l)) same t)

  settle_all :
      (e : Execute Num Text Date Object) (r : Result (List Named))
      → encoded_parameters e ≡ r
      → AllSized r
      → Settled (¬ IsSendable e) (λ node. serialize_all node e.id e.use_query_attributes r)
  settle_all e type_error h s = inl (λ (ps, h', i, n, w). cc, λ node. refl)
  settle_all e range_error h s = inl (λ (ps, h', i, n, w). cc, λ node. refl)
  settle_all e (ok ps) h s = elim (serialize_lem e.id e.use_query_attributes ps s) [
    | inl (t, o) ↦ inl (IsSendable-Throws e ps h t, o)
    | inr o ↦ inr o
  ]

  -- The packet that runs a prepared statement, for every list of parameters and of query attributes, whatever their types and hints are, where the runtime writes a double in 8 bytes and a float in 4. Either toPacket returns a packet that is written exactly to its end, with bytes behind the header that do not depend on the memory that Buffer.allocUnsafe gives; so the internal check of its length never fails. Or it throws in whatever memory, and then a parameter or attribute cannot be encoded, or its type is no byte, or its writer throws, or its name has 2^64 bytes, or the id of the statement has no 32 bits, or there are 2^64 parameters.
  pub to_packet_lem :
      (laws : IsBuffer js) (e : Execute Num Text Date Object)
      → Settled (¬ IsSendable e) (λ node. to_packet js node e)
  unfolding to_packet
  to_packet_lem laws e = settle_all e (encoded_parameters e) refl (parameters-AllSized js laws e)
