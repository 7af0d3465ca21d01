-- ===== src/Compression/Slices.antt =====
-- lib/compressed_protocol.js: the pieces of a large buffer.
use mathlib.Core.List.{flatten}
use node_mysql.Prelude.{
  ℕ, zero, suc, ◌+◌, ◌-◌, ◌≤◌, ◌≡◌, sym, ap, ap₂, ◌∙◌, List, [], ◌∷◌, ◌++◌, ltb, ltb_false→le,
  if◌then◌else◌, if-elim, length, length-take, take, drop, drop-drop, drop_all, take-append-drop,
  slice, flatten-singleton, All, arith,
}
use node_mysql.Packet.{Bytes}
use node_mysql.Compression.{max_compressed_length}

abbrev pub piece : ℕ → Bytes → Bytes
piece start b = slice b start (start + max_compressed_length)

-- The pieces that the loop of `writeCompressed` writes from a place on.
unfoldable pub pieces_from : ℕ → ℕ → Bytes → List Bytes
pieces_from zero start b = []
pieces_from (suc fuel) start b =
    let rest = pieces_from fuel (start + max_compressed_length) b in
    if ltb start (length b) then piece start b ∷ rest else []

-- What a buffer is written as.
unfoldable pub pieces : Bytes → List Bytes
unfolding pieces_from
pieces b = if ltb max_compressed_length (length b) then pieces_from (length b) 0 b else b ∷ []

piece-drop :
    (start : ℕ) (b : Bytes) → piece start b ++ drop (start + max_compressed_length) b ≡ drop start b
piece-drop start b =
    ap₂ (λ n xs. take n (drop start b) ++ xs) {x = start + max_compressed_length - start}
      {y = max_compressed_length} (omega arith) (sym (drop-drop max_compressed_length start b))
    ∙ take-append-drop max_compressed_length (drop start b)

-- Each round takes a byte at least, so as many rounds as bytes are enough.
flatten-pieces_from :
    (fuel start : ℕ) (b : Bytes)
    → length b ≤ fuel + start
    → flatten (pieces_from fuel start b) ≡ drop start b
unfolding pieces_from flatten
flatten-pieces_from zero start b h = sym (drop_all start b (omega arith))
flatten-pieces_from (suc fuel) start b h =
    if-elim (λ l. flatten l ≡ drop start b) (ltb start (length b)) _ _
      (λ e.
        ap (piece start b ++◌)
          (flatten-pieces_from fuel (start + max_compressed_length) b (omega arith))
        ∙ piece-drop start b)
      (λ e. sym (drop_all start b (ltb_false→le _ _ e)))

-- The pieces of a buffer make it up.
pub flatten-pieces : (b : Bytes) → flatten (pieces b) ≡ b
unfolding pieces flatten
flatten-pieces b =
    if-elim (λ l. flatten l ≡ b) (ltb max_compressed_length (length b)) _ _
      (λ e. flatten-pieces_from (length b) 0 b (omega arith)) (λ e. flatten-singleton b)

abbrev pub Fits : Bytes → Type 0
Fits b = length b ≤ max_compressed_length

pieces_from-Fits : (fuel start : ℕ) (b : Bytes) → All Fits (pieces_from fuel start b)
unfolding pieces_from
pieces_from-Fits zero start b = tt
pieces_from-Fits (suc fuel) start b =
    if-elim (All Fits) (ltb start (length b)) _ _
      (λ e. (
        omega (arith, length-take {0} (start + max_compressed_length - start) (drop start b)),
        pieces_from-Fits fuel (start + max_compressed_length) b,
      ))
      (λ e. tt)

pub pieces-Fits : (b : Bytes) → All Fits (pieces b)
unfolding pieces
pieces-Fits b =
    if-elim (All Fits) (ltb max_compressed_length (length b)) _ _
      (λ e. pieces_from-Fits (length b) 0 b) (λ e. (ltb_false→le _ _ e, tt))
