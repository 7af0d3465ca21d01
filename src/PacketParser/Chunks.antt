-- ===== src/PacketParser/Chunks.antt =====
-- `PacketParser.execute` of lib/packet_parser.js over all the chunks of a socket.
use mathlib.Core.List.{flatten, map-append}
use node_mysql.Prelude.{
  ℕ, suc, ◌+◌, ◌*◌, ◌/◌, ◌%◌, ◌^◌, ◌<◌, ◌≡◌, ◌≢◌, refl, sym, ap, subst, List, [], ◌∷◌, ◌++◌, arith,
  lt→ltb, inl, inr, All, none, length, map, append-nil, append_assoc,
}
use node_mysql.Packet.{Bytes}
use node_mysql.PacketParser.{
  PacketParser, Allocator, Execute, execute_start, execute_payload, execute_header2,
  execute_header3, run_header2, run_header3, run_payload, execute_with, execute, execute_all,
  new_parser,
}
use node_mysql.PacketParser.Frames.{Assembly, Deframes, next_frame, IsHeaderLength, view, assembly}
use node_mysql.PacketParser.Framing.{Deframes-unique, Deframes-append}
use node_mysql.PacketParser.Pending.{
  IsBytes, IsValid, Holds, IsClear, kept, pending, three_bytes, frame_length-three_bytes,
  new_parser-IsValid,
}
use node_mysql.PacketParser.Refine.{Advances, stop-Advances, run_start-Advances, next_frame-none}
use node_mysql.PacketParser.Payload.{run_payload-Advances}

-- A `data` event of a socket carries a byte at least.
abbrev pub IsChunk : Bytes → Type 0
IsChunk c = IsBytes c × (c ≢ [])

flatten-clear : (bs : List Bytes) → bs ≡ [] → flatten bs ≡ []
unfolding flatten
flatten-clear [] e = refl
flatten-clear (b ∷ bs) e = cc

-- A header that is read in full leaves a payload of which no byte is there.
header_read :
    (p : PacketParser) (n h : ℕ) (chunk bs : Bytes)
    → IsHeaderLength h
    → p.packet_header_length ≡ h
    → IsClear p
    → n < 2 ^ 24
    → three_bytes n ++ chunk ≡ bs
    → Holds execute_payload (record p { payload_length = n; execute = execute_payload })
      × (three_bytes n ++ (flatten p.buffer ++ chunk) ≡ bs)
header_read p n h chunk bs hh e clear k eb =
    let nil = flatten-clear p.buffer clear.0 in
    ((k, omega (arith, ap length nil), omega arith), rw nil eb)

module _ (node : Allocator) (h : ℕ) (hh : IsHeaderLength h) where
  run_header3-Advances :
      (p : PacketParser) (chunk : Bytes)
      → IsChunk chunk
      → p.packet_header_length ≡ h
      → Holds execute_header3 p
      → Advances h
          (assembly p)
          ((p.payload_length % 256) ∷ (p.payload_length / 256) ∷ chunk)
          (run_header3 node p chunk)
  unfolding run_header3
  run_header3-Advances p [] (hb, hn) e k = absurd (hn refl)
  run_header3-Advances p (c ∷ chunk) (hb, hn) e k =
      let n = p.payload_length + c * 2 ^ 16 in
      let (holds, same) =
        header_read p n h chunk ((p.payload_length % 256) ∷ (p.payload_length / 256) ∷ c ∷ chunk) hh
          e k.0 (omega arith) (ground arith) in
      let q : PacketParser = record p { payload_length = n; execute = execute_payload } in
      subst (λ bs. Advances h (assembly p) bs (run_payload node q chunk)) same
        (run_payload-Advances node q chunk h hh hb.1 e refl holds)

  run_header2-Advances :
      (p : PacketParser) (chunk : Bytes)
      → IsChunk chunk
      → p.packet_header_length ≡ h
      → Holds execute_header2 p
      → Advances h (assembly p) (p.payload_length ∷ chunk) (run_header2 node p chunk)
  unfolding run_header2
  run_header2-Advances p [] (hb, hn) e k = absurd (hn refl)
  run_header2-Advances p (c ∷ []) (hb, hn) e k =
      stop-Advances _ (next_frame-none h _ (inl (omega arith))) (ground arith)
  run_header2-Advances p (c ∷ d ∷ chunk) (hb, hn) e k =
      let n = p.payload_length + c * 2 ^ 8 + d * 2 ^ 16 in
      let (holds, same) =
        header_read p n h chunk (p.payload_length ∷ c ∷ d ∷ chunk) hh e k.0 (omega arith)
          (ground arith) in
      let q : PacketParser = record p { payload_length = n; execute = execute_payload } in
      rw (lt→ltb 1 (suc (suc (length chunk))) (omega arith)) (
        subst (λ bs. Advances h (assembly p) bs (run_payload node q chunk)) same
          (run_payload-Advances node q chunk h hh hb.1.1 e refl holds))

  execute_with-Advances :
      (x : Execute) (p : PacketParser) (chunk : Bytes)
      → IsChunk chunk
      → p.packet_header_length ≡ h
      → p.execute ≡ x
      → Holds x p
      → Advances h (assembly p) (kept x p ++ chunk) (execute_with node x p chunk)
  unfolding execute_with
  execute_with-Advances execute_start p chunk hc e m k = run_start-Advances p chunk h hh hc.0 e m k
  execute_with-Advances execute_payload p chunk hc e m k =
      rw append_assoc (run_payload-Advances node p chunk h hh hc.0 e m k)
  execute_with-Advances execute_header2 p chunk hc e m k = run_header2-Advances p chunk hc e k
  execute_with-Advances execute_header3 p chunk hc e m k = run_header3-Advances p chunk hc e k

  -- For a parser that is valid for header length 4 or 7 and a chunk of at least one byte, `execute`
  -- leaves a valid parser, and delivers exactly the packets that the stream of the bytes it kept
  -- before and of the chunk describes, keeping the bytes of the last frame that is not complete.
  pub execute-Advances :
      (p : PacketParser) (chunk : Bytes)
      → IsChunk chunk
      → IsValid h p
      → Advances h (assembly p) (pending p ++ chunk) (execute node p chunk)
  unfolding execute
  execute-Advances p chunk hc v = execute_with-Advances p.execute p chunk hc v.header refl v.holds

  -- What a valid parser keeps holds no whole frame.
  kept-next_frame :
      (x : Execute) (p : PacketParser)
      → p.packet_header_length ≡ h
      → Holds x p
      → next_frame h (kept x p) ≡ none
  kept-next_frame execute_start p e k = next_frame-none h _ (inl (omega arith))
  kept-next_frame execute_header2 p e k = next_frame-none h _ (inl (omega arith))
  kept-next_frame execute_header3 p e k = next_frame-none h _ (inl (omega arith))
  kept-next_frame execute_payload p e k =
      next_frame-none h _
        (inr (omega (arith, frame_length-three_bytes p.payload_length (flatten p.buffer))))

  pub execute_all-Advances :
      (p : PacketParser) (chunks : List Bytes)
      → All IsChunk chunks
      → IsValid h p
      → Advances h (assembly p) (pending p ++ flatten chunks) (execute_all node p chunks)
  unfolding execute_all flatten
  execute_all-Advances p [] hc v =
      stop-Advances p (rw append-nil (kept-next_frame p.execute p v.header v.holds))
        (v, sym (append-nil (pending p)), refl)
  execute_all-Advances p (c ∷ cs) (hc, hcs) v =
      let first = execute-Advances p c hc v in
      let later = execute_all-Advances (execute node p c).0 cs hcs first.valid in
      record {
        valid = later.valid;
        deframes =
            rw
              (
                map-append view (execute node p c).1 (execute_all node (execute node p c).0 cs).1,
                ← append_assoc (pending p) c (flatten cs),
              )
              (Deframes-append (flatten cs) (omega arith) first.deframes later.deframes);
      }

abbrev pub empty_assembly : Assembly
empty_assembly = record { parts = []; first = 0 }

-- A new parser for header length 4 or 7, fed any chunks of at least one byte, delivers exactly
-- the packets that the stream of all their bytes describes; it stays valid, and what it keeps is
-- the rest of that stream and the parts of an unfinished large packet.
pub execute_all-Deframes :
    (node : Allocator) (h : ℕ) (chunks : List Bytes)
    → IsHeaderLength h
    → All IsChunk chunks
    → let (p, out) = execute_all node (new_parser h) chunks in
      IsValid h p
      × Deframes h empty_assembly (flatten chunks) (assembly p) (pending p) (map view out)
unfolding new_parser
execute_all-Deframes node h chunks hh hc =
    let run = execute_all-Advances node h hh (new_parser h) chunks hc (new_parser-IsValid h) in
    (run.valid, run.deframes)

-- Where the socket cuts the stream does not matter: two new parsers for header length 4 or 7 that
-- are fed the same bytes, in any two divisions into chunks of at least one byte, and with any
-- content in the memory that `allocUnsafe` gives, deliver the same packets and keep the same rest.
pub execute_all-chunks :
    (node node' : Allocator) (h : ℕ) (chunks chunks' : List Bytes)
    → IsHeaderLength h
    → All IsChunk chunks
    → All IsChunk chunks'
    → flatten chunks ≡ flatten chunks'
    → let (p, out) = execute_all node (new_parser h) chunks in
      let (p', out') = execute_all node' (new_parser h) chunks' in
      (map view out ≡ map view out') × (pending p ≡ pending p') × (assembly p ≡ assembly p')
execute_all-chunks node node' h chunks chunks' hh hc hc' e =
    let (p, out) = execute_all node (new_parser h) chunks in
    let left = (execute_all-Deframes node h chunks hh hc).1 in
    let right = (execute_all-Deframes node' h chunks' hh hc').1 in
    let same =
      subst (λ bs. Deframes h empty_assembly bs (assembly p) (pending p) (map view out)) e left in
    let (a, r, o) = Deframes-unique same right in (o, r, a)
