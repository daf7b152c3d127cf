-- ===== src/Proto/Messages/RoundTrip.antt =====
-- Every message whose fields fit their widths is decoded from its own encoding.
use mathlib.Core.List.{flatten}
use ati_tcp_file_transfer.Base.{
  ℕ, zero, suc, ◌-◌, ◌*◌, ◌/◌, ◌%◌, ◌<◌, ◌≤◌, ◌≡◌, sym, ap, ◌∙◌, arith,
}
use ati_tcp_file_transfer.Base.{some, List, [], ◌∷◌, ◌++◌, map, length, All, append_assoc}
use ati_tcp_file_transfer.Base.{length-append, length-drop, le→ltb_false}
use ati_tcp_file_transfer.Util.Byteorder.{u16_mod, u32_mod, write_be_u32}
use ati_tcp_file_transfer.Proto.Frame.Header.{length-write_be_u32}
use ati_tcp_file_transfer.Proto.Cursor.{Hash, run, pure}
use ati_tcp_file_transfer.Proto.Cursor.Rules.{Moves, Moves-bind, Moves-pure, Moves-run}
use ati_tcp_file_transfer.Proto.Cursor.Takes.{
  take_u8-Moves, take_u16-Moves, take_u32-Moves, take_u64-Moves, take_hash-Moves, take_string-Moves,
  at_end-Moves,
}
use ati_tcp_file_transfer.Proto.Cursor.Returns.{IsHash}
use ati_tcp_file_transfer.Proto.Messages.{
  HelloMsg, encode_hello, parse_hello, decode_hello, ManifestMsg, encode_manifest, take_hashes,
  parse_manifest, decode_manifest, ReqChunksMsg, encode_req_chunks, take_indices, check_count,
  parse_req_chunks, decode_req_chunks, ChunkMsg, encode_chunk, parse_chunk, decode_chunk, rest_of,
  CompleteMsg, encode_complete, parse_complete, decode_complete, AckMsg, encode_ack, parse_ack,
  decode_ack, ErrorMsg, encode_error, parse_error, decode_error,
}
use ati_tcp_file_transfer.Proto.Messages.Layout.{
  HelloFits, ManifestFits, ReqChunksFits, ChunkFits, CompleteFits, ErrorFits, encode_hello-layout,
  encode_manifest-layout, encode_req_chunks-layout, encode_chunk-layout, encode_complete-layout,
  encode_ack-layout, encode_error-layout,
}

pub decode_hello-encode_hello :
    (m : HelloMsg) → HelloFits m → decode_hello (encode_hello m) ≡ some m
unfolding decode_hello
decode_hello-encode_hello m f =
    ap (run parse_hello) (encode_hello-layout m)
    ∙ Moves-run parse_hello (
        Moves-bind _ _ (take_u8-Moves m.protocol_version _) (
          Moves-bind _ _ (take_u32-Moves m.max_chunk_size _ f.chunk) (
            Moves-bind _ _ (take_u32-Moves m.capabilities _ f.flags)
              (Moves-bind _ _ at_end-Moves (Moves-pure _ [])))))

take_hashes-Moves :
    (hashes : List Hash) (n : ℕ) (s : List ℕ)
    → length hashes ≡ n
    → All IsHash hashes
    → Moves (take_hashes n) (flatten hashes ++ s) hashes s
unfolding take_hashes flatten
take_hashes-Moves [] zero s e w = Moves-pure _ s
take_hashes-Moves [] (suc n) s e w = absurd (omega arith)
take_hashes-Moves (h ∷ hashes) zero s e w = absurd (omega arith)
take_hashes-Moves (h ∷ hashes) (suc n) s e w = rw append_assoc (
    Moves-bind _ _ (take_hash-Moves h _ w.0)
      (Moves-bind _ _ (take_hashes-Moves hashes n s (omega arith) w.1) (Moves-pure _ s)))

pub decode_manifest-encode_manifest :
    (m : ManifestMsg) → ManifestFits m → decode_manifest (encode_manifest m) ≡ some m
unfolding decode_manifest
decode_manifest-encode_manifest m f =
    let small : length m.path % u16_mod ≡ length m.path = omega (arith, f.path_len) in
    ap (run parse_manifest) (encode_manifest-layout m)
    ∙ Moves-run parse_manifest (
        Moves-bind _ _ (take_u64-Moves m.file_size _ f.size) (
          Moves-bind _ _ (take_u32-Moves m.chunk_size _ f.chunk) (
            Moves-bind _ _ (take_u32-Moves m.chunk_count _ f.count) (
              Moves-bind _ _ (take_hash-Moves m.root_hash _ f.root) (
                Moves-bind _ _ (take_u16-Moves (length m.path % u16_mod) _ (omega arith)) (
                  Moves-bind _ _ (take_string-Moves _ m.path _ (sym small)) (
                    Moves-bind _ _
                      (take_hashes-Moves m.chunk_hashes m.chunk_count [] f.as_declared f.hashes)
                      (Moves-bind _ _ at_end-Moves (Moves-pure _ [])))))))))

take_indices-Moves :
    (indices : List ℕ) (s : List ℕ)
    → All (λ i. i < u32_mod) indices
    → Moves (take_indices (length indices)) (flatten (map write_be_u32 indices) ++ s) indices s
unfolding take_indices flatten
take_indices-Moves [] s w = Moves-pure _ s
take_indices-Moves (i ∷ indices) s w = rw append_assoc (
    Moves-bind _ _ (take_u32-Moves i _ w.0)
      (Moves-bind _ _ (take_indices-Moves indices s w.1) (Moves-pure _ s)))

pub length-indices :
    (indices : List ℕ) → length (flatten (map write_be_u32 indices)) ≡ length indices * 4
unfolding flatten
length-indices [] = omega arith
length-indices (i ∷ indices) = omega (
  arith,
  length-append (write_be_u32 i) (flatten (map write_be_u32 indices)),
  length-write_be_u32 i,
  length-indices indices,
)

check_count-Moves : (n : ℕ) (s : List ℕ) → n ≤ length s / 4 → Moves (check_count n) s tt s
unfolding check_count
check_count-Moves n s h = record {
  at = λ c r.
      let enough : n ≤ (length c.payload - c.pos) / 4 =
        omega (arith, h, ap length r.1, length-drop c.pos c.payload) in
      (c, rw (le→ltb_false _ _ enough), r);
}

pub decode_req_chunks-encode_req_chunks :
    (m : ReqChunksMsg) → ReqChunksFits m → decode_req_chunks (encode_req_chunks m) ≡ some m
unfolding decode_req_chunks
decode_req_chunks-encode_req_chunks m f =
    let small : length m.indices % u32_mod ≡ length m.indices = omega (arith, f.count) in
    let room : length m.indices ≤ length (flatten (map write_be_u32 m.indices) ++ []) / 4 =
      omega (
        arith,
        length-append (flatten (map write_be_u32 m.indices)) [],
        length-indices m.indices,
      ) in
    ap (run parse_req_chunks) (encode_req_chunks-layout m ∙ rw small)
    ∙ Moves-run parse_req_chunks (
        Moves-bind _ _ (take_u32-Moves (length m.indices) _ f.count) (
          Moves-bind _ _ (check_count-Moves (length m.indices) _ room) (
            Moves-bind _ _ (take_indices-Moves m.indices [] f.indices)
              (Moves-bind _ _ at_end-Moves (Moves-pure _ [])))))

rest_of-Moves : (s : List ℕ) → Moves rest_of s s s
rest_of-Moves s = record { at = λ c r. (c, ap (λ t. some (t, c)) r.1, r) }

pub decode_chunk-encode_chunk :
    (m : ChunkMsg) → ChunkFits m → decode_chunk (encode_chunk m) ≡ some m
unfolding decode_chunk
decode_chunk-encode_chunk m f =
    ap (run parse_chunk) (encode_chunk-layout m)
    ∙ Moves-run parse_chunk (
        Moves-bind _ _ (take_u32-Moves m.index _ f.index) (
          Moves-bind _ _ (take_hash-Moves m.hash _ f.hash) (
            Moves-bind rest_of (λ bytes. pure (record m { bytes = bytes })) (rest_of-Moves m.bytes)
              (Moves-pure _ m.bytes))))

pub decode_complete-encode_complete :
    (m : CompleteMsg) → CompleteFits m → decode_complete (encode_complete m) ≡ some m
unfolding decode_complete
decode_complete-encode_complete m f =
    ap (run parse_complete) (encode_complete-layout m)
    ∙ Moves-run parse_complete (
        Moves-bind _ _ (take_hash-Moves m.final_root_hash _ f.root) (
          Moves-bind _ _ (take_u8-Moves m.status [])
            (Moves-bind _ _ at_end-Moves (Moves-pure _ []))))

pub decode_ack-encode_ack :
    (m : AckMsg) → m.last_index < u32_mod → decode_ack (encode_ack m) ≡ some m
unfolding decode_ack
decode_ack-encode_ack m f =
    ap (run parse_ack) (encode_ack-layout m)
    ∙ Moves-run parse_ack (
        Moves-bind _ _ (take_u32-Moves m.last_index _ f)
          (Moves-bind _ _ at_end-Moves (Moves-pure _ [])))

pub decode_error-encode_error :
    (m : ErrorMsg) → ErrorFits m → decode_error (encode_error m) ≡ some m
unfolding decode_error
decode_error-encode_error m f =
    let small : length m.message % u16_mod ≡ length m.message = omega (arith, f.message_len) in
    ap (run parse_error) (encode_error-layout m)
    ∙ Moves-run parse_error (
        Moves-bind _ _ (take_u16-Moves m.code _ f.code) (
          Moves-bind _ _ (take_u16-Moves (length m.message % u16_mod) _ (omega arith)) (
            Moves-bind _ _ (take_string-Moves _ m.message _ (sym small))
              (Moves-bind _ _ at_end-Moves (Moves-pure _ [])))))
