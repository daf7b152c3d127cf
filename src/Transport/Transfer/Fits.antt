-- ===== src/Transport/Transfer/Fits.antt =====
-- The manifest that a client makes of a file is that of the file, and all messages of a transfer fit
-- their frames and are decoded as they were encoded.
pub mod Sizes
use mathlib.Core.List.{flatten, foldl}
use ati_tcp_file_transfer.Base.{All-implies}
use ati_tcp_file_transfer.Base.{
  ℕ, ◌+◌, ◌-◌, ◌*◌, ◌/◌, ◌%◌, ◌<◌, ◌≤◌, ◌==◌, ◌≡◌, refl, ap, ◌∙◌, arith, if◌then◌else◌,
}
use ati_tcp_file_transfer.Base.{
  some, List, [], ◌∷◌, ◌++◌, map, length, get_or, drop, All, length-append, length-take,
}
use ati_tcp_file_transfer.Util.Byteorder.{
  u16_mod, u32_mod, write_be_u16, write_be_u32, write_be_u64,
}
use ati_tcp_file_transfer.Util.Blake3.{Blake3, IsStreaming, blake3, update, new_hasher, finalize}
use ati_tcp_file_transfer.Util.Blake3.Streaming.{finalize-update}
use ati_tcp_file_transfer.Proto.Types.{k_default_max_payload}
use ati_tcp_file_transfer.Proto.Frame.Header.{length-write_be_u32}
use ati_tcp_file_transfer.Proto.Cursor.Returns.{IsHash}
use ati_tcp_file_transfer.Proto.Messages.{
  default_hello, encode_hello, decode_hello, encode_manifest, decode_manifest, decode_req_chunks,
  decode_chunk, decode_complete, encode_ack,
}
use ati_tcp_file_transfer.Proto.Messages.Layout.{
  encode_manifest-layout, encode_req_chunks-layout, encode_chunk-layout, encode_complete-layout,
}
use ati_tcp_file_transfer.Proto.Messages.RoundTrip.{
  decode_hello-encode_hello, decode_manifest-encode_manifest, decode_req_chunks-encode_req_chunks,
  decode_chunk-encode_chunk, decode_complete-encode_complete, length-indices,
}
use ati_tcp_file_transfer.Transport.Client.{chunk_count}
use ati_tcp_file_transfer.Transport.Client.Chunks.{
  slices, flatten-slices, length-slices, enough_chunks,
}
use ati_tcp_file_transfer.Transport.Server.Honest.{slice, IsManifestOf}
use ati_tcp_file_transfer.Transport.Transfer.{
  IsTransferable, AreChunks, file_manifest, chunk_payload, complete_payload, request_payload,
  ack_payload,
}
use ati_tcp_file_transfer.Transport.Transfer.Fits.Sizes.{
  get_or-slices, length-map, length-flatten, map-IsHash, starts_within, length-write_be_u16,
  length-write_be_u64,
}
pub use ati_tcp_file_transfer.Transport.Transfer.Fits.Sizes.{
  length-wires_of, length-indices_from, all-AreChunks, blake3-IsHash,
}

pub hello_room : length (encode_hello default_hello) ≤ k_default_max_payload
unfolding encode_hello write_be_u32
hello_room = omega arith

pub decode_hello-default : decode_hello (encode_hello default_hello) ≡ some default_hello
decode_hello-default =
    decode_hello-encode_hello default_hello
      (record { version = omega arith; chunk = omega arith; flags = omega arith })

module _ (k : ℕ) (c path : List ℕ) (ok : IsTransferable k c path) where
  abbrev pub n : ℕ
  n = chunk_count (length c) k

  pub count-bound : n < u32_mod
  unfolding chunk_count
  count-bound = ground arith

  pub chunk_count-covers : length c ≤ n * k
  chunk_count-covers =
      enough_chunks (length c) k ok.pos (omega (arith, ok.fits, ok.chunk_room)) ok.count

  -- A chunk that is counted starts within the file.
  pub chunk_starts : (i : ℕ) → i < n → i * k < length c
  chunk_starts i h = starts_within (length c) k i ok.pos (omega (arith, ok.fits, ok.chunk_room)) h

  pub decode_request :
      (is : List ℕ)
      → AreChunks n is
      → decode_req_chunks (request_payload is) ≡ some (record { indices = is })
  decode_request is asked =
      decode_req_chunks-encode_req_chunks (record { indices = is })
        (record {
          count = omega (arith, asked.few, count-bound);
          indices = All-implies (λ i h. omega (arith, h, count-bound)) is asked.below;
        })

  pub request_room :
      (is : List ℕ) → length is ≤ n → length (request_payload is) ≤ k_default_max_payload
  request_room is few = omega (
    arith,
    ap length (encode_req_chunks-layout (record { indices = is })),
    length-append (write_be_u32 (length is % u32_mod)) (flatten (map write_be_u32 is) ++ []),
    length-append (flatten (map write_be_u32 is)) [],
    length-write_be_u32 (length is % u32_mod),
    length-indices is,
    ok.manifest_room,
    few,
  )

  pub ack_room : length (ack_payload n) ≤ k_default_max_payload
  unfolding encode_ack
  ack_room = omega (arith, length-write_be_u32 (if n == 0 then 0 else n - 1))

  module _ (b : Blake3) (streaming : IsStreaming b) where
    pub manifest_honest : IsManifestOf b c (file_manifest b k c path)
    manifest_honest = record {
      size = refl;
      covered = chunk_count-covers;
      count = count-bound;
      fits = ok.fits;
      hashes = λ i h.
          get_or-slices (blake3 b) k c n 0 i h
          ∙ ap (λ (j : ℕ). blake3 b (slice k c j)) (let e : 0 + i ≡ i = omega arith in e);
      root = refl;
    }

    length-chunk_hashes : length (map (blake3 b) (slices k c n 0)) ≡ n
    length-chunk_hashes = length-map (blake3 b) (slices k c n 0) ∙ length-slices k c n 0

    pub decode_manifest-file :
        decode_manifest (encode_manifest (file_manifest b k c path))
        ≡ some (file_manifest b k c path)
    decode_manifest-file = decode_manifest-encode_manifest (file_manifest b k c path) (record {
      size = omega (arith, ok.fits);
      chunk = omega (arith, ok.chunk_room);
      count = count-bound;
      root = blake3-IsHash b streaming c;
      path_len = ok.path_len;
      as_declared = length-chunk_hashes;
      hashes = map-IsHash b streaming (slices k c n 0);
    })

    pub manifest_room : length (encode_manifest (file_manifest b k c path)) ≤ k_default_max_payload
    manifest_room =
        let hashes = map (blake3 b) (slices k c n 0) in
        let root = blake3 b c in
        let len = write_be_u16 (length path % u16_mod) in
        omega (
          arith,
          ap length (encode_manifest-layout (file_manifest b k c path)),
          length-append (write_be_u64 (length c)) (
              write_be_u32 k
              ++ (write_be_u32 n ++ (root ++ (len ++ (path ++ (flatten hashes ++ [])))))),
          length-append (write_be_u32 k)
              (write_be_u32 n ++ (root ++ (len ++ (path ++ (flatten hashes ++ []))))),
          length-append (write_be_u32 n) (root ++ (len ++ (path ++ (flatten hashes ++ [])))),
          length-append root (len ++ (path ++ (flatten hashes ++ []))),
          length-append len (path ++ (flatten hashes ++ [])),
          length-append path (flatten hashes ++ []),
          length-append (flatten hashes) [],
          length-write_be_u64 (length c),
          length-write_be_u32 k,
          length-write_be_u32 n,
          blake3-IsHash b streaming c,
          length-write_be_u16 (length path % u16_mod),
          length-flatten hashes (map-IsHash b streaming (slices k c n 0)),
          length-chunk_hashes,
          ok.manifest_room,
        )

    pub decode_chunk-file :
        (i : ℕ)
        → i < n
        → decode_chunk (chunk_payload b k c i)
          ≡ some (record { index = i; hash = blake3 b (slice k c i); bytes = slice k c i })
    decode_chunk-file i h = decode_chunk-encode_chunk _ (record {
      index = omega (arith, h, count-bound);
      hash = blake3-IsHash b streaming (slice k c i);
    })

    pub chunk_payload_room : (i : ℕ) → length (chunk_payload b k c i) ≤ k_default_max_payload
    chunk_payload_room i =
        let hash = blake3 b (slice k c i) in
        omega (
          arith,
          ap length (encode_chunk-layout (record { index = i; hash = hash; bytes = slice k c i })),
          length-append (write_be_u32 i) (hash ++ slice k c i),
          length-append hash (slice k c i),
          length-write_be_u32 i,
          blake3-IsHash b streaming (slice k c i),
          length-take k (drop (i * k) c),
          ok.chunk_room,
        )

    pub decode_complete-file :
        decode_complete (complete_payload b k c)
        ≡ some (record { final_root_hash = blake3 b c; status = 0 })
    decode_complete-file =
        decode_complete-encode_complete _
          (record { root = blake3-IsHash b streaming c; status = omega arith })

    pub complete_room : length (complete_payload b k c) ≤ k_default_max_payload
    complete_room = omega (
      arith,
      ap length (encode_complete-layout (record { final_root_hash = blake3 b c; status = 0 })),
      length-append (blake3 b c) (0 ∷ []),
      blake3-IsHash b streaming c,
    )

    -- The hasher that has taken all chunks has the hash of the file.
    pub hashed_file : finalize b (foldl (update b) (new_hasher b) (slices k c n 0)) ≡ blake3 b c
    hashed_file =
        finalize-update b streaming (slices k c n 0)
        ∙ ap (blake3 b) (
            flatten-slices k c n 0 (omega (arith, chunk_count-covers))
            ∙ (let e : 0 * k ≡ 0 = omega arith in ap (λ (j : ℕ). drop j c) e))
