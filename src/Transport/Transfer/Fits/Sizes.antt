-- ===== src/Transport/Transfer/Fits/Sizes.antt =====
-- The sizes of the parts of a transfer's messages in src/lib/transport/client.cpp and server.cpp: the
-- indices, the hashes and the frames of the chunks; and where a chunk starts.
use mathlib.Core.List.{flatten}
use native.Mathlib.Nat.{div-add-mod', mul-le-mul_right}
use ati_tcp_file_transfer.Base.{
  ℕ, zero, suc, ◌+◌, ◌-◌, ◌*◌, ◌/◌, ◌%◌, ◌<◌, ◌≤◌, ◌==◌, ◌≡◌, refl, ap, ◌∙◌, arith, Bool-cases, inl,
  inr,
}
use ati_tcp_file_transfer.Base.{List, [], ◌∷◌, map, length, get_or, All, length-append}
use ati_tcp_file_transfer.Util.Byteorder.{u32_mod, u64_mod, write_be_u16, write_be_u64}
use ati_tcp_file_transfer.Util.Blake3.{Blake3, IsStreaming, blake3, update_unless_empty}
use ati_tcp_file_transfer.Proto.Types.{FrameType}
use ati_tcp_file_transfer.Proto.Cursor.{Hash}
use ati_tcp_file_transfer.Proto.Cursor.Returns.{IsHash}
use ati_tcp_file_transfer.Proto.Frame.{encode_to}
use ati_tcp_file_transfer.Proto.Frame.Header.{length-encode_to}
use ati_tcp_file_transfer.Transport.Client.{chunk_count}
use ati_tcp_file_transfer.Transport.Client.Chunks.{slices}
use ati_tcp_file_transfer.Transport.Server.Honest.{slice}
use ati_tcp_file_transfer.Transport.Transfer.{
  AreChunks, wire, wires_of, indices_from, chunk_payload,
}

indices_below : (bound n i : ℕ) → i + n ≤ bound → All (λ j. j < bound) (indices_from n i)
unfolding indices_from
indices_below bound zero i h = tt
indices_below bound (suc n) i h =
    (omega (arith, h), indices_below bound n (i + 1) (omega (arith, h)))

-- The frames of some chunks are at least as many bytes as the chunks are.
pub length-wires_of :
    (b : Blake3) (k : ℕ) (c : List ℕ) (is : List ℕ) → length is ≤ length (wires_of b k c is)
unfolding wires_of
length-wires_of b k c [] = omega arith
length-wires_of b k c (i ∷ is) = omega (
  arith,
  length-append (wire FrameType.chunk (chunk_payload b k c i)) (wires_of b k c is),
  length-append
      (encode_to
        (record { payload_len = length (chunk_payload b k c i) % u32_mod; type = FrameType.chunk }))
      (chunk_payload b k c i),
  length-encode_to
      (record { payload_len = length (chunk_payload b k c i) % u32_mod; type = FrameType.chunk }),
  length-wires_of b k c is,
)

pub length-indices_from : (n i : ℕ) → length (indices_from n i) ≡ n
unfolding indices_from
length-indices_from zero i = refl
length-indices_from (suc n) i = ap suc (length-indices_from n (i + 1))

pub all-AreChunks : (n : ℕ) → AreChunks n (indices_from n 0)
all-AreChunks n = record {
  few = omega (arith, length-indices_from n 0);
  below = indices_below n n 0 (omega arith);
}

pub length-write_be_u16 : (v : ℕ) → length (write_be_u16 v) ≡ 2
unfolding write_be_u16
length-write_be_u16 v = refl

pub length-write_be_u64 : (v : ℕ) → length (write_be_u64 v) ≡ 8
unfolding write_be_u64
length-write_be_u64 v = refl

pub get_or-slices :
    (f : List ℕ → Hash) (k : ℕ) (c : List ℕ) (n i j : ℕ)
    → j < n
    → get_or (map f (slices k c n i)) j [] ≡ f (slice k c (i + j))
unfolding slices
get_or-slices f k c zero i j h = absurd (omega (arith, h))
get_or-slices f k c (suc n) i zero h =
    ap (λ (m : ℕ). f (slice k c m)) (let e : i ≡ i + 0 = omega arith in e)
get_or-slices f k c (suc n) i (suc j) h =
    get_or-slices f k c n (i + 1) j (omega (arith, h))
    ∙ ap (λ (m : ℕ). f (slice k c m)) (let e : (i + 1) + j ≡ i + suc j = omega arith in e)

pub length-map : (f : List ℕ → Hash) (xs : List (List ℕ)) → length (map f xs) ≡ length xs
length-map f [] = refl
length-map f (x ∷ xs) = ap suc (length-map f xs)

pub blake3-IsHash : (b : Blake3) → IsStreaming b → (x : List ℕ) → IsHash (blake3 b x)
unfolding blake3
blake3-IsHash b streaming x = streaming.size (update_unless_empty b b.init x)

pub length-flatten :
    (hashes : List Hash) → All IsHash hashes → length (flatten hashes) ≡ length hashes * 32
unfolding flatten
length-flatten [] h = omega arith
length-flatten (x ∷ xs) h = omega (arith, length-append x (flatten xs), h.0, length-flatten xs h.1)

pub map-IsHash :
    (b : Blake3) → IsStreaming b → (xs : List (List ℕ)) → All IsHash (map (blake3 b) xs)
map-IsHash b streaming [] = tt
map-IsHash b streaming (x ∷ xs) = (blake3-IsHash b streaming x, map-IsHash b streaming xs)

pub starts_within :
    (size k i : ℕ) → 0 < k → size + k ≤ u64_mod → i < chunk_count size k → i * k < size
unfolding chunk_count
starts_within size k i pos fits h = elim (Bool-cases (size == 0)) [
  | inl empty ↦ absurd (ground arith)
  | inr some_bytes ↦
      let m : ℕ = size + k - 1 in
      let sum : (size + k + u64_mod - 1) % u64_mod ≡ m = omega arith in
      let below : i < m / k = ground (arith, sum) in
      let whole : m / k * k ≤ m = omega (arith, div-add-mod' m k) in
      let next : suc i * k ≤ m / k * k = mul-le-mul_right k below in
      let unrolled : suc i * k ≡ i * k + k = omega arith in
      omega (arith, whole, next, unrolled, pos)
]
