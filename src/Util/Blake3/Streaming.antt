-- ===== src/Util/Blake3/Streaming.antt =====
-- The hasher of src/lib/util/blake3.cpp against its one-shot hash.
use mathlib.Core.List.{flatten, foldl}
use ati_tcp_file_transfer.Base.{ℕ, ◌≡◌, refl, sym, ap, ◌∙◌, List, [], ◌∷◌, ◌++◌}
use ati_tcp_file_transfer.Util.Blake3.{
  Blake3, IsStreaming, update_unless_empty, blake3, new_hasher, update, finalize,
}

-- The pieces that the wrapper hands on.
with_bytes : List (List ℕ) → List (List ℕ)
with_bytes [] = []
with_bytes ([] ∷ pieces) = with_bytes pieces
with_bytes ((x ∷ bytes) ∷ pieces) = (x ∷ bytes) ∷ with_bytes pieces

flatten-with_bytes : (pieces : List (List ℕ)) → flatten (with_bytes pieces) ≡ flatten pieces
unfolding flatten with_bytes
flatten-with_bytes [] = refl
flatten-with_bytes ([] ∷ pieces) = flatten-with_bytes pieces
flatten-with_bytes ((x ∷ bytes) ∷ pieces) = ap (λ t. (x ∷ bytes) ++ t) (flatten-with_bytes pieces)

foldl-with_bytes :
    (b : Blake3) (h : b.Hasher) (pieces : List (List ℕ))
    → foldl (update b) h pieces ≡ foldl b.update h (with_bytes pieces)
unfolding with_bytes update update_unless_empty
foldl-with_bytes b h [] = refl
foldl-with_bytes b h ([] ∷ pieces) = foldl-with_bytes b h pieces
foldl-with_bytes b h ((x ∷ bytes) ∷ pieces) = foldl-with_bytes b (b.update h (x ∷ bytes)) pieces

blake3-update :
    (b : Blake3)
    → IsStreaming b
    → (bytes : List ℕ) → blake3 b bytes ≡ b.finalize (b.update b.init bytes)
unfolding blake3 update_unless_empty
blake3-update b streaming [] = sym (streaming.empty_update b.init)
blake3-update b streaming (x ∷ bytes) = refl

-- Where the library hashes a stream of pieces as it hashes the whole, a hasher that is updated with
-- the pieces of some bytes, empty ones among them, gives the one-shot hash of the bytes.
pub finalize-update :
    (b : Blake3)
    → IsStreaming b
    → (pieces : List (List ℕ))
    → finalize b (foldl (update b) (new_hasher b) pieces) ≡ blake3 b (flatten pieces)
unfolding finalize
finalize-update b streaming pieces =
    ap b.finalize (foldl-with_bytes b b.init pieces)
    ∙ streaming.pieces (with_bytes pieces)
    ∙ ap (λ bytes. b.finalize (b.update b.init bytes)) (flatten-with_bytes pieces)
    ∙ sym (blake3-update b streaming (flatten pieces))
