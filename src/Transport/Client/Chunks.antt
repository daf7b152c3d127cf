-- ===== src/Transport/Client/Chunks.antt =====
-- The chunks that the sender hashes make up its file.
use mathlib.Core.List.{flatten, foldl}
use native.Mathlib.Nat.{div-add-mod', mod-lt}
use ati_tcp_file_transfer.Base.{
  ℕ, zero, suc, ◌+◌, ◌-◌, ◌*◌, ◌/◌, ◌%◌, ◌<◌, ◌≤◌, ◌≡◌, refl, sym, ap, ◌∙◌, arith,
}
use ati_tcp_file_transfer.Base.{◌==◌, Bool-cases, inl, inr}
use ati_tcp_file_transfer.Base.{Option, some, List, [], ◌∷◌, ◌++◌, map, length, take, drop}
use ati_tcp_file_transfer.Base.{take-append-drop, drop-drop}
use ati_tcp_file_transfer.Util.Byteorder.{u32_mod, u64_mod}
use ati_tcp_file_transfer.Proto.Cursor.{Hash}
use ati_tcp_file_transfer.Io.FileSource.{FileSource}
use ati_tcp_file_transfer.Io.FileSource.Laws.{read_at_sound, read_at_source}
use ati_tcp_file_transfer.Util.Blake3.{IsStreaming, blake3, new_hasher, update, finalize}
use ati_tcp_file_transfer.Util.Blake3.Streaming.{finalize-update}
use ati_tcp_file_transfer.Io.FileSource.{SourceError}
use ati_tcp_file_transfer.Transport.Session.{Session, Result, ok, err}
use ati_tcp_file_transfer.Transport.Session.Rules.{
  Ends, Runs, Runs-pure, Runs-or_stop, Runs-on_files, Runs-bind, Runs-bind_known,
}
use ati_tcp_file_transfer.Transport.Client.{
  Client, SendError, chunk_count, read_chunk, hash_pass, hash_pass_failed,
}

-- The chunks of a file from the `i`-th on, `n` of them.
unfoldable pub slices : ℕ → List ℕ → ℕ → ℕ → List (List ℕ)
slices chunk_size c zero i = []
slices chunk_size c (suc n) i =
    take chunk_size (drop (i * chunk_size) c) ∷ slices chunk_size c n (i + 1)

drop_all : (n : ℕ) (xs : List ℕ) → length xs ≤ n → drop n xs ≡ []
drop_all zero [] h = refl
drop_all zero (x ∷ xs) h = absurd (omega arith)
drop_all (suc n) [] h = refl
drop_all (suc n) (x ∷ xs) h = drop_all n xs (omega arith)

pub flatten-slices :
    (k : ℕ) (c : List ℕ) (n i : ℕ)
    → length c ≤ i * k + n * k
    → flatten (slices k c n i) ≡ drop (i * k) c
unfolding slices flatten
flatten-slices k c zero i h = sym (drop_all (i * k) c (omega arith))
flatten-slices k c (suc n) i h =
    let next : (i + 1) * k ≡ i * k + k = omega arith in
    let ih : flatten (slices k c n (i + 1)) ≡ drop ((i + 1) * k) c =
      flatten-slices k c n (i + 1) (omega (arith, next, h)) in
    ap (λ t. take k (drop (i * k) c) ++ t)
      (ih ∙ ap (λ (m : ℕ). drop m c) next ∙ sym (drop-drop k (i * k) c))
    ∙ take-append-drop k (drop (i * k) c)

module _ (client : Client) (src : FileSource) (c : List ℕ) where
  -- The file is there, and is not changed.
  abbrev There : Session → Type 0
  There s = s.files.contents src.path ≡ some c

  abbrev Any : SendError → Session → Type 0
  Any e s = Unit {0}

  abbrev chunk_at : ℕ → List ℕ
  chunk_at i = take client.chunk_size (drop (i * client.chunk_size) c)

  pub read_chunk-Runs :
      (reason : SourceError → SendError) (i : ℕ)
      → src.size ≡ length c
      → Runs There (read_chunk client reason src i) (λ r s. (r ≡ (chunk_at i, src)) × There s) Any
  unfolding read_chunk
  read_chunk-Runs reason i sized =
      Runs-bind There (λ r s. (r ≡ (chunk_at i, src)) × There s) Any
        (λ (r : Option (List ℕ) × FileSource) s.
          (bytes : List ℕ) → r.0 ≡ some bytes → (bytes ≡ chunk_at i) × ((r.1 ≡ src) × There s))
        _ _
        (Runs-on_files There _ Any _ (λ s there bytes got.
          let sound =
            read_at_sound src s.files (i * client.chunk_size) client.chunk_size c bytes there sized
              got in
          (
            sound.0,
            (
              read_at_source src s.files (i * client.chunk_size) client.chunk_size bytes got,
              ap (λ f. f src.path) sound.1 ∙ there,
            ),
          )))
        λ (got, src').
          Runs-bind _ (λ r s. (r ≡ (chunk_at i, src)) × There s) Any
            (λ bytes s. (bytes ≡ chunk_at i) × ((src' ≡ src) × There s)) _ _
            (Runs-or_stop _ (λ bytes s. (bytes ≡ chunk_at i) × ((src' ≡ src) × There s)) Any got _
              (λ bytes e s k. k bytes e) (λ s k. tt))
            λ bytes.
              Runs-pure _ (λ r s. (r ≡ (chunk_at i, src)) × There s) Any _
                (λ s (taken, (same, there)). (ground arith, there))

pub length-slices : (k : ℕ) (c : List ℕ) (n i : ℕ) → length (slices k c n i) ≡ n
unfolding slices
length-slices k c zero i = refl
length-slices k c (suc n) i = ap suc (length-slices k c n (i + 1)) ∙ omega arith

-- The count covers the file.
pub enough_chunks :
    (size k : ℕ)
    → 0 < k
    → size + k ≤ u64_mod
    → (size + k - 1) / k < u32_mod
    → size ≤ chunk_count size k * k
unfolding chunk_count
enough_chunks size k pos fits narrow = elim (Bool-cases (size == 0)) [
  | inl empty ↦ ground arith
  | inr some_bytes ↦
      let m : ℕ = size + k - 1 in
      let sum : (size + k + u64_mod - 1) % u64_mod ≡ m = omega arith in
      let quotient : m / k % u32_mod ≡ m / k = omega (arith, narrow) in
      rw (some_bytes, sum, quotient) (omega (arith, div-add-mod' m k, mod-lt m pos))
]

-- The pass that succeeds has hashed the slices of the file, in order.
hash_pass-Runs :
    (client : Client) (src : FileSource) (c : List ℕ) (n i : ℕ) (hasher : client.hash.Hasher)
    → src.size ≡ length c
    → Runs
        (There client src c)
        (hash_pass client src n i hasher)
        (λ r s.
          (r ≡ (
            map (blake3 client.hash) (slices client.chunk_size c n i),
            foldl (update client.hash) hasher (slices client.chunk_size c n i),
            src,
          ))
          × There client src c s)
        (Any client src c)
unfolding hash_pass slices
hash_pass-Runs client src c zero i hasher sized =
    Runs-pure (There client src c) _ (Any client src c) _ (λ s there. (refl, there))
hash_pass-Runs client src c (suc n) i hasher sized =
    Runs-bind_known (There client src c) (There client src c) _ (Any client src c)
      (chunk_at client src c i, src) _ _ (read_chunk-Runs client src c hash_pass_failed i sized)
      (Runs-bind_known (There client src c) (There client src c) _ (Any client src c) _ _ _
        (hash_pass-Runs client src c n (i + 1) (update client.hash hasher (chunk_at client src c i))
          sized)
        (Runs-pure (There client src c) _ (Any client src c) _ (λ s there. (refl, there))))

ok_ends :
    {A : Type 0} (Q : A → Session → Type 0) (r : Result SendError A) (s : Session) (a : A)
    → Ends Q (λ _ _. Unit {0}) r s
    → r ≡ ok a
    → Q a s
ok_ends Q (ok b) s a h e = ground arith
ok_ends Q (err b) s a h e = absurd (ground arith)

-- If the source's size is that of its file, the chunk size is not 0, neither the sum nor the quotient
-- of the chunk count leaves its type, and the hash library hashes a stream as it hashes the whole,
-- then a first pass that succeeds gives the hashes, in order, of as many chunks as the count says,
-- which make up the file, and a hasher whose hash is that of the file; it keeps the source and its
-- file.
pub hash_pass_file :
    (client : Client) (src : FileSource) (s : Session) (c : List ℕ)
    (r : List Hash × client.hash.Hasher × FileSource)
    → s.files.contents src.path ≡ some c
    → src.size ≡ length c
    → 0 < client.chunk_size
    → length c + client.chunk_size ≤ u64_mod
    → (length c + client.chunk_size - 1) / client.chunk_size < u32_mod
    → IsStreaming client.hash
    → (hash_pass client src (chunk_count src.size client.chunk_size) 0 (new_hasher client.hash) s).0
      ≡ ok r
    → (chunks : List (List ℕ)) × (flatten chunks ≡ c)
      × (length chunks ≡ chunk_count src.size client.chunk_size)
      × (r.0 ≡ map (blake3 client.hash) chunks)
      × (finalize client.hash r.1 ≡ blake3 client.hash c)
      × (r.2 ≡ src)
hash_pass_file client src s c r there sized pos fits narrow streaming e =
    let k = client.chunk_size in
    let n = chunk_count src.size k in
    let enough : length c ≤ n * k = rw sized (enough_chunks (length c) k pos fits narrow) in
    let start : 0 * k ≡ 0 = omega arith in
    let whole = flatten-slices k c n 0 (omega (arith, enough)) ∙ ap (λ (m : ℕ). drop m c) start in
    let (same, there') =
      ok_ends _ _ _ r ((hash_pass-Runs client src c n 0 (new_hasher client.hash) sized).at s there)
        e in
    (
      slices k c n 0,
      whole,
      length-slices k c n 0,
      ap (λ q. q.0) same,
      ap (λ q. finalize client.hash q.1) same
          ∙ finalize-update client.hash streaming (slices k c n 0)
          ∙ ap (blake3 client.hash) whole,
      ap (λ q. q.2) same,
    )
