-- ===== src/Transport/Server/Honest.antt =====
-- The manifest of a file, and how chunks that arrive in order build the file.
use ati_tcp_file_transfer.Base.{
  ℕ, zero, suc, ◌+◌, ◌*◌, ◌^◌, ◌<◌, ◌≤◌, ◌≡◌, refl, sym, ap, ◌∙◌, arith,
}
use ati_tcp_file_transfer.Base.{
  List, [], ◌∷◌, ◌++◌, append_assoc, length, get_or, take, drop, length-take, length-drop,
}
use ati_tcp_file_transfer.Util.Byteorder.{u32_mod}
use ati_tcp_file_transfer.Util.Blake3.{Blake3, blake3}
use ati_tcp_file_transfer.Proto.Messages.{ManifestMsg}
use ati_tcp_file_transfer.Io.Files.{overwrite}
use ati_tcp_file_transfer.Io.Files.Overwrite.{overwrite_within, length-overwrite}
use ati_tcp_file_transfer.Transport.Server.ReadBack.{take_whole, drop_whole}

-- The bytes of a chunk of a file.
abbrev pub slice : ℕ → List ℕ → ℕ → List ℕ
slice k c i = take k (drop (i * k) c)

-- The manifest is that of a file of fewer than 2 ^ 63 bytes, and covers it.
pub record IsManifestOf (b : Blake3) (c : List ℕ) (m : ManifestMsg) : Type 0 where
  pub size : m.file_size ≡ length c
  pub covered : length c ≤ m.chunk_count * m.chunk_size
  pub count : m.chunk_count < u32_mod
  pub fits : length c < 2 ^ 63
  pub hashes :
      (i : ℕ) → i < m.chunk_count → get_or m.chunk_hashes i [] ≡ blake3 b (slice m.chunk_size c i)
  pub root : m.root_hash ≡ blake3 b c

-- No other bytes have the hash of the file or of one of its chunks.
pub record IsBinding (b : Blake3) (c : List ℕ) (m : ManifestMsg) : Type 0 where
  pub chunk :
      (i : ℕ) (x : List ℕ)
      → i < m.chunk_count
      → blake3 b x ≡ blake3 b (slice m.chunk_size c i)
      → x ≡ slice m.chunk_size c i
  pub file : (x : List ℕ) → blake3 b x ≡ blake3 b c → x ≡ c

take_nil : (n : ℕ) → take {A = ℕ} n [] ≡ []
take_nil zero = refl
take_nil (suc n) = refl

take_add : (n k : ℕ) (c : List ℕ) → take n c ++ take k (drop n c) ≡ take (n + k) c
take_add zero k c = ap (λ (m : ℕ). take m c) (omega arith)
take_add (suc n) k [] = take_nil k ∙ sym (take_nil (suc n + k))
take_add (suc n) k (x ∷ c) =
    let next : suc n + k ≡ suc (n + k) = omega arith in rw next (ap (λ t. x ∷ t) (take_add n k c))

-- What stands behind a prefix is not taken, where it is there only if the prefix is whole-sized.
take-take_append :
    (n : ℕ) (c r : List ℕ) → (length c ≤ n → r ≡ []) → take n (take n c ++ r) ≡ take n c
take-take_append zero c r none_behind = refl
take-take_append (suc n) [] r none_behind = ap (take (suc n)) (none_behind (omega arith))
take-take_append (suc n) (x ∷ c) r none_behind =
    ap (λ t. x ∷ t) (take-take_append n c r (λ h. none_behind (omega (arith, h))))

-- The content has the size of the file, and agrees with it before the offset.
pub record Agrees (offset : ℕ) (w c : List ℕ) : Type 0 where
  pub size : length w ≡ length c
  pub prefix : take offset w ≡ take offset c

-- The next chunk, put behind what agrees.
pub Agrees-overwrite :
    (offset k : ℕ) (w c : List ℕ)
    → Agrees offset w c
    → offset + length (take k (drop offset c)) ≤ length c
    → Agrees (offset + k) (overwrite w offset (take k (drop offset c))) c
Agrees-overwrite offset k w c before within = record {
  size = length-overwrite w offset bytes (omega (arith, within, before.size)) ∙ before.size;
  prefix = ap (take (offset + k)) shape ∙ take-take_append (offset + k) c _ none_behind;
}
  where
    none_behind : length c ≤ offset + k → drop (offset + length (take k (drop offset c))) w ≡ []
    none_behind h =
        drop_whole _ w
          (omega (arith, h, before.size, length-take k (drop offset c), length-drop offset c))

    bytes : List ℕ
    bytes = take k (drop offset c)

    shape : overwrite w offset bytes ≡ take (offset + k) c ++ drop (offset + length bytes) w
    shape =
        overwrite_within w offset bytes (omega (arith, within, before.size))
        ∙ ap (λ t. t ++ (bytes ++ drop (offset + length bytes) w)) before.prefix
        ∙ sym (append_assoc (take offset c) bytes (drop (offset + length bytes) w))
        ∙ ap (λ t. t ++ drop (offset + length bytes) w) (take_add offset k c)

-- Content that agrees up to the end is the file.
pub Agrees-whole : (offset : ℕ) (w c : List ℕ) → Agrees offset w c → length c ≤ offset → w ≡ c
Agrees-whole offset w c a h =
    sym (take_whole offset w (omega (arith, h, a.size))) ∙ a.prefix ∙ take_whole offset c h
