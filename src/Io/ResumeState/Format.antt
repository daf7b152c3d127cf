-- ===== src/Io/ResumeState/Format.antt =====
-- The file format of the resume state: what `save` writes is what `load` reads back, and nothing
-- else is read as that state.
use mathlib.Core.Option.{some-injective}
use ati_tcp_file_transfer.Base.{
  ℕ, ◌+◌, ◌*◌, ◌/◌, ◌%◌, ◌^◌, ◌<◌, ◌≤◌, ◌≡◌, refl, sym, ap, ◌∙◌, arith,
}
use ati_tcp_file_transfer.Base.{
  ◌==◌, ==_iff, if◌then◌else◌, Bool, true, false, not, Option, none, some,
}
use ati_tcp_file_transfer.Base.{
  le→ltb_false, bytes_eq, bytes_eq_self, bytes_eq→eq, inl, inr, Option-cases,
}
use ati_tcp_file_transfer.Base.{
  bit_or, List, [], ◌∷◌, ◌++◌, length, get_or, take, drop, length-append, append_assoc,
}
use ati_tcp_file_transfer.Base.{
  take-append, drop-append, take-append-drop, length-take, All, All-append_parts,
}
use ati_tcp_file_transfer.Base.Bits.{bit_or_disjoint, bit_or_comm}
use ati_tcp_file_transfer.Util.Byteorder.{IsByte, u32_mod}
use ati_tcp_file_transfer.Io.ResumeState.{
  ResumeState, bitmap_bytes, k_magic, k_version, write_le_u32, read_le_u32, serialize, read_exactly,
  deserialize, ◌>>=◌,
}
use ati_tcp_file_transfer.Io.ResumeState.Laws.{IsValid}

read_le_u32-bytes :
    (a b c d : ℕ)
    → IsByte a
    → IsByte b
    → IsByte c
    → read_le_u32 (a ∷ b ∷ c ∷ d ∷ []) ≡ ((d * 256 + c) * 256 + b) * 256 + a
unfolding read_le_u32
read_le_u32-bytes a b c d ha hb hc =
    let e₁ : bit_or a (b * 2 ^ 8) ≡ b * 2 ^ 8 + a =
      bit_or_comm a (b * 2 ^ 8) ∙ bit_or_disjoint 8 b a ha in
    let e₂ : bit_or (b * 2 ^ 8 + a) (c * 2 ^ 16) ≡ c * 2 ^ 16 + (b * 2 ^ 8 + a) =
      bit_or_comm (b * 2 ^ 8 + a) (c * 2 ^ 16)
      ∙ bit_or_disjoint 16 c (b * 2 ^ 8 + a) (omega arith) in
    let e₃ : bit_or (c * 2 ^ 16 + (b * 2 ^ 8 + a)) (d * 2 ^ 24)
        ≡ d * 2 ^ 24 + (c * 2 ^ 16 + (b * 2 ^ 8 + a)) =
      bit_or_comm (c * 2 ^ 16 + (b * 2 ^ 8 + a)) (d * 2 ^ 24)
      ∙ bit_or_disjoint 24 d (c * 2 ^ 16 + (b * 2 ^ 8 + a)) (omega arith) in
    rw (e₁, e₂, e₃) (omega arith)

read_le_u32-write_le_u32 : (v : ℕ) → v < u32_mod → read_le_u32 (write_le_u32 v) ≡ v
unfolding write_le_u32
read_le_u32-write_le_u32 v h = omega (
  arith,
  read_le_u32-bytes (v % 256) (v / 2 ^ 8 % 256) (v / 2 ^ 16 % 256) (v / 2 ^ 24 % 256) (omega arith)
      (omega arith) (omega arith),
)

write_le_u32-read_le_u32 :
    (s : List ℕ) → length s ≡ 4 → All IsByte s → write_le_u32 (read_le_u32 s) ≡ s
unfolding write_le_u32
write_le_u32-read_le_u32 [] n h = absurd (omega arith)
write_le_u32-read_le_u32 (a ∷ []) n h = absurd (omega arith)
write_le_u32-read_le_u32 (a ∷ b ∷ []) n h = absurd (omega arith)
write_le_u32-read_le_u32 (a ∷ b ∷ c ∷ []) n h = absurd (omega arith)
write_le_u32-read_le_u32 (a ∷ b ∷ c ∷ d ∷ []) n h =
    rw (read_le_u32-bytes a b c d (omega arith) (omega arith) (omega arith)) (ground arith)
write_le_u32-read_le_u32 (a ∷ b ∷ c ∷ d ∷ e ∷ s) n h = absurd (omega arith)

length-write_le_u32 : (v : ℕ) → length (write_le_u32 v) ≡ 4
unfolding write_le_u32
length-write_le_u32 v = refl

read_exactly-append :
    (n : ℕ) (xs rest : List ℕ) → length xs ≡ n → read_exactly n (xs ++ rest) ≡ some (xs, rest)
unfolding read_exactly
read_exactly-append n xs rest e = rw (
  le→ltb_false (length (xs ++ rest)) n (omega (arith, length-append xs rest)),
  take-append n xs rest e,
  drop-append n xs rest e,
)

-- The reads of `load` on the five fields.
pub deserialize_fields :
    (id cc bitmap trailing : List ℕ)
    → length id ≡ 32
    → length cc ≡ 4
    → length bitmap ≡ bitmap_bytes (read_le_u32 cc)
    → deserialize (k_magic ++ ((k_version ∷ []) ++ (id ++ (cc ++ (bitmap ++ trailing)))))
      ≡ some (record { manifest_id = id; chunk_count = read_le_u32 cc; bitmap = bitmap })
unfolding deserialize
deserialize_fields id cc bitmap trailing n₁ n₂ n₃ = rw (
  read_exactly-append 4 k_magic _ refl,
  bytes_eq_self k_magic,
  read_exactly-append 1 (k_version ∷ []) _ refl,
  read_exactly-append 32 id (cc ++ (bitmap ++ trailing)) n₁,
  read_exactly-append 4 cc (bitmap ++ trailing) n₂,
  read_exactly-append (bitmap_bytes (read_le_u32 cc)) bitmap trailing n₃,
)

serialize_fields :
    (s : ResumeState) (trailing : List ℕ)
    → serialize s ++ trailing
      ≡ k_magic
        ++ ((k_version ∷ [])
            ++ (s.manifest_id ++ (write_le_u32 s.chunk_count ++ (s.bitmap ++ trailing))))
unfolding serialize
serialize_fields s trailing = simp append_assoc

-- A valid state that was serialized is deserialized, whatever stands behind it in the file.
pub deserialize-serialize :
    (s : ResumeState) (trailing : List ℕ)
    → IsValid s
    → deserialize (serialize s ++ trailing) ≡ some s
deserialize-serialize s trailing v =
    let count : read_le_u32 (write_le_u32 s.chunk_count) ≡ s.chunk_count =
      read_le_u32-write_le_u32 s.chunk_count (omega (arith, v.no_wrap)) in
    ap deserialize (serialize_fields s trailing)
    ∙ deserialize_fields s.manifest_id (write_le_u32 s.chunk_count) s.bitmap trailing v.id_size
        (length-write_le_u32 s.chunk_count)
        (rw count (v.covers ∙ unfold bitmap_bytes in omega (arith, v.no_wrap)))
    ∙ rw count

pub record LoadedFrom (file : List ℕ) (s : ResumeState) : Type 0 where
  pub trailing : List ℕ
  pub whole : file ≡ serialize s ++ trailing
  pub id_size : length s.manifest_id ≡ 32
  pub covers : length s.bitmap ≡ bitmap_bytes s.chunk_count

read_exactly-inv :
    (n : ℕ) (s xs rest : List ℕ)
    → read_exactly n s ≡ some (xs, rest)
    → (s ≡ xs ++ rest) × (length xs ≡ n)
unfolding read_exactly
read_exactly-inv n s xs rest e = (
  sym (take-append-drop n s) ∙ rw (sym facts.1, sym facts.2),
  omega (arith, facts.0, length-take n s, ap length facts.1),
)
  where
    facts : (n ≤ length s) × (xs ≡ take n s) × (rest ≡ drop n s)
    facts = ground arith

-- If `m` is a state, `Q` holds of it.
pub record Gives (m : Option ResumeState) (Q : ResumeState → Type 0) : Type 0 where
  pub at : (s : ResumeState) → m ≡ some s → Q s

module _ (Q : ResumeState → Type 0) where
  pub Gives-read :
      (n : ℕ) (s : List ℕ) (f : List ℕ × List ℕ → Option ResumeState)
      → ((xs rest : List ℕ) → s ≡ xs ++ rest → length xs ≡ n → Gives (f (xs, rest)) Q)
      → Gives (read_exactly n s >>= f) Q
  Gives-read n s f next = record {
    at = λ r e. elim (Option-cases (read_exactly n s)) [
      | inl short ↦ absurd (cc (e, ap (λ (m : Option (List ℕ × List ℕ)). m >>= f) short))
      | inr ((xs, rest), ok) ↦
          let (split, size) = read_exactly-inv n s xs rest ok in
          (next xs rest split size).at r (ap (λ m. m >>= f) (sym ok) ∙ e)
    ];
  }

  pub Gives-test :
      (b : Bool) (m : Option (List ℕ × List ℕ)) (f : List ℕ × List ℕ → Option ResumeState)
      → (b ≡ true → Gives (m >>= f) Q)
      → Gives ((if not b then none else m) >>= f) Q
  Gives-test true m f next = next refl
  Gives-test false m f next = record { at = λ r e. cc }

  pub Gives-some : (s : ResumeState) → Q s → Gives (some s) Q
  Gives-some s q = record { at = λ r e. let same : s ≡ r = some-injective _ _ e in rw (← same) q }

-- The version byte is the one that is expected.
pub one_byte : (xs : List ℕ) (v : ℕ) → length xs ≡ 1 → get_or xs 0 0 ≡ v → xs ≡ v ∷ []
one_byte [] v n e = absurd (omega arith)
one_byte (x ∷ []) v n e = rw e
one_byte (x ∷ y ∷ xs) v n e = absurd (omega arith)

-- A file of bytes that is deserialized begins with exactly what serializing the state gives, and the
-- state has an identifier of 32 bytes and a bitmap of the size that is computed from its count.
pub deserialize_sound :
    (file : List ℕ) (s : ResumeState)
    → All IsByte file
    → deserialize file ≡ some s
    → LoadedFrom file s
unfolding deserialize
deserialize_sound file s h e = loaded.at s e
  where
    Q : ResumeState → Type 0
    Q = LoadedFrom file

    loaded : Gives (deserialize file) Q
    loaded = Gives-read Q 4 file _ λ magic s₁ e₁ n₁.
        Gives-test Q (bytes_eq magic k_magic) (read_exactly 1 s₁) _ λ is_magic.
          Gives-read Q 1 s₁ _ λ version s₂ e₂ n₂.
            Gives-test Q (get_or version 0 0 == k_version) (read_exactly 32 s₂) _ λ is_version.
              Gives-read Q 32 s₂ _ λ id s₃ e₃ n₃. Gives-read Q 4 s₃ _ λ cc_bytes s₄ e₄ n₄.
                Gives-read Q (bitmap_bytes (read_le_u32 cc_bytes)) s₄ _ λ bitmap s₅ e₅ n₅.
                  let b₁ = (All-append_parts IsByte magic s₁ (rw e₁ at h)).1 in
                  let b₂ = (All-append_parts IsByte version s₂ (rw e₂ at b₁)).1 in
                  let b₃ = (All-append_parts IsByte id s₃ (rw e₃ at b₂)).1 in
                  let b₄ = (All-append_parts IsByte cc_bytes s₄ (rw e₄ at b₃)).0 in
                  let whole : file
                      ≡ k_magic ++ ((k_version ∷ []) ++ (id ++ (cc_bytes ++ (bitmap ++ s₅)))) =
                    rw (
                      e₁,
                      bytes_eq→eq magic k_magic is_magic,
                      e₂,
                      one_byte version k_version n₂ ((==_iff _ _).0 is_version),
                      e₃,
                      e₄,
                      e₅,
                    ) in
                  Gives-some Q _ (record {
                    trailing = s₅;
                    whole =
                        whole
                        ∙ sym
                            (serialize_fields _ s₅ ∙ rw (write_le_u32-read_le_u32 cc_bytes n₄ b₄));
                    id_size = n₃;
                    covers = n₅;
                  })
