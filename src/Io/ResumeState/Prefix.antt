-- ===== src/Io/ResumeState/Prefix.antt =====
-- What src/lib/io/resume_state.cpp loads from the first bytes of a file is what it loads from the file.
use ati_tcp_file_transfer.Base.{
  ℕ, ◌≡◌, ap, ◌∙◌, ◌==◌, ==_iff, bytes_eq, bytes_eq→eq, some, List, [], ◌∷◌, ◌++◌, append_assoc,
  get_or,
}
use ati_tcp_file_transfer.Io.ResumeState.{
  ResumeState, bitmap_bytes, k_magic, k_version, read_le_u32, read_exactly, deserialize,
}
use ati_tcp_file_transfer.Io.ResumeState.Format.{
  Gives, Gives-read, Gives-test, Gives-some, one_byte, deserialize_fields,
}

-- A state that is deserialized from some bytes is deserialized with any others behind them.
pub deserialize-append :
    (file more : List ℕ) (s : ResumeState)
    → deserialize file ≡ some s
    → deserialize (file ++ more) ≡ some s
unfolding deserialize
deserialize-append file more s e = loaded.at s e
  where
    Q : ResumeState → Type 0
    Q s = deserialize (file ++ more) ≡ some s

    loaded : Gives (deserialize file) Q
    loaded = Gives-read Q 4 file _ λ magic s₁ e₁ n₁.
        Gives-test Q (bytes_eq magic k_magic) (read_exactly 1 s₁) _ λ is_magic.
          Gives-read Q 1 s₁ _ λ version s₂ e₂ n₂.
            Gives-test Q (get_or version 0 0 == k_version) (read_exactly 32 s₂) _ λ is_version.
              Gives-read Q 32 s₂ _ λ id s₃ e₃ n₃. Gives-read Q 4 s₃ _ λ cc_bytes s₄ e₄ n₄.
                Gives-read Q (bitmap_bytes (read_le_u32 cc_bytes)) s₄ _ λ bitmap s₅ e₅ n₅.
                  let whole : file
                      ≡ k_magic ++ ((k_version ∷ []) ++ (id ++ (cc_bytes ++ (bitmap ++ s₅)))) =
                    rw (
                      e₁,
                      bytes_eq→eq magic k_magic is_magic,
                      e₂,
                      one_byte version k_version n₂ ((==_iff _ _).0 is_version),
                      e₃,
                      e₄,
                      e₅,
                    ) in
                  let longer : file ++ more
                      ≡ k_magic
                        ++ ((k_version ∷ []) ++ (id ++ (cc_bytes ++ (bitmap ++ (s₅ ++ more))))) =
                    ap (λ xs. xs ++ more) whole ∙ simp append_assoc in
                  Gives-some Q _ (
                    ap deserialize longer
                    ∙ deserialize_fields id cc_bytes bitmap (s₅ ++ more) n₃ n₄ n₅)
