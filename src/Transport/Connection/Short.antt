-- ===== src/Transport/Connection/Short.antt =====
-- A connection whose incoming bytes end within a frame.
use ati_tcp_file_transfer.Base.{
  ℕ, ◌+◌, ◌-◌, ◌%◌, ◌<◌, ◌≤◌, ltb, ◌≡◌, refl, ap, ◌∙◌, arith, none, Bool-cases, inl, inr,
  ltb_false→le,
}
use ati_tcp_file_transfer.Base.{
  List, [], ◌∷◌, ◌++◌, length, take, length-take, length-append, take-append, drop-append, zero,
  suc,
}
use ati_tcp_file_transfer.Util.Byteorder.{u32_mod}
use ati_tcp_file_transfer.Proto.Types.{FrameType, k_header_size, k_default_max_payload}
use ati_tcp_file_transfer.Proto.Frame.{FrameHeader, encode_to}
use ati_tcp_file_transfer.Proto.Frame.Header.{length-encode_to, decode_from-encode_to}
use ati_tcp_file_transfer.Transport.Connection.{Connection, recv_frame, recv_payload}

-- A prefix of two lists that goes past the first.
pub take-append_past :
    (n : ℕ) (xs ys : List ℕ) → length xs ≤ n → take n (xs ++ ys) ≡ xs ++ take (n - length xs) ys
take-append_past n [] ys h = ap (λ (m : ℕ). take m ys) (omega arith)
take-append_past zero (x ∷ xs) ys h = absurd (omega (arith, h))
take-append_past (suc n) (x ∷ xs) ys h =
    ap (λ t. x ∷ t)
      (take-append_past n xs ys (omega (arith, h))
        ∙ ap (λ (m : ℕ). xs ++ take m ys)
            (let e : n - length xs ≡ suc n - suc (length xs) = omega arith in e))

-- If the incoming bytes are a proper prefix of a frame within the limit, none is received.
pub recv_frame_short :
    (c : Connection) (m j : ℕ) (t : FrameType) (p : List ℕ)
    → length p ≤ m
    → m ≤ k_default_max_payload
    → c.incoming ≡ take j (encode_to (record { payload_len = length p % u32_mod; type = t }) ++ p)
    → j < length (encode_to (record { payload_len = length p % u32_mod; type = t }) ++ p)
    → (recv_frame c m).1 ≡ none
unfolding recv_frame recv_payload
recv_frame_short c m j t p within room arrives short =
    let h : FrameHeader = record { payload_len = length p % u32_mod; type = t } in
    let size : length (encode_to h ++ p) ≡ length (encode_to h) + length p =
      length-append (encode_to h) p in
    let incoming : length c.incoming ≡ j =
      ap length arrives ∙ length-take j (encode_to h ++ p) ∙ (omega (arith, short)) in
    elim (Bool-cases (ltb (length c.incoming) k_header_size)) [
      | inl in_header ↦ rw in_header refl
      | inr behind ↦
          let past : length (encode_to h) ≤ j =
            omega (arith, ltb_false→le _ _ behind, incoming, length-encode_to h) in
          let front : c.incoming ≡ encode_to h ++ take (j - length (encode_to h)) p =
            arrives ∙ take-append_past j (encode_to h) p past in
          let rest = take (j - length (encode_to h)) p in
          ground (
            arith,
            front,
            length-encode_to h,
            take-append k_header_size (encode_to h) rest (length-encode_to h),
            drop-append k_header_size (encode_to h) rest (length-encode_to h),
            decode_from-encode_to h m (omega arith),
            length-take (j - length (encode_to h)) p,
            size,
          )
    ]
