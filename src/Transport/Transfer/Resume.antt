-- ===== src/Transport/Transfer/Resume.antt =====
-- Server::handle_session_ on the missing chunks of a file that a transfer that was cut off has left: what
-- the partial file holds.
pub mod Store
pub mod Start
pub mod Checks
pub mod Body
pub mod Rounds
pub mod Whole
pub mod Delivery
use native.Mathlib.Nat.{div-add-mod', mod-lt, mul-le-mul_right, div-lt_iff_lt-mul}
use ati_tcp_file_transfer.Base.{
  ℕ, suc, ◌+◌, ◌-◌, ◌*◌, ◌/◌, ◌%◌, ◌^◌, ◌<◌, ◌≤◌, ◌==◌, ltb, ltb→lt, ltb_false→le, le→ltb_false,
  lt→ltb, min, ◌≡◌, ◌≢◌, ◌⊎◌, inl, inr, refl, sym, ap, ◌∙◌, arith, if◌then◌else◌, Bool, true, false,
  Bool-cases, ==_iff, ==_false→ne,
}
use ati_tcp_file_transfer.Base.{
  List, [], ◌∷◌, ◌++◌, length, get_or, take, drop, length-take, length-drop,
}
use ati_tcp_file_transfer.Io.Files.Overwrite.{get_or-take, get_or-drop}
use ati_tcp_file_transfer.Io.ResumeState.{ResumeState, is_set, mark_received}
use ati_tcp_file_transfer.Io.ResumeState.Laws.{IsValid, is_set-mark_received}
use ati_tcp_file_transfer.Transport.Server.Honest.{slice}

-- The content has the size of the file, and its bytes in the chunks that are set.
pub record Holds (k : ℕ) (c : List ℕ) (state : ResumeState) (content : List ℕ) : Type 0 where
  pub size : length content ≡ length c
  pub agrees :
      (j : ℕ) → j < length c → is_set state (j / k) ≡ true → get_or content j 0 ≡ get_or c j 0

pub same_bytes :
    (xs ys : List ℕ)
    → length xs ≡ length ys
    → ((j : ℕ) → j < length ys → get_or xs j 0 ≡ get_or ys j 0)
    → xs ≡ ys
same_bytes [] [] size h = refl
same_bytes [] (y ∷ ys) size h = absurd (omega (arith, size))
same_bytes (x ∷ xs) [] size h = absurd (omega (arith, size))
same_bytes (x ∷ xs) (y ∷ ys) size h =
    let first : x ≡ y = h 0 (omega arith) in
    rw first (
      ap (λ t. y ∷ t)
        (same_bytes xs ys (omega (arith, size)) (λ j below. h (suc j) (omega (arith, below)))))

-- The bytes of a chunk, and those of the others.
within_chunk : (j k : ℕ) → 0 < k → (j / k * k ≤ j) × (j < j / k * k + k)
within_chunk j k pos =
    (omega (arith, div-add-mod' j k), omega (arith, div-add-mod' j k, mod-lt j pos))

outside_chunk : (i j k : ℕ) → 0 < k → (j / k == i) ≡ false → (j < i * k) ⊎ (i * k + k ≤ j)
outside_chunk i j k pos other =
    let (from, until) = within_chunk j k pos in
    let differ = ==_false→ne (j / k) i other in
    elim (Bool-cases (ltb (j / k) i)) [
      | inl below ↦
          let least : j / k < i = ltb→lt (j / k) i below in
          inl (omega (arith, until, mul-le-mul_right {m = suc (j / k)} {n = i} k least))
      | inr above ↦
          let most : suc i ≤ j / k = omega (arith, ltb_false→le (j / k) i above, differ) in
          inr (omega (arith, from, mul-le-mul_right {m = suc i} {n = j / k} k most))
    ]

pub below_count : (j k n : ℕ) → 0 < k → j < n * k → j / k < n
below_count j k n pos h = (div-lt_iff_lt-mul pos).1 h

pub Holds-stored :
    (k : ℕ) (c content content' : List ℕ) (state : ResumeState) (i : ℕ)
    → 0 < k
    → IsValid state
    → i < state.chunk_count
    → length content' ≡ length content
    → ((j : ℕ)
        → get_or content' j 0 ≡ (
            if ltb j (i * k)
            then get_or content j 0
            else if ltb j (i * k + length (slice k c i))
            then get_or (slice k c i) (j - i * k) 0
            else get_or content j 0))
    → Holds k c state content
    → Holds k c (mark_received state i) content'
Holds-stored k c content content' state i pos v h size bytes before = record {
  size = size ∙ before.size;
  agrees = λ j below set_now. elim (Bool-cases (j / k == i)) [
    | inl here ↦ inside j below ((==_iff (j / k) i).0 here)
    | inr other ↦
        let set_before : is_set state (j / k) ≡ true =
          sym (is_set-mark_received state (j / k) i v h ∙ rw other refl) ∙ set_now in
        outside j other ∙ before.agrees j below set_before
  ];
}
  where
    size_of : length (slice k c i) ≡ min k (length c - i * k)
    size_of = length-take k (drop (i * k) c) ∙ ap (min k) (length-drop (i * k) c)

    inside : (j : ℕ) → j < length c → j / k ≡ i → get_or content' j 0 ≡ get_or c j 0
    inside j below here =
        let (from, until) = within_chunk j k pos in
        let same : j / k * k ≡ i * k = ap (λ (x : ℕ). x * k) here in
        let lower : i * k ≤ j = omega (arith, from, same) in
        let upper : j < i * k + length (slice k c i) = omega (arith, until, same, below, size_of) in
        let back : i * k + (j - i * k) ≡ j = omega (arith, lower) in
        bytes j
        ∙ rw (le→ltb_false j (i * k) lower, lt→ltb j (i * k + length (slice k c i)) upper)
            (get_or-take k (drop (i * k) c) (j - i * k) (omega (arith, upper, size_of, lower))
              ∙ get_or-drop (i * k) c (j - i * k)
              ∙ ap (λ (x : ℕ). get_or c x 0) back)

    outside : (j : ℕ) → (j / k == i) ≡ false → get_or content' j 0 ≡ get_or content j 0
    outside j other = elim (outside_chunk i j k pos other) [
      | inl low ↦ bytes j ∙ rw (lt→ltb j (i * k) low) refl
      | inr high ↦
          bytes j
          ∙ rw
              (
                le→ltb_false j (i * k) (omega (arith, high)),
                le→ltb_false j (i * k + length (slice k c i)) (omega (arith, high, size_of)),
              )
              refl
    ]
