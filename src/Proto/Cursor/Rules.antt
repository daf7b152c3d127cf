-- ===== src/Proto/Cursor/Rules.antt =====
-- Rules for the parsers: what a cursor that stands before given bytes does (`Moves`, `Fails`), and
-- what a successful take says of the bytes before the cursor (`take_as-inv`).
use ati_tcp_file_transfer.Base.{ℕ, ◌+◌, ◌≤◌, ◌<◌, ◌≡◌, refl, sym, ap, ◌∙◌, arith}
use ati_tcp_file_transfer.Base.{none, some}
use ati_tcp_file_transfer.Base.{List, ◌++◌, length, take, drop, Option-cases}
use ati_tcp_file_transfer.Base.{inl, inr, length-append, length-drop, length-take, take-append}
use ati_tcp_file_transfer.Base.{drop-append, drop-drop, take-append-drop, le→ltb_false, lt→ltb}
use ati_tcp_file_transfer.Proto.Cursor.{Cursor, Parser, ◌>>=◌, rest, take_as, run, cursor, pure}

-- The cursor is within the payload, and `s` stands before it.
abbrev pub Before : Cursor → List ℕ → Type 0
Before c s = (c.pos ≤ length c.payload) × (rest c ≡ s)

-- From any cursor with `s` before it, `p` returns `a` and leaves `s'`.
pub record Moves {A : Type 0} (p : Parser A) (s : List ℕ) (a : A) (s' : List ℕ) : Type 0 where
  pub at : (c : Cursor) → Before c s → (c' : Cursor) × (p c ≡ some (a, c')) × Before c' s'

pub record Fails {A : Type 0} (p : Parser A) (s : List ℕ) : Type 0 where
  pub at : (c : Cursor) → Before c s → p c ≡ none

module _ {A B : Type 0} (p : Parser A) (f : A → Parser B) where
  bind-some : (c : Cursor) {a : A} {c' : Cursor} → p c ≡ some (a, c') → ◌>>=◌ p f c ≡ f a c'
  bind-some c e = rw (◌>>=◌, e)

  bind-none : (c : Cursor) → p c ≡ none → ◌>>=◌ p f c ≡ none
  bind-none c e = rw (◌>>=◌, e)

  pub Moves-bind :
      {s s' s'' : List ℕ} {a : A} {b : B}
      → Moves p s a s'
      → Moves (f a) s' b s''
      → Moves (p >>= f) s b s''
  Moves-bind m n = record {
    at = λ c e.
        let (c', run_p, e') = m.at c e in
        let (c'', run_f, e'') = n.at c' e' in (c'', bind-some c run_p ∙ run_f, e'');
  }

  pub Fails-bind_left : {s : List ℕ} → Fails p s → Fails (p >>= f) s
  Fails-bind_left m = record { at = λ c e. rw (◌>>=◌, m.at c e) }

  pub Fails-bind_right :
      {s s' : List ℕ} {a : A} → Moves p s a s' → Fails (f a) s' → Fails (p >>= f) s
  Fails-bind_right m n = record {
    at = λ c e. let (c', run_p, e') = m.at c e in bind-some c run_p ∙ n.at c' e';
  }

  pub bind-inv :
      (c : Cursor) (r : B × Cursor)
      → ◌>>=◌ p f c ≡ some r
      → (a : A) × (c' : Cursor) × (p c ≡ some (a, c')) × (f a c' ≡ some r)
  bind-inv c r e = elim (Option-cases (p c)) [
    | inl stopped ↦ absurd (cc (e, bind-none c stopped))
    | inr ((a, c'), ran) ↦ (a, c', ran, sym (bind-some c ran) ∙ e)
  ]

pub Moves-pure : {A : Type 0} (a : A) (s : List ℕ) → Moves (pure a) s a s
Moves-pure a s = record { at = λ c e. (c, refl, e) }

pub Moves-run :
    {A : Type 0} (p : Parser A) {s : List ℕ} {a : A} {s' : List ℕ}
    → Moves p s a s'
    → run p s ≡ some a
Moves-run p {s} m = let (c', e, _) = m.at (cursor s) (omega arith, refl) in rw (run, e)

pub Fails-run : {A : Type 0} (p : Parser A) {s : List ℕ} → Fails p s → run p s ≡ none
Fails-run p {s} m = rw (run, m.at (cursor s) (omega arith, refl))

-- The bound check, in terms of the bytes before the cursor.
module _ {A : Type 0} (n : ℕ) (convert : List ℕ → A) where
  pub Moves-take_as :
      (xs s : List ℕ) → length xs ≡ n → Moves (take_as n convert) (xs ++ s) (convert xs) s
  unfolding take_as
  Moves-take_as xs s e = record {
    at = λ c r.
        let room : c.pos + n ≤ length c.payload =
          omega (arith, r.0, e, ap length r.1, length-append xs s, length-drop c.pos c.payload) in
        (
          record c { pos = c.pos + n },
          rw (le→ltb_false (length c.payload) (c.pos + n) room) (
              ap (λ t. some (convert t, record c { pos = c.pos + n }))
                (ap (take n) r.1 ∙ take-append n xs s e)),
          (room, sym (drop-drop n c.pos c.payload) ∙ ap (drop n) r.1 ∙ drop-append n xs s e),
        );
  }

  pub Fails-take_as : (s : List ℕ) → length s < n → Fails (take_as n convert) s
  unfolding take_as
  Fails-take_as s h = record {
    at = λ c r.
        let short : length c.payload < c.pos + n =
          omega (arith, h, r.0, ap length r.1, length-drop c.pos c.payload) in
        rw (lt→ltb (length c.payload) (c.pos + n) short);
  }

  -- A take that succeeds has split its bytes off what stood before the cursor.
  pub take_as-inv :
      (c : Cursor) (a : A) (c' : Cursor)
      → take_as n convert c ≡ some (a, c')
      → (xs : List ℕ) × (length xs ≡ n) × (a ≡ convert xs) × (rest c ≡ xs ++ rest c')
  unfolding take_as
  take_as-inv c a c' e = (
    take n (rest c),
    omega (arith, facts.0, length-take n (rest c), length-drop c.pos c.payload),
    facts.1,
    sym (take-append-drop n (rest c))
        ∙ ap (λ t. take n (rest c) ++ t)
            (drop-drop n c.pos c.payload ∙ ap (λ (k : Cursor). rest k) (sym facts.2)),
  )
    where
      facts :
          (c.pos + n ≤ length c.payload)
          × (a ≡ convert (take n (rest c)))
          × (c' ≡ record c { pos = c.pos + n })
      facts = ground arith
