-- ===== src/Proto/Cursor/Takes.antt =====
-- Each `take_…` against the append helper that wrote its bytes, in both directions.
use ati_tcp_file_transfer.Base.{ℕ, ◌-◌, ◌<◌, ◌≡◌, ◌≢◌, refl, sym, ap, ◌∙◌, arith}
use ati_tcp_file_transfer.Base.{some, List, [], ◌∷◌, ◌++◌}
use ati_tcp_file_transfer.Base.{length, get_or, All, All-append_parts, length-drop}
use ati_tcp_file_transfer.Base.{append_assoc, ne→==_false}
use ati_tcp_file_transfer.Util.Byteorder.{
  IsByte, u16_mod, u32_mod, u64_mod, write_be_u16, write_be_u32, write_be_u64, read_be_u16,
  read_be_u32, read_be_u64,
}
use ati_tcp_file_transfer.Util.Byteorder.RoundTrip.{
  read_be_u16-write_be_u16, read_be_u32-write_be_u32, read_be_u64-write_be_u64,
  write_be_u16-read_be_u16, write_be_u32-read_be_u32, write_be_u64-read_be_u64, read_be_u16-bound,
  read_be_u32-bound, read_be_u64-bound,
}
use ati_tcp_file_transfer.Proto.Cursor.{
  Cursor, rest, take_u8, take_u16, take_u32, take_u64, take_hash, take_string, at_end, Hash,
  k_hash_size,
}
use ati_tcp_file_transfer.Proto.Cursor.Rules.{Moves, Fails, Moves-take_as, take_as-inv}

pub take_u8-Moves : (v : ℕ) (s : List ℕ) → Moves take_u8 (v ∷ s) v s
unfolding take_u8
take_u8-Moves v s = Moves-take_as 1 (λ t. get_or t 0 0) (v ∷ []) s refl

pub take_u16-Moves : (v : ℕ) (s : List ℕ) → v < u16_mod → Moves take_u16 (write_be_u16 v ++ s) v s
unfolding take_u16
take_u16-Moves v s h =
    rw (read_be_u16-write_be_u16 v h) at
      (Moves-take_as 2 read_be_u16 (write_be_u16 v) s (unfold write_be_u16 in refl))

pub take_u32-Moves : (v : ℕ) (s : List ℕ) → v < u32_mod → Moves take_u32 (write_be_u32 v ++ s) v s
unfolding take_u32
take_u32-Moves v s h =
    rw (read_be_u32-write_be_u32 v h) at
      (Moves-take_as 4 read_be_u32 (write_be_u32 v) s (unfold write_be_u32 in refl))

pub take_u64-Moves : (v : ℕ) (s : List ℕ) → v < u64_mod → Moves take_u64 (write_be_u64 v ++ s) v s
unfolding take_u64
take_u64-Moves v s h =
    rw (read_be_u64-write_be_u64 v h) at
      (Moves-take_as 8 read_be_u64 (write_be_u64 v) s (unfold write_be_u64 in refl))

pub take_hash-Moves :
    (h : Hash) (s : List ℕ) → length h ≡ k_hash_size → Moves take_hash (h ++ s) h s
unfolding take_hash
take_hash-Moves h s e = Moves-take_as k_hash_size (λ t. t) h s e

pub take_string-Moves : (n : ℕ) (t s : List ℕ) → length t ≡ n → Moves (take_string n) (t ++ s) t s
unfolding take_string
take_string-Moves n t s e = Moves-take_as n (λ t. t) t s e

pub at_end-Moves : Moves at_end [] tt []
unfolding at_end
at_end-Moves = record {
  at = λ c r.
      let none_left : length c.payload - c.pos ≡ 0 =
        omega (arith, ap length r.1, length-drop c.pos c.payload) in
      (c, rw none_left, r);
}

pub at_end-Fails : (s : List ℕ) → 0 < length s → Fails at_end s
unfolding at_end
at_end-Fails s h = record {
  at = λ c r.
      let more : length c.payload - c.pos ≢ 0 =
        omega (arith, ap length r.1, length-drop c.pos c.payload) in
      rw (ne→==_false _ _ more);
}

-- The cursor went over the bytes `enc`.
pub record Took (enc : List ℕ) (c c' : Cursor) : Type 0 where
  pub split : rest c ≡ enc ++ rest c'
  pub bytes : All IsByte (rest c')

took :
    (xs : List ℕ) (c c' : Cursor)
    → All IsByte (rest c)
    → rest c ≡ xs ++ rest c'
    → All IsByte xs × Took xs c c'
took xs c c' h e =
    let (hx, hr) = All-append_parts IsByte xs (rest c') (rw e at h) in
    (hx, record { split = e; bytes = hr })

pub take_u8-Took :
    (c : Cursor) (v : ℕ) (c' : Cursor)
    → All IsByte (rest c)
    → take_u8 c ≡ some (v, c')
    → Took (v ∷ []) c c' × IsByte v
unfolding take_u8
take_u8-Took c v c' h e = one (take_as-inv 1 (λ t. get_or t 0 0) c v c' e)
  where
    one :
        ((xs : List ℕ) × (length xs ≡ 1) × (v ≡ get_or xs 0 0) × (rest c ≡ xs ++ rest c'))
        → Took (v ∷ []) c c' × IsByte v
    one ([], n, k, s) = absurd (omega arith)
    one (x ∷ [], n, k, s) = let (b, t) = took (x ∷ []) c c' h s in (rw k t, rw k b.0)
    one (x ∷ y ∷ xs, n, k, s) = absurd (omega arith)

pub take_u16-Took :
    (c : Cursor) (v : ℕ) (c' : Cursor)
    → All IsByte (rest c)
    → take_u16 c ≡ some (v, c')
    → Took (write_be_u16 v) c c' × (v < u16_mod)
unfolding take_u16
take_u16-Took c v c' h e =
    let (xs, n, k, s) = take_as-inv 2 read_be_u16 c v c' e in
    let (b, t) = took xs c c' h s in
    (rw (k, write_be_u16-read_be_u16 xs n b) t, rw k (read_be_u16-bound xs n b))

pub take_u32-Took :
    (c : Cursor) (v : ℕ) (c' : Cursor)
    → All IsByte (rest c)
    → take_u32 c ≡ some (v, c')
    → Took (write_be_u32 v) c c' × (v < u32_mod)
unfolding take_u32
take_u32-Took c v c' h e =
    let (xs, n, k, s) = take_as-inv 4 read_be_u32 c v c' e in
    let (b, t) = took xs c c' h s in
    (rw (k, write_be_u32-read_be_u32 xs n b) t, rw k (read_be_u32-bound xs n b))

pub take_u64-Took :
    (c : Cursor) (v : ℕ) (c' : Cursor)
    → All IsByte (rest c)
    → take_u64 c ≡ some (v, c')
    → Took (write_be_u64 v) c c' × (v < u64_mod)
unfolding take_u64
take_u64-Took c v c' h e =
    let (xs, n, k, s) = take_as-inv 8 read_be_u64 c v c' e in
    let (b, t) = took xs c c' h s in
    (rw (k, write_be_u64-read_be_u64 xs n b) t, rw k (read_be_u64-bound xs n b))

pub take_hash-Took :
    (c : Cursor) (v : Hash) (c' : Cursor)
    → All IsByte (rest c)
    → take_hash c ≡ some (v, c')
    → Took v c c' × (length v ≡ k_hash_size)
unfolding take_hash
take_hash-Took c v c' h e =
    let (xs, n, k, s) = take_as-inv k_hash_size (λ t. t) c v c' e in
    let (_, t) = took xs c c' h s in (rw k t, rw k n)

pub take_string-Took :
    (n : ℕ) (c : Cursor) (v : List ℕ) (c' : Cursor)
    → All IsByte (rest c)
    → take_string n c ≡ some (v, c')
    → Took v c c' × (length v ≡ n)
unfolding take_string
take_string-Took n c v c' h e =
    let (xs, m, k, s) = take_as-inv n (λ t. t) c v c' e in
    let (_, t) = took xs c c' h s in (rw k t, rw k m)

pub at_end-Took : (c c' : Cursor) → at_end c ≡ some (tt, c') → (c' ≡ c) × (rest c ≡ [])
unfolding at_end
at_end-Took c c' e =
    (ground arith, none_left (rest c) (omega (arith, length-drop c.pos c.payload, zero_left)))
  where
    zero_left : length c.payload - c.pos ≡ 0
    zero_left = ground arith

    none_left : (s : List ℕ) → length s ≡ 0 → s ≡ []
    none_left [] n = refl
    none_left (x ∷ s) n = absurd (omega arith)

-- Two stretches of bytes, one after the other.
pub Took-append :
    (xs ys : List ℕ) (a b c : Cursor) → Took xs a b → Took ys b c → Took (xs ++ ys) a c
Took-append xs ys a b c s t = record {
  split = s.split ∙ ap (λ r. xs ++ r) t.split ∙ sym (append_assoc xs ys (rest c));
  bytes = t.bytes;
}
