-- ===== src/Proto/Cursor.antt =====
-- The append helpers and the class `Cursor` of src/lib/proto/messages.cpp. A `take_…` that returns
-- false is `none`; else it returns what it stored through its reference and the cursor after it.
pub mod Rules
pub mod Takes
pub mod Returns
use ati_tcp_file_transfer.Base.{ℕ, ◌+◌, ◌-◌, ◌/◌, ◌==◌, ltb, if◌then◌else◌}
use ati_tcp_file_transfer.Base.{Option, none, some, List, [], ◌∷◌, ◌++◌, length, get_or, take, drop}
use ati_tcp_file_transfer.Util.Byteorder.{
  write_be_u16, write_be_u32, write_be_u64, read_be_u16, read_be_u32, read_be_u64,
}

-- `std::array<std::byte, 32>`
abbrev pub Hash : Type 0
Hash = List ℕ

abbrev pub k_hash_size : ℕ
k_hash_size = 32

abbrev pub append_u8 : List ℕ → ℕ → List ℕ
append_u8 out v = out ++ v ∷ []

abbrev pub append_u16 : List ℕ → ℕ → List ℕ
append_u16 out v = out ++ write_be_u16 v

abbrev pub append_u32 : List ℕ → ℕ → List ℕ
append_u32 out v = out ++ write_be_u32 v

abbrev pub append_u64 : List ℕ → ℕ → List ℕ
append_u64 out v = out ++ write_be_u64 v

abbrev pub append_hash : List ℕ → Hash → List ℕ
append_hash out h = out ++ h

abbrev pub append_bytes : List ℕ → List ℕ → List ℕ
append_bytes out s = out ++ s

pub record Cursor : Type 0 where
  pub payload : List ℕ
  pub pos : ℕ

abbrev pub cursor : List ℕ → Cursor
cursor payload = record { payload = payload; pos = 0 }

abbrev pub Parser {ℓ} : Type ℓ → Type ℓ
Parser A = Cursor → Option (A × Cursor)

infixl 5 ◌>>=◌ ◌>>◌
abbrev pub ◌>>=◌ {ℓ} : {A B : Type ℓ} → Parser A → (A → Parser B) → Parser B
◌>>=◌ m f c = elim (m c) [ none ↦ none | some (a, c') ↦ f a c' ]

abbrev pub ◌>>◌ : {B : Type 0} → Parser (Unit {0}) → Parser B → Parser B
m >> k = m >>= λ _. k

abbrev pub pure {ℓ} : {A : Type ℓ} → A → Parser A
pure a c = some (a, c)

-- The bytes from the cursor on, and how many they are.
abbrev pub rest : Cursor → List ℕ
rest c = drop c.pos c.payload

unfoldable pub remaining : Cursor → ℕ
remaining c = length c.payload - c.pos

-- The shape of every `take_…`: the bound check, the next `n` bytes, the advance.
unfoldable pub take_as {ℓ} : {A : Type ℓ} → ℕ → (List ℕ → A) → Parser A
take_as n convert c =
    if ltb (length c.payload) (c.pos + n)
    then none
    else some (convert (take n (rest c)), record c { pos = c.pos + n })

unfoldable pub take_u8 : Parser ℕ
unfolding take_as
take_u8 = take_as 1 (λ s. get_or s 0 0)

unfoldable pub take_u16 : Parser ℕ
unfolding take_as
take_u16 = take_as 2 read_be_u16

unfoldable pub take_u32 : Parser ℕ
unfolding take_as
take_u32 = take_as 4 read_be_u32

unfoldable pub take_u64 : Parser ℕ
unfolding take_as
take_u64 = take_as 8 read_be_u64

unfoldable pub take_hash : Parser Hash
unfolding take_as
take_hash = take_as k_hash_size (λ s. s)

unfoldable pub take_bytes : ℕ → Parser (List ℕ)
unfolding take_as
take_bytes n = take_as n (λ s. s)

unfoldable pub take_string : ℕ → Parser (List ℕ)
unfolding take_as
take_string n = take_as n (λ s. s)

-- `if (c.remaining() != 0) return std::nullopt;`
unfoldable pub at_end : Parser (Unit {0})
unfolding remaining
at_end c = if remaining c == 0 then some (tt, c) else none

-- A decoder's result: the message without the cursor.
abbrev pub run : {A : Type 0} → Parser A → List ℕ → Option A
run p payload = elim (p (cursor payload)) [ none ↦ none | some (a, _) ↦ some a ]
