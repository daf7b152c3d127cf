-- ===== src/Transport/Session.antt =====
-- The body of a session, on either side: calls on the connection and on the files, in order, with an
-- early `return false` for each failure. What was sent and written before stays sent and written.
pub mod Rules
use ati_tcp_file_transfer.Base.{Option, none, some}
use ati_tcp_file_transfer.Io.Files.{Files}
use ati_tcp_file_transfer.Transport.Connection.{Connection}

pub record Session : Type 0 where
  pub conn : Connection
  pub files : Files

-- `err` is an early return, with its reason.
pub data Result (E : Type 0) (A : Type 0) : Type 0 where
  ok : A → Result E A
  err : E → Result E A

abbrev pub Exec : Type 0 → Type 0 → Type 0
Exec E A = Session → Result E A × Session

module _ {E A : Type 0} where
  abbrev pub pure : A → Exec E A
  pure a s = (ok a, s)

  abbrev pub stop : E → Exec E A
  stop e s = (err e, s)

  abbrev pub or_stop : Option A → E → Exec E A
  or_stop none e s = (err e, s)
  or_stop (some a) e s = (ok a, s)

infixl 5 ◌>>=◌ ◌>>◌
module _ {E A B : Type 0} where
  abbrev pub continue : Result E A → (A → Exec E B) → Exec E B
  continue (ok a) f s = f a s
  continue (err e) f s = (err e, s)

  unfoldable pub ◌>>=◌ : Exec E A → (A → Exec E B) → Exec E B
  ◌>>=◌ m f s = let (r, s') = m s in continue r f s'

abbrev pub ◌>>◌ : {E A B : Type 0} → Exec E A → Exec E B → Exec E B
m >> k = m >>= λ _. k

-- A call on the connection, and a call on the files.
abbrev pub on_connection : {E A : Type 0} → (Connection → Connection × A) → Exec E A
on_connection f s = let (c, a) = f s.conn in (ok a, record s { conn = c })

abbrev pub on_files : {E A : Type 0} → (Files → A × Files) → Exec E A
on_files f s = let (a, fs) = f s.files in (ok a, record s { files = fs })
