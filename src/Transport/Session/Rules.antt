-- ===== src/Transport/Session/Rules.antt =====
-- Rules for a session: from `P` before, `Q` after a normal end and `R` after an early return.
use ati_tcp_file_transfer.Base.{◌≡◌, refl, Bool, true, false, Option, none, some, if◌then◌else◌}
use ati_tcp_file_transfer.Io.Files.{Files}
use ati_tcp_file_transfer.Transport.Connection.{Connection}
use ati_tcp_file_transfer.Transport.Session.{
  Session, Result, ok, err, Exec, pure, stop, or_stop, continue, ◌>>=◌, on_connection, on_files,
}

abbrev pub Ends :
    {E A : Type 0} → (A → Session → Type 0) → (E → Session → Type 0) → Result E A → Session → Type 0
Ends Q R (ok a) s = Q a s
Ends Q R (err e) s = R e s

pub record Runs {E A : Type 0} (P : Session → Type 0) (m : Exec E A) (Q : A → Session → Type 0)
    (R : E → Session → Type 0) : Type 0 where
  pub at : (s : Session) → P s → Ends Q R (m s).0 (m s).1

module _ {E A : Type 0} (P : Session → Type 0) (Q : A → Session → Type 0)
    (R : E → Session → Type 0) where
  pub Runs-pure : (a : A) → ((s : Session) → P s → Q a s) → Runs P (pure a) Q R
  Runs-pure a h = record { at = h }

  pub Runs-stop : (e : E) → ((s : Session) → P s → R e s) → Runs P (stop e) Q R
  Runs-stop e h = record { at = h }

  pub Runs-if :
      (b : Bool) (m n : Exec E A)
      → (b ≡ true → Runs P m Q R)
      → (b ≡ false → Runs P n Q R)
      → Runs P (if b then m else n) Q R
  Runs-if true m n hm hn = hm refl
  Runs-if false m n hm hn = hn refl

  pub Runs-or_stop :
      (o : Option A) (e : E)
      → ((a : A) → o ≡ some a → (s : Session) → P s → Q a s)
      → ((s : Session) → P s → R e s)
      → Runs P (or_stop o e) Q R
  Runs-or_stop none e hs hn = record { at = hn }
  Runs-or_stop (some a) e hs hn = record { at = hs a refl }

  pub Runs-on_connection :
      (f : Connection → Connection × A)
      → ((s : Session) → P s → Q (f s.conn).1 (record s { conn = (f s.conn).0 }))
      → Runs P (on_connection f) Q R
  Runs-on_connection f h = record { at = h }

  pub Runs-on_files :
      (f : Files → A × Files)
      → ((s : Session) → P s → Q (f s.files).0 (record s { files = (f s.files).1 }))
      → Runs P (on_files f) Q R
  Runs-on_files f h = record { at = h }

module _ {E A B : Type 0} (P : Session → Type 0) (Q : B → Session → Type 0)
    (R : E → Session → Type 0) where
  continued :
      (S : A → Session → Type 0) (f : A → Exec E B)
      → ((a : A) → Runs (S a) (f a) Q R)
      → (r : Result E A) (s : Session) → Ends S R r s
      → Ends Q R (continue r f s).0 (continue r f s).1
  continued S f k (ok a) s h = (k a).at s h
  continued S f k (err e) s h = h

  pub Runs-bind :
      (S : A → Session → Type 0) (m : Exec E A) (f : A → Exec E B)
      → Runs P m S R
      → ((a : A) → Runs (S a) (f a) Q R)
      → Runs P (m >>= f) Q R
  unfolding ◌>>=◌
  Runs-bind S m f hm hf = record { at = λ s h. continued S f hf (m s).0 (m s).1 (hm.at s h) }

-- Whatever its end, the session keeps `K`; a value that it returns is in `G`.
abbrev pub Keeps : {E A : Type 0} → (Session → Type 0) → Exec E A → (A → Type 0) → Type 0
Keeps K m G = Runs K m (λ a s. G a × K s) (λ _. K)

module _ {E A : Type 0} (K : Session → Type 0) (G : A → Type 0) where
  pub Keeps-pure : (a : A) → G a → Keeps {E = E} K (pure a) G
  Keeps-pure a g = record { at = λ s h. (g, h) }

  pub Keeps-stop : (e : E) → Keeps K (stop e) G
  Keeps-stop e = record { at = λ s h. h }

  pub Keeps-or_stop :
      (o : Option A) (e : E) → ((a : A) → o ≡ some a → G a) → Keeps K (or_stop o e) G
  Keeps-or_stop none e g = record { at = λ s h. h }
  Keeps-or_stop (some a) e g = record { at = λ s h. (g a refl, h) }

  pub Keeps-if :
      (b : Bool) (m n : Exec E A)
      → (b ≡ true → Keeps K m G)
      → (b ≡ false → Keeps K n G)
      → Keeps K (if b then m else n) G
  Keeps-if b m n hm hn = Runs-if K (λ a s. G a × K s) (λ _. K) b m n hm hn

  pub Keeps-on_files :
      (f : Files → A × Files)
      → ((s : Session) → K s → G (f s.files).0 × K (record s { files = (f s.files).1 }))
      → Keeps {E = E} K (on_files f) G
  Keeps-on_files f h = record { at = h }

module _ {E A B : Type 0} (K : Session → Type 0) (G : A → Type 0) (H : B → Type 0) where
  pub Keeps-bind :
      (m : Exec E A) (f : A → Exec E B)
      → Keeps K m G
      → ((a : A) → G a → Keeps K (f a) H)
      → Keeps K (m >>= f) H
  Keeps-bind m f hm hf =
      Runs-bind K (λ b s. H b × K s) (λ _. K) (λ a s. G a × K s) m f hm
        (λ a. record { at = λ s (g, h). (hf a g).at s h })

-- A value that is known is put into what follows.
pub Runs-bind_known :
    {E A B : Type 0} (P P' : Session → Type 0) (Q : B → Session → Type 0) (R : E → Session → Type 0)
    (known : A) (m : Exec E A) (f : A → Exec E B)
    → Runs P m (λ a s. (a ≡ known) × P' s) R
    → Runs P' (f known) Q R
    → Runs P (m >>= f) Q R
Runs-bind_known P P' Q R known m f hm hf =
    Runs-bind P Q R (λ a s. (a ≡ known) × P' s) m f hm
      (λ a. record { at = λ s (same, before). rw same (hf.at s before) })

pub Runs-after :
    {E A : Type 0} (P : Session → Type 0) (Q Q' : A → Session → Type 0) (R : E → Session → Type 0)
    (m : Exec E A)
    → ((a : A) (s : Session) → Q a s → Q' a s)
    → Runs P m Q R
    → Runs P m Q' R
Runs-after {E} {A} P Q Q' R m weaker h = record {
  at = λ s before. ends (m s).0 (m s).1 (h.at s before);
}
  where
    ends : (r : Result E A) (s : Session) → Ends Q R r s → Ends Q' R r s
    ends (ok a) s after = weaker a s after
    ends (err e) s after = after

pub Runs-before :
    {E A : Type 0} (P P' : Session → Type 0) (Q : A → Session → Type 0) (R : E → Session → Type 0)
    (m : Exec E A)
    → ((s : Session) → P' s → P s)
    → Runs P m Q R
    → Runs P' m Q R
Runs-before P P' Q R m stronger h = record { at = λ s before. h.at s (stronger s before) }
