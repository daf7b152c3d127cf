-- ===== src/Transport/Transfer/Grows.antt =====
-- What a session has written stays written, whatever comes and whatever fails: rules, and the calls on
-- the connection.
pub mod Receiver
pub mod Whole
pub mod Sender
use ati_tcp_file_transfer.Base.{
  ℕ, ◌≡◌, sym, ap, ◌∙◌, arith, Bool, Bool-cases, inl, inr, ◌⊎◌, ltb, ◌==◌, length, if◌then◌else◌,
}
use ati_tcp_file_transfer.Base.{Option, List, [], ◌++◌, append_assoc, append-nil}
use ati_tcp_file_transfer.Proto.Types.{FrameType, k_default_max_payload}
use ati_tcp_file_transfer.Io.Files.{Files}
use ati_tcp_file_transfer.Transport.Connection.{Connection, send_frame, recv_frame, recv_payload}
use ati_tcp_file_transfer.Transport.Session.{
  Session, Result, ok, err, Exec, pure, stop, or_stop, ◌>>=◌, on_connection, on_files,
}
use ati_tcp_file_transfer.Transport.Session.Rules.{
  Keeps, Keeps-pure, Keeps-stop, Keeps-or_stop, Keeps-if, Keeps-on_files, Keeps-bind, Ends, Runs,
  Runs-bind, Runs-bind_known, Runs-after, Runs-before,
}
use ati_tcp_file_transfer.Transport.Transfer.{wire}
use ati_tcp_file_transfer.Transport.Transfer.Talks.{Fails, Talks}

-- The bytes that were written start with `o`.
abbrev pub Wrote : List ℕ → Session → Type 0
Wrote o s = (y : List ℕ) × (s.conn.outgoing ≡ o ++ y)

abbrev Any : {A : Type 0} → A → Type 0
Any a = Unit {0}

abbrev pub Grows : {E A : Type 0} → List ℕ → Exec E A → Type 0
Grows o m = Keeps (Wrote o) m Any

-- A send that fails has written nothing.
sent :
    (c : Connection) (t : FrameType) (p : List ℕ)
    → ((send_frame c t p).0.outgoing ≡ c.outgoing)
      ⊎ ((send_frame c t p).0.outgoing ≡ c.outgoing ++ wire t p)
unfolding send_frame
sent c t p = elim (Bool-cases (ltb k_default_max_payload (length p))) [
  | inl long ↦ inl (ground arith)
  | inr fits ↦ elim (Bool-cases (c.writes_left == 0)) [
    | inl lost ↦ inl (ground arith)
    | inr through ↦ inr (ground arith)
  ]
]

pub received : (c : Connection) → (recv_frame c k_default_max_payload).0.outgoing ≡ c.outgoing
unfolding recv_frame recv_payload
received c = ground arith

module _ {E A : Type 0} (o : List ℕ) where
  pub Grows-pure : (a : A) → Grows {E = E} o (pure a)
  Grows-pure a = Keeps-pure (Wrote o) Any a tt

  pub Grows-stop : (e : E) → Grows {A = A} o (stop e)
  Grows-stop e = Keeps-stop (Wrote o) Any e

  pub Grows-or_stop : (a : Option A) (e : E) → Grows o (or_stop a e)
  Grows-or_stop a e = Keeps-or_stop (Wrote o) Any a e (λ _ _. tt)

  pub Grows-if : (b : Bool) (m k : Exec E A) → Grows o m → Grows o k → Grows o (if b then m else k)
  Grows-if b m k hm hk = Keeps-if (Wrote o) Any b m k (λ _. hm) (λ _. hk)

  pub Grows-on_files : (f : Files → A × Files) → Grows {E = E} o (on_files f)
  Grows-on_files f = Keeps-on_files (Wrote o) Any f (λ s h. (tt, h))

pub Grows-bind :
    {E A B : Type 0} (o : List ℕ) (m : Exec E A) (f : A → Exec E B)
    → Grows o m
    → ((a : A) → Grows o (f a))
    → Grows o (m >>= f)
Grows-bind o m f hm hf = Keeps-bind (Wrote o) Any Any m f hm (λ a _. hf a)

module _ {E : Type 0} (o : List ℕ) where
  pub Grows-send :
      (t : FrameType) (p : List ℕ) → Grows {E = E} o (on_connection (λ c. send_frame c t p))
  Grows-send t p = record {
    at = λ s (y, h). (
      tt,
      elim (sent s.conn t p) [
        | inl same ↦ (y, same ∙ h)
        | inr more ↦ (y ++ wire t p, more ∙ ap (λ x. x ++ wire t p) h ∙ append_assoc o y (wire t p))
      ],
    );
  }

  pub Grows-recv : Grows {E = E} o (on_connection (λ c. recv_frame c k_default_max_payload))
  Grows-recv = record { at = λ s (y, h). (tt, (y, received s.conn ∙ h)) }

-- Whatever its end, the session ends in `W`.
abbrev pub Reaches : {E A : Type 0} → (Session → Type 0) → (Session → Type 0) → Exec E A → Type 0
Reaches W P m = Runs P m (λ _. W) (λ _. W)

module _ {E A B : Type 0} (W P : Session → Type 0) (m : Exec E A) (f : A → Exec E B) where
  no_stop : (Q : A → Session → Type 0) → Runs P m Q Fails → Runs P m Q (λ _. W)
  no_stop Q h = record { at = λ s p. ends (m s).0 (m s).1 (h.at s p) }
    where
      ends : (r : Result E A) (s : Session) → Ends Q Fails r s → Ends Q (λ _. W) r s
      ends (ok a) s q = q
      ends (err e) s q = absurd q

  pub Reaches-bind :
      (S : A → Session → Type 0)
      → Runs P m S Fails
      → ((a : A) → Reaches W (S a) (f a))
      → Reaches W P (m >>= f)
  Reaches-bind S hm hf = Runs-bind P (λ _. W) (λ _. W) S m f (no_stop S hm) hf

  pub Reaches-known :
      (P' : Session → Type 0) (known : A)
      → Runs P m (λ a s. (a ≡ known) × P' s) Fails
      → Reaches W P' (f known)
      → Reaches W P (m >>= f)
  Reaches-known P' known hm hf = Runs-bind_known P P' (λ _. W) (λ _. W) known m f (no_stop _ hm) hf

  pub Reaches-then : Reaches W P m → ((a : A) → Reaches W W (f a)) → Reaches W P (m >>= f)
  Reaches-then hm hf = Runs-bind P (λ _. W) (λ _. W) (λ _. W) m f hm hf

pub Grows-Reaches :
    {E A : Type 0} (o : List ℕ) (m : Exec E A) → Grows o m → Reaches (Wrote o) (Wrote o) m
Grows-Reaches o m h =
    Runs-after (Wrote o) (λ _ s. Unit {0} × Wrote o s) (λ _. Wrote o) (λ _. Wrote o) m
      (λ a s (_, k). k) h

-- What has been written so far stays.
pub Talks-Reaches :
    {E A : Type 0} (inc o : List ℕ) (w : ℕ) (F : Files → Type 0) (m : Exec E A)
    → Grows o m
    → Reaches (Wrote o) (Talks inc o w F) m
Talks-Reaches inc o w F m h =
    Runs-before (Wrote o) _ (λ _. Wrote o) (λ _. Wrote o) m
      (λ s t. ([], t.outgoing ∙ sym (append-nil o))) (Grows-Reaches o m h)
