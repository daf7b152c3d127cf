-- ===== src/Transport/Transfer/Talks.antt =====
-- Calls on a connection that cannot fail: the bytes to arrive start with the frame that is received, and
-- the network lets the writes through.
use ati_tcp_file_transfer.Base.{ℕ, suc, ◌≤◌, ◌≡◌, refl, ap, ◌∙◌, arith, true}
use ati_tcp_file_transfer.Base.{some, List, ◌++◌, length}
use ati_tcp_file_transfer.Proto.Types.{FrameType, type_eq, k_default_max_payload}
use ati_tcp_file_transfer.Proto.Frame.{Frame, encode_frame}
use ati_tcp_file_transfer.Proto.Decoder.Stream.{frame_of}
use ati_tcp_file_transfer.Io.Files.{Files}
use ati_tcp_file_transfer.Transport.Connection.{Connection, send_frame, recv_frame, tls_handshake}
use ati_tcp_file_transfer.Transport.Connection.Exchange.{recv_frame-encode_frame}
use ati_tcp_file_transfer.Transport.Session.{Session, on_connection, on_files}
use ati_tcp_file_transfer.Transport.Session.Rules.{
  Runs, Runs-pure, Runs-on_connection, Runs-on_files, Runs-bind_known,
}
use ati_tcp_file_transfer.Transport.Server.Calls.{recv_any, recv_expected, send}
use ati_tcp_file_transfer.Transport.Client.Send.{send_message, recv_message}
use ati_tcp_file_transfer.Transport.Transfer.{wire}

-- No early return.
abbrev pub Fails : {E : Type 0} → E → Session → Type 0
Fails e s = ⊥

-- The bytes still to arrive, the bytes written so far, the writes that are let through, the files;
-- a handshake that is still to come ends well.
pub record Talks (inc out : List ℕ) (w : ℕ) (F : Files → Type 0) (s : Session) : Type 0 where
  pub incoming : s.conn.incoming ≡ inc
  pub outgoing : s.conn.outgoing ≡ out
  pub writes : w ≤ s.conn.writes_left
  pub files : F s.files
  pub handshake : s.conn.handshake_ok ≡ true

pub with_files :
    (inc out : List ℕ) (w : ℕ) (F G : Files → Type 0) (s : Session) (fs : Files)
    → Talks inc out w F s
    → G fs
    → Talks inc out w G (record s { files = fs })
with_files inc out w F G s fs t after = record {
  incoming = t.incoming;
  outgoing = t.outgoing;
  writes = t.writes;
  files = after;
  handshake = t.handshake;
}

-- A call on the files with a result that is known.
pub on_files-Succeeds :
    {E A : Type 0} (F G : Files → Type 0) (inc out : List ℕ) (w : ℕ) (known : A)
    (f : Files → A × Files)
    → ((fs : Files) → F fs → ((f fs).0 ≡ known) × G (f fs).1)
    → Runs {E = E} (Talks inc out w F) (on_files f) (λ a s. (a ≡ known) × Talks inc out w G s) Fails
on_files-Succeeds F G inc out w known f h =
    Runs-on_files (Talks inc out w F) _ Fails f
      (λ s t. let (same, after) = h s.files t.files in (same, with_files _ _ _ _ _ _ _ t (after)))

pub type_eq_self : (t : FrameType) → type_eq t t ≡ true
unfolding type_eq
type_eq_self t = ground arith

sent :
    (conn : Connection) (t : FrameType) (p : List ℕ) (w : ℕ)
    → length p ≤ k_default_max_payload
    → suc w ≤ conn.writes_left
    → ((send_frame conn t p).1 ≡ true)
      × ((send_frame conn t p).0.incoming ≡ conn.incoming)
      × ((send_frame conn t p).0.outgoing ≡ conn.outgoing ++ wire t p)
      × (w ≤ (send_frame conn t p).0.writes_left)
      × ((send_frame conn t p).0.handshake_ok ≡ conn.handshake_ok)
unfolding send_frame
sent conn t p w room writes = (ground arith, ground arith, ground arith, ground arith, ground arith)

pub received :
    (conn : Connection) (t : FrameType) (p rest : List ℕ)
    → length p ≤ k_default_max_payload
    → conn.incoming ≡ wire t p ++ rest
    → recv_frame conn k_default_max_payload ≡ (record conn { incoming = rest }, some (frame_of t p))
unfolding encode_frame
received conn t p rest room arrives =
    recv_frame-encode_frame conn k_default_max_payload t p (wire t p) rest (ground arith) room
      arrives

module _ (F : Files → Type 0) (out : List ℕ) (w : ℕ) (t : FrameType) (p : List ℕ)
    (room : length p ≤ k_default_max_payload) where
  send_frame-Runs :
      {E : Type 0} (inc : List ℕ)
      → Runs {E = E}
          (Talks inc out (suc w) F)
          (on_connection (λ c. send_frame c t p))
          (λ b s. (b ≡ true) × Talks inc (out ++ wire t p) w F s)
          Fails
  send_frame-Runs inc = Runs-on_connection (Talks inc out (suc w) F) _ Fails _ (λ s h.
      let k = sent s.conn t p w room h.writes in
      (
        k.0,
        record {
          incoming = k.1 ∙ h.incoming;
          outgoing = k.2 ∙ ap (λ o. o ++ wire t p) h.outgoing;
          writes = k.3;
          files = h.files;
          handshake = k.4 ∙ h.handshake;
        },
      ))

  pub send-Succeeds :
      (inc : List ℕ)
      → Runs (Talks inc out (suc w) F) (send t p) (λ _. Talks inc (out ++ wire t p) w F) Fails
  unfolding send
  send-Succeeds inc =
      Runs-bind_known (Talks inc out (suc w) F) (Talks inc (out ++ wire t p) w F) _ Fails true _ _
        (send_frame-Runs inc)
        (Runs-pure _ (λ _. Talks inc (out ++ wire t p) w F) Fails tt (λ s h. h))

  pub send_message-Succeeds :
      (inc : List ℕ)
      → Runs
          (Talks inc out (suc w) F)
          (send_message t p)
          (λ _. Talks inc (out ++ wire t p) w F)
          Fails
  unfolding send_message
  send_message-Succeeds inc =
      Runs-bind_known (Talks inc out (suc w) F) (Talks inc (out ++ wire t p) w F) _ Fails true _ _
        (send_frame-Runs inc)
        (Runs-pure _ (λ _. Talks inc (out ++ wire t p) w F) Fails tt (λ s h. h))

  module _ (rest : List ℕ) where
    abbrev Before : Session → Type 0
    Before = Talks (wire t p ++ rest) out w F

    abbrev After : Frame → Session → Type 0
    After f s = (f ≡ frame_of t p) × Talks rest out w F s

    pub recv_frame-Runs :
        {E : Type 0}
        → Runs {E = E} Before
            (on_connection (λ c. recv_frame c k_default_max_payload))
            (λ o s. (o ≡ some (frame_of t p)) × Talks rest out w F s)
            Fails
    recv_frame-Runs = Runs-on_connection Before _ Fails _ (λ s h.
        let e = received s.conn t p rest room h.incoming in
        (
          ap (λ r. r.1) e,
          record {
            incoming = ap (λ r. r.0.incoming) e;
            outgoing = ap (λ r. r.0.outgoing) e ∙ h.outgoing;
            writes = rw e h.writes;
            files = h.files;
            handshake = ap (λ r. r.0.handshake_ok) e ∙ h.handshake;
          },
        ))

    pub recv_any-Succeeds : Runs Before recv_any After Fails
    unfolding recv_any
    recv_any-Succeeds =
        Runs-bind_known Before (Talks rest out w F) After Fails (some (frame_of t p)) _ _
          recv_frame-Runs
          (Runs-pure (Talks rest out w F) After Fails (frame_of t p) (λ s h. (refl, h)))

    pub recv_expected-Succeeds : Runs Before (recv_expected t) After Fails
    unfolding recv_expected
    recv_expected-Succeeds =
        Runs-bind_known Before (Talks rest out w F) After Fails (frame_of t p) _ _ recv_any-Succeeds
          (rw (type_eq_self t)
            (Runs-pure (Talks rest out w F) After Fails (frame_of t p) (λ s h. (refl, h))))

    pub recv_message-Succeeds : Runs Before (recv_message t) After Fails
    unfolding recv_message
    recv_message-Succeeds =
        Runs-bind_known Before (Talks rest out w F) After Fails (some (frame_of t p)) _ _
          recv_frame-Runs
          (Runs-bind_known (Talks rest out w F) (Talks rest out w F) After Fails (frame_of t p) _ _
            (Runs-pure (Talks rest out w F) After Fails (frame_of t p) (λ s h. (refl, h)))
            (rw (type_eq_self t)
              (Runs-pure (Talks rest out w F) After Fails (frame_of t p) (λ s h. (refl, h)))))

-- The handshake of either side, which leaves the connection as it is.
pub shaken : (c : Connection) → c.handshake_ok ≡ true → tls_handshake c ≡ (c, true)
unfolding tls_handshake
shaken c h = ground arith

pub tls_handshake-Succeeds :
    {E : Type 0} (inc out : List ℕ) (w : ℕ) (F : Files → Type 0)
    → Runs {E = E}
        (Talks inc out w F)
        (on_connection tls_handshake)
        (λ b s. (b ≡ true) × Talks inc out w F s)
        Fails
tls_handshake-Succeeds inc out w F =
    Runs-on_connection _ _ Fails _
      (λ s t. let e = shaken s.conn t.handshake in (ap (λ r. r.1) e, rw e t))
