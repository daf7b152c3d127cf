-- ===== src/Transport/Transfer/CutOff/Hears.antt =====
-- The start of a session on a connection of which only the incoming bytes are known: what it writes may
-- get through or not.
use ati_tcp_file_transfer.Base.{
  ℕ, ◌<◌, ◌≤◌, ◌≡◌, refl, ap, ◌∙◌, arith, not, true, Option, some, none, List, ◌++◌, length, take,
}
use ati_tcp_file_transfer.Util.Blake3.{Blake3, IsStreaming}
use ati_tcp_file_transfer.Proto.Types.{FrameType, k_default_max_payload}
use ati_tcp_file_transfer.Proto.Frame.{Frame}
use ati_tcp_file_transfer.Proto.Decoder.Stream.{frame_of}
use ati_tcp_file_transfer.Proto.Messages.{default_hello, encode_hello, ManifestMsg, encode_manifest}
use ati_tcp_file_transfer.Io.Files.{Files}
use ati_tcp_file_transfer.Transport.Connection.{Connection, send_frame}
use ati_tcp_file_transfer.Transport.Connection.Short.{recv_frame_short}
use ati_tcp_file_transfer.Transport.Session.{Session}
use ati_tcp_file_transfer.Transport.Session.Rules.{
  Runs, Runs-pure, Runs-stop, Runs-if, Runs-on_connection, Runs-bind, Runs-bind_known,
}
use ati_tcp_file_transfer.Transport.Server.Calls.{Server, Failure, recv_any, recv_expected, send}
use ati_tcp_file_transfer.Transport.Server.Start.{handshake, exchange_hello, receive_manifest}
use ati_tcp_file_transfer.Transport.Transfer.{IsTransferable, wire, file_manifest}
use ati_tcp_file_transfer.Transport.Transfer.Talks.{Fails, received, shaken, type_eq_self}
use ati_tcp_file_transfer.Transport.Transfer.Fits.{
  hello_room, decode_hello-default, manifest_room, decode_manifest-file,
}
use ati_tcp_file_transfer.Transport.Transfer.Prefix.{hello}

-- What a client has sent that has begun with HELLO and the manifest of the file: a part of them, or all of
-- them and anything behind them.
pub data Offers (b : Blake3) (k : ℕ) (c path inc : List ℕ) : Type 0 where
  cut_short :
      (j : ℕ)
      → inc ≡ take j (hello ++ wire FrameType.manifest (encode_manifest (file_manifest b k c path)))
      → Offers b k c path inc
  and_more :
      (rest : List ℕ)
      → inc
        ≡ hello ++ (wire FrameType.manifest (encode_manifest (file_manifest b k c path)) ++ rest)
      → Offers b k c path inc

-- These bytes are to come, the TLS handshake succeeds, and the files are so.
pub record Hears (inc : List ℕ) (F : Files → Type 0) (s : Session) : Type 0 where
  pub incoming : s.conn.incoming ≡ inc
  pub handshake : s.conn.handshake_ok ≡ true
  pub files : F s.files

sent :
    (conn : Connection) (t : FrameType) (p : List ℕ)
    → ((send_frame conn t p).0.incoming ≡ conn.incoming)
      × ((send_frame conn t p).0.handshake_ok ≡ conn.handshake_ok)
unfolding send_frame
sent conn t p = (ground arith, ground arith)

module _ (F : Files → Type 0) where
  -- An early return keeps what is known of the files.
  abbrev pub Left : Failure → Session → Type 0
  Left e s = F s.files

  pub handshake-Hears :
      (v : Server) (inc : List ℕ) → Runs (Hears inc F) (handshake v) (λ _. Hears inc F) Left
  unfolding handshake
  handshake-Hears v inc =
      let P = Hears inc F in
      Runs-if P (λ _. P) Left (not v.has_tls) _ _ (λ _. Runs-pure P (λ _. P) Left tt (λ s h. h))
        (λ _.
          Runs-bind_known P P (λ _. P) Left true _ _
            (Runs-on_connection P _ Left _
              (λ s h. let e = shaken s.conn h.handshake in (ap (λ r. r.1) e, rw e h)))
            (Runs-pure P (λ _. P) Left tt (λ s h. h)))

  send-Hears :
      (inc : List ℕ) (t : FrameType) (p : List ℕ)
      → Runs (Hears inc F) (send t p) (λ _. Hears inc F) Left
  unfolding send
  send-Hears inc t p =
      let P = Hears inc F in
      Runs-bind P (λ _. P) Left (λ _. P) _ _
        (Runs-on_connection P (λ _. P) Left _
          (λ s h.
            let (same, still) = sent s.conn t p in
            record {
              incoming = same ∙ h.incoming;
              handshake = still ∙ h.handshake;
              files = h.files;
            }))
        (λ sent_it.
          Runs-if P (λ _. P) Left (not sent_it) _ _
            (λ _. Runs-stop P (λ _. P) Left _ (λ s h. h.files))
            (λ _. Runs-pure P (λ _. P) Left tt (λ s h. h)))

  recv_expected-Hears :
      (t : FrameType) (p : List ℕ) (rest : List ℕ)
      → length p ≤ k_default_max_payload
      → Runs
          (Hears (wire t p ++ rest) F)
          (recv_expected t)
          (λ f s. (f ≡ frame_of t p) × Hears rest F s)
          Left
  unfolding recv_expected recv_any
  recv_expected-Hears t p rest room =
      let P = Hears (wire t p ++ rest) F in
      let P' = Hears rest F in
      Runs-bind_known P P' _ Left (frame_of t p) _ _
        (Runs-bind_known P P' _ Left (some (frame_of t p)) _ _
          (Runs-on_connection P _ Left _ (λ s h.
            let e = received s.conn t p rest room h.incoming in
            (
              ap (λ r. r.1) e,
              record {
                incoming = ap (λ r. r.0.incoming) e;
                handshake = ap (λ r. r.0.handshake_ok) e ∙ h.handshake;
                files = h.files;
              },
            )))
          (Runs-pure P' _ Left (frame_of t p) (λ s h. (refl, h))))
        (rw (type_eq_self t) (Runs-pure P' _ Left (frame_of t p) (λ s h. (refl, h))))

  -- A frame that is cut off is not received.
  recv_expected-short :
      (t : FrameType) (p : List ℕ) (j : ℕ)
      → length p ≤ k_default_max_payload
      → j < length (wire t p)
      → Runs (Hears (take j (wire t p)) F) (recv_expected t) Fails Left
  unfolding recv_expected recv_any
  recv_expected-short t p j room short =
      let P = Hears (take j (wire t p)) F in
      let Kept : Session → Type 0 = λ s. F s.files in
      let absent : Option Frame → Session → Type 0 = λ o s. (o ≡ none) × Kept s in
      Runs-bind P Fails Left Fails _ _
        (Runs-bind_known P Kept Fails Left none _ _
          (Runs-on_connection P _ Left _ (λ s h. (
            recv_frame_short s.conn k_default_max_payload j t p room (omega arith) h.incoming short,
            h.files,
          )))
          (Runs-stop Kept Fails Left _ (λ s f. f)))
        (λ f. record { at = λ s nothing. elim nothing [ ] })

module _ (v : Server) (k : ℕ) (c path : List ℕ) (ok : IsTransferable k c path)
    (streaming : IsStreaming v.hash) (F : Files → Type 0) where
  abbrev m : ManifestMsg
  m = file_manifest v.hash k c path

  abbrev offer : List ℕ
  offer = wire FrameType.manifest (encode_manifest m)

  pub exchange_hello-Hears :
      (rest : List ℕ)
      → Runs (Hears (hello ++ rest) F) (exchange_hello v) (λ _. Hears rest F) (Left F)
  unfolding exchange_hello
  exchange_hello-Hears rest =
      let payload = encode_hello default_hello in
      Runs-bind_known _ (Hears rest F) (λ _. Hears rest F) (Left F)
        (frame_of FrameType.hello payload) _ _
        (recv_expected-Hears F FrameType.hello payload rest hello_room)
        (rw decode_hello-default (send-Hears F rest FrameType.hello payload))

  pub exchange_hello-short :
      (j : ℕ) → j < length hello → Runs (Hears (take j hello) F) (exchange_hello v) Fails (Left F)
  unfolding exchange_hello
  exchange_hello-short j short =
      Runs-bind _ Fails (Left F) Fails _ _
        (recv_expected-short F FrameType.hello (encode_hello default_hello) j hello_room short)
        (λ f. record { at = λ s nothing. elim nothing [ ] })

  pub receive_manifest-Hears :
      (rest : List ℕ)
      → Runs
          (Hears (offer ++ rest) F)
          (receive_manifest v)
          (λ r s. (r ≡ m) × Hears rest F s)
          (Left F)
  unfolding receive_manifest
  receive_manifest-Hears rest =
      let payload = encode_manifest m in
      Runs-bind_known _ (Hears rest F) _ (Left F) (frame_of FrameType.manifest payload) _ _
        (recv_expected-Hears F FrameType.manifest payload rest
          (manifest_room k c path ok v.hash streaming))
        (rw (decode_manifest-file k c path ok v.hash streaming)
          (Runs-pure (Hears rest F) _ (Left F) m (λ s h. (refl, h))))

  pub receive_manifest-short :
      (j : ℕ) → j < length offer → Runs (Hears (take j offer) F) (receive_manifest v) Fails (Left F)
  unfolding receive_manifest
  receive_manifest-short j short =
      Runs-bind _ Fails (Left F) Fails _ _
        (recv_expected-short F FrameType.manifest (encode_manifest m) j
          (manifest_room k c path ok v.hash streaming) short)
        (λ f. record { at = λ s nothing. elim nothing [ ] })
