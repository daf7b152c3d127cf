-- ===== src/Transport/Server/Announce.antt =====
-- Why a session fails, as its connection shows: the calls of src/lib/transport/server.cpp up to the
-- chunks.
pub mod Whole
use ati_tcp_file_transfer.Base.{
  ℕ, zero, suc, ◌+◌, ◌*◌, ◌==◌, ltb, ◌≡◌, ◌≢◌, refl, ◌∙◌, arith, if◌then◌else◌, not, Bool, true,
}
use ati_tcp_file_transfer.Base.{
  Option-cases, inl, inr, ◌&&◌, bytes_eq, Option, none, some, List, [], ◌∷◌, ◌++◌, length, get_or,
}
use ati_tcp_file_transfer.Util.Blake3.{blake3}
use ati_tcp_file_transfer.Proto.Types.{FrameType, type_eq, k_protocol_version}
use ati_tcp_file_transfer.Proto.ErrorCode
use ati_tcp_file_transfer.Proto.Frame.{Frame}
use ati_tcp_file_transfer.Proto.Cursor.{Hash}
use ati_tcp_file_transfer.Proto.Messages.{
  ManifestMsg, ChunkMsg, CompleteMsg, decode_hello, decode_manifest, decode_chunk, decode_complete,
}
use ati_tcp_file_transfer.Io.Files.{FilePath, Files}
use ati_tcp_file_transfer.Io.Files
use ati_tcp_file_transfer.Io.FileSink.{FileSink}
use ati_tcp_file_transfer.Io.FileSink
use ati_tcp_file_transfer.Io.ResumeState.{complete}
use ati_tcp_file_transfer.Transport.Connection.{Connection, send_frame}
use ati_tcp_file_transfer.Transport.Session.{
  Session, Exec, pure, stop, or_stop, ◌>>=◌, ◌>>◌, on_connection, on_files,
}
use ati_tcp_file_transfer.Transport.Server.Text.{Text, text_of}
use ati_tcp_file_transfer.Transport.Server.Calls.{
  Server, Failure, recv_any, recv_expected, send, send_error, reject,
}
use ati_tcp_file_transfer.Transport.Server.Start.{
  handshake, exchange_hello, receive_manifest, dest_or_reject, matching, load_state, on_sink,
  open_dest,
}
use ati_tcp_file_transfer.Transport.Server.Receive.{
  Progress, Next, more, completed, take_in_order, store_chunk, on_chunk, on_complete,
  on_chunk_frame, on_frame, next_round, receive_loop, receive_chunks,
}
use ati_tcp_file_transfer.Transport.Session.Rules.{
  Runs, Ends, Runs-after, Runs-pure, Runs-stop, Runs-if, Runs-or_stop, Runs-on_connection,
  Runs-on_files, Runs-bind,
}
use ati_tcp_file_transfer.Proto.Messages.{encode_error}
use ati_tcp_file_transfer.Base.{◌⊎◌, sym, ap, false}
use ati_tcp_file_transfer.Proto.Types.{k_default_max_payload}
use ati_tcp_file_transfer.Transport.Connection.{recv_frame, tls_handshake}
use ati_tcp_file_transfer.Transport.Session.{Result, ok, err}
use ati_tcp_file_transfer.Transport.Server.Text.{
  malformed_hello, malformed_manifest, malformed_complete, malformed_chunk, requires_version,
  rejected_path, expected_chunk_or_complete, index_out_of_range, hash_mismatch_at, diverges_at,
  chunks_missing, byte_count_mismatch, chunk_count_mismatch, cannot_reopen, root_mismatch_manifest,
  root_mismatch_complete, sink_error,
}
use ati_tcp_file_transfer.Transport.Server.Rounds.{receive_chunks_ends}
use ati_tcp_file_transfer.Transport.Server.Calls.{
  rejected, recv_failed, send_failed, unexpected_frame, handshake_failed, out_of_rounds,
}

not-true : (b : Bool) → not b ≡ true → b ≡ false
not-true true e = sym e
not-true false e = refl

-- The code that each text goes with.
abbrev pub code_for : Text → ℕ
code_for malformed_hello = ErrorCode.protocol_violation
code_for malformed_manifest = ErrorCode.protocol_violation
code_for malformed_complete = ErrorCode.protocol_violation
code_for malformed_chunk = ErrorCode.protocol_violation
code_for requires_version = ErrorCode.unsupported_version
code_for (rejected_path path) = ErrorCode.invalid_path
code_for expected_chunk_or_complete = ErrorCode.protocol_violation
code_for index_out_of_range = ErrorCode.protocol_violation
code_for (hash_mismatch_at i) = ErrorCode.hash_mismatch
code_for (diverges_at i) = ErrorCode.hash_mismatch
code_for chunks_missing = ErrorCode.protocol_violation
code_for (byte_count_mismatch expected got) = ErrorCode.protocol_violation
code_for chunk_count_mismatch = ErrorCode.protocol_violation
code_for cannot_reopen = ErrorCode.internal_error
code_for root_mismatch_manifest = ErrorCode.hash_mismatch
code_for root_mismatch_complete = ErrorCode.hash_mismatch
code_for (sink_error e) = ErrorCode.internal_error

-- How the last call on a connection can have gone where a session fails: it was an attempt to send an
-- ERROR with one of the texts and the code that goes with it, or a handshake, a receive or a send that
-- failed, or a receive of another frame in place of HELLO or MANIFEST.
pub data Ending (v : Server) (conn : Connection) : Type 0 where
  refused :
      (before : Connection) (text : Text)
      → conn
        ≡ (send_frame before FrameType.error
            (encode_error (record { code = code_for text; message = text_of v.sink_text text }))).0
      → Ending v conn
  not_shaken : (before : Connection) → tls_handshake before ≡ (conn, false) → Ending v conn
  not_received :
      (before : Connection) → recv_frame before k_default_max_payload ≡ (conn, none) → Ending v conn
  not_sent :
      (before : Connection) (t : FrameType) (payload : List ℕ)
      → send_frame before t payload ≡ (conn, false)
      → Ending v conn
  unexpected :
      (before : Connection) (t : FrameType) (frame : Frame)
      → (t ≡ FrameType.hello) ⊎ (t ≡ FrameType.manifest)
      → recv_frame before k_default_max_payload ≡ (conn, some frame)
      → type_eq frame.header.type t ≡ false
      → Ending v conn

-- `Rounds` is what is known where the rounds of the loop run out.
module _ (v : Server) (Rounds : Type 0) where
  abbrev pub Told : Failure → Session → Type 0
  Told (rejected code text) s = Ending v s.conn
  Told Failure.handshake_failed s = Ending v s.conn
  Told Failure.send_failed s = Ending v s.conn
  Told Failure.recv_failed s = Ending v s.conn
  Told Failure.unexpected_frame s = Ending v s.conn
  Told Failure.out_of_rounds s = Rounds

  abbrev pub Always : {A : Type 0} → A → Session → Type 0
  Always a s = Unit {0}

  abbrev pub Start : Session → Type 0
  Start s = Unit {0}

  abbrev pub Tells : {A : Type 0} → Exec Failure A → Type 0
  Tells m = Runs Start m Always Told

  pub Tells-bind :
      {A B : Type 0} (m : Exec Failure A) (f : A → Exec Failure B)
      → Tells m
      → ((a : A) → Tells (f a))
      → Tells (m >>= f)
  Tells-bind m f = Runs-bind Start Always Told Always m f

  pub Tells-if :
      {A : Type 0} (b : Bool) (m k : Exec Failure A)
      → Tells m
      → Tells k
      → Tells (if b then m else k)
  Tells-if b m k hm hk = Runs-if Start Always Told b m k (λ _. hm) (λ _. hk)

  pub Tells-pure : {A : Type 0} (a : A) → Tells (pure a)
  Tells-pure a = Runs-pure Start Always Told a (λ s h. tt)

  pub Tells-on_files : {A : Type 0} (f : Files → A × Files) → Tells (on_files f)
  Tells-on_files f = Runs-on_files Start Always Told f (λ s h. tt)

  pub Tells-on_sink : {A : Type 0} (f : Files → A × FileSink × Files) → Tells (on_sink f)
  Tells-on_sink f = record { at = λ s h. tt }

  pub Tells-on_connection : {A : Type 0} (f : Connection → Connection × A) → Tells (on_connection f)
  Tells-on_connection f = Runs-on_connection Start Always Told f (λ s h. tt)

  pub reject-Tells :
      {A : Type 0} (code : ℕ) (text : Text)
      → code ≡ code_for text
      → Tells (reject {A = A} v code text)
  unfolding reject send_error
  reject-Tells code text same =
      let After : Unit {0} → Session → Type 0 = λ _ s. Ending v s.conn in
      let frame : ℕ → List ℕ =
        λ n. encode_error (record { code = n; message = text_of v.sink_text text }) in
      Runs-bind Start Always Told After _ _
        (Runs-bind Start After Told (λ _ s. Ending v s.conn) _ _
          (Runs-on_connection Start (λ _ s. Ending v s.conn) Told _
            (λ s h.
              refused s.conn text (ap (λ n. (send_frame s.conn FrameType.error (frame n)).0) same)))
          (λ _. Runs-pure (After tt) After Told tt (λ s h. h)))
        (λ _. Runs-stop (After tt) Always Told (rejected code text) (λ s h. h))

  -- The frame was the last that was received.
  abbrev Heard : Frame → Session → Type 0
  Heard frame s =
      (before : Connection) × (recv_frame before k_default_max_payload ≡ (s.conn, some frame))

  recv_any-Runs : Runs Start recv_any Heard Told
  unfolding recv_any
  recv_any-Runs =
      Runs-bind Start Heard Told Got _ _
        (Runs-on_connection Start Got Told _ (λ s h. (s.conn, refl))) heard
    where
      Got : Option Frame → Session → Type 0
      Got o s = (before : Connection) × (recv_frame before k_default_max_payload ≡ (s.conn, o))

      heard : (o : Option Frame) → Runs (Got o) (or_stop o Failure.recv_failed) Heard Told
      heard none = record { at = λ s (before, e). not_received before e }
      heard (some frame) = record { at = λ s h. h }

  recv_any-Tells : Tells recv_any
  recv_any-Tells = Runs-after Start Heard Always Told recv_any (λ frame s h. tt) recv_any-Runs

  recv_expected-Tells :
      (t : FrameType) → (t ≡ FrameType.hello) ⊎ (t ≡ FrameType.manifest) → Tells (recv_expected t)
  unfolding recv_expected
  recv_expected-Tells t is = Runs-bind Start Always Told Heard _ _ recv_any-Runs λ frame.
      Runs-if (Heard frame) Always Told (not (type_eq frame.header.type t)) _ _
        (λ other.
          Runs-stop (Heard frame) Always Told Failure.unexpected_frame
            (λ s (before, e). unexpected before t frame is e (not-true _ other)))
        (λ _. Runs-pure (Heard frame) Always Told frame (λ s h. tt))

  pub send-Tells : (t : FrameType) (payload : List ℕ) → Tells (send t payload)
  unfolding send
  send-Tells t payload =
      Runs-bind Start Always Told Sent _ _
        (Runs-on_connection Start Sent Told _ (λ s h. (s.conn, refl)))
        λ sent.
          Runs-if (Sent sent) Always Told (not sent) _ _
            (λ failed. Runs-stop (Sent sent) Always Told Failure.send_failed (λ s (before, e).
              not_sent before t payload (e ∙ ap (λ b. (s.conn, b)) (not-true sent failed))))
            (λ _. Runs-pure (Sent sent) Always Told tt (λ s h. tt))
    where
      Sent : Bool → Session → Type 0
      Sent sent s = (before : Connection) × (send_frame before t payload ≡ (s.conn, sent))

  pub handshake-Tells : Tells (handshake v)
  unfolding handshake
  handshake-Tells = Tells-if (not v.has_tls) _ _ (Tells-pure tt) (
      Runs-bind Start Always Told Shaken _ _
        (Runs-on_connection Start Shaken Told _ (λ s h. (s.conn, refl)))
        λ shaken.
          Runs-if (Shaken shaken) Always Told (not shaken) _ _
            (λ failed.
              Runs-stop (Shaken shaken) Always Told Failure.handshake_failed (λ s (before, e).
                not_shaken before (e ∙ ap (λ b. (s.conn, b)) (not-true shaken failed))))
            (λ _. Runs-pure (Shaken shaken) Always Told tt (λ s h. tt)))
    where
      Shaken : Bool → Session → Type 0
      Shaken shaken s = (before : Connection) × (tls_handshake before ≡ (s.conn, shaken))

  pub exchange_hello-Tells : Tells (exchange_hello v)
  unfolding exchange_hello
  exchange_hello-Tells = Tells-bind _ _ (recv_expected-Tells FrameType.hello (inl refl)) λ frame.
      elim (Option-cases (decode_hello frame.payload)) [
        | inl bad ↦ rw bad (reject-Tells _ malformed_hello refl)
        | inr (hello, good) ↦ rw good (
            Tells-if (not (hello.protocol_version == k_protocol_version)) _ _
              (reject-Tells _ requires_version refl) (send-Tells _ _))
      ]

  pub receive_manifest-Tells : Tells (receive_manifest v)
  unfolding receive_manifest
  receive_manifest-Tells =
      Tells-bind _ _ (recv_expected-Tells FrameType.manifest (inr refl)) λ frame.
        elim (Option-cases (decode_manifest frame.payload)) [
          | inl bad ↦ rw bad (reject-Tells _ malformed_manifest refl)
          | inr (manifest, good) ↦ rw good (Tells-pure manifest)
        ]

  pub dest_or_reject-Tells : (m : ManifestMsg) (d : Option FilePath) → Tells (dest_or_reject v m d)
  unfolding dest_or_reject
  dest_or_reject-Tells m none = reject-Tells _ (rejected_path m.path) refl
  dest_or_reject-Tells m (some dest) = Tells-pure dest

  pub load_state-Tells : (m : ManifestMsg) (dest : FilePath) → Tells (load_state v m dest)
  unfolding load_state
  load_state-Tells m dest = Tells-bind _ _ (Tells-on_files _) λ loaded.
      elim (Option-cases (matching v m loaded)) [
        | inr (state, same) ↦ rw same (Tells-pure (state, true))
        | inl differs ↦ rw differs (Tells-bind _ _ (Tells-on_files _) (λ _. Tells-pure _))
      ]

  pub open_dest-Tells :
      (m : ManifestMsg) (dest : FilePath) (resume_active : Bool)
      → Tells (open_dest v m dest resume_active)
  unfolding open_dest
  open_dest-Tells m dest resume_active = Tells-bind _ _ (Tells-on_files _) λ (opened, sink).
      Tells-if (not opened) _ _ (reject-Tells _ (sink_error sink.last_error) refl) (Tells-pure sink)

  store_chunk-Tells :
      (m : ManifestMsg) (state_file : FilePath) (q : Progress v.hash.Hasher) (c : ChunkMsg)
      → Tells (store_chunk v m state_file q c)
  unfolding store_chunk
  store_chunk-Tells m state_file q c = Tells-bind _ _ (Tells-on_files _) λ (written, sink).
      Tells-if (not written) _ _ (reject-Tells _ (sink_error sink.last_error) refl)
        (Tells-bind _ _ (Tells-on_files _) (λ _. Tells-pure _))

  on_chunk-Tells :
      (m : ManifestMsg) (state_file : FilePath) (q : Progress v.hash.Hasher) (c : ChunkMsg)
      → Tells (on_chunk v m state_file q c)
  unfolding on_chunk
  on_chunk-Tells m state_file q c =
      Tells-if (not (ltb c.index m.chunk_count)) _ _ (reject-Tells _ index_out_of_range refl) (
        Tells-if (not (bytes_eq (blake3 v.hash c.bytes) c.hash)) _ _
          (reject-Tells _ (hash_mismatch_at c.index) refl)
          (Tells-if (not (bytes_eq (get_or m.chunk_hashes c.index []) c.hash)) _ _
            (reject-Tells _ (diverges_at c.index) refl)
            (store_chunk-Tells m state_file (take_in_order v.hash q c) c)))

  on_complete-Tells : {H : Type 0} (c : Option CompleteMsg) → Tells (on_complete {H = H} v c)
  unfolding on_complete
  on_complete-Tells none = reject-Tells _ malformed_complete refl
  on_complete-Tells (some c) = Tells-pure _

  on_chunk_frame-Tells :
      (m : ManifestMsg) (state_file : FilePath) (q : Progress v.hash.Hasher) (c : Option ChunkMsg)
      → Tells (on_chunk_frame v m state_file q c)
  unfolding on_chunk_frame
  on_chunk_frame-Tells m state_file q none = reject-Tells _ malformed_chunk refl
  on_chunk_frame-Tells m state_file q (some c) =
      Tells-bind _ _ (on_chunk-Tells m state_file q c) (λ q'. Tells-pure _)

  on_frame-Tells :
      (m : ManifestMsg) (state_file : FilePath) (q : Progress v.hash.Hasher) (f : Frame)
      → Tells (on_frame v m state_file q f)
  unfolding on_frame
  on_frame-Tells m state_file q f =
      Tells-if (type_eq f.header.type FrameType.complete) _ _
        (on_complete-Tells (decode_complete f.payload))
        (Tells-if (not (type_eq f.header.type FrameType.chunk)) _ _
          (reject-Tells _ expected_chunk_or_complete refl)
          (on_chunk_frame-Tells m state_file q (decode_chunk f.payload)))

  next_round-Tells :
      (loop : Progress v.hash.Hasher → Exec Failure (Progress v.hash.Hasher × Hash))
      → ((q : Progress v.hash.Hasher) → Tells (loop q))
      → (q : Progress v.hash.Hasher) (n : Next v.hash.Hasher) → Tells (next_round loop q n)
  unfolding next_round
  next_round-Tells loop rest q (more q') = rest q'
  next_round-Tells loop rest q (completed h) = Tells-pure (q, h)

module _ (v : Server) where
  -- With nothing known where the rounds run out.
  receive_loop-Tells :
      (m : ManifestMsg) (state_file : FilePath) (rounds : ℕ) (q : Progress v.hash.Hasher)
      → Tells v (Unit {0}) (receive_loop v m state_file rounds q)
  unfolding receive_loop
  receive_loop-Tells m state_file zero q =
      Runs-stop (Start v (Unit {0})) (Always v (Unit {0})) (Told v (Unit {0})) Failure.out_of_rounds
        (λ _ _. tt)
  receive_loop-Tells m state_file (suc rounds) q =
      Tells-bind v (Unit {0}) _ _ (recv_any-Tells v (Unit {0})) λ f.
        Tells-bind v (Unit {0}) _ _ (on_frame-Tells v (Unit {0}) m state_file q f)
          (next_round-Tells v (Unit {0}) _ (receive_loop-Tells m state_file rounds) q)

  settled :
      {A : Type 0} (r : Result Failure A) (s : Session)
      → Ends (Always v (Unit {0})) (Told v (Unit {0})) r s
      → r ≢ err Failure.out_of_rounds
      → Ends (Always v ⊥) (Told v ⊥) r s
  settled (ok a) s h other = tt
  settled (err (rejected code text)) s h other = h
  settled (err Failure.handshake_failed) s h other = h
  settled (err Failure.send_failed) s h other = h
  settled (err Failure.recv_failed) s h other = h
  settled (err Failure.unexpected_frame) s h other = h
  settled (err Failure.out_of_rounds) s h other = absurd (other refl)

  -- The rounds do not run out.
  pub receive_chunks-Tells :
      (m : ManifestMsg) (state_file : FilePath) (q : Progress v.hash.Hasher)
      → Tells v ⊥ (receive_chunks v m state_file q)
  unfolding receive_chunks
  receive_chunks-Tells m state_file q = record {
    at = λ s h.
        settled _ _ ((receive_loop-Tells m state_file (suc (length s.conn.incoming)) q).at s tt)
          (unfold receive_chunks in receive_chunks_ends v m state_file q s);
  }
