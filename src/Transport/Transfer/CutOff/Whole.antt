-- ===== src/Transport/Transfer/CutOff/Whole.antt =====
-- Server::handle_session_ on a transfer that may be cut off anywhere: the whole session, and the next one.
use ati_tcp_file_transfer.Base.{
  ◌-◌, take, ltb, ltb→lt, ltb_false→le, Bool-cases, inl, inr, take-append_le, append-nil,
}
use ati_tcp_file_transfer.Base.{ℕ, ◌≡◌, inl, inr, sym, ap, ◌∙◌, arith, some, List, [], ◌++◌, length}
use ati_tcp_file_transfer.Util.Blake3.{IsStreaming}
use ati_tcp_file_transfer.Proto.Types.{FrameType}
use ati_tcp_file_transfer.Proto.Messages.{ManifestMsg, encode_manifest}
use ati_tcp_file_transfer.Io.Files.{FilePath, Files}
use ati_tcp_file_transfer.Io.FileSink.{FileSink}
use ati_tcp_file_transfer.Transport.Session.{Session}
use ati_tcp_file_transfer.Transport.Session.Rules.{
  Runs-bind_known, Runs, Runs-pure, Runs-bind, Runs-before,
}
use ati_tcp_file_transfer.Transport.Server.Dest.{resolve_dest}
use ati_tcp_file_transfer.Transport.Server.Calls.{Server, Failure}
use ati_tcp_file_transfer.Transport.Server.Start.{request_chunks}
use ati_tcp_file_transfer.Transport.Server.Receive.{Progress, start_progress}
use ati_tcp_file_transfer.Transport.Server.Finish.{receive_partial, receive_file, session}
use ati_tcp_file_transfer.Transport.Server.Safety.{send_keeps_files}
use ati_tcp_file_transfer.Transport.Server.Honest.{IsBinding}
use ati_tcp_file_transfer.Transport.Transfer.{IsTransferable, wire, file_manifest}
use ati_tcp_file_transfer.Transport.Transfer.Talks.{Fails}
use ati_tcp_file_transfer.Transport.Transfer.Receiver.Whole.{choose_dest-Succeeds}
use ati_tcp_file_transfer.Transport.Transfer.Grows.{Reaches-known}
use ati_tcp_file_transfer.Transport.Transfer.Prefix.{hello}
use ati_tcp_file_transfer.Transport.Transfer.CutOff.{Resumable, Storing, Storing-Resumable}
use ati_tcp_file_transfer.Transport.Connection.Short.{take-append_past}
use ati_tcp_file_transfer.Transport.Server.ReadBack.{take_whole}
use ati_tcp_file_transfer.Transport.Transfer.CutOff.Hears.{
  Offers, cut_short, and_more, Hears, handshake-Hears, exchange_hello-Hears, exchange_hello-short,
  receive_manifest-Hears, receive_manifest-short,
}
use ati_tcp_file_transfer.Transport.Transfer.CutOff.Opening.{
  Shaken, load_state-Loaded, open_dest-Storing,
}
use ati_tcp_file_transfer.Transport.Transfer.CutOff.Loop.{Stores, CutOff, receive_chunks-Stores}
use ati_tcp_file_transfer.Transport.Transfer.CutOff.Closing.{
  check_inventory-Stores, root_hash-Stores, check_root_hash-Stores, commit-Resumable,
  acknowledge-Resumable,
}

module _ (v : Server) (k : ℕ) (c path : List ℕ) (dest : FilePath) (ok : IsTransferable k c path)
    (streaming : IsStreaming v.hash)
    (binding : IsBinding v.hash c (file_manifest v.hash k c path)) where
  abbrev m : ManifestMsg
  m = file_manifest v.hash k c path

  abbrev Early : Failure → Session → Type 0
  Early = CutOff v k c path dest ok streaming binding

  abbrev Can : Files → Type 0
  Can = Resumable v k c path dest ok streaming

  abbrev Done : Session → Type 0
  Done s = Can s.files

  abbrev Here : Progress v.hash.Hasher → Session → Type 0
  Here = Stores v k c path dest ok streaming binding

  -- The sink of a loop whose disk is stored.
  abbrev SinkOfLoop : FileSink → Session → Type 0
  SinkOfLoop sink s = (q : Progress v.hash.Hasher) × (sink ≡ q.sink) × Here q s

  request_chunks-Stores :
      (q : Progress v.hash.Hasher) → Runs (Here q) (request_chunks q.state) (λ _. Here q) Early
  unfolding request_chunks
  request_chunks-Stores q =
      send_keeps_files (Storing v k c path dest ok streaming q) Done
        (λ s d. Storing-Resumable v k c path dest ok streaming q s.files d) _ _

  receive_partial-Stores :
      Runs (Shaken v k c path dest ok streaming Can) (receive_partial v m dest) SinkOfLoop Early
  unfolding receive_partial
  receive_partial-Stores =
      Runs-bind _ SinkOfLoop Early _ _ _ (load_state-Loaded v k c path dest ok streaming Early)
        (λ (state, resume).
          Runs-bind _ SinkOfLoop Early _ _ _
            (open_dest-Storing v k c path dest ok streaming Early state resume)
            (λ sink.
              let p = start_progress v.hash state sink resume in
              Runs-bind _ SinkOfLoop Early (λ _. Here p) _ _ (request_chunks-Stores p)
                (λ _.
                  Runs-bind _ SinkOfLoop Early (λ r. Here r.0) _ _
                    (receive_chunks-Stores v k c path dest ok streaming binding p)
                    (λ (q, client_final).
                      Runs-bind _ SinkOfLoop Early (λ _. Here q) _ _
                        (check_inventory-Stores v k c path dest ok streaming binding q resume)
                        (λ _.
                          Runs-bind _ SinkOfLoop Early _ _ _
                            (root_hash-Stores v k c path dest ok streaming binding q)
                            (λ (actual, sink'). record {
                              at = λ s (same, d).
                                  (Runs-bind _ SinkOfLoop Early (λ _. Here q) _ _
                                      (check_root_hash-Stores v k c path dest ok streaming binding q
                                        actual client_final)
                                      (λ _.
                                        Runs-pure _ SinkOfLoop Early _ (λ s' d'. (q, same, d')))).at
                                    s d;
                            }))))))

  receive_file-Resumable :
      Runs (Shaken v k c path dest ok streaming Can) (receive_file v m dest) (λ _. Done) Early
  unfolding receive_file
  receive_file-Resumable =
      let Q : Unit {0} → Session → Type 0 = λ _. Done in
      Runs-bind _ Q Early _ _ _ receive_partial-Stores (λ sink.
        Runs-bind _ Q Early (λ _. Done) _ _
          (record {
            at = λ s (q, same, d).
                rw same ((commit-Resumable v k c path dest ok streaming binding q).at s d);
          })
          (λ _. acknowledge-Resumable v k c path dest ok streaming binding))

  abbrev offer : List ℕ
  offer = wire FrameType.manifest (encode_manifest m)

  abbrev Quiet : List ℕ → Session → Type 0
  Quiet inc = Hears inc Can

  offered_whole :
      (rest : List ℕ)
      → resolve_dest v.root path ≡ some dest
      → Runs (Quiet (hello ++ (offer ++ rest))) (session v) (λ _. Done) Early
  unfolding session
  offered_whole rest resolved =
      let Q : Unit {0} → Session → Type 0 = λ _. Done in
      Runs-bind _ Q Early _ _ _ (handshake-Hears Can v (hello ++ (offer ++ rest))) (λ _.
        Runs-bind _ Q Early _ _ _ (exchange_hello-Hears v k c path ok streaming Can (offer ++ rest))
          (λ _.
            Runs-bind_known _ (Quiet rest) Q Early m _ _
              (receive_manifest-Hears v k c path ok streaming Can rest)
              (Reaches-known Done _ _ _ _ dest
                (choose_dest-Succeeds v k c path dest ok streaming (Quiet rest) resolved)
                (Runs-before _ _ Q Early _ (λ s h. (h.handshake, h.files))
                  receive_file-Resumable))))

  offered_part :
      (j : ℕ)
      → resolve_dest v.root path ≡ some dest
      → Runs (Quiet (take j (hello ++ offer))) (session v) (λ _. Done) Early
  unfolding session
  offered_part j resolved =
      let Q : Unit {0} → Session → Type 0 = λ _. Done in
      elim (Bool-cases (ltb j (length hello))) [
        | inl in_hello ↦
            let short = ltb→lt j (length hello) in_hello in
            let front : take j (hello ++ offer) ≡ take j hello =
              take-append_le j hello offer (omega (arith, short)) in
            rw front (
              Runs-bind _ Q Early _ _ _ (handshake-Hears Can v (take j hello)) (λ _.
                Runs-bind _ Q Early Fails _ _
                  (exchange_hello-short v k c path ok streaming Can j short)
                  (λ a. record { at = λ s nothing. elim nothing [ ] })))
        | inr past ↦
            let i : ℕ = j - length hello in
            let front : take j (hello ++ offer) ≡ hello ++ take i offer =
              take-append_past j hello offer (ltb_false→le j (length hello) past) in
            elim (Bool-cases (ltb i (length offer))) [
              | inl in_offer ↦ rw front (
                  Runs-bind _ Q Early _ _ _ (handshake-Hears Can v (hello ++ take i offer)) (λ _.
                    Runs-bind _ Q Early _ _ _
                      (exchange_hello-Hears v k c path ok streaming Can (take i offer))
                      (λ _.
                        Runs-bind _ Q Early Fails _ _
                          (receive_manifest-short v k c path ok streaming Can i
                            (ltb→lt i (length offer) in_offer))
                          (λ a. record { at = λ s nothing. elim nothing [ ] }))))
              | inr all ↦
                  let whole : hello ++ take i offer ≡ hello ++ (offer ++ []) =
                    ap (λ (l : List ℕ). hello ++ l)
                      (take_whole i offer (ltb_false→le i (length offer) all)
                        ∙ sym (append-nil offer)) in
                  rw (front ∙ whole) (offered_whole [] resolved)
            ]
      ]

  -- Wherever what the client sends ends.
  pub session-Resumable :
      (inc : List ℕ)
      → Offers v.hash k c path inc
      → resolve_dest v.root path ≡ some dest
      → Runs (Hears inc Can) (session v) (λ _. Done) Early
  session-Resumable inc (cut_short j same) resolved = rw same (offered_part j resolved)
  session-Resumable inc (and_more rest same) resolved = rw same (offered_whole rest resolved)
