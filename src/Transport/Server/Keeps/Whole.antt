-- ===== src/Transport/Server/Keeps/Whole.antt =====
-- Which files the end of a session, and a whole session, change.
use ati_tcp_file_transfer.Base.{ℕ, zero, suc, ◌+◌, ◌==◌, ltb, ◌≡◌, ◌≢◌, ap, ◌∙◌, not, Bool}
use ati_tcp_file_transfer.Base.{bytes_eq, Option, none, some, List, length}
use ati_tcp_file_transfer.Util.Blake3.{finalize, new_hasher}
use ati_tcp_file_transfer.Proto.Cursor.{Hash}
use ati_tcp_file_transfer.Proto.Messages.{ManifestMsg}
use ati_tcp_file_transfer.Io.Files.{FilePath, read_bytes, next_outcome}
use ati_tcp_file_transfer.Io.Files.Laws.{remove-contents, open_existing-contents}
use ati_tcp_file_transfer.Io.FileSink.{FileSink, with_partial_suffix, partial_path}
use ati_tcp_file_transfer.Io.FileSink.Others.{flush-others, finalize-others, flush-final_path}
use ati_tcp_file_transfer.Io.ResumeState.{complete}
use ati_tcp_file_transfer.Io.ResumeState.Save.{remove}
use ati_tcp_file_transfer.Transport.Session.{Session, Exec}
use ati_tcp_file_transfer.Transport.Session.Rules.{
  Keeps, Keeps-pure, Keeps-if, Keeps-on_files, Keeps-bind,
}
use ati_tcp_file_transfer.Transport.Server.Dest.{resolve_dest}
use ati_tcp_file_transfer.Transport.Server.Calls.{Server, Failure}
use ati_tcp_file_transfer.Transport.Server.Start.{state_path}
use ati_tcp_file_transfer.Transport.Server.Receive.{Progress, start_progress}
use ati_tcp_file_transfer.Transport.Server.Finish.{
  check_inventory, block_size, take_block, receive_partial, hash_blocks, hash_file, root_hash,
  check_root_hash, commit, acknowledge, receive_file, session,
}
use ati_tcp_file_transfer.Transport.Server.Keeps.{
  Any, SinkOf, K, send-Keeps, reject-Keeps, handshake-Keeps, exchange_hello-Keeps,
  receive_manifest-Keeps, choose_dest-Keeps, load_state-Keeps, open_dest-Keeps,
  request_chunks-Keeps,
}
use ati_tcp_file_transfer.Transport.Server.Keeps.Body.{IsApart, receive_chunks-Keeps}

module _ (p : FilePath) (o : Option (List ℕ)) (v : Server) where
  abbrev pub Kept : Session → Type 0
  Kept = K p o

  abbrev Ok : {A : Type 0} → FilePath → A × FileSink → Type 0
  Ok dest r = SinkOf dest r.1

  check_inventory-Keeps :
      (m : ManifestMsg) (resume_active : Bool) (q : Progress v.hash.Hasher)
      → Keeps Kept (check_inventory v m resume_active q) Any
  unfolding check_inventory
  check_inventory-Keeps m resume_active q =
      Keeps-if Kept Any resume_active _ _
        (λ _.
          Keeps-if Kept Any (not (complete q.state)) _ _ (λ _. reject-Keeps p o Any v _ _)
            (λ _. Keeps-pure Kept Any tt tt))
        λ _.
          Keeps-if Kept Any (not (q.bytes_received == m.file_size)) _ _
            (λ _. reject-Keeps p o Any v _ _)
            λ _.
              Keeps-if Kept Any (not (q.chunks_received == m.chunk_count)) _ _
                (λ _. reject-Keeps p o Any v _ _) (λ _. Keeps-pure Kept Any tt tt)

  take_block-Keeps :
      (next : v.hash.Hasher → Exec Failure v.hash.Hasher)
      → ((h : v.hash.Hasher) → Keeps Kept (next h) Any)
      → (h : v.hash.Hasher) (got : Option (List ℕ)) → Keeps Kept (take_block v.hash next h got) Any
  unfolding take_block
  take_block-Keeps next rest h none = Keeps-pure Kept Any h tt
  take_block-Keeps next rest h (some block) =
      Keeps-if Kept Any (ltb (length block) block_size) _ _ (λ _. Keeps-pure Kept Any _ tt)
        (λ _. rest _)

  hash_blocks-Keeps :
      (path : FilePath) (rounds offset : ℕ) (h : v.hash.Hasher)
      → Keeps Kept (hash_blocks v.hash path rounds offset h) Any
  unfolding hash_blocks read_bytes next_outcome
  hash_blocks-Keeps path zero offset h = Keeps-pure Kept Any h tt
  hash_blocks-Keeps path (suc rounds) offset h =
      Keeps-bind Kept Any Any _ _ (Keeps-on_files Kept Any _ (λ s k. (tt, k)))
        λ got _. take_block-Keeps _ (hash_blocks-Keeps path rounds (offset + block_size)) h got

  hash_file-Keeps : (path : FilePath) → Keeps Kept (hash_file v.hash path) Any
  unfolding hash_file
  hash_file-Keeps path = record {
    at = λ s.
        (Keeps-bind Kept Any Any _ _ (hash_blocks-Keeps path _ 0 (new_hasher v.hash))
            (λ h _. Keeps-pure Kept Any (finalize v.hash h) tt)).at
          s;
  }

  root_hash-Keeps :
      (dest : FilePath) (q : Progress v.hash.Hasher)
      → SinkOf dest q.sink
      → Keeps Kept (root_hash v q) (λ r. SinkOf dest r.1)
  unfolding root_hash
  root_hash-Keeps dest q good =
      Keeps-if Kept (Ok dest) q.all_in_order _ _ (λ _. Keeps-pure Kept (Ok dest) _ good)
        λ _.
          Keeps-bind Kept (Ok dest) (Ok dest) _ _
            (Keeps-on_files Kept (Ok dest) _ (λ s k. (
              flush-final_path q.sink s.files ∙ good,
              ap (λ f. f p) (flush-others q.sink s.files) ∙ k,
            )))
            λ (flushed, sink) good'.
              Keeps-if Kept (Ok dest) (not flushed) _ _ (λ _. reject-Keeps p o (Ok dest) v _ _)
                λ _.
                  Keeps-bind Kept Any (Ok dest) _ _
                    (Keeps-on_files Kept Any _ (λ s k.
                      (tt, (λ i. open_existing-contents s.files (partial_path sink) i p) ∙ k)))
                    λ reopened _.
                      Keeps-if Kept (Ok dest) (not reopened) _ _
                        (λ _. reject-Keeps p o (Ok dest) v _ _)
                        λ _.
                          Keeps-bind Kept Any (Ok dest) _ _ (hash_file-Keeps (partial_path sink))
                            λ hash _. Keeps-pure Kept (Ok dest) (hash, sink) good'

  check_root_hash-Keeps :
      (m : ManifestMsg) (actual client_final : Hash)
      → Keeps Kept (check_root_hash v m actual client_final) Any
  unfolding check_root_hash
  check_root_hash-Keeps m actual client_final =
      Keeps-if Kept Any (not (bytes_eq actual m.root_hash)) _ _ (λ _. reject-Keeps p o Any v _ _)
        λ _.
          Keeps-if Kept Any (not (bytes_eq actual client_final)) _ _
            (λ _. reject-Keeps p o Any v _ _) (λ _. Keeps-pure Kept Any tt tt)

  pub receive_partial-Keeps :
      (m : ManifestMsg) (dest : FilePath)
      → IsApart p dest
      → Keeps Kept (receive_partial v m dest) (SinkOf dest)
  unfolding receive_partial
  receive_partial-Keeps m dest apart =
      Keeps-bind Kept Any (SinkOf dest) _ _ (load_state-Keeps p o v m dest apart.state)
        λ (state, resume_active) _.
          Keeps-bind Kept (SinkOf dest) (SinkOf dest) _ _
            (open_dest-Keeps p o v m dest resume_active apart.partial)
            λ sink good.
              Keeps-bind Kept Any (SinkOf dest) _ _ (request_chunks-Keeps p o state) λ _ _.
                Keeps-bind Kept (λ r. SinkOf dest r.0.sink) (SinkOf dest) _ _
                  (receive_chunks-Keeps p o v m dest apart
                    (start_progress v.hash state sink resume_active) good)
                  λ (q, client_final) good'.
                    Keeps-bind Kept Any (SinkOf dest) _ _ (check_inventory-Keeps m resume_active q)
                      λ _ _.
                        Keeps-bind Kept (λ r. SinkOf dest r.1) (SinkOf dest) _ _
                          (root_hash-Keeps dest q good')
                          λ (actual, sink') good''.
                            Keeps-bind Kept Any (SinkOf dest) _ _
                              (check_root_hash-Keeps m actual client_final)
                              (λ _ _. Keeps-pure Kept (SinkOf dest) sink' good'')

  commit-Keeps :
      (dest : FilePath) (sink : FileSink)
      → IsApart p dest
      → p ≢ dest
      → SinkOf dest sink
      → Keeps Kept (commit v sink (state_path dest)) Any
  unfolding commit remove
  commit-Keeps dest sink apart other good =
      Keeps-bind Kept (Ok dest) Any _ _
        (Keeps-on_files Kept (Ok dest) _ (λ s k.
          (flush-final_path sink s.files ∙ good, ap (λ f. f p) (flush-others sink s.files) ∙ k)))
        λ (flushed, sink') good'.
          Keeps-if Kept Any (not flushed) _ _ (λ _. reject-Keeps p o Any v _ _)
            λ _.
              Keeps-bind Kept Any Any _ _
                (Keeps-on_files Kept Any _ (λ s k. (
                  tt,
                  finalize-others sink' s.files p
                        (λ e. apart.partial (e ∙ ap with_partial_suffix good'))
                        (λ e. other (e ∙ good'))
                      ∙ k,
                )))
                λ (finalized, sink'') _.
                  Keeps-if Kept Any (not finalized) _ _ (λ _. reject-Keeps p o Any v _ _)
                    λ _.
                      Keeps-bind Kept Any Any _ _
                        (Keeps-on_files Kept Any _ (λ s k.
                          (tt, remove-contents s.files (state_path dest) p apart.state ∙ k)))
                        (λ _ _. Keeps-pure Kept Any tt tt)

  pub receive_file-Keeps :
      (m : ManifestMsg) (dest : FilePath)
      → IsApart p dest
      → p ≢ dest
      → Keeps Kept (receive_file v m dest) Any
  unfolding receive_file acknowledge
  receive_file-Keeps m dest apart other =
      Keeps-bind Kept (SinkOf dest) Any _ _ (receive_partial-Keeps m dest apart) λ sink good.
        Keeps-bind Kept Any Any _ _ (commit-Keeps dest sink apart other good)
          λ _ _. send-Keeps p o _ _

  pub session-Keeps :
      ((rel dest : FilePath) → resolve_dest v.root rel ≡ some dest → IsApart p dest × p ≢ dest)
      → Keeps Kept (session v) Any
  unfolding session
  session-Keeps outside = Keeps-bind Kept Any Any _ _ (handshake-Keeps p o v) λ _ _.
      Keeps-bind Kept Any Any _ _ (exchange_hello-Keeps p o v) λ _ _.
        Keeps-bind Kept Any Any _ _ (receive_manifest-Keeps p o v) λ m _.
          Keeps-bind Kept (λ dest. resolve_dest v.root m.path ≡ some dest) Any _ _
            (choose_dest-Keeps p o v m)
            λ dest found.
              receive_file-Keeps m dest (outside m.path dest found).0 (outside m.path dest found).1
