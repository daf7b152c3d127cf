-- ===== src/Transport/Transfer/Grows/Whole.antt =====
-- What Server::handle_session_ has written stays written: the hash of what came, and the whole.
use ati_tcp_file_transfer.Base.{ℕ, zero, suc, ◌+◌, ltb, not, Bool, Option, none, some, List, length}
use ati_tcp_file_transfer.Util.Blake3.{finalize, new_hasher}
use ati_tcp_file_transfer.Proto.Types.{FrameType}
use ati_tcp_file_transfer.Proto.Messages.{ManifestMsg}
use ati_tcp_file_transfer.Io.Files.{FilePath, Files, open_existing}
use ati_tcp_file_transfer.Io.FileSink.{FileSink, partial_path}
use ati_tcp_file_transfer.Io.FileSink
use ati_tcp_file_transfer.Transport.Session.{Exec, pure, ◌>>=◌}
use ati_tcp_file_transfer.Transport.Server.Calls.{Server, Failure}
use ati_tcp_file_transfer.Transport.Server.Start.{state_path, on_sink}
use ati_tcp_file_transfer.Io.ResumeState.Save.{remove}
use ati_tcp_file_transfer.Transport.Server.Receive.{Progress, receive_chunks, start_progress}
use ati_tcp_file_transfer.Transport.Server.Finish.{
  check_inventory, block_size, take_block, hash_blocks, hash_file, root_hash, check_root_hash,
  commit, acknowledge, receive_partial, receive_file,
}
use ati_tcp_file_transfer.Transport.Transfer.Grows.{
  Grows, Grows-pure, Grows-if, Grows-on_files, Grows-bind,
}
use ati_tcp_file_transfer.Transport.Transfer.Grows.Receiver.{
  send-Grows, guard, load_state-Grows, open_dest-Grows, request_chunks-Grows, receive_chunks-Grows,
  check_inventory-Grows, check_root_hash-Grows,
}

module _ (o : List ℕ) (v : Server) where
  take_block-Grows :
      (next : v.hash.Hasher → Exec Failure v.hash.Hasher)
      → ((h : v.hash.Hasher) → Grows o (next h))
      → (h : v.hash.Hasher) (got : Option (List ℕ)) → Grows o (take_block v.hash next h got)
  unfolding take_block
  take_block-Grows next rest h none = Grows-pure o h
  take_block-Grows next rest h (some block) =
      Grows-if o (ltb (length block) block_size) _ _ (Grows-pure o _) (rest _)

  hash_blocks-Grows :
      (path : FilePath) (rounds offset : ℕ) (h : v.hash.Hasher)
      → Grows o (hash_blocks v.hash path rounds offset h)
  unfolding hash_blocks
  hash_blocks-Grows path zero offset h = Grows-pure o h
  hash_blocks-Grows path (suc rounds) offset h =
      Grows-bind o _ _ (Grows-on_files o _)
        (λ got. take_block-Grows _ (hash_blocks-Grows path rounds (offset + block_size)) h got)

  hash_file-Grows : (path : FilePath) → Grows o (hash_file v.hash path)
  unfolding hash_file
  hash_file-Grows path = record {
    at = λ s.
        (Grows-bind o _ _ (hash_blocks-Grows path _ 0 (new_hasher v.hash))
            (λ h. Grows-pure o (finalize v.hash h))).at
          s;
  }

  on_sink-Grows :
      {A : Type 0} (f : Files → A × FileSink × Files) → Grows {E = Failure} o (on_sink f)
  on_sink-Grows f = Grows-on_files o _

  root_hash-Grows : (q : Progress v.hash.Hasher) → Grows o (root_hash v q)
  unfolding root_hash
  root_hash-Grows q = Grows-if o q.all_in_order _ _ (Grows-pure o _) (
      Grows-bind o _ _ (on_sink-Grows (FileSink.flush q.sink)) (λ (flushed, sink).
        guard o v (not flushed) _ _ _ (
          Grows-bind o _ _ (Grows-on_files o (λ fs. open_existing fs (partial_path sink)))
            (λ reopened. guard o v (not reopened) _ _ _ (
              Grows-bind o _ _ (hash_file-Grows (partial_path sink))
                (λ hash. Grows-pure o (hash, sink)))))))

  commit-Grows : (sink : FileSink) (state_file : FilePath) → Grows o (commit v sink state_file)
  unfolding commit
  commit-Grows sink state_file =
      Grows-bind o _ _ (on_sink-Grows (FileSink.flush sink)) (λ (flushed, sink').
        guard o v (not flushed) _ _ _ (
          Grows-bind o _ _ (on_sink-Grows (FileSink.finalize sink')) (λ (finalized, sink'').
            guard o v (not finalized) _ _ _ (
              Grows-bind o _ _ (Grows-on_files o (λ fs. (tt, remove fs state_file)))
                (λ _. Grows-pure o tt)))))

  -- The session behind REQ_CHUNKS, up to the check of the root hash.
  pub behind_request-Grows :
      (m : ManifestMsg) (dest : FilePath) (q : Progress v.hash.Hasher) (resume : Bool)
      → Grows o (
          receive_chunks v m (state_path dest) q >>= λ (p, client_final).
          check_inventory v m resume p >>= λ _. root_hash v p >>= λ (actual, sink).
          check_root_hash v m actual client_final >>= λ _. pure sink)
  behind_request-Grows m dest q resume =
      Grows-bind o _ _ (receive_chunks-Grows o v m dest q) (λ (p, client_final).
        Grows-bind o _ _ (check_inventory-Grows o v m dest resume p) (λ _.
          Grows-bind o _ _ (root_hash-Grows p) (λ (actual, sink).
            Grows-bind o _ _ (check_root_hash-Grows o v m dest actual client_final)
              (λ _. Grows-pure o sink))))

  -- The session behind that.
  pub finish-Grows :
      (m : ManifestMsg) (dest : FilePath) (sink : FileSink)
      → Grows o (commit v sink (state_path dest) >>= λ _. acknowledge m)
  unfolding acknowledge
  finish-Grows m dest sink =
      Grows-bind o _ _ (commit-Grows sink (state_path dest)) (λ _. send-Grows o v FrameType.ack _)

  receive_partial-Grows : (m : ManifestMsg) (dest : FilePath) → Grows o (receive_partial v m dest)
  unfolding receive_partial
  receive_partial-Grows m dest = Grows-bind o _ _ (load_state-Grows o v m dest) (λ (state, resume).
      Grows-bind o _ _ (open_dest-Grows o v m dest resume) (λ sink.
        Grows-bind o _ _ (request_chunks-Grows o v state)
          (λ _. behind_request-Grows m dest (start_progress v.hash state sink resume) resume)))

  pub receive_file-Grows : (m : ManifestMsg) (dest : FilePath) → Grows o (receive_file v m dest)
  unfolding receive_file
  receive_file-Grows m dest =
      Grows-bind o _ _ (receive_partial-Grows m dest) (λ sink. finish-Grows m dest sink)
