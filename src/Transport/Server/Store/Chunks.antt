-- ===== src/Transport/Server/Store/Chunks.antt =====
-- What a chunk of the file does to the partial file.
use ati_tcp_file_transfer.Base.{
  ℕ, ◌+◌, ◌*◌, ◌%◌, ◌<◌, ◌≤◌, ltb, ◌≡◌, sym, ap, ◌∙◌, arith, not, Bool, true,
}
use ati_tcp_file_transfer.Base.{
  bytes_eq, bytes_eq→eq, some, List, [], length, length-take, length-drop, drop, get_or,
}
use ati_tcp_file_transfer.Util.Byteorder.{u32_mod}
use ati_tcp_file_transfer.Util.Blake3.{Blake3, blake3}
use ati_tcp_file_transfer.Proto.Messages.{ManifestMsg, ChunkMsg}
use ati_tcp_file_transfer.Io.Files.{FilePath, Files, overwrite}
use ati_tcp_file_transfer.Io.Files.Overwrite.{length-overwrite}
use ati_tcp_file_transfer.Io.FileSink.{FileSink, with_partial_suffix, partial_path, write_at}
use ati_tcp_file_transfer.Io.FileSink.Laws.{write_at_sound, write_at-overwrite}
use ati_tcp_file_transfer.Io.FileSink.Others.{write_at-final_path}
use ati_tcp_file_transfer.Io.FileSink.Calm.{write_at-IsCalm, write_at-total_size, save-IsCalm}
use ati_tcp_file_transfer.Io.ResumeState.{ResumeState, mark_received}
use ati_tcp_file_transfer.Io.ResumeState.Save.{save}
use ati_tcp_file_transfer.Io.ResumeState.Save.Laws.{save-others}
use ati_tcp_file_transfer.Transport.Session.{Session}
use ati_tcp_file_transfer.Transport.Session.Rules.{
  Runs, Runs-pure, Runs-if, Runs-on_files, Runs-bind,
}
use ati_tcp_file_transfer.Transport.Server.Calls.{Server}
use ati_tcp_file_transfer.Transport.Server.Start.{state_path}
use ati_tcp_file_transfer.Transport.Server.Receive.{Progress, take_in_order, store_chunk, on_chunk}
use ati_tcp_file_transfer.Transport.Server.Keeps.{SinkOf}
use ati_tcp_file_transfer.Transport.Server.ReadBack.{Never, ltb-true}
use ati_tcp_file_transfer.Transport.Server.Honest.{IsManifestOf, IsBinding}
use ati_tcp_file_transfer.Transport.Server.Store.{
  rejects, partial-IsApart, not-false, Filled, Inv, IsChunk, InOrder-next,
}

take_in_order-kept :
    (b : Blake3) (q : Progress b.Hasher) (chunk : ChunkMsg)
    → (take_in_order b q chunk).sink ≡ q.sink
unfolding take_in_order
take_in_order-kept b q chunk = ground arith

module _ (v : Server) (c : List ℕ) (m : ManifestMsg) (resume : Bool) (dest : FilePath)
    (honest : IsManifestOf v.hash c m) where
  -- The write of a chunk that succeeds.
  pub written_Filled :
      (q : Progress v.hash.Hasher) (chunk : ChunkMsg) (fs : Files)
      → let q' = take_in_order v.hash q chunk in
        let w = write_at q'.sink fs (chunk.index * m.chunk_size) chunk.bytes in
        Filled c m resume dest q.sink q.all_in_order q.next_expected q.chunks_received fs
        → IsChunk c m resume chunk
        → w.0 ≡ true
        → Filled c m resume dest w.1 q'.all_in_order q'.next_expected
            ((q'.chunks_received + 1) % u32_mod)
            w.2
  written_Filled q chunk fs before is_chunk written =
      let q' = take_in_order v.hash q chunk in
      let offset = chunk.index * m.chunk_size in
      let same : q'.sink ≡ q.sink = take_in_order-kept v.hash q chunk in
      let good : SinkOf dest q'.sink = ap (λ (k : FileSink). k.final_path) same ∙ before.sink_of in
      let path : partial_path q'.sink ≡ with_partial_suffix dest = ap with_partial_suffix good in
      let there : fs.contents (partial_path q'.sink) ≡ some before.content =
        ap fs.contents path ∙ before.there in
      let total : q'.sink.total_size ≡ length c =
        ap (λ (k : FileSink). k.total_size) same ∙ before.total in
      let short : length chunk.bytes ≤ length c = omega (
        arith,
        ap length is_chunk.bytes,
        length-take m.chunk_size (drop (chunk.index * m.chunk_size) c),
        length-drop (chunk.index * m.chunk_size) c,
      ) in
      let sound =
        write_at_sound q'.sink fs offset chunk.bytes before.content there
          (omega (arith, total, before.room)) (omega (arith, short, honest.fits)) written in
      let within : offset + length chunk.bytes ≤ length c = omega (arith, sound.0, total) in
      record {
        sink_of = write_at-final_path q'.sink fs offset chunk.bytes ∙ good;
        total = write_at-total_size q'.sink fs offset chunk.bytes ∙ total;
        calm = write_at-IsCalm q'.sink fs offset chunk.bytes before.calm;
        content = overwrite before.content offset chunk.bytes;
        there =
            ap (write_at q'.sink fs offset chunk.bytes).2.contents (sym path)
            ∙ write_at-overwrite q'.sink fs offset chunk.bytes before.content there written;
        room = omega (
          arith,
          length-overwrite before.content offset chunk.bytes (omega (arith, within, before.room)),
          before.room,
        );
        ordered =
            InOrder-next c m resume v.hash q chunk before.content honest.count is_chunk within
              before.ordered;
      }

  -- The save of a resume state.
  pub saved_Filled :
      (sink : FileSink) (in_order : Bool) (next chunks : ℕ) (state : ResumeState) (fs : Files)
      → Filled c m resume dest sink in_order next chunks fs
      → Filled c m resume dest sink in_order next chunks (save state fs (state_path dest)).1
  saved_Filled sink in_order next chunks state fs f = record {
    sink_of = f.sink_of;
    total = f.total;
    content = f.content;
    room = f.room;
    ordered = f.ordered;
    calm = save-IsCalm state fs (state_path dest) f.calm;
    there =
        save-others state fs (state_path dest) (with_partial_suffix dest) (partial-IsApart dest).0
          (partial-IsApart dest).1
        ∙ f.there;
  }

  store_chunk-Runs :
      (q : Progress v.hash.Hasher) (chunk : ChunkMsg)
      → IsChunk c m resume chunk
      → Runs
          (Inv c m resume dest q)
          (store_chunk v m (state_path dest) (take_in_order v.hash q chunk) chunk)
          (Inv c m resume dest)
          Never
  unfolding store_chunk
  store_chunk-Runs q chunk is_chunk =
      let q' = take_in_order v.hash q chunk in
      let F : FileSink → Session → Type 0 = λ sink s.
        Filled c m resume dest sink q'.all_in_order q'.next_expected
          ((q'.chunks_received + 1) % u32_mod) s.files in
      Runs-bind (Inv c m resume dest q) (Inv c m resume dest) Never
        (λ (r : Bool × FileSink) s. r.0 ≡ true → F r.1 s) _ _
        (Runs-on_files (Inv c m resume dest q) _ Never _
          (λ s before written. written_Filled q chunk s.files before is_chunk written))
        λ (written, sink).
          Runs-if _ (Inv c m resume dest) Never (not written) _ _
            (λ _. rejects _ (Inv c m resume dest) v _ _)
            λ good.
              Runs-bind _ (Inv c m resume dest) Never (λ _. F sink) _ _
                (Runs-on_files _ (λ _. F sink) Never _
                  (λ s filled.
                    saved_Filled sink _ _ _ (mark_received q'.state chunk.index) s.files
                      (filled (not-false written good))))
                (λ _. Runs-pure (F sink) (Inv c m resume dest) Never _ (λ s f. f))

  pub IsChunk-of_file :
      (chunk : ChunkMsg)
      → IsBinding v.hash c m
      → chunk.index < m.chunk_count
      → bytes_eq (blake3 v.hash chunk.bytes) chunk.hash ≡ true
      → bytes_eq (get_or m.chunk_hashes chunk.index []) chunk.hash ≡ true
      → IsChunk c m resume chunk
  IsChunk-of_file chunk binding index computed declared = record {
    index = index;
    bytes = binding.chunk chunk.index chunk.bytes index (
        bytes_eq→eq _ _ computed
        ∙ sym (bytes_eq→eq _ _ declared)
        ∙ honest.hashes chunk.index index);
  }

  pub on_chunk-Runs :
      (q : Progress v.hash.Hasher) (chunk : ChunkMsg)
      → IsBinding v.hash c m
      → Runs
          (Inv c m resume dest q)
          (on_chunk v m (state_path dest) q chunk)
          (Inv c m resume dest)
          Never
  unfolding on_chunk
  on_chunk-Runs q chunk binding =
      let P = Inv c m resume dest q in
      let Q = Inv c m resume dest in
      Runs-if P Q Never (not (ltb chunk.index m.chunk_count)) _ _ (λ _. rejects P Q v _ _)
        λ index.
          Runs-if P Q Never (not (bytes_eq (blake3 v.hash chunk.bytes) chunk.hash)) _ _
            (λ _. rejects P Q v _ _)
            λ computed.
              Runs-if P Q Never (not (bytes_eq (get_or m.chunk_hashes chunk.index []) chunk.hash)) _
                _ (λ _. rejects P Q v _ _)
                λ declared. store_chunk-Runs q chunk (
                  IsChunk-of_file chunk binding (ltb-true _ _ (not-false _ index))
                    (not-false _ computed) (not-false _ declared))
