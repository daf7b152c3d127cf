-- ===== src/Transport/Server/Store.antt =====
-- What the loop over the chunks of a file keeps of the partial file.
pub mod Chunks
use ati_tcp_file_transfer.Base.{
  ℕ, ◌+◌, ◌*◌, ◌%◌, ◌<◌, ◌≤◌, ◌==◌, ◌≡◌, ◌≢◌, sym, ap, ◌∙◌, arith, not, Bool, true, false,
}
use ati_tcp_file_transfer.Base.{
  Bool-cases, inl, inr, ◌&&◌, bytes_eq→eq, some, List, [], ◌++◌, length, length-append,
}
use ati_tcp_file_transfer.Util.Byteorder.{u32_mod}
use ati_tcp_file_transfer.Util.Blake3.{Blake3}
use ati_tcp_file_transfer.Proto.Messages.{ManifestMsg, ChunkMsg}
use ati_tcp_file_transfer.Io.Files.{FilePath, Files, overwrite}
use ati_tcp_file_transfer.Io.Files.Calm.{IsCalm}
use ati_tcp_file_transfer.Io.FileSink.{FileSink, with_partial_suffix, partial_suffix}
use ati_tcp_file_transfer.Io.ResumeState.Save.{tmp_path, tmp_suffix}
use ati_tcp_file_transfer.Transport.Session.{Session}
use ati_tcp_file_transfer.Transport.Session.Rules.{Runs, Runs-before}
use ati_tcp_file_transfer.Transport.Server.Text.{Text}
use ati_tcp_file_transfer.Transport.Server.Calls.{Server, reject}
use ati_tcp_file_transfer.Transport.Server.Start.{state_path, state_suffix}
use ati_tcp_file_transfer.Transport.Server.Receive.{Progress, take_in_order}
use ati_tcp_file_transfer.Transport.Server.Keeps.{SinkOf}
use ati_tcp_file_transfer.Transport.Server.Safety.{reject_keeps_files}
use ati_tcp_file_transfer.Transport.Server.ReadBack.{Never}
use ati_tcp_file_transfer.Transport.Server.Honest.{slice, Agrees, Agrees-overwrite}

-- A rejection returns nothing.
pub rejects :
    {A : Type 0} (P : Session → Type 0) (Q : A → Session → Type 0) (v : Server) (code : ℕ)
    (text : Text)
    → Runs P (reject {A = A} v code text) Q Never
rejects P Q v code text =
    Runs-before (λ _. Unit {0}) P Q Never _ (λ s h. tt)
      (reject_keeps_files (λ _. Unit {0}) (λ _. Unit {0}) (λ s h. tt) Q v code text)

pub partial-IsApart :
    (dest : FilePath)
    → (with_partial_suffix dest ≢ state_path dest)
      × (with_partial_suffix dest ≢ tmp_path (state_path dest))
unfolding with_partial_suffix state_path tmp_path
partial-IsApart dest = (
  λ e.
      omega
        (arith, ap length e, length-append dest partial_suffix, length-append dest state_suffix),
  λ e. omega (
    arith,
    ap length e,
    length-append dest partial_suffix,
    length-append (dest ++ state_suffix) tmp_suffix,
    length-append dest state_suffix,
  ),
)

pub not-false : (b : Bool) → not b ≡ false → b ≡ true
not-false b e = ground arith

module _ (c : List ℕ) (m : ManifestMsg) (resume : Bool) where
  -- The chunks before `next` have arrived in order in a fresh transfer.
  pub record InOrder (next chunks : ℕ) (w : List ℕ) : Type 0 where
    pub fresh : resume ≡ false
    pub agrees : Agrees (next * m.chunk_size) w c
    pub bound : next ≤ m.chunk_count
    pub counted : chunks ≡ next

  -- The partial file while chunks arrive.
  pub record Filled (dest : FilePath) (sink : FileSink) (in_order : Bool) (next chunks : ℕ)
      (fs : Files) : Type 0 where
    pub sink_of : SinkOf dest sink
    pub total : sink.total_size ≡ length c
    pub calm : IsCalm fs
    pub content : List ℕ
    pub there : fs.contents (with_partial_suffix dest) ≡ some content
    pub room : length c ≤ length content
    pub ordered : in_order ≡ true → InOrder next chunks content

  abbrev pub Inv : {H : Type 0} → FilePath → Progress H → Session → Type 0
  Inv dest q s = Filled dest q.sink q.all_in_order q.next_expected q.chunks_received s.files

  -- A chunk of the file.
  pub record IsChunk (chunk : ChunkMsg) : Type 0 where
    pub index : chunk.index < m.chunk_count
    pub bytes : chunk.bytes ≡ slice m.chunk_size c chunk.index

  InOrder-step :
      (i chunks : ℕ) (bytes w : List ℕ)
      → m.chunk_count < u32_mod
      → i < m.chunk_count
      → bytes ≡ slice m.chunk_size c i
      → i * m.chunk_size + length bytes ≤ length c
      → InOrder i chunks w
      → InOrder ((i + 1) % u32_mod) ((chunks + 1) % u32_mod) (overwrite w (i * m.chunk_size) bytes)
  InOrder-step i chunks bytes w count index same within before =
      let next : (i + 1) % u32_mod ≡ i + 1 = omega (arith, index, count) in
      let offset : (i + 1) * m.chunk_size ≡ i * m.chunk_size + m.chunk_size = omega arith in
      rw (next, before.counted)
        (record {
          fresh = before.fresh;
          agrees =
              rw (offset, same)
                (Agrees-overwrite (i * m.chunk_size) m.chunk_size w c before.agrees
                  (rw (sym same) within));
          bound = omega (arith, index);
          counted = next;
        })

  pub InOrder-next :
      (b : Blake3) (q : Progress b.Hasher) (chunk : ChunkMsg) (w : List ℕ)
      → m.chunk_count < u32_mod
      → IsChunk chunk
      → chunk.index * m.chunk_size + length chunk.bytes ≤ length c
      → (q.all_in_order ≡ true → InOrder q.next_expected q.chunks_received w)
      → (take_in_order b q chunk).all_in_order ≡ true
      → InOrder
          (take_in_order b q chunk).next_expected
          (((take_in_order b q chunk).chunks_received + 1) % u32_mod)
          (overwrite w (chunk.index * m.chunk_size) chunk.bytes)
  unfolding take_in_order
  InOrder-next b q chunk w count is_chunk within ordered e =
      elim (Bool-cases (q.all_in_order && chunk.index == q.next_expected)) [
        | inr other ↦ absurd (ground arith)
        | inl both ↦
            let before : InOrder q.next_expected q.chunks_received w = ordered (ground arith) in
            let same : q.next_expected ≡ chunk.index = ground arith in
            let index : q.next_expected < m.chunk_count = omega (arith, same, is_chunk.index) in
            let bytes : chunk.bytes ≡ slice m.chunk_size c q.next_expected =
              is_chunk.bytes ∙ ap (slice m.chunk_size c) (sym same) in
            let inside : q.next_expected * m.chunk_size + length chunk.bytes ≤ length c =
              rw same within in
            rw (both, sym same)
              (InOrder-step q.next_expected q.chunks_received chunk.bytes w count index bytes inside
                before)
      ]
