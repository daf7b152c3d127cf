-- ===== src/Transport/Transfer/Resume/Store.antt =====
-- The variables of the loop and the partial file, while the missing chunks of a file arrive.
use mathlib.Core.Path.{subst}
use ati_tcp_file_transfer.Base.{ℕ, ◌+◌, ◌*◌, ◌%◌, ◌<◌, ◌≤◌, ◌≡◌, sym, ap, ◌∙◌, arith, true, false}
use ati_tcp_file_transfer.Base.{some, List, ◌∷◌, length, length-take, length-drop, drop, All}
use ati_tcp_file_transfer.Util.Byteorder.{u32_mod, u64_mod}
use ati_tcp_file_transfer.Util.Blake3.{IsStreaming, blake3}
use ati_tcp_file_transfer.Proto.Messages.{ChunkMsg}
use ati_tcp_file_transfer.Io.Files.{FilePath, Files}
use ati_tcp_file_transfer.Io.Files.Calm.{IsCalm}
use ati_tcp_file_transfer.Io.FileSink.{FileSink, with_partial_suffix, write_at, partial_path}
use ati_tcp_file_transfer.Io.FileSink.Laws.{write_at_sound}
use ati_tcp_file_transfer.Io.FileSink.Calm.{write_at-IsCalm, save-IsCalm}
use ati_tcp_file_transfer.Io.FileSink.Succeeds.{write_at-succeeds}
use ati_tcp_file_transfer.Io.ResumeState.{ResumeState, mark_received, missing_from}
use ati_tcp_file_transfer.Io.ResumeState
use ati_tcp_file_transfer.Io.ResumeState.Laws.{IsValid, mark_received-IsValid}
use ati_tcp_file_transfer.Io.ResumeState.Missing.{
  missing_from-bounds, mark_received-chunk_count, missing-mark_received,
}
use ati_tcp_file_transfer.Io.ResumeState.Save.{save}
use ati_tcp_file_transfer.Io.ResumeState.Save.Laws.{save-others}
use ati_tcp_file_transfer.Transport.Server.Calls.{Server}
use ati_tcp_file_transfer.Transport.Server.Start.{state_path}
use ati_tcp_file_transfer.Transport.Server.Receive.{Progress, take_in_order}
use ati_tcp_file_transfer.Transport.Server.Honest.{slice}
use ati_tcp_file_transfer.Transport.Server.Store.{partial-IsApart}
use ati_tcp_file_transfer.Transport.Transfer.{IsTransferable}
use ati_tcp_file_transfer.Transport.Transfer.Fits.{n, chunk_starts}
use ati_tcp_file_transfer.Transport.Transfer.Resume.{Holds, Holds-stored}

module _ (v : Server) (k : ℕ) (c path : List ℕ) (dest : FilePath) (ok : IsTransferable k c path)
    (streaming : IsStreaming v.hash) where
  abbrev pub chunk_of : ℕ → ChunkMsg
  chunk_of i = record { index = i; hash = blake3 v.hash (slice k c i); bytes = slice k c i }

  -- The loop's variables in any transfer of the file.
  pub record Steady (q : Progress v.hash.Hasher) : Type 0 where
    pub is_open : q.sink.is_open ≡ true
    pub total : q.sink.total_size ≡ length c
    pub sink_of : q.sink.final_path ≡ dest
    pub valid : IsValid q.state
    pub count : q.state.chunk_count ≡ n k c path ok

  -- In a resumed transfer, with these chunks to come.
  pub record Going (left : List ℕ) (q : Progress v.hash.Hasher) : Type 0 where
    pub steady : Steady q
    pub in_order : q.all_in_order ≡ false
    pub missing : ResumeState.missing q.state ≡ left

  -- The partial file has the chunks that are set.
  pub record Partial (state : ResumeState) (fs : Files) : Type 0 where
    pub calm : IsCalm fs
    pub content : List ℕ
    pub there : fs.contents (with_partial_suffix dest) ≡ some content
    pub holds : Holds k c state content

  abbrev pub after : Progress v.hash.Hasher → ℕ → Progress v.hash.Hasher
  after q i =
      let q' = take_in_order v.hash q (chunk_of i) in
      record {
        state = mark_received q'.state i;
        sink = q'.sink;
        bytes_received = (q'.bytes_received + length (slice k c i)) % u64_mod;
        chunks_received = (q'.chunks_received + 1) % u32_mod;
        inorder_root_hasher = q'.inorder_root_hasher;
        all_in_order = q'.all_in_order;
        next_expected = q'.next_expected;
      }

  within_file : (i : ℕ) → i < n k c path ok → i * k + length (slice k c i) ≤ length c
  within_file i h =
      omega
        (arith, chunk_starts k c path ok i h, length-take k (drop (i * k) c), length-drop (i * k) c)

  pub kept :
      (q : Progress v.hash.Hasher) (chunk : ChunkMsg)
      → ((take_in_order v.hash q chunk).sink ≡ q.sink)
        × ((take_in_order v.hash q chunk).state ≡ q.state)
        × (q.all_in_order ≡ false → (take_in_order v.hash q chunk).all_in_order ≡ false)
  unfolding take_in_order
  kept q chunk = (ground arith, ground arith, λ e. ground arith)

  pub below :
      (i : ℕ) (rest : List ℕ) (q : Progress v.hash.Hasher) → Going (i ∷ rest) q → i < n k c path ok
  unfolding ResumeState.missing
  below i rest q g =
      let all =
        (missing_from-bounds q.state q.state.chunk_count q.state.chunk_count 0 (omega arith)).1 in
      let first =
        subst (λ (l : List ℕ). All (λ (j : ℕ). j < q.state.chunk_count) l) g.missing all in
      omega (arith, first.0, g.steady.count)

  -- The variables behind a chunk that was stored.
  pub Steady-marked :
      (i : ℕ) (q p : Progress v.hash.Hasher)
      → p.sink ≡ q.sink
      → p.state ≡ mark_received q.state i
      → Steady q
      → Steady p
  Steady-marked i q p sink state g = record {
    is_open = ap (λ (x : FileSink). x.is_open) sink ∙ g.is_open;
    total = ap (λ (x : FileSink). x.total_size) sink ∙ g.total;
    sink_of = ap (λ (x : FileSink). x.final_path) sink ∙ g.sink_of;
    valid = rw state (mark_received-IsValid q.state i g.valid);
    count = rw state (mark_received-chunk_count q.state i ∙ g.count);
  }

  pub Going-after :
      (i : ℕ) (rest : List ℕ) (q : Progress v.hash.Hasher)
      → Going (i ∷ rest) q
      → Going rest (after q i)
  Going-after i rest q g =
      let (sink, state, order) = kept q (chunk_of i) in
      let there : i < q.state.chunk_count = omega (arith, below i rest q g, g.steady.count) in
      record {
        steady =
            Steady-marked i q (after q i) sink (ap (λ (x : ResumeState). mark_received x i) state)
              g.steady;
        in_order = order g.in_order;
        missing = rw state (missing-mark_received q.state i rest g.steady.valid there g.missing);
      }

  pub written :
      (i : ℕ) (q : Progress v.hash.Hasher) (sink : FileSink) (fs : Files)
      → i < n k c path ok
      → sink ≡ q.sink
      → Steady q
      → Partial q.state fs
      → ((write_at sink fs (i * k) (slice k c i)).0 ≡ true)
        × ((write_at sink fs (i * k) (slice k c i)).1 ≡ sink)
        × Partial (mark_received q.state i) (write_at sink fs (i * k) (slice k c i)).2
  written i q sink fs h same g d =
      let total : sink.total_size ≡ length c = ap (λ (x : FileSink). x.total_size) same ∙ g.total in
      let within = within_file i h in
      let path : partial_path sink ≡ with_partial_suffix dest =
        ap (λ (x : FileSink). with_partial_suffix x.final_path) same
        ∙ ap with_partial_suffix g.sink_of in
      let (good, kept_sink) =
        write_at-succeeds sink fs (i * k) (slice k c i) d.calm
          (ap (λ (x : FileSink). x.is_open) same ∙ g.is_open) (omega (arith, total, within))
          (omega (arith, total, ok.fits)) in
      let (fits, (content', there', size, bytes), others) =
        write_at_sound sink fs (i * k) (slice k c i) d.content (ap fs.contents path ∙ d.there)
          (omega (arith, total, d.holds.size)) (omega (arith, within, ok.fits)) good in
      (
        good,
        kept_sink,
        record {
          calm = write_at-IsCalm sink fs (i * k) (slice k c i) d.calm;
          content = content';
          there = ap (write_at sink fs (i * k) (slice k c i)).2.contents (sym path) ∙ there';
          holds =
              Holds-stored k c d.content content' q.state i ok.pos g.valid
                (omega (arith, h, g.count)) size bytes d.holds;
        },
      )

  pub saved :
      (state state' : ResumeState) (fs : Files)
      → Partial state fs
      → Partial state (save state' fs (state_path dest)).1
  saved state state' fs d = record {
    calm = save-IsCalm state' fs (state_path dest) d.calm;
    content = d.content;
    there =
        save-others state' fs (state_path dest) (with_partial_suffix dest) (partial-IsApart dest).0
          (partial-IsApart dest).1
        ∙ d.there;
    holds = d.holds;
  }
