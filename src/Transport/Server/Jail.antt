-- ===== src/Transport/Server/Jail.antt =====
-- The root directory: where Server::resolve_dest_ puts a destination, and what a session may change.
use ati_tcp_file_transfer.Base.{ℕ, ◌≡◌, ◌≢◌, refl, ap, arith, true, false}
use ati_tcp_file_transfer.Base.{some, List, [], ◌∷◌, ◌++◌}
use ati_tcp_file_transfer.Io.Files.{FilePath}
use ati_tcp_file_transfer.Io.FileSink.{with_partial_suffix, partial_suffix}
use ati_tcp_file_transfer.Io.ResumeState.Save.{tmp_path, tmp_suffix}
use ati_tcp_file_transfer.Transport.Session.{Session}
use ati_tcp_file_transfer.Transport.Server.Dest.{resolve_dest}
use ati_tcp_file_transfer.Transport.Server.Calls.{Server}
use ati_tcp_file_transfer.Transport.Server.Start.{state_path, state_suffix}
use ati_tcp_file_transfer.Io.Paths.{starts_with, lexically_normal}
use ati_tcp_file_transfer.Transport.Server.Dest.{is_path_safe}
use ati_tcp_file_transfer.Transport.Server.Finish.{handle_session}
use ati_tcp_file_transfer.Transport.Server.Safety.{IsOther, handle_session-others}

-- A destination is given for a safe path only, and starts with the text of the normalised root.
pub resolve_dest_sound :
    (root rel dest : FilePath)
    → resolve_dest root rel ≡ some dest
    → (is_path_safe rel ≡ true) × (starts_with (lexically_normal root) dest ≡ true)
unfolding resolve_dest
resolve_dest_sound root rel dest found = (ground arith, ground arith)

starts_with-append :
    (prefix s t : List ℕ) → starts_with prefix s ≡ true → starts_with prefix (s ++ t) ≡ true
unfolding starts_with
starts_with-append [] s t e = refl
starts_with-append (b ∷ prefix) [] t e = absurd (ground arith)
starts_with-append (b ∷ prefix) (c ∷ s) t e = ground (arith, starts_with-append prefix s t)

apart_by_prefix :
    (root p s : List ℕ) → starts_with root p ≡ false → starts_with root s ≡ true → p ≢ s
apart_by_prefix root p s outside inside e = ground (arith, ap (starts_with root) e)

outside-IsOther :
    (root p dest : FilePath)
    → starts_with root p ≡ false
    → starts_with root dest ≡ true
    → IsOther p dest
unfolding with_partial_suffix state_path tmp_path
outside-IsOther root p dest outside inside =
    let state = starts_with-append root dest state_suffix inside in
    record {
      apart = record {
        partial =
            apart_by_prefix root p _ outside (starts_with-append root dest partial_suffix inside);
        state = apart_by_prefix root p _ outside state;
        tmp =
            apart_by_prefix root p _ outside
              (starts_with-append root (dest ++ state_suffix) tmp_suffix state);
      };
      final = apart_by_prefix root p dest outside inside;
    }

-- Whatever a client sends and whatever calls fail, a session keeps every file whose path does not
-- start with the text of the normalised root.
pub handle_session_stays_below_root :
    (v : Server) (s : Session) (p : FilePath)
    → starts_with (lexically_normal v.root) p ≡ false
    → (handle_session v s).1.files.contents p ≡ s.files.contents p
handle_session_stays_below_root v s p outside = handle_session-others v s p λ rel dest found.
    outside-IsOther (lexically_normal v.root) p dest outside
      (resolve_dest_sound v.root rel dest found).1
