-- ===== src/Transport/Server/Dest.antt =====
-- src/lib/transport/server.cpp: is_path_safe and Server::resolve_dest_.
use ati_tcp_file_transfer.Base.{if◌then◌else◌, not, Bool, false, ◌||◌, bytes_eq}
use ati_tcp_file_transfer.Base.{Option, none, some, List, [], ◌∷◌}
use ati_tcp_file_transfer.Base.{ℕ}
use ati_tcp_file_transfer.Io.Files.{FilePath}
use ati_tcp_file_transfer.Io.Paths.{
  dot_dot, names_of, is_absolute, is_empty, append, lexically_normal, starts_with,
}

-- `for (const auto& part : p) if (part == "..") …`
unfoldable pub has_dot_dot : List (List ℕ) → Bool
has_dot_dot [] = false
has_dot_dot (part ∷ parts) = bytes_eq part dot_dot || has_dot_dot parts

unfoldable pub is_path_safe : FilePath → Bool
unfolding has_dot_dot
is_path_safe rel =
    if is_empty rel
    then false
    else if is_absolute rel
    then false
    else not (has_dot_dot (names_of rel))

-- `none` is the answer false.
unfoldable pub resolve_dest : FilePath → FilePath → Option FilePath
resolve_dest root rel_path =
    let candidate = lexically_normal (append root rel_path) in
    let root_norm = lexically_normal root in
    if not (is_path_safe rel_path)
    then none
    else if not (starts_with root_norm candidate)
    then none
    else some candidate
