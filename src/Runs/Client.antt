-- ===== src/Runs/Client.antt =====
-- Runs of the sender's first pass: five bytes in chunks of two.
use mathlib.Core.List.{flatten}
use ati_tcp_file_transfer.Base.{ℕ, ◌≡◌, refl, arith, false, bytes_eq, List, [], ◌∷◌, map, length}
use ati_tcp_file_transfer.Util.Blake3.{blake3, update, finalize, new_hasher, update_unless_empty}
use ati_tcp_file_transfer.Proto.Cursor.{Hash}
use ati_tcp_file_transfer.Io.Files.{read_bytes, next_outcome}
use ati_tcp_file_transfer.Io.FileSink.{with_partial_suffix}
use ati_tcp_file_transfer.Io.FileSource.{FileSource, read_at}
use ati_tcp_file_transfer.Transport.Session.{Session, ok, ◌>>=◌}
use ati_tcp_file_transfer.Transport.Client.{Client, connected, chunk_count, read_chunk, hash_pass}
use ati_tcp_file_transfer.Transport.Client.Chunks.{hash_pass_file}
use ati_tcp_file_transfer.Runs.Files.{half_done, half_done-there, source}
use ati_tcp_file_transfer.Runs.Hashing.{first_bytes, first_bytes-IsStreaming}
use ati_tcp_file_transfer.Runs.Exchange.{connection}

abbrev five : List ℕ
five = 1 ∷ 2 ∷ 3 ∷ 4 ∷ 5 ∷ []

abbrev by_twos : Client
by_twos = record { chunk_size = 2; has_tls = false; network = connected; hash = first_bytes }

abbrev started : Session
started = record { conn = connection []; files = half_done }

abbrev hash : List ℕ → Hash
hash bytes = first_bytes.finalize bytes

abbrev result : List Hash × List ℕ × FileSource
result = (hash (1 ∷ 2 ∷ []) ∷ hash (3 ∷ 4 ∷ []) ∷ hash (5 ∷ []) ∷ [], five, source)

five_hashed :
    (hash_pass by_twos source (chunk_count 5 2) 0 (new_hasher first_bytes) started).0 ≡ ok result
unfolding hash_pass chunk_count read_chunk read_at read_bytes next_outcome with_partial_suffix
    bytes_eq ◌>>=◌ update blake3 update_unless_empty
five_hashed = refl

hash_pass_file_example :
    (chunks : List (List ℕ)) × (flatten chunks ≡ five)
    × (length chunks ≡ chunk_count 5 2)
    × (result.0 ≡ map (blake3 first_bytes) chunks)
    × (finalize first_bytes five ≡ blake3 first_bytes five)
    × (source ≡ source)
hash_pass_file_example =
    hash_pass_file by_twos source started five result half_done-there refl (omega arith)
      (omega arith) (omega arith) first_bytes-IsStreaming five_hashed
