-- ===== src/Transport/Server/Text.antt =====
-- The texts that src/lib/transport/server.cpp sends with its errors.
use Prim.Native.String.{String}
use Prim.Native.Char.{code}
use ati_tcp_file_transfer.Base.{
  ℕ, zero, suc, ◌+◌, ◌/◌, ◌%◌, ◌==◌, if◌then◌else◌, List, [], ◌∷◌, ◌++◌,
}
use ati_tcp_file_transfer.Proto.Types.{k_protocol_version}
use ati_tcp_file_transfer.Io.FileSink.{SinkError}

abbrev pub codes : String → List ℕ
codes String.[] = []
codes (String.◌∷◌ c s) = code c ∷ codes s

-- `std::to_string` of an unsigned number of up to 20 digits.
unfoldable pub decimal_loop : ℕ → ℕ → List ℕ → List ℕ
decimal_loop zero n digits = digits
decimal_loop (suc left) n digits =
    let rest = decimal_loop left (n / 10) ((b'0' + n % 10) ∷ digits) in
    if n / 10 == 0 then (b'0' + n % 10) ∷ digits else rest

unfoldable pub decimal : ℕ → List ℕ
unfolding decimal_loop
decimal n = decimal_loop 20 n []

pub data Text : Type 0 where
  malformed_hello malformed_manifest malformed_complete malformed_chunk : Text
  requires_version : Text
  rejected_path : List ℕ → Text
  expected_chunk_or_complete index_out_of_range : Text
  hash_mismatch_at diverges_at : ℕ → Text
  chunks_missing : Text
  byte_count_mismatch : ℕ → ℕ → Text
  chunk_count_mismatch cannot_reopen root_mismatch_manifest root_mismatch_complete : Text
  sink_error : SinkError → Text

-- The text of a sink's error holds what the system says of it: `sink_text`.
unfoldable pub text_of : (SinkError → List ℕ) → Text → List ℕ
text_of sink_text malformed_hello = codes "malformed HELLO"
text_of sink_text malformed_manifest = codes "malformed MANIFEST"
text_of sink_text malformed_complete = codes "malformed COMPLETE"
text_of sink_text malformed_chunk = codes "malformed CHUNK"
text_of sink_text requires_version =
    codes "server requires protocol version " ++ decimal k_protocol_version
text_of sink_text (rejected_path path) = codes "rejected path: " ++ path
text_of sink_text expected_chunk_or_complete = codes "expected CHUNK or COMPLETE"
text_of sink_text index_out_of_range = codes "chunk index out of range"
text_of sink_text (hash_mismatch_at i) = codes "chunk hash mismatch at index " ++ decimal i
text_of sink_text (diverges_at i) = codes "chunk hash diverges from manifest at index " ++ decimal i
text_of sink_text chunks_missing = codes "transfer ended with chunks still missing"
text_of sink_text (byte_count_mismatch expected got) =
    codes "byte count mismatch (expected "
    ++ (decimal expected ++ (codes ", got " ++ (decimal got ++ codes ")")))
text_of sink_text chunk_count_mismatch = codes "chunk count mismatch"
text_of sink_text cannot_reopen = codes "cannot reopen .partial for verification"
text_of sink_text root_mismatch_manifest = codes "root hash mismatch (manifest)"
text_of sink_text root_mismatch_complete = codes "root hash mismatch (COMPLETE)"
text_of sink_text (sink_error e) = sink_text e
