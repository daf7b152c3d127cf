-- ===== src/Runs/Cli.antt =====
-- Runs of the command line.
use ati_tcp_file_transfer.Base.{
  ℕ, ◌≡◌, ◌≤◌, refl, Bool, Option, true, false, some, List, [], ◌∷◌, ◌++◌,
}
use ati_tcp_file_transfer.Io.Paths.{is_empty, names_of}
use ati_tcp_file_transfer.Transport.Tls.{TlsConfig}
use ati_tcp_file_transfer.Cli.{
  main, Launch, send_parsed, CommonTlsArgs, SendOpts, colon, stoi, parse_host_port,
  build_tls_config, sends, run_send,
}
use ati_tcp_file_transfer.Base.{All, ◌≢◌}
use ati_tcp_file_transfer.Cli.Laws.{
  parse_host_port_sound, run_send_names, IsSecured, main_sent, sent_by,
}

-- "h:80"
abbrev remote : List ℕ
remote = b'h' ∷ colon ∷ b'8' ∷ b'0' ∷ []

-- "::1:80", whose host has colons of its own.
abbrev colons : List ℕ
colons = colon ∷ colon ∷ b'1' ∷ colon ∷ b'8' ∷ b'0' ∷ []

abbrev host_of_colons : List ℕ
host_of_colons = colon ∷ colon ∷ b'1' ∷ []

parsed : parse_host_port colons ≡ some (host_of_colons, 80)
unfolding parse_host_port is_empty stoi
parsed = refl

parse_host_port_sound_example :
    (port_str : List ℕ) × (colons ≡ host_of_colons ++ colon ∷ port_str)
    × All (λ b. b ≢ colon) port_str
    × (stoi port_str ≡ some 80)
    × (1 ≤ 80)
    × (80 ≤ 65535)
parse_host_port_sound_example = parse_host_port_sound colons host_of_colons 80 parsed

-- A certificate and a key, and no `--sni`.
abbrev tls : CommonTlsArgs
tls = record {
  cert = b'c' ∷ [];
  key = b'k' ∷ [];
  ca = [];
  no_verify_peer = false;
  sni = [];
  insecure = false;
}

abbrev options : SendOpts
options = record { remote = remote; source = b'a' ∷ []; out = []; chunk_size = 1024; tls = tls }

abbrev config : TlsConfig
config = record {
  cert_path = b'c' ∷ [];
  key_path = b'k' ∷ [];
  ca_path = [];
  verify_peer = true;
  sni_host = [];
}

launched : run_send options ≡ sends (b'h' ∷ []) 80 (b'a' ∷ []) (b'a' ∷ []) 1024 (some config)
unfolding run_send parse_host_port build_tls_config names_of is_empty stoi
launched = refl

run_send_names_example : IsSecured options (some config)
run_send_names_example =
    run_send_names options (b'h' ∷ []) 80 (b'a' ∷ []) (b'a' ∷ []) 1024 (some config) launched

-- A client that succeeds.
abbrev succeeds : Launch → Option Bool
succeeds launch = some true

exits_well : main (λ host. false) succeeds (send_parsed options) ≡ 0
unfolding main run_send parse_host_port build_tls_config names_of is_empty stoi
exits_well = refl

main_sent_example : sent_by succeeds (run_send options) ≡ some true
main_sent_example = main_sent (λ host. false) succeeds options exits_well
