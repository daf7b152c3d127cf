-- ===== src/Cli/Laws.antt =====
-- What the command line lets through.
use ati_tcp_file_transfer.Base.{
  ℕ, ◌≤◌, ◌≡◌, ◌≢◌, refl, ap, ◌∙◌, arith, ◌||◌, if◌then◌else◌, Bool, true, false,
}
use ati_tcp_file_transfer.Base.{
  Option-cases, inl, inr, All, Option, none, some, List, [], ◌∷◌, ◌++◌,
}
use ati_tcp_file_transfer.Io.Files.{FilePath}
use ati_tcp_file_transfer.Io.Paths.{is_empty}
use ati_tcp_file_transfer.Transport.Tls.{
  TlsConfig, Setting, host_name_verification, unless_empty, apply_common, make_client_tls_context,
}
use ati_tcp_file_transfer.Cli.{
  ServeOpts, SendOpts, colon, split_last, stoi, port_of, with_host, host_and_port, parse_host_port,
  main, Launch, exits, send_parsed, launch_of, run_launch, caught, code_of, exit_code,
  build_tls_config, serves, sends, serve_on, listen_on, run_serve, send_with, connect_to, run_send,
}

split_last_sound :
    (s before behind : List ℕ) → split_last s ≡ some (before, behind) → s ≡ before ++ colon ∷ behind
unfolding split_last
split_last_sound [] before behind e = ground arith
split_last_sound (b ∷ s) before behind e = elim (Option-cases (split_last s)) [
  | inr ((front, rest), found) ↦ ground (arith, split_last_sound s front rest)
  | inl absent ↦ ground arith
]

abbrev NoColon : List ℕ → Type 0
NoColon s = All (λ b. b ≢ colon) s

split_last-none : (s : List ℕ) → split_last s ≡ none → NoColon s
unfolding split_last
split_last-none [] e = tt
split_last-none (b ∷ s) e = elim (Option-cases (split_last s)) [
  | inl absent ↦ (ground arith, split_last-none s absent)
  | inr ((front, rest), found) ↦ absurd (ground arith)
]

-- There is no colon behind the one that the text is split at.
split_last_behind :
    (s before behind : List ℕ) → split_last s ≡ some (before, behind) → NoColon behind
unfolding split_last
split_last_behind [] before behind e = absurd (ground arith)
split_last_behind (b ∷ s) before behind e = elim (Option-cases (split_last s)) [
  | inl absent ↦ let same : behind ≡ s = ground arith in rw same (split_last-none s absent)
  | inr ((front, rest), found) ↦
      let same : behind ≡ rest = ground arith in rw same (split_last_behind s front rest found)
]

-- A host and a port are read only off their text with a colon between them, which is the last one of
-- the text; the port is the number that the text behind it starts with, from 1 to 65535.
pub parse_host_port_sound :
    (s host : List ℕ) (port : ℕ)
    → parse_host_port s ≡ some (host, port)
    → (port_str : List ℕ) × (s ≡ host ++ colon ∷ port_str)
      × All (λ b. b ≢ colon) port_str
      × (stoi port_str ≡ some port)
      × (1 ≤ port)
      × (port ≤ 65535)
unfolding parse_host_port host_and_port port_of with_host
parse_host_port_sound s host port e = elim (Option-cases (split_last s)) [
  | inl absent ↦ absurd (ground arith)
  | inr ((before, behind), found) ↦
      let same : before ≡ host = ground arith in
      let read : stoi behind ≡ some port = ground arith in
      (
        behind,
        split_last_sound s host behind (found ∙ ap (λ h. some (h, behind)) same),
        split_last_behind s before behind found,
        ground arith,
        ground arith,
        ground arith,
      )
]

-- The names that a context checks a peer's certificate against.
unfoldable pub names_checked : List Setting → List (List ℕ)
names_checked [] = []
names_checked (host_name_verification name ∷ settings) = name ∷ names_checked settings
names_checked (setting ∷ settings) = names_checked settings

-- A server is started without TLS only under `--insecure`.
pub run_serve_plain :
    (is_address : List ℕ → Bool) (o : ServeOpts) (host : List ℕ) (port : ℕ) (root : FilePath)
    → run_serve is_address o ≡ serves host port root none
    → o.tls.insecure ≡ true
unfolding run_serve listen_on serve_on
run_serve_plain is_address o host port root e = ground arith

-- Without TLS, `--insecure`; with it, the certificate, the key and the names that are checked.
abbrev pub IsSecured : SendOpts → Option TlsConfig → Type 0
IsSecured o none = o.tls.insecure ≡ true
IsSecured o (some cfg) =
    (o.tls.insecure ≡ false)
    × (is_empty cfg.cert_path ≡ false)
    × (is_empty cfg.key_path ≡ false)
    × (names_checked (make_client_tls_context cfg)
        ≡ (if o.tls.no_verify_peer || is_empty o.tls.sni then [] else o.tls.sni ∷ []))

-- A client is started without TLS only under `--insecure`. One with TLS has a certificate and a key,
-- and checks the server's name exactly where peers are verified and `--sni` is given: against that
-- name, never against the host that it connects to.
pub run_send_names :
    (o : SendOpts) (host : List ℕ) (port : ℕ) (source dest : FilePath) (chunk_size : ℕ)
    (config : Option TlsConfig)
    → run_send o ≡ sends host port source dest chunk_size config
    → IsSecured o config
unfolding run_send connect_to send_with build_tls_config make_client_tls_context apply_common
    unless_empty names_checked
run_send_names o host port source dest chunk_size none e = ground arith
run_send_names o host port source dest chunk_size (some cfg) e =
    (ground arith, ground arith, ground arith, ground arith)

-- A client's answer, or none where no client was started.
abbrev pub sent_by : (Launch → Option Bool) → Launch → Option Bool
sent_by outcome (exits code) = none
sent_by outcome (serves host port root config) = none
sent_by outcome (sends host port source dest chunk_size config) =
    outcome (sends host port source dest chunk_size config)

run_send_exits : (o : SendOpts) (code : ℕ) → run_send o ≡ exits code → code ≡ 2
unfolding run_send connect_to send_with
run_send_exits o code e = ground arith

run_send_serves_not :
    (o : SendOpts) (host : List ℕ) (port : ℕ) (root : FilePath) (config : Option TlsConfig)
    → run_send o ≢ serves host port root config
unfolding run_send connect_to send_with
run_send_serves_not o host port root config e = ground arith

of_launch :
    (outcome : Launch → Option Bool) (o : SendOpts) (l : Launch)
    → run_send o ≡ l
    → caught (run_launch outcome l) ≡ 0
    → sent_by outcome l ≡ some true
unfolding run_launch caught code_of exit_code
of_launch outcome o (exits code) same e = absurd (omega (arith, run_send_exits o code same, e))
of_launch outcome o (serves host port root config) same e =
    absurd (run_send_serves_not o host port root config same)
of_launch outcome o (sends host port source dest chunk_size config) same e = ground arith

-- `send` ends with the exit code 0 only if it has started a client whose send succeeded.
pub main_sent :
    (is_address : List ℕ → Bool) (outcome : Launch → Option Bool) (o : SendOpts)
    → main is_address outcome (send_parsed o) ≡ 0
    → sent_by outcome (run_send o) ≡ some true
unfolding main launch_of
main_sent is_address outcome o e = of_launch outcome o (run_send o) refl e
