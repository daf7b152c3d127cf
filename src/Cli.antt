-- ===== src/Cli.antt =====
-- src/cli/main.cpp: the options, and what `serve` and `send` make of them. The option parser and the
-- log are libraries; the addresses that Asio accepts are a parameter.
pub mod Laws
use ati_tcp_file_transfer.Base.{
  ℕ, ◌+◌, ◌-◌, ◌*◌, ◌%◌, ◌==◌, ltb, leb, if◌then◌else◌, not, Bool, true, false,
}
use ati_tcp_file_transfer.Base.{◌&&◌, ◌||◌, bytes_eq, Option, none, some, List, [], ◌∷◌, ◌++◌}
use ati_tcp_file_transfer.Util.Byteorder.{u16_mod}
use ati_tcp_file_transfer.Io.Files.{FilePath}
use ati_tcp_file_transfer.Io.Paths.{is_empty, last_name, names_of}
use ati_tcp_file_transfer.Transport.Tls.{TlsConfig}

pub record CommonTlsArgs : Type 0 where
  pub cert : List ℕ
  pub key : List ℕ
  pub ca : List ℕ
  pub no_verify_peer : Bool
  pub sni : List ℕ
  pub insecure : Bool

pub record ServeOpts : Type 0 where
  pub listen_addr : List ℕ
  pub root : FilePath
  pub tls : CommonTlsArgs

pub record SendOpts : Type 0 where
  pub remote : List ℕ
  pub source : FilePath
  pub out : FilePath
  pub chunk_size : ℕ
  pub tls : CommonTlsArgs

abbrev pub colon : ℕ
colon = b':'

-- `s.rfind(':')`, with `substr` on both sides of it.
unfoldable pub split_last : List ℕ → Option (List ℕ × List ℕ)
split_last [] = none
split_last (b ∷ s) = elim (split_last s) [
  | some (before, behind) ↦ some (b ∷ before, behind)
  | none ↦ if b == colon then some ([], s) else none
]

abbrev is_space : ℕ → Bool
is_space b = b == 32 || leb 9 b && leb b 13

abbrev is_decimal : ℕ → Bool
is_decimal b = leb b'0' b && leb b b'9'

unfoldable pub skip_spaces : List ℕ → List ℕ
skip_spaces [] = []
skip_spaces (b ∷ s) = let rest = skip_spaces s in if is_space b then rest else b ∷ s

-- The number that the text starts with, and the value of what was read before it.
unfoldable pub decimal_value : ℕ → List ℕ → ℕ
decimal_value n [] = n
decimal_value n (b ∷ s) =
    let rest = decimal_value (n * 10 + (b - b'0')) s in if is_decimal b then rest else n

unfoldable pub starts_decimal : List ℕ → Bool
starts_decimal [] = false
starts_decimal (b ∷ s) = is_decimal b

-- The sign, and what is behind it.
unfoldable pub take_sign : List ℕ → Bool × List ℕ
take_sign [] = (false, [])
take_sign (b ∷ s) =
    if b == b'-' then (true, s) else if b == b'+' then (false, s) else (false, b ∷ s)

-- `std::stoi`, for a caller that refuses all below 1: a negative number is 0, and `none` stands for
-- the exceptions, where there is no number or one of 2 ^ 31 and more. (A negative number below
-- -2 ^ 31 is an exception as well, and is refused alike.)
unfoldable pub stoi : List ℕ → Option ℕ
unfolding skip_spaces decimal_value starts_decimal take_sign
stoi text =
    let (negative, number) = take_sign (skip_spaces text) in
    if not (starts_decimal number)
    then none
    else if negative
    then some 0
    else if not (ltb (decimal_value 0 number) 2147483648)
    then none
    else some (decimal_value 0 number)

unfoldable pub port_of : Option ℕ → Option ℕ
port_of none = none
port_of (some p) = if ltb p 1 || ltb 65535 p then none else some (p % u16_mod)

unfoldable pub with_host : List ℕ → Option ℕ → Option (List ℕ × ℕ)
with_host host none = none
with_host host (some port) = some (host, port)

-- Where the text behind the colon is empty, there is no port.
unfoldable pub host_and_port : Option (List ℕ × List ℕ) → Option (List ℕ × ℕ)
unfolding port_of with_host
host_and_port none = none
host_and_port (some (host, port_str)) =
    if is_empty port_str then none else with_host host (port_of (stoi port_str))

unfoldable pub parse_host_port : List ℕ → Option (List ℕ × ℕ)
unfolding split_last host_and_port
parse_host_port s = host_and_port (split_last s)

unfoldable pub build_tls_config : CommonTlsArgs → Bool → Option TlsConfig
build_tls_config a is_server =
    if a.insecure
    then none
    else if is_empty a.cert || is_empty a.key
    then none
    else some (record {
      cert_path = a.cert;
      key_path = a.key;
      ca_path = a.ca;
      verify_peer = not a.no_verify_peer;
      sni_host = if is_server then [] else a.sni;
    })

-- What a command comes to: an exit code, a server, or a client.
pub data Launch : Type 0 where
  exits : ℕ → Launch
  serves : List ℕ → ℕ → FilePath → Option TlsConfig → Launch
  sends : List ℕ → ℕ → FilePath → FilePath → ℕ → Option TlsConfig → Launch

abbrev any_address : List ℕ
any_address = b'0' ∷ b'.' ∷ b'0' ∷ b'.' ∷ b'0' ∷ b'.' ∷ b'0' ∷ []

unfoldable pub serve_on : ServeOpts → List ℕ → ℕ → Option TlsConfig → Launch
serve_on o host port config =
    if o.tls.insecure
    then serves host port o.root none
    else elim config [ none ↦ exits 2 | some tls ↦ serves host port o.root (some tls) ]

unfoldable pub listen_on : (List ℕ → Bool) → ServeOpts → Option (List ℕ × ℕ) → Launch
unfolding serve_on
listen_on is_address o none = exits 2
listen_on is_address o (some (host, port)) =
    if not (bytes_eq host any_address || is_address host)
    then exits 2
    else serve_on o host port (build_tls_config o.tls true)

unfoldable pub run_serve : (List ℕ → Bool) → ServeOpts → Launch
unfolding listen_on
run_serve is_address o = listen_on is_address o (parse_host_port o.listen_addr)

unfoldable pub remote_path : SendOpts → FilePath
remote_path o = if is_empty o.out then last_name (names_of o.source) else o.out

unfoldable pub send_with : SendOpts → List ℕ → ℕ → Option TlsConfig → Launch
unfolding remote_path
send_with o host port config =
    if o.tls.insecure
    then sends host port o.source (remote_path o) o.chunk_size none
    else elim config [
      | none ↦ exits 2
      | some tls ↦ sends host port o.source (remote_path o) o.chunk_size (some tls)
    ]

unfoldable pub connect_to : SendOpts → Option (List ℕ × ℕ) → Launch
unfolding send_with
connect_to o none = exits 2
connect_to o (some (host, port)) = send_with o host port (build_tls_config o.tls false)

unfoldable pub run_send : SendOpts → Launch
unfolding connect_to
run_send o = connect_to o (parse_host_port o.remote)

-- What `send` ends with, by the answer of Client::send.
unfoldable pub exit_code : Bool → ℕ
exit_code sent = if not sent then 1 else 0

-- What the option parser makes of the command line: one of the two commands, with its options.
pub data Parsed : Type 0 where
  serve_parsed : ServeOpts → Parsed
  send_parsed : SendOpts → Parsed
  nothing_parsed : Parsed

unfoldable pub launch_of : (List ℕ → Bool) → Parsed → Launch
unfolding run_serve run_send
launch_of is_address (serve_parsed o) = run_serve is_address o
launch_of is_address (send_parsed o) = run_send o
launch_of is_address nothing_parsed = exits 0

-- The code of a call that returned.
unfoldable pub code_of : (Bool → ℕ) → Option Bool → Option ℕ
code_of code none = none
code_of code (some answer) = some (code answer)

-- What a launch comes to, where `outcome` is the answer of the server's or the client's run, and `none`
-- where that throws. A server that returns is a success.
unfoldable pub run_launch : (Launch → Option Bool) → Launch → Option ℕ
unfolding code_of exit_code
run_launch outcome (exits code) = some code
run_launch outcome (serves host port root config) =
    code_of (λ _. 0) (outcome (serves host port root config))
run_launch outcome (sends host port source dest chunk_size config) =
    code_of exit_code (outcome (sends host port source dest chunk_size config))

-- `catch (const std::exception& e)`
unfoldable pub caught : Option ℕ → ℕ
caught none = 3
caught (some code) = code

-- `main` behind the option parser.
unfoldable pub main : (List ℕ → Bool) → (Launch → Option Bool) → Parsed → ℕ
unfolding caught run_launch launch_of
main is_address outcome parsed = caught (run_launch outcome (launch_of is_address parsed))
