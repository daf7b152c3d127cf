-- ===== src/Transport/Tls.antt =====
-- src/lib/transport/tls.cpp: the settings of a TLS context. OpenSSL is a library, and a context is the
-- list of the settings that are made on it, in order; a setting that throws is not modelled.
use ati_tcp_file_transfer.Base.{ℕ, if◌then◌else◌, Bool, List, [], ◌∷◌, ◌++◌}
use ati_tcp_file_transfer.Io.Paths.{is_empty}

pub record TlsConfig : Type 0 where
  pub cert_path : List ℕ
  pub key_path : List ℕ
  pub ca_path : List ℕ
  pub verify_peer : Bool
  pub sni_host : List ℕ

-- The options that refuse all before TLS 1.3 are one setting.
pub data Setting : Type 0 where
  only_tls13 : Setting
  certificate_chain private_key trusted : List ℕ → Setting
  verify_none verify_peer verify_peer_required : Setting
  host_name_verification : List ℕ → Setting

-- `if (!path.empty()) …`
unfoldable pub unless_empty : List ℕ → (List ℕ → Setting) → List Setting
unless_empty text setting = if is_empty text then [] else setting text ∷ []

unfoldable pub apply_common : TlsConfig → List Setting
unfolding unless_empty
apply_common cfg =
    only_tls13
    ∷ (unless_empty cfg.cert_path certificate_chain
        ++ (unless_empty cfg.key_path private_key ++ unless_empty cfg.ca_path trusted))

unfoldable pub make_server_tls_context : TlsConfig → List Setting
unfolding apply_common
make_server_tls_context cfg =
    apply_common cfg ++ (if cfg.verify_peer then verify_peer_required ∷ [] else verify_none ∷ [])

unfoldable pub make_client_tls_context : TlsConfig → List Setting
unfolding apply_common
make_client_tls_context cfg =
    apply_common cfg
    ++ (if cfg.verify_peer
        then verify_peer ∷ unless_empty cfg.sni_host host_name_verification
        else verify_none ∷ [])
