-- ===== src/Transport/Connection.antt =====
-- include/ftx/transport/connection.hpp and src/lib/transport/connection.cpp: one frame at a time over
-- a plain or TLS stream. Asio and OpenSSL are not modelled: a stream is the bytes that are still to
-- arrive, the bytes that were written, how many writes the network still lets through, and how the
-- TLS handshake ends. `asio::read` of n bytes gives n bytes or an error; `asio::write` writes all
-- or fails. The texts of `last_error_` are a data type.
pub mod Exchange
pub mod Short
use ati_tcp_file_transfer.Base.{ℕ, ◌-◌, ◌%◌, ◌==◌, ltb, if◌then◌else◌, not, Bool, true, false}
use ati_tcp_file_transfer.Base.{Option, none, some, List, [], ◌∷◌, ◌++◌, length, take, drop}
use ati_tcp_file_transfer.Util.Byteorder.{u32_mod}
use ati_tcp_file_transfer.Proto.Types.{FrameType, k_header_size, k_default_max_payload}
use ati_tcp_file_transfer.Proto.Frame.{
  FrameHeader, encode_to, DecodeError, header, failed, decode_from, Frame,
}

pub data LastError : Type 0 where
  no_error : LastError
  handshake_failed : LastError
  payload_exceeds_maximum : LastError
  send_failed : LastError
  recv_header_failed : LastError
  header_crc_mismatch : LastError
  unknown_frame_type : LastError
  payload_too_large : LastError
  recv_payload_failed : LastError

pub record Connection : Type 0 where
  pub is_tls : Bool
  pub is_open : Bool
  pub handshake_ok : Bool
  pub incoming : List ℕ
  pub outgoing : List ℕ
  pub writes_left : ℕ
  pub last_error : LastError

-- `tls_client_handshake` and `tls_server_handshake`, which differ in the role alone.
unfoldable pub tls_handshake : Connection → Connection × Bool
tls_handshake c =
    if not c.is_tls
    then (c, true)
    else if not c.handshake_ok
    then (record c { last_error = handshake_failed }, false)
    else (c, true)

unfoldable pub send_frame : Connection → FrameType → List ℕ → Connection × Bool
send_frame c type payload =
    let hdr : FrameHeader = record { payload_len = length payload % u32_mod; type = type } in
    if ltb k_default_max_payload (length payload)
    then (record c { last_error = payload_exceeds_maximum }, false)
    else if c.writes_left == 0
    then (record c { last_error = send_failed }, false)
    else (
      record c {
        outgoing = c.outgoing ++ (encode_to hdr ++ payload);
        writes_left = c.writes_left - 1;
      },
      true,
    )

-- The `switch (reason)` of `recv_frame`.
unfoldable pub error_of : DecodeError → LastError
error_of DecodeError.bad_crc = header_crc_mismatch
error_of DecodeError.unknown_type = unknown_frame_type
error_of DecodeError.payload_too_large = payload_too_large

-- The second read, made where the header announces a payload.
unfoldable pub recv_payload : Connection → FrameHeader → Connection × Option Frame
recv_payload c hdr =
    if not (ltb 0 hdr.payload_len)
    then (c, some (record { header = hdr; payload = [] }))
    else if ltb (length c.incoming) hdr.payload_len
    then (record c { incoming = []; last_error = recv_payload_failed }, none)
    else (
      record c { incoming = drop hdr.payload_len c.incoming },
      some (record { header = hdr; payload = take hdr.payload_len c.incoming }),
    )

-- A read that fails has taken the bytes that were there.
unfoldable pub recv_frame : Connection → ℕ → Connection × Option Frame
unfolding error_of recv_payload
recv_frame c max_payload =
    if ltb (length c.incoming) k_header_size
    then (record c { incoming = []; last_error = recv_header_failed }, none)
    else (let c' = record c { incoming = drop k_header_size c.incoming } in
        elim (decode_from (take k_header_size c.incoming) max_payload) [
          | failed reason ↦ (record c' { last_error = error_of reason }, none)
          | header hdr ↦ recv_payload c' hdr
        ])

-- `shutdown_and_close`, whose errors are ignored: a TLS shutdown first on a TLS stream, then both
-- directions and the socket, where it is open. Nothing of the shutdowns shows in the model.
unfoldable pub shutdown_and_close : Connection → Connection
shutdown_and_close c = if c.is_open then record c { is_open = false } else c

-- A second close changes nothing.
unfoldable pub close : Connection → Connection
unfolding shutdown_and_close
close c = shutdown_and_close c

-- The destructor.
unfoldable pub destroy : Connection → Connection
unfolding close
destroy c = close c

-- A socket that was connected or accepted, with what the network has in store for it.
pub record Socket : Type 0 where
  pub is_open : Bool
  pub handshake_ok : Bool
  pub incoming : List ℕ
  pub writes_left : ℕ

abbrev on_socket : Bool → Socket → Connection
on_socket is_tls socket = record {
  is_tls = is_tls;
  is_open = socket.is_open;
  handshake_ok = socket.handshake_ok;
  incoming = socket.incoming;
  outgoing = [];
  writes_left = socket.writes_left;
  last_error = no_error;
}

-- The two constructors.
unfoldable pub plain_connection : Socket → Connection
plain_connection socket = on_socket false socket

unfoldable pub tls_connection : Socket → Connection
tls_connection socket = on_socket true socket
