-- ===== src/Runs/Exchange.antt =====
-- Runs of the connection.
use ati_tcp_file_transfer.Base.{ℕ, ◌≡◌, ◌≤◌, refl, arith, true, false, some, List, [], ◌++◌}
use ati_tcp_file_transfer.Base.{All, All-append, length}
use ati_tcp_file_transfer.Util.Byteorder.{IsByte}
use ati_tcp_file_transfer.Proto.Types.{FrameType}
use ati_tcp_file_transfer.Proto.Frame.{encode_to}
use ati_tcp_file_transfer.Proto.Frame.Header.{encode_to-IsByte}
use ati_tcp_file_transfer.Proto.Decoder.{frame_decoder, feed, take_frame, after_take}
use ati_tcp_file_transfer.Proto.Decoder.Stream.{frame_of, take_frame-encode_frame}
use ati_tcp_file_transfer.Transport.Connection.{Connection, no_error, send_frame, recv_frame}
use ati_tcp_file_transfer.Transport.Connection.Exchange.{
  recv_frame-encode_frame, recv_frame_sound, recv_frame-take_frame,
}
use ati_tcp_file_transfer.Runs.Data.{text, chunk_header, chunk_wire, chunk_encoded}

-- A plain connection with these bytes to arrive, and one write let through.
abbrev pub connection : List ℕ → Connection
connection incoming = record {
  is_tls = false;
  is_open = true;
  handshake_ok = true;
  incoming = incoming;
  outgoing = [];
  writes_left = 1;
  last_error = no_error;
}

abbrev sent : Connection
sent = record {
  is_tls = false;
  is_open = true;
  handshake_ok = true;
  incoming = [];
  outgoing = chunk_wire;
  writes_left = 0;
  last_error = no_error;
}

chunk_sent : send_frame (connection []) FrameType.chunk text ≡ (sent, true)
unfolding send_frame
chunk_sent = refl

chunk_received :
    recv_frame (connection (chunk_wire ++ text)) 10
    ≡ (connection text, some (frame_of FrameType.chunk text))
chunk_received =
    recv_frame-encode_frame (connection (chunk_wire ++ text)) 10 FrameType.chunk text chunk_wire
      text chunk_encoded (omega arith) refl

arriving-IsByte : All IsByte (chunk_wire ++ text)
arriving-IsByte =
    All-append IsByte chunk_wire text
      (All-append IsByte (encode_to chunk_header) text (encode_to-IsByte chunk_header)
        (omega arith))
      (omega arith)

recv_frame_sound_example :
    (chunk_wire ++ text ≡ encode_to chunk_header ++ (text ++ text))
    × (length text ≡ 3)
    × (3 ≤ 10)
    × (◌≡◌ {A = List ℕ} [] [])
recv_frame_sound_example =
    recv_frame_sound (connection (chunk_wire ++ text)) (connection text) 10
      (frame_of FrameType.chunk text) arriving-IsByte chunk_received

recv_frame-take_frame_example :
    ((recv_frame (connection (chunk_wire ++ text)) 10).1
      ≡ some (take_frame (feed (frame_decoder 10) (chunk_wire ++ text)).0).0)
    × ((recv_frame (connection (chunk_wire ++ text)) 10).0.incoming
        ≡ (after_take (feed (frame_decoder 10) (chunk_wire ++ text)).0).buffer)
recv_frame-take_frame_example =
    recv_frame-take_frame (connection (chunk_wire ++ text)) 10
      (take_frame-encode_frame 10 FrameType.chunk text text chunk_wire (omega arith)
        chunk_encoded).1
