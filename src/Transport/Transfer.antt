-- ===== src/Transport/Transfer.antt =====
-- A transfer between src/lib/transport/client.cpp and src/lib/transport/server.cpp: what each writes to
-- the other where nothing fails, for the file `c`, which is sent in chunks of `k` bytes.
pub mod Talks
pub mod Fits
pub mod Chunks
pub mod Receiver
pub mod Sender
pub mod Grows
pub mod Prefix
pub mod Resume
pub mod Serves
pub mod CutOff
pub mod Delivery
use ati_tcp_file_transfer.Base.{
  ℕ, zero, suc, ◌+◌, ◌-◌, ◌*◌, ◌/◌, ◌%◌, ◌^◌, ◌<◌, ◌≤◌, ◌==◌, if◌then◌else◌,
}
use ati_tcp_file_transfer.Base.{All, List, [], ◌∷◌, ◌++◌, map, length}
use ati_tcp_file_transfer.Util.Byteorder.{u16_mod, u32_mod}
use ati_tcp_file_transfer.Util.Blake3.{Blake3, blake3}
use ati_tcp_file_transfer.Proto.Types.{FrameType, k_default_max_payload}
use ati_tcp_file_transfer.Proto.Frame.{encode_to}
use ati_tcp_file_transfer.Proto.Messages.{
  default_hello, encode_hello, ManifestMsg, encode_manifest, encode_req_chunks, encode_chunk,
  encode_complete, encode_ack,
}
use ati_tcp_file_transfer.Transport.Client.{chunk_count}
use ati_tcp_file_transfer.Transport.Client.Chunks.{slices}
use ati_tcp_file_transfer.Transport.Server.Honest.{slice}

-- A frame as `send_frame` writes it.
abbrev pub wire : FrameType → List ℕ → List ℕ
wire t payload = encode_to (record { payload_len = length payload % u32_mod; type = t }) ++ payload

-- The chunk size is not 0, and a chunk, the manifest and the request for all chunks fit a frame; the
-- path fits its length field, the count its type, and the file is one of fewer than 2 ^ 63 bytes.
pub record IsTransferable (k : ℕ) (c path : List ℕ) : Type 0 where
  pub pos : 0 < k
  pub chunk_room : 36 + k ≤ k_default_max_payload
  pub fits : length c < 2 ^ 63
  pub count : (length c + k - 1) / k < u32_mod
  pub path_len : length path < u16_mod
  pub manifest_room : 50 + length path + chunk_count (length c) k * 32 ≤ k_default_max_payload

-- The indices from `i` on, `n` of them: `indices_from n 0` are those of all chunks of a file of `n`.
unfoldable pub indices_from : ℕ → ℕ → List ℕ
indices_from zero i = []
indices_from (suc n) i = i ∷ indices_from n (i + 1)

-- A list of chunks of a file of `n`, no longer than that of all of them.
pub record AreChunks (n : ℕ) (is : List ℕ) : Type 0 where
  pub few : length is ≤ n
  pub below : All (λ i. i < n) is

module _ (b : Blake3) (k : ℕ) (c : List ℕ) where
  abbrev pub file_manifest : List ℕ → ManifestMsg
  file_manifest path = record {
    file_size = length c;
    chunk_size = k;
    chunk_count = chunk_count (length c) k;
    root_hash = blake3 b c;
    path = path;
    chunk_hashes = map (blake3 b) (slices k c (chunk_count (length c) k) 0);
  }

  abbrev pub chunk_payload : ℕ → List ℕ
  chunk_payload i =
      encode_chunk (record { index = i; hash = blake3 b (slice k c i); bytes = slice k c i })

  -- The frames of these chunks.
  unfoldable pub wires_of : List ℕ → List ℕ
  wires_of [] = []
  wires_of (i ∷ is) = wire FrameType.chunk (chunk_payload i) ++ wires_of is

  abbrev pub complete_payload : List ℕ
  complete_payload = encode_complete (record { final_root_hash = blake3 b c; status = 0 })

  -- What the client writes behind its manifest, and in all, where it is asked for these chunks.
  abbrev pub client_body : List ℕ → List ℕ
  client_body is = wires_of is ++ wire FrameType.complete complete_payload

  abbrev pub client_wire : List ℕ → List ℕ → List ℕ
  client_wire path is =
      wire FrameType.hello (encode_hello default_hello)
      ++ (wire FrameType.manifest (encode_manifest (file_manifest path)) ++ client_body is)

-- What the server writes that asks for these chunks, of `n`: HELLO, the request, ACK.
abbrev pub request_payload : List ℕ → List ℕ
request_payload is = encode_req_chunks (record { indices = is })

abbrev pub ack_payload : ℕ → List ℕ
ack_payload n = encode_ack (record { last_index = if n == 0 then 0 else n - 1 })

abbrev pub server_wire : List ℕ → ℕ → List ℕ
server_wire is n =
    wire FrameType.hello (encode_hello default_hello)
    ++ (wire FrameType.req_chunks (request_payload is) ++ wire FrameType.ack (ack_payload n))
