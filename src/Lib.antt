-- ===== src/Lib.antt =====
-- ftx: resumable file transfer over TCP or TLS.
--
-- A client offers a file as a manifest of chunk hashes; the server answers with the chunks that it
-- lacks, receives and checks them, and keeps a bitmap on disk from which a transfer that was cut
-- off goes on. Both sides speak in frames: a nine-byte header with a CRC-32C, and a payload that is
-- one of seven messages. What travels is bytes, numbers below 256; a uint of w bits is a number
-- below 2 ^ w, and where the source can wrap, `% 2 ^ w` is written out.
--
-- Each part of the program has a module that is named for it; its child modules hold the proofs:
--   Util/Byteorder     include/ftx/util/byteorder.hpp: write_be_u16 .. read_be_u64, on byte lists.
--   Util/Crc32c        src/lib/util/crc32c.cpp: build_table as `k_table`, crc32c.
--   Proto/Types        src/lib/proto/types.cpp and types.hpp: frame types and limits; ErrorCode has
--                      the error codes.
--   Proto/Frame        src/lib/proto/frame.cpp: encode_to returns the nine bytes, decode_from a
--                      header or the reason, encode_frame `none` where the source throws.
--   Proto/Decoder      src/lib/proto/decoder.cpp: FrameDecoder is a record, a method returns the new
--                      one. `drive_loop` has fuel for the rounds of `while (true)`: two are enough,
--                      since a header is consumed at most once before the loop returns, which
--                      `drive_loop_rounds` in Proto/Decoder/Steps shows.
--   Proto/Cursor       src/lib/proto/messages.cpp, class Cursor: a parser monad over a payload and a
--                      position; its rules tell what a chain of reads takes and returns.
--   Proto/Messages     src/lib/proto/messages.cpp: encoders by appending, decoders as do blocks.
--   Io/ResumeState     src/lib/io/resume_state.cpp: the bitmap of received chunks, and the bytes that
--                      save writes and load reads; Save has the calls on the files.
--   Io/Files           what src/lib/io uses of std::filesystem and of file streams: the files are a
--                      function from paths to bytes, and a list holds the outcome of every call to
--                      come, so that each call can fail. A write reaches the file at once, but for
--                      those of ResumeState::save, of which a flush that fails can lose the end.
--   Io/FileSink        src/lib/io/file_sink.cpp: the partial file of a receiver, its random writes
--                      and its renaming to the final path.
--   Io/FileSource      src/lib/io/file_source.cpp: the file that a sender reads; every file is a
--                      regular one.
--   Transport/Connection  src/lib/transport/connection.cpp: a connection is a record with the bytes
--                      that are to arrive, the bytes that were written, and how many writes the
--                      network still lets through; it receives the frames that Proto/Decoder would.
--   Util/Blake3        src/lib/util/blake3.cpp: the wrapper; the functions of the BLAKE3 library are a
--                      parameter, and what its documentation says of pieces is a record of laws.
--   Io/Paths           what src/lib/transport/server.cpp uses of std::filesystem::path, on POSIX.
--   Transport/Session  how both sides of src/lib/transport are written: a body is a function of the
--                      connection and the files that ends with a value or with the reason of an early
--                      return; Rules has the rules to reason about it.
--   Transport/Tls      src/lib/transport/tls.cpp: a context is the list of the settings made on it.
--   Transport/Client   src/lib/transport/client.cpp: the chunk count and the first pass, which hashes
--                      the file by chunks; Send has the whole of Client::send.
--   Transport/Server   src/lib/transport/server.cpp: Dest has is_path_safe and resolve_dest_, Text the
--                      texts of the errors, Calls the calls on the connection, and Start, Receive and
--                      Finish the parts of handle_session_ in order. `receive_loop` has as many
--                      rounds as there are bytes to come, and one; a round takes a header of nine
--                      bytes or ends the loop, which Rounds shows to be enough. `hash_blocks` has as
--                      many as the file has bytes, and one; a round that is not the last reads a
--                      whole block. Keeps, Safety and Jail have the proofs on which files change,
--                      ReadBack, Honest, Store and Integrity those on what the destination holds,
--                      Announce those on how a session that fails ends. Accept has the constructors,
--                      run_one, run and stop: a list of events says how the accepts end and when
--                      another thread calls stop.
--   Transport/Transfer src/lib/transport/client.cpp and server.cpp together: what each side writes for a
--                      file; Talks and Grows have rules, Fits the sizes of the messages, Sender and
--                      Receiver one side on what the other one writes, Prefix what a side has
--                      written by a point, Serves a client with any server that keeps its promise,
--                      Delivery the two from a fresh start, Resume the server on the rest of a
--                      transfer that was cut off, and both together, CutOff what a session leaves
--                      that ends anywhere, and the sessions behind it.
--   Cli                src/cli/main.cpp: parse_host_port, build_tls_config, run_serve and run_send up
--                      to the server or the client that they start, and main behind the option parser.
--   Version            src/lib/version.cpp.
-- Base has what all modules share, Runs the runs at concrete inputs.
--
-- Not modelled: the sockets and TLS themselves (Asio and OpenSSL are libraries; a read gives all the
-- bytes it asked for or fails, a write writes all or fails), the inside of BLAKE3, the creation of
-- directories, the threads of Server::run (a session is modelled alone, with the files to itself; run
-- hands its sockets to threads), the port of local_port, which is Asio's, the option parser of the
-- command line, the logging, the benchmark.
pub mod Base
pub mod Util
pub mod Proto
pub mod Io
pub mod Transport
pub mod Cli
pub mod Version
pub mod Runs
