-- ===== src/Transport/Server/Announce/Whole.antt =====
-- Why a session of src/lib/transport/server.cpp fails: its end, and the whole of it.
use ati_tcp_file_transfer.Io.FileSink.{FileSink}
use ati_tcp_file_transfer.Io.FileSink
use ati_tcp_file_transfer.Transport.Session.{Session}
use ati_tcp_file_transfer.Transport.Server.Calls.{Server}
