-- ===== src/Transport/Server/Accept.antt =====
-- src/lib/transport/server.cpp: the constructors, run_one, run and stop. What happens to the acceptor is
-- a list of events, in their order: a socket is accepted, an accept fails, another thread calls stop.
-- A session runs in a thread of its own, which is given its socket here.
use ati_tcp_file_transfer.Base.{
  ℕ, ◌≤◌, ◌≡◌, refl, sym, ap, ◌∙◌, arith, if◌then◌else◌, Bool, true, false,
}
use ati_tcp_file_transfer.Base.{
  Option, none, some, List, [], ◌∷◌, ◌++◌, length, append_assoc, append-nil,
}
use ati_tcp_file_transfer.Util.Blake3.{Blake3}
use ati_tcp_file_transfer.Io.Files.{FilePath, Files}
use ati_tcp_file_transfer.Io.FileSink.{SinkError}
use ati_tcp_file_transfer.Transport.Connection.{
  Connection, Socket, plain_connection, tls_connection, destroy,
}
use ati_tcp_file_transfer.Transport.Session.{Session}
use ati_tcp_file_transfer.Transport.Server.Calls.{Server}
use ati_tcp_file_transfer.Transport.Server.Finish.{handle_session}

-- The acceptor, `stop_flag_`, and the sockets that were handed to threads, in order.
pub record Acceptor : Type 0 where
  pub is_open : Bool
  pub stop_flag : Bool
  pub handed : List Socket

-- `open_acceptor_`, where none of its four calls throws.
unfoldable pub open_acceptor : Acceptor
open_acceptor = record { is_open = true; stop_flag = false; handed = [] }

-- The two constructors.
module _ (hash : Blake3) (sink_text : SinkError → List ℕ) (root : FilePath) where
  unfoldable pub plain_server : Server × Acceptor
  unfolding open_acceptor
  plain_server =
      (record { root = root; has_tls = false; hash = hash; sink_text = sink_text }, open_acceptor)

  unfoldable pub tls_server : Server × Acceptor
  unfolding open_acceptor
  tls_server =
      (record { root = root; has_tls = true; hash = hash; sink_text = sink_text }, open_acceptor)

-- `ssl_ctx_ ? Connection(std::move(socket), *ssl_ctx_) : Connection(std::move(socket))`
unfoldable pub connection_on : Server → Socket → Connection
connection_on v socket = if v.has_tls then tls_connection socket else plain_connection socket

-- `handle_session_`, with its connection, which is closed behind it.
unfoldable pub serve : Server → Socket → Files → Bool × Session
unfolding connection_on
serve v socket files =
    let (succeeded, s) =
      handle_session v (record { conn = connection_on v socket; files = files }) in
    (succeeded, record s { conn = destroy s.conn })

-- `none` is an accept that fails.
unfoldable pub run_one : Server → Option Socket → Files → Bool × Files
unfolding serve
run_one v none files = (false, files)
run_one v (some socket) files = let (succeeded, s) = serve v socket files in (succeeded, s.files)

unfoldable pub stop_server : Acceptor → Acceptor
stop_server a = record a { is_open = false; stop_flag = true }

pub data Event : Type 0 where
  accepts : Socket → Event
  fails stops : Event

unfoldable pub hand : Acceptor → Socket → Acceptor
hand a socket = record a { handed = a.handed ++ socket ∷ [] }

-- `run` in its accept, which waits for an event: one that fails ends the loop where the flag is set,
-- and behind one that succeeds the head of the loop looks at the flag.
unfoldable pub accept_loop : Acceptor → List Event → Acceptor
unfolding hand stop_server
accept_loop a [] = a
accept_loop a (stops ∷ events) = accept_loop (stop_server a) events
accept_loop a (fails ∷ events) = let rest = accept_loop a events in if a.stop_flag then a else rest
accept_loop a (accepts socket ∷ events) =
    let rest = accept_loop (hand a socket) events in if a.stop_flag then hand a socket else rest

unfoldable pub run : Acceptor → List Event → Acceptor
unfolding accept_loop
run a events = if a.stop_flag then a else accept_loop a events

-- The sockets that are accepted before the first stop.
unfoldable pub before_stop : List Event → List Socket
before_stop [] = []
before_stop (stops ∷ events) = []
before_stop (fails ∷ events) = before_stop events
before_stop (accepts socket ∷ events) = socket ∷ before_stop events

-- None, or one.
abbrev pub AtMostOne : List Socket → Type 0
AtMostOne late = length late ≤ 1

if_false : {b : Bool} (x y : Acceptor) → b ≡ false → (if b then x else y).handed ≡ y.handed
if_false x y e = ap (λ t. (if t then x else y).handed) e

if_true : {b : Bool} (x y : Acceptor) → b ≡ true → (if b then x else y).handed ≡ x.handed
if_true x y e = ap (λ t. (if t then x else y).handed) e

stopping :
    (a : Acceptor) (events : List Event)
    → a.stop_flag ≡ true
    → (late : List Socket) × ((accept_loop a events).handed ≡ a.handed ++ late) × AtMostOne late
unfolding accept_loop hand stop_server
stopping a [] e = ([], sym (append-nil a.handed), omega arith)
stopping a (stops ∷ events) e =
    stopping (record a { is_open = false; stop_flag = true }) events refl
stopping a (fails ∷ events) e = ([], if_true _ _ e ∙ sym (append-nil a.handed), omega arith)
stopping a (accepts socket ∷ events) e = (socket ∷ [], if_true _ _ e, omega arith)

accepting :
    (a : Acceptor) (events : List Event)
    → a.stop_flag ≡ false
    → (late : List Socket) × ((accept_loop a events).handed
        ≡ a.handed ++ (before_stop events ++ late))
      × AtMostOne late
unfolding accept_loop before_stop hand stop_server
accepting a [] e = ([], sym (append-nil a.handed), omega arith)
accepting a (stops ∷ events) e =
    stopping (record a { is_open = false; stop_flag = true }) events refl
accepting a (fails ∷ events) e =
    let (late, same, few) = accepting a events e in (late, if_false _ _ e ∙ same, few)
accepting a (accepts socket ∷ events) e =
    let (late, same, few) = accepting (record a { handed = a.handed ++ socket ∷ [] }) events e in
    (
      late,
      if_false _ _ e ∙ same ∙ append_assoc a.handed (socket ∷ []) (before_stop events ++ late),
      few,
    )

-- Every socket that is accepted before the first stop is handed to a thread, in the order of their
-- arrival, failed accepts between them or not; behind the stop at most one more is.
pub run_hands :
    (a : Acceptor) (events : List Event)
    → a.stop_flag ≡ false
    → (late : List Socket) × ((run a events).handed ≡ a.handed ++ (before_stop events ++ late))
      × AtMostOne late
unfolding run
run_hands a events e =
    let (late, same, few) = accepting a events e in (late, if_false _ _ e ∙ same, few)
