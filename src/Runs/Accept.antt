-- ===== src/Runs/Accept.antt =====
-- A run of the accept loop: two sockets, with a failed accept between them, then a stop.
use ati_tcp_file_transfer.Base.{ℕ, ◌≡◌, refl, true, List, [], ◌∷◌, ◌++◌}
use ati_tcp_file_transfer.Transport.Connection.{Socket}
use ati_tcp_file_transfer.Transport.Server.Accept.{
  Event, accepts, fails, stops, open_acceptor, before_stop, run, AtMostOne, run_hands,
}

abbrev socket : ℕ → Socket
socket n = record { is_open = true; handshake_ok = true; incoming = n ∷ []; writes_left = n }

abbrev events : List Event
events = accepts (socket 1) ∷ fails ∷ accepts (socket 2) ∷ stops ∷ accepts (socket 3) ∷ []

run_hands_example :
    (late : List Socket) × ((run open_acceptor events).handed
      ≡ open_acceptor.handed ++ (before_stop events ++ late))
    × AtMostOne late
unfolding open_acceptor
run_hands_example = run_hands open_acceptor events refl
