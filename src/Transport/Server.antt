-- ===== src/Transport/Server.antt =====
-- src/lib/transport/server.cpp: `Start` has the steps up to the request for chunks, `Receive` the loop
-- over the chunks, `Finish` the checks behind it and the whole of Server::handle_session_.
pub mod Dest
pub mod Text
pub mod Calls
pub mod Start
pub mod Receive
pub mod Finish
pub mod Keeps
pub mod Safety
pub mod Jail
pub mod Rounds
pub mod ReadBack
pub mod Honest
pub mod Store
pub mod Integrity
pub mod Announce
pub mod Accept
