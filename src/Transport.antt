-- ===== src/Transport.antt =====
-- include/ftx/transport and src/lib/transport: connections and sessions.
pub mod Connection
pub mod Session
pub mod Tls
pub mod Client
pub mod Server
pub mod Transfer
