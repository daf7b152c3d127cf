-- ===== src/Runs.antt =====
-- Concrete runs of the code, and the theorems at concrete inputs.
mod Data
mod Wire
mod Stream
mod Messages
mod Resume
mod Exchange
mod Files
mod Hashing
mod Client
mod Server
mod Cli
mod Transfer
mod Accept
mod Resumed
mod CutOff
