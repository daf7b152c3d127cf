-- ===== src/Io.antt =====
-- include/ftx/io and src/lib/io: the files of the receiver and the sender.
pub mod ResumeState
pub mod Files
pub mod Paths
pub mod FileSink
pub mod FileSource
