-- ===== src/Util.antt =====
-- include/ftx/util and src/lib/util: byte order and the CRC.
pub mod Byteorder
pub mod Crc32c
pub mod Blake3
