-- ===== src/Proto/ErrorCode.antt =====
-- `ErrorCode` of include/ftx/proto/types.hpp. A code is its uint16 value, since a decoded ERROR
-- message may hold any.
use Prim.Native.Nat.{ℕ}

abbrev pub unspecified : ℕ
unspecified = 0x0000

abbrev pub protocol_violation : ℕ
protocol_violation = 0x0001

abbrev pub unsupported_version : ℕ
unsupported_version = 0x0002

abbrev pub payload_too_large : ℕ
payload_too_large = 0x0003

abbrev pub hash_mismatch : ℕ
hash_mismatch = 0x0004

abbrev pub invalid_path : ℕ
invalid_path = 0x0005

abbrev pub not_found : ℕ
not_found = 0x0006

abbrev pub permission_denied : ℕ
permission_denied = 0x0007

abbrev pub internal_error : ℕ
internal_error = 0x00ff
