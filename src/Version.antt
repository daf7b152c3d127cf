-- ===== src/Version.antt =====
-- include/ftx/version.hpp and src/lib/version.cpp.
use Prim.Native.String.{String}

abbrev pub k_version : String
k_version = "0.1.0"

unfoldable pub version : String
version = k_version
