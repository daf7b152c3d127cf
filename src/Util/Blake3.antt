-- ===== src/Util/Blake3.antt =====
-- include/ftx/util/blake3.hpp and src/lib/util/blake3.cpp: the wrapper of the BLAKE3 library, which is
-- not in the repository. Its three functions are a parameter; `IsStreaming` is what its documentation
-- says of them: a hasher that is updated piece by piece gives the hash of the pieces put together.
pub mod Streaming
use mathlib.Core.List.{flatten, foldl}
use ati_tcp_file_transfer.Base.{ℕ, ◌<◌, ◌≡◌, ◌∙◌, List, [], ◌∷◌, ◌++◌, length}

-- `blake3_hasher_init`, `blake3_hasher_update` and `blake3_hasher_finalize` for 32 bytes.
pub record Blake3 : Type 1 where
  pub Hasher : Type 0
  pub init : Hasher
  pub update : Hasher → List ℕ → Hasher
  pub finalize : Hasher → List ℕ

pub record IsStreaming (b : Blake3) : Type 0 where
  pub pieces :
      (chunks : List (List ℕ))
      → b.finalize (foldl b.update b.init chunks) ≡ b.finalize (b.update b.init (flatten chunks))
  pub empty_update : (h : b.Hasher) → b.finalize (b.update h []) ≡ b.finalize h
  pub size : (h : b.Hasher) → length (b.finalize h) ≡ 32

module _ (b : Blake3) where
  -- `if (!data.empty())`, in the one-shot hash and in `Blake3Hasher::update`.
  unfoldable pub update_unless_empty : b.Hasher → List ℕ → b.Hasher
  update_unless_empty h [] = h
  update_unless_empty h (x ∷ bytes) = b.update h (x ∷ bytes)

  unfoldable pub blake3 : List ℕ → List ℕ
  unfolding update_unless_empty
  blake3 bytes = b.finalize (update_unless_empty b.init bytes)

  -- The constructor of `Blake3Hasher`.
  abbrev pub new_hasher : b.Hasher
  new_hasher = b.init

  unfoldable pub update : b.Hasher → List ℕ → b.Hasher
  unfolding update_unless_empty
  update h bytes = update_unless_empty h bytes

  unfoldable pub finalize : b.Hasher → List ℕ
  finalize h = b.finalize h

  unfoldable pub reset : b.Hasher → b.Hasher
  reset h = b.init
