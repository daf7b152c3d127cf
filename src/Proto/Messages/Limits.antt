-- ===== src/Proto/Messages/Limits.antt =====
-- Where an encoder narrows a length to 16 bits: an ERROR text of 64 KiB or more cannot be decoded.
use ati_tcp_file_transfer.Base.{ℕ, ◌%◌, ◌<◌, ◌≤◌, ◌≡◌, sym, ap, ◌∙◌, arith}
use ati_tcp_file_transfer.Base.{none, [], ◌++◌, length, take, drop, append-nil}
use ati_tcp_file_transfer.Base.{take-append-drop, length-take, length-drop}
use ati_tcp_file_transfer.Util.Byteorder.{u16_mod}
use ati_tcp_file_transfer.Proto.Cursor.{run, take_string}
use ati_tcp_file_transfer.Proto.Cursor.Rules.{Moves, Fails-bind_left, Fails-bind_right, Fails-run}
use ati_tcp_file_transfer.Proto.Cursor.Takes.{take_u16-Moves, take_string-Moves, at_end-Fails}
use ati_tcp_file_transfer.Proto.Messages.{ErrorMsg, encode_error, parse_error, decode_error}
use ati_tcp_file_transfer.Proto.Messages.Layout.{encode_error-layout}

-- The encoding of an ERROR whose text has 2 ^ 16 bytes or more, and whose code fits 16 bits, is
-- refused by the decoder.
pub decode_error_too_long :
    (m : ErrorMsg)
    → m.code < u16_mod
    → u16_mod ≤ length m.message
    → decode_error (encode_error m) ≡ none
unfolding decode_error
decode_error_too_long m code long =
    ap (run parse_error) (encode_error-layout m)
    ∙ Fails-run parse_error (
        Fails-bind_right _ _ (take_u16-Moves m.code _ code) (
          Fails-bind_right _ _ (take_u16-Moves n _ (omega arith)) (
            Fails-bind_right _ _ declared
              (Fails-bind_left _ _ (at_end-Fails (drop n m.message) behind)))))
  where
    n : ℕ
    n = length m.message % u16_mod

    behind : 0 < length (drop n m.message)
    behind = omega (arith, length-drop n m.message)

    split : m.message ++ [] ≡ take n m.message ++ drop n m.message
    split = append-nil m.message ∙ sym (take-append-drop n m.message)

    declared : Moves (take_string n) (m.message ++ []) (take n m.message) (drop n m.message)
    declared = rw split (
        take_string-Moves n (take n m.message) (drop n m.message)
          (omega (arith, length-take n m.message)))
