-- ===== src/Proto/Decoder/Steps.antt =====
-- The decoder's loop, one step at a time: rounds, appended bytes, poison.
use ati_tcp_file_transfer.Base.{ℕ, zero, suc, ◌≡◌, refl, arith}
use ati_tcp_file_transfer.Base.{true, false}
use ati_tcp_file_transfer.Base.{List, ◌++◌, append_assoc}
use ati_tcp_file_transfer.Base.{length-append, take-append_le, drop-append_le}
use ati_tcp_file_transfer.Proto.Types.{k_header_size}
use ati_tcp_file_transfer.Proto.Decoder.{
  FrameDecoder, poisoned, try_consume_header, drive_loop, drive, append, feed,
}

-- Two rounds are enough: more change nothing.
pub drive_loop_rounds : (n : ℕ) (d : FrameDecoder) → drive_loop (suc (suc n)) d ≡ drive d
unfolding drive try_consume_header
drive_loop_rounds zero d = refl
drive_loop_rounds (suc n) d = ground arith

-- Bytes that arrive after the loop has returned are treated as if they had been there before.
pub drive-append :
    (d : FrameDecoder) (bytes : List ℕ)
    → (drive d).1 ≡ true
    → drive (append d bytes) ≡ drive (append (drive d).0 bytes)
unfolding drive try_consume_header
drive-append d bytes h = ground (
  arith,
  take-append_le k_header_size d.buffer bytes,
  drop-append_le k_header_size d.buffer bytes,
  length-append d.buffer bytes,
)

pub drive-append_poisoned :
    (d : FrameDecoder) (bytes : List ℕ) → (drive d).1 ≡ false → (drive (append d bytes)).1 ≡ false
unfolding drive try_consume_header
drive-append_poisoned d bytes h =
    ground (arith, take-append_le k_header_size d.buffer bytes, length-append d.buffer bytes)

drive_state :
    (d : FrameDecoder) → (drive d).1 ≡ (elim (drive d).0.state [ poisoned ↦ false | _ ↦ true ])
unfolding drive try_consume_header
drive_state d = ground arith

-- If the first piece is accepted, a feed of two pieces at once and a feed of one after the other
-- leave the same decoder, with the same answer.
pub feed-append :
    (d : FrameDecoder) (a b : List ℕ) → (feed d a).1 ≡ true → feed d (a ++ b) ≡ feed (feed d a).0 b
unfolding feed
feed-append d a b h =
    ground (arith, append_assoc d.buffer a b, drive-append (append d a) b, drive_state (append d a))

-- After a feed that answers false, every later feed answers false and leaves the decoder as it is.
feed_poisoned :
    (d : FrameDecoder) (a b : List ℕ)
    → (feed d a).1 ≡ false
    → feed (feed d a).0 b ≡ ((feed d a).0, false)
unfolding feed
feed_poisoned d a b h = ground (arith, drive_state (append d a))

-- If a feed of `a` answers false, a feed of `a` and any bytes behind it answers false too.
pub feed-append_poisoned :
    (d : FrameDecoder) (a b : List ℕ) → (feed d a).1 ≡ false → (feed d (a ++ b)).1 ≡ false
unfolding feed
feed-append_poisoned d a b h =
    ground (arith, append_assoc d.buffer a b, drive-append_poisoned (append d a) b)
