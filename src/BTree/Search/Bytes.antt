-- ===== src/BTree/Search/Bytes.antt =====
-- How a field is read back from the bytes of a packet.
use pclass_vectorized.Prelude.{ℕ, ◌+◌, ◌*◌, ◌/◌, ◌%◌, ◌^◌, ◌<◌, ◌≡◌, false, true, ◌==◌, arith}
use pclass_vectorized.BTree.Search.Packet.{get_val, default_in_packet_position, bytes_of}

-- In an array of 16-bit values, `get_val` at the default position of a field below 2 ^ 15 is the
-- value at the field's index.
pub get_val-bytes_of :
    (vec : ℕ → ℕ) (dim : ℕ)
    → vec dim < 2 ^ 16
    → dim < 2 ^ 15
    → get_val default_in_packet_position (bytes_of vec) dim ≡ vec dim
unfolding get_val default_in_packet_position bytes_of
get_val-bytes_of vec dim small low =
    let offset : dim * 2 % 2 ^ 16 ≡ dim * 2 = omega arith in
    let even : (dim * 2 % 2 == 0) ≡ true = ground arith in
    let odd : ((dim * 2 + 1) % 2 == 0) ≡ false = ground arith in
    let half : dim * 2 / 2 ≡ dim = omega arith in
    let half' : (dim * 2 + 1) / 2 ≡ dim = omega arith in
    rw (offset, even, odd, half, half') (omega arith)
