-- ===== src/BTree/Search/Packet.antt =====
-- include/pcv/partition_sort/b_tree_search.h: how a field is read from the bytes of a packet.
use pclass_vectorized.Prelude.{ℕ, ◌+◌, ◌*◌, ◌/◌, ◌%◌, ◌^◌, Bool, false, ◌==◌, if◌then◌else◌}

-- `in_packet_position_t`
pub record InPacketPosition : Type 0 where
  pub offset : ℕ
  pub size : ℕ
  pub is_big_endian : Bool

-- The bytes that `val_vec` points to.
abbrev pub Packet : Type 0
Packet = ℕ → ℕ

-- `get_val`; the key type has 16 bits, and any size but 1 is read as 2, as with NDEBUG.
unfoldable pub get_val : (ℕ → InPacketPosition) → Packet → ℕ → ℕ
get_val position val_vec dim =
    let p = position dim in
    if p.size == 1
    then val_vec p.offset
    else if p.is_big_endian
    then val_vec p.offset * 256 + val_vec (p.offset + 1)
    else val_vec p.offset + val_vec (p.offset + 1) * 256

-- `default_in_packet_position`: an array of 16-bit values.
unfoldable pub default_in_packet_position : ℕ → InPacketPosition
default_in_packet_position i = record { offset = i * 2 % 2 ^ 16; size = 2; is_big_endian = false }

-- `(const uint8_t *) &_val[0]`: the bytes of an array of 16-bit values, the lower one first.
unfoldable pub bytes_of : (ℕ → ℕ) → Packet
bytes_of vec i = if i % 2 == 0 then vec (i / 2) % 256 else vec (i / 2) / 256 % 256
