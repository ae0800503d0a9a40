-- ===== src/Range/Mask.antt =====
-- include/pcv/common/range.h: the mask and the prefix length of a range (`_get_mask_le`,
-- `_get_mask_be`, the tables `bytePrefix` and `mask_val`, `to_be`). A value of type T is a number and
-- `sizeof(T)` a count of bytes; byte 0 is the least significant one, as in memory on x86_64.
use Prim.Native.Nat.{bit_xor}
use pclass_vectorized.Prelude.{
  ℕ, zero, suc, ◌+◌, ◌*◌, ◌/◌, ◌%◌, ◌^◌, List, [], ◌∷◌, ◌==◌, if◌then◌else◌, get_or,
}
use pclass_vectorized.Range.{Range1d, range}

unfoldable pub byte_prefix : List ℕ
byte_prefix =
    8 ∷ 7 ∷ 6 ∷ 6 ∷ 5 ∷ 5 ∷ 5 ∷ 5 ∷ 4 ∷ 4 ∷ 4 ∷ 4 ∷ 4 ∷ 4 ∷ 4 ∷ 4 ∷ 3 ∷ 3 ∷ 3 ∷ 3 ∷ 3 ∷ 3 ∷ 3 ∷ 3
    ∷ 3 ∷ 3 ∷ 3 ∷ 3 ∷ 3 ∷ 3 ∷ 3 ∷ 3 ∷ 2 ∷ 2 ∷ 2 ∷ 2 ∷ 2 ∷ 2 ∷ 2 ∷ 2 ∷ 2 ∷ 2 ∷ 2 ∷ 2 ∷ 2 ∷ 2 ∷ 2 ∷ 2
    ∷ 2 ∷ 2 ∷ 2 ∷ 2 ∷ 2 ∷ 2 ∷ 2 ∷ 2 ∷ 2 ∷ 2 ∷ 2 ∷ 2 ∷ 2 ∷ 2 ∷ 2 ∷ 2 ∷ 1 ∷ 1 ∷ 1 ∷ 1 ∷ 1 ∷ 1 ∷ 1 ∷ 1
    ∷ 1 ∷ 1 ∷ 1 ∷ 1 ∷ 1 ∷ 1 ∷ 1 ∷ 1 ∷ 1 ∷ 1 ∷ 1 ∷ 1 ∷ 1 ∷ 1 ∷ 1 ∷ 1 ∷ 1 ∷ 1 ∷ 1 ∷ 1 ∷ 1 ∷ 1 ∷ 1 ∷ 1
    ∷ 1 ∷ 1 ∷ 1 ∷ 1 ∷ 1 ∷ 1 ∷ 1 ∷ 1 ∷ 1 ∷ 1 ∷ 1 ∷ 1 ∷ 1 ∷ 1 ∷ 1 ∷ 1 ∷ 1 ∷ 1 ∷ 1 ∷ 1 ∷ 1 ∷ 1 ∷ 1 ∷ 1
    ∷ 1 ∷ 1 ∷ 1 ∷ 1 ∷ 1 ∷ 1 ∷ 1 ∷ 1 ∷ 0 ∷ 0 ∷ 0 ∷ 0 ∷ 0 ∷ 0 ∷ 0 ∷ 0 ∷ 0 ∷ 0 ∷ 0 ∷ 0 ∷ 0 ∷ 0 ∷ 0 ∷ 0
    ∷ 0 ∷ 0 ∷ 0 ∷ 0 ∷ 0 ∷ 0 ∷ 0 ∷ 0 ∷ 0 ∷ 0 ∷ 0 ∷ 0 ∷ 0 ∷ 0 ∷ 0 ∷ 0 ∷ 0 ∷ 0 ∷ 0 ∷ 0 ∷ 0 ∷ 0 ∷ 0 ∷ 0
    ∷ 0 ∷ 0 ∷ 0 ∷ 0 ∷ 0 ∷ 0 ∷ 0 ∷ 0 ∷ 0 ∷ 0 ∷ 0 ∷ 0 ∷ 0 ∷ 0 ∷ 0 ∷ 0 ∷ 0 ∷ 0 ∷ 0 ∷ 0 ∷ 0 ∷ 0 ∷ 0 ∷ 0
    ∷ 0 ∷ 0 ∷ 0 ∷ 0 ∷ 0 ∷ 0 ∷ 0 ∷ 0 ∷ 0 ∷ 0 ∷ 0 ∷ 0 ∷ 0 ∷ 0 ∷ 0 ∷ 0 ∷ 0 ∷ 0 ∷ 0 ∷ 0 ∷ 0 ∷ 0 ∷ 0 ∷ 0
    ∷ 0 ∷ 0 ∷ 0 ∷ 0 ∷ 0 ∷ 0 ∷ 0 ∷ 0 ∷ 0 ∷ 0 ∷ 0 ∷ 0 ∷ 0 ∷ 0 ∷ 0 ∷ 0 ∷ 0 ∷ 0 ∷ 0 ∷ 0 ∷ 0 ∷ 0 ∷ 0 ∷ 0
    ∷ 0 ∷ 0 ∷ 0 ∷ 0 ∷ 0 ∷ 0 ∷ 0 ∷ 0 ∷ 0 ∷ 0 ∷ 0 ∷ 0 ∷ 0 ∷ 0 ∷ 0 ∷ 0 ∷ []

unfoldable pub mask_val : List ℕ
mask_val =
    0 ∷ 0b10000000 ∷ 0b11000000 ∷ 0b11100000 ∷ 0xf0 ∷ 0b11111000 ∷ 0b11111100 ∷ 0b11111110 ∷ 0xff
    ∷ []

unfoldable pub get_common_prefix_length : ℕ → ℕ → ℕ × ℕ
unfolding byte_prefix mask_val
get_common_prefix_length a b =
    let pl = get_or byte_prefix (bit_xor a b) 0 in (pl, get_or mask_val pl 0)

-- `reinterpret_cast<const uint8_t *>(&val)[b]`
abbrev pub byte_at : ℕ → ℕ → ℕ
byte_at val b = val / 256 ^ b % 256

-- The loop of `_get_mask_le` over the bytes b - 1, ..., 0; the bytes after a `break` stay 0.
unfoldable pub mask_le_loop : ℕ → ℕ → ℕ → ℕ × ℕ
unfolding get_common_prefix_length
mask_le_loop low high zero = (0, 0)
mask_le_loop low high (suc b) =
    let (pl, pm) = get_common_prefix_length (byte_at low b) (byte_at high b) in
    let rest = mask_le_loop low high b in
    if pl == 8 then (pm * 256 ^ b + rest.0, pl + rest.1) else (pm * 256 ^ b, pl)

unfoldable pub get_mask_le : ℕ → Range1d → ℕ × ℕ
unfolding mask_le_loop
get_mask_le size r = mask_le_loop r.low r.high size

-- The loop of `_get_mask_be` over the bytes b, ..., b + n - 1.
unfoldable pub mask_be_loop : ℕ → ℕ → ℕ → ℕ → ℕ × ℕ
unfolding get_common_prefix_length
mask_be_loop low high zero b = (0, 0)
mask_be_loop low high (suc n) b =
    let (pl, pm) = get_common_prefix_length (byte_at low b) (byte_at high b) in
    let rest = mask_be_loop low high n (b + 1) in
    if pl == 8 then (pm * 256 ^ b + rest.0, pl + rest.1) else (pm * 256 ^ b, pl)

unfoldable pub get_mask_be : ℕ → Range1d → ℕ × ℕ
unfolding mask_be_loop
get_mask_be size r = mask_be_loop r.low r.high size 0

-- `endianity_swap::to_be` of a value of n bytes on x86_64: the bytes in reverse order.
unfoldable pub swap_bytes : ℕ → ℕ → ℕ
swap_bytes zero val = 0
swap_bytes (suc n) val = val % 256 * 256 ^ n + swap_bytes n (val / 256)

unfoldable pub to_be : ℕ → Range1d → Range1d
unfolding swap_bytes
to_be size r = range (swap_bytes size r.low) (swap_bytes size r.high)

unfoldable pub prefix_len_le : ℕ → Range1d → ℕ
unfolding get_mask_le
prefix_len_le size r = (get_mask_le size r).1

unfoldable pub prefix_len_be : ℕ → Range1d → ℕ
unfolding to_be prefix_len_le
prefix_len_be size r = prefix_len_le size (to_be size r)

unfoldable pub max_prefix_len : ℕ → ℕ
max_prefix_len size = size * 8
