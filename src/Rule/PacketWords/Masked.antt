-- ===== src/Rule/PacketWords/Masked.antt =====
-- include/pcv/rule_parser/rule_vec_utils.h: the functions of `vec_build` that write a value with a mask
-- as 16-bit ranges and read the lower bound and the mask back. An address of 16 bytes is the list of its
-- words in memory, with their masks, and so is one of 6 bytes that is written; one that is read is the
-- number of its bytes, as `memcpy` lays them out.
use Prim.Native.Nat.{bit_or}
use pclass_vectorized.Prelude.{ℕ, zero, suc, ◌+◌, ◌-◌, ◌*◌, ◌/◌, ◌%◌, ◌^◌, List, [], ◌∷◌, update}
use pclass_vectorized.Range.{Range1d, range}
use pclass_vectorized.Range.Mask.{swap_bytes, to_be, get_mask_le, get_mask_be}

-- The array of ranges with the index that the functions advance.
pub record RangeCursor : Type 0 where
  pub i : ℕ
  pub dst : ℕ → Range1d

-- `from_mask` of a value of w bits
abbrev pub from_mask : ℕ → ℕ → ℕ → Range1d
from_mask w low mask = range low (bit_or low (2 ^ w - 1 - mask))

-- `dst[i++] = R::from_mask(v, m)`
abbrev pub put_masked : ℕ → ℕ → RangeCursor → RangeCursor
put_masked v m c = record { i = c.i + 1; dst = update c.dst c.i (from_mask 16 v m) }

-- `((uint16_t*) &v)[j]`
abbrev pub word_at : ℕ → ℕ → ℕ
word_at v j = v / 2 ^ (16 * j) % 2 ^ 16

abbrev pub push_masked_8 : ℕ → ℕ → RangeCursor → RangeCursor
push_masked_8 v m c = put_masked v m c

abbrev pub push_masked_16 : ℕ → ℕ → RangeCursor → RangeCursor
push_masked_16 v m c = put_masked v m c

abbrev pub push_masked_16be : ℕ → ℕ → RangeCursor → RangeCursor
push_masked_16be v m c = put_masked (swap_bytes 2 v) (swap_bytes 2 m) c

abbrev pub push_masked_32 : ℕ → ℕ → RangeCursor → RangeCursor
push_masked_32 v m c =
    put_masked (word_at v 0) (word_at m 0) (put_masked (word_at v 1) (word_at m 1) c)

-- The words 0, ..., n - 1 of v and m.
unfoldable pub push_words : ℕ → ℕ → ℕ → RangeCursor → RangeCursor
push_words zero v m c = c
push_words (suc n) v m c =
    push_words n (v / 2 ^ 16) (m / 2 ^ 16) (put_masked (v % 2 ^ 16) (m % 2 ^ 16) c)

abbrev pub push_masked_32be : ℕ → ℕ → RangeCursor → RangeCursor
push_masked_32be v m c = push_words 2 (swap_bytes 4 v) (swap_bytes 4 m) c

abbrev pub push_masked_64be : ℕ → ℕ → RangeCursor → RangeCursor
push_masked_64be v m c = push_words 4 (swap_bytes 8 v) (swap_bytes 8 m) c

-- The words of an Ethernet address from the last one to the first.
unfoldable pub push_masked_eth_addr : List (ℕ × ℕ) → RangeCursor → RangeCursor
push_masked_eth_addr [] c = c
push_masked_eth_addr ((v, m) ∷ words) c =
    put_masked (swap_bytes 2 v) (swap_bytes 2 m) (push_masked_eth_addr words c)

unfoldable pub push_masked_128be : List (ℕ × ℕ) → RangeCursor → RangeCursor
push_masked_128be [] c = c
push_masked_128be ((v, m) ∷ words) c =
    push_masked_128be words (put_masked (swap_bytes 2 v) (swap_bytes 2 m) c)

-- The words from the last one to the first.
unfoldable pub push_masked_128 : List (ℕ × ℕ) → RangeCursor → RangeCursor
push_masked_128 [] c = c
push_masked_128 ((v, m) ∷ words) c = put_masked v m (push_masked_128 words c)

-- What a pop gives: the value, the mask and the index after it.
pub record Popped : Type 0 where
  pub v : ℕ
  pub m : ℕ
  pub i : ℕ

module _ (src : ℕ → Range1d) where
  abbrev pub pop_masked_8 : ℕ → Popped
  pop_masked_8 i =
      let r = range ((src i).low % 2 ^ 8) ((src i).high % 2 ^ 8) in
      record { v = r.low; m = (get_mask_le 1 r).0; i = i + 1 }

  -- The bounds are kept in a `uint8_t`.
  abbrev pub pop_masked_16 : ℕ → Popped
  pop_masked_16 i =
      let r = range ((src i).low % 2 ^ 8) ((src i).high % 2 ^ 8) in
      record { v = r.low; m = (get_mask_le 2 r).0; i = i + 1 }

  -- The index stays.
  abbrev pub pop_masked_16be : ℕ → Popped
  pop_masked_16be i =
      let r = to_be 2 (src i) in record { v = r.low; m = (get_mask_be 2 r).0; i = i }

  -- The 32-bit range whose upper half is at the second index.
  abbrev pub two_halves : ℕ → ℕ → Range1d
  two_halves i j = range ((src j).low * 2 ^ 16 + (src i).low) ((src j).high * 2 ^ 16 + (src i).high)

  abbrev pub pop_masked_32 : ℕ → Popped
  pop_masked_32 i =
      let r = two_halves i (i + 1) in record { v = r.low; m = (get_mask_le 4 r).0; i = i + 2 }

  abbrev pub pop_range_32 : ℕ → Range1d × ℕ
  pop_range_32 i = (two_halves i (i + 1), i + 2)

  abbrev pub pop_masked_32be : ℕ → Popped
  pop_masked_32be i =
      let r = to_be 4 (two_halves (i + 1) i) in
      record { v = r.low; m = (get_mask_be 4 r).0; i = i + 2 }

  -- n words, the first one in the highest place, behind those already read.
  unfoldable pub pop_bounds : ℕ → ℕ → Range1d → Range1d
  pop_bounds zero i r = r
  pop_bounds (suc n) i r =
      pop_bounds n (i + 1) (range (r.low * 2 ^ 16 + (src i).low) (r.high * 2 ^ 16 + (src i).high))

  abbrev pub pop_masked_64be : ℕ → Popped
  unfolding pop_bounds
  pop_masked_64be i =
      let r = to_be 8 (pop_bounds 4 i (range 0 0)) in
      record { v = r.low; m = (get_mask_be 8 r).0; i = i + 4 }

  -- The loop of `pop_128be`: each word with its mask.
  unfoldable pub pop_masked_128be : ℕ → ℕ → List (ℕ × ℕ) × ℕ
  pop_masked_128be zero i = ([], i)
  pop_masked_128be (suc n) i =
      let r = to_be 2 (src i) in
      let rest = pop_masked_128be n (i + 1) in ((r.low, (get_mask_be 2 r).0) ∷ rest.0, rest.1)

  -- The loop of `pop_128`, from the last word to the first.
  unfoldable pub pop_masked_128 : ℕ → List (ℕ × ℕ) → ℕ → List (ℕ × ℕ) × ℕ
  pop_masked_128 zero words i = (words, i)
  pop_masked_128 (suc n) words i =
      pop_masked_128 n (((src i).low, (get_mask_le 2 (src i)).0) ∷ words) (i + 1)

  -- After each of the three words the bounds move up by 16 bits.
  abbrev pub pop_masked_eth_addr : ℕ → Popped
  unfolding pop_bounds
  pop_masked_eth_addr i =
      let b = pop_bounds 3 i (range 0 0) in
      let r = to_be 8 (range (b.low * 2 ^ 16) (b.high * 2 ^ 16)) in
      record { v = r.low % 2 ^ 48; m = (get_mask_be 8 r).0 % 2 ^ 48; i = i + 3 }
