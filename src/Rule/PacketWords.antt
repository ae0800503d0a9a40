-- ===== src/Rule/PacketWords.antt =====
-- include/pcv/rule_parser/rule_vec_utils.h: `vec_build`, the functions that write exact values as the
-- 16-bit words of a packet and read them back. An address of 128 bits is the list of its words in
-- memory.
pub mod Fields
pub mod Masked
pub mod RoundTrip
use pclass_vectorized.Prelude.{ℕ, zero, suc, ◌+◌, ◌*◌, ◌/◌, ◌%◌, ◌^◌, List, [], ◌∷◌, ◌++◌, update}
use pclass_vectorized.Range.Mask.{swap_bytes}

-- The array of words with the index that the functions advance.
pub record Cursor : Type 0 where
  pub i : ℕ
  pub dst : ℕ → ℕ

-- `dst[i++] = v`
abbrev pub put : ℕ → Cursor → Cursor
put v c = record { i = c.i + 1; dst = update c.dst c.i v }

abbrev pub push_8 : ℕ → Cursor → Cursor
push_8 v c = put v c

abbrev pub push_16 : ℕ → Cursor → Cursor
push_16 v c = put v c

abbrev pub push_16be : ℕ → Cursor → Cursor
push_16be v c = put (swap_bytes 2 v) c

abbrev pub push_32 : ℕ → Cursor → Cursor
push_32 v c = put (v / 2 ^ 16 % 2 ^ 16) (put (v % 2 ^ 16) c)

abbrev pub push_32be : ℕ → Cursor → Cursor
push_32be v c = let w = swap_bytes 4 v in put (w / 2 ^ 16 % 2 ^ 16) (put (w % 2 ^ 16) c)

abbrev pub push_64be : ℕ → Cursor → Cursor
push_64be v c =
    let w = swap_bytes 8 v in
    put (w / 2 ^ 48 % 2 ^ 16)
      (put (w / 2 ^ 32 % 2 ^ 16) (put (w / 2 ^ 16 % 2 ^ 16) (put (w % 2 ^ 16) c)))

-- The words of an Ethernet address from the last one to the first.
unfoldable pub push_eth_addr : List ℕ → Cursor → Cursor
push_eth_addr [] c = c
push_eth_addr (w ∷ v) c = put (swap_bytes 2 w) (push_eth_addr v c)

-- The words from the last one to the first.
unfoldable pub push_128 : List ℕ → Cursor → Cursor
push_128 [] c = c
push_128 (w ∷ v) c = put w (push_128 v c)

unfoldable pub push_128be : List ℕ → Cursor → Cursor
push_128be [] c = c
push_128be (w ∷ v) c = push_128be v (put (swap_bytes 2 w) c)

module _ (src : ℕ → ℕ) where
  abbrev pub pop_8 : ℕ → ℕ × ℕ
  pop_8 i = (src i % 2 ^ 8, i + 1)

  abbrev pub pop_16 : ℕ → ℕ × ℕ
  pop_16 i = (src i, i + 1)

  abbrev pub pop_16be : ℕ → ℕ × ℕ
  pop_16be i = (swap_bytes 2 (src i), i + 1)

  abbrev pub pop_32 : ℕ → ℕ × ℕ
  pop_32 i = (src i * 2 ^ 16 + src (i + 1), i + 2)

  abbrev pub pop_32be : ℕ → ℕ × ℕ
  pop_32be i = (swap_bytes 4 (src i * 2 ^ 16 + src (i + 1)), i + 2)

  -- n words, the first one in the highest place, behind those already read.
  unfoldable pub pop_joined : ℕ → ℕ → ℕ → ℕ
  pop_joined zero i low = low
  pop_joined (suc n) i low = pop_joined n (i + 1) (low * 2 ^ 16 + src i)

  abbrev pub pop_64be : ℕ → ℕ × ℕ
  unfolding pop_joined
  pop_64be i = (swap_bytes 8 (pop_joined 4 i 0), i + 4)

  -- The six bytes of an Ethernet address as a number: after each of the three words the value moves up
  -- by 16 bits.
  abbrev pub pop_eth_addr : ℕ → ℕ × ℕ
  unfolding pop_joined
  pop_eth_addr i = (swap_bytes 8 (pop_joined 3 i 0 * 2 ^ 16) % 2 ^ 48, i + 3)

  -- The loop of `pop_128`: the words are read from the last one to the first, so that each stands
  -- before those already read.
  unfoldable pub pop_words : ℕ → List ℕ → ℕ → List ℕ × ℕ
  pop_words zero v i = (v, i)
  pop_words (suc n) v i = pop_words n (src i ∷ v) (i + 1)

  abbrev pub pop_128 : ℕ → List ℕ × ℕ
  pop_128 i = pop_words 8 [] i

  -- The loop of `pop_128be`.
  unfoldable pub pop_words_be : ℕ → ℕ → List ℕ × ℕ
  pop_words_be zero i = ([], i)
  pop_words_be (suc n) i =
      let rest = pop_words_be n (i + 1) in (swap_bytes 2 (src i) ∷ rest.0, rest.1)

  abbrev pub pop_128be : ℕ → List ℕ × ℕ
  pop_128be i = pop_words_be 8 i
