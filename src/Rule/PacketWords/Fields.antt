-- ===== src/Rule/PacketWords/Fields.antt =====
-- include/pcv/rule_parser/rule_vec_utils.h: a packet as a sequence of fields, each written by its
-- `push` and read by its `pop`, in the manner of the functions that build packets from these.
use pclass_vectorized.Prelude.{ℕ, ◌+◌, ◌*◌, ◌/◌, ◌%◌, ◌^◌, ◌<◌, ◌≡◌, List, [], ◌∷◌, length, All}
use pclass_vectorized.Rule.PacketWords.{
  Cursor, push_8, push_16, push_16be, push_32, push_32be, push_128, push_128be, pop_8, pop_16,
  pop_16be, pop_32, pop_32be, pop_128, pop_128be,
}

-- A value with the functions that write and read it.
pub data Field : Type 0 where
  u8 : ℕ → Field
  u16 : ℕ → Field
  u16be : ℕ → Field
  u32 : ℕ → Field
  u32be : ℕ → Field
  u128 : List ℕ → Field
  u128be : List ℕ → Field

abbrev pub push : Field → Cursor → Cursor
push (u8 v) c = push_8 v c
push (u16 v) c = push_16 v c
push (u16be v) c = push_16be v c
push (u32 v) c = push_32 v c
push (u32be v) c = push_32be v c
push (u128 v) c = push_128 v c
push (u128be v) c = push_128be v c

unfoldable pub push_fields : List Field → Cursor → Cursor
push_fields [] c = c
push_fields (f ∷ fs) c = push_fields fs (push f c)

-- The field that the `pop` of the same kind reads at an index, and the index behind it.
abbrev pub pop : Field → (ℕ → ℕ) → ℕ → Field × ℕ
pop (u8 v) src i = let r = pop_8 src i in (u8 r.0, r.1)
pop (u16 v) src i = let r = pop_16 src i in (u16 r.0, r.1)
pop (u16be v) src i = let r = pop_16be src i in (u16be r.0, r.1)
pop (u32 v) src i = let r = pop_32 src i in (u32 r.0, r.1)
pop (u32be v) src i = let r = pop_32be src i in (u32be r.0, r.1)
pop (u128 v) src i = let r = pop_128 src i in (u128 r.0, r.1)
pop (u128be v) src i = let r = pop_128be src i in (u128be r.0, r.1)

unfoldable pub pop_fields : List Field → (ℕ → ℕ) → ℕ → List Field
pop_fields [] src i = []
pop_fields (f ∷ fs) src i = let r = pop f src i in r.0 ∷ pop_fields fs src r.1

-- The value is one of its type.
abbrev pub Fits : Field → Type 0
Fits (u8 v) = v < 2 ^ 8
Fits (u16 v) = v < 2 ^ 16
Fits (u16be v) = v < 2 ^ 16
Fits (u32 v) = v < 2 ^ 32
Fits (u32be v) = v < 2 ^ 32
Fits (u128 v) = length v ≡ 8
Fits (u128be v) = (length v ≡ 8) × All (λ w. w < 2 ^ 16) v

-- The halves of a 32-bit value exchanged.
abbrev pub swap_halves : ℕ → ℕ
swap_halves v = v % 2 ^ 16 * 2 ^ 16 + v / 2 ^ 16

-- The field that is read for a field that was written.
abbrev pub seen : Field → Field
seen (u8 v) = u8 v
seen (u16 v) = u16 v
seen (u16be v) = u16be v
seen (u32 v) = u32 (swap_halves v)
seen (u32be v) = u32be (swap_halves v)
seen (u128 v) = u128 v
seen (u128be v) = u128be v
