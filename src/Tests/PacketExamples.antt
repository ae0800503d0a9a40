-- ===== src/Tests/PacketExamples.antt =====
-- The theorem about fields in a packet at a concrete packet.
use pclass_vectorized.Prelude.{ℕ, ◌≡◌, refl, List, [], ◌∷◌, map, arith}
use pclass_vectorized.Rule.PacketWords.{Cursor}
use pclass_vectorized.Rule.PacketWords.Fields.{
  Field, u8, u16, u16be, u32, u32be, u128, u128be, push_fields, pop_fields, seen,
}
use pclass_vectorized.Rule.PacketWords.RoundTrip.{pop_fields-push_fields}

abbrev loopback : List ℕ
loopback = 0 ∷ 0 ∷ 0 ∷ 0 ∷ 0 ∷ 0 ∷ 0 ∷ 256 ∷ []

abbrev fields : List Field
fields =
    u8 6
    ∷ u16 443
    ∷ u16be 2048
    ∷ u32 287454020
    ∷ u32be 167772161
    ∷ u128 loopback
    ∷ u128be loopback
    ∷ []

abbrev packet : Cursor
packet = record { i = 2; dst = λ i. 0 }

swapped_field : map seen (u32 287454020 ∷ []) ≡ u32 860098850 ∷ []
swapped_field = refl

pop_fields-push_fields_example :
    pop_fields fields (push_fields fields packet).dst 2 ≡ map seen fields
pop_fields-push_fields_example = pop_fields-push_fields fields packet (
  omega arith,
  (
    omega arith,
    (
      omega arith,
      (
        omega arith,
        (
          omega arith,
          (
            refl,
            (
              (
                refl,
                (
                  omega arith,
                  (
                    omega arith,
                    (
                      omega arith,
                      (omega arith, (omega arith, (omega arith, (omega arith, (omega arith, tt))))),
                    ),
                  ),
                ),
              ),
              tt,
            ),
          ),
        ),
      ),
    ),
  ),
)
