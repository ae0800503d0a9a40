-- ===== src/BTree/Search/PlainLevels.antt =====
-- One level of the tree without compression, in the search in all levels (`BTreeSearch::search`).
use pclass_vectorized.Prelude.{
  ℕ, zero, suc, ◌+◌, ◌≡◌, refl, ◌∙◌, ◌⊎◌, inl, inr, true, false, Option, none, some, List, arith,
  if◌then◌else◌, Bool-cases, get_or,
}
use pclass_vectorized.Range.{in_range}
use pclass_vectorized.BTree.{Ptr, Node, RuleValueInt, is_valid}
use pclass_vectorized.BTree.Search.Level.{Holds, IsLevel, FindsIn}
use pclass_vectorized.BTree.Search.UniqueKeys.{Holds-unique}
use pclass_vectorized.BTree.Search.Meets.{Meets, NoneBeyond, IsDeepest, last, onto, within, through}
use pclass_vectorized.BTree.Search.Levels.{better}

module _ (mem : Ptr → Node) (order : List ℕ) where
  -- The root of a level is not compressed.
  IsLevel-plain : (h : ℕ) (p : Ptr) → IsLevel mem h (some p) → (mem p).is_compressed ≡ true → ⊥
  IsLevel-plain zero p level packed = level
  IsLevel-plain (suc h) p level packed = let plain = level.1 in cc

  -- A chain from a level: its first key, and the rest of it.
  Meets-level :
      (val : ℕ → ℕ) (h : ℕ) (p : Option Ptr) (i n : ℕ) (v : RuleValueInt)
      → IsLevel mem h p
      → Meets mem order val p i n v
      → (q k : ℕ) × Holds mem p q k
        × (in_range ((mem q).keys k) (val (get_or order i 0)) ≡ true)
        × (((n ≡ 0) × (v ≡ (mem q).value k))
            ⊎ ((n' : ℕ) × (n ≡ suc n') × Meets mem order val ((mem q).next_level k) (i + 1) n' v))
  Meets-level val h p i n v level (last {q = q} {k = k} held _ hit) =
      (q, k, held, hit, inl (refl, refl))
  Meets-level val h p i n v level (onto {q = q} {k = k} {n = n'} held _ hit rest) =
      (q, k, held, hit, inr (n', refl, rest))
  Meets-level val h (some p) i n v level (within packed _ _) =
      absurd (IsLevel-plain h p level packed)
  Meets-level val h (some p) i n v level (through packed _ _ _) =
      absurd (IsLevel-plain h p level packed)

  pub IsDeepest-no_key :
      (val : ℕ → ℕ) (h : ℕ) (p : Option Ptr) (i : ℕ) (res : RuleValueInt)
      → IsLevel mem h p
      → FindsIn mem p (val (get_or order i 0)) none
      → IsDeepest mem order val p i res res
  IsDeepest-no_key val h p i res level no_key = inl (
    refl,
    λ n v le met.
        let (q, k, held, hit, _) = Meets-level val h p i n v level met in
        let miss = no_key q k held in cc,
  )

  module _ (val : ℕ → ℕ) (h : ℕ) (p : Option Ptr) (i q k : ℕ) (level : IsLevel mem h p)
      (held : Holds mem p q k) (plain : (mem q).is_compressed ≡ false)
      (hit : in_range ((mem q).keys k) (val (get_or order i 0)) ≡ true) where
    -- All chains go through the one key of the level that the packet meets.
    Meets-next :
        (n : ℕ) (v : RuleValueInt)
        → Meets mem order val p i n v
        → ((n ≡ 0) × (v ≡ (mem q).value k))
          ⊎ ((n' : ℕ) × (n ≡ suc n') × Meets mem order val ((mem q).next_level k) (i + 1) n' v)
    Meets-next n v met =
        let (q', k', held', hit', rest) = Meets-level val h p i n v level met in
        let (e, e') =
          Holds-unique mem h p (val (get_or order i 0)) level q k q' k' held held' hit hit' in
        rw (e, e') rest

    NoneBeyond-next :
        (n : ℕ)
        → NoneBeyond mem order val ((mem q).next_level k) (i + 1) n
        → NoneBeyond mem order val p i (suc n)
    NoneBeyond-next n sub n' v le met = elim (Meets-next n' v met) [
      | inl (e, _) ↦ absurd (omega arith)
      | inr (m, e, rest) ↦ sub m v (omega arith) rest
    ]

    pub IsDeepest-next :
        (res r : RuleValueInt)
        → IsDeepest mem order val ((mem q).next_level k) (i + 1) (better ((mem q).value k) res) r
        → IsDeepest mem order val p i res r
    IsDeepest-next res r (inl (e, sub)) = elim (Bool-cases (is_valid ((mem q).value k))) [
      | inl valid ↦ inr (
        0,
        (let e' : r ≡ (mem q).value k = e ∙ rw (valid, if◌then◌else◌) refl in
            rw e' (last held plain hit)),
        (let e' : r ≡ (mem q).value k = e ∙ rw (valid, if◌then◌else◌) refl in rw e' valid),
        NoneBeyond-next 0 sub,
      )
      | inr not_valid ↦ inl (
        e ∙ rw (not_valid, if◌then◌else◌) refl,
        λ n v le met. elim (Meets-next n v met) [
          | inl (_, e') ↦ rw e' not_valid
          | inr (m, _, rest) ↦ sub m v (omega arith) rest
        ],
      )
    ]
    IsDeepest-next res r (inr (n, met, valid, sub)) =
        inr (suc n, onto held plain hit met, valid, NoneBeyond-next (suc n) sub)
