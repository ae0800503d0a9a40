-- ===== src/BTree/LeafKeys/Removal.antt =====
-- include/pcv/partition_sort/b_tree_remove.h: `removeFromLeaf` on the sequence of the leaf's keys.
use pclass_vectorized.Prelude.{
  ℕ, zero, suc, ◌+◌, ◌-◌, ◌<◌, ◌≡◌, refl, ap, ◌∙◌, none, false, ◌&&◌, arith, ltb, leb,
  if◌then◌else◌,
}
use pclass_vectorized.Prelude.State.{ok, for_up}
use pclass_vectorized.Range.{Range1d}
use pclass_vectorized.BTree.{Ptr, Tree, move_key, get_key}
use pclass_vectorized.BTree.Search.Sequential.{KeysSorted}
use pclass_vectorized.BTree.Remove.Rebalance.{remove_from_leaf}
use pclass_vectorized.BTree.LeafKeys.{
  SameBut, SameBut-refl, SameBut-trans, Moves, move_key-Moves, set_key_cnt_lem, keys_of,
}

-- The loop of `removeFromLeaf`: the keys behind `start` move one place down.
shift_down-Moves :
    (count start : ℕ) (p : Ptr) (s : Tree)
    → Moves p
        (for_up count (start + 1) λ i. move_key p i p (i - 1))
        (λ l. if leb start l && ltb l (start + count) then l + 1 else l)
        s
unfolding for_up
shift_down-Moves zero start p s = (
  s,
  refl,
  SameBut-refl p s,
  refl,
  λ l. let e : (leb start l && ltb l (start + 0)) ≡ false = ground arith in rw e refl,
)
shift_down-Moves (suc count) start p s =
    let (t, run, same, cnt, keys) = move_key-Moves p (start + 1) (start + 1 - 1) s in
    let (u, run', same', cnt', keys') = shift_down-Moves count (start + 1) p t in
    (
      u,
      rw run run',
      SameBut-trans p s t u same same',
      cnt' ∙ cnt,
      λ l. keys' l ∙ keys _ ∙ ap (get_key (s.node p)) (ground arith),
    )

-- The keys of a node without the one at idx are sorted if they were.
KeysSorted-removed :
    (keys keys' : ℕ → Range1d) (cnt idx : ℕ)
    → KeysSorted keys cnt
    → ((l : ℕ) → l + 1 < cnt → keys' l ≡ keys (if ltb l idx then l else l + 1))
    → KeysSorted keys' (cnt - 1)
KeysSorted-removed keys keys' cnt idx (full, apart) same = (
  (λ i lt. rw (same i (omega arith)) (full (if ltb i idx then i else i + 1) (ground arith))),
  λ i j less lt.
      rw (same i (omega arith), same j (omega arith))
        (apart (if ltb i idx then i else i + 1) (if ltb j idx then j else j + 1) (ground arith)
          (ground arith)),
)

-- `removeFromLeaf` of a key that has no next level, in a node whose keys are sorted, succeeds, takes out
-- that key alone, keeps the order of the others, which are still sorted; the node's links to children
-- and to its parent, its dimensions and flags, the other nodes, the pool, the root and the order of the
-- dimensions are as before.
pub remove_from_leaf-KeysSorted :
    (p : Ptr) (idx : ℕ) (s : Tree)
    → idx < (s.node p).key_cnt
    → (s.node p).next_level idx ≡ none
    → KeysSorted (s.node p).keys (s.node p).key_cnt
    → (t : Tree) × (remove_from_leaf p idx s ≡ ok tt t)
      × SameBut p s t
      × ((t.node p).key_cnt ≡ (s.node p).key_cnt - 1)
      × ((l : ℕ)
          → l + 1 < (s.node p).key_cnt
          → get_key (t.node p) l ≡ get_key (s.node p) (if ltb l idx then l else l + 1))
      × KeysSorted (t.node p).keys (t.node p).key_cnt
unfolding remove_from_leaf
remove_from_leaf-KeysSorted p idx s inside bottom sorted =
    let cnt = (s.node p).key_cnt in
    let (t, run, same, _, keys) = shift_down-Moves (cnt - (idx + 1)) idx p s in
    let (u, run', same', cnt', keys') = set_key_cnt_lem p (cnt - 1) t in
    let moved : (l : ℕ)
        → l + 1 < cnt
        → get_key (u.node p) l ≡ get_key (s.node p) (if ltb l idx then l else l + 1) =
      λ l lt. keys' l ∙ keys l ∙ ap (get_key (s.node p)) (ground arith) in
    (
      u,
      rw (run, run') refl,
      SameBut-trans p s t u same same',
      cnt',
      moved,
      rw cnt' (
          KeysSorted-removed (s.node p).keys (u.node p).keys cnt idx sorted
            λ l lt. keys_of (u.node p) (s.node p) l (if ltb l idx then l else l + 1) (moved l lt)),
    )
