-- ===== src/BTree/Views/RootSearch.antt =====
-- include/pcv/partition_sort/b_tree_insert.h, b_tree_search.h: what the search in a level finds after
-- `insert_to_root`.
use pclass_vectorized.Prelude.{
  ℕ, ◌+◌, ◌<◌, ◌≤◌, ◌≡◌, ◌⊎◌, refl, ap, ◌∙◌, subst, inl, inr, true, false, Option, none, some, List,
  arith, length,
}
use pclass_vectorized.Prelude.State.{ok}
use pclass_vectorized.Range.{Range1d, in_range}
use pclass_vectorized.Mempool.Slots.{has}
use pclass_vectorized.Mempool.Dynamic.FreeList.{IsFree}
use pclass_vectorized.BTree.{BTreeCfg, Ptr, KeyInfo, Node, Tree, max_degree, get_key}
use pclass_vectorized.BTree.Insert.{insert_to_root}
use pclass_vectorized.BTree.Insert.Cookie.{InsertCookie, required_more_levels, actual_key}
use pclass_vectorized.BTree.Search.{point, search_possition_1d}
use pclass_vectorized.BTree.Search.Level.{Holds, IsLevel, FindsIn, search_possition_1d-FindsIn}
use pclass_vectorized.BTree.Search.UniqueKeys.{Holds-unique}
use pclass_vectorized.BTree.Views.{views}
use pclass_vectorized.BTree.Views.Levels.{
  Has, Under, node_key, Has-Holds, Holds-Has, IsLevel-IsOrdered, IsOrdered-IsLevel,
}
use pclass_vectorized.BTree.Views.Shape.{IsTreeShaped}
use pclass_vectorized.BTree.Views.Places.{Apart}
use pclass_vectorized.BTree.Views.AnyHeight.{IsLastKey-order}
use pclass_vectorized.BTree.Views.RootInsertion.{insert_to_root-RootInserts}

-- The place of the key that the search for one of its values ends at.
abbrev pub Finds : ℕ → Tree → Ptr → ℕ → KeyInfo → Type 0
Finds fuel t top v x =
    (q : Ptr) × (i : ℕ) × (search_possition_1d fuel (some top) (point v) t ≡ ok (some (q, i)) t)
    × (get_key (t.node q) i ≡ x)

-- A result that is right is the place of a key with the value in it.
FindsIn-Holds :
    (mem : Ptr → Node) (h : ℕ) (p : Option Ptr) (v : ℕ) (q : Ptr) (i : ℕ)
    → IsLevel mem h p
    → Holds mem p q i
    → in_range ((mem q).keys i) v ≡ true
    → (r : Option (Ptr × ℕ)) → FindsIn mem p v r
    → r ≡ some (q, i)
FindsIn-Holds mem h p v q i level held hit none misses = let no = misses q i held in cc
FindsIn-Holds mem h p v q i level held hit (some (q', i')) (held', hit') =
    let (same_q, same_i) = Holds-unique mem h p v level q' i' q i held' held hit' hit in
    rw (same_q, same_i) refl

Has-Finds :
    (h fuel : ℕ) (t : Tree) (top : Ptr) (v : ℕ) (x : KeyInfo)
    → IsLevel t.node h (some top)
    → h < fuel
    → Has (views t) (some top) x
    → in_range x.key v ≡ true
    → Finds fuel t top v x
Has-Finds h fuel t top v x level lt held hit =
    let (q, i, at, e) = Has-Holds t.node held in
    let hit' : in_range ((t.node q).keys i) v ≡ true =
      ap (λ r. in_range r v) (node_key (t.node q) i ∙ ap (λ (y : KeyInfo). y.key) e) ∙ hit in
    let (r, run, finds) = search_possition_1d-FindsIn h fuel t (some top) v level lt in
    let same = FindsIn-Holds t.node h (some top) v q i level at hit' r finds in
    (q, i, run ∙ ap (λ o. ok o t) same, e)

-- No key of the level has the value in it.
FindsIn-none :
    (t : Tree) (p : Option Ptr) (v : ℕ)
    → ((x : KeyInfo) → Has (views t) p x → in_range x.key v ≡ false)
    → (r : Option (Ptr × ℕ)) → FindsIn t.node p v r
    → r ≡ none
FindsIn-none t p v misses none finds = refl
FindsIn-none t p v misses (some (q, i)) (held, hit) =
    let no : in_range ((t.node q).keys i) v ≡ false =
      ap (λ r. in_range r v) (node_key (t.node q) i)
      ∙ misses (get_key (t.node q) i) (Holds-Has t.node held) in
    cc

-- An insertion of the last level's key k under a link to a level, if the level is a search tree, no
-- node of it is reached in two ways or has more keys than fit, k is not empty and shares no value with
-- its keys, and the pool has more free slots than the level is high, none used by the level, with fuel
-- for the height: it returns a link to a level that is a search tree of that height or one more, and
-- there the search for a value ends at the key that has the value in it, among those of before and k,
-- with its value and its link as before (for k the rule's value and no link), and finds nothing if
-- there is no such key.
pub search_possition_1d-insert_to_root :
    (cfg : BTreeCfg) (cookie : InsertCookie) (k : Range1d) (fuel search_fuel h : ℕ) (p : Ptr)
    (s : Tree) (free : List ℕ)
    → 1 ≤ cfg.t
    → h + 2 ≤ fuel
    → h + 2 ≤ search_fuel
    → required_more_levels cookie ≡ false
    → actual_key cookie s ≡ ok k s
    → k.low ≤ k.high
    → IsLevel s.node h (some p)
    → IsTreeShaped (views s) (max_degree cfg) h (some p)
    → ((x : KeyInfo) → Has (views s) (some p) x → Apart x.key k)
    → IsFree s.pool free
    → h + 1 ≤ length free
    → ((q : Ptr) → Under (views s) (some p) q → has q free ≡ false)
    → (t : Tree) × (top : Ptr) × (height : ℕ) × (insert_to_root cfg fuel (some p) cookie s
        ≡ ok (some top) t)
      × (height ≤ h + 1)
      × IsLevel t.node height (some top)
      × ((v : ℕ) (x : KeyInfo)
          → Has (views s) (some p) x
            ⊎ (record { key = k; value = cookie.rule.value; next_level = none } ≡ x)
          → in_range x.key v ≡ true
          → Finds search_fuel t top v x)
      × ((v : ℕ)
          → ((x : KeyInfo) → Has (views s) (some p) x → in_range x.key v ≡ false)
          → in_range k v ≡ false
          → search_possition_1d search_fuel (some top) (point v) t ≡ ok none t)
search_possition_1d-insert_to_root cfg cookie k fuel search_fuel h p s free pos enough enough'
      last_level actual full level shape apart slots room_slots fresh =
    let r =
      insert_to_root-RootInserts cfg cookie k s.dimension_order
        (IsLastKey-order cfg cookie k s pos last_level actual full) fuel h p s free refl
        (omega arith) (IsLevel-IsOrdered s.node h (some p) level) shape apart slots room_slots
        fresh in
    let level' = IsOrdered-IsLevel r.state.node r.height (some r.top_node) r.level in
    let tall = r.tall in
    (
      r.state,
      r.top_node,
      r.height,
      r.run,
      tall,
      level',
      (λ v x known hit.
          let held : Has (views r.state) (some r.top_node) x = elim known [
            | inl before ↦ r.kept x before
            | inr e ↦ subst (Has (views r.state) (some r.top_node)) e r.added
          ] in
          Has-Finds r.height search_fuel r.state r.top_node v x level' (omega arith) held hit),
      λ v misses miss.
          let (res, run, finds) =
            search_possition_1d-FindsIn r.height search_fuel r.state (some r.top_node) v level'
              (omega arith) in
          let all : (x : KeyInfo)
              → Has (views r.state) (some r.top_node) x
              → in_range x.key v ≡ false =
            λ x held. elim (r.only x held) [
              | inl before ↦ misses x before
              | inr e ↦ subst (λ (y : KeyInfo). in_range y.key v ≡ false) e miss
            ] in
          run ∙ ap (λ o. ok o r.state) (FindsIn-none r.state (some r.top_node) v all res finds),
    )
