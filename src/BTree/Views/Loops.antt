-- ===== src/BTree/Views/Loops.antt =====
-- include/pcv/partition_sort/b_tree_insert.h, b_tree_remove.h: what the loops that copy keys and links
-- from place to place leave in a node.
use mathlib.Core.Path.{fun_ext}
use pclass_vectorized.Prelude.{
  ℕ, zero, suc, ◌+◌, ◌-◌, ◌≡◌, ◌≢◌, refl, sym, ap, ◌∙◌, inl, inr, ◌&&◌, arith, ltb, leb, ◌==◌,
  if◌then◌else◌, update, update_self, update_ne, Bool-cases,
}
use pclass_vectorized.BTree.{Ptr}
use pclass_vectorized.BTree.Views.{View, Views, fold_up, fold_down, update_same}

-- The places start, ..., start + count - 1 of `new`, the others of `old`.
abbrev pub window : {A : Type 0} → ℕ → ℕ → (ℕ → A) → (ℕ → A) → ℕ → A
window start count new old l = if leb start l && ltb l (start + count) then new l else old l

window_next :
    {A : Type 0} (start count : ℕ) (new old : ℕ → A)
    → window (start + 1) count new (update old start (new start)) ≡ window start (suc count) new old
window_next start count new old = fun_ext λ l. ground arith

window_last :
    {A : Type 0} (start count : ℕ) (new old : ℕ → A)
    → window start count new (update old (start + count) (new (start + count)))
      ≡ window start (suc count) new old
window_last start count new old = fun_ext λ l. ground arith

window_none : {A : Type 0} (start : ℕ) (new old : ℕ → A) → window start 0 new old ≡ old
window_none start new old = fun_ext λ l. ground arith

shifted :
    {A : Type 0} (start count : ℕ) (old : ℕ → A)
    → window
        (start + 1)
        count
        (λ l. update old (start + count + 1) (old (start + count)) (l - 1))
        (update old (start + count + 1) (old (start + count)))
      ≡ window (start + 1) (suc count) (λ l. old (l - 1)) old
shifted start count old = fun_ext λ l. ground arith

-- Writing a node twice is writing it once.
pub update-update : (m : Views) (p : Ptr) (v w : View) → update (update m p v) p w ≡ update m p w
update-update m p v w = fun_ext λ q. elim (Bool-cases (q == p)) [
  | inl e ↦ rw (e, if◌then◌else◌) refl
  | inr e ↦ rw (e, if◌then◌else◌) refl
]

-- The loops for an array of the view, the keys or the links.
module _ {A : Type 0} (get : View → ℕ → A) (set : View → (ℕ → A) → View)
    (get-set : (v : View) (f : ℕ → A) → get (set v f) ≡ f)
    (set-get : (v : View) → set v (get v) ≡ v)
    (set-set : (v : View) (f g : ℕ → A) → set (set v f) g ≡ set v g) where
  abbrev pub put_all : Ptr → (ℕ → A) → Views → Views
  put_all p f m = update m p (set (m p) f)

  abbrev put : Ptr → ℕ → A → Views → Views
  put p i x m = put_all p (update (get (m p)) i x) m

  put_all-put_all :
      (p : Ptr) (f g : ℕ → A) (m : Views) → put_all p g (put_all p f m) ≡ put_all p g m
  put_all-put_all p f g m =
      ap (λ v. update (put_all p f m) p (set v g)) (update_self m p (set (m p) f))
      ∙ update-update m p (set (m p) f) (set (set (m p) f) g)
      ∙ ap (update m p) (set-set (m p) f g)

  put_all_same : (p : Ptr) (m : Views) → put_all p (get (m p)) m ≡ m
  put_all_same p m = ap (update m p) (set-get (m p)) ∙ update_same m p

  get-put_all : (p : Ptr) (f : ℕ → A) (m : Views) → get (put_all p f m p) ≡ f
  get-put_all p f m = ap get (update_self m p (set (m p) f)) ∙ get-set (m p) f

  -- Places of one node are copied to another one.
  pub fold_up-copy :
      (src dst : Ptr) (place : ℕ → ℕ) (count start : ℕ) (m : Views)
      → src ≢ dst
      → fold_up count start (λ j n. put dst j (get (n src) (place j)) n) m
        ≡ put_all dst (window start count (λ l. get (m src) (place l)) (get (m dst))) m
  unfolding fold_up
  fold_up-copy src dst place zero start m ne = sym (
      ap (λ w. put_all dst w m) (window_none start (λ l. get (m src) (place l)) (get (m dst)))
      ∙ put_all_same dst m)
  fold_up-copy src dst place (suc count) start m ne =
      let new : ℕ → A = λ l. get (m src) (place l) in
      let f = update (get (m dst)) start (new start) in
      let m1 = put_all dst f m in
      fold_up-copy src dst place count (start + 1) m1 ne
      ∙ ap (λ v. put_all dst (window (start + 1) count (λ l. get v (place l)) (get (m1 dst))) m1)
          (update_ne m dst src (set (m dst) f) ne)
      ∙ ap (λ g. put_all dst (window (start + 1) count new g) m1) (get-put_all dst f m)
      ∙ put_all-put_all dst f (window (start + 1) count new f) m
      ∙ ap (λ w. put_all dst w m) (window_next start count new (get (m dst)))

  -- The places start, ..., start + count - 1 of a node move one place up.
  pub fold_down-shift :
      (p : Ptr) (count start : ℕ) (m : Views)
      → fold_down count start (λ j n. put p (j + 1) (get (n p) j) n) m
        ≡ put_all p (window (start + 1) count (λ l. get (m p) (l - 1)) (get (m p))) m
  unfolding fold_down
  fold_down-shift p zero start m = sym (
      ap (λ w. put_all p w m) (window_none (start + 1) (λ l. get (m p) (l - 1)) (get (m p)))
      ∙ put_all_same p m)
  fold_down-shift p (suc count) start m =
      let old = get (m p) in
      let f = update old (start + count + 1) (old (start + count)) in
      let m1 = put_all p f m in
      fold_down-shift p count start m1
      ∙ ap (λ g. put_all p (window (start + 1) count (λ l. g (l - 1)) g) m1) (get-put_all p f m)
      ∙ put_all-put_all p f (window (start + 1) count (λ l. f (l - 1)) f) m
      ∙ ap (λ w. put_all p w m) (shifted start count old)

  -- The same after a write of the whole node.
  pub fold_up-onto :
      (src dst : Ptr) (place : ℕ → ℕ) (count start : ℕ) (m : Views) (v : View)
      → src ≢ dst
      → fold_up count start (λ j n. put dst j (get (n src) (place j)) n) (update m dst v)
        ≡ update m dst (set v (window start count (λ l. get (m src) (place l)) (get v)))
  fold_up-onto src dst place count start m v ne =
      fold_up-copy src dst place count start (update m dst v) ne
      ∙ ap
          (λ w.
            put_all dst (window start count (λ l. get w (place l)) (get (update m dst v dst)))
              (update m dst v))
          (update_ne m dst src v ne)
      ∙ ap
          (λ w.
            update (update m dst v) dst
              (set w (window start count (λ l. get (m src) (place l)) (get w))))
          (update_self m dst v)
      ∙ update-update m dst v (set v (window start count (λ l. get (m src) (place l)) (get v)))

  pub fold_down-onto :
      (p : Ptr) (count start : ℕ) (m : Views) (v : View)
      → fold_down count start (λ j n. put p (j + 1) (get (n p) j) n) (update m p v)
        ≡ update m p (set v (window (start + 1) count (λ l. get v (l - 1)) (get v)))
  fold_down-onto p count start m v =
      fold_down-shift p count start (update m p v)
      ∙ ap
          (λ w.
            update (update m p v) p (set w (window (start + 1) count (λ l. get w (l - 1)) (get w))))
          (update_self m p v)
      ∙ update-update m p v (set v (window (start + 1) count (λ l. get v (l - 1)) (get v)))
