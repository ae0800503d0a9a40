-- ===== src/Rule/PacketWords/RoundTrip.antt =====
-- include/pcv/rule_parser/rule_vec_utils.h: the words that the `push` functions leave in a packet and
-- what the `pop` functions read from them.
use pclass_vectorized.Prelude.{
  ℕ, ◌+◌, ◌*◌, ◌/◌, ◌%◌, ◌^◌, ◌<◌, ◌≡◌, refl, sym, ap, ◌∙◌, subst, arith, update_self, update_ne,
  List, [], ◌∷◌, ◌++◌, map, length, length-append, All,
}
use pclass_vectorized.Range.Mask.{swap_bytes}
use pclass_vectorized.Rule.Endianity.{swap_bytes_2}
use pclass_vectorized.Rule.PacketWords.{Cursor, put, push_128, push_128be, pop_words, pop_words_be}
use pclass_vectorized.Rule.PacketWords.Fields.{
  Field, u8, u16, u16be, u32, u32be, u128, u128be, push, push_fields, pop, pop_fields, Fits,
  swap_halves, seen,
}

abbrev puts : List ℕ → Cursor → Cursor
puts [] c = c
puts (w ∷ ws) c = puts ws (put w c)

puts-append : (xs ys : List ℕ) (c : Cursor) → puts (xs ++ ys) c ≡ puts ys (puts xs c)
puts-append [] ys c = refl
puts-append (x ∷ xs) ys c = puts-append xs ys (put x c)

puts_keeps : (ws : List ℕ) (c : Cursor) (j : ℕ) → j < c.i → (puts ws c).dst j ≡ c.dst j
puts_keeps [] c j lt = refl
puts_keeps (w ∷ ws) c j lt =
    puts_keeps ws (put w c) j (omega arith) ∙ update_ne c.dst c.i j w (omega arith)

-- The words stand in the array from an index on.
abbrev Holds : (ℕ → ℕ) → ℕ → List ℕ → Type 0
Holds src i [] = Unit
Holds src i (w ∷ ws) = (src i ≡ w) × Holds src (i + 1) ws

puts-Holds : (ws : List ℕ) (c : Cursor) → Holds (puts ws c).dst c.i ws
puts-Holds [] c = tt
puts-Holds (w ∷ ws) c =
    (puts_keeps ws (put w c) c.i (omega arith) ∙ update_self c.dst c.i w, puts-Holds ws (put w c))

Holds-start : (src : ℕ → ℕ) (i : ℕ) (xs ys : List ℕ) → Holds src i (xs ++ ys) → Holds src i xs
Holds-start src i [] ys h = tt
Holds-start src i (x ∷ xs) ys h = (h.0, Holds-start src (i + 1) xs ys h.1)

Holds-end :
    (src : ℕ → ℕ) (i : ℕ) (xs ys : List ℕ) → Holds src i (xs ++ ys) → Holds src (i + length xs) ys
Holds-end src i [] ys h = subst (λ n. Holds src n ys) (omega arith) h
Holds-end src i (x ∷ xs) ys h =
    subst (λ n. Holds src n ys) (omega arith) (Holds-end src (i + 1) xs ys h.1)

abbrev rev : List ℕ → List ℕ
rev [] = []
rev (w ∷ ws) = rev ws ++ w ∷ []

abbrev swaps : List ℕ → List ℕ
swaps [] = []
swaps (w ∷ ws) = swap_bytes 2 w ∷ swaps ws

-- The words of a field in the packet.
abbrev emit : Field → List ℕ
emit (u8 v) = v ∷ []
emit (u16 v) = v ∷ []
emit (u16be v) = swap_bytes 2 v ∷ []
emit (u32 v) = v % 2 ^ 16 ∷ v / 2 ^ 16 % 2 ^ 16 ∷ []
emit (u32be v) = swap_bytes 4 v % 2 ^ 16 ∷ swap_bytes 4 v / 2 ^ 16 % 2 ^ 16 ∷ []
emit (u128 v) = rev v
emit (u128be v) = swaps v

push_128-puts : (v : List ℕ) (c : Cursor) → push_128 v c ≡ puts (rev v) c
unfolding push_128
push_128-puts [] c = refl
push_128-puts (w ∷ v) c = ap (put w) (push_128-puts v c) ∙ sym (puts-append (rev v) (w ∷ []) c)

push_128be-puts : (v : List ℕ) (c : Cursor) → push_128be v c ≡ puts (swaps v) c
unfolding push_128be
push_128be-puts [] c = refl
push_128be-puts (w ∷ v) c = push_128be-puts v (put (swap_bytes 2 w) c)

push-puts : (f : Field) (c : Cursor) → push f c ≡ puts (emit f) c
push-puts (u8 v) c = refl
push-puts (u16 v) c = refl
push-puts (u16be v) c = refl
push-puts (u32 v) c = refl
push-puts (u32be v) c = refl
push-puts (u128 v) c = push_128-puts v c
push-puts (u128be v) c = push_128be-puts v c

abbrev emits : List Field → List ℕ
emits [] = []
emits (f ∷ fs) = emit f ++ emits fs

push_fields-puts : (fs : List Field) (c : Cursor) → push_fields fs c ≡ puts (emits fs) c
unfolding push_fields
push_fields-puts [] c = refl
push_fields-puts (f ∷ fs) c =
    push_fields-puts fs (push f c)
    ∙ ap (puts (emits fs)) (push-puts f c)
    ∙ sym (puts-append (emit f) (emits fs) c)

length-rev : (v : List ℕ) → length (rev v) ≡ length v
length-rev [] = refl
length-rev (w ∷ v) = omega (arith, length-append (rev v) (w ∷ []), length-rev v)

length-swaps : (v : List ℕ) → length (swaps v) ≡ length v
length-swaps [] = refl
length-swaps (w ∷ v) = omega (arith, length-swaps v)

abbrev rev_onto : List ℕ → List ℕ → List ℕ
rev_onto [] acc = acc
rev_onto (w ∷ ws) acc = rev_onto ws (w ∷ acc)

rev_onto-append : (xs ys acc : List ℕ) → rev_onto (xs ++ ys) acc ≡ rev_onto ys (rev_onto xs acc)
rev_onto-append [] ys acc = refl
rev_onto-append (x ∷ xs) ys acc = rev_onto-append xs ys (x ∷ acc)

rev_onto-rev : (v acc : List ℕ) → rev_onto (rev v) acc ≡ v ++ acc
rev_onto-rev [] acc = refl
rev_onto-rev (w ∷ v) acc = rev_onto-append (rev v) (w ∷ []) acc ∙ ap (◌∷◌ w) (rev_onto-rev v acc)

append_nil : (v : List ℕ) → v ++ [] ≡ v
append_nil [] = refl
append_nil (w ∷ v) = ap (◌∷◌ w) (append_nil v)

pop_words-rev_onto :
    (src : ℕ → ℕ) (ws acc : List ℕ) (i : ℕ)
    → Holds src i ws
    → pop_words src (length ws) acc i ≡ (rev_onto ws acc, i + length ws)
unfolding pop_words
pop_words-rev_onto src [] acc i h = ap (λ n. (acc, n)) (omega arith)
pop_words-rev_onto src (w ∷ ws) acc i h =
    ap (λ x. pop_words src (length ws) (x ∷ acc) (i + 1)) h.0
    ∙ pop_words-rev_onto src ws (w ∷ acc) (i + 1) h.1
    ∙ ap (λ n. (rev_onto ws (w ∷ acc), n)) (omega arith)

pop_words-rev :
    (src : ℕ → ℕ) (v : List ℕ) (i : ℕ)
    → Holds src i (rev v)
    → pop_words src (length v) [] i ≡ (v, i + length (rev v))
pop_words-rev src v i h =
    subst (λ n. pop_words src n [] i ≡ (v, i + length (rev v))) (length-rev v)
      (pop_words-rev_onto src (rev v) [] i h
        ∙ ap (λ u. (u, i + length (rev v))) (rev_onto-rev v [] ∙ append_nil v))

pop_words_be-swaps :
    (src : ℕ → ℕ) (v : List ℕ) (i : ℕ)
    → All (λ w. w < 2 ^ 16) v
    → Holds src i (swaps v)
    → pop_words_be src (length v) i ≡ (v, i + length (swaps v))
unfolding pop_words_be
pop_words_be-swaps src [] i lt h = ap (λ n. ([], n)) (omega arith)
pop_words_be-swaps src (w ∷ v) i lt h =
    rw (h.0, swap_bytes_2 w lt.0, pop_words_be-swaps src v (i + 1) lt.1 h.1)
      (ap (λ n. (w ∷ v, n)) (omega arith))

swap_bytes-swap_halves :
    (v : ℕ)
    → v < 2 ^ 32
    → swap_bytes 4 (swap_bytes 4 v % 2 ^ 16 * 2 ^ 16 + swap_bytes 4 v / 2 ^ 16 % 2 ^ 16)
      ≡ swap_halves v
unfolding swap_bytes
swap_bytes-swap_halves v lt = omega arith

pop-emit :
    (src : ℕ → ℕ) (f : Field) (i : ℕ)
    → Fits f
    → Holds src i (emit f)
    → pop f src i ≡ (seen f, i + length (emit f))
pop-emit src (u8 v) i fits h = ap (λ x. (u8 x, i + 1)) (ap (λ x. x % 2 ^ 8) h.0 ∙ omega arith)
pop-emit src (u16 v) i fits h = ap (λ x. (u16 x, i + 1)) h.0
pop-emit src (u16be v) i fits h =
    ap (λ x. (u16be x, i + 1)) (ap (swap_bytes 2) h.0 ∙ swap_bytes_2 v fits)
pop-emit src (u32 v) i fits h = ap (λ x. (u32 x, i + 2)) (omega (arith, h.0, h.1.0))
pop-emit src (u32be v) i fits h =
    ap (λ x. (u32be x, i + 2)) (rw (h.0, h.1.0) (swap_bytes-swap_halves v fits))
pop-emit src (u128 v) i fits h =
    ap (λ r. (u128 r.0, r.1))
      (subst (λ n. pop_words src n [] i ≡ (v, i + length (rev v))) fits (pop_words-rev src v i h))
pop-emit src (u128be v) i fits h =
    ap (λ r. (u128be r.0, r.1))
      (subst (λ n. pop_words_be src n i ≡ (v, i + length (swaps v))) fits.0
        (pop_words_be-swaps src v i fits.1 h))

pop_fields-emits :
    (src : ℕ → ℕ) (fs : List Field) (i : ℕ)
    → All Fits fs
    → Holds src i (emits fs)
    → pop_fields fs src i ≡ map seen fs
unfolding pop_fields
pop_fields-emits src [] i fits h = refl
pop_fields-emits src (f ∷ fs) i fits h =
    let rest =
      pop_fields-emits src fs (i + length (emit f)) fits.1
        (Holds-end src i (emit f) (emits fs) h) in
    ap (λ r. r.0 ∷ pop_fields fs src r.1)
      (pop-emit src f i fits.0 (Holds-start src i (emit f) (emits fs) h))
    ∙ ap (◌∷◌ (seen f)) rest

-- The fields read from a packet are those that were written into it, where the values are of their
-- types, but for the values of 32 bits, which come back with their halves exchanged.
pub pop_fields-push_fields :
    (fs : List Field) (c : Cursor)
    → All Fits fs
    → pop_fields fs (push_fields fs c).dst c.i ≡ map seen fs
pop_fields-push_fields fs c fits =
    ap (λ d. pop_fields fs d.dst c.i) (push_fields-puts fs c)
    ∙ pop_fields-emits (puts (emits fs) c).dst fs c.i fits (puts-Holds (emits fs) c)
