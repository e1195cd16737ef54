-- ===== src/Map/Vectors.antt =====
-- What the array helpers of sky/src/sky_map.c do on an array that holds a list of strings.
use skysdk.Base.{
  ℕ, suc, ◌+◌, ◌≡◌, refl, ap, sym, ◌∙◌, ◌⊎◌, inl, inr, false, none, some, List, [], ◌∷◌, ◌++◌, Str,
  str_eq, length, ok, arith, Bool-cases,
}
use mathlib.Core.List.{append-nil}
use skysdk.Memory.{Memory, alloc, realloc}
use skysdk.Map.{Slot, wild, str, Vector}
use skysdk.Map.Storage.{resize, write, read, realloc_vector, kept}
use skysdk.Map.Entries.{find_from, find_in, move_down}
use skysdk.Map.Rep.{strs, Holds, index_from}

resize-strs : (ss : List Str) (t : List Slot) → resize (length ss) (strs ss ++ t) ≡ strs ss
unfolding resize
resize-strs [] t = refl
resize-strs (s ∷ ss) t = ap (◌∷◌ (str s)) (resize-strs ss t)

abbrev pub head_or_wild : List Slot → Slot
head_or_wild [] = wild
head_or_wild (x ∷ xs) = x

resize-strs-suc :
    (ss : List Str) (t : List Slot)
    → resize (suc (length ss)) (strs ss ++ t) ≡ strs ss ++ head_or_wild t ∷ []
unfolding resize
resize-strs-suc [] [] = refl
resize-strs-suc [] (x ∷ t) = refl
resize-strs-suc (s ∷ ss) t = ap (◌∷◌ (str s)) (resize-strs-suc ss t)

write-strs :
    (ss : List Str) (x y : Slot) (t : List Slot)
    → write (strs ss ++ x ∷ t) (length ss) y ≡ ok (strs ss ++ y ∷ t)
unfolding write
write-strs [] x y t = refl
write-strs (s ∷ ss) x y t = rw (write-strs ss x y t)

read-strs : (ss : List Str) (x : Slot) (t : List Slot) → read (strs ss ++ x ∷ t) (length ss) ≡ ok x
unfolding read
read-strs [] x t = refl
read-strs (s ∷ ss) x t = read-strs ss x t

find_from-index :
    (ss : List Str) (t : List Slot) (i : ℕ) (key : Str)
    → find_from (strs ss ++ t) (length ss) i key ≡ ok (index_from i key ss)
unfolding find_from index_from
find_from-index [] t i key = refl
find_from-index (s ∷ ss) t i key = elim (Bool-cases (str_eq s key)) [
  | inl e ↦ rw e
  | inr e ↦ rw e (find_from-index ss t (suc i) key)
]

find_in-index :
    (ss : List Str) (v : Vector) (key : Str)
    → Holds ss v
    → find_in v (length ss) key ≡ ok (index_from 0 key ss)
unfolding find_in index_from
find_in-index [] v key h = rw h
find_in-index (s ∷ ss) v key (t, e) = rw e (find_from-index (s ∷ ss) t 0 key)

move_down-strs :
    (ss : List Str) (x : Slot) (ts : List Str) (t : List Slot)
    → (u : List Slot) × (move_down (strs ss ++ x ∷ (strs ts ++ t)) (length ss) (length ts)
        ≡ ok (strs (ss ++ ts) ++ u))
unfolding move_down
move_down-strs [] x [] t = (x ∷ t, refl)
move_down-strs [] x (s ∷ ts) t = let (u, e) = move_down-strs [] (str s) ts t in (u, rw e)
move_down-strs (s ∷ ss) x ts t = let (u, e) = move_down-strs ss x ts t in (u, rw e)

-- the blocks that a first growth adds to an array
abbrev pub extra : List Str → ℕ
extra [] = 1
extra (s ∷ ss) = 0

abbrev pub Grown : List Str → Memory → Vector × Memory → Type 0
Grown ss m r =
    ((r.0 ≡ none) × (m.grants m.requests ≡ false) × (r.1.grants ≡ m.grants) × (r.1.live ≡ m.live))
    ⊎ ((x : Slot) × (r.0 ≡ some (strs ss ++ x ∷ []))
        × (r.1.grants ≡ m.grants)
        × (r.1.live ≡ m.live + extra ss))

realloc_vector-Grown :
    (ss : List Str) (v : Vector) (m : Memory)
    → Holds ss v
    → Grown ss m (realloc_vector v (suc (length ss)) m)
unfolding realloc_vector alloc realloc resize
realloc_vector-Grown [] v m h = rw h (elim (Bool-cases (m.grants m.requests)) [
  | inl g ↦ inr (wild, rw (g, alloc), rw (g, alloc), rw (g, alloc))
  | inr g ↦ inl (rw (g, alloc), g, rw (g, alloc), rw (g, alloc))
])
realloc_vector-Grown (s ∷ ss) v m (t, e) = rw e (elim (Bool-cases (m.grants m.requests)) [
  | inl g ↦ inr (head_or_wild t, rw g (ap some (resize-strs-suc (s ∷ ss) t)), refl, omega arith)
  | inr g ↦ inl (rw g, g, refl, refl)
])

-- The same for an index or a count that is known to be the number of the strings.
module _ (ss : List Str) (n : ℕ) (at : n ≡ length ss) where
  pub grow : (v : Vector) (m : Memory) → Holds ss v → Grown ss m (realloc_vector v (n + 1) m)
  grow v m h = let e : n + 1 ≡ suc (length ss) = omega arith in rw e (realloc_vector-Grown ss v m h)

  pub write_at : (x y : Slot) (t : List Slot) → write (strs ss ++ x ∷ t) n y ≡ ok (strs ss ++ y ∷ t)
  write_at x y t = rw at (write-strs ss x y t)

  pub read_at : (x : Slot) (t : List Slot) → read (strs ss ++ x ∷ t) n ≡ ok x
  read_at x t = rw at (read-strs ss x t)

  pub find_at : (v : Vector) (key : Str) → Holds ss v → find_in v n key ≡ ok (index_from 0 key ss)
  find_at v key h = rw at (find_in-index ss v key h)

  -- a request for exactly `n` slots: the strings, or a refusal
  pub resize_at : (t : List Slot) → resize n (strs ss ++ t) ≡ strs ss
  resize_at t = rw at (resize-strs ss t)

  -- the memmove that closes the gap behind the strings
  pub move_down_at :
      (x : Slot) (ts : List Str) (m : ℕ) (t : List Slot)
      → m ≡ length ts
      → (u : List Slot) × (move_down (strs ss ++ x ∷ (strs ts ++ t)) n m
          ≡ ok (strs (ss ++ ts) ++ u))
  move_down_at x ts m t e = let (u, p) = move_down-strs ss x ts t in (u, rw (at, e) p)

-- An array that shrinks to its strings holds them, whether realloc grants it or not.
pub kept-Holds :
    (s : Str) (ss : List Str) (n : ℕ) (t : List Slot) (m : Memory)
    → n ≡ length (s ∷ ss)
    → Holds
        (s ∷ ss)
        (kept (some (strs (s ∷ ss) ++ t)) (realloc_vector (some (strs (s ∷ ss) ++ t)) n m).0)
unfolding realloc_vector realloc
kept-Holds s ss n t m at = rw at (elim (Bool-cases (m.grants m.requests)) [
  | inl g ↦ rw (g, kept) ([], ap some (resize-strs (s ∷ ss) t ∙ sym (append-nil (strs (s ∷ ss)))))
  | inr g ↦ rw (g, kept) (t, refl)
])
