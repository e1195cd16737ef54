-- ===== src/Hash/Histories.antt =====
-- The life of a hash (sky/src/sky_hash.c): its creation, insertions, and its end.
use skysdk.Base.{
  ℕ, ◌+◌, ◌%◌, ◌≡◌, ◌⊎◌, Bool, true, false, ◌&&◌, Option, none, some, List, [], ◌∷◌, Str, str_eq,
  if◌then◌else◌, Run, ok, ◌>>=◌,
}
use skysdk.Memory.{Memory}
use skysdk.Hash.{Ops, Documented, Hash, create, add, find, destroy}
use skysdk.Hash.Search.{Owns, Why}

-- a key and a value
abbrev pub Pair : Type 0
Pair = Str × ℕ

module _ {T : Type 0} (ops : Ops T) where
  -- the insertions in turn, with whether each gives an entry
  pub add_all : List Pair → Hash T → Memory → Run (List Bool × Hash T × Memory)
  add_all [] h m = ok ([], h, m)
  add_all ((key, value) ∷ cs) h m =
      add ops h (some key) value m >>= λ r. add_all cs r.1 r.2 >>= λ s. ok (r.0 ∷ s.0, s.1, s.2)

  -- creation, insertions, searches for all keys, and destruction; `none` if there is no hash
  pub lifetime :
      (size : ℕ) → List Pair → Memory → Run (Option (List Bool × (Str → Option ℕ)) × Memory)
  unfolding add_all
  lifetime size cs m = create ops size m >>= λ made. elim made.0 [
    | none ↦ ok (none, made.1)
    | some h ↦ add_all cs h made.1 >>= λ s.
        destroy (some s.1) s.2 >>= λ m'. ok (some (s.0, λ j. find ops s.1 (some j)), m')
  ]

-- the value that the entries made leave with a key
abbrev pub latest : Str → List Pair → List Bool → Option ℕ → Option ℕ
latest j [] bs before = before
latest j (c ∷ cs) [] before = before
latest j ((key, value) ∷ cs) (b ∷ bs) before =
    latest j cs bs (if b && str_eq key j then some value else before)

-- one answer for each insertion, and a reason for each that failed
abbrev pub Explained : {T : Type 0} → Ops T → (ℕ → Bool) → List Pair → List Bool → Type 0
Explained ops g [] [] = Unit
Explained ops g [] (b ∷ bs) = ⊥
Explained ops g (c ∷ cs) [] = ⊥
Explained ops g (c ∷ cs) (true ∷ bs) = Explained ops g cs bs
Explained ops g ((key, value) ∷ cs) (false ∷ bs) =
    ((key ≡ []) ⊎ Why ops g key value) × Explained ops g cs bs

module _ {T : Type 0} (ops : Ops T) (doc : Documented ops) (g : ℕ → Bool) (other : ℕ) where
  -- One insertion, of an empty key too: whether there is an entry, or why not; and the values then.
  abbrev One : Hash T → Pair → Bool × Hash T × Memory → Type 0
  One h (key, value) (b, h', m') =
      Explained ops g ((key, value) ∷ []) (b ∷ [])
      × Owns g other h' m'
      × ((j : Str)
          → find ops h' (some j) ≡ (if b && str_eq key j then some value else find ops h (some j)))

  abbrev Many : Hash T → List Pair → List Bool × Hash T × Memory → Type 0
  Many h cs (bs, h', m') =
      Explained ops g cs bs
      × Owns g other h' m'
      × ((j : Str) → find ops h' (some j) ≡ latest j cs bs (find ops h (some j)))

-- What the life of a hash comes to: the blocks of before, and either no hash, and why, or an answer for
-- each insertion and what the entries made leave.
abbrev pub Lived :
    {T : Type 0}
    → Ops T
    → (size : ℕ) → List Pair
    → Memory
    → Option (List Bool × (Str → Option ℕ)) × Memory
    → Type 0
Lived ops size cs m (none, m') =
    (m'.live ≡ m.live)
    × (((n : ℕ) × (m.grants n ≡ false)) ⊎ (ops.hcreate ((size + 10) % 0x1_0000_0000) ≡ none))
Lived ops size cs m (some (bs, found), m') =
    (m'.live ≡ m.live) × Explained ops m.grants cs bs × ((j : Str) → found j ≡ latest j cs bs none)
