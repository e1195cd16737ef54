-- ===== src/Hash/Search.antt =====
-- sky_hash_add, sky_hash_find and sky_hash_destroy (sky/src/sky_hash.c).
use skysdk.Base.{
  ℕ, ◌+◌, ◌*◌, ◌≡◌, refl, sym, ap, ◌∙◌, ◌⊎◌, inl, inr, Bool, true, false, Option, none, some, List,
  [], ◌∷◌, length, Str, str_eq, if◌then◌else◌, ok, Returns, returns, arith,
}
use skysdk.Memory.{Memory, more, asked, alloc, refusal, alloc_lem, free_lem}
use skysdk.Hash.{Ops, Documented, Hash, add, add_new, find, free_keys, destroy}

-- beside the struct and the copies of keys, `other` blocks are live, and `g` says what is granted
abbrev pub Owns : {T : Type 0} → (ℕ → Bool) → ℕ → Hash T → Memory → Type 0
Owns g other h m = (m.live ≡ other + 1 + 2 * length h.key_array) × (m.grants ≡ g)

-- why an entry is not made: a request for memory is refused, or the table takes no more
abbrev pub Why : {T : Type 0} → Ops T → (ℕ → Bool) → Str → ℕ → Type 0
Why {T} ops g key value = ((n : ℕ) × (g n ≡ false)) ⊎ ((t : T) × (ops.enter t key value ≡ none))

-- What an insertion comes to: nothing has changed, and why; or the key has the value, and no other
-- key's value has changed.
abbrev pub Added :
    {T : Type 0} → Ops T → (ℕ → Bool) → ℕ → Hash T → Str → ℕ → Bool × Hash T × Memory → Type 0
Added ops g other h key value (false, h', m') = Why ops g key value × (h' ≡ h) × Owns g other h m'
Added ops g other h key value (true, h', m') =
    Owns g other h' m'
    × ((j : Str)
        → find ops h' (some j) ≡ (if str_eq key j then some value else find ops h (some j)))

pub refused_by :
    (g : ℕ → Bool) (m : Memory)
    → m.grants ≡ g
    → alloc m ≡ (false, asked m)
    → (n : ℕ) × (g n ≡ false)
refused_by g m same refused = (m.requests, ap (λ f. f m.requests) (sym same) ∙ refusal m refused)

module _ {T : Type 0} (ops : Ops T) (doc : Documented ops) (g : ℕ → Bool) (other : ℕ) (h : Hash T)
    (value : ℕ) (m : Memory) where
  add_new_lem :
      (key : Str)
      → ops.search h.htab key ≡ none
      → Owns g other h m
      → Returns (Added ops g other h key value) (add_new ops h key value m)
  unfolding add_new find
  add_new_lem key new own = elim (alloc_lem m) [
    | inr refused ↦ rw refused (returns (inl (refused_by g m own.1 refused), refl, own))
    | inl first ↦ elim (alloc_lem (more m)) [
      | inr refused ↦
          rw (first, refused, free_lem (asked (more m)) m.live (omega arith))
            (returns (inl (refused_by g (more m) own.1 refused), refl, own))
      | inl second ↦ elim (doc.enter_law h.htab key value new) [
        | inl full ↦
            rw
              (
                first,
                second,
                full,
                first,
                second,
                free_lem (more (more m)) (m.live + 1) (omega arith),
                free_lem (record (more (more m)) { live = m.live + 1 }) m.live (omega arith),
              )
              (returns (inr (h.htab, full), refl, own))
        | inr (t, entered, found) ↦
            rw (first, second, entered, first, second)
              (returns ((omega (arith, own.0), own.1), found))
      ]
    ]
  ]

  -- Over a table that behaves as the C library documents, with the blocks of the hash accounted
  -- for, and for a key that is not empty, sky_hash_add returns. Either it gives NULL, and hash and
  -- number of live blocks are as they were; or the hash owns its blocks, sky_hash_find gives the
  -- new value for the key, and for every other key what it gave before.
  pub hash_add_lem :
      (c : ℕ) (cs : Str)
      → Owns g other h m
      → Returns (Added ops g other h (c ∷ cs) value) (add ops h (some (c ∷ cs)) value m)
  unfolding add find
  hash_add_lem c cs own = go (ops.search h.htab (c ∷ cs)) refl
    where
      go :
          (r : Option ℕ)
          → ops.search h.htab (c ∷ cs) ≡ r
          → Returns (Added ops g other h (c ∷ cs) value) (add ops h (some (c ∷ cs)) value m)
      go none e = rw (e, add) (add_new_lem (c ∷ cs) e own)
      go (some old) e =
          rw (e, add) (returns (own, λ j. doc.assign_law h.htab (c ∷ cs) j value old e))

free_keys_lem :
    (ks : List Str) (m : Memory) (k : ℕ)
    → m.live ≡ k + 2 * length ks
    → free_keys ks m ≡ ok (record m { live = k })
unfolding free_keys
free_keys_lem [] m k own = ap (λ n. ok (record m { live = n })) (own ∙ omega arith)
free_keys_lem (x ∷ ks) m k own =
    rw
      (
        free_lem m (k + 2 * length ks + 1) (omega (arith, own)),
        free_lem (record m { live = k + 2 * length ks + 1 }) (k + 2 * length ks) (omega arith),
      )
      (free_keys_lem ks (record m { live = k + 2 * length ks }) k refl)

-- sky_hash_destroy of a hash whose blocks are accounted for frees the copies of its keys and the
-- struct, each once, and leaves exactly the other blocks.
pub hash_destroy_lem :
    {T : Type 0} (g : ℕ → Bool) (other : ℕ) (h : Hash T) (m : Memory)
    → Owns g other h m
    → destroy (some h) m ≡ ok (record m { live = other })
unfolding destroy
hash_destroy_lem g other h m own =
    rw (free_keys_lem h.key_array m (other + 1) own.0)
      (free_lem (record m { live = other + 1 }) other (omega arith))
