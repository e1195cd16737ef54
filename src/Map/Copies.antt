-- ===== src/Map/Copies.antt =====
-- The copies that map_clonevector (sky/src/sky_map.c) makes, and how it gives them back.
use skysdk.Base.{
  ℕ, ◌+◌, ◌≡◌, refl, ap, sym, ◌∙◌, ◌⊎◌, inl, inr, Bool, true, false, none, some, List, [], ◌∷◌,
  ◌++◌, Str, length, ok, Run, arith, Bool-cases,
}
use skysdk.Memory.{Memory, alloc, free_lem}
use skysdk.Map.{Slot, wild, Vector}
use skysdk.Map.Storage.{free_slot, block}
use skysdk.Map.Lifetime.{clone_slots, free_slots, clone_vector}
use skysdk.Map.Rep.{strs, Holds, Refuses}
use skysdk.Map.Insert.{mallocandstrcpy_s-Copied}

abbrev Cloned : List Str → Memory → Run (Bool × List Slot × Memory) → Type 0
Cloned ss m r =
    ((m' : Memory) × (r ≡ ok (true, strs ss, m'))
      × (m'.grants ≡ m.grants)
      × (m'.live ≡ length ss + m.live))
    ⊎ ((done : List Str) × (m' : Memory) × (r ≡ ok (false, strs done, m'))
        × Refuses m.grants
        × (m'.grants ≡ m.grants)
        × (m'.live ≡ length done + m.live))

clone_slots-Cloned :
    (ss : List Str) (t : List Slot) (m : Memory)
    → Cloned ss m (clone_slots (length ss) (strs ss ++ t) m)
unfolding clone_slots
clone_slots-Cloned [] t m = inl (m, refl, refl, omega arith)
clone_slots-Cloned (s ∷ ss) t m = elim (mallocandstrcpy_s-Copied wild s m) [
  | inl (m', refused, no_g, p, same) ↦ inr ([], m', rw refused, (m.requests, no_g), p, omega arith)
  | inr (m', copied, p, more) ↦ elim (clone_slots-Cloned ss t m') [
    | inl (m'', run, p', b) ↦ inl (m'', rw (copied, run), p' ∙ p, omega arith)
    | inr (done, m'', run, refused, p', b) ↦ inr (
      s ∷ done,
      m'',
      rw (copied, run),
      (refused.0, ap (λ h. h refused.0) (sym p) ∙ refused.1),
      p' ∙ p,
      omega arith,
    )
  ]
]

pub free_slots_lem :
    (ss : List Str) (m : Memory) (k : ℕ)
    → m.live ≡ length ss + k
    → free_slots (strs ss) m ≡ ok (record m { live = k })
unfolding free_slots free_slot
free_slots_lem [] m k b = ap (λ n. ok (record m { live = n })) (b ∙ omega arith)
free_slots_lem (s ∷ ss) m k b =
    rw (free_lem m (length ss + k) (omega arith))
      (free_slots_lem ss (record m { live = length ss + k }) k refl)

-- map_clonevector
abbrev pub VectorCloned : List Str → Memory → Run (Vector × Memory) → Type 0
VectorCloned ss m r =
    ((m' : Memory) × (r ≡ ok (some (strs ss), m'))
      × (m'.grants ≡ m.grants)
      × (m'.live ≡ length ss + 1 + m.live))
    ⊎ ((m' : Memory) × (r ≡ ok (none, m'))
        × Refuses m.grants
        × (m'.grants ≡ m.grants)
        × (m'.live ≡ m.live))

pub clone_vector-VectorCloned :
    (s : Str) (ss : List Str) (v : Vector) (n : ℕ) (m : Memory)
    → Holds (s ∷ ss) v
    → n ≡ length (s ∷ ss)
    → VectorCloned (s ∷ ss) m (clone_vector v n m)
unfolding clone_vector alloc
clone_vector-VectorCloned s ss v n m (t, e) at = elim (Bool-cases (m.grants m.requests)) [
  | inl yes_g ↦
      let m₁ = record m { requests = m.requests + 1; live = m.live + 1 } in
      elim (clone_slots-Cloned (s ∷ ss) t m₁) [
        | inl (m₂, run, p, b) ↦ inl (m₂, rw (at, alloc, yes_g, e, block, run), p, omega arith)
        | inr (done, m₂, run, refused, p, b) ↦ inr (
          record m₂ { live = m.live },
          rw (
            at,
            alloc,
            yes_g,
            e,
            block,
            run,
            free_slots_lem done m₂ (m.live + 1) b,
            free_lem (record m₂ { live = m.live + 1 }) m.live (omega arith),
          ),
          refused,
          p,
          refl,
        )
      ]
  | inr no_g ↦
      inr (record m { requests = m.requests + 1 }, rw (alloc, no_g), (m.requests, no_g), refl, refl)
]

-- The same map beside other blocks.
