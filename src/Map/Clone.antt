-- ===== src/Map/Clone.antt =====
-- sky_map_clone (sky/src/sky_map.c).
use mathlib.Core.List.{append-nil}
use skysdk.Base.{
  ℕ, ◌+◌, ◌≡◌, refl, ap, sym, ◌∙◌, ◌⊎◌, inl, inr, true, false, Option, none, some, [], ◌∷◌, Str,
  length, length-map, Returns, returns, arith, ◌==◌, Bool-cases,
}
use skysdk.Memory.{Memory, alloc, free_lem}
use skysdk.Map.{MapData}
use skysdk.Map.Lifetime.{clone_values, clone_entries, clone}
use skysdk.Map.Rep.{Entries, key_list, value_list, strs, owned, Policy, Refuses, IsMap}
use skysdk.Map.Growth.{filter_after}
use skysdk.Map.Copies.{clone_vector-VectorCloned, free_slots_lem}

-- The copies cost a block each; when one is refused, those before it are handed back to the caller.
IsMap-mem :
    {g : Policy} {other : ℕ} {es : Entries} {d : MapData} {m : Memory} (other' : ℕ) (m' : Memory)
    → IsMap g other es d m
    → m'.grants ≡ m.grants
    → m'.live ≡ other' + owned es
    → IsMap g other' es d m'
IsMap-mem other' m' is p b = record {
  valid = record { policy = p ∙ is.valid.policy; rep = is.valid.rep; blocks = b };
  distinct = is.distinct;
}

-- Either there is no clone, for want of memory, and every block that was requested is given back; or
-- the clone and the original stand beside one another, each with its own blocks.
abbrev pub CloneSpec : Policy → ℕ → Entries → MapData → Option MapData × Memory → Type 0
CloneSpec g other es d (h, m') =
    ((h ≡ none) × Refuses g × IsMap g other es d m')
    ⊎ ((d' : MapData) × (h ≡ some d')
        × (d'.filter ≡ filter_after es d.filter)
        × IsMap g (other + owned es) es d' m'
        × IsMap g (other + owned es) es d m')

module _ (g : Policy) (other : ℕ) (e : Str × Str) (es : Entries) (d : MapData) (m : Memory) where
  -- the copies as a map of their own
  clone-IsMap :
      (m' : Memory)
      → IsMap g other (e ∷ es) d m
      → m'.grants ≡ m.grants
      → m'.live ≡ other + owned (e ∷ es) + owned (e ∷ es)
      → IsMap g
          (other + owned (e ∷ es))
          (e ∷ es)
          (record d {
            keys = some (strs (key_list (e ∷ es)));
            values = some (strs (value_list (e ∷ es)));
          })
          m'
  clone-IsMap m' is p b = record {
    valid = record {
      policy = p ∙ is.valid.policy;
      rep = record {
        counted = is.valid.rep.counted;
        keys = ([], ap some (sym (append-nil _)));
        values = ([], ap some (sym (append-nil _)));
      };
      blocks = b;
    };
    distinct = is.distinct;
  }

  refuses : {h : Policy} → IsMap g other (e ∷ es) d m → h ≡ m.grants → Refuses h → Refuses g
  refuses is p (n, no_g) = (n, ap (λ h. h n) (sym (p ∙ is.valid.policy)) ∙ no_g)

  -- with the struct allocated in `m₁`
  clone_entries-CloneSpec :
      (m₁ : Memory)
      → IsMap g other (e ∷ es) d m
      → m₁.grants ≡ m.grants
      → m₁.live ≡ m.live + 1
      → Returns (CloneSpec g other (e ∷ es) d) (clone_entries d m₁)
  unfolding clone_entries clone_values
  clone_entries-CloneSpec m₁ is p b =
      let k_at : d.count ≡ length (key_list (e ∷ es)) =
        is.valid.rep.counted ∙ sym (length-map (λ e. e.0) (e ∷ es)) in
      let v_at : d.count ≡ length (value_list (e ∷ es)) =
        is.valid.rep.counted ∙ sym (length-map (λ e. e.1) (e ∷ es)) in
      elim (clone_vector-VectorCloned e.0 (key_list es) d.keys d.count m₁ is.valid.rep.keys k_at) [
        | inr (m₂, run, refused, p₂, b₂) ↦
            rw (run, free_lem m₂ m.live (omega arith))
              (returns
                (inl (refl, refuses is p refused, IsMap-mem other _ is (p₂ ∙ p) is.valid.blocks)))
        | inl (m₂, run, p₂, b₂) ↦
            elim (clone_vector-VectorCloned e.1 (value_list es) d.values d.count m₂
              is.valid.rep.values v_at) [
                | inl (m₃, run', p₃, b₃) ↦
                    let total : m₃.live ≡ other + owned (e ∷ es) + owned (e ∷ es) = omega (
                      arith,
                      is.valid.blocks,
                      length-map {0, 0} (λ (e : Str × Str). e.0) es,
                      length-map {0, 0} (λ (e : Str × Str). e.1) es,
                    ) in
                    rw (run, run')
                      (returns (
                        inr (
                          _,
                          refl,
                          refl,
                          clone-IsMap m₃ is (p₃ ∙ (p₂ ∙ p)) total,
                          IsMap-mem _ m₃ is (p₃ ∙ (p₂ ∙ p)) total,
                        )))
                | inr (m₃, run', refused, p₃, b₃) ↦
                    rw
                      (
                        run,
                        run',
                        free_slots_lem (key_list (e ∷ es)) m₃ (m.live + 2) (omega arith),
                        free_lem (record m₃ { live = m.live + 2 }) (m.live + 1) (omega arith),
                        free_lem (record m₃ { live = m.live + 1 }) m.live (omega arith),
                      )
                      (returns (
                        inl (
                          refl,
                          refuses is (p₂ ∙ p) refused,
                          IsMap-mem other _ is (p₃ ∙ (p₂ ∙ p)) is.valid.blocks,
                        )))
              ]
      ]

-- the part of sky_map_clone behind the malloc of the struct
clone_granted :
    (g : Policy) (other : ℕ) (es : Entries) (d : MapData) (m : Memory)
    → IsMap g other es d m
    → m.grants m.requests ≡ true
    → Returns (CloneSpec g other es d) (clone (some d) m)
unfolding clone alloc
clone_granted g other [] d m is yes_g =
    let empty : (d.count == 0) ≡ true = ground (arith, is.valid.rep.counted) in
    rw (alloc, yes_g, empty)
      (returns (
        inr (
          _,
          refl,
          refl,
          record {
            valid = record {
              policy = is.valid.policy;
              rep = record { counted = refl; keys = refl; values = refl };
              blocks = omega (arith, is.valid.blocks);
            };
            distinct = tt;
          },
          IsMap-mem (other + 1) _ is refl (omega (arith, is.valid.blocks)),
        )))
clone_granted g other (e ∷ es) d m is yes_g =
    let positive : (d.count == 0) ≡ false = ground (arith, is.valid.rep.counted) in
    rw (alloc, yes_g, positive) (clone_entries-CloneSpec g other e es d m _ is refl refl)

-- sky_map_clone of a map with no key twice returns. Either it gives NULL, some request for memory
-- is refused, and the blocks are those of before; or it gives a map with the same entries, in
-- blocks of its own beside those of the original, which is as it was. The copy has the filter of
-- the original, or none if there are no entries.
pub clone_lem :
    (g : Policy) (other : ℕ) (es : Entries) (d : MapData) (m : Memory)
    → IsMap g other es d m
    → Returns (CloneSpec g other es d) (clone (some d) m)
unfolding clone alloc
clone_lem g other es d m is = elim (Bool-cases (m.grants m.requests)) [
  | inl yes_g ↦ clone_granted g other es d m is yes_g
  | inr no_g ↦
      rw (alloc, no_g)
        (returns (
          inl (
            refl,
            (m.requests, ap (λ h. h m.requests) (sym is.valid.policy) ∙ no_g),
            IsMap-mem other _ is refl is.valid.blocks,
          )))
]
