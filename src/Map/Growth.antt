-- ===== src/Map/Growth.antt =====
-- Growing the arrays by a slot and shrinking them again (sky/src/sky_map.c): what holds of the
-- state after Map_IncreaseStorageKeysValues and Map_DecreaseStorageKeysValues.
use skysdk.Base.{
  ℕ, suc, ◌+◌, ◌*◌, ◌≡◌, refl, ap, sym, ◌∙◌, ◌⊎◌, inl, inr, ◌≢◌, false, Option, none, some, List,
  [], ◌∷◌, ◌++◌, length, length-map, ◌==◌, Returns, returns, bind, arith, Bool-cases,
}
use mathlib.Core.List.{append-nil}
use skysdk.Memory.{Memory, realloc, free_lem}
use skysdk.Map.{Slot, null, Vector, Filter, State}
use skysdk.Map.Storage.{
  free_vector, undo_keys, increase_values, increase_storage, shrink_to, decrease_storage,
}
use skysdk.Map.Rep.{Entries, key_list, value_list, strs, Holds, owned, Policy, Refuses, IsValid}
use skysdk.Map.Vectors.{extra, grow, write_at, resize_at, kept-Holds}

-- both arrays have one slot more than there are entries, not yet used
pub record HasRoom (g : Policy) (other : ℕ) (es : Entries) (s : State) : Type 0 where
  pub counted : s.map.count ≡ suc (length es)
  pub keys : s.map.keys ≡ some (strs (key_list es) ++ null ∷ [])
  pub values : s.map.values ≡ some (strs (value_list es) ++ null ∷ [])
  pub blocks : s.mem.live ≡ other + 3 + 2 * length es
  pub policy : s.mem.grants ≡ g

-- the filter that the map keeps when it shrinks back to these entries
abbrev pub filter_after : Entries → Option Filter → Option Filter
filter_after [] f = none
filter_after (e ∷ es) f = f

-- A shrink in one slot, whether realloc grants it or not.
pub shrink_to-IsValid :
    (g : Policy) (other : ℕ) (es : Entries) (s : State) (t u : List Slot)
    → s.mem.grants ≡ g
    → s.map.keys ≡ some (strs (key_list es) ++ t)
    → s.map.values ≡ some (strs (value_list es) ++ u)
    → s.mem.live ≡ other + 3 + 2 * length es
    → Returns
        (λ s'. IsValid g other es s' × (s'.map.filter ≡ filter_after es s.map.filter))
        (shrink_to s (suc (length es)))
unfolding shrink_to realloc
shrink_to-IsValid g other [] s t u p ke ve b =
    rw
      (
        ke,
        ve,
        free_vector,
        free_lem s.mem (other + 2) (omega arith),
        free_lem (record (s.mem) { live = other + 2 }) (other + 1) (omega arith),
      )
      (returns (
        record {
          policy = p;
          rep = record { counted = refl; keys = refl; values = refl };
          blocks = refl;
        },
        refl,
      ))
shrink_to-IsValid g other (e ∷ es) s t u p ke ve b =
    rw (ke, ve)
      (returns (
        record {
          policy = p;
          rep = record {
            counted = refl;
            keys = kept-Holds e.0 (key_list es) _ t s.mem (ap suc (sym (length-map (λ e. e.0) es)));
            values =
                kept-Holds e.1 (value_list es) _ u (realloc s.mem).1
                  (ap suc (sym (length-map (λ e. e.1) es)));
          };
          blocks = omega arith;
        },
        refl,
      ))

pub decrease_storage-IsValid :
    (g : Policy) (other : ℕ) (es : Entries) (s : State) (t u : List Slot)
    → s.map.count ≡ suc (length es)
    → s.mem.grants ≡ g
    → s.map.keys ≡ some (strs (key_list es) ++ t)
    → s.map.values ≡ some (strs (value_list es) ++ u)
    → s.mem.live ≡ other + 3 + 2 * length es
    → Returns
        (λ s'. IsValid g other es s' × (s'.map.filter ≡ filter_after es s.map.filter))
        (decrease_storage s)
unfolding decrease_storage
decrease_storage-IsValid g other es s t u ce p ke ve b =
    rw ce (shrink_to-IsValid g other es s t u p ke ve b)

-- Undoing the growth of the keys.
undo_keys-IsValid :
    (g : Policy) (other : ℕ) (es : Entries) (n : ℕ) (t : List Slot) (vv : Vector)
    (f : Option Filter) (m : Memory)
    → m.grants ≡ g
    → n ≡ length es
    → Holds (value_list es) vv
    → m.live ≡ other + owned es + extra (key_list es)
    → Returns
        (λ s. IsValid g other es s × (s.map.filter ≡ f))
        (undo_keys
          (record { keys = some (strs (key_list es) ++ t); values = vv; count = n; filter = f })
          m)
unfolding undo_keys realloc
undo_keys-IsValid g other [] n t vv f m p ce vh b =
    rw (ce, free_vector, free_lem m (other + 1) (omega arith))
      (returns (
        record {
          policy = p;
          rep = record { counted = refl; keys = refl; values = vh };
          blocks = refl;
        },
        refl,
      ))
undo_keys-IsValid g other (e ∷ es) n t vv f m p ce vh b =
    let positive : (n == 0) ≡ false = ground arith in
    let shorter : n ≡ suc (length (key_list es)) = ce ∙ ap suc (sym (length-map (λ e. e.0) es)) in
    rw positive (elim (Bool-cases (m.grants m.requests)) [
      | inl yes_g ↦ rw yes_g (
          returns (
            record {
              policy = p;
              rep = record {
                counted = ce;
                keys =
                    ([], ap some (resize_at (e.0 ∷ key_list es) n shorter t ∙ sym (append-nil _)));
                values = vh;
              };
              blocks = omega arith;
            },
            refl,
          ))
      | inr no_g ↦ rw no_g (
          returns (
            record {
              policy = p;
              rep = record { counted = ce; keys = (t, refl); values = vh };
              blocks = omega arith;
            },
            refl,
          ))
    ])

-- What Map_IncreaseStorageKeysValues leaves: room, or the map as it was.
abbrev pub Increased : Policy → ℕ → Entries → Option Filter → ℕ × State → Type 0
Increased g other es f (code, s) =
    ((code ≡ 0) × HasRoom g other es s × (s.map.filter ≡ f))
    ⊎ ((code ≢ 0) × Refuses g × IsValid g other es s × (s.map.filter ≡ f))

-- the first growth adds the two arrays
room_blocks :
    (es : Entries) → owned es + extra (key_list es) + extra (value_list es) ≡ 3 + 2 * length es
room_blocks [] = refl
room_blocks (e ∷ es) = omega arith

increase_values-Increased :
    (g : Policy) (other : ℕ) (es : Entries) (n : ℕ) (vv : Vector) (f : Option Filter) (m : Memory)
    → m.grants ≡ g
    → n ≡ length es
    → Holds (value_list es) vv
    → m.live ≡ other + owned es + extra (key_list es)
    → Returns (Increased g other es f) (
        increase_values
          (record {
            keys = some (strs (key_list es) ++ null ∷ []);
            values = vv;
            count = n;
            filter = f;
          })
          m)
unfolding increase_values
increase_values-Increased g other es n vv f m p ce vh b =
    let at : n ≡ length (value_list es) = ce ∙ sym (length-map (λ e. e.1) es) in
    elim (grow (value_list es) n at vv m vh) [
      | inl (refused, no_g, p', same) ↦
          rw (refused, increase_values)
            (bind (undo_keys-IsValid g other es n (null ∷ []) vv f _ (p' ∙ p) ce vh (same ∙ b))
              λ s (valid, kept). returns (
                inr
                  (ground arith, (m.requests, ap (λ h. h m.requests) (sym p) ∙ no_g), valid, kept)))
      | inr (x, granted, p', more) ↦
          rw (granted, increase_values, write_at (value_list es) n at x null [])
            (returns (
              inl (
                refl,
                record {
                  counted = omega arith;
                  keys = refl;
                  values = refl;
                  blocks = omega (arith, room_blocks es);
                  policy = p' ∙ p;
                },
                refl,
              )))
    ]

pub increase_storage-Increased :
    (g : Policy) (other : ℕ) (es : Entries) (s : State)
    → IsValid g other es s
    → Returns (Increased g other es s.map.filter) (increase_storage s)
unfolding increase_storage
increase_storage-Increased g other es s v =
    let at : s.map.count ≡ length (key_list es) = v.rep.counted ∙ sym (length-map (λ e. e.0) es) in
    elim (grow (key_list es) s.map.count at s.map.keys s.mem v.rep.keys) [
      | inl (refused, no_g, p, same) ↦
          rw (refused, increase_storage)
            (returns (
              inr (
                ground arith,
                (s.mem.requests, ap (λ h. h s.mem.requests) (sym v.policy) ∙ no_g),
                record { policy = p ∙ v.policy; rep = v.rep; blocks = same ∙ v.blocks },
                refl,
              )))
      | inr (x, granted, p, more) ↦
          rw (granted, increase_storage, write_at (key_list es) s.map.count at x null [])
            (increase_values-Increased g other es s.map.count s.map.values s.map.filter _
              (p ∙ v.policy) v.rep.counted v.rep.values (omega (arith, v.blocks)))
    ]
