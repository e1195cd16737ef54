-- ===== src/Map/Destroy.antt =====
-- sky_map_destroy (sky/src/sky_map.c).
use skysdk.Base.{ℕ, ◌+◌, ◌*◌, ◌≡◌, refl, ap, ◌∙◌, some, List, [], ◌∷◌, ◌++◌, length, ok, arith}
use skysdk.Memory.{Memory, free_lem}
use skysdk.Map.{Slot, MapData}
use skysdk.Map.Storage.{free_slot, free_vector}
use skysdk.Map.Lifetime.{free_entries, destroy}
use skysdk.Map.Rep.{Entries, key_list, value_list, strs, Policy, IsMap}

pub free_entries_lem :
    (es : Entries) (t u : List Slot) (m : Memory) (k : ℕ)
    → m.live ≡ 2 * length es + k
    → free_entries (length es) (strs (key_list es) ++ t) (strs (value_list es) ++ u) m
      ≡ ok (record m { live = k })
unfolding free_entries free_slot
free_entries_lem [] t u m k b = ap (λ n. ok (record m { live = n })) (b ∙ omega arith)
free_entries_lem (e ∷ es) t u m k b =
    rw
      (
        free_lem m (2 * length es + k + 1) (omega arith),
        free_lem (record m { live = 2 * length es + k + 1 }) (2 * length es + k) (omega arith),
      )
      (free_entries_lem es t u (record m { live = 2 * length es + k }) k refl)

-- sky_map_destroy of a map with no key twice frees each of its blocks once: no free fails, and
-- exactly the blocks that are not the map's are left.
pub destroy_lem :
    (g : Policy) (other : ℕ) (es : Entries) (d : MapData) (m : Memory)
    → IsMap g other es d m
    → destroy (some d) m ≡ ok (record m { live = other })
unfolding destroy
destroy_lem g other [] d m is =
    rw (is.valid.rep.keys, is.valid.rep.values, is.valid.rep.counted)
      (free_lem m other (is.valid.blocks ∙ omega arith))
destroy_lem g other (e ∷ es) d m is =
    let (t, ke) = is.valid.rep.keys in
    let (u, ve) = is.valid.rep.values in
    let total : m.live ≡ 2 * length (e ∷ es) + (other + 3) = omega (arith, is.valid.blocks) in
    rw (
      ke,
      ve,
      is.valid.rep.counted,
      free_entries_lem (e ∷ es) t u m (other + 3) total,
      free_vector,
      free_lem (record m { live = other + 3 }) (other + 2) (omega arith),
      free_lem (record m { live = other + 2 }) (other + 1) (omega arith),
      free_lem (record m { live = other + 1 }) other (omega arith),
    )
