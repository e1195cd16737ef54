-- ===== src/Map/Create.antt =====
-- sky_map_create (sky/src/sky_map.c).
use skysdk.Base.{◌≡◌, refl, ◌⊎◌, inl, inr, Option, none, some, [], Bool-cases}
use skysdk.Memory.{Memory, alloc}
use skysdk.Map.{MapData, Filter}
use skysdk.Map.Api.{create}
use skysdk.Map.Rep.{Refuses, IsMap}

-- no handle, for want of memory; or a map without entries beside the blocks of before
abbrev pub CreateSpec : Option Filter → Memory → Option MapData × Memory → Type 0
CreateSpec f m (h, m') =
    ((h ≡ none) × Refuses m.grants × (m'.live ≡ m.live))
    ⊎ ((d : MapData) × (h ≡ some d) × (d.filter ≡ f) × IsMap m.grants m.live [] d m')

-- sky_map_create gives NULL, some request for memory is refused, and the number of live blocks is
-- as it was; or it gives a map without entries and with the given filter, which owns one more
-- block than there were.
pub map_create_lem : (f : Option Filter) (m : Memory) → CreateSpec f m (create f m)
unfolding create alloc
map_create_lem f m = elim (Bool-cases (m.grants m.requests)) [
  | inl given ↦
      rw (given, create)
        (inr (
          _,
          refl,
          refl,
          record {
            valid = record {
              policy = refl;
              rep = record { counted = refl; keys = refl; values = refl };
              blocks = refl;
            };
            distinct = tt;
          },
        ))
  | inr refused ↦ rw (refused, create) (inl (refl, (m.requests, refused), refl))
]
