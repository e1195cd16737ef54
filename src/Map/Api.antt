-- ===== src/Map/Api.antt =====
-- The functions of sky_map.h (sky/src/sky_map.c). A handle is `Option`, `none` for NULL, and so are
-- the string arguments and the `bool*` results; a call returns its code and the new state.
use skysdk.Base.{
  ℕ, Bool, true, false, not, Option, none, some, Str, if◌then◌else◌, ◌==◌, Run, ok, fault, ◌>>=◌,
}
use skysdk.Base.Int.{is_zero}
use skysdk.Memory.{Memory, alloc, realloc}
use skysdk.Map.{
  Slot, wild, null, str, Vector, Filter, MapData, State, MapResult, map_ok, map_error,
  map_invalidarg, map_keyexists, map_keynotfound, map_filter_reject,
}
use skysdk.Map.Storage.{read, write, block}
use skysdk.Map.Entries.{find_key, find_value, insert_new, remove_at}

-- sky_map_create; the block of the struct counts as one
unfoldable pub create : Option Filter → Memory → Option MapData × Memory
create filter m =
    let (granted, m') = alloc m in
    (
      (if granted
          then some (record { keys = none; values = none; count = 0; filter = filter })
          else none),
      m',
    )

-- `mapFilterCallback != NULL && mapFilterCallback(key, value) != 0`
unfoldable pub rejects : Option Filter → Str → Str → Bool
rejects none key value = false
rejects (some f) key value = not (is_zero (f key value))

unfoldable pub add_or_error : State → Str → Str → Run (MapResult × State)
unfolding insert_new
add_or_error s key value = do
  (code, s') ← insert_new s key value
  ok ((if code == 0 then map_ok else map_error), s')

-- sky_map_add on non-null arguments
unfoldable pub add_valid : State → Str → Str → Run (MapResult × State)
unfolding find_key rejects add_or_error
add_valid s key value = do
  found ← find_key s.map key
  elim found [
    | some i ↦ ok (map_keyexists, s)
    | none ↦
        if rejects s.map.filter key value
        then ok (map_filter_reject, s)
        else add_or_error s key value
  ]

-- realloc of a `char*`, which must have been written
unfoldable pub realloc_slot : Slot → Memory → Run (Bool × Memory)
realloc_slot wild m = fault
realloc_slot null m = ok (alloc m)
realloc_slot (str s) m = ok (realloc m)

-- handle->values[index] = realloc of it with room for `value`, and memcpy
unfoldable pub replace_value : State → ℕ → Str → Run (MapResult × State)
unfolding read write block realloc_slot
replace_value s index value = do
  vs ← block s.map.values
  old ← read vs index
  (granted, m) ← realloc_slot old s.mem
  if granted
      then (do
        ws ← write vs index (str value)
        ok (map_ok, record { map = record (s.map) { values = some ws }; mem = m }))
      else ok (map_error, record s { mem = m })

-- sky_map_addorupdate on non-null arguments
unfoldable pub addorupdate_valid : State → Str → Str → Run (MapResult × State)
unfolding find_key rejects add_or_error replace_value
addorupdate_valid s key value =
    if rejects s.map.filter key value then ok (map_filter_reject, s) else (do
      found ← find_key s.map key
      elim found [ none ↦ add_or_error s key value | some i ↦ replace_value s i value ])

-- sky_map_delete on non-null arguments
unfoldable pub delete_valid : State → Str → Run (MapResult × State)
unfolding find_key remove_at
delete_valid s key = do
  found ← find_key s.map key
  elim found [ none ↦ ok (map_keynotfound, s) | some i ↦ do s' ← remove_at s i; ok (map_ok, s') ]

-- The result of a call on a handle: its code, the handle's new contents, and the memory.
abbrev pub Outcome : Type 0
Outcome = MapResult × Option MapData × Memory

abbrev pub outcome : MapResult × State → Run Outcome
outcome (r, s) = ok (r, some s.map, s.mem)

abbrev pub state : MapData → Memory → State
state d m = record { map = d; mem = m }

unfoldable pub add : Option MapData → Option Str → Option Str → Memory → Run Outcome
unfolding add_valid
add (some d) (some key) (some value) m = add_valid (state d m) key value >>= outcome
add handle _ _ m = ok (map_invalidarg, handle, m)

unfoldable pub addorupdate : Option MapData → Option Str → Option Str → Memory → Run Outcome
unfolding addorupdate_valid
addorupdate (some d) (some key) (some value) m = addorupdate_valid (state d m) key value >>= outcome
addorupdate handle _ _ m = ok (map_invalidarg, handle, m)

unfoldable pub delete : Option MapData → Option Str → Memory → Run Outcome
unfolding delete_valid
delete (some d) (some key) m = delete_valid (state d m) key >>= outcome
delete handle _ m = ok (map_invalidarg, handle, m)

abbrev pub is_some {ℓ} : {A : Type ℓ} → Option A → Bool
is_some none = false
is_some (some x) = true

-- `present` says whether the `bool*` is not NULL; the second result is what is stored there
unfoldable pub containskey : Option MapData → Option Str → Bool → Run (MapResult × Option Bool)
unfolding find_key
containskey (some d) (some key) true = do found ← find_key d key; ok (map_ok, some (is_some found))
containskey _ _ _ = ok (map_invalidarg, none)

unfoldable pub containsvalue : Option MapData → Option Str → Bool → Run (MapResult × Option Bool)
unfolding find_value
containsvalue (some d) (some value) true = do
  found ← find_value d value
  ok (map_ok, some (is_some found))
containsvalue _ _ _ = ok (map_invalidarg, none)

-- the slot at the found index, as a string that may be NULL
unfoldable pub value_at : Vector → ℕ → Run (Option Str)
unfolding read block
value_at v i = do
  xs ← block v
  slot ← read xs i
  elim slot [ wild ↦ fault | null ↦ ok none | str s ↦ ok (some s) ]

unfoldable pub getvaluefromkey : Option MapData → Option Str → Run (Option Str)
unfolding find_key value_at
getvaluefromkey (some d) (some key) = do
  found ← find_key d key
  elim found [ none ↦ ok none | some i ↦ value_at d.values i ]
getvaluefromkey _ _ = ok none
