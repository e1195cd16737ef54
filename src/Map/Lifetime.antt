-- ===== src/Map/Lifetime.antt =====
-- sky_map_destroy, map_clonevector and sky_map_clone of sky/src/sky_map.c.
use skysdk.Base.{
  ℕ, zero, suc, Bool, true, false, Option, none, some, List, [], ◌∷◌, Str, if◌then◌else◌, ◌==◌, Run,
  ok, fault, ◌>>=◌,
}
use skysdk.Base.Int.{is_zero}
use skysdk.Memory.{Memory, alloc, free}
use skysdk.Map.{Slot, wild, null, str, Vector, MapData}
use skysdk.Map.Storage.{mallocandstrcpy_s, block, free_vector, free_slot}

-- the slots behind a `char**`; a loop that reads one of them behind NULL faults
abbrev pub slots : Vector → List Slot
slots none = []
slots (some xs) = xs

-- the loop of sky_map_destroy, with `n` entries to go
unfoldable pub free_entries : ℕ → List Slot → List Slot → Memory → Run Memory
unfolding free_slot
free_entries zero ks vs m = ok m
free_entries (suc n) (k ∷ ks) (v ∷ vs) m = do
  m' ← free_slot k m
  m'' ← free_slot v m'
  free_entries n ks vs m''
free_entries (suc n) _ _ m = fault

unfoldable pub destroy : Option MapData → Memory → Run Memory
unfolding free_entries free_vector
destroy none m = ok m
destroy (some d) m = do
  m₁ ← free_entries d.count (slots d.keys) (slots d.values) m
  m₂ ← free_vector d.keys m₁
  m₃ ← free_vector d.values m₂
  free m₃

-- `source[i]` as the argument of mallocandstrcpy_s
unfoldable pub text_of : Slot → Run (Option Str)
text_of wild = fault
text_of null = ok none
text_of (str s) = ok (some s)

-- the copying loop of map_clonevector: whether it came to the end, and the copies it made
unfoldable pub clone_slots : ℕ → List Slot → Memory → Run (Bool × List Slot × Memory)
unfolding text_of mallocandstrcpy_s
clone_slots zero xs m = ok (true, [], m)
clone_slots (suc n) [] m = fault
clone_slots (suc n) (x ∷ xs) m = do
  source ← text_of x
  (code, new, m') ← mallocandstrcpy_s (some wild) source m
  let rest = clone_slots n xs m'
  elim new [
    | none ↦ fault
    | some slot ↦
        if is_zero code
        then (do (all, copies, m'') ← rest; ok (all, slot ∷ copies, m''))
        else ok (false, [], m')
  ]

unfoldable pub free_slots : List Slot → Memory → Run Memory
unfolding free_slot
free_slots [] m = ok m
free_slots (x ∷ xs) m = do m' ← free_slot x m; free_slots xs m'

-- map_clonevector: a new array of copies, or NULL with everything given back
unfoldable pub clone_vector : Vector → ℕ → Memory → Run (Vector × Memory)
unfolding clone_slots free_slots block
clone_vector source count m =
    let (granted, m₁) = alloc m in
    if granted
    then (do
      xs ← block source
      (all, copies, m₂) ← clone_slots count xs m₁
      if all
          then ok (some copies, m₂)
          else (do m₃ ← free_slots copies m₂; m₄ ← free m₃; ok (none, m₄)))
    else ok (none, m₁)

-- the values of a clone whose keys are copied; on failure keys and struct are given back
unfoldable pub clone_values : MapData → List Slot → Memory → Run (Option MapData × Memory)
unfolding clone_vector free_slots
clone_values d ks m = do
  (values, m₁) ← clone_vector d.values d.count m
  elim values [
    | some vs ↦ ok (some (record d { keys = some ks; values = some vs }), m₁)
    | none ↦ do m₂ ← free_slots ks m₁; m₃ ← free m₂; m₄ ← free m₃; ok (none, m₄)
  ]

unfoldable pub clone_entries : MapData → Memory → Run (Option MapData × Memory)
unfolding clone_values clone_vector
clone_entries d m = do
  (keys, m₁) ← clone_vector d.keys d.count m
  elim keys [ some ks ↦ clone_values d ks m₁ | none ↦ do m₂ ← free m₁; ok (none, m₂) ]

unfoldable pub clone : Option MapData → Memory → Run (Option MapData × Memory)
unfolding clone_entries
clone none m = ok (none, m)
clone (some d) m =
    let (granted, m') = alloc m in
    if granted
    then (if d.count == 0
        then ok (some (record { keys = none; values = none; count = 0; filter = none }), m')
        else clone_entries d m')
    else ok (none, m')
