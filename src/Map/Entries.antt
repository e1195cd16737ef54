-- ===== src/Map/Entries.antt =====
-- The searches, the insertion and the removal of an entry of sky/src/sky_map.c.
use skysdk.Base.{
  ℕ, zero, suc, ◌-◌, Option, none, some, List, [], ◌∷◌, Str, str_eq, if◌then◌else◌, ◌==◌, Run, ok,
  fault, ◌>>=◌,
}
use skysdk.Base.Int.{ℤ, is_zero}
use skysdk.Memory.{Memory}
use skysdk.Map.{Slot, wild, str, Vector, MapData, State}
use skysdk.Map.Storage.{
  mallocandstrcpy_s, read, write, block, free_slot, increase_storage, decrease_storage,
}

-- the loop of findKey and findValue from index `i`, with `n` slots to go
unfoldable pub find_from : List Slot → ℕ → ℕ → Str → Run (Option ℕ)
find_from xs zero i key = ok none
find_from (str s ∷ xs) (suc n) i key =
    let rest = find_from xs n (suc i) key in if str_eq s key then ok (some i) else rest
find_from _ (suc n) i key = fault

-- findKey and findValue: the index of the first slot with this text
unfoldable pub find_in : Vector → ℕ → Str → Run (Option ℕ)
unfolding find_from
find_in none count text = ok none
find_in (some xs) count text = find_from xs count 0 text

unfoldable pub find_key : MapData → Str → Run (Option ℕ)
unfolding find_in
find_key d key = find_in d.keys d.count key

unfoldable pub find_value : MapData → Str → Run (Option ℕ)
unfolding find_in
find_value d value = find_in d.values d.count value

-- what mallocandstrcpy_s stores at `&xs[i]`
unfoldable pub store_copy : Vector → ℕ → Str → Memory → Run (ℤ × List Slot × Memory)
unfolding mallocandstrcpy_s read write block
store_copy v i text m = do
  xs ← block v
  old ← read xs i
  (code, new, m') ← mallocandstrcpy_s (some old) (some text) m
  elim new [ none ↦ fault | some slot ↦ do ys ← write xs i slot; ok (code, ys, m') ]

-- the value of the new entry, after its key has been copied
unfoldable pub insert_value : State → Str → Run (ℕ × State)
unfolding store_copy decrease_storage free_slot
insert_value s value = do
  (code, vs, m) ← store_copy s.map.values (s.map.count - 1) value s.mem
  let d = record (s.map) { values = some vs }
  if is_zero code then ok (0, record { map = d; mem = m }) else (do
    ks ← block d.keys
    key ← read ks (d.count - 1)
    m' ← free_slot key m
    s' ← decrease_storage (record { map = d; mem = m' })
    ok (355, s'))

-- the key of the new entry, after the arrays have grown
unfoldable pub insert_key : State → Str → Str → Run (ℕ × State)
unfolding store_copy decrease_storage insert_value
insert_key s key value = do
  (code, ks, m) ← store_copy s.map.keys (s.map.count - 1) key s.mem
  let s' : State = record { map = record (s.map) { keys = some ks }; mem = m }
  if is_zero code then insert_value s' value else (do t ← decrease_storage s'; ok (346, t))

-- insertNewKeyValue: 0, or the line of the failure
unfoldable pub insert_new : State → Str → Str → Run (ℕ × State)
unfolding increase_storage insert_key
insert_new s key value = do
  (code, s') ← increase_storage s
  if code == 0 then insert_key s' key value else ok (338, s')

-- free(xs[i]): the slot dangles afterwards
unfoldable pub free_at : List Slot → ℕ → Memory → Run (List Slot × Memory)
unfolding read write free_slot
free_at xs i m = do slot ← read xs i; m' ← free_slot slot m; ys ← write xs i wild; ok (ys, m')

-- memmove(xs + i, xs + i + 1, n * sizeof(char*))
unfoldable pub move_down : List Slot → ℕ → ℕ → Run (List Slot)
move_down xs zero zero = ok xs
move_down [] (suc i) n = fault
move_down (x ∷ xs) (suc i) n = do ys ← move_down xs i n; ok (x ∷ ys)
move_down (x ∷ y ∷ xs) zero (suc n) = do ys ← move_down (y ∷ xs) zero n; ok (y ∷ ys)
move_down _ zero (suc n) = fault

-- the else branch of sky_map_delete: the entry at `index` goes
unfoldable pub remove_at : State → ℕ → Run State
unfolding free_at move_down decrease_storage block
remove_at s index = do
  ks ← block s.map.keys
  vs ← block s.map.values
  (ks', m) ← free_at ks index s.mem
  (vs', m') ← free_at vs index m
  moved_keys ← move_down ks' index (s.map.count - index - 1)
  moved_values ← move_down vs' index (s.map.count - index - 1)
  decrease_storage (record {
    map = record (s.map) { keys = some moved_keys; values = some moved_values };
    mem = m';
  })
