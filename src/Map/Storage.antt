-- ===== src/Map/Storage.antt =====
-- The static helpers of sky/src/sky_map.c: copying a string, and growing and shrinking the two arrays.
-- Arrays are read and written by checked accesses.
use skysdk.Base.{
  ℕ, zero, suc, ◌+◌, Bool, true, false, Option, none, some, List, [], ◌∷◌, Str, length,
  if◌then◌else◌, ◌==◌, ltb, Run, ok, fault, ◌>>=◌,
}
use skysdk.Base.Int.{ℤ, pos, is_negative}
use skysdk.Memory.{Memory, alloc, realloc, free}
use skysdk.Map.{Slot, wild, null, str, Vector, MapData, State}

abbrev einval : ℕ
einval = 22

abbrev enomem : ℕ
enomem = 12

abbrev erange : ℕ
erange = 34

-- strcpy_s of the C standard's Annex K into a buffer of the given size: ERANGE if it is too small
unfoldable pub strcpy_s : ℕ → Str → ℤ
strcpy_s size source = if ltb (length source) size then pos 0 else pos erange

-- the part of mallocandstrcpy_s behind its malloc
unfoldable pub copy_into : Slot → Str → Bool × Memory → Run (ℤ × Option Slot × Memory)
unfolding strcpy_s
copy_into destination source (false, m) = ok (pos enomem, some destination, m)
copy_into destination source (true, m) =
    let copied_result = strcpy_s (length source + 1) source in
    if is_negative copied_result
    then (do m' ← free m; ok (copied_result, some null, m'))
    else ok (pos 0, some (str source), m)

-- `none` for a null pointer; the result is the code, the new `*destination` and the memory
unfoldable pub mallocandstrcpy_s :
    Option Slot → Option Str → Memory → Run (ℤ × Option Slot × Memory)
unfolding copy_into
mallocandstrcpy_s none source m = ok (pos einval, none, m)
mallocandstrcpy_s (some destination) none m = ok (pos einval, some destination, m)
mallocandstrcpy_s (some destination) (some source) m = copy_into destination source (alloc m)

-- realloc keeps what fits, and new slots are not written
unfoldable pub resize : ℕ → List Slot → List Slot
resize zero xs = []
resize (suc n) [] = wild ∷ resize n []
resize (suc n) (x ∷ xs) = x ∷ resize n xs

-- `xs[i] = v`
unfoldable pub write : List Slot → ℕ → Slot → Run (List Slot)
write [] i v = fault
write (x ∷ xs) zero v = ok (v ∷ xs)
write (x ∷ xs) (suc i) v = do ys ← write xs i v; ok (x ∷ ys)

-- `xs[i]`
unfoldable pub read : List Slot → ℕ → Run Slot
read [] i = fault
read (x ∷ xs) zero = ok x
read (x ∷ xs) (suc i) = read xs i

-- access to the block behind a `char**`
unfoldable pub block : Vector → Run (List Slot)
block none = fault
block (some xs) = ok xs

-- realloc of a `char**` that may be NULL
unfoldable pub realloc_vector : Vector → ℕ → Memory → Vector × Memory
realloc_vector none n m =
    let (granted, m') = alloc m in ((if granted then some (resize n []) else none), m')
realloc_vector (some xs) n m =
    let (granted, m') = realloc m in ((if granted then some (resize n xs) else none), m')

-- free of a `char**`, where NULL is ignored
unfoldable pub free_vector : Vector → Memory → Run Memory
free_vector none m = ok m
free_vector (some xs) m = free m

-- free of a `char*`, which must have been written
unfoldable pub free_slot : Slot → Memory → Run Memory
free_slot wild m = fault
free_slot null m = ok m
free_slot (str s) m = free m

-- the `realloc error` branch for the values: the keys shrink back
unfoldable pub undo_keys : MapData → Memory → Run State
unfolding realloc_vector free_vector
undo_keys d m =
    if d.count == 0
    then (do m' ← free_vector d.keys m; ok (record { map = record d { keys = none }; mem = m' }))
    else let (undone, m') = realloc_vector d.keys d.count m in
      elim undone [
        | none ↦ ok (record { map = d; mem = m' })
        | some ks ↦ ok (record { map = record d { keys = some ks }; mem = m' })
      ]

-- the second half of Map_IncreaseStorageKeysValues, once the keys have grown
unfoldable pub increase_values : MapData → Memory → Run (ℕ × State)
unfolding undo_keys write
increase_values d m =
    let (grown, m') = realloc_vector d.values (d.count + 1) m in
    elim grown [
      | none ↦ do s ← undo_keys d m'; ok (235, s)
      | some vs ↦ do
        ws ← write vs d.count null
        ok (0, record { map = record d { values = some ws; count = d.count + 1 }; mem = m' })
    ]

-- Map_IncreaseStorageKeysValues: 0, or the line of the failure
unfoldable pub increase_storage : State → Run (ℕ × State)
unfolding increase_values
increase_storage s =
    let (grown, m) = realloc_vector s.map.keys (s.map.count + 1) s.mem in
    elim grown [
      | none ↦ ok (207, record s { mem = m })
      | some ks ↦ do
        ws ← write ks s.map.count null
        increase_values (record (s.map) { keys = some ws }) m
    ]

abbrev pub kept : Vector → Vector → Vector
kept old none = old
kept old (some xs) = some xs

-- Map_DecreaseStorageKeysValues by its count; at 0, where no caller uses it, `count - 1` would wrap
unfoldable pub shrink_to : State → ℕ → Run State
unfolding realloc_vector free_vector
shrink_to s zero = fault
shrink_to s (suc zero) = do
  m ← free_vector s.map.keys s.mem
  m' ← free_vector s.map.values m
  ok (record { map = record { keys = none; values = none; count = 0; filter = none }; mem = m' })
shrink_to s (suc (suc n)) =
    let (undone_keys, m) = realloc_vector s.map.keys (suc n) s.mem in
    let (undone_values, m') = realloc_vector s.map.values (suc n) m in
    ok (record {
      map = record (s.map) {
        keys = kept s.map.keys undone_keys;
        values = kept s.map.values undone_values;
        count = suc n;
      };
      mem = m';
    })

unfoldable pub decrease_storage : State → Run State
unfolding shrink_to
decrease_storage s = shrink_to s s.map.count
