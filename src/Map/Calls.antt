-- ===== src/Map/Calls.antt =====
-- Histories of calls on one map (sky/src/sky_map.c), and what the abstract map makes of them.
use skysdk.Base.{Option, none, some, List, [], ◌∷◌, ◌++◌, Str, if◌then◌else◌, Run, ok, fault, ◌>>=◌}
use skysdk.Memory.{Memory}
use skysdk.Map.{Filter, MapData, MapResult, map_ok, map_keyexists, map_keynotfound}
use skysdk.Map.Api.{Outcome, create, add, addorupdate, delete}
use skysdk.Map.Lifetime.{destroy}
use skysdk.Map.Rep.{Entries, key_list, contains, update, erase}

-- a call of one of the operations that change a map
pub data Call : Type 0 where
  add_call : (key value : Str) → Call
  update_call : (key value : Str) → Call
  delete_call : (key : Str) → Call

abbrev pub perform : Call → MapData → Memory → Run Outcome
perform (add_call key value) d m = add (some d) (some key) (some value) m
perform (update_call key value) d m = addorupdate (some d) (some key) (some value) m
perform (delete_call key) d m = delete (some d) (some key) m

-- the results of the calls, and the map and memory behind them
abbrev pub History : Type 0
History = List MapResult × MapData × Memory

abbrev pub follow :
    MapResult → Option MapData → Memory → (MapData → Memory → Run History) → Run History
follow r none m later = fault
follow r (some d) m later = later d m >>= λ h. ok (r ∷ h.0, h.1, h.2)

unfoldable pub perform_all : List Call → MapData → Memory → Run History
perform_all [] d m = ok ([], d, m)
perform_all (c ∷ cs) d m = perform c d m >>= λ o. follow o.0 o.1 o.2 (perform_all cs)

-- The life of a map: its creation, the calls, and its end.
unfoldable pub lifetime : Option Filter → List Call → Memory → Run Memory
unfolding perform_all
lifetime f cs m = elim (create f m).0 [
  | none ↦ ok (create f m).1
  | some d ↦ perform_all cs d (create f m).1 >>= λ h. destroy (some h.1) h.2
]

-- the abstract map's answer to a call
unfoldable pub answer : Call → Entries → MapResult × Entries
answer (add_call key value) es =
    if contains key (key_list es) then (map_keyexists, es) else (map_ok, es ++ (key, value) ∷ [])
answer (update_call key value) es =
    (map_ok, if contains key (key_list es) then update key value es else es ++ (key, value) ∷ [])
answer (delete_call key) es =
    if contains key (key_list es) then (map_ok, erase key es) else (map_keynotfound, es)

unfoldable pub answers : List Call → Entries → List MapResult × Entries
unfolding answer
answers [] es = ([], es)
answers (c ∷ cs) es = let a = answer c es in let rest = answers cs a.1 in (a.0 ∷ rest.0, rest.1)
