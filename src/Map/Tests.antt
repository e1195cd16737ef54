-- ===== src/Map/Tests.antt =====
-- Runs of the operations of sky/src/sky_map.c on a map of two entries.
use skysdk.Base.{ℕ, ◌≡◌, List, refl, Bool, true, none, some, [], ◌∷◌, Str, str_eq, ok, Returns}
use skysdk.Memory.{Memory}
use skysdk.Map.{str, MapData, map_ok}
use skysdk.Map.Api.{add, addorupdate, delete, containskey, containsvalue, getvaluefromkey}
use skysdk.Map.Lifetime.{clone}
use skysdk.Map.Rep.{Entries, IsMap, contains, lookup, key_list, value_list}
use skysdk.Map.Add.{AddSpec, add_lem}
use skysdk.Map.Replace.{AddOrUpdateSpec, addorupdate_lem}
use skysdk.Map.Delete.{DeleteSpec, delete_lem}
use skysdk.Map.Read.{read_lem}
use skysdk.Map.Calls.{
  Call, add_call, update_call, delete_call, History, perform_all, lifetime, answers,
}
use skysdk.Map.Histories.{lifetime_lem, perform_all-answers}
use skysdk.Map.Clone.{CloneSpec, clone_lem}

abbrev all_granted : ℕ → Bool
all_granted = λ n. true

abbrev red : Str
red = 114 ∷ []

abbrev green : Str
green = 103 ∷ []

abbrev blue : Str
blue = 98 ∷ []

abbrev two_entries : Entries
two_entries = (red, green) ∷ (green, blue) ∷ []

abbrev two : MapData
two = record {
  keys = some (str red ∷ str green ∷ []);
  values = some (str green ∷ str blue ∷ []);
  count = 2;
  filter = none;
}

abbrev memory : Memory
memory = record { grants = all_granted; requests = 5; live = 10 }

two-IsMap : IsMap all_granted 3 two_entries two memory
unfolding contains str_eq
two-IsMap = record {
  valid = record {
    policy = refl;
    rep = record { counted = refl; keys = ([], refl); values = ([], refl) };
    blocks = refl;
  };
  distinct = (refl, (refl, tt));
}

add_lem_example :
    Returns
      (AddSpec all_granted 3 two_entries blue red two memory)
      (add (some two) (some blue) (some red) memory)
add_lem_example = add_lem all_granted 3 two_entries blue red two memory two-IsMap

addorupdate_lem_example :
    Returns
      (AddOrUpdateSpec all_granted 3 two_entries green red two memory)
      (addorupdate (some two) (some green) (some red) memory)
addorupdate_lem_example = addorupdate_lem all_granted 3 two_entries green red two memory two-IsMap

delete_lem_example :
    Returns
      (DeleteSpec all_granted 3 two_entries red two memory)
      (delete (some two) (some red) memory)
delete_lem_example = delete_lem all_granted 3 two_entries red two memory two-IsMap

read_lem_example :
    (getvaluefromkey (some two) (some green) ≡ ok (lookup green two_entries))
    × (containskey (some two) (some green) true
        ≡ ok (map_ok, some (contains green (key_list two_entries))))
    × (containsvalue (some two) (some green) true
        ≡ ok (map_ok, some (contains green (value_list two_entries))))
read_lem_example = read_lem all_granted 3 two_entries green two memory two-IsMap

clone_lem_example : Returns (CloneSpec all_granted 3 two_entries two) (clone (some two) memory)
clone_lem_example = clone_lem all_granted 3 two_entries two memory two-IsMap

abbrev calls : List Call
calls = add_call blue red ∷ update_call green red ∷ delete_call red ∷ add_call green red ∷ []

lifetime_lem_example :
    (m' : Memory) × (lifetime none calls memory ≡ ok m') × (m'.live ≡ memory.live)
lifetime_lem_example = lifetime_lem none calls memory

perform_all-answers_example :
    Returns
      (λ (h : History).
        (h.0 ≡ (answers calls two_entries).0)
        × IsMap all_granted 3 (answers calls two_entries).1 h.1 h.2)
      (perform_all calls two memory)
perform_all-answers_example =
    perform_all-answers all_granted (λ n. refl) 3 calls two_entries two memory two-IsMap refl
