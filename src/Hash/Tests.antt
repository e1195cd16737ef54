-- ===== src/Hash/Tests.antt =====
-- The life of a hash (sky/src/sky_hash.c) over an association list in the place of the
-- table of the C library.
use skysdk.Base.{ℕ, true, Option, none, some, List, [], ◌∷◌, Str, str_eq, if◌then◌else◌}
use skysdk.Memory.{Memory}
use skysdk.Hash.{Ops}
use skysdk.Hash.Histories.{Pair}

abbrev Pairs : Type 0
Pairs = List (Str × ℕ)

abbrev search : Pairs → Str → Option ℕ
search [] k = none
search ((j, v) ∷ t) k = if str_eq j k then some v else search t k

abbrev pairs : Ops Pairs
pairs = record {
  hcreate = λ n. some [];
  search = search;
  enter = λ t k v. some ((k, v) ∷ t);
  assign = λ t k v. (k, v) ∷ t;
}

abbrev memory : Memory
memory = record { grants = λ n. true; requests = 3; live = 5 }

-- "a" twice, and an empty key
abbrev insertions : List Pair
insertions = (97 ∷ [], 9) ∷ ([], 1) ∷ (97 ∷ [], 7) ∷ []
