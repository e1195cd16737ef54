-- ===== src/Dll/Tests.antt =====
-- A library that is opened, asked for a function, and closed (sky/src/sky_dll.c).
use skysdk.Base.{ℕ, true, Option, some, [], ◌∷◌, Str, Returns}
use skysdk.Dll.{World, load}
use skysdk.Dll.Lifetime.{Loaded, load_lem}

abbrev world : World
world = record { memory = record { grants = λ n. true; requests = 0; live = 2 }; calls = [] }

abbrev find : Option ℕ → Str → Option ℕ
find handle name = handle

load_lem_example : Returns (Loaded find (some 3) (102 ∷ []) world) (load (some 3) world)
load_lem_example = load_lem find (some 3) (102 ∷ []) world
