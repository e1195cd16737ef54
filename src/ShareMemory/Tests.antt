-- ===== src/ShareMemory/Tests.antt =====
-- Runs of sky/src/sky_ipc_shm.c with a list of one object, and a mutex that counts its holds.
use skysdk.Base.{
  ℕ, ◌+◌, ◌-◌, ◌<◌, ◌==◌, ◌≡◌, refl, ltb, true, false, none, some, [], ◌∷◌, if◌then◌else◌, Returns,
  arith,
}
use skysdk.SkyList.{null, Heap, Store}
use skysdk.SkyList.Rep.{IsList}
use skysdk.CriticalSection.{has, Ops, enter, leave}
use skysdk.CriticalSection.Calls.{some-injective}
use skysdk.ShareMemory.{ShareMem, World, Answers, create, open_existing, destroy}
use skysdk.ShareMemory.Outcome.{Opened, Why}
use skysdk.ShareMemory.Publish.{share_memory_made_lem}
use skysdk.Memory.{Memory}
use skysdk.ShareMemory.Statics.{Statics, init, uninit}
use skysdk.ShareMemory.Life.{Begun, Over, statics_lem}
use skysdk.ShareMemory.Release.{Released, share_memory_destroy_lem}

abbrev counters : Ops ℕ
counters = record {
  init = λ k. 0;
  lock = λ t m. has (m + 1);
  trylock = λ t m. some (m + 1);
  unlock = λ t m. m - 1;
  held = λ m t. m;
  limit = 100;
}

-- 1 is the head, 2 the tail, 3 an item with the struct 10
abbrev items : Heap
items = record {
  alive = λ p. if p == 0 then false else ltb p 4;
  item = λ p. if p == 3 then 10 else null;
  next = λ p. if p == 1 then 3 else if p == 3 then 2 else null;
  prev = λ p. if p == 2 then 3 else if p == 3 then 1 else null;
}

abbrev one : Store
one = record {
  list = record { head = 1; tail = 2; prealloc = null; count = 1; max_size = 1000 };
  heap = items;
}

one-IsList : IsList one (3 ∷ []) []
one-IsList = record {
  linked = (refl, refl, refl, (refl, refl));
  spare = refl;
  distinct = (refl, (refl, (refl, tt)));
  head_alive = refl;
  tail_alive = refl;
  null_dead = refl;
  tail_end = refl;
  counted = refl;
  bounded = omega arith;
}

abbrev shared : ShareMem
shared = record { file = some 7; ptr = 4096; size = 64; is_creator = true; name = 47 ∷ 97 ∷ [] }

abbrev world : World ℕ
world = record {
  registry = one;
  section = some 0;
  structs = λ p. if p == 10 then some shared else none;
  memory = record { grants = λ n. true; requests = 2; live = 5 };
  calls = [];
}

abbrev answers : Answers
answers = record {
  printed = some (47 ∷ 98 ∷ []);
  descriptor = some 8;
  length_known = some 64;
  mapping = some 8192;
  place = 20;
  item = 5;
}

small : (len : ℕ) → answers.length_known ≡ some len → len < 0x1_0000_0000
small len e = rw (← some-injective e) (omega arith)

share_memory_made_lem_example :
    Returns
      (Opened true answers world (3 ∷ []) (47 ∷ 98 ∷ []) (Why 64 answers world [] (98 ∷ [])))
      (create counters 1 64 (some (98 ∷ [])) 64 answers world)
    × Returns
        (Opened false answers world (3 ∷ []) (47 ∷ 98 ∷ []) (Why 64 answers world [] (98 ∷ [])))
        (open_existing counters 1 64 (some (98 ∷ [])) answers world)
unfolding enter leave
share_memory_made_lem_example =
    share_memory_made_lem counters 1 64 answers world (3 ∷ []) [] one-IsList refl (some 1) refl refl
      (98 ∷ []) (47 ∷ 98 ∷ []) refl 64 small

share_memory_destroy_lem_example :
    Returns (Released world 10 shared 7 4 (some (10, []))) (destroy counters 1 10 world)
unfolding enter leave
share_memory_destroy_lem_example =
    share_memory_destroy_lem counters 1 world (3 ∷ []) [] one-IsList (some 1) refl refl 10 refl
      shared 7 4 (λ vs e. (refl, refl, refl))

abbrev no_items : Heap
no_items = record { alive = λ p. false; item = λ p. null; next = λ p. null; prev = λ p. null }

-- the memory for a list and no more
abbrev scarce : Memory
scarce = record { grants = λ n. false; requests = 1; live = 3 }

abbrev idle : Statics ℕ
idle = record { share_mem_list = none; share_mem_list_cs = none; memory = scarce }

statics_lem_example :
    Begun counters 9 idle (init counters no_items 9 1 2 idle)
    × Returns (Over no_items idle) (uninit 1 (init counters no_items 9 1 2 idle).1)
statics_lem_example =
    statics_lem counters no_items 9 1 2 1 scarce refl refl (omega arith) refl refl refl refl
