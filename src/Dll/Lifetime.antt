-- ===== src/Dll/Lifetime.antt =====
-- What sky_dll_load takes, sky_dll_close gives back (sky/src/sky_dll.c).
use skysdk.Base.{
  ℕ, ◌≡◌, ◌⊎◌, refl, inl, inr, false, Option, none, some, ◌∷◌, Str, ok, Returns, returns,
  Option-cases, arith,
}
use skysdk.Memory.{Memory, more, alloc_lem, refusal, free, free_lem}
use skysdk.Dll.{Dll, World, loaded, unloaded, load, close, get_function}

-- Where there is no handle, why, and nothing is left. Otherwise sky_dll_get_function asks the library
-- that was opened, and sky_dll_close closes it and leaves the blocks of before.
abbrev pub Loaded :
    (dlsym : Option ℕ → Str → Option ℕ) → Option ℕ → Str → World → Option Dll × World → Type 0
Loaded dlsym dlopened name w (none, w') =
    (w'.memory.live ≡ w.memory.live)
    × (w'.calls ≡ w.calls)
    × ((w.memory.grants w.memory.requests ≡ false) ⊎ (dlopened ≡ none))
Loaded dlsym dlopened name w (some d, w') =
    (h : ℕ) × (dlopened ≡ some h)
    × (get_function dlsym (some d) name ≡ dlsym (some h) name)
    × ((w'' : World) × (close (some d) w' ≡ ok w'')
        × (w''.memory.live ≡ w.memory.live)
        × (w''.calls ≡ unloaded h ∷ loaded h ∷ w.calls))

freed : (m : Memory) → free (more m) ≡ ok (record (more m) { live = m.live })
freed m = free_lem (more m) m.live (omega arith)

-- sky_dll_load returns. Either it gives SKY_INVALID_HANDLE, because the request for memory is
-- refused or dlopen fails, and leaves no block and no library behind. Or the handle is for the
-- library that dlopen gave: sky_dll_get_function asks dlsym about that library, and sky_dll_close
-- then closes it once and leaves as many live blocks as before the load.
pub load_lem :
    (dlsym : Option ℕ → Str → Option ℕ) (dlopened : Option ℕ) (name : Str) (w : World)
    → Returns (Loaded dlsym dlopened name w) (load dlopened w)
unfolding load close get_function
load_lem dlsym dlopened name w = elim (alloc_lem w.memory) [
  | inr denied ↦ rw denied (returns (refl, refl, inl (refusal w.memory denied)))
  | inl granted ↦ elim (Option-cases dlopened) [
    | inl fails ↦ rw (granted, fails, granted, freed w.memory) (returns (refl, refl, inr refl))
    | inr (h, opens) ↦
        rw (granted, opens, granted)
          (returns (
            h,
            refl,
            refl,
            (
              record {
                memory = record (more w.memory) { live = w.memory.live };
                calls = unloaded h ∷ loaded h ∷ w.calls;
              },
              rw (freed w.memory) refl,
              refl,
              refl,
            ),
          ))
  ]
]
