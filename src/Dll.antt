-- ===== src/Dll.antt =====
-- sky/src/sky_dll.c: handles to dynamic libraries. dlsym is a parameter, what dlopen returned is an
-- argument, and the calls of dlopen and dlclose are logged, the latest in front.
pub mod Lifetime
mod Tests
use skysdk.Base.{
  Bool, true, false, ℕ, Option, none, some, List, [], ◌∷◌, Str, if◌then◌else◌, Run, ok, ◌>>=◌,
}
use skysdk.Memory.{Memory, alloc, free}

-- the calls that take or give back a library
pub data Syscall : Type 0 where
  loaded : (dll_handle : ℕ) → Syscall
  unloaded : (dll_handle : ℕ) → Syscall

-- SKY_HANDLE_DLL; `none` is NULL
pub record Dll : Type 0 where
  pub dll_handle : Option ℕ

pub record World : Type 0 where
  pub memory : Memory
  pub calls : List Syscall

-- sky_dll_load
unfoldable pub load : (dlopened : Option ℕ) → World → Run (Option Dll × World)
load dlopened w =
    let (granted, m) = alloc w.memory in
    if granted
    then elim dlopened [
      | none ↦ free m >>= λ m'. ok (none, record w { memory = m' })
      | some h ↦
          ok (
            some (record { dll_handle = some h }),
            record { memory = m; calls = loaded h ∷ w.calls },
          )
    ]
    else ok (none, record w { memory = m })

-- sky_dll_close
unfoldable pub close : Option Dll → World → Run World
close none w = ok w
close (some d) w = free w.memory >>= λ m. ok (elim d.dll_handle [
  | none ↦ record w { memory = m }
  | some h ↦ record { memory = m; calls = unloaded h ∷ w.calls }
])

-- sky_dll_get_function
unfoldable pub get_function :
    (dlsym : Option ℕ → Str → Option ℕ) → Option Dll → (func_name : Str) → Option ℕ
get_function dlsym none func_name = none
get_function dlsym (some d) func_name = dlsym d.dll_handle func_name
