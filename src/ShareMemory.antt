-- ===== src/ShareMemory.antt =====
-- sky/src/sky_ipc_shm.c: objects of shared memory, and the list of them that a critical section guards.
-- What a call of the system returned is an argument; the calls made are logged, the latest in front.
pub mod Statics
pub mod Life
pub mod Resources
pub mod Cleanup
pub mod Acquire
pub mod Outcome
pub mod Publish
pub mod Release
mod Tests
use skysdk.Base.{
  ℕ, ◌+◌, ◌-◌, ◌%◌, ◌==◌, ltb, Bool, true, false, Option, none, some, List, [], ◌∷◌, Str, length,
  if◌then◌else◌, Run, ok, fault, ◌>>=◌,
}
use skysdk.Memory.{Memory, alloc, free}
use skysdk.SkyList.{Ptr, null, Heap, Store, update}
use skysdk.SkyList.Front.{push_back, create as create_list}
use skysdk.SkyList.Scan.{remove, destroy as destroy_list}
use skysdk.CriticalSection.{Ops, enter, leave, create as create_section, destroy as destroy_section}

-- MAP_FAILED, `(void *) -1`
abbrev pub map_failed : Ptr
map_failed = 0xffff_ffff_ffff_ffff

-- SKY_HANDLE_SHARE_MEM; `none` is the descriptor -1
pub record ShareMem : Type 0 where
  pub file : Option ℕ
  pub ptr : Ptr
  pub size : ℕ
  pub is_creator : Bool
  pub name : Str

-- the block as calloc gives it
abbrev pub blank : ShareMem
blank = record { file = some 0; ptr = null; size = 0; is_creator = false; name = [] }

-- the calls that take or give back something of the system
pub data Syscall : Type 0 where
  opened : (fd : ℕ) → Syscall
  closed : (fd : ℕ) → Syscall
  mapped : (ptr : Ptr) → (size : ℕ) → Syscall
  unmapped : (ptr : Ptr) → (size : ℕ) → Syscall
  linked : (name : Str) → Syscall
  unlinked : (name : Str) → Syscall

-- the two static variables, the structs that are listed, and the system
pub record World (M : Type 0) : Type 0 where
  pub registry : Store
  pub section : Option M
  pub structs : Ptr → Option ShareMem
  pub memory : Memory
  pub calls : List Syscall

-- What the calls return: the name that sky_str_printf prints (`none` for its failure), the descriptor,
-- the size that ftruncate sets or fstat reads, the address of the mapping, and the addresses that
-- sky_mem_alloc gives to the struct and to an item of the list.
pub record Answers : Type 0 where
  pub printed : Option Str
  pub descriptor : Option ℕ
  pub length_known : Option ℕ
  pub mapping : Option Ptr
  pub place : Ptr
  pub item : Ptr

abbrev pub log : {M : Type 0} → Syscall → World M → World M
log c w = record w { calls = c ∷ w.calls }

-- sky_share_memory_create from sky_str_printf to the last assignment: whether it got there
unfoldable pub acquire_new : {M : Type 0} → ℕ → Answers → World M → Bool × ShareMem × World M
acquire_new size a w = elim a.printed [
  | none ↦ (false, blank, w)
  | some name ↦ elim a.descriptor [
    | none ↦ (false, record blank { file = none; name = name }, w)
    | some fd ↦ elim a.length_known [
      | none ↦ (
        false,
        record blank { file = some fd; name = name },
        log (linked name) (log (opened fd) w),
      )
      | some len ↦ elim a.mapping [
        | none ↦ (
          false,
          record blank { file = some fd; name = name; ptr = map_failed },
          log (linked name) (log (opened fd) w),
        )
        | some ptr ↦ (
          true,
          record { file = some fd; ptr = ptr; size = size; is_creator = true; name = name },
          log (mapped ptr size) (log (linked name) (log (opened fd) w)),
        )
      ]
    ]
  ]
]

-- the same part of sky_share_memory_open; the size is cut to a uint32_t
unfoldable pub acquire_old : {M : Type 0} → Answers → World M → Bool × ShareMem × World M
acquire_old a w = elim a.printed [
  | none ↦ (false, blank, w)
  | some name ↦ elim a.descriptor [
    | none ↦ (false, record blank { file = none; name = name }, w)
    | some fd ↦ elim a.length_known [
      | none ↦ (false, record blank { file = some fd; name = name }, log (opened fd) w)
      | some len ↦ elim a.mapping [
        | none ↦ (
          false,
          record blank { file = some fd; name = name; ptr = map_failed },
          log (opened fd) w,
        )
        | some ptr ↦ (
          true,
          record {
            file = some fd;
            ptr = ptr;
            size = len % 0x1_0000_0000;
            is_creator = false;
            name = name;
          },
          log (mapped ptr len) (log (opened fd) w),
        )
      ]
    ]
  ]
]

-- behind the loop of both functions, with a struct: what was taken is given back
unfoldable pub give_up : {M : Type 0} → ShareMem → World M → Run (World M)
give_up {M} p w =
    let w₁ = if p.ptr == map_failed then w else log (unmapped p.ptr p.size) w in
    let w₂ : World M = elim p.file [
      | none ↦ w₁
      | some fd ↦ log (unlinked p.name) (log (closed fd) w₁)
    ] in
    free w₂.memory >>= λ m. ok (record w₂ { memory = m })

module _ {M : Type 0} (ops : Ops M) (thread : ℕ) where
  -- behind the registration: the handle, or NULL if the list did not take it
  unfoldable pub settle : ShareMem → Answers → World M → Bool → Run (Option (Ptr × World M))
  settle p a w true = ok (some (a.place, record w { structs = update w.structs a.place (some p) }))
  settle p a w false = give_up p w >>= λ w'. ok (some (null, w'))

  -- the registration at the end of the loop of both functions; `none` where the thread waits at the
  -- critical section
  unfoldable pub publish : ShareMem → Answers → World M → Run (Option (Ptr × World M))
  publish p a w = elim (enter ops thread w.section) [
    | none ↦ ok none
    | some inside ↦ do
      (pushed, registry) ← push_back w.registry a.item a.place
      settle p a (record w { registry = registry; section = leave ops thread inside }) pushed
  ]

  -- whether the loop of both functions gets to the registration, and what follows
  unfoldable pub conclude : Answers → Bool × ShareMem × World M → Run (Option (Ptr × World M))
  conclude a (true, p, w) = publish p a w
  conclude a (false, p, w) = give_up p w >>= λ w'. ok (some (null, w'))

  -- behind the checks of the name
  unfoldable pub create_named : ℕ → Answers → World M → Run (Option (Ptr × World M))
  create_named size a w =
      let (granted, m) = alloc w.memory in
      let w' = record w { memory = m } in
      if granted then conclude a (acquire_new size a w') else ok (some (null, w'))

  unfoldable pub open_named : Answers → World M → Run (Option (Ptr × World M))
  open_named a w =
      let (granted, m) = alloc w.memory in
      let w' = record w { memory = m } in
      if granted then conclude a (acquire_old a w') else ok (some (null, w'))

  module _ (name_max : ℕ) where
    -- sky_share_memory_create
    unfoldable pub create : Option Str → ℕ → Answers → World M → Run (Option (Ptr × World M))
    create none size a w = ok (some (null, w))
    create (some name) size a w =
        if ltb (name_max - 1) (length name) then ok (some (null, w)) else create_named size a w

    -- sky_share_memory_open
    unfoldable pub open_existing : Option Str → Answers → World M → Run (Option (Ptr × World M))
    open_existing none a w = ok (some (null, w))
    open_existing (some name) a w =
        if ltb (name_max - 1) (length name) then ok (some (null, w)) else open_named a w

-- the end of sky_share_memory_destroy, on a struct that was listed
unfoldable pub release : {M : Type 0} → Ptr → ShareMem → World M → Run (World M)
release {M} p sm w =
    let w₁ = log (unmapped sm.ptr sm.size) w in
    let w₂ : World M = elim sm.file [ none ↦ w₁ | some fd ↦ log (closed fd) w₁ ] in
    let w₃ = if sm.is_creator then log (unlinked sm.name) w₂ else w₂ in
    free w₃.memory >>= λ m. ok (record w₃ { memory = m; structs = update w.structs p none })

-- sky_share_memory_destroy behind the critical section
unfoldable pub destroy_removed : {M : Type 0} → Ptr → World M → Run (Option (Bool × World M))
destroy_removed p w = if p == null then ok (some (false, w)) else (elim (w.structs p) [
  | none ↦ fault
  | some sm ↦ release p sm w >>= λ w'. ok (some (true, w'))
])

-- sky_share_memory_destroy
unfoldable pub destroy : {M : Type 0} → Ops M → ℕ → Ptr → World M → Run (Option (Bool × World M))
destroy ops thread share_mem w = elim (enter ops thread w.section) [
  | none ↦ ok none
  | some inside ↦ do
    (p, registry) ← remove w.registry share_mem
    destroy_removed p (record w { registry = registry; section = leave ops thread inside })
]

-- sky_share_memory_get_buffer and sky_share_memory_size, through the handle
unfoldable pub get_buffer : {M : Type 0} → Ptr → World M → Run Ptr
get_buffer share_mem w = elim (w.structs share_mem) [ none ↦ fault | some p ↦ ok p.ptr ]

unfoldable pub size_of : {M : Type 0} → Ptr → World M → Run ℕ
size_of share_mem w = elim (w.structs share_mem) [ none ↦ fault | some p ↦ ok p.size ]
