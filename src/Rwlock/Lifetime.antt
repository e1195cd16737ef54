-- ===== src/Rwlock/Lifetime.antt =====
-- sky_rwlock_create, sky_rwlock_open and sky_rwlock_destroy (sky/src/sky_rwlock.c).
use skysdk.Base.{
  ℕ, ◌+◌, ◌≡◌, ◌⊎◌, refl, inl, inr, Bool, false, Bool-cases, Option-cases, Option, none, some, List,
  ◌∷◌, Str, ok, Returns, returns, arith,
}
use skysdk.Memory.{Memory, more, asked, free, alloc_lem, refusal, free_lem}
use skysdk.Rwlock.{
  Rwlock, Syscall, World, created, opened, closed, removed, initialised, destroyed, create_file,
  create, open_file, destroy,
}

-- some request for memory is refused
abbrev pub Denied : World → Type 0
Denied w = (n : ℕ) × (w.memory.grants n ≡ false)

-- The calls that made a lock, and those that end it.
abbrev pub Ends : World → Rwlock → World → (made ended : List Syscall) → Type 0
Ends w p w' made ended =
    (w'.calls ≡ made)
    × ((w'' : World) × (destroy (some p) w' ≡ ok w'')
        × (w''.memory.live ≡ w.memory.live)
        × (w''.calls ≡ ended))

-- Nothing is left where there is no lock.
abbrev pub Undone : World → World → Type 0
Undone w w' = (w'.memory.live ≡ w.memory.live) × (w'.calls ≡ w.calls)

abbrev pub Made :
    (name printed : Option Str)
    → (fd : Option ℕ) → (initialises : Bool) → World
    → Option Rwlock × World
    → Type 0
Made none printed fd initialises w (none, w') = Undone w w' × (Denied w ⊎ (initialises ≡ false))
Made (some text) printed fd initialises w (none, w') =
    Undone w w' × (Denied w ⊎ (printed ≡ none) ⊎ (fd ≡ none))
Made none printed fd initialises w (some p, w') =
    (p.fd_rwlock ≡ none) × Ends w p w' (initialised ∷ w.calls) (destroyed ∷ initialised ∷ w.calls)
Made (some text) printed fd initialises w (some p, w') =
    (name : Str) × (n : ℕ) × (printed ≡ some name)
    × (fd ≡ some n)
    × (p.fd_rwlock ≡ some n)
    × Ends w p w' (created name n ∷ w.calls) (removed name ∷ closed n ∷ created name n ∷ w.calls)

-- the worlds behind the last free
abbrev left_one : World → List Syscall → World
left_one w cs = record { memory = record (more w.memory) { live = w.memory.live }; calls = cs }

abbrev left_two : World → List Syscall → World
left_two w cs = record {
  memory = record (more (more w.memory)) { live = w.memory.live };
  calls = cs;
}

-- the block of a struct is given back, and that of a name before it
freed_one : (m : Memory) → free (more m) ≡ ok (record (more m) { live = m.live })
freed_one m = free_lem (more m) m.live (omega arith)

freed_asked : (m : Memory) → free (asked (more m)) ≡ ok (record (asked (more m)) { live = m.live })
freed_asked m = free_lem (asked (more m)) m.live (omega arith)

freed_two : (m : Memory) → free (more (more m)) ≡ ok (record (more (more m)) { live = m.live + 1 })
freed_two m = free_lem (more (more m)) (m.live + 1) (omega arith)

freed_last :
    (m : Memory)
    → free (record (more (more m)) { live = m.live + 1 })
      ≡ ok (record (more (more m)) { live = m.live })
freed_last m = free_lem (record (more (more m)) { live = m.live + 1 }) m.live (omega arith)

-- sky_rwlock_create returns. Either it gives NULL, because a request for memory is refused or a
-- call fails, with as many live blocks as before and no file or lock made. Or it gives a lock,
-- with a name in a new file and otherwise of pthreads, and sky_rwlock_destroy of it leaves as many
-- live blocks as before, after closing and removing the file or destroying the lock of pthreads.
rwlock_create_lem :
    (name printed : Option Str) (fd : Option ℕ) (initialises : Bool) (w : World)
    → Returns (Made name printed fd initialises w) (create name printed fd initialises w)
unfolding create create_file destroy
rwlock_create_lem none printed fd initialises w = elim (alloc_lem w.memory) [
  | inr denied ↦
      rw denied (returns ((refl, refl), inl (w.memory.requests, refusal w.memory denied)))
  | inl granted ↦ elim (Bool-cases initialises) [
    | inl starts ↦
        rw (granted, starts)
          (returns (
            refl,
            (
              refl,
              (
                left_one w (destroyed ∷ initialised ∷ w.calls),
                rw (freed_one w.memory) refl,
                refl,
                refl,
              ),
            ),
          ))
    | inr fails ↦ rw (granted, fails, freed_one w.memory) (returns ((refl, refl), inr refl))
  ]
]
rwlock_create_lem (some text) printed fd initialises w = elim (alloc_lem w.memory) [
  | inr denied ↦
      rw denied (returns ((refl, refl), inl (w.memory.requests, refusal w.memory denied)))
  | inl granted ↦ elim (alloc_lem (more w.memory)) [
    | inr denied ↦
        rw (granted, denied, freed_asked w.memory)
          (returns ((refl, refl), inl (w.memory.requests + 1, refusal (more w.memory) denied)))
    | inl named ↦ elim (Option-cases printed) [
      | inl unprinted ↦
          rw (granted, named, unprinted, granted, named, freed_two w.memory, freed_last w.memory)
            (returns ((refl, refl), inr (inl refl)))
      | inr (path, prints) ↦ elim (Option-cases fd) [
        | inl closed_door ↦
            rw
              (
                granted,
                named,
                prints,
                closed_door,
                granted,
                named,
                freed_two w.memory,
                freed_last w.memory,
              )
              (returns ((refl, refl), inr (inr refl)))
        | inr (n, opens) ↦
            rw (granted, named, prints, opens, granted, named)
              (returns (
                path,
                n,
                refl,
                refl,
                refl,
                (
                  refl,
                  (
                    left_two w (removed path ∷ closed n ∷ created path n ∷ w.calls),
                    rw (freed_two w.memory, freed_last w.memory) refl,
                    refl,
                    refl,
                  ),
                ),
              ))
      ]
    ]
  ]
]

-- What sky_rwlock_open comes to, and how the lock ends.
abbrev pub Opened :
    (printed : Option Str) → (fd : Option ℕ) → World → Option Rwlock × World → Type 0
Opened printed fd w (none, w') = Undone w w' × (Denied w ⊎ (printed ≡ none) ⊎ (fd ≡ none))
Opened printed fd w (some p, w') =
    (name : Str) × (n : ℕ) × (printed ≡ some name)
    × (fd ≡ some n)
    × (p.fd_rwlock ≡ some n)
    × Ends w p w' (opened name n ∷ w.calls) (closed n ∷ opened name n ∷ w.calls)

-- For a name that is not empty, sky_rwlock_open returns. Either it gives NULL, because a request
-- for memory is refused or a call fails, with as many live blocks as before and nothing opened. Or
-- it gives a lock in the file, and sky_rwlock_destroy of it leaves as many live blocks as before,
-- after closing the file, which stays.
rwlock_open_lem :
    (c : ℕ) (cs : Str) (printed : Option Str) (fd : Option ℕ) (w : World)
    → Returns (Opened printed fd w) (open_file (some (c ∷ cs)) printed fd w)
unfolding open_file destroy
rwlock_open_lem c cs none fd w = returns ((refl, refl), inr (inl refl))
rwlock_open_lem c cs (some path) fd w = elim (alloc_lem w.memory) [
  | inr denied ↦
      rw denied (returns ((refl, refl), inl (w.memory.requests, refusal w.memory denied)))
  | inl granted ↦ elim (Option-cases fd) [
    | inl closed_door ↦
        rw (granted, closed_door, granted, freed_one w.memory)
          (returns ((refl, refl), inr (inr refl)))
    | inr (n, opens) ↦
        rw (granted, opens, granted)
          (returns (
            path,
            n,
            refl,
            refl,
            refl,
            (
              refl,
              (
                left_one w (closed n ∷ opened path n ∷ w.calls),
                rw (freed_one w.memory) refl,
                refl,
                refl,
              ),
            ),
          ))
  ]
]

-- sky_rwlock_create, and sky_rwlock_open for a name that is not empty, return. Either they give
-- NULL, because a request for memory is refused or a call fails, with as many live blocks as
-- before and no file or lock made or opened. Or they give a lock, sky_rwlock_create with a name in
-- a new file and otherwise of pthreads, sky_rwlock_open in the file; and sky_rwlock_destroy of it
-- leaves as many live blocks as before, after closing and, if it was created, removing the file,
-- or destroying the lock of pthreads.
pub rwlock_made_lem :
    (name printed : Option Str) (c : ℕ) (cs : Str) (fd : Option ℕ) (initialises : Bool) (w : World)
    → Returns (Made name printed fd initialises w) (create name printed fd initialises w)
      × Returns (Opened printed fd w) (open_file (some (c ∷ cs)) printed fd w)
rwlock_made_lem name printed c cs fd initialises w =
    (rwlock_create_lem name printed fd initialises w, rwlock_open_lem c cs printed fd w)
