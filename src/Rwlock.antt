-- ===== src/Rwlock.antt =====
-- sky/src/sky_rwlock.c: a lock in a file, or one of pthreads. What a call of the system returned is an
-- argument; the calls made are logged, the latest in front.
pub mod Lifetime
pub mod Waiting
pub mod Holders
pub mod Asked
pub mod Exclusion
mod Tests
use skysdk.Base.{
  ℕ, zero, suc, ◌+◌, ◌-◌, ◌==◌, ltb, Bool, true, false, Option, none, some, List, [], ◌∷◌, Str,
  length, if◌then◌else◌, Run, ok, fault, ◌>>=◌,
}
use skysdk.Memory.{Memory, alloc, free}
use skysdk.Sys.{Timespec, Timeval, systick_get, systick_elapsed, abstime_after_msec}

-- SKY_INFINITE
abbrev pub infinite : ℕ
infinite = 0xffff_ffff

-- SKY_HANDLE_RWLOCK; the descriptor `none` is -1, the name `none` is NULL
pub record Rwlock : Type 0 where
  pub fd_rwlock : Option ℕ
  pub file_name : Option Str

pub data Mode : Type 0 where
  shared : Mode
  exclusive : Mode

-- until when a call of pthreads waits
pub data Wait : Type 0 where
  forever : Wait
  never : Wait
  until : (ts : Timespec) → Wait

pub data Syscall : Type 0 where
  created : (name : Str) → (fd : ℕ) → Syscall
  opened : (name : Str) → (fd : ℕ) → Syscall
  closed : (fd : ℕ) → Syscall
  removed : (name : Str) → Syscall
  initialised : Syscall
  destroyed : Syscall
  flocked : (mode : Mode) → (blocking : Bool) → (fd : ℕ) → Syscall
  unflocked : (fd : ℕ) → Syscall
  locked : (mode : Mode) → (wait : Wait) → Syscall
  unlocked : Syscall
  slept : (milliseconds : ℕ) → Syscall

pub record World : Type 0 where
  pub memory : Memory
  pub calls : List Syscall

abbrev pub log : Syscall → World → World
log c w = record w { calls = c ∷ w.calls }

-- whether sky_mem_alloc gave a block
abbrev pub request : World → Bool × World
request w = let (granted, m) = alloc w.memory in (granted, record w { memory = m })

-- SKY_MEM_SAFE_FREE
abbrev pub give_back : World → Run World
give_back w = free w.memory >>= λ m. ok (record w { memory = m })

-- sky_rwlock_create with a name; `printed` is what sky_str_printf makes of it, `none` for its failure,
-- and `fd` what open gives
unfoldable pub create_file :
    (printed : Option Str) → (fd : Option ℕ) → World → Run (Option Rwlock × World)
create_file printed fd w =
    let (named, w₁) = request w in
    if named
    then (elim printed [
      | none ↦ do w₂ ← give_back w₁; w₃ ← give_back w₂; ok (none, w₃)
      | some name ↦ elim fd [
        | none ↦ do w₂ ← give_back w₁; w₃ ← give_back w₂; ok (none, w₃)
        | some n ↦
            ok
              (some (record { fd_rwlock = some n; file_name = some name }), log (created name n) w₁)
      ]
    ])
    else (do w₂ ← give_back w₁; ok (none, w₂))

-- sky_rwlock_create; `initialises` is whether pthread_rwlock_init succeeds
unfoldable pub create :
    (name : Option Str)
    → (printed : Option Str) → (fd : Option ℕ) → (initialises : Bool) → World
    → Run (Option Rwlock × World)
create name printed fd initialises w =
    let (granted, w₁) = request w in
    if granted
    then (elim name [
      | some text ↦ create_file printed fd w₁
      | none ↦
          if initialises
          then ok (some (record { fd_rwlock = none; file_name = none }), log initialised w₁)
          else (do w₂ ← give_back w₁; ok (none, w₂))
    ])
    else ok (none, w₁)

-- sky_rwlock_open
unfoldable pub open_file :
    (name : Option Str)
    → (printed : Option Str) → (fd : Option ℕ) → World
    → Run (Option Rwlock × World)
open_file none printed fd w = ok (none, w)
open_file (some []) printed fd w = ok (none, w)
open_file (some (c ∷ cs)) none fd w = ok (none, w)
open_file (some (c ∷ cs)) (some rwlock_name) fd w =
    let (granted, w₁) = request w in
    if granted
    then (elim fd [
      | none ↦ do w₂ ← give_back w₁; ok (none, w₂)
      | some n ↦
          ok (some (record { fd_rwlock = some n; file_name = none }), log (opened rwlock_name n) w₁)
    ])
    else ok (none, w₁)

-- sky_rwlock_destroy
unfoldable pub destroy : Option Rwlock → World → Run World
destroy none w = ok w
destroy (some p) w = elim p.fd_rwlock [
  | none ↦ give_back (log destroyed w)
  | some fd ↦ elim p.file_name [
    | none ↦ give_back (log (closed fd) w)
    | some name ↦ do w₁ ← give_back (log (removed name) (log (closed fd) w)); give_back w₁
  ]
]

-- One round of the loop of a lock with a timeout: whether flock succeeds, and the readings of the clock
-- that sky_systick_elapsed takes.
pub record Round : Type 0 where
  pub taken : Bool
  pub readings : List Timespec

-- what a round comes to: whether the loop ends with flock's success, or goes on
pub data Turn : Type 0 where
  over : (b : Bool) → Turn
  again : Turn

-- one round of the loop; `none` where the clock gives no time
unfoldable pub flock_round : Mode → (fd tick timeout : ℕ) → Round → World → Option (Turn × World)
flock_round mode fd tick timeout r w =
    let w₁ = log (flocked mode false fd) w in
    let w₂ = log (slept 100) w₁ in
    if r.taken then some (over true, w₁) else elim (systick_elapsed tick r.readings) [
      | none ↦ none
      | some elapsed ↦ some (if ltb elapsed timeout then again else over false, w₂)
    ]

-- the loop, over the rounds that the system has ready; `none` where it would go on
unfoldable pub flock_loop :
    Mode → (fd tick timeout : ℕ) → List Round → World → Option (Bool × World)
flock_loop mode fd tick timeout [] w = none
flock_loop mode fd tick timeout (r ∷ rs) w = elim (flock_round mode fd tick timeout r w) [
  | none ↦ none
  | some (over b, w') ↦ some (b, w')
  | some (again, w') ↦ flock_loop mode fd tick timeout rs w'
]

-- What the system has ready for a call that locks: whether a call of flock or of pthreads succeeds, the
-- first readings of the clock, the rounds, and the time of day.
pub record Ready : Type 0 where
  pub succeeds : Bool
  pub readings : List Timespec
  pub rounds : List Round
  pub now : Option Timeval

unfoldable pub lock_file : Mode → (fd timeout : ℕ) → Ready → World → Option (Bool × World)
lock_file mode fd timeout s w =
    let timed : Option (Bool × World) = elim (systick_get s.readings) [
      | none ↦ none
      | some tick ↦ flock_loop mode fd tick timeout s.rounds w
    ] in
    if timeout == infinite
    then some (s.succeeds, log (flocked mode true fd) w)
    else if timeout == 0
    then some (s.succeeds, log (flocked mode false fd) w)
    else timed

unfoldable pub lock_pthread : Mode → (timeout : ℕ) → Ready → World → Run (Option (Bool × World))
lock_pthread mode timeout s w =
    if timeout == infinite
    then ok (some (s.succeeds, log (locked mode forever) w))
    else if timeout == 0
    then ok (some (s.succeeds, log (locked mode never) w))
    else (do
      ts ← abstime_after_msec timeout s.now
      ok (some (s.succeeds, log (locked mode (until ts)) w)))

-- sky_rwlock_wrlock with `exclusive`; sky_rwlock_rdlock differs by the mode alone
unfoldable pub lock :
    Mode → Option Rwlock → (timeout : ℕ) → Ready → World → Run (Option (Bool × World))
lock mode none timeout s w = ok (some (false, w))
lock mode (some p) timeout s w = elim p.fd_rwlock [
  | none ↦ lock_pthread mode timeout s w
  | some fd ↦ ok (lock_file mode fd timeout s w)
]

unfoldable pub wrlock : Option Rwlock → (timeout : ℕ) → Ready → World → Run (Option (Bool × World))
wrlock = lock exclusive

unfoldable pub rdlock : Option Rwlock → (timeout : ℕ) → Ready → World → Run (Option (Bool × World))
rdlock = lock shared

-- sky_rwlock_unlock
unfoldable pub unlock : Option Rwlock → World → World
unlock none w = w
unlock (some p) w = elim p.fd_rwlock [ none ↦ log unlocked w | some fd ↦ log (unflocked fd) w ]
