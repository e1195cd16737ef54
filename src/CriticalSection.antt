-- ===== src/CriticalSection.antt =====
-- sky/src/sky_critical_section.c over the mutex of pthreads, which is the parameter `ops`. Threads are
-- numbers; a call that waits gives `none`.
pub mod Calls
pub mod Exclusion
mod Tests
use skysdk.Base.{
  ℕ, zero, suc, ◌+◌, ◌-◌, ◌<◌, ◌≤◌, ◌==◌, ◌≡◌, ◌≢◌, ◌⊎◌, Bool, true, false, Option, none, some,
  List, [], ◌∷◌, if◌then◌else◌, Run, ok, ◌>>=◌,
}
use skysdk.Memory.{Memory, alloc, free}

-- pthread_mutexattr_settype: PTHREAD_MUTEX_NORMAL and PTHREAD_MUTEX_RECURSIVE
pub data Kind : Type 0 where
  normal : Kind
  recursive : Kind

-- what pthread_mutex_lock comes to: it waits, has the mutex locked, or fails with an error
pub data Locking (M : Type 0) : Type 0 where
  waits : Locking M
  has : (m : M) → Locking M
  fails_with_error : Locking M

-- pthread_mutex_init with an attribute of a kind, and what the other calls do for a thread
pub record Ops (M : Type 0) : Type 0 where
  pub init : Kind → M
  pub lock : ℕ → M → Locking M
  pub trylock : ℕ → M → Option M
  pub unlock : ℕ → M → M
  -- how often a thread holds the mutex
  pub held : M → ℕ → ℕ
  -- how often a thread may hold a recursive mutex
  pub limit : ℕ

-- `m'` is `m` with one more hold of the thread, and no other thread held `m`
abbrev pub Locked : {M : Type 0} → Ops M → ℕ → M → M → Type 0
Locked ops thread m m' =
    (ops.held m' thread ≡ ops.held m thread + 1)
    × ((other : ℕ) → other ≢ thread → (ops.held m other ≡ 0) × (ops.held m' other ≡ 0))

-- What POSIX says of a recursive mutex, on the mutexes `Valid`: a call that locks it adds a hold of the
-- thread; pthread_mutex_lock waits only while another thread holds it, and fails only with EAGAIN, for
-- a thread that holds it as often as it may; unlocking takes one hold of its owner away.
pub record Documented {M : Type 0} (ops : Ops M) (Valid : M → Type 0) : Type 0 where
  pub init_law : Valid (ops.init recursive) × ((t : ℕ) → ops.held (ops.init recursive) t ≡ 0)
  pub lock_law :
      (thread : ℕ) (m m' : M)
      → Valid m
      → ops.lock thread m ≡ has m'
      → Valid m' × Locked ops thread m m'
  pub trylock_law :
      (thread : ℕ) (m m' : M)
      → Valid m
      → ops.trylock thread m ≡ some m'
      → Valid m' × Locked ops thread m m'
  pub wait_law :
      (thread : ℕ) (m : M)
      → Valid m
      → ops.lock thread m ≡ waits
      → (other : ℕ) × (other ≢ thread) × (0 < ops.held m other)
  pub limit_law :
      (thread : ℕ) (m : M)
      → Valid m
      → ops.lock thread m ≡ fails_with_error
      → ops.limit ≤ ops.held m thread
  pub unlock_law :
      (thread n : ℕ) (m : M)
      → Valid m
      → ops.held m thread ≡ suc n
      → Valid (ops.unlock thread m)
        × (ops.held (ops.unlock thread m) thread ≡ n)
        × ((other : ℕ) → other ≢ thread → ops.held (ops.unlock thread m) other ≡ ops.held m other)

module _ {M : Type 0} (ops : Ops M) where
  -- sky_critical_section_create
  unfoldable pub create : Memory → Option M × Memory
  create m =
      let (granted, m₁) = alloc m in if granted then (some (ops.init recursive), m₁) else (none, m₁)

  -- sky_critical_section_enter, which does not look at the result of the lock
  unfoldable pub enter : ℕ → Option M → Option (Option M)
  enter thread none = some none
  enter thread (some p) = elim (ops.lock thread p) [
    | waits ↦ none
    | has p' ↦ some (some p')
    | fails_with_error ↦ some (some p)
  ]

  -- sky_critical_section_leave
  unfoldable pub leave : ℕ → Option M → Option M
  leave thread none = none
  leave thread (some p) = some (ops.unlock thread p)

  -- sky_critical_section_try
  unfoldable pub try_enter : ℕ → Option M → Bool × Option M
  try_enter thread none = (false, none)
  try_enter thread (some p) = elim (ops.trylock thread p) [
    | none ↦ (false, some p)
    | some p' ↦ (true, some p')
  ]

-- sky_critical_section_destroy, with what becomes of the memory
unfoldable pub destroy : {M : Type 0} → Option M → Memory → Run Memory
destroy none m = ok m
destroy (some p) m = free m

-- what a thread did
pub data Event : Type 0 where
  entered : (thread : ℕ) → Event
  left : (thread : ℕ) → Event
  refused : (thread : ℕ) → Event

-- how many entries of the thread it has not yet left, in a history with the latest event in front
unfoldable pub inside : ℕ → List Event → ℕ
inside t [] = 0
inside t (entered u ∷ es) = if u == t then inside t es + 1 else inside t es
inside t (left u ∷ es) = if u == t then inside t es - 1 else inside t es
inside t (refused u ∷ es) = inside t es

-- The interleavings of the threads on a section that has been created: an entry that waits is no step,
-- a thread enters less often than it may hold the mutex, and leaves only what it has entered.
pub data Reaches {M : Type 0} (ops : Ops M) : List Event → M → Type 0 where
  created : {m : M} (mem mem' : Memory) → create ops mem ≡ (some m, mem') → Reaches ops [] m
  enters :
      {es : List Event} {m m' : M} (thread : ℕ)
      → Reaches ops es m
      → inside thread es < ops.limit
      → enter ops thread (some m) ≡ some (some m')
      → Reaches ops (entered thread ∷ es) m'
  tries :
      {es : List Event} {m m' : M} (thread : ℕ)
      → Reaches ops es m
      → try_enter ops thread (some m) ≡ (true, some m')
      → Reaches ops (entered thread ∷ es) m'
  fails :
      {es : List Event} {m m' : M} (thread : ℕ)
      → Reaches ops es m
      → try_enter ops thread (some m) ≡ (false, some m')
      → Reaches ops (refused thread ∷ es) m'
  leaves :
      {es : List Event} {m m' : M} (thread : ℕ)
      → Reaches ops es m
      → 0 < inside thread es
      → leave ops thread (some m) ≡ some m'
      → Reaches ops (left thread ∷ es) m'
