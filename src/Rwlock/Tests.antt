-- ===== src/Rwlock/Tests.antt =====
-- Runs of sky/src/sky_rwlock.c with the lock in the file /tmp/SKY_RWLOCK_a, here spelled "/a".
use skysdk.Base.{
  ◌==◌, Option, List, if◌then◌else◌, ℕ, ◌*◌, ◌≤◌, ◌≡◌, refl, Bool, true, false, none, some, [], ◌∷◌,
  Str, ok, Returns, arith,
}
use skysdk.Sys.{Timespec, systick_get}
use skysdk.Rwlock.Holders.{Ops, Others, calls}
use skysdk.Rwlock.{Mode, shared, Rwlock, exclusive, World, Ready, create, open_file, lock}
use skysdk.Rwlock.Lifetime.{Made, Opened, rwlock_made_lem}
use skysdk.Rwlock.Waiting.{Paced, Waited, timed_lock_lem}

abbrev path : Str
path = 47 ∷ 97 ∷ []

abbrev world : World
world = record { memory = record { grants = λ n. true; requests = 0; live = 2 }; calls = [] }

rwlock_made_lem_example :
    Returns
      (Made (some (97 ∷ [])) (some path) (some 8) true world)
      (create (some (97 ∷ [])) (some path) (some 8) true world)
    × Returns
        (Opened (some path) (some 8) world)
        (open_file (some (97 ∷ [])) (some path) (some 8) world)
rwlock_made_lem_example = rwlock_made_lem (some (97 ∷ [])) (some path) 97 [] (some 8) true world

abbrev file_lock : Rwlock
file_lock = record { fd_rwlock = some 8; file_name = some path }

abbrev at_second : ℕ → ℕ → Timespec
at_second s ms = record { tv_sec = s; tv_nsec = ms * 1_000_000 }

-- the lock is free at the second try
abbrev ready : Ready
ready = record {
  succeeds = false;
  readings = at_second 50 0 ∷ [];
  rounds =
      record { taken = false; readings = at_second 50 100 ∷ [] }
      ∷ record { taken = true; readings = at_second 50 201 ∷ [] }
      ∷ [];
  now = none;
}

ready-Paced : Paced 50_000 0 ready.rounds
unfolding systick_get
ready-Paced =
    ((50_100, refl, omega arith, omega arith), ((50_201, refl, omega arith, omega arith), tt))

timed_lock_lem_example :
    (n : ℕ) × (r : Bool × World) × (lock exclusive (some file_lock) 150 ready world ≡ ok (some r))
    × (100 * n ≤ 150)
    × Waited exclusive 8 50_000 150 ready.rounds world n r
unfolding systick_get
timed_lock_lem_example =
    timed_lock_lem exclusive 8 50_000 150 file_lock ready world refl refl refl refl ready-Paced
      (omega arith)

-- the descriptor with an exclusive lock, and those with shared ones
abbrev Table : Type 0
Table = Option ℕ × List ℕ

abbrev listed : ℕ → List ℕ → Bool
listed fd [] = false
listed fd (r ∷ rs) = if r == fd then true else listed fd rs

abbrev without : ℕ → List ℕ → List ℕ
without fd [] = []
without fd (r ∷ rs) = if r == fd then without fd rs else r ∷ without fd rs

abbrev try_flock : Mode → ℕ → Table → Bool × Table
try_flock exclusive fd (some f, rs) =
    if f == fd then (true, (some fd, [])) else (false, (some f, rs))
try_flock exclusive fd (none, []) = (true, (some fd, []))
try_flock exclusive fd (none, r ∷ rs) = (false, (none, r ∷ rs))
try_flock shared fd (some f, rs) = (false, (some f, rs))
try_flock shared fd (none, rs) = (true, (none, fd ∷ rs))

abbrev release : ℕ → Table → Table
release fd (some f, rs) = if f == fd then (none, []) else (some f, rs)
release fd (none, rs) = (none, without fd rs)

abbrev held : Table → ℕ → Option Mode
held (some f, rs) fd = if f == fd then some exclusive else none
held (none, rs) fd = if listed fd rs then some shared else none

abbrev table : Ops Table
table = record { unlocked = (none, []); flock = try_flock; release = release; held = held }

abbrev Any : Table → Type 0
Any l = Unit

-- what one call does to the descriptor and to the others
abbrev Tried : Mode → ℕ → Table → Bool × Table → Type 0
Tried mode fd l (b, l') = (if b then held l' fd ≡ some mode else Unit) × Others table fd l l'

abbrev other_lock : Rwlock
other_lock = record { fd_rwlock = some 9; file_name = none }

abbrev taken : Ready
taken = record ready { succeeds = true }
