-- ===== src/Rwlock/Holders.antt =====
-- Who holds a lock in a file (sky/src/sky_rwlock.c), over flock as the parameter `ops`: the calls of
-- handles that each have a descriptor of their own, interleaved.
use skysdk.Base.{
  ℕ, ◌==◌, ◌≡◌, ◌≢◌, ◌⊎◌, Bool, true, false, Option, none, some, List, [], ◌∷◌, if◌then◌else◌, ok,
}
use skysdk.Rwlock.{
  Mode, exclusive, Rwlock, World, flocked, unflocked, infinite, Round, Ready, slept, Turn, over,
  again, flock_round, lock, unlock,
}

-- flock with LOCK_EX or LOCK_SH, with LOCK_UN, and in which mode a descriptor has the file locked
pub record Ops (L : Type 0) : Type 0 where
  pub unlocked : L
  pub flock : Mode → (fd : ℕ) → L → Bool × L
  pub release : (fd : ℕ) → L → L
  pub held : L → (fd : ℕ) → Option Mode

-- the locks of all descriptors but one are as before
abbrev pub Others : {L : Type 0} → Ops L → ℕ → L → L → Type 0
Others ops fd l l' = (other : ℕ) → other ≢ fd → ops.held l' other ≡ ops.held l other

-- What the system documents, on the states `Valid`: a call changes its own descriptor alone, and where
-- it succeeds has it locked; a descriptor with an exclusive lock is the only one. A call that fails may
-- have lost the lock of before.
pub record Documented {L : Type 0} (ops : Ops L) (Valid : L → Type 0) : Type 0 where
  pub unlocked_law : Valid ops.unlocked
  pub flock_law :
      (mode : Mode) (fd : ℕ) (l l' : L)
      → Valid l
      → ops.flock mode fd l ≡ (true, l')
      → Valid l' × (ops.held l' fd ≡ some mode) × Others ops fd l l'
  pub fail_law :
      (mode : Mode) (fd : ℕ) (l l' : L)
      → Valid l
      → ops.flock mode fd l ≡ (false, l')
      → Valid l' × Others ops fd l l'
  pub release_law :
      (fd : ℕ) (l : L) → Valid l → Valid (ops.release fd l) × Others ops fd l (ops.release fd l)
  pub alone_law :
      (fd other : ℕ) (l : L)
      → Valid l
      → ops.held l fd ≡ some exclusive
      → other ≢ fd
      → ops.held l other ≡ none

-- what a handle was told: the result of a call or of a round of one, and the end of an unlock
pub data Event : Type 0 where
  told : (mode : Mode) → (fd : ℕ) → (locked : Bool) → Event
  freed : (fd : ℕ) → Event

-- in which mode a handle believes to have the lock, in a history with the latest event in front
unfoldable pub holds : ℕ → List Event → Option Mode
holds fd [] = none
holds fd (told mode f locked ∷ es) =
    if f == fd then (if locked then some mode else none) else holds fd es
holds fd (freed f ∷ es) = if f == fd then none else holds fd es

-- whether a round gave the lock
abbrev pub locked_by : Turn → Bool
locked_by (over b) = b
locked_by again = false

-- a round asked flock, and perhaps slept behind that
abbrev pub RoundCalls : (asked : Mode) → (blocking : Bool) → (fd : ℕ) → World → World → Type 0
RoundCalls asked blocking fd w w' =
    (w'.calls ≡ flocked asked blocking fd ∷ w.calls)
    ⊎ (w'.calls ≡ slept 100 ∷ flocked asked blocking fd ∷ w.calls)

-- The interleavings. What flock is asked is what the calls log: a call of sky_rwlock_wrlock
-- (`exclusive`) or sky_rwlock_rdlock (`shared`) that does not wait or waits for ever; a round of one
-- with a timeout, the last or another; and sky_rwlock_unlock.
pub data Reaches {L : Type 0} (ops : Ops L) : List Event → L → Type 0 where
  made : Reaches ops [] ops.unlocked
  calls :
      {es : List Event} {l l' : L} (mode asked : Mode) (p : Rwlock) (fd fd' timeout : ℕ) (s : Ready)
      (w w' : World) (b blocking : Bool)
      → Reaches ops es l
      → p.fd_rwlock ≡ some fd
      → (timeout ≡ 0) ⊎ (timeout ≡ infinite)
      → lock mode (some p) timeout s w ≡ ok (some (b, w'))
      → w'.calls ≡ flocked asked blocking fd' ∷ w.calls
      → ops.flock asked fd' l ≡ (s.succeeds, l')
      → Reaches ops (told mode fd b ∷ es) l'
  rounds :
      {es : List Event} {l l' : L} (mode asked : Mode) (fd fd' tick timeout : ℕ) (r : Round)
      (w w' : World) (turn : Turn) (blocking : Bool)
      → Reaches ops es l
      → flock_round mode fd tick timeout r w ≡ some (turn, w')
      → RoundCalls asked blocking fd' w w'
      → ops.flock asked fd' l ≡ (r.taken, l')
      → Reaches ops (told mode fd (locked_by turn) ∷ es) l'
  unlocks :
      {es : List Event} {l : L} (p : Rwlock) (fd fd' : ℕ) (w w' : World)
      → Reaches ops es l
      → p.fd_rwlock ≡ some fd
      → unlock (some p) w ≡ w'
      → w'.calls ≡ unflocked fd' ∷ w.calls
      → Reaches ops (freed fd ∷ es) (ops.release fd' l)
