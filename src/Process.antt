-- ===== src/Process.antt =====
-- sky/src/sky_process.c: the handlers of signals, the flag of a program in the background, and the test
-- for a first instance over flock, which is the parameter `ops`. The numbers of descriptors are those of
-- open files in all processes, none used twice; what the system returned is an argument.
pub mod Instances
mod Tests
use skysdk.Base.{
  ℕ, ◌==◌, ◌≡◌, ◌≢◌, not, Bool, true, false, Option, none, some, List, [], ◌∷◌, ◌++◌, Str, str_eq,
  take, if◌then◌else◌,
}

-- the signals that sky_process_init gives a handler
pub data Signal : Type 0 where
  sigterm : Signal
  sigint : Signal
  sigquit : Signal

-- the calls of sigaction up to the first that fails, in their order
unfoldable pub set_handlers : (succeeds : Signal → Bool) → List Signal → Bool × List Signal
set_handlers succeeds [] = (true, [])
set_handlers succeeds (s ∷ ss) =
    let (all, set) = set_handlers succeeds ss in if succeeds s then (all, s ∷ set) else (false, [])

-- sky_process_init: its result, and the handlers that were set
unfoldable pub process_init : (succeeds : Signal → Bool) → Bool × List Signal
unfolding set_handlers
process_init succeeds = set_handlers succeeds (sigterm ∷ sigint ∷ sigquit ∷ [])

-- sky_process_set_run_in_background, with whether daemon succeeds and the flag run_in_background
unfoldable pub set_run_in_background : (daemon : Bool) → (run_in_background : Bool) → Bool × Bool
set_run_in_background daemon run_in_background =
    if daemon then (true, true) else (false, run_in_background)

-- "/tmp/sky_proc_", the name, and ".pid", cut to SKY_PATH_MAX characters
unfoldable pub pid_file_name : (path_max : ℕ) → (proc_name : Str) → Str
pid_file_name path_max proc_name = take path_max (
    (b'/' ∷ b't' ∷ b'm' ∷ b'p' ∷ b'/' ∷ b's' ∷ b'k' ∷ b'y' ∷ b'_' ∷ b'p' ∷ b'r' ∷ b'o' ∷ b'c' ∷ b'_'
      ∷ [])
    ++ proc_name
    ++ b'.' ∷ b'p' ∷ b'i' ∷ b'd' ∷ [])

-- `flock( fd, LOCK_EX | LOCK_NB )` on a descriptor of a file, with `none` where it does not lock; the
-- close of a descriptor; and which descriptor has a file locked
pub record Ops (L : Type 0) : Type 0 where
  pub unlocked : L
  pub flock : (file : Str) → (fd : ℕ) → L → Option L
  pub close : (fd : ℕ) → L → L
  pub holder : L → (file : Str) → Option ℕ

-- What the system documents of such locks: one is granted where no other descriptor has the file
-- locked, and ends with the close of its descriptor.
pub record Documented {L : Type 0} (ops : Ops L) : Type 0 where
  pub unlocked_law : (file : Str) → ops.holder ops.unlocked file ≡ none
  pub free_law :
      (file : Str) (fd : ℕ) (l : L)
      → ops.holder l file ≡ none
      → (l' : L) × (ops.flock file fd l ≡ some l')
        × ((other : Str)
            → ops.holder l' other ≡ (if str_eq file other then some fd else ops.holder l other))
  pub busy_law :
      (file : Str) (fd owner : ℕ) (l : L)
      → ops.holder l file ≡ some owner
      → owner ≢ fd
      → ops.flock file fd l ≡ none
  pub close_law :
      (fd : ℕ) (l : L) (file : Str)
      → ops.holder (ops.close fd l) file ≡ elim (ops.holder l file) [
        | none ↦ none
        | some owner ↦ if owner == fd then none else some owner
      ]

module _ {L : Type 0} (ops : Ops L) where
  -- sky_process_is_first_instance; `opened` is what open gave, which stays open
  unfoldable pub is_first_instance :
      (path_max : ℕ) → (proc_name : Str) → (opened : Option ℕ) → L → Bool × L
  is_first_instance path_max proc_name none l = (false, l)
  is_first_instance path_max proc_name (some pid_file) l =
      elim (ops.flock (pid_file_name path_max proc_name) pid_file l) [
        | none ↦ (false, l)
        | some l' ↦ (true, l')
      ]

-- what happened: a call with a descriptor gave true or false, or the process of a descriptor ended
pub data Event : Type 0 where
  first : (file : Str) → (fd : ℕ) → Event
  refused : (file : Str) → (fd : ℕ) → Event
  ended : (fd : ℕ) → Event

abbrev pub without : ℕ → List ℕ → List ℕ
without fd [] = []
without fd (f ∷ fs) = if f == fd then without fd fs else f ∷ without fd fs

-- the descriptors of those that were told to be the first for a file and have not ended, in a history
-- with the latest event in front
unfoldable pub running : Str → List Event → List ℕ
running file [] = []
running file (first other fd ∷ es) =
    if str_eq other file then fd ∷ running file es else running file es
running file (refused other fd ∷ es) = running file es
running file (ended fd ∷ es) = without fd (running file es)

-- a number that no descriptor of the history has
abbrev pub Unused : ℕ → List Event → Type 0
Unused fd [] = Unit
Unused fd (first file f ∷ es) = (f ≢ fd) × Unused fd es
Unused fd (refused file f ∷ es) = (f ≢ fd) × Unused fd es
Unused fd (ended f ∷ es) = Unused fd es

-- the histories of processes that ask whether they are the first, and end
pub data Reaches {L : Type 0} (ops : Ops L) (path_max : ℕ) : List Event → L → Type 0 where
  started : Reaches ops path_max [] ops.unlocked
  told_first :
      {es : List Event} {l l' : L} (proc_name : Str) (fd : ℕ)
      → Reaches ops path_max es l
      → Unused fd es
      → is_first_instance ops path_max proc_name (some fd) l ≡ (true, l')
      → Reaches ops path_max (first (pid_file_name path_max proc_name) fd ∷ es) l'
  told_not :
      {es : List Event} {l l' : L} (proc_name : Str) (fd : ℕ)
      → Reaches ops path_max es l
      → Unused fd es
      → is_first_instance ops path_max proc_name (some fd) l ≡ (false, l')
      → Reaches ops path_max (refused (pid_file_name path_max proc_name) fd ∷ es) l'
  ends :
      {es : List Event} {l : L} (fd : ℕ)
      → Reaches ops path_max es l
      → Reaches ops path_max (ended fd ∷ es) (ops.close fd l)
