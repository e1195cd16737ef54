-- ===== src/Process/Tests.antt =====
-- Two processes of one name (sky/src/sky_process.c), over locks that are kept by file.
use skysdk.Base.{
  ℕ, ◌==◌, ◌≡◌, ◌≢◌, ◌⊎◌, refl, inl, inr, true, false, Bool-cases, Option, none, some, [], ◌∷◌, Str,
  str_eq, if◌then◌else◌, arith,
}
use skysdk.Process.{
  Ops, Documented, pid_file_name, is_first_instance, first, running, Reaches, started, told_first,
}
use skysdk.Process.Instances.{Reaches-single}

abbrev Table : Type 0
Table = Str → Option ℕ

abbrev granted : Str → ℕ → Table → Option ℕ → Option Table
granted file fd l none = some (λ other. if str_eq file other then some fd else l other)
granted file fd l (some owner) = if owner == fd then some l else none

abbrev locks : Ops Table
locks = record {
  unlocked = λ file. none;
  flock = λ file fd l. granted file fd l (l file);
  close = λ fd l file. elim (l file) [
    | none ↦ none
    | some owner ↦ if owner == fd then none else some owner
  ];
  holder = λ l file. l file;
}

taken :
    (file : Str) (fd owner : ℕ) (l : Table)
    → l file ≡ some owner
    → owner ≢ fd
    → locks.flock file fd l ≡ none
taken file fd owner l busy ne =
    rw busy
      (elim (Bool-cases (owner == fd)) [ inl e ↦ absurd (ne (ground arith)) | inr e ↦ rw e refl ])

locks-Documented : Documented locks
locks-Documented = record {
  unlocked_law = λ file. refl;
  free_law = λ file fd l free.
      ((λ other. if str_eq file other then some fd else l other), rw free refl, λ other. refl);
  busy_law = taken;
  close_law = λ fd l file. refl;
}

-- "ftpd"
abbrev name : Str
name = 102 ∷ 116 ∷ 112 ∷ 100 ∷ []

one-Reaches :
    Reaches locks 4096
      (first (pid_file_name 4096 name) 3 ∷ [])
      (λ other. if str_eq (pid_file_name 4096 name) other then some 3 else none)
unfolding is_first_instance
one-Reaches = told_first name 3 started tt refl

Reaches-single_example :
    ((running (pid_file_name 4096 name) (first (pid_file_name 4096 name) 3 ∷ []) ≡ [])
      × ((l' : Table) × (is_first_instance locks 4096 name
              (some 4)
              (λ other. if str_eq (pid_file_name 4096 name) other then some 3 else none)
            ≡ (true, l'))))
    ⊎ ((owner : ℕ) × (running (pid_file_name 4096 name) (first (pid_file_name 4096 name) 3 ∷ [])
          ≡ owner ∷ [])
        × (is_first_instance locks 4096 name
              (some 4)
              (λ other. if str_eq (pid_file_name 4096 name) other then some 3 else none)
            ≡ (false, λ other. if str_eq (pid_file_name 4096 name) other then some 3 else none)))
Reaches-single_example =
    Reaches-single locks locks-Documented 4096 name 4 one-Reaches (omega arith, tt)
