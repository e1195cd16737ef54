-- ===== src/Process/Instances.antt =====
-- Which process is told that it is the first instance (sky/src/sky_process.c).
use skysdk.Base.{
  ℕ, ◌==◌, ◌≡◌, ◌≢◌, ◌⊎◌, refl, sym, ap, ◌∙◌, inl, inr, true, false, Bool-cases, Option, none, some,
  Option-cases, List, [], ◌∷◌, Str, str_eq, str_eq→eq, if◌then◌else◌,
}
use mathlib.Core.Path.{subst}
use skysdk.Process.{
  Ops, Documented, pid_file_name, is_first_instance, Event, first, refused, ended, without, running,
  Unused, Reaches, started, told_first, told_not, ends,
}

abbrev listed : Option ℕ → List ℕ
listed none = []
listed (some fd) = fd ∷ []

without-listed :
    (fd : ℕ) (h : Option ℕ)
    → without fd (listed h)
      ≡ listed (elim h [ none ↦ none | some owner ↦ if owner == fd then none else some owner ])
without-listed fd none = refl
without-listed fd (some owner) = elim (Bool-cases (owner == fd)) [
  | inl e ↦ rw e refl
  | inr e ↦ rw e refl
]

-- none of the descriptors is this one
abbrev Apart : ℕ → List ℕ → Type 0
Apart fd [] = Unit
Apart fd (f ∷ fs) = (f ≢ fd) × Apart fd fs

without-Apart : (fd f : ℕ) (fs : List ℕ) → Apart fd fs → Apart fd (without f fs)
without-Apart fd f [] apart = tt
without-Apart fd f (g ∷ fs) (ne, apart) = elim (Bool-cases (g == f)) [
  | inl e ↦ rw e (without-Apart fd f fs apart)
  | inr e ↦ rw e (ne, without-Apart fd f fs apart)
]

running-Apart : (fd : ℕ) (file : Str) (es : List Event) → Unused fd es → Apart fd (running file es)
unfolding running
running-Apart fd file [] unused = tt
running-Apart fd file (first other f ∷ es) (ne, unused) = elim (Bool-cases (str_eq other file)) [
  | inl e ↦ rw e (ne, running-Apart fd file es unused)
  | inr e ↦ rw e (running-Apart fd file es unused)
]
running-Apart fd file (refused other f ∷ es) (ne, unused) = running-Apart fd file es unused
running-Apart fd file (ended f ∷ es) unused =
    without-Apart fd f (running file es) (running-Apart fd file es unused)

running-first :
    (file other : Str) (fd : ℕ) (es : List Event) (h : Option ℕ)
    → running other es ≡ listed h
    → running file es ≡ []
    → running other (first file fd ∷ es) ≡ listed (if str_eq file other then some fd else h)
unfolding running
running-first file other fd es h agrees empty = elim (Bool-cases (str_eq file other)) [
  | inl e ↦
      let nobody : running other es ≡ [] =
        subst (λ f. running f es ≡ []) (str_eq→eq file other e) empty in
      rw (e, nobody) refl
  | inr e ↦ rw e agrees
]

module _ {L : Type 0} (ops : Ops L) (doc : Documented ops) (path_max : ℕ) where
  -- the history tells who has a file locked
  abbrev Agrees : List Event → L → Type 0
  Agrees es l = (file : Str) → running file es ≡ listed (ops.holder l file)

  -- The three ways a call with a descriptor goes: nobody has the file locked, and the descriptor gets
  -- the lock; or another one has.
  call_lem :
      (name : Str) (fd : ℕ) (l : L)
      → ((owner : ℕ) → ops.holder l (pid_file_name path_max name) ≡ some owner → owner ≢ fd)
      → ((ops.holder l (pid_file_name path_max name) ≡ none)
          × ((l' : L) × (is_first_instance ops path_max name (some fd) l ≡ (true, l'))
              × ((other : Str)
                  → ops.holder l' other ≡ (
                      if str_eq (pid_file_name path_max name) other
                      then some fd
                      else ops.holder l other))))
        ⊎ ((owner : ℕ) × (ops.holder l (pid_file_name path_max name) ≡ some owner)
            × (is_first_instance ops path_max name (some fd) l ≡ (false, l)))
  unfolding is_first_instance
  call_lem name fd l fresh = elim (Option-cases (ops.holder l (pid_file_name path_max name))) [
    | inl free ↦
        let (l', locks, holds) = doc.free_law (pid_file_name path_max name) fd l free in
        inl (free, (l', rw (locks, is_first_instance) refl, holds))
    | inr (owner, busy) ↦
        let fails = doc.busy_law (pid_file_name path_max name) fd owner l busy (fresh owner busy) in
        inr (owner, busy, rw (fails, is_first_instance) refl)
  ]

  fresh_owner :
      (es : List Event) (l : L) (fd : ℕ) (file : Str)
      → Agrees es l
      → Unused fd es
      → (owner : ℕ) → ops.holder l file ≡ some owner
      → owner ≢ fd
  fresh_owner es l fd file agrees unused owner busy =
      let e : running file es ≡ owner ∷ [] = agrees file ∙ ap listed busy in
      (subst (Apart fd) e (running-Apart fd file es unused)).0

  first-Agrees :
      (es : List Event) (l l' : L) (name : Str) (fd : ℕ)
      → Agrees es l
      → Unused fd es
      → is_first_instance ops path_max name (some fd) l ≡ (true, l')
      → Agrees (first (pid_file_name path_max name) fd ∷ es) l'
  first-Agrees es l l' name fd agrees unused said =
      let file = pid_file_name path_max name in
      elim (call_lem name fd l (fresh_owner es l fd file agrees unused)) [
        | inl (free, (l₁, run, holds)) ↦ λ other.
            let same : l₁ ≡ l' = ap (λ r. r.1) (sym run ∙ said) in
            let law : ops.holder l' other
                ≡ (if str_eq file other then some fd else ops.holder l other) =
              subst
                (λ x.
                  ops.holder x other ≡ (if str_eq file other then some fd else ops.holder l other))
                same (holds other) in
            running-first file other fd es (ops.holder l other) (agrees other)
              (agrees file ∙ ap listed free)
            ∙ ap listed (sym law)
        | inr (owner, busy, run) ↦
            absurd (let e : false ≡ true = ap (λ r. r.0) (sym run ∙ said) in cc)
      ]

  refused-same :
      (name : Str) (fd : ℕ) (l l' : L)
      → is_first_instance ops path_max name (some fd) l ≡ (false, l')
      → l ≡ l'
  unfolding is_first_instance
  refused-same name fd l l' said =
      elim (Option-cases (ops.flock (pid_file_name path_max name) fd l)) [
        | inl fails ↦ ap (λ r. r.1) (rw (fails, is_first_instance) at said)
        | inr (l₁, locks) ↦
            absurd (let e = ap (λ r. r.0) (rw (locks, is_first_instance) at said) in cc)
      ]

  Reaches-Agrees : {es : List Event} {l : L} → Reaches ops path_max es l → Agrees es l
  unfolding running
  Reaches-Agrees started = λ file. rw (doc.unlocked_law file) refl
  Reaches-Agrees (told_first {es} {l} {l'} name fd before unused said) =
      first-Agrees es l l' name fd (Reaches-Agrees before) unused said
  Reaches-Agrees (told_not {es} {l} {l'} name fd before unused said) =
      subst (λ x. (file : Str) → running file es ≡ listed (ops.holder x file))
        (refused-same name fd l l' said) (Reaches-Agrees before)
  Reaches-Agrees (ends {es} {l} fd before) = λ file.
      rw (Reaches-Agrees before file)
        (without-listed fd (ops.holder l file) ∙ ap listed (sym (doc.close_law fd l file)))

  -- Over locks on files that behave as the system documents flock, and after any history of
  -- processes that ask by name whether they are the first instance, each on a descriptor of its
  -- own, and end: a further call of sky_process_is_first_instance on a new descriptor gives true
  -- if no process that was told to be the first for that file still runs; otherwise exactly one
  -- does, and the call gives false and leaves the locks as they were.
  pub Reaches-single :
      {es : List Event} {l : L} (name : Str) (fd : ℕ)
      → Reaches ops path_max es l
      → Unused fd es
      → ((running (pid_file_name path_max name) es ≡ [])
          × ((l' : L) × (is_first_instance ops path_max name (some fd) l ≡ (true, l'))))
        ⊎ ((owner : ℕ) × (running (pid_file_name path_max name) es ≡ owner ∷ [])
            × (is_first_instance ops path_max name (some fd) l ≡ (false, l)))
  Reaches-single {es} {l} name fd reach unused =
      let file = pid_file_name path_max name in
      let agrees = Reaches-Agrees reach in
      elim (call_lem name fd l (fresh_owner es l fd file agrees unused)) [
        | inl (free, (l', run, holds)) ↦ inl (agrees file ∙ ap listed free, (l', run))
        | inr (owner, busy, run) ↦ inr (owner, agrees file ∙ ap listed busy, run)
      ]
