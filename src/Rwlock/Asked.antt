-- ===== src/Rwlock/Asked.antt =====
-- What the calls of sky_rwlock_wrlock, sky_rwlock_rdlock and sky_rwlock_unlock (sky/src/sky_rwlock.c) ask
-- of flock.
use skysdk.Base.{
  ℕ, ◌==◌, ◌≡◌, ◌≢◌, ◌⊎◌, refl, sym, ap, ◌∙◌, inl, inr, Bool, true, false, ltb, Bool-cases, Option,
  some, Option-cases, List, ◌∷◌, Run, ok, arith,
}
use skysdk.Sys.{systick_elapsed}
use skysdk.Rwlock.{
  Mode, Rwlock, Syscall, World, flocked, unflocked, infinite, Round, Ready, log, slept, Turn, over,
  again, flock_round, lock_file, lock, unlock,
}
use skysdk.Rwlock.Holders.{locked_by, RoundCalls}

-- what a call that does not wait for a time logs and gives
lock_once :
    (mode : Mode) (p : Rwlock) (fd timeout : ℕ) (s : Ready) (w : World)
    → p.fd_rwlock ≡ some fd
    → (timeout ≡ 0) ⊎ (timeout ≡ infinite)
    → (blocking : Bool) × (lock mode (some p) timeout s w
        ≡ ok (some (s.succeeds, log (flocked mode blocking fd) w)))
unfolding lock lock_file
lock_once mode p fd timeout s w file (inl zero) = (false, rw (file, zero) refl)
lock_once mode p fd timeout s w file (inr ever) = (true, rw (file, ever) refl)

same_result :
    (b b' : Bool) (w w' : World)
    → ◌≡◌ {A = Run (Option (Bool × World))} (ok (some (b, w))) (ok (some (b', w')))
    → (b ≡ b') × (w.calls ≡ w'.calls)
same_result b b' w w' e = let same : w ≡ w' = cc in (cc, ap (λ (v : World). v.calls) same)

same_flock :
    (m m' : Mode) (x y : Bool) (f f' : ℕ) (cs : List Syscall)
    → ◌≡◌ {A = List Syscall} (flocked m x f ∷ cs) (flocked m' y f' ∷ cs)
    → (m ≡ m') × (f ≡ f')
same_flock m m' x y f f' cs e = (cc, cc)

pub call_lem :
    (mode asked : Mode) (p : Rwlock) (fd fd' timeout : ℕ) (s : Ready) (w w' : World)
    (b blocking : Bool)
    → p.fd_rwlock ≡ some fd
    → (timeout ≡ 0) ⊎ (timeout ≡ infinite)
    → lock mode (some p) timeout s w ≡ ok (some (b, w'))
    → w'.calls ≡ flocked asked blocking fd' ∷ w.calls
    → (s.succeeds ≡ b) × (mode ≡ asked) × (fd ≡ fd')
call_lem mode asked p fd fd' timeout s w w' b blocking file time run logged =
    let (x, once) = lock_once mode p fd timeout s w file time in
    let same = same_result s.succeeds b (log (flocked mode x fd) w) w' (sym once ∙ run) in
    let called = same_flock mode asked x blocking fd fd' w.calls (same.1 ∙ logged) in
    (same.0, called.0, called.1)

same_slept :
    (m m' : Mode) (x y : Bool) (f f' : ℕ) (cs : List Syscall)
    → ◌≡◌ {A = List Syscall} (slept 100 ∷ flocked m x f ∷ cs) (slept 100 ∷ flocked m' y f' ∷ cs)
    → (m ≡ m') × (f ≡ f')
same_slept m m' x y f f' cs e = (cc, cc)

not_slept :
    (m m' : Mode) (x y : Bool) (f f' : ℕ) (cs ds : List Syscall)
    → ¬ (◌≡◌ {A = List Syscall} (slept 100 ∷ flocked m x f ∷ cs) (flocked m' y f' ∷ ds))
not_slept m m' x y f f' cs ds e = cc

-- a round that took the lock logs flock alone; another one slept behind it
taken_calls :
    (mode asked : Mode) (fd fd' : ℕ) (w w' : World) (blocking : Bool)
    → log (flocked mode false fd) w ≡ w'
    → RoundCalls asked blocking fd' w w'
    → (mode ≡ asked) × (fd ≡ fd')
taken_calls mode asked fd fd' w w' blocking wrote (inl e) =
    same_flock mode asked false blocking fd fd' w.calls (ap (λ (v : World). v.calls) wrote ∙ e)
taken_calls mode asked fd fd' w w' blocking wrote (inr e) = absurd (
    not_slept asked mode blocking false fd' fd w.calls w.calls
      (sym (ap (λ (v : World). v.calls) wrote ∙ e)))

missed_calls :
    (mode asked : Mode) (fd fd' : ℕ) (w w' : World) (blocking : Bool)
    → log (slept 100) (log (flocked mode false fd) w) ≡ w'
    → RoundCalls asked blocking fd' w w'
    → (mode ≡ asked) × (fd ≡ fd')
missed_calls mode asked fd fd' w w' blocking wrote (inr e) =
    same_slept mode asked false blocking fd fd' w.calls (ap (λ (v : World). v.calls) wrote ∙ e)
missed_calls mode asked fd fd' w w' blocking wrote (inl e) = absurd (
    not_slept mode asked false blocking fd fd' w.calls w.calls
      (ap (λ (v : World). v.calls) wrote ∙ e))

same_turn :
    (t t' : Turn) (w w' : World)
    → ◌≡◌ {A = Option (Turn × World)} (some (t, w)) (some (t', w'))
    → (t ≡ t') × (w ≡ w')
same_turn t t' w w' e = (cc, cc)

pub round_lem :
    (mode asked : Mode) (fd fd' tick timeout : ℕ) (r : Round) (w w' : World) (turn : Turn)
    (blocking : Bool)
    → flock_round mode fd tick timeout r w ≡ some (turn, w')
    → RoundCalls asked blocking fd' w w'
    → (r.taken ≡ locked_by turn) × (mode ≡ asked) × (fd ≡ fd')
unfolding flock_round
round_lem mode asked fd fd' tick timeout r w w' turn blocking run logged =
    elim (Bool-cases r.taken) [
      | inl taken ↦
          let (t, wrote) = same_turn (over true) turn _ w' (rw (taken, flock_round) at run) in
          let called = taken_calls mode asked fd fd' w w' blocking wrote logged in
          (taken ∙ ap locked_by t, called.0, called.1)
      | inr missed ↦ elim (Option-cases (systick_elapsed tick r.readings)) [
        | inl unread ↦ absurd (let e = rw (missed, unread, flock_round) at run in cc)
        | inr (elapsed, read) ↦ elim (Bool-cases (ltb elapsed timeout)) [
          | inl more ↦
              let (t, wrote) =
                same_turn again turn _ w' (rw (missed, read, more, flock_round) at run) in
              let called = missed_calls mode asked fd fd' w w' blocking wrote logged in
              (missed ∙ ap locked_by t, called.0, called.1)
          | inr up ↦
              let (t, wrote) =
                same_turn (over false) turn _ w' (rw (missed, read, up, flock_round) at run) in
              let called = missed_calls mode asked fd fd' w w' blocking wrote logged in
              (missed ∙ ap locked_by t, called.0, called.1)
        ]
      ]
    ]

pub unlock_lem :
    (p : Rwlock) (fd fd' : ℕ) (w w' : World)
    → p.fd_rwlock ≡ some fd
    → unlock (some p) w ≡ w'
    → w'.calls ≡ unflocked fd' ∷ w.calls
    → fd ≡ fd'
unfolding unlock
unlock_lem p fd fd' w w' file run logged =
    let e : log (unflocked fd) w ≡ w' = rw (file, unlock) at run in
    let f : ◌≡◌ {A = List Syscall} (unflocked fd ∷ w.calls) (unflocked fd' ∷ w.calls) =
      ap (λ (v : World). v.calls) e ∙ logged in
    cc

pub same_or_not : (a b : ℕ) → (((a == b) ≡ true) × (a ≡ b)) ⊎ (((a == b) ≡ false) × (a ≢ b))
same_or_not a b = elim (Bool-cases (a == b)) [
  | inl e ↦ inl (e, ground arith)
  | inr e ↦ inr (e, λ h. ground (arith, h))
]
