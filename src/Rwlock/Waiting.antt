-- ===== src/Rwlock/Waiting.antt =====
-- The loop of sky_rwlock_wrlock and sky_rwlock_rdlock (sky/src/sky_rwlock.c) with a timeout.
use skysdk.Base.{
  ℕ, zero, suc, ◌+◌, ◌-◌, ◌*◌, ◌%◌, ◌<◌, ◌≤◌, ◌≡◌, ◌==◌, refl, ap, inl, inr, Bool, true, false,
  Bool-cases, ltb, ltb→lt, lt→ltb, some, List, [], ◌∷◌, length, get_elem?, if◌then◌else◌, ok, arith,
}
use skysdk.Sys.{word, systick_get, systick_diff, systick_elapsed}
use skysdk.Sys.Ticks.{systick_diff_lem}
use skysdk.Rwlock.{
  Mode, Rwlock, Syscall, World, flocked, slept, infinite, Round, Ready, log, over, again,
  flock_round, flock_loop, lock_file, lock,
}

-- ticks of two times less than 2^32 ms apart differ by their distance
systick_diff-distance :
    (start ms : ℕ)
    → start ≤ ms
    → ms < start + word
    → systick_diff (start % word) (ms % word) ≡ ms - start
systick_diff-distance start ms le lt =
    let (small, moved) = systick_diff_lem (start % word) (ms % word) (omega arith) (omega arith) in
    omega (arith, small, moved, le, lt)

-- The clock after each round: every sleep takes 100 ms or more, and no tick comes round again.
abbrev pub Paced : (start n : ℕ) → List Round → Type 0
Paced start n [] = Unit
Paced start n (r ∷ rs) =
    ((ms : ℕ) × (systick_get r.readings ≡ some (ms % word))
      × (start + 100 * suc n ≤ ms)
      × (ms < start + word))
    × Paced start (suc n) rs

-- the first n calls of flock fail
abbrev pub Misses : ℕ → List Round → Type 0
Misses zero rs = Unit
Misses (suc n) [] = Unit
Misses (suc n) (r ∷ rs) = (r.taken ≡ false) × Misses n rs

-- the calls of n failing rounds
abbrev pub failing : Mode → (fd n : ℕ) → List Syscall → List Syscall
failing mode fd zero cs = cs
failing mode fd (suc n) cs = failing mode fd n (slept 100 ∷ flocked mode false fd ∷ cs)

-- n calls failed; then one succeeded, or one more failed and the time was up
abbrev pub Waited :
    Mode → (fd start timeout : ℕ) → List Round → World → (n : ℕ) → Bool × World → Type 0
Waited mode fd start timeout rs w n (b, w') =
    Misses n rs
    × ((r : Round) × (get_elem? rs n ≡ some r)
        × (r.taken ≡ b)
        × (if b
            then w'.calls ≡ flocked mode false fd ∷ failing mode fd n w.calls
            else (w'.calls ≡ failing mode fd (suc n) w.calls)
              × ((ms : ℕ) × (systick_get r.readings ≡ some (ms % word)) × (start + timeout ≤ ms))))

time_up :
    (start ms timeout : ℕ) → ltb (ms - start) timeout ≡ false → start ≤ ms → start + timeout ≤ ms
time_up start ms timeout up le = ground (arith, lt→ltb (ms - start) timeout)

time_left :
    (start ms timeout k : ℕ)
    → ltb (ms - start) timeout ≡ true
    → start + 100 * suc k ≤ ms
    → 100 * suc k < timeout
time_left start ms timeout k more late = omega (arith, ltb→lt (ms - start) timeout more, late)

module _ (mode : Mode) (fd start timeout : ℕ) where
  elapsed_lem :
      (r : Round) (ms : ℕ)
      → systick_get r.readings ≡ some (ms % word)
      → start ≤ ms
      → ms < start + word
      → systick_elapsed (start % word) r.readings ≡ some (ms - start)
  unfolding systick_elapsed
  elapsed_lem r ms read le lt =
      rw (read, systick_elapsed) (ap some (systick_diff-distance start ms le lt))

  round_taken :
      (r : Round) (w : World)
      → r.taken ≡ true
      → flock_round mode fd (start % word) timeout r w
        ≡ some (over true, log (flocked mode false fd) w)
  unfolding flock_round
  round_taken r w taken = rw (taken, flock_round) refl

  round_missed :
      (r : Round) (w : World) (elapsed : ℕ)
      → r.taken ≡ false
      → systick_elapsed (start % word) r.readings ≡ some elapsed
      → flock_round mode fd (start % word) timeout r w
        ≡ some (
          if ltb elapsed timeout then again else over false,
          log (slept 100) (log (flocked mode false fd) w),
        )
  unfolding flock_round
  round_missed r w elapsed missed e = rw (missed, e, flock_round) refl

  flock_loop_lem :
      (rs : List Round) (k : ℕ) (w : World)
      → Paced start k rs
      → 100 * k ≤ timeout
      → timeout ≤ 100 * (k + length rs)
      → 0 < length rs
      → (n : ℕ) × (r : Bool × World) × (flock_loop mode fd (start % word) timeout rs w ≡ some r)
        × (100 * (k + n) ≤ timeout)
        × Waited mode fd start timeout rs w n r
  unfolding flock_loop
  flock_loop_lem [] k w paced low enough some_left = absurd (omega (arith, some_left))
  flock_loop_lem (r ∷ rs) k w ((ms, read, late, soon), paced) low enough some_left =
      let e = elapsed_lem r ms read (omega (arith, late)) soon in
      elim (Bool-cases r.taken) [
        | inl taken ↦ (
          0,
          (true, log (flocked mode false fd) w),
          rw (flock_loop, round_taken r w taken) refl,
          omega (arith, low),
          (tt, (r, refl, taken, refl)),
        )
        | inr missed ↦ elim (Bool-cases (ltb (ms - start) timeout)) [
          | inr up ↦ (
            0,
            (false, log (slept 100) (log (flocked mode false fd) w)),
            rw (flock_loop, round_missed r w (ms - start) missed e, up) refl,
            omega (arith, low),
            (
              tt,
              (
                r,
                refl,
                missed,
                (refl, (ms, read, time_up start ms timeout up (omega (arith, late)))),
              ),
            ),
          )
          | inl more ↦
              let early = time_left start ms timeout k more late in
              let (n, res, run, bound, done) =
                flock_loop_lem rs (suc k) (log (slept 100) (log (flocked mode false fd) w)) paced
                  (omega (arith, early)) (omega (arith, enough)) (omega (arith, enough, early)) in
              (
                suc n,
                res,
                rw (flock_loop, round_missed r w (ms - start) missed e, more) run,
                omega (arith, bound),
                ((missed, done.0), done.1),
              )
        ]
      ]

-- For a lock in a file, a timeout that is neither 0 nor SKY_INFINITE, and a clock that after each
-- sleep of a round is 100 ms further or more, and less than 2^32 ms behind the start:
-- sky_rwlock_wrlock and sky_rwlock_rdlock return after at most timeout / 100 failed rounds and one
-- more. They give true if the last call of flock succeeded, and false only if every call failed
-- and the time was up; behind each failed call they slept.
pub timed_lock_lem :
    (mode : Mode) (fd start timeout : ℕ) (p : Rwlock) (s : Ready) (w : World)
    → p.fd_rwlock ≡ some fd
    → systick_get s.readings ≡ some (start % word)
    → (timeout == 0) ≡ false
    → (timeout == infinite) ≡ false
    → Paced start 0 s.rounds
    → timeout ≤ 100 * length s.rounds
    → (n : ℕ) × (r : Bool × World) × (lock mode (some p) timeout s w ≡ ok (some r))
      × (100 * n ≤ timeout)
      × Waited mode fd start timeout s.rounds w n r
unfolding lock lock_file
timed_lock_lem mode fd start timeout p s w file read some_time bounded paced enough =
    let (n, r, run, bound, done) =
      flock_loop_lem mode fd start timeout s.rounds 0 w paced (omega arith) (omega (arith, enough))
        (ground (arith)) in
    (n, r, rw (file, read, bounded, some_time, run) refl, omega (arith, bound), done)
