-- ===== src/Sys/Sleep.antt =====
-- sky_systick_sleep (sky/src/sky_sys.c), which goes on after a signal.
use skysdk.Base.{
  Bool-cases, ltb→lt, lt→ltb, ℕ, zero, suc, ◌-◌, ◌<◌, ◌⊎◌, inl, inr, ◌+◌, ◌*◌, ◌/◌, ◌%◌, ◌≤◌, ◌≡◌,
  refl, ◌∙◌, false, ltb, Option, none, some, List, [], ◌∷◌, length, if◌then◌else◌, arith,
}
use skysdk.Sys.{Timespec}

-- What nanosleep comes to: the whole time has passed, a signal came in between and `rem` is left, or it
-- fails for another reason.
pub data Nap : Type 0 where
  slept : Nap
  interrupted : (rem : Timespec) → Nap
  failed : Nap

-- the loop on fuel, from the call number `i` of nanosleep on: the requests made; `none` while it still
-- sleeps. The system's nanosleep is the parameter `naps`.
unfoldable pub nap_loop :
    (naps : ℕ → Timespec → Nap) → (fuel i : ℕ) → (req : Timespec) → Option (List Timespec)
nap_loop naps zero i req = none
nap_loop naps (suc fuel) i req = elim (naps i req) [
  | slept ↦ some (req ∷ [])
  | failed ↦ some (req ∷ [])
  | interrupted rem ↦ elim (nap_loop naps fuel (suc i) rem) [
    | none ↦ none
    | some reqs ↦ some (req ∷ reqs)
  ]
]

-- the argument of usleep, or the requests to nanosleep
pub data Sleep : Type 0 where
  usleep : (microseconds : ℕ) → Sleep
  nanosleep : (reqs : List Timespec) → Sleep

abbrev pub request_of : ℕ → Timespec
request_of milliseconds = record {
  tv_sec = milliseconds / 1000;
  tv_nsec = milliseconds % 1000 * (1000 * 1000);
}

-- sky_systick_sleep
unfoldable pub systick_sleep : (naps : ℕ → Timespec → Nap) → (fuel milliseconds : ℕ) → Option Sleep
systick_sleep naps fuel milliseconds =
    let ms = if ltb milliseconds 1 then 1 else milliseconds in
    let long : Option Sleep = elim (nap_loop naps fuel 0 (request_of ms)) [
      | none ↦ none
      | some reqs ↦ some (nanosleep reqs)
    ] in
    if ltb ms 1000 then some (usleep (ms * 1000)) else long

abbrev pub nanoseconds : Timespec → ℕ
nanoseconds t = t.tv_sec * (1000 * 1000 * 1000) + t.tv_nsec

-- how long a nap for `req` took
abbrev pub time_of : (req : Timespec) → Nap → ℕ
time_of req slept = nanoseconds req
time_of req (interrupted rem) = nanoseconds req - nanoseconds rem
time_of req failed = 0

-- how long the naps for the requests took together, from number `i` on
abbrev pub time_asleep : (naps : ℕ → Timespec → Nap) → (i : ℕ) → List Timespec → ℕ
time_asleep naps i [] = 0
time_asleep naps i (req ∷ reqs) = time_of req (naps i req) + time_asleep naps (suc i) reqs

-- less than a second of nanoseconds, as nanosleep requires
abbrev pub IsTime : Timespec → Type 0
IsTime t = t.tv_nsec < 1000 * 1000 * 1000

-- What the system documents: a nap is for the whole time, or is interrupted and leaves what is left of
-- it.
abbrev pub Documented : (naps : ℕ → Timespec → Nap) → Type 0
Documented naps =
    (i : ℕ) (req : Timespec)
    → IsTime req
    → (naps i req ≡ slept)
      ⊎ ((rem : Timespec) × (naps i req ≡ interrupted rem)
          × IsTime rem
          × (nanoseconds rem ≤ nanoseconds req))

module _ (naps : ℕ → Timespec → Nap) (law : Documented naps) (last : ℕ)
    (calm : (i : ℕ) (req : Timespec) → IsTime req → last ≤ i → naps i req ≡ slept) where
  earlier : (i : ℕ) (req rem : Timespec) → IsTime req → naps i req ≡ interrupted rem → i < last
  earlier i req rem proper cut = elim (Bool-cases (ltb i last)) [
    | inl before ↦ ltb→lt i last before
    | inr behind ↦ absurd (let whole = calm i req proper (ground (arith, lt→ltb i last)) in cc)
  ]

  nap_loop_lem :
      (fuel i : ℕ) (req : Timespec)
      → IsTime req
      → i ≤ last
      → last < i + fuel
      → (reqs : List Timespec) × (nap_loop naps fuel i req ≡ some reqs)
        × (length reqs ≤ fuel)
        × (time_asleep naps i reqs ≡ nanoseconds req)
  unfolding nap_loop
  nap_loop_lem zero i req proper started enough = absurd (omega (arith, started, enough))
  nap_loop_lem (suc fuel) i req proper started enough = elim (law i req proper) [
    | inl whole ↦ (req ∷ [], rw (nap_loop, whole) refl, omega arith, rw whole (omega arith))
    | inr (rem, cut, proper', less) ↦
        let (reqs, run, few, time) =
          nap_loop_lem fuel (suc i) rem proper' (omega (arith, earlier i req rem proper cut))
            (omega (arith, enough)) in
        (
          req ∷ reqs,
          rw (nap_loop, cut, run) refl,
          omega (arith, few),
          rw cut (omega (arith, time, less)),
        )
  ]

  -- For a sleep of a second or more, and a nanosleep that sleeps for the whole of what it is asked
  -- for or, at most 'last' times, is interrupted and leaves what is left of it: sky_systick_sleep
  -- ends, by at most one call of nanosleep more, and its requests together have it asleep for
  -- exactly the given milliseconds.
  pub systick_sleep_lem :
      (milliseconds : ℕ)
      → 1000 ≤ milliseconds
      → (reqs : List Timespec) × (systick_sleep naps (suc last) milliseconds
          ≡ some (nanosleep reqs))
        × (length reqs ≤ suc last)
        × (time_asleep naps 0 reqs ≡ milliseconds * (1000 * 1000))
  unfolding systick_sleep
  systick_sleep_lem milliseconds long =
      let (reqs, run, few, time) =
        nap_loop_lem (suc last) 0 (request_of milliseconds) (omega arith) (omega arith)
          (omega arith) in
      let positive : ltb milliseconds 1 ≡ false = ground (arith, long) in
      let second : ltb milliseconds 1000 ≡ false = ground (arith, long) in
      (reqs, rw (positive, second, run) refl, few, time ∙ omega arith)
