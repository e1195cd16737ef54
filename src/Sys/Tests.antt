-- ===== src/Sys/Tests.antt =====
-- The functions of sky/src/sky_sys.c on single values.
use skysdk.Base.{
  ℕ, ◌+◌, ◌*◌, ◌%◌, ◌≡◌, refl, ◌<◌, ltb, if◌then◌else◌, true, some, [], ◌∷◌, ◌++◌, length, Returns,
  arith,
}
use skysdk.Sys.{
  word, Timeval, systick_diff, abstime_after_msec, failed, done, get_process_name,
  get_process_directory,
}
use skysdk.Base.{zero, suc, inl, inr, List, ◌/◌, ◌≤◌, leb, Bool-cases}
use skysdk.Base.Int.{pos}
use skysdk.Sys.{Timespec}
use skysdk.Sys.Sleep.{
  Nap, slept, interrupted, nanosleep, systick_sleep, nanoseconds, IsTime, Documented, time_asleep,
  systick_sleep_lem,
}
use skysdk.Sys.Calendar.{Time, SystemTime, Calendar, to_sys_time, from_sys_time}
use skysdk.Sys.Dates.{Date, IsDate, as_tm, to_sys_time-from_sys_time}
use skysdk.Sys.Ticks.{Later, ticks_lem}
use skysdk.Sys.Paths.{process_path_lem}

abbrev now : Timeval
now = record { seconds = 100; tv_usec = 999_000 }

ticks_lem_example :
    ((systick_diff 0xffff_fff0 16 < word)
      × ((0xffff_fff0 + systick_diff 0xffff_fff0 16) % word ≡ 16))
    × Returns (Later 2001 now) (abstime_after_msec 2001 (some now))
ticks_lem_example = ticks_lem 0xffff_fff0 16 2001 now (omega arith) (omega arith)

process_path_lem_example :
    (get_process_name true 9 (some (47 ∷ (98 ∷ []) ++ 47 ∷ (115 ∷ 104 ∷ []))) ≡ (
      if ltb 9 (length {A = ℕ} (115 ∷ 104 ∷ []) + 1)
      then failed 5
      else done (length {A = ℕ} (115 ∷ 104 ∷ [])) (115 ∷ 104 ∷ [])))
    × (get_process_directory true 9 (some (47 ∷ (98 ∷ []) ++ 47 ∷ (115 ∷ 104 ∷ []))) ≡ (
        if ltb 9 (length {A = ℕ} (47 ∷ 98 ∷ []) + 1)
        then failed 5
        else done (length {A = ℕ} (47 ∷ 98 ∷ [])) (47 ∷ 98 ∷ [])))
process_path_lem_example = process_path_lem 47 (98 ∷ []) (115 ∷ 104 ∷ []) 9 refl (omega arith)

-- a sleep of two seconds that a signal cuts after 0.4 s
abbrev rest : Timespec
rest = record { tv_sec = 1; tv_nsec = 600_000_000 }

abbrev one_signal : ℕ → Timespec → Nap
one_signal zero req = if leb 1_600_000_000 (nanoseconds req) then interrupted rest else slept
one_signal (suc i) req = slept

one_signal-Documented : Documented one_signal
one_signal-Documented zero req proper = elim (Bool-cases (leb 1_600_000_000 (nanoseconds req))) [
  | inl long ↦ inr (rest, rw long refl, omega arith, ground (arith, long))
  | inr short ↦ inl (rw short refl)
]
one_signal-Documented (suc i) req proper = inl refl

later_calm : (i : ℕ) (req : Timespec) → IsTime req → 1 ≤ i → one_signal i req ≡ slept
later_calm zero req proper le = absurd (omega (arith, le))
later_calm (suc i) req proper le = refl

systick_sleep_lem_example :
    (reqs : List Timespec) × (systick_sleep one_signal 2 2000 ≡ some (nanosleep reqs))
    × (length reqs ≤ 2)
    × (time_asleep one_signal 0 reqs ≡ 2000 * (1000 * 1000))
systick_sleep_lem_example =
    systick_sleep_lem one_signal one_signal-Documented 1 later_calm 2000 (omega arith)

-- 3 January 1970, 00:00:10
abbrev date : Date
date = record {
  tm_year = 70;
  tm_mon = 0;
  tm_wday = 6;
  tm_yday = 2;
  tm_mday = 3;
  tm_hour = 0;
  tm_min = 0;
  tm_sec = 10;
}

date-IsDate : IsDate date
date-IsDate = record {
  year = omega arith;
  mon = omega arith;
  wday = omega arith;
  yday = omega arith;
  mday = omega arith;
  hour = omega arith;
  minute = omega arith;
  second = omega arith;
}

abbrev moment : Time
moment = record { seconds_since = 172_810; useconds = 5_678 }

abbrev utc : Calendar
utc = record {
  gmtime_r = λ t. some (as_tm date);
  localtime_r = λ t. some (as_tm date);
  mktime = λ t. pos 172_810;
  timezone = pos 0;
}

to_sys_time-from_sys_time_example :
    (s : SystemTime) × (to_sys_time utc moment ≡ some s)
    × (from_sys_time utc s
        ≡ some (record { seconds_since = 172_810; useconds = moment.useconds / 1000 * 1000 }))
to_sys_time-from_sys_time_example =
    to_sys_time-from_sys_time utc moment date (omega arith) (omega arith) refl date-IsDate refl
