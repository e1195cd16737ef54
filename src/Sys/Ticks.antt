-- ===== src/Sys/Ticks.antt =====
-- The tick counter of sky/src/sky_sys.c and the time of a timeout.
use skysdk.Base.{
  ℕ, ◌+◌, ◌*◌, ◌%◌, ◌<◌, ◌≤◌, ◌≡◌, ◌==◌, ltb, ltb→lt, lt→ltb, some, arith, inl, inr, Bool-cases,
  Returns, returns,
}
use skysdk.Sys.{word, Timeval, Timespec, systick_diff, abstime_after_msec}

-- For ticks of 32 bits, sky_systick_diff gives a number of 32 bits, and the early tick moved on by
-- it is the later one, modulo 2^32.
pub systick_diff_lem :
    (early_tick later_tick : ℕ)
    → early_tick < word
    → later_tick < word
    → (systick_diff early_tick later_tick < word)
      × ((early_tick + systick_diff early_tick later_tick) % word ≡ later_tick)
unfolding systick_diff
systick_diff_lem e l se sl = elim (Bool-cases (e == 0)) [
  | inl z ↦ let h : e ≡ 0 = ground arith in rw z (omega arith, omega (arith, h))
  | inr ne ↦ elim (Bool-cases (ltb l e)) [
    | inl lt ↦ let h = ltb→lt l e lt in rw (ne, lt) (omega arith, omega (arith, h))
    | inr ge ↦
        let h : e ≤ l = ground (arith, lt→ltb l e) in rw (ne, ge) (omega arith, omega (arith, h))
  ]
]

-- the time `milliseconds` later, with less than a second of nanoseconds
abbrev pub Later : (milliseconds : ℕ) → Timeval → Timespec → Type 0
Later milliseconds tv t =
    (t.tv_nsec < 1000 * 1000 * 1000)
    × (t.tv_sec * (1000 * 1000 * 1000) + t.tv_nsec
        ≡ (tv.seconds * (1000 * 1000) + tv.tv_usec + milliseconds * 1000) * 1000)

abstime_after_msec_lem :
    (milliseconds : ℕ) (tv : Timeval)
    → Returns (Later milliseconds tv) (abstime_after_msec milliseconds (some tv))
unfolding abstime_after_msec
abstime_after_msec_lem milliseconds tv = returns (omega arith, omega arith)

-- For ticks of 32 bits, sky_systick_diff gives a number of 32 bits, and the early tick moved on by
-- it is the later one, modulo 2^32. When the time of day could be read, sky_abstime_after_msec
-- gives the moment `milliseconds` later, and its nanoseconds are less than a second.
pub ticks_lem :
    (early_tick later_tick milliseconds : ℕ) (tv : Timeval)
    → early_tick < word
    → later_tick < word
    → ((systick_diff early_tick later_tick < word)
        × ((early_tick + systick_diff early_tick later_tick) % word ≡ later_tick))
      × Returns (Later milliseconds tv) (abstime_after_msec milliseconds (some tv))
ticks_lem early_tick later_tick milliseconds tv early late =
    (systick_diff_lem early_tick later_tick early late, abstime_after_msec_lem milliseconds tv)
