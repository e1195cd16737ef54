-- ===== src/Sys/Dates.antt =====
-- A time of sky/src/sky_sys.c that goes through a date and back.
use skysdk.Base.{
  ℕ, ◌+◌, ◌*◌, ◌/◌, ◌%◌, ◌^◌, ◌<◌, ◌≡◌, refl, ap, ◌∙◌, true, leb, lt→ltb, some, arith,
}
use skysdk.Base.Int.{ℤ, pos}
use skysdk.Sys.Calendar.{
  to_u16, minus, plus, Tm, Time, SystemTime, Calendar, tm_time_to_sys_time, sys_time_to_tm_time,
  to_time_t, from_time_t, to_sys_time, from_sys_time,
}

-- the fields of a date, as struct tm counts them
pub record Date : Type 0 where
  pub tm_year : ℕ
  pub tm_mon : ℕ
  pub tm_wday : ℕ
  pub tm_yday : ℕ
  pub tm_mday : ℕ
  pub tm_hour : ℕ
  pub tm_min : ℕ
  pub tm_sec : ℕ

abbrev pub as_tm : Date → Tm
as_tm d = record {
  tm_year = pos d.tm_year;
  tm_mon = pos d.tm_mon;
  tm_wday = pos d.tm_wday;
  tm_yday = pos d.tm_yday;
  tm_mday = pos d.tm_mday;
  tm_hour = pos d.tm_hour;
  tm_min = pos d.tm_min;
  tm_sec = pos d.tm_sec;
  tm_isdst = pos 0;
}

-- the ranges of the fields, and a year that fits in a uint16_t
pub record IsDate (d : Date) : Type 0 where
  pub year : d.tm_year + 1900 < 0x1_0000
  pub mon : d.tm_mon < 12
  pub wday : d.tm_wday < 7
  pub yday : d.tm_yday < 366
  pub mday : d.tm_mday < 32
  pub hour : d.tm_hour < 24
  pub minute : d.tm_min < 60
  pub second : d.tm_sec < 62

field_back : (n b : ℕ) → n + b < 0x1_0000 → minus (to_u16 (plus (pos n) b)) b ≡ pos n
unfolding minus to_u16 plus
field_back n b small =
    let whole : (n + b) % 0x1_0000 ≡ n + b = omega (arith, small) in
    let above : leb b (n + b) ≡ true = ground (arith) in rw (whole, above) (ap pos (omega arith))

kept : (n : ℕ) → n < 0x1_0000 → to_u16 (pos n) ≡ n
unfolding to_u16
kept n small = omega (arith, small)

tm_back :
    (zone : ℤ) (ms : ℕ) (d : Date)
    → IsDate d
    → sys_time_to_tm_time (tm_time_to_sys_time zone ms (as_tm d)) ≡ as_tm d
unfolding sys_time_to_tm_time tm_time_to_sys_time
tm_back zone ms d is =
    rw
      (
        field_back d.tm_year 1900 is.year,
        field_back d.tm_mon 1 (omega (arith, is.mon)),
        field_back d.tm_wday 1 (omega (arith, is.wday)),
        field_back d.tm_yday 1 (omega (arith, is.yday)),
        kept d.tm_mday (omega (arith, is.mday)),
        kept d.tm_hour (omega (arith, is.hour)),
        kept d.tm_min (omega (arith, is.minute)),
        kept d.tm_sec (omega (arith, is.second)),
      )
      refl

small-time_t : (n : ℕ) → n < 2 ^ 63 → to_time_t n ≡ pos n
unfolding to_time_t
small-time_t n small = rw (lt→ltb n (2 ^ 63) small) refl

to_sys_time_run :
    (calendar : Calendar) (time : Time) (t : Tm)
    → calendar.gmtime_r (to_time_t time.seconds_since) ≡ some t
    → to_sys_time calendar time
      ≡ some (tm_time_to_sys_time (pos 0) (time.useconds / 1000 % 0x1_0000) t)
unfolding to_sys_time
to_sys_time_run calendar time t gm = rw (gm, to_sys_time) refl

from_sys_time_run :
    (calendar : Calendar) (s : SystemTime) (n : ℕ)
    → calendar.mktime (sys_time_to_tm_time s) ≡ pos n
    → from_sys_time calendar s
      ≡ some (record { seconds_since = n; useconds = s.milliseconds * 1000 % 0x1_0000_0000 })
unfolding from_sys_time from_time_t
from_sys_time_run calendar s n mk = rw (mk, from_sys_time, mk) refl

-- For a time below 2^63 s with less than a second of microseconds, of which gmtime_r gives a date
-- with its fields in range and a year below 65536, and where mktime of that date is the time
-- again, as it is when local time is UTC: sky_time_to_sys_time gives a date, and
-- sky_time_from_sys_time of it gives the time, with the microseconds cut to whole milliseconds.
pub to_sys_time-from_sys_time :
    (calendar : Calendar) (time : Time) (d : Date)
    → time.seconds_since < 2 ^ 63
    → time.useconds < 1000 * 1000
    → calendar.gmtime_r (pos time.seconds_since) ≡ some (as_tm d)
    → IsDate d
    → calendar.mktime (as_tm d) ≡ pos time.seconds_since
    → (s : SystemTime) × (to_sys_time calendar time ≡ some s)
      × (from_sys_time calendar s
          ≡ some (record {
            seconds_since = time.seconds_since;
            useconds = time.useconds / 1000 * 1000;
          }))
unfolding tm_time_to_sys_time
to_sys_time-from_sys_time calendar time d small fraction gm is mk =
    let ms = time.useconds / 1000 % 0x1_0000 in
    let us : ms * 1000 % 0x1_0000_0000 ≡ time.useconds / 1000 * 1000 = omega (arith, fraction) in
    (
      tm_time_to_sys_time (pos 0) ms (as_tm d),
      to_sys_time_run calendar time (as_tm d)
          (ap calendar.gmtime_r (small-time_t time.seconds_since small) ∙ gm),
      from_sys_time_run calendar (tm_time_to_sys_time (pos 0) ms (as_tm d)) time.seconds_since
            (ap calendar.mktime (tm_back (pos 0) ms d is) ∙ mk)
          ∙ ap (λ u. some (record { seconds_since = time.seconds_since; useconds = u })) us,
    )
