-- ===== src/Sys/Calendar.antt =====
-- The conversions of sky/src/sky_sys.c between seconds and dates. gmtime_r, localtime_r and mktime are
-- the parameter `calendar`.
use skysdk.Base.{ℕ, ◌+◌, ◌-◌, ◌*◌, ◌/◌, ◌%◌, ◌^◌, ◌==◌, ltb, leb, Option, none, some, if◌then◌else◌}
use skysdk.Base.Int.{ℤ, pos, negsuc}
use skysdk.Sys.{Timespec, Timeval}

-- an int stored in a uint16_t, and in an int16_t
unfoldable pub to_u16 : ℤ → ℕ
to_u16 (pos n) = n % 0x1_0000
to_u16 (negsuc n) = 0xffff - n % 0x1_0000

unfoldable pub to_i16 : ℤ → ℤ
unfolding to_u16
to_i16 z = let u = to_u16 z in if ltb u 0x8000 then pos u else negsuc (0xffff - u)

-- `a - b` and `a + b` on int, for values that fit
unfoldable pub minus : ℕ → ℕ → ℤ
minus a b = if leb b a then pos (a - b) else negsuc (b - a - 1)

unfoldable pub plus : ℤ → ℕ → ℤ
plus (pos n) b = pos (n + b)
plus (negsuc n) b = if ltb n b then pos (b - n - 1) else negsuc (n - b)

-- `z / 60` on int, which rounds towards 0
unfoldable pub minutes : ℤ → ℤ
minutes (pos n) = pos (n / 60)
minutes (negsuc n) = let q = (n + 1) / 60 in if q == 0 then pos 0 else negsuc (q - 1)

-- struct tm
pub record Tm : Type 0 where
  pub tm_year : ℤ
  pub tm_mon : ℤ
  pub tm_wday : ℤ
  pub tm_yday : ℤ
  pub tm_mday : ℤ
  pub tm_hour : ℤ
  pub tm_min : ℤ
  pub tm_sec : ℤ
  pub tm_isdst : ℤ

-- SKY_TIME
pub record Time : Type 0 where
  pub seconds_since : ℕ
  pub useconds : ℕ

-- SKY_SYSTEM_TIME
pub record SystemTime : Type 0 where
  pub year : ℕ
  pub month : ℕ
  pub day_of_week : ℕ
  pub day_of_year : ℕ
  pub day : ℕ
  pub hour : ℕ
  pub minute : ℕ
  pub second : ℕ
  pub milliseconds : ℕ
  pub timezone : ℤ
  pub dstflag : ℤ

-- gmtime_r, localtime_r, mktime, and the variable `timezone`
pub record Calendar : Type 0 where
  pub gmtime_r : ℤ → Option Tm
  pub localtime_r : ℤ → Option Tm
  pub mktime : Tm → ℤ
  pub timezone : ℤ

-- tm_time_to_sys_time, with the three fields that its callers set
unfoldable pub tm_time_to_sys_time : (timezone : ℤ) → (milliseconds : ℕ) → Tm → SystemTime
unfolding to_u16 plus
tm_time_to_sys_time timezone milliseconds t = record {
  year = to_u16 (plus t.tm_year 1900);
  month = to_u16 (plus t.tm_mon 1);
  day_of_week = to_u16 (plus t.tm_wday 1);
  day_of_year = to_u16 (plus t.tm_yday 1);
  day = to_u16 t.tm_mday;
  hour = to_u16 t.tm_hour;
  minute = to_u16 t.tm_min;
  second = to_u16 t.tm_sec;
  milliseconds = milliseconds;
  timezone = timezone;
  dstflag = pos 0;
}

-- sys_time_to_tm_time, with the field that its caller sets
unfoldable pub sys_time_to_tm_time : SystemTime → Tm
unfolding minus
sys_time_to_tm_time s = record {
  tm_year = minus s.year 1900;
  tm_mon = minus s.month 1;
  tm_wday = minus s.day_of_week 1;
  tm_yday = minus s.day_of_year 1;
  tm_mday = pos s.day;
  tm_hour = pos s.hour;
  tm_min = pos s.minute;
  tm_sec = pos s.second;
  tm_isdst = s.dstflag;
}

-- a uint64_t read as a time_t, and back
unfoldable pub to_time_t : ℕ → ℤ
to_time_t n = if ltb n (2 ^ 63) then pos n else negsuc (2 ^ 64 - n - 1)

unfoldable pub from_time_t : ℤ → ℕ
from_time_t (pos n) = n
from_time_t (negsuc n) = 2 ^ 64 - n - 1

-- sky_time_get_localtime and sky_time_get_gmtime, on what gettimeofday gives
unfoldable pub get_civil : (convert : ℤ → Option Tm) → Calendar → Option Timeval → Option SystemTime
unfolding tm_time_to_sys_time to_i16 minutes
get_civil convert calendar none = none
get_civil convert calendar (some tv) = elim (convert (pos tv.seconds)) [
  | none ↦ none
  | some t ↦
      some
        (tm_time_to_sys_time (to_i16 (minutes calendar.timezone)) (tv.tv_usec / 1000 % 0x1_0000) t)
]

unfoldable pub get_localtime : Calendar → Option Timeval → Option SystemTime
unfolding get_civil
get_localtime calendar now = get_civil calendar.localtime_r calendar now

unfoldable pub get_gmtime : Calendar → Option Timeval → Option SystemTime
unfolding get_civil
get_gmtime calendar now = get_civil calendar.gmtime_r calendar now

-- sky_time_to_sys_time
unfoldable pub to_sys_time : Calendar → Time → Option SystemTime
unfolding tm_time_to_sys_time to_time_t
to_sys_time calendar time = elim (calendar.gmtime_r (to_time_t time.seconds_since)) [
  | none ↦ none
  | some t ↦ some (tm_time_to_sys_time (pos 0) (time.useconds / 1000 % 0x1_0000) t)
]

-- sky_time_from_sys_time
unfoldable pub from_sys_time : Calendar → SystemTime → Option Time
unfolding sys_time_to_tm_time from_time_t
from_sys_time calendar s =
    let t = calendar.mktime (sys_time_to_tm_time s) in
    let time : Time = record {
      seconds_since = from_time_t t;
      useconds = s.milliseconds * 1000 % 0x1_0000_0000;
    } in
    elim t [ pos n ↦ some time | negsuc n ↦ if n == 0 then none else some time ]

-- sky_time_utc_offset
unfoldable pub utc_offset : Calendar → ℤ
unfolding minutes
utc_offset calendar = minutes calendar.timezone

-- sky_time_get, on what clock_gettime gives
unfoldable pub time_get : Option Timespec → Option Time
time_get none = none
time_get (some ts) =
    some (record { seconds_since = ts.tv_sec; useconds = ts.tv_nsec / 1000 % 0x1_0000_0000 })

-- the argument with which sky_time_set calls clock_settime; the product is one of uint32_t
unfoldable pub time_set : Time → Timespec
time_set time = record {
  tv_sec = time.seconds_since;
  tv_nsec = time.useconds * 1000 % 0x1_0000_0000;
}
