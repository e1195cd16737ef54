-- ===== src/Debug.antt =====
-- sky/src/sky_debug.c and the macros of sky/include/sky_debug.h: the level of the log, its lines, and
-- the dump of a buffer. What getenv and sky_time_get_localtime gave is an argument; what is written is
-- a list, the latest in front.
pub mod Dump
pub mod Levels
mod Tests
use skysdk.Base.{
  ℕ, zero, suc, ◌+◌, ◌-◌, ◌/◌, ◌%◌, ltb, leb, ◌==◌, Bool, true, false, ◌&&◌, Option, none, some,
  List, [], ◌∷◌, ◌++◌, Str, length, if◌then◌else◌, Run, ok, fault, ◌>>=◌,
}
use skysdk.Str.{digit, case_eq}

-- SKY_LOG_LEVEL_DEBUG and the others, by their numbers
pub data Level : Type 0 where
  fatal : Level
  error : Level
  warn : Level
  trace : Level
  debug : Level

unfoldable pub number : Level → ℕ
number fatal = 2
number error = 3
number warn = 4
number trace = 5
number debug = 6

-- sky_log_level, and the mask that setlogmask was given, as the number up to which it lets lines pass
pub record Settings : Type 0 where
  pub sky_log_level : Level
  pub log_mask : Option ℕ

-- the hour, minute, second and millisecond of local time
abbrev pub Clock : Type 0
Clock = ℕ × ℕ × ℕ × ℕ

-- where a text goes: to syslog with a priority, or to the standard output behind a time, if there is one
pub data Output : Type 0 where
  sys_logged : (priority : ℕ) → (text : Str) → Output
  printed : (time : Option Clock) → (text : Str) → Output

-- the texts "FATAL", "ERROR", "WARN", "TRACE" and "DEBUG"
abbrev pub name_of : Level → Str
name_of fatal = b'F' ∷ b'A' ∷ b'T' ∷ b'A' ∷ b'L' ∷ []
name_of error = b'E' ∷ b'R' ∷ b'R' ∷ b'O' ∷ b'R' ∷ []
name_of warn = b'W' ∷ b'A' ∷ b'R' ∷ b'N' ∷ []
name_of trace = b'T' ∷ b'R' ∷ b'A' ∷ b'C' ∷ b'E' ∷ []
name_of debug = b'D' ∷ b'E' ∷ b'B' ∷ b'U' ∷ b'G' ∷ []

-- the tests of sky_debug_init, in their order
unfoldable pub level_of : Option Str → Level → Level
level_of none before = before
level_of (some log_level) before =
    if case_eq log_level (name_of fatal)
    then fatal
    else if case_eq log_level (name_of error)
    then error
    else if case_eq log_level (name_of warn)
    then warn
    else if case_eq log_level (name_of trace)
    then trace
    else if case_eq log_level (name_of debug)
    then debug
    else before

-- sky_debug_init, with what getenv gave for SKY_LOG_LEVEL
unfoldable pub debug_init : (log_level : Option Str) → Settings → Bool × Settings
unfolding level_of
debug_init log_level s =
    let level = level_of log_level s.sky_log_level in
    (true, record { sky_log_level = level; log_mask = some (number level) })

-- SYSLOG, and so sky_log_debug and the others with their priorities; `fmt` is the text that the format
-- gives with its arguments
unfoldable pub sys_log :
    Level → (background : Bool) → (local_time : Option Clock) → (fmt : Str) → Output
sys_log prio background local_time fmt =
    if background then sys_logged (number prio) fmt else printed local_time fmt

-- the macros SKY_LOG_DEBUG and the others
unfoldable pub log_line :
    Level
    → (background : Bool) → (local_time : Option Clock) → (fmt : Str) → Settings
    → List Output
    → List Output
log_line level background local_time fmt s out =
    if ltb (number s.sky_log_level) (number level)
    then out
    else sys_log level background local_time fmt ∷ out

-- `sizeof( output )` of sky_log_print_buf
abbrev pub output_size : ℕ
output_size = 1024

-- The loop of sky_log_print_buf, which has written `out` to its buffer. sky_str_printf writes two
-- digits, a blank and a NUL.
unfoldable pub dump_loop : (len : ℕ) → (buf out : List ℕ) → Run (List ℕ)
dump_loop zero buf out = ok out
dump_loop (suc len) buf out =
    if ltb (length out) output_size
    then (elim buf [
      | [] ↦ fault
      | b ∷ bs ↦
          if ltb output_size (length out + 4)
          then fault
          else dump_loop len bs (out ++ digit (b / 16) ∷ digit (b % 16) ∷ 32 ∷ [])
    ])
    else ok out

-- sky_log_print_buf; the NUL behind the text stands in the buffer too
unfoldable pub print_buf : (background : Bool) → (buf : List ℕ) → (len : ℕ) → Run Output
unfolding dump_loop
print_buf background buf len = dump_loop len buf [] >>= λ out.
    if ltb (length out) output_size
    then ok (if background then sys_logged 5 out else printed none out)
    else fault
