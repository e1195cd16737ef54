-- ===== src/Sys.antt =====
-- sky/src/sky_sys.c: the millisecond tick with its wrap-around, the absolute time of a timeout, and
-- the name and directory of the running program. What a system call returned is an argument.
pub mod Ticks
pub mod Paths
pub mod Sleep
pub mod Calendar
pub mod Dates
mod Tests
use skysdk.Base.{
  ℕ, zero, suc, ◌+◌, ◌-◌, ◌*◌, ◌/◌, ◌%◌, ◌==◌, ltb, Bool, true, false, Option, none, some, List, [],
  ◌∷◌, length, take, drop, if◌then◌else◌, Run, ok, fault,
}

-- the values of a uint32_t
abbrev pub word : ℕ
word = 0x1_0000_0000

-- struct timespec
pub record Timespec : Type 0 where
  pub tv_sec : ℕ
  pub tv_nsec : ℕ

-- struct timeval
pub record Timeval : Type 0 where
  pub seconds : ℕ
  pub tv_usec : ℕ

-- the tick of one reading of the clock
unfoldable pub tick_of : Timespec → ℕ
tick_of tp = (tp.tv_sec * 1000 + tp.tv_nsec / (1000 * 1000)) % word

-- sky_systick_get, on the readings that clock_gettime gives in turn; `none` while it still asks
unfoldable pub systick_get : List Timespec → Option ℕ
unfolding tick_of
systick_get [] = none
systick_get (tp ∷ later) =
    let rest = systick_get later in if tick_of tp == 0 then rest else some (tick_of tp)

unfoldable pub systick_diff : (early_tick later_tick : ℕ) → ℕ
systick_diff early_tick later_tick =
    if early_tick == 0
    then later_tick
    else if ltb later_tick early_tick
    then ((0xffff_ffff - early_tick + later_tick) % word + 1) % word
    else later_tick - early_tick

unfoldable pub systick_elapsed : (last_tick : ℕ) → List Timespec → Option ℕ
unfolding systick_get systick_diff
systick_elapsed last_tick readings = elim (systick_get readings) [
  | none ↦ none
  | some tick ↦ some (systick_diff last_tick tick)
]

-- sky_abstime_after_msec, on what gettimeofday gave: after a failure the code goes on with a time that
-- it has not set
unfoldable pub abstime_after_msec : (milliseconds : ℕ) → Option Timeval → Run Timespec
abstime_after_msec milliseconds none = fault
abstime_after_msec milliseconds (some tv) =
    let usec = tv.tv_usec + milliseconds % 1000 * 1000 in
    ok (record {
      tv_sec = tv.seconds + milliseconds / 1000 + usec / (1000 * 1000);
      tv_nsec = usec % (1000 * 1000) * 1000;
    })

-- what the two functions on paths return: minus a code, or a length with the text in the buffer
pub data PathResult : Type 0 where
  failed : (code : ℕ) → PathResult
  done : (path_len : ℕ) → (text : List ℕ) → PathResult

-- strrchr( ..., '/' ), as the number of characters in front of the slash
unfoldable pub last_slash : List ℕ → Option ℕ
last_slash [] = none
last_slash (c ∷ cs) = elim (last_slash cs) [
  | none ↦ if c == 47 then some 0 else none
  | some i ↦ some (suc i)
]

-- sky_sys_get_process_name, with the target of the link that readlink gave
unfoldable pub get_process_name : (buf : Bool) → (len : ℕ) → Option (List ℕ) → PathResult
unfolding last_slash
get_process_name false len target = failed 1
get_process_name true len none = if ltb 1 len then failed 3 else failed 2
get_process_name true len (some link_target) =
    if ltb 1 len
    then (elim (last_slash link_target) [
      | none ↦ failed 4
      | some i ↦
          if i == 0
          then failed 4
          else (let path_len = length link_target - (i + 1) in
              if ltb len (path_len + 1)
              then failed 5
              else done path_len (take path_len (drop (i + 1) link_target)))
    ])
    else failed 2

unfoldable pub get_process_directory : (buf : Bool) → (len : ℕ) → Option (List ℕ) → PathResult
unfolding last_slash
get_process_directory false len target = failed 1
get_process_directory true len none = if ltb 1 len then failed 3 else failed 2
get_process_directory true len (some link_target) =
    if ltb 1 len
    then (elim (last_slash link_target) [
      | none ↦ failed 4
      | some i ↦
          if i == 0
          then failed 4
          else if ltb len (i + 1)
          then failed 5
          else done i (take i link_target)
    ])
    else failed 2
