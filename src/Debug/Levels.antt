-- ===== src/Debug/Levels.antt =====
-- Which lines the level lets pass that sky_debug_init reads (sky/src/sky_debug.c).
use skysdk.Base.{
  ◌<◌, ◌≤◌, ◌≡◌, ◌⊎◌, refl, sym, inl, inr, Bool, true, false, ltb, ltb→lt, Bool-cases, Option, none,
  some, List, [], ◌∷◌, Str, arith,
}
use skysdk.Str.{case_eq}
use skysdk.Debug.{
  Level, fatal, error, warn, trace, debug, number, Settings, Clock, Output, name_of, level_of,
  debug_init, sys_log, log_line,
}

-- texts that differ by the case of letters alone compare alike
case_eq_trans : (s t r : Str) → case_eq s t ≡ true → case_eq s r ≡ case_eq t r
unfolding case_eq
case_eq_trans [] [] r same = refl
case_eq_trans [] (b ∷ t) r same = cc
case_eq_trans (a ∷ s) [] r same = cc
case_eq_trans (a ∷ s) (b ∷ t) [] same = refl
case_eq_trans (a ∷ s) (b ∷ t) (c ∷ r) same = ground (arith, same, case_eq_trans s t r)

level_of-name_of : (l before : Level) → level_of (some (name_of l)) before ≡ l
unfolding level_of case_eq
level_of-name_of fatal before = refl
level_of-name_of error before = refl
level_of-name_of warn before = refl
level_of-name_of trace before = refl
level_of-name_of debug before = refl

named_level :
    (text : Str) (l before : Level)
    → case_eq text (name_of l) ≡ true
    → level_of (some text) before ≡ l
unfolding level_of
named_level text l before same =
    let alike = λ (k : Level). case_eq_trans text (name_of l) (name_of k) same in
    rw (alike fatal, alike error, alike warn, alike trace, alike debug) (level_of-name_of l before)

-- The level that SKY_LOG_LEVEL asks for: the one of which it is the name, in capitals or not, and the
-- level of before where it is not set or not a name.
abbrev pub Chosen : Option Str → (before l : Level) → Type 0
Chosen none before l = l ≡ before
Chosen (some text) before l =
    (case_eq text (name_of l) ≡ true)
    ⊎ (((k : Level) → case_eq text (name_of k) ≡ false) × (l ≡ before))

level_of_lem :
    (log_level : Option Str) (before l : Level)
    → Chosen log_level before l
    → level_of log_level before ≡ l
unfolding level_of
level_of_lem none before l chosen = sym chosen
level_of_lem (some text) before l (inl same) = named_level text l before same
level_of_lem (some text) before l (inr (unknown, kept)) =
    rw (unknown fatal, unknown error, unknown warn, unknown trace, unknown debug) (sym kept)

-- after the start, the macros write what is up to the chosen level, and nothing above it
log_line-debug_init :
    (log_level : Option Str) (s : Settings) (l : Level)
    → Chosen log_level s.sky_log_level l
    → (m : Level) (background : Bool) (time : Option Clock) (fmt : Str) (out : List Output)
    → ((number m ≤ number l)
        × (log_line m background time fmt (debug_init log_level s).1 out
            ≡ sys_log m background time fmt ∷ out))
      ⊎ ((number l < number m)
          × (log_line m background time fmt (debug_init log_level s).1 out ≡ out))
unfolding debug_init log_line
log_line-debug_init log_level s l chosen m background time fmt out =
    let e = level_of_lem log_level s.sky_log_level l chosen in
    elim (Bool-cases (ltb (number l) (number m))) [
      | inl above ↦ inr (ltb→lt (number l) (number m) above, rw (e, above) refl)
      | inr within ↦ inl (ground arith, rw (e, within) refl)
    ]
