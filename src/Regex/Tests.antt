-- ===== src/Regex/Tests.antt =====
-- sky/src/sky_regex.c with the expressions `.` and the empty one.
use mathlib.Core.Path.{subst}
use skysdk.Base.{
  ℕ, ◌+◌, ◌*◌, ◌==◌, not, ◌%◌, ◌<◌, ◌≤◌, ◌≡◌, refl, true, Option, none, some, List, [], ◌∷◌, Str,
  length, Returns, arith,
}
use skysdk.Memory.{Memory}
use skysdk.CriticalSection.Calls.{some-injective}
use skysdk.Regex.{Match, Engine, Regex, parse, match_count}
use skysdk.Regex.Scan.{Scans, Advances, match_count-endless}
use skysdk.Regex.Entries.{Counted, InText, Placed, match_count_lem}
use skysdk.Regex.Refused.{KeptTexts, parse_refused_lem}

-- what is compiled: whether it is the expression `.`
data Compiled : Type 0 where
  any_character : Compiled
  empty_match : Compiled

abbrev match_to : ℕ → Match
match_to eo = record { whole = (0, eo); groups = [] }

abbrev first_match : Compiled → Str → Option Match
first_match any_character [] = none
first_match any_character (c ∷ cs) = some (match_to 1)
first_match empty_match p = some (match_to 0)

abbrev engine : Engine Compiled
engine = record { regcomp = λ s. some any_character; regexec = first_match }

any_character-Advances : Advances engine any_character
any_character-Advances [] m found = cc
any_character-Advances (c ∷ cs) m found =
    subst (λ (m : Match). (0 < m.whole.1) × (m.whole.1 ≤ length (c ∷ cs))) (some-injective found)
      (omega arith, omega arith)

any_character-InText : InText engine any_character
any_character-InText [] m found = cc
any_character-InText (c ∷ cs) m found =
    subst (λ (m : Match). Placed (c ∷ cs) (some (m.whole) ∷ m.groups)) (some-injective found)
      (omega arith, omega arith, tt)

abbrev handle : Regex Compiled
handle = record { regex = any_character; sub_str = (99 ∷ []) ∷ [] }

abbrev memory : Memory
memory = record { grants = λ n. true; requests = 3; live = 5 }

match_count_lem_example :
    (ms : List (Str × Match)) × (n : ℕ) × Scans engine any_character (97 ∷ 98 ∷ []) ms
    × Counted ms n
    × (match_count engine 3 handle (97 ∷ 98 ∷ []) ≡ some (n % 0x1_0000_0000))
match_count_lem_example =
    match_count_lem engine 3 handle (97 ∷ 98 ∷ []) any_character-Advances (omega arith)

abbrev empty_handle : Regex Compiled
empty_handle = record { regex = empty_match; sub_str = [] }

match_count-endless_example : match_count engine 5 empty_handle (97 ∷ []) ≡ none
match_count-endless_example =
    match_count-endless engine empty_handle (97 ∷ []) (match_to 0) refl refl 5

-- the text of the second substring is refused
abbrev scarce : Memory
scarce = record { grants = λ n. not (n == 6); requests = 3; live = 5 }

parse_refused_lem_example :
    Returns
      (λ r.
        (ms : List (Str × Match)) × Scans engine any_character (97 ∷ 98 ∷ []) ms
        × ((kept : List Str) × (lost : ℕ) × (m' : Memory) × (r
              ≡ some (kept, record handle { sub_str = kept }, m'))
            × KeptTexts scarce.grants ms kept lost
            × (m'.live ≡ 2 + 1 + 2 * length kept + lost)))
      (parse engine 3 handle (97 ∷ 98 ∷ []) scarce)
parse_refused_lem_example =
    parse_refused_lem engine 2 3 handle (97 ∷ 98 ∷ []) scarce any_character-Advances
      any_character-InText (omega arith) refl
