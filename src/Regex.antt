-- ===== src/Regex.antt =====
-- sky/src/sky_regex.c over the regular expressions of the C library, which are the parameter `engine`.
-- The substrings that lead on by their next pointers are a list.
pub mod Scan
pub mod Entries
pub mod Parse
pub mod Kept
pub mod Refused
mod Tests
use skysdk.Base.{
  ℕ, zero, suc, ◌+◌, ◌-◌, ◌%◌, Bool, true, false, Option, none, some, List, [], ◌∷◌, ◌++◌, Str,
  length, take, drop, if◌then◌else◌, Run, ok, fault, ◌>>=◌,
}
use skysdk.Memory.{Memory, alloc, free}

-- rm_so and rm_eo
abbrev pub Span : Type 0
Span = ℕ × ℕ

-- What regexec writes: the place of the whole match, and of each group, where -1 is `none`.
pub record Match : Type 0 where
  pub whole : Span
  pub groups : List (Option Span)

-- regcomp and regexec
pub record Engine (R : Type 0) : Type 0 where
  pub regcomp : Str → Option R
  pub regexec : R → Str → Option Match

abbrev pub max_match : ℕ
max_match = 100

-- the entries that the loops over `m` visit: up to the first -1
unfoldable pub visited : ℕ → List (Option Span) → List Span
visited zero ms = []
visited (suc n) [] = []
visited (suc n) (none ∷ ms) = []
visited (suc n) (some span ∷ ms) = span ∷ visited n ms

abbrev pub spans : Match → List Span
spans m = visited max_match (some (m.whole) ∷ m.groups)

-- SKY_HANDLE_REGEX
pub record Regex (R : Type 0) : Type 0 where
  pub regex : R
  pub sub_str : List Str

-- sky_regex_substr_free
unfoldable pub substr_free : List Str → Memory → Run Memory
substr_free [] m = ok m
substr_free (s ∷ rest) m = do m₁ ← free m; m₂ ← free m₁; substr_free rest m₂

-- the characters of a match in `p`
abbrev pub piece : Str → Span → Str
piece p (so, eo) = take (eo - so) (drop so p)

-- the inner loop of sky_regex_parse, which ends where an allocation fails
unfoldable pub keep_spans : List Span → (p : Str) → List Str → Memory → List Str × Memory
keep_spans [] p kept m = (kept, m)
keep_spans (span ∷ rest) p kept m =
    let (node, m₁) = alloc m in
    let (copy, m₂) = alloc m₁ in
    let later = keep_spans rest p (kept ++ piece p span ∷ []) m₂ in
    if node then if copy then later else (kept, m₂) else (kept, m₁)

module _ {R : Type 0} (engine : Engine R) where
  -- sky_regex_create
  unfoldable pub create : Str → Memory → Run (Option (Regex R) × Memory)
  create regex m =
      let (granted, m₁) = alloc m in
      if granted
      then (elim (engine.regcomp regex) [
        | none ↦ free m₁ >>= λ m₂. ok (none, m₂)
        | some r ↦ ok (some (record { regex = r; sub_str = [] }), m₁)
      ])
      else ok (none, m₁)

  -- the loop of sky_regex_match on fuel; `none` where the fuel runs out
  unfoldable pub match_loop : ℕ → R → (p : Str) → (match_count : ℕ) → Option ℕ
  match_loop zero r p match_count = none
  match_loop (suc fuel) r p match_count = elim (engine.regexec r p) [
    | none ↦ some match_count
    | some m ↦
        match_loop fuel r (drop (m.whole.1) p) ((match_count + length (spans m)) % 0x1_0000_0000)
  ]

  -- sky_regex_match
  unfoldable pub match_count : ℕ → Regex R → Str → Option ℕ
  match_count fuel h str = match_loop fuel h.regex str 0

  -- the loop of sky_regex_parse
  unfoldable pub parse_loop : ℕ → R → (p : Str) → List Str → Memory → Option (List Str × Memory)
  parse_loop zero r p kept m = none
  parse_loop (suc fuel) r p kept m = elim (engine.regexec r p) [
    | none ↦ some (kept, m)
    | some found ↦
        let (kept', m') = keep_spans (spans found) p kept m in
        parse_loop fuel r (drop (found.whole.1) p) kept' m'
  ]

  -- sky_regex_parse
  unfoldable pub parse : ℕ → Regex R → Str → Memory → Run (Option (List Str × Regex R × Memory))
  parse fuel h str m = do
    m₁ ← substr_free h.sub_str m
    ok (elim (parse_loop fuel h.regex str [] m₁) [
      | none ↦ none
      | some (kept, m₂) ↦ some (kept, record h { sub_str = kept }, m₂)
    ])

-- sky_regex_destroy; the memory of the compiled expression is not counted
unfoldable pub destroy : {R : Type 0} → Option (Regex R) → Memory → Run Memory
destroy none m = ok m
destroy (some h) m = do m₁ ← substr_free h.sub_str m; free m₁
