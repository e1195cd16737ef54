-- ===== src/Regex/Scan.antt =====
-- sky_regex_match (sky/src/sky_regex.c): the matches one behind the other.
use skysdk.Base.{
  ℕ, zero, suc, ◌+◌, ◌%◌, ◌<◌, ◌≤◌, ◌≡◌, refl, ◌∙◌, ap, inl, inr, Option-cases, none, some, List,
  [], ◌∷◌, Str, length, drop, length-drop, arith,
}
use skysdk.Regex.{Match, Engine, Regex, spans, match_loop, match_count}

-- the entries of all matches
abbrev pub total : List (Str × Match) → ℕ
total [] = 0
total ((p, m) ∷ ms) = length (spans m) + total ms

module _ {R : Type 0} (engine : Engine R) where
  -- The matches in a text: each is the first in what is left behind the one before.
  pub data Scans (r : R) : Str → List (Str × Match) → Type 0 where
    ended : {p : Str} → engine.regexec r p ≡ none → Scans r p []
    next :
        {p : Str} {m : Match} {ms : List (Str × Match)}
        → engine.regexec r p ≡ some m
        → Scans r (drop (m.whole.1) p) ms
        → Scans r p ((p, m) ∷ ms)

  -- Matches end within the text, and behind its start.
  abbrev pub Advances : R → Type 0
  Advances r =
      (p : Str) (m : Match) → engine.regexec r p ≡ some m → (0 < m.whole.1) × (m.whole.1 ≤ length p)

  pub Scans-total :
      (r : R)
      → Advances r
      → (fuel : ℕ) (p : Str) → length p < fuel
      → (ms : List (Str × Match)) × Scans r p ms × (length ms ≤ length p)
  Scans-total r adv zero p short = absurd (omega (arith, short))
  Scans-total r adv (suc fuel) p short = elim (Option-cases (engine.regexec r p)) [
    | inl over ↦ ([], ended over, omega arith)
    | inr (m, found) ↦
        let (start, end) = adv p m found in
        let size = length-drop (m.whole.1) p in
        let (ms, scan, few) =
          Scans-total r adv fuel (drop (m.whole.1) p) (omega (arith, short, start, end, size)) in
        ((p, m) ∷ ms, next found scan, omega (arith, few, start, end, size))
  ]

  match_loop_out : (r : R) (p : Str) (count : ℕ) → match_loop engine zero r p count ≡ none
  unfolding match_loop
  match_loop_out r p count = refl

  match_loop_step :
      (fuel : ℕ) (r : R) (p : Str) (count : ℕ) {m : Match}
      → engine.regexec r p ≡ some m
      → match_loop engine (suc fuel) r p count
        ≡ match_loop engine fuel r (drop (m.whole.1) p) ((count + length (spans m)) % 0x1_0000_0000)
  unfolding match_loop
  match_loop_step fuel r p count found = rw (found, match_loop) refl

  match_loop_end :
      (fuel : ℕ) (r : R) (p : Str) (count : ℕ)
      → engine.regexec r p ≡ none
      → match_loop engine (suc fuel) r p count ≡ some count
  unfolding match_loop
  match_loop_end fuel r p count over = rw (over, match_loop) refl

  match_loop_lem :
      {r : R} {p : Str} {ms : List (Str × Match)} (fuel count : ℕ)
      → Scans r p ms
      → length ms < fuel
      → count < 0x1_0000_0000
      → match_loop engine fuel r p count ≡ some ((count + total ms) % 0x1_0000_0000)
  match_loop_lem zero count scan short small = absurd (omega (arith, short))
  match_loop_lem {r} {p} (suc fuel) count (ended over) short small =
      match_loop_end fuel r p count over ∙ ap some (omega (arith, small))
  match_loop_lem {r} {p} (suc fuel) count (next {m} {ms} found scan) short small =
      match_loop_step fuel r p count found
      ∙ match_loop_lem fuel ((count + length (spans m)) % 0x1_0000_0000) scan (omega (arith, short))
          (omega arith)
      ∙ ap some (omega arith)

  pub match_count-total :
      (fuel : ℕ) (h : Regex R) (str : Str)
      → Advances h.regex
      → length str < fuel
      → (ms : List (Str × Match)) × Scans h.regex str ms
        × (match_count engine fuel h str ≡ some (total ms % 0x1_0000_0000))
  unfolding match_count
  match_count-total fuel h str adv short =
      let (ms, scan, few) = Scans-total h.regex adv fuel str short in
      (
        ms,
        scan,
        match_loop_lem fuel 0 scan (omega (arith, few, short)) (omega arith)
            ∙ ap (λ n. some (n % 0x1_0000_0000)) (omega arith),
      )

  -- If the expression has an empty match at the start of the text, sky_regex_match does not end,
  -- however many rounds it has.
  pub match_count-endless :
      (h : Regex R) (str : Str) (m : Match)
      → engine.regexec h.regex str ≡ some m
      → m.whole.1 ≡ 0
      → (fuel : ℕ) → match_count engine fuel h str ≡ none
  unfolding match_count
  match_count-endless h str m found empty fuel = go fuel 0
    where
      stay : drop (m.whole.1) str ≡ str
      stay = rw empty refl

      go : (fuel count : ℕ) → match_loop engine fuel h.regex str count ≡ none
      go zero count = match_loop_out h.regex str count
      go (suc fuel) count =
          match_loop_step fuel h.regex str count found
          ∙ ap (λ p. match_loop engine fuel h.regex p ((count + length (spans m)) % 0x1_0000_0000))
              stay
          ∙ go fuel ((count + length (spans m)) % 0x1_0000_0000)
