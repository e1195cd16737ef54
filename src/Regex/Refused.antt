-- ===== src/Regex/Refused.antt =====
-- sky_regex_parse (sky/src/sky_regex.c) whatever requests for memory are refused.
use skysdk.Base.{
  ℕ, zero, suc, ◌+◌, ◌*◌, ◌<◌, ◌≡◌, refl, sym, ◌∙◌, ap, Bool, some, List, [], ◌∷◌, ◌++◌, map, Str,
  length, take, length-append, length-map, Returns, returns, mono, arith,
}
use mathlib.Core.List.{append-nil, append_assoc}
use skysdk.Memory.{Memory}
use skysdk.Regex.{Span, Match, Engine, Regex, spans, piece, keep_spans, parse_loop, parse}
use skysdk.Regex.Scan.{Scans, Advances, Scans-total, ended, next}
use skysdk.Regex.Entries.{InText, UpToHole, AllBetween, table, spans-UpToHole, spans-AllBetween}
use skysdk.Regex.Parse.{Owns, substr_free_lem, parse_loop_end, parse_loop_step}
use skysdk.Regex.Kept.{Cut, Kept, length-take, Cut-le, keep_spans_lem}

module _ (g : ℕ → Bool) where
  -- the loop adds what is kept of the matches
  parse_loop_lem :
      {R : Type 0} (engine : Engine R) {r : R} {p : Str} {ms : List (Str × Match)} (fuel : ℕ)
      (kept : List Str) (m : Memory)
      → Scans engine r p ms
      → length ms < fuel
      → m.grants ≡ g
      → (new : List Str) × (lost : ℕ) × (m' : Memory) × (parse_loop engine fuel r p kept m
          ≡ some (kept ++ new, m'))
        × Kept g ms new lost
        × (m'.live ≡ m.live + 2 * length new + lost)
  parse_loop_lem engine zero kept m scan short same = absurd (omega (arith, short))
  parse_loop_lem engine {r} {p} (suc fuel) kept m (ended over) short same = (
    [],
    0,
    m,
    parse_loop_end engine fuel r p kept m over ∙ ap (λ k. some (k, m)) (sym (append-nil kept)),
    (refl, refl),
    omega arith,
  )
  parse_loop_lem engine {r} {p} (suc fuel) kept m (next {m = found} {ms} hit scan) short same =
      let after = keep_spans (spans found) p kept m in
      let (n, here, e, cut, live, same') = keep_spans_lem g (spans found) p kept m same in
      let (new, later, m', run, rest, live') =
        parse_loop_lem engine fuel after.0 after.1 scan (omega (arith, short)) same' in
      let first = take n (map (piece p) (spans found)) in
      let size : length first ≡ n = length-take n (map (piece p) (spans found)) (
        omega (
          arith,
          Cut-le g n (length (spans found)) here cut,
          length-map (piece p) (spans found),
        )) in
      (
        first ++ new,
        here + later,
        m',
        parse_loop_step engine fuel r p kept m hit
            ∙ run
            ∙ ap (λ k. some (k, m')) (ap (λ k. k ++ new) e ∙ append_assoc kept first new),
        (n, here, new, later, refl, refl, cut, rest),
        omega (arith, live, live', size, length-append first new),
      )

-- the same in the words of the model
parse_kept_lem :
    {R : Type 0} (engine : Engine R) (other fuel : ℕ) (h : Regex R) (str : Str) (m : Memory)
    → Advances engine h.regex
    → length str < fuel
    → Owns other h m
    → Returns
        (λ r.
          (ms : List (Str × Match)) × Scans engine h.regex str ms
          × ((kept : List Str) × (lost : ℕ) × (m' : Memory) × (r
                ≡ some (kept, record h { sub_str = kept }, m'))
              × Kept m.grants ms kept lost
              × (m'.live ≡ other + 1 + 2 * length kept + lost)))
        (parse engine fuel h str m)
unfolding parse
parse_kept_lem engine other fuel h str m adv short own =
    let (ms, scan, few) = Scans-total engine h.regex adv fuel str short in
    let start = record m { live = other + 1 } in
    let (kept, lost, m', run, split, live) =
      parse_loop_lem m.grants engine fuel [] start scan (omega (arith, few, short)) refl in
    rw (substr_free_lem h.sub_str m (other + 1) own, run)
      (returns (ms, scan, (kept, lost, m', refl, split, live)))

-- Of each match, the texts of the entries in front of its first -1: all of them, or the first ones.
abbrev pub KeptTexts : (ℕ → Bool) → List (Str × Match) → List Str → ℕ → Type 0
KeptTexts g [] kept lost = (kept ≡ []) × (lost ≡ 0)
KeptTexts g ((p, m) ∷ ms) kept lost =
    (ss : List Span) × (texts : List Str) × UpToHole (table m) ss
    × AllBetween p ss texts
    × ((n : ℕ) × (here : ℕ) × (rest : List Str) × (later : ℕ) × (kept ≡ take n texts ++ rest)
        × (lost ≡ here + later)
        × Cut g n (length ss) here
        × KeptTexts g ms rest later)

Kept-KeptTexts :
    {R : Type 0} (engine : Engine R) (g : ℕ → Bool) {r : R} {p : Str} {ms : List (Str × Match)}
    (kept : List Str) (lost : ℕ)
    → InText engine r
    → Scans engine r p ms
    → Kept g ms kept lost
    → KeptTexts g ms kept lost
Kept-KeptTexts engine g kept lost within (ended over) split = split
Kept-KeptTexts engine g {r} {p} kept lost within (next {m} {ms} hit scan)
      (n, here, rest, later, e, sum, cut, split) =
    (
      spans m,
      map (piece p) (spans m),
      spans-UpToHole m,
      spans-AllBetween p m (within p m hit),
      (n, here, rest, later, e, sum, cut, Kept-KeptTexts engine g rest later within scan split),
    )

-- For an expression whose matches end within the text and behind its start, and whose entries that
-- are not -1 lie in the text, with more rounds than the text has characters, and where the blocks
-- of the handle are accounted for, sky_regex_parse returns, whatever requests for memory are
-- refused. The substrings of an earlier text are freed; the result is what the handle then has: of
-- each match in order, the characters from rm_so up to rm_eo of the entries, among its first 100,
-- in front of the first -1: all of them with no block lost, or only the first ones, because a
-- request is refused, with at most one block lost. Beside two blocks for each substring and the
-- lost ones, as many are live as are not the handle's, and its struct.
pub parse_refused_lem :
    {R : Type 0} (engine : Engine R) (other fuel : ℕ) (h : Regex R) (str : Str) (m : Memory)
    → Advances engine h.regex
    → InText engine h.regex
    → length str < fuel
    → Owns other h m
    → Returns
        (λ r.
          (ms : List (Str × Match)) × Scans engine h.regex str ms
          × ((kept : List Str) × (lost : ℕ) × (m' : Memory) × (r
                ≡ some (kept, record h { sub_str = kept }, m'))
              × KeptTexts m.grants ms kept lost
              × (m'.live ≡ other + 1 + 2 * length kept + lost)))
        (parse engine fuel h str m)
parse_refused_lem engine other fuel h str m adv within short own =
    mono (parse_kept_lem engine other fuel h str m adv short own) (λ r found.
      let (ms, scan, (kept, lost, m', run, split, live)) = found in
      (
        ms,
        scan,
        (kept, lost, m', run, Kept-KeptTexts engine m.grants kept lost within scan split, live),
      ))
