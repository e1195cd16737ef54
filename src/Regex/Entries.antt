-- ===== src/Regex/Entries.antt =====
-- What the loops of sky/src/sky_regex.c over the entries of a match come to, told without them.
use skysdk.Base.{
  ℕ, zero, suc, ◌+◌, ◌-◌, ◌%◌, ◌<◌, ◌≤◌, ◌≡◌, ◌⊎◌, refl, sym, ap, ◌∙◌, inl, inr, Option, none, some,
  List, [], ◌∷◌, ◌++◌, map, Str, length, take, drop, arith,
}
use skysdk.Regex.{Span, Match, Engine, Regex, match_count, visited, spans, piece}
use skysdk.Regex.Scan.{Scans, Advances, total, match_count-total}

-- the 100 entries at most that regexec is given room for
abbrev pub table : Match → List (Option Span)
table m = take 100 (some (m.whole) ∷ m.groups)

-- `ss` are the entries of the table in front of its first -1, or all of them
abbrev pub UpToHole : List (Option Span) → List Span → Type 0
UpToHole entries ss =
    (rest : List (Option Span)) × (entries ≡ map some ss ++ rest)
    × ((rest ≡ []) ⊎ ((later : List (Option Span)) × (rest ≡ none ∷ later)))

visited-UpToHole : (n : ℕ) (ms : List (Option Span)) → UpToHole (take n ms) (visited n ms)
unfolding visited
visited-UpToHole zero ms = ([], refl, inl refl)
visited-UpToHole (suc n) [] = ([], refl, inl refl)
visited-UpToHole (suc n) (none ∷ ms) = (none ∷ take n ms, refl, inr (take n ms, refl))
visited-UpToHole (suc n) (some span ∷ ms) =
    let (rest, e, ends) = visited-UpToHole n ms in (rest, ap (λ l. some span ∷ l) e, ends)

pub spans-UpToHole : (m : Match) → UpToHole (table m) (spans m)
spans-UpToHole m = visited-UpToHole 100 (some (m.whole) ∷ m.groups)

-- n is the number of such entries of all matches
abbrev pub Counted : List (Str × Match) → ℕ → Type 0
Counted [] n = n ≡ 0
Counted ((p, m) ∷ ms) n =
    (ss : List Span) × (k : ℕ) × UpToHole (table m) ss × Counted ms k × (n ≡ length ss + k)

pub total-Counted : (ms : List (Str × Match)) → Counted ms (total ms)
total-Counted [] = refl
total-Counted ((p, m) ∷ ms) = (spans m, total ms, spans-UpToHole m, total-Counted ms, refl)

-- the characters of `p` from rm_so up to rm_eo
abbrev pub Between : Str → Span → Str → Type 0
Between p (so, eo) text =
    (before : Str) × (after : Str) × (p ≡ before ++ (text ++ after))
    × (length before ≡ so)
    × (so + length text ≡ eo)

abbrev pub AllBetween : Str → List Span → List Str → Type 0
AllBetween p [] texts = texts ≡ []
AllBetween p (s ∷ ss) texts =
    (text : Str) × (later : List Str) × (texts ≡ text ∷ later)
    × Between p s text
    × AllBetween p ss later

-- every entry lies in the text
abbrev pub Placed : Str → List (Option Span) → Type 0
Placed p [] = Unit
Placed p (none ∷ ms) = Placed p ms
Placed p (some (so, eo) ∷ ms) = (so ≤ eo) × (eo ≤ length p) × Placed p ms

-- What POSIX says of regexec: an entry that is not -1 lies in the text.
abbrev pub InText : {R : Type 0} → Engine R → R → Type 0
InText engine r =
    (p : Str) (m : Match) → engine.regexec r p ≡ some m → Placed p (some (m.whole) ∷ m.groups)

split_at : (n : ℕ) (p : Str) → n ≤ length p → (take n p ++ drop n p ≡ p) × (length (take n p) ≡ n)
split_at zero p le = (refl, refl)
split_at (suc n) [] le = absurd (omega (arith, le))
split_at (suc n) (c ∷ p) le =
    let (e, size) = split_at n p (omega (arith, le)) in (ap (λ l. c ∷ l) e, ap suc size)

length-drop_all : (n : ℕ) (p : Str) → n ≤ length p → length (drop n p) + n ≡ length p
length-drop_all zero p le = omega arith
length-drop_all (suc n) [] le = absurd (omega (arith, le))
length-drop_all (suc n) (c ∷ p) le = omega (arith, length-drop_all n p (omega (arith, le)))

piece-Between :
    (p : Str) (so eo : ℕ) → so ≤ eo → eo ≤ length p → Between p (so, eo) (piece p (so, eo))
piece-Between p so eo le inside =
    let (whole, front) = split_at so p (omega (arith, le, inside)) in
    let rest = length-drop_all so p (omega (arith, le, inside)) in
    let (tail, size) = split_at (eo - so) (drop so p) (omega (arith, rest, le, inside)) in
    (
      take so p,
      drop (eo - so) (drop so p),
      sym whole ∙ ap (λ l. take so p ++ l) (sym tail),
      front,
      omega (arith, size, le),
    )

visited-AllBetween :
    (p : Str) (n : ℕ) (ms : List (Option Span))
    → Placed p ms
    → AllBetween p (visited n ms) (map (piece p) (visited n ms))
unfolding visited
visited-AllBetween p zero ms placed = refl
visited-AllBetween p (suc n) [] placed = refl
visited-AllBetween p (suc n) (none ∷ ms) placed = refl
visited-AllBetween p (suc n) (some (so, eo) ∷ ms) (le, inside, placed) = (
  piece p (so, eo),
  map (piece p) (visited n ms),
  refl,
  piece-Between p so eo le inside,
  visited-AllBetween p n ms placed,
)

pub spans-AllBetween :
    (p : Str) (m : Match)
    → Placed p (some (m.whole) ∷ m.groups)
    → AllBetween p (spans m) (map (piece p) (spans m))
spans-AllBetween p m placed = visited-AllBetween p 100 (some (m.whole) ∷ m.groups) placed

-- For an expression whose matches end within the text and behind its start, and with more rounds
-- than the text has characters, sky_regex_match ends: there are matches, each the first in what is
-- left behind the one before, and the result is modulo 2^32 the number of the entries of all
-- matches: of each, of its first 100 entries, those in front of the first -1, or all.
pub match_count_lem :
    {R : Type 0} (engine : Engine R) (fuel : ℕ) (h : Regex R) (str : Str)
    → Advances engine h.regex
    → length str < fuel
    → (ms : List (Str × Match)) × (n : ℕ) × Scans engine h.regex str ms
      × Counted ms n
      × (match_count engine fuel h str ≡ some (n % 0x1_0000_0000))
match_count_lem engine fuel h str adv short =
    let (ms, scan, run) = match_count-total engine fuel h str adv short in
    (ms, total ms, scan, total-Counted ms, run)
