-- ===== src/Regex/Parse.antt =====
-- The parts of sky_regex_parse, and sky_regex_destroy (sky/src/sky_regex.c).
use skysdk.Base.{
  ℕ, suc, ◌+◌, ◌*◌, ◌≡◌, refl, ◌∙◌, ap, none, some, List, [], ◌∷◌, Str, length, drop, ok, arith,
}
use skysdk.Memory.{Memory, free_lem}
use skysdk.Regex.{Match, Engine, Regex, spans, substr_free, keep_spans, parse_loop, destroy}

pub substr_free_lem :
    (ss : List Str) (m : Memory) (k : ℕ)
    → m.live ≡ k + 2 * length ss
    → substr_free ss m ≡ ok (record m { live = k })
unfolding substr_free
substr_free_lem [] m k own = ap (λ n. ok (record m { live = n })) (own ∙ omega arith)
substr_free_lem (x ∷ ss) m k own =
    rw
      (
        free_lem m (k + 2 * length ss + 1) (omega (arith, own)),
        free_lem (record m { live = k + 2 * length ss + 1 }) (k + 2 * length ss) (omega arith),
      )
      (substr_free_lem ss (record m { live = k + 2 * length ss }) k refl)

module _ {R : Type 0} (engine : Engine R) (fuel : ℕ) (r : R) (p : Str) (kept : List Str)
    (m : Memory) where
  pub parse_loop_end :
      engine.regexec r p ≡ none → parse_loop engine (suc fuel) r p kept m ≡ some (kept, m)
  unfolding parse_loop
  parse_loop_end over = rw (over, parse_loop) refl

  pub parse_loop_step :
      {found : Match}
      → engine.regexec r p ≡ some found
      → parse_loop engine (suc fuel) r p kept m ≡ (
          let later = keep_spans (spans found) p kept m in
          parse_loop engine fuel r (drop (found.whole.1) p) later.0 later.1)
  unfolding parse_loop
  parse_loop_step hit = rw (hit, parse_loop) refl

-- beside the struct and two blocks for each substring, `other` blocks are live
abbrev pub Owns : {R : Type 0} → ℕ → Regex R → Memory → Type 0
Owns other h m = m.live ≡ other + 1 + 2 * length h.sub_str

-- the freed handle
pub regex_destroy_lem :
    {R : Type 0} (other : ℕ) (h : Regex R) (m : Memory)
    → Owns other h m
    → destroy (some h) m ≡ ok (record m { live = other })
unfolding destroy
regex_destroy_lem other h m own =
    rw (substr_free_lem h.sub_str m (other + 1) own)
      (free_lem (record m { live = other + 1 }) other (omega arith))
