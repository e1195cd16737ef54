-- ===== src/Regex/Kept.antt =====
-- the substrings of one match that sky_regex_parse (sky/src/sky_regex.c) keeps
use skysdk.Base.{
  ℕ, zero, suc, ◌+◌, ◌*◌, ◌<◌, ◌≤◌, ◌≡◌, ◌⊎◌, refl, sym, ◌∙◌, ap, inl, inr, Bool, false, List, [],
  ◌∷◌, ◌++◌, map, Str, length, take, arith,
}
use mathlib.Core.List.{append-nil, append_assoc}
use skysdk.Memory.{Memory, more, asked, alloc, alloc_lem, refusal}
use skysdk.Regex.{Match, Span, spans, piece, keep_spans}

-- Of `count` entries the first n are kept: all of them; or fewer, because a request is refused, and
-- then one block may be lost.
abbrev pub Cut : (ℕ → Bool) → (n count lost : ℕ) → Type 0
Cut g n count lost =
    ((n ≡ count) × (lost ≡ 0)) ⊎ ((n < count) × (lost ≤ 1) × ((k : ℕ) × (g k ≡ false)))

-- what is kept of the matches, in order, and how many blocks are lost
abbrev pub Kept : (ℕ → Bool) → List (Str × Match) → List Str → ℕ → Type 0
Kept g [] kept lost = (kept ≡ []) × (lost ≡ 0)
Kept g ((p, m) ∷ ms) kept lost =
    (n : ℕ) × (here : ℕ) × (rest : List Str) × (later : ℕ) × (kept
      ≡ take n (map (piece p) (spans m)) ++ rest)
    × (lost ≡ here + later)
    × Cut g n (length (spans m)) here
    × Kept g ms rest later

pub length-take {ℓ} : {A : Type ℓ} (n : ℕ) (xs : List A) → n ≤ length xs → length (take n xs) ≡ n
length-take zero xs le = refl
length-take (suc n) [] le = absurd (omega (arith, le))
length-take (suc n) (x ∷ xs) le = ap suc (length-take n xs (omega (arith, le)))

pub Cut-le : (g : ℕ → Bool) (n count lost : ℕ) → Cut g n count lost → n ≤ count
Cut-le g n count lost (inl (all, none_lost)) = omega (arith, all)
Cut-le g n count lost (inr (fewer, few, refused)) = omega (arith, fewer)

refused_by :
    (g : ℕ → Bool) (m : Memory)
    → m.grants ≡ g
    → alloc m ≡ (false, asked m)
    → (k : ℕ) × (g k ≡ false)
refused_by g m same refused = (m.requests, ap (λ f. f m.requests) (sym same) ∙ refusal m refused)

module _ (g : ℕ → Bool) where
  -- what the inner loop comes to
  abbrev pub KeptSpans : List Span → Str → List Str → Memory → List Str × Memory → Type 0
  KeptSpans ss p kept m (kept', m') =
      (n : ℕ) × (lost : ℕ) × (kept' ≡ kept ++ take n (map (piece p) ss))
      × Cut g n (length ss) lost
      × (m'.live ≡ m.live + 2 * n + lost)
      × (m'.grants ≡ g)

  one_more :
      (span : Span) (ss : List Span) (p : Str) (kept : List Str) (m : Memory)
      (r : List Str × Memory)
      → KeptSpans ss p (kept ++ piece p span ∷ []) (more (more m)) r
      → KeptSpans (span ∷ ss) p kept m r
  one_more span ss p kept m (kept', m') (n, lost, e, cut, live, same) = (
    suc n,
    lost,
    e ∙ append_assoc kept (piece p span ∷ []) (take n (map (piece p) ss)),
    elim cut [
      | inl (all, none_lost) ↦ inl (omega (arith, all), none_lost)
      | inr (fewer, few, refused) ↦ inr (omega (arith, fewer), few, refused)
    ],
    omega (arith, live),
    same,
  )

  pub keep_spans_lem :
      (ss : List Span) (p : Str) (kept : List Str) (m : Memory)
      → m.grants ≡ g
      → KeptSpans ss p kept m (keep_spans ss p kept m)
  unfolding keep_spans
  keep_spans_lem [] p kept m same =
      (0, 0, sym (append-nil kept), inl (refl, refl), omega arith, same)
  keep_spans_lem (span ∷ ss) p kept m same = elim (alloc_lem m) [
    | inr refused ↦
        rw (refused, keep_spans)
          (
            0,
            0,
            sym (append-nil kept),
            inr (omega arith, omega arith, refused_by g m same refused),
            omega arith,
            same,
          )
    | inl first ↦ elim (alloc_lem (more m)) [
      | inr refused ↦
          rw (first, refused, keep_spans)
            (
              0,
              1,
              sym (append-nil kept),
              inr (omega arith, omega arith, refused_by g (more m) same refused),
              omega arith,
              same,
            )
      | inl second ↦
          rw (first, second, keep_spans)
            (one_more span ss p kept m (keep_spans ss p (kept ++ piece p span ∷ []) (more (more m)))
              (keep_spans_lem ss p (kept ++ piece p span ∷ []) (more (more m)) same))
    ]
  ]
