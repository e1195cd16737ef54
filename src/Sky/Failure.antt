-- ===== src/Sky/Failure.antt =====
-- A start of the library that fails (sky/src/sky.c).
use mathlib.Core.List.{reverse, reverse-cons}
use skysdk.Base.{
  ℕ, zero, suc, ◌+◌, ◌≡◌, refl, ap, sym, ◌∙◌, Bool, true, false, List, [], ◌∷◌, ◌++◌, length, take,
  map, arith,
}
use skysdk.Base.Int.{pos}
use skysdk.Sky.{Part, Call, init, init_funcs, uninit_funcs, start, roll_back, sky_init}

abbrev pub AllStart : (Part → Bool) → List Part → Type 0
AllStart starts [] = Unit
AllStart starts (p ∷ ps) = (starts p ≡ true) × AllStart starts ps

roll_back_lem : (i : ℕ) (calls : List Call) → roll_back i calls ≡ reverse (take i calls)
unfolding roll_back
roll_back_lem zero calls = refl
roll_back_lem (suc i) [] = refl
roll_back_lem (suc i) (c ∷ calls) =
    ap (λ r. r ++ c ∷ []) (roll_back_lem i calls) ∙ sym (reverse-cons c (take i calls))

start_stops :
    (starts : Part → Bool) (p : Part) (post : List Part)
    → starts p ≡ false
    → (i : ℕ) (pre : List Part) → AllStart starts pre
    → start starts i (pre ++ p ∷ post)
      ≡ (false, map init pre ++ init p ∷ roll_back (i + length pre) uninit_funcs)
unfolding start
start_stops starts p post fails i [] all = let e : i + 0 ≡ i = omega arith in rw (fails, e) refl
start_stops starts p post fails i (q ∷ pre) (first, all) =
    let e : i + suc (length pre) ≡ suc i + length pre = omega arith in
    rw (first, start_stops starts p post fails (suc i) pre all, e) refl

-- With no user so far, and if the parts before a part of INIT_FUNCS start and that part does not,
-- sky_init gives false, the count stays 0, and behind the starts up to the failing one as many
-- entries of UNINIT_FUNCS as parts have started are called, from the front of that table and the
-- last of them first.
pub failed_init_lem :
    (starts : Part → Bool) (pre : List Part) (p : Part) (post : List Part) (calls : List Call)
    → init_funcs ≡ pre ++ p ∷ post
    → AllStart starts pre
    → starts p ≡ false
    → sky_init starts (record { init_count = pos zero; log = calls }) ≡ (
      false,
      record {
        init_count = pos zero;
        log = calls ++ (map init pre ++ init p ∷ reverse (take (length pre) uninit_funcs));
      },
    )
unfolding sky_init
failed_init_lem starts pre p post calls table all fails =
    let e : 0 + length pre ≡ length pre = omega arith in
    rw
      (table, start_stops starts p post fails 0 pre all, e, roll_back_lem (length pre) uninit_funcs)
      refl
