-- ===== src/Sky/Tests.antt =====
-- Runs of sky_init and sky_uninit (sky/src/sky.c), with and without a part that fails.
use mathlib.Core.List.{reverse}
use skysdk.Base.{◌≡◌, refl, Bool, true, false, List, [], ◌∷◌, ◌++◌, arith, take, map}
use skysdk.Base.Int.{pos}
use skysdk.Sky.{
  Part, debug, critical_section, mem, list, sys, str, hash, regex, dll, process, rwlock,
  share_memory, base64, Call, init, init_funcs, uninit_funcs, sky_init,
}
use skysdk.Sky.Balance.{inits, uninits, EachOnce, uninits-inits}
use skysdk.Sky.Failure.{failed_init_lem}

uninits-inits_example :
    (started : List Call) × (ended : List Call) × (uninits 3
        (inits (λ p. true) 3 (record { init_count = pos 0; log = [] }))
      ≡ record { init_count = pos 0; log = ([] ++ started) ++ ended })
    × ((p : Part) → EachOnce started ended p)
uninits-inits_example = uninits-inits (λ p. true) 2 [] (λ p. refl) (omega arith)

-- all but `mem` start
abbrev without_mem : Part → Bool
without_mem mem = false
without_mem _ = true

abbrev behind_mem : List Part
behind_mem =
    list ∷ sys ∷ str ∷ hash ∷ regex ∷ dll ∷ process ∷ rwlock ∷ share_memory ∷ base64 ∷ Part.map ∷ []

table : init_funcs ≡ (debug ∷ critical_section ∷ []) ++ mem ∷ behind_mem
unfolding init_funcs
table = refl

failed_init_lem_example : sky_init without_mem (record { init_count = pos 0; log = [] }) ≡ (
  false,
  record {
    init_count = pos 0;
    log =
        []
        ++ (map init (debug ∷ critical_section ∷ []) ++ init mem ∷ reverse (take 2 uninit_funcs));
  },
)
failed_init_lem_example =
    failed_init_lem without_mem (debug ∷ critical_section ∷ []) mem behind_mem [] table
      (refl, (refl, tt)) refl
