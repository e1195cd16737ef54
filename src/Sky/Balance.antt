-- ===== src/Sky/Balance.antt =====
-- Calls of sky_init and sky_uninit in balance (sky/src/sky.c).
use skysdk.Base.{
  ◌+◌, ◌≤◌, ◌<◌, ◌==◌, false, if◌then◌else◌, arith, ℕ, zero, suc, ◌≡◌, refl, ap, ◌∙◌, Bool, true,
  List, [], ◌∷◌, ◌++◌, map,
}
use skysdk.Base.Int.{pos}
use skysdk.Sky.{
  Part, debug, critical_section, mem, list, sys, str, hash, regex, dll, process, rwlock,
  share_memory, base64, Call, init, uninit, int_max, Library, init_funcs, uninit_funcs, increment,
  decrement, start, sky_init, sky_uninit,
}

-- `n` calls of sky_init, and of sky_uninit
abbrev pub inits : (Part → Bool) → ℕ → Library → Library
inits starts zero l = l
inits starts (suc n) l = inits starts n (sky_init starts l).1

abbrev pub uninits : ℕ → Library → Library
uninits zero l = l
uninits (suc n) l = uninits n (sky_uninit l)

start_all :
    (starts : Part → Bool)
    → ((p : Part) → starts p ≡ true)
    → (i : ℕ) (ps : List Part) → start starts i ps ≡ (true, map init ps)
unfolding start
start_all starts all i [] = refl
start_all starts all i (p ∷ ps) = rw (all p, start_all starts all (suc i) ps) refl

raise : ℕ → ℕ → ℕ
raise zero k = k
raise (suc n) k = raise n (suc k)

raise-suc : (n k : ℕ) → raise n (suc k) ≡ suc (raise n k)
unfolding raise
raise-suc zero k = refl
raise-suc (suc n) k = raise-suc n (suc k)

one_more :
    (starts : Part → Bool) (k : ℕ) (calls : List Call)
    → suc k < int_max
    → (sky_init starts (record { init_count = pos (suc k); log = calls })).1
      ≡ record { init_count = pos (suc (suc k)); log = calls }
unfolding sky_init increment
one_more starts k calls few = let e : (suc k == int_max) ≡ false = ground (arith, few) in rw e refl

more_users :
    (starts : Part → Bool) (n k : ℕ) (calls : List Call)
    → suc (n + k) ≤ int_max
    → inits starts n (record { init_count = pos (suc k); log = calls })
      ≡ record { init_count = pos (suc (raise n k)); log = calls }
unfolding raise
more_users starts zero k calls few = refl
more_users starts (suc n) k calls few =
    ap (inits starts n) (one_more starts k calls (omega (arith, few)))
    ∙ more_users starts n (suc k) calls (omega (arith, few))

fewer_users :
    (n : ℕ) (calls : List Call)
    → uninits (suc n) (record { init_count = pos (suc (raise n 0)); log = calls })
      ≡ record { init_count = pos zero; log = calls ++ uninit_funcs }
unfolding sky_uninit decrement raise
fewer_users zero calls = refl
fewer_users (suc n) calls = rw (raise-suc n 0) (fewer_users n calls)

-- the parts in the order of their names in sky.c's first table
abbrev number : Part → ℕ
number debug = 0
number critical_section = 1
number mem = 2
number list = 3
number sys = 4
number str = 5
number hash = 6
number regex = 7
number dll = 8
number process = 9
number rwlock = 10
number share_memory = 11
number base64 = 12
number Part.map = 13

-- how often a part is started, and ended, in a log
abbrev pub starts_of : Part → List Call → ℕ
starts_of p [] = 0
starts_of p (init q ∷ cs) = if number q == number p then suc (starts_of p cs) else starts_of p cs
starts_of p (uninit q ∷ cs) = starts_of p cs

abbrev pub ends_of : Part → List Call → ℕ
ends_of p [] = 0
ends_of p (init q ∷ cs) = ends_of p cs
ends_of p (uninit q ∷ cs) = if number q == number p then suc (ends_of p cs) else ends_of p cs

-- each part once, but for the end of `mem`, in whose place it is started again
abbrev pub EachOnce : (started ended : List Call) → Part → Type 0
EachOnce started ended p =
    (starts_of p started ≡ 1)
    × (ends_of p started ≡ 0)
    × (ends_of p ended ≡ (if number p == number mem then 0 else 1))
    × (starts_of p ended ≡ (if number p == number mem then 1 else 0))

tables-EachOnce : (p : Part) → EachOnce (map init init_funcs) uninit_funcs p
unfolding init_funcs uninit_funcs
tables-EachOnce debug = (refl, refl, refl, refl)
tables-EachOnce critical_section = (refl, refl, refl, refl)
tables-EachOnce mem = (refl, refl, refl, refl)
tables-EachOnce list = (refl, refl, refl, refl)
tables-EachOnce sys = (refl, refl, refl, refl)
tables-EachOnce str = (refl, refl, refl, refl)
tables-EachOnce hash = (refl, refl, refl, refl)
tables-EachOnce regex = (refl, refl, refl, refl)
tables-EachOnce dll = (refl, refl, refl, refl)
tables-EachOnce process = (refl, refl, refl, refl)
tables-EachOnce rwlock = (refl, refl, refl, refl)
tables-EachOnce share_memory = (refl, refl, refl, refl)
tables-EachOnce base64 = (refl, refl, refl, refl)
tables-EachOnce Part.map = (refl, refl, refl, refl)

-- If every part starts, then after n + 1 calls of sky_init and as many of sky_uninit, n + 1 at
-- most INT_MAX, the count is 0 again and the calls of parts are two runs: in the first each part
-- is started once and none ended; in the second each part is ended once and none started, but for
-- 'mem', which is started again and not ended.
pub uninits-inits :
    (starts : Part → Bool) (n : ℕ) (calls : List Call)
    → ((p : Part) → starts p ≡ true)
    → n < int_max
    → (started : List Call) × (ended : List Call) × (uninits
          (suc n)
          (inits starts (suc n) (record { init_count = pos zero; log = calls }))
        ≡ record { init_count = pos zero; log = (calls ++ started) ++ ended })
      × ((p : Part) → EachOnce started ended p)
unfolding sky_init increment
uninits-inits starts n calls all few = (
  map init init_funcs,
  uninit_funcs,
  rw (start_all starts all 0 init_funcs) (
      ap (uninits (suc n))
        (more_users starts n 0 (calls ++ map init init_funcs) (omega (arith, few)))
      ∙ fewer_users n (calls ++ map init init_funcs)),
  tables-EachOnce,
)
