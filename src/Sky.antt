-- ===== src/Sky.antt =====
-- sky/src/sky.c: the library's start and end, with the count of its users, and the dispatch of a
-- handle to the code that closes it. The two tables are read with the separators that their lines
-- miss. Whether the start of a part succeeds is an argument; what is called is kept in a log.
pub mod Balance
pub mod Failure
mod Tests
use skysdk.Base.{
  ℕ, zero, suc, ◌==◌, Bool, true, false, List, [], ◌∷◌, ◌++◌, if◌then◌else◌, Run, ok, fault,
}
use skysdk.Base.Int.{ℤ, pos, negsuc, is_zero}

pub data Part : Type 0 where
  debug : Part
  critical_section : Part
  mem : Part
  list : Part
  sys : Part
  str : Part
  hash : Part
  regex : Part
  dll : Part
  process : Part
  rwlock : Part
  share_memory : Part
  base64 : Part
  map : Part

pub data Call : Type 0 where
  init : Part → Call
  uninit : Part → Call

-- init_count, and the calls of parts so far
pub record Library : Type 0 where
  pub init_count : ℤ
  pub log : List Call

-- INIT_FUNCS
unfoldable pub init_funcs : List Part
init_funcs =
    debug ∷ critical_section ∷ mem ∷ list ∷ sys ∷ str ∷ hash ∷ regex ∷ dll ∷ process ∷ rwlock
    ∷ share_memory ∷ base64 ∷ map ∷ []

-- UNINIT_FUNCS, where the start of `mem` stands in the place of its end
unfoldable pub uninit_funcs : List Call
uninit_funcs =
    uninit map
    ∷ uninit base64
    ∷ uninit share_memory
    ∷ uninit rwlock
    ∷ uninit process
    ∷ uninit dll
    ∷ uninit regex
    ∷ uninit hash
    ∷ uninit str
    ∷ uninit sys
    ∷ uninit list
    ∷ init mem
    ∷ uninit critical_section
    ∷ uninit debug
    ∷ []

-- INT_MAX
abbrev pub int_max : ℕ
int_max = 0x7fff_ffff

-- `init_count++` on int; behind INT_MAX, where C leaves the result open, stands INT_MIN
unfoldable pub increment : ℤ → ℤ
increment (pos n) = if n == int_max then negsuc int_max else pos (suc n)
increment (negsuc zero) = pos zero
increment (negsuc (suc n)) = negsuc n

-- `init_count--` on int, likewise
unfoldable pub decrement : ℤ → ℤ
decrement (pos zero) = negsuc zero
decrement (pos (suc n)) = pos n
decrement (negsuc n) = if n == int_max then pos int_max else negsuc (suc n)

-- the first calls of UNINIT_FUNCS, the last of them first: `for ( j = i - 1; j >= 0; j-- )`
unfoldable pub roll_back : ℕ → List Call → List Call
roll_back zero calls = []
roll_back (suc i) [] = []
roll_back (suc i) (c ∷ calls) = roll_back i calls ++ c ∷ []

-- the loop of sky_init with `i` parts started: whether all start, and the calls made
unfoldable pub start : (Part → Bool) → (i : ℕ) → List Part → Bool × List Call
unfolding roll_back uninit_funcs
start starts i [] = (true, [])
start starts i (p ∷ ps) =
    let rest = start starts (suc i) ps in
    if starts p then (rest.0, init p ∷ rest.1) else (false, init p ∷ roll_back i uninit_funcs)

unfoldable pub sky_init : (Part → Bool) → Library → Bool × Library
sky_init starts l =
    if is_zero l.init_count
    then (let run = start starts 0 init_funcs in
        if run.0
        then (true, record { init_count = increment l.init_count; log = l.log ++ run.1 })
        else (false, record l { log = l.log ++ run.1 }))
    else (true, record l { init_count = increment l.init_count })

abbrev pub is_one : ℤ → Bool
is_one (pos zero) = false
is_one (pos (suc zero)) = true
is_one (pos (suc (suc n))) = false
is_one (negsuc n) = false

unfoldable pub sky_uninit : Library → Library
unfolding decrement uninit_funcs
sky_uninit l = record {
  init_count = decrement l.init_count;
  log = if is_one l.init_count then l.log ++ uninit_funcs else l.log;
}

-- the values of `type` in the head of an object that sky_close_handle tells apart
pub data HandleType : Type 0 where
  type_critical_section : HandleType
  type_list : HandleType
  type_hash : HandleType
  type_regex : HandleType
  type_dll : HandleType
  type_rwlock : HandleType
  type_share_memory : HandleType
  type_map : HandleType
  type_other : HandleType

-- the part whose destructor sky_close_handle calls
unfoldable pub close_handle : HandleType → List Part
close_handle type_critical_section = critical_section ∷ []
close_handle type_list = list ∷ []
close_handle type_hash = hash ∷ []
close_handle type_regex = regex ∷ []
close_handle type_dll = dll ∷ []
close_handle type_rwlock = rwlock ∷ []
close_handle type_share_memory = share_memory ∷ []
close_handle type_map = map ∷ []
close_handle type_other = []
