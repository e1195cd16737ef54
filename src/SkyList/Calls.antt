-- ===== src/SkyList/Calls.antt =====
-- Histories of calls on one list (sky/src/sky_list.c), and the bounded sequence that they refine.
use skysdk.Base.{
  ℕ, ◌≡◌, ◌==◌, Bool, true, false, Option, none, some, List, [], ◌∷◌, ◌++◌, take, drop, length,
  if◌then◌else◌, Run, ok, ◌>>=◌,
}
use skysdk.SkyList.{Ptr, null, Store}
use skysdk.SkyList.Front.{push_front, push_back, pop_front, pop_back}
use skysdk.SkyList.Scan.{insert, remove_if, clear}
use skysdk.SkyList.Pop.{take_first, take_last}

-- a call of one of the operations that change a list
pub data Call : Type 0 where
  push_front_call : (v : Ptr) → Call
  push_back_call : (v : Ptr) → Call
  insert_call : (index : ℕ) → (v : Ptr) → Call
  pop_front_call : Call
  pop_back_call : Call
  remove_call : (test : Ptr → Bool) → Call
  clear_call : Call

pub data Answer : Type 0 where
  accepted : Bool → Answer
  taken : Ptr → Answer
  cleared : Answer

-- the call, with what sky_mem_alloc would return
abbrev pub perform : Call → (fresh : Ptr) → Store → Run (Answer × Store)
perform (push_front_call v) fresh s = push_front s fresh v >>= λ r. ok (accepted r.0, r.1)
perform (push_back_call v) fresh s = push_back s fresh v >>= λ r. ok (accepted r.0, r.1)
perform (insert_call index v) fresh s = insert s fresh index v >>= λ r. ok (accepted r.0, r.1)
perform pop_front_call fresh s = pop_front s >>= λ r. ok (taken r.0, r.1)
perform pop_back_call fresh s = pop_back s >>= λ r. ok (taken r.0, r.1)
perform (remove_call test) fresh s = remove_if s test >>= λ r. ok (taken r.0, r.1)
perform clear_call fresh s = clear s >>= λ s'. ok (cleared, s')

-- calls in a row, each with the address that sky_mem_alloc would return
unfoldable pub perform_all : List (Call × Ptr) → Store → Run (List Answer × Store)
perform_all [] s = ok ([], s)
perform_all ((c, fresh) ∷ cs) s = do
  r ← perform c fresh s
  rest ← perform_all cs r.1
  ok (r.0 ∷ rest.0, rest.1)

-- each address is neither NULL nor in use when its call is made
abbrev pub Allocated : List (Call × Ptr) → Store → Type 0
Allocated [] s = Unit
Allocated ((c, fresh) ∷ cs) s =
    (s.heap.alive fresh ≡ false)
    × ((fresh == null) ≡ false)
    × ((r : Answer × Store) → perform c fresh s ≡ ok r → Allocated cs r.1)

-- The abstract operations: a sequence with a limit.
abbrev pub put_in : (limit : ℕ) → (old new : List Ptr) → Answer × List Ptr
put_in limit old new = if length old == limit then (accepted false, old) else (accepted true, new)

abbrev pub take_out : List Ptr → Option (Ptr × List Ptr) → Answer × List Ptr
take_out vs none = (taken null, vs)
take_out vs (some r) = (taken r.0, r.1)

unfoldable pub answer : (limit : ℕ) → Call → List Ptr → Answer × List Ptr
answer limit (push_front_call v) vs = put_in limit vs (v ∷ vs)
answer limit (push_back_call v) vs = put_in limit vs (vs ++ v ∷ [])
answer limit (insert_call index v) vs = put_in limit vs (take index vs ++ v ∷ drop index vs)
answer limit pop_front_call vs = take_out vs (take_first (λ v. true) vs)
answer limit pop_back_call vs = take_out vs (take_last vs)
answer limit (remove_call test) vs = take_out vs (take_first test vs)
answer limit clear_call vs = (cleared, [])

unfoldable pub answers : (limit : ℕ) → List Call → List Ptr → List Answer × List Ptr
unfolding answer
answers limit [] vs = ([], vs)
answers limit (c ∷ cs) vs =
    let a = answer limit c vs in let rest = answers limit cs a.1 in (a.0 ∷ rest.0, rest.1)
