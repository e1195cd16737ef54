-- ===== src/SkyList/Scan.antt =====
-- The operations of sky/src/sky_list.c that walk the list. A loop to the tail sentinel runs on fuel,
-- `count + 1` rounds, which suffice for a list in order; out of fuel is a fault. A comparison function
-- with its two parameters is the argument `test`.
use skysdk.Base.{
  ℕ, zero, suc, ◌+◌, ◌==◌, ltb, not, ◌&&◌, Bool, false, if◌then◌else◌, Run, ok, fault, ◌>>=◌,
}
use skysdk.SkyList.{
  Ptr, null, Heap, Store, update, decrement, get_item, get_next, get_prev, set_item, set_next,
  set_prev, free_item,
}
use skysdk.SkyList.Front.{take_item, hook, recycle}

-- `while (item != NULL && index-- > 0) item = item->next;`
unfoldable pub walk : Heap → Ptr → ℕ → Run Ptr
unfolding get_next
walk h item zero = ok item
walk h item (suc index) = if item == null then ok item else (do n ← get_next h item; walk h n index)

unfoldable pub get_at : Store → (index : ℕ) → Run Ptr
unfolding walk get_next get_item
get_at s index =
    if ltb 0 s.list.count
    then if ltb index s.list.count
      then (do
        first ← get_next s.heap s.list.head
        item ← walk s.heap first index
        if item == null then ok null else get_item s.heap item)
      else ok null
    else ok null

-- the assignments of sky_list_insert to a new item that goes in front of `itor`
unfoldable pub link_before : Store → (item v itor : Ptr) → Run (Bool × Store)
unfolding hook set_item set_prev set_next get_prev
link_before s item v itor = do
  h₁ ← set_item s.heap item v
  h₂ ← set_next h₁ item itor
  before ← get_prev h₂ itor
  h₃ ← set_prev h₂ item before
  hook s item h₃

-- sky_list_insert; `while (index-- && itor != NULL) itor = itor->next;` makes the rounds of `walk`
unfoldable pub insert : Store → (fresh : Ptr) → (index : ℕ) → (v : Ptr) → Run (Bool × Store)
unfolding take_item walk link_before get_next
insert s fresh index v =
    if ltb s.list.count s.list.max_size
    then (do
      (item, s') ← take_item s fresh
      if item == null then ok (false, s') else (do
        first ← get_next s'.heap s'.list.head
        itor ← walk s'.heap first index
        link_before s' item v (if itor == null then s'.list.tail else itor)))
    else ok (false, s)

-- the loop of sky_list_remove_if and sky_list_find_if: the first item that passes, or the tail
unfoldable pub scan : Heap → (tail : Ptr) → (Ptr → Bool) → ℕ → Ptr → Run Ptr
unfolding get_item get_next
scan h tail test zero itor = fault
scan h tail test (suc fuel) itor = if itor == tail then ok itor else (do
  v ← get_item h itor
  n ← get_next h itor
  let rest = scan h tail test fuel n
  if test v then ok itor else rest)

unfoldable pub remove_if : Store → (Ptr → Bool) → Run (Ptr × Store)
unfolding scan get_next get_prev set_next set_prev recycle
remove_if s test = do
  first ← get_next s.heap s.list.head
  itor ← scan s.heap s.list.tail test (s.list.count + 1) first
  if itor == s.list.tail then ok (null, s) else (do
    before ← get_prev s.heap itor
    behind ← get_next s.heap itor
    h₁ ← set_next s.heap before behind
    behind' ← get_next h₁ itor
    before' ← get_prev h₁ itor
    h₂ ← set_prev h₁ behind' before'
    recycle s itor h₂)

-- sky_list_remove, by compare_data_ptr
unfoldable pub remove : Store → (v : Ptr) → Run (Ptr × Store)
unfolding remove_if
remove s v = remove_if s (λ item. item == v)

unfoldable pub find_if : Store → (Ptr → Bool) → Run Ptr
unfolding scan get_next get_item
find_if s test = do
  first ← get_next s.heap s.list.head
  itor ← scan s.heap s.list.tail test (s.list.count + 1) first
  if itor == s.list.tail then ok null else get_item s.heap itor

unfoldable pub contain : Store → (v : Ptr) → Run Bool
unfolding find_if
contain s v = do ret ← find_if s (λ item. item == v); ok (not (ret == null) && (ret == v))

-- the loop of sky_list_clear
unfoldable pub clear_loop : ℕ → Store → Run Store
unfolding get_next set_next decrement
clear_loop zero s = fault
clear_loop (suc fuel) s = do
  first ← get_next s.heap s.list.head
  if first == s.list.tail then ok s else (do
    temp ← get_next s.heap first
    h₁ ← set_next s.heap first s.list.prealloc
    h₂ ← set_next h₁ s.list.head temp
    clear_loop fuel (record {
      list = record (s.list) { prealloc = first; count = decrement s.list.count };
      heap = h₂;
    }))

unfoldable pub clear : Store → Run Store
unfolding clear_loop set_prev
clear s = do
  s' ← clear_loop (s.list.count + 1) s
  h ← set_prev s'.heap s'.list.tail s'.list.head
  ok (record s' { heap = h })

-- the loops of sky_list_destroy, over the list and over the spare items
unfoldable pub free_list : ℕ → Store → Run Store
unfolding get_next set_next free_item decrement
free_list zero s = fault
free_list (suc fuel) s = do
  temp ← get_next s.heap s.list.head
  if temp == s.list.tail then ok s else (do
    n ← get_next s.heap temp
    h₁ ← set_next s.heap s.list.head n
    h₂ ← free_item h₁ temp
    free_list fuel
        (record { list = record (s.list) { count = decrement s.list.count }; heap = h₂ }))

unfoldable pub free_spare : ℕ → Heap → Ptr → Run Heap
unfolding get_next free_item
free_spare zero h p = fault
free_spare (suc fuel) h p =
    if p == null
    then ok h
    else (do temp ← get_next h p; h' ← free_item h p; free_spare fuel h' temp)

-- sky_list_destroy; `spare` is fuel for the spare items. The struct goes with its sentinels.
unfoldable pub destroy : ℕ → Store → Run Heap
unfolding free_list free_spare
destroy spare s = do
  s' ← free_list (s.list.count + 1) s
  h ← free_spare spare s'.heap s'.list.prealloc
  ok (record h { alive = update (update h.alive s'.list.head false) s'.list.tail false })
