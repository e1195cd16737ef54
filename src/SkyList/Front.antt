-- ===== src/SkyList/Front.antt =====
-- sky_list_create, the queries, and the operations at the two ends (sky/src/sky_list.c). The address
-- that sky_mem_alloc returns is the argument `fresh`, NULL where it fails.
use skysdk.Base.{
  ℕ, ◌+◌, ◌==◌, ltb, not, Bool, true, false, Option, none, some, if◌then◌else◌, Run, ok, ◌>>=◌,
}
use skysdk.SkyList.{
  Ptr, null, Heap, Store, update, decrement, get_item, get_next, get_prev, set_item, set_next,
  set_prev, alloc_item,
}

-- sky_list_create, with SKY_LIST_PREALLOC_NUM at 0, its value in the source: the struct is at
-- `fresh` (NULL where there is no memory), and its sentinels at `head` and `tail`
unfoldable pub create : Heap → ℕ → (fresh head tail : Ptr) → Option Store
create h max_size fresh head tail =
    if ltb 0 max_size
    then if fresh == null
      then none
      else some (record {
        list = record { head = head; tail = tail; prealloc = null; count = 0; max_size = max_size };
        heap = record {
          alive = update (update h.alive head true) tail true;
          item = update (update h.item head null) tail null;
          next = update (update h.next head tail) tail null;
          prev = update (update h.prev head null) tail head;
        };
      })
    else none

unfoldable pub size : Store → ℕ
size s = s.list.count

unfoldable pub max_size : Store → ℕ
max_size s = s.list.max_size

unfoldable pub full : Store → Bool
full s = s.list.count == s.list.max_size

unfoldable pub empty : Store → Bool
empty s = s.list.count == 0

-- sky_list_front: NULL if the list is empty
unfoldable pub front : Store → Run Ptr
unfolding get_item get_next
front s = do
  first ← get_next s.heap s.list.head
  if not (first == s.list.tail) then get_item s.heap first else ok null

unfoldable pub back : Store → Run Ptr
unfolding get_item get_prev
back s = do
  last ← get_prev s.heap s.list.tail
  if not (last == s.list.head) then get_item s.heap last else ok null

-- an item from the spare list, or a new one at `fresh`
unfoldable pub take_item : Store → (fresh : Ptr) → Run (Ptr × Store)
unfolding get_next alloc_item
take_item s fresh =
    if s.list.prealloc == null then ok (fresh, record s { heap = alloc_item s.heap fresh }) else (do
      rest ← get_next s.heap s.list.prealloc
      ok (s.list.prealloc, record s { list = record (s.list) { prealloc = rest } }))

-- the last three statements of an insertion, once the fields of `item` are set
unfoldable pub hook : Store → (item : Ptr) → Heap → Run (Bool × Store)
unfolding get_next get_prev set_next set_prev
hook s item h = do
  before ← get_prev h item
  h₁ ← set_next h before item
  behind ← get_next h₁ item
  h₂ ← set_prev h₁ behind item
  ok (true, record { list = record (s.list) { count = s.list.count + 1 }; heap = h₂ })

-- the assignments of sky_list_push_front to a new item
unfoldable pub link_front : Store → (item v : Ptr) → Run (Bool × Store)
unfolding hook set_item set_prev set_next get_next
link_front s item v = do
  h₁ ← set_item s.heap item v
  h₂ ← set_prev h₁ item s.list.head
  first ← get_next h₂ s.list.head
  h₃ ← set_next h₂ item first
  hook s item h₃

unfoldable pub push_front : Store → (fresh v : Ptr) → Run (Bool × Store)
unfolding take_item link_front
push_front s fresh v =
    if ltb s.list.count s.list.max_size
    then (do
      (item, s') ← take_item s fresh
      if item == null then ok (false, s') else link_front s' item v)
    else ok (false, s)

-- the assignments of sky_list_push_back to a new item
unfoldable pub link_back : Store → (item v : Ptr) → Run (Bool × Store)
unfolding hook set_item set_prev set_next get_prev
link_back s item v = do
  h₁ ← set_item s.heap item v
  last ← get_prev h₁ s.list.tail
  h₂ ← set_prev h₁ item last
  h₃ ← set_next h₂ item s.list.tail
  hook s item h₃

unfoldable pub push_back : Store → (fresh v : Ptr) → Run (Bool × Store)
unfolding take_item link_back
push_back s fresh v =
    if ltb s.list.count s.list.max_size
    then (do
      (item, s') ← take_item s fresh
      if item == null then ok (false, s') else link_back s' item v)
    else ok (false, s)

-- the last statements of a removal: `item` goes to the spare list, and its data is the result
unfoldable pub recycle : Store → (item : Ptr) → Heap → Run (Ptr × Store)
unfolding set_next get_item decrement
recycle s item h = do
  h' ← set_next h item s.list.prealloc
  v ← get_item h' item
  ok (
    v,
    record {
      list = record (s.list) { count = decrement s.list.count; prealloc = item };
      heap = h';
    },
  )

unfoldable pub pop_front : Store → Run (Ptr × Store)
unfolding get_next get_prev set_next set_prev recycle
pop_front s =
    if ltb 0 s.list.count
    then (do
      item ← get_next s.heap s.list.head
      if item == s.list.tail then ok (null, s) else (do
        behind ← get_next s.heap item
        h₁ ← set_next s.heap s.list.head behind
        behind' ← get_next h₁ item
        before ← get_prev h₁ item
        h₂ ← set_prev h₁ behind' before
        recycle s item h₂))
    else ok (null, s)

unfoldable pub pop_back : Store → Run (Ptr × Store)
unfolding get_next get_prev set_next set_prev recycle
pop_back s =
    if ltb 0 s.list.count
    then (do
      first ← get_next s.heap s.list.head
      if first == s.list.tail then ok (null, s) else (do
        item ← get_prev s.heap s.list.tail
        before ← get_prev s.heap item
        h₁ ← set_prev s.heap s.list.tail before
        before' ← get_prev h₁ item
        behind ← get_next h₁ item
        h₂ ← set_next h₁ before' behind
        recycle s item h₂))
    else ok (null, s)
